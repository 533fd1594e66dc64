-- ===== src/Service/Strings.antt =====
-- redis.cc: the requests on keys and strings: SET, DEL, MSET, GET, STRLEN, EXISTS, APPEND, the
-- counters, TYPE, EXPIRE, PEXPIRE, PERSIST, TTL and PTTL.
--
-- A request is the arguments that the parser completed it with, so `_args_count` is their number.
-- `parallel_for_each` starts the calls in the order of the keys, and a core serves the calls of
-- another in the order in which they came. `now` is the clock.
use Prim.Native.Nat.{bit_or}
use pedis.Base.{
  ℕ, suc, ◌+◌, ◌*◌, ◌%◌, Bool, true, false, Option, none, some, List, [], ◌∷◌, ◌==◌, ◌||◌, not,
  if◌then◌else◌, length,
}
use pedis.Base.Int.{ℤ, pos, negsuc}
use pedis.Base.Bytes.{Bytes}
use pedis.TimerSet.{TimerSet}
use pedis.Reply.{Message, Reply}
use pedis.Database.{say}
use pedis.Database.Strings
use pedis.Service.{try_on, Host, Shards, Served, invoke_on, serve_on, refuse, redis_key, cpu_of}

-- FLAG_SET_NO, FLAG_SET_EX and FLAG_SET_PX
abbrev pub flag_set_no : ℕ
flag_set_no = 1

abbrev pub flag_set_ex : ℕ
flag_set_ex = 2

abbrev pub flag_set_px : ℕ
flag_set_px = 4

-- An option of SET by its two letters; `bad` is one of another size.
pub data Kind : Type 0 where
  ex px nx xx unknown bad : Kind

abbrev pub letter : ℕ → ℕ → Bool
letter c o = o == c || o + 32 == c

unfoldable pub option_kind : Bytes → Kind
option_kind (a ∷ b ∷ []) =
    if not (letter b'x' b)
    then Kind.unknown
    else if letter b'e' a
    then Kind.ex
    else if letter b'p' a
    then Kind.px
    else if letter b'n' a
    then Kind.nx
    else if letter b'x' a
    then Kind.xx
    else Kind.unknown
option_kind _ = Kind.bad

-- `expir * 1000`
abbrev pub to_milliseconds : ℤ → ℤ
to_milliseconds (pos n) = pos (n * 1000)
to_milliseconds (negsuc n) = negsuc (n * 1000 + 999)

-- The loop over the options of SET; `none` is the syntax error.
module _ (H : Host) where
  unfoldable pub set_options : List Bytes → ℤ → ℕ → Option (ℤ × ℕ)
  set_options [] expir flag = some (expir, flag)
  set_options (o ∷ []) expir flag = elim (option_kind o) [
    | ex ↦ none
    | px ↦ none
    | nx ↦ some (expir, bit_or flag Strings.flag_set_nx)
    | xx ↦ some (expir, bit_or flag Strings.flag_set_xx)
    | unknown ↦ some (expir, flag)
    | bad ↦ none
  ]
  set_options (o ∷ v ∷ rest) expir flag = elim (option_kind o) [
    | ex ↦ set_options rest (to_milliseconds (H.atol v)) (bit_or flag flag_set_ex)
    | px ↦ set_options rest (H.atol v) (bit_or flag flag_set_px)
    | nx ↦ set_options (v ∷ rest) expir (bit_or flag Strings.flag_set_nx)
    | xx ↦ set_options (v ∷ rest) expir (bit_or flag Strings.flag_set_xx)
    | unknown ↦ set_options (v ∷ rest) expir flag
    | bad ↦ none
  ]

-- `std::pair` of the keys and values of MSET
unfoldable pub pairs : List Bytes → List (Bytes × Bytes)
pairs (k ∷ v ∷ rest) = (k, v) ∷ pairs rest
pairs _ = []

module _ {F S : Type 0} (H : Host) where
  -- `remove_impl`
  unfoldable pub remove_impl : Bytes → Shards F S → Bool × Shards F S
  remove_impl key = invoke_on (cpu_of H key) (Strings.del_direct (redis_key H key))

  -- `state.success_count` of DEL with several keys
  unfoldable pub remove_all : List Bytes → Shards F S → ℕ × Shards F S
  unfolding remove_impl
  remove_all [] m = (0, m)
  remove_all (key ∷ keys) m0 =
      let (r, m1) = remove_impl key m0 in
      let (n, m2) = remove_all keys m1 in (if r then suc n else n, m2)

  -- DEL
  unfoldable pub del : List Bytes → Shards F S → Served F S
  unfolding remove_impl remove_all
  del [] m = refuse m
  del (key ∷ []) m0 =
      let (r, m) = remove_impl key m0 in some (say (if r then Message.one else Message.zero), m)
  del keys m0 = let (n, m) = remove_all keys m0 in some (Reply.size n, m)

  -- `exists_impl`
  unfoldable pub exists_impl : Bytes → Shards F S → Bool × Shards F S
  exists_impl key = invoke_on (cpu_of H key) (Strings.exists_direct (redis_key H key))

  unfoldable pub exists_all : List Bytes → Shards F S → ℕ × Shards F S
  unfolding exists_impl
  exists_all [] m = (0, m)
  exists_all (key ∷ keys) m0 =
      let (r, m1) = exists_impl key m0 in
      let (n, m2) = exists_all keys m1 in (if r then suc n else n, m2)

  -- EXISTS
  unfoldable pub exists : List Bytes → Shards F S → Served F S
  unfolding exists_impl exists_all
  exists [] m = refuse m
  exists (key ∷ []) m0 =
      let (r, m) = exists_impl key m0 in some (say (if r then Message.one else Message.zero), m)
  exists keys m0 = let (n, m) = exists_all keys m0 in some (Reply.size n, m)

  -- GET
  unfoldable pub get : List Bytes → Shards F S → Served F S
  get [] m = refuse m
  get (key ∷ _) m = serve_on (cpu_of H key) (Strings.get (redis_key H key)) m

  -- STRLEN
  unfoldable pub strlen : List Bytes → Shards F S → Served F S
  strlen [] m = refuse m
  strlen (key ∷ _) m = serve_on (cpu_of H key) (Strings.strlen (redis_key H key)) m

  -- TYPE
  unfoldable pub type : List Bytes → Shards F S → Served F S
  type [] m = refuse m
  type (key ∷ _) m = serve_on (cpu_of H key) (Strings.type (redis_key H key)) m

  -- PTTL
  unfoldable pub pttl : ℤ → List Bytes → Shards F S → Served F S
  pttl now [] m = refuse m
  pttl now (key ∷ _) m = serve_on (cpu_of H key) (Strings.pttl now (redis_key H key)) m

  -- TTL
  unfoldable pub ttl : ℤ → List Bytes → Shards F S → Served F S
  ttl now [] m = refuse m
  ttl now (key ∷ _) m = serve_on (cpu_of H key) (Strings.ttl now (redis_key H key)) m

module _ {F S : Type 0} ⦃T : TimerSet S⦄ (H : Host) where
  -- SET
  unfoldable pub set : ℤ → List Bytes → Shards F S → Served F S
  set now (key ∷ val ∷ options) m = elim (set_options H options (pos 0) flag_set_no) [
    | none ↦ refuse m
    | some (expir, flag) ↦
        serve_on (cpu_of H key) (Strings.set now (redis_key H key) val expir flag) m
  ]
  set now _ m = refuse m

  -- `state.success_count` of MSET
  unfoldable pub set_all : ℤ → List (Bytes × Bytes) → Shards F S → ℕ × Shards F S
  set_all now [] m = (0, m)
  set_all now ((key, val) ∷ entries) m0 =
      let handler = Strings.set_direct now (redis_key H key) val (pos 0) flag_set_no in
      let (r, m1) = invoke_on (cpu_of H key) handler m0 in
      let (n, m2) = set_all now entries m1 in (if r then suc n else n, m2)

  -- MSET
  unfoldable pub mset : ℤ → List Bytes → Shards F S → Served F S
  unfolding set_all
  mset now (key ∷ val ∷ rest) m0 =
      let args = key ∷ val ∷ rest in
      let (n, m) = set_all now (pairs args) m0 in
      if not (length args % 2 == 0)
      then refuse m0
      else some (say (if length (pairs args) == n then Message.ok else Message.err), m)
  mset now _ m = refuse m

  -- APPEND
  unfoldable pub append : List Bytes → Shards F S → Served F S
  append (key ∷ val ∷ _) m = try_on (cpu_of H key) (Strings.append (redis_key H key) val) m
  append _ m = refuse m

  -- INCR, INCRBY, DECR and DECRBY
  unfoldable pub counter_by : Bool → Bool → List Bytes → Shards F S → Served F S
  counter_by incr false (key ∷ _) m =
      serve_on (cpu_of H key) (Strings.counter_by (redis_key H key) 1 incr) m
  counter_by incr true (key ∷ s ∷ _) m =
      serve_on (cpu_of H key)
        (Strings.counter_by (redis_key H key) (Strings.to_word (H.atol s)) incr) m
  counter_by incr with_step _ m = refuse m

  -- EXPIRE
  unfoldable pub expire : ℤ → List Bytes → Shards F S → Served F S
  expire now (key ∷ t ∷ _) m =
      try_on (cpu_of H key) (Strings.expire now (redis_key H key) (to_milliseconds (H.atol t))) m
  expire now _ m = refuse m

  -- PEXPIRE
  unfoldable pub pexpire : ℤ → List Bytes → Shards F S → Served F S
  pexpire now (key ∷ t ∷ _) m =
      try_on (cpu_of H key) (Strings.expire now (redis_key H key) (H.atol t)) m
  pexpire now _ m = refuse m

  -- PERSIST
  unfoldable pub persist : List Bytes → Shards F S → Served F S
  persist [] m = refuse m
  persist (key ∷ _) m = serve_on (cpu_of H key) (Strings.persist (redis_key H key)) m
