-- ===== src/Service/Others.antt =====
-- redis.cc: PING, COMMAND, MGET, SRANDMEMBER, SPOP, SELECT, and the requests that have one reply
-- only, as requests of Service/Strings.
use pedis.Base.{ℕ, none, some, List, [], ◌∷◌, if◌then◌else◌, is_empty, leb}
use pedis.Base.Int.{ℤ}
use pedis.Base.Bytes.{Bytes}
use pedis.TimerSet.{TimerSet}
use pedis.Reply.{Message, Reply}
use pedis.Database.{Db, say}
use pedis.Database.Strings.{to_word}
use pedis.Database
use pedis.Service.{
  Host, Number, with_number, Shards, Served, invoke_on, serve_on, try_on, refuse, redis_key, cpu_of,
}

-- `count` of SRANDMEMBER and SPOP
abbrev pub count_argument : (Bytes → Number ℤ) → List Bytes → Number ℕ
count_argument stol [] = Number.value 1
count_argument stol (text ∷ _) = elim (stol text) [
  | Number.value n ↦ Number.value (to_word n)
  | Number.invalid_argument ↦ Number.invalid_argument
  | Number.out_of_range ↦ Number.out_of_range
]

module _ {F S : Type 0} where
  -- PING
  unfoldable pub ping : List Bytes → Shards F S → Served F S
  ping args m = some (say Message.pong, m)

  -- COMMAND
  unfoldable pub command : List Bytes → Shards F S → Served F S
  command args m = some (say Message.ok, m)

  -- PFCOUNT, PFMERGE, ZINTERSTORE: their bodies are commented out.
  unfoldable pub refused : List Bytes → Shards F S → Served F S
  refused args m = refuse m

module _ {F S : Type 0} (H : Host) where
  -- `state.values` of MGET: missing keys and values of other types leave nothing.
  unfoldable pub get_all : List Bytes → Shards F S → List Bytes × Shards F S
  get_all [] m = ([], m)
  get_all (key ∷ keys) m0 =
      let handler = Database.Strings.get_direct (redis_key H key) in
      let (found, m1) = invoke_on (cpu_of H key) handler m0 in
      let (rest, m2) = get_all keys m1 in (elim found [ none ↦ rest | some text ↦ text ∷ rest ], m2)

  -- MGET; `arrival` is the order in which the shards answer.
  unfoldable pub mget : (List Bytes → List Bytes) → List Bytes → Shards F S → Served F S
  unfolding get_all
  mget arrival [] m = refuse m
  mget arrival (key ∷ keys) m0 =
      let (found, m) = get_all (arrival (key ∷ keys)) m0 in
      some (if is_empty found then say Message.nil else Reply.bulks found, m)

  -- SELECT
  unfoldable pub select : (Bytes → Number ℤ) → List Bytes → Shards F S → Served F S
  select stol [] m = refuse m
  select stol (text ∷ _) m = elim (stol text) [
    | Number.value index ↦
        if leb H.count (to_word index) then refuse m else some (say Message.ok, m)
    | Number.invalid_argument ↦ some (say Message.err, m)
    | Number.out_of_range ↦ none
  ]

  -- SRANDMEMBER; the first argument is the random numbers.
  unfoldable pub srandmember : List ℕ → (Bytes → Number ℤ) → List Bytes → Shards F S → Served F S
  srandmember rands stol [] m = refuse m
  srandmember rands stol (key ∷ rest) m =
      with_number (count_argument stol rest)
        (λ n. serve_on (cpu_of H key) (Database.Sets.srandmember rands (redis_key H key) n) m) m

module _ {F S : Type 0} ⦃T : TimerSet S⦄ (H : Host) where
  -- SPOP
  unfoldable pub spop : List ℕ → (Bytes → Number ℤ) → List Bytes → Shards F S → Served F S
  spop rands stol [] m = refuse m
  spop rands stol (key ∷ rest) m =
      with_number (count_argument stol rest)
        (λ n. try_on (cpu_of H key) (Database.Sets.spop rands (redis_key H key) n) m) m
