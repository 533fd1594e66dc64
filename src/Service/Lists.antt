-- ===== src/Service/Lists.antt =====
-- redis.cc: the requests on lists, as requests of Service/Strings.
use pedis.Base.{ℕ, ◌-◌, Bool, true, false, List, [], ◌∷◌, ◌&&◌, not, if◌then◌else◌, leb, map}
use pedis.Base.Bytes.{Bytes, bytes_eq}
use pedis.TimerSet.{TimerSet}
use pedis.Database.Lists
use pedis.Service.{Host, Shards, Served, serve_on, try_on, refuse, redis_key, cpu_of}

-- `toupper`
abbrev pub toupper : ℕ → ℕ
toupper c = if leb b'a' c && leb c b'z' then c - 32 else c

-- "BEFORE"
abbrev pub before_text : Bytes
before_text = b'B' ∷ b'E' ∷ b'F' ∷ b'O' ∷ b'R' ∷ b'E' ∷ []

module _ {F S : Type 0} (H : Host) where
  -- `push_impl`
  unfoldable pub push_impl : Bool → Bool → List Bytes → Shards F S → Served F S
  push_impl force left (key ∷ value ∷ []) m =
      serve_on (cpu_of H key) (Lists.push (redis_key H key) value force left) m
  push_impl force left (key ∷ value ∷ values) m =
      serve_on (cpu_of H key) (Lists.push_multi (redis_key H key) (value ∷ values) force left) m
  push_impl force left _ m = refuse m

  unfoldable pub lpush : List Bytes → Shards F S → Served F S
  unfolding push_impl
  lpush = push_impl true false

  unfoldable pub lpushx : List Bytes → Shards F S → Served F S
  unfolding push_impl
  lpushx = push_impl false false

  unfoldable pub rpush : List Bytes → Shards F S → Served F S
  unfolding push_impl
  rpush = push_impl true true

  unfoldable pub rpushx : List Bytes → Shards F S → Served F S
  unfolding push_impl
  rpushx = push_impl false true

  -- LLEN
  unfoldable pub llen : List Bytes → Shards F S → Served F S
  llen [] m = refuse m
  llen (key ∷ _) m = serve_on (cpu_of H key) (Lists.llen (redis_key H key)) m

  -- LINDEX
  unfoldable pub lindex : List Bytes → Shards F S → Served F S
  lindex (key ∷ idx ∷ _) m = try_on (cpu_of H key) (Lists.lindex (redis_key H key) (H.atoi idx)) m
  lindex _ m = refuse m

  -- LINSERT; the number is the depth of nested calls of `equal`.
  unfoldable pub linsert : ℕ → List Bytes → Shards F S → Served F S
  linsert fuel (key ∷ dir ∷ pivot ∷ value ∷ _) m =
      let after = not (bytes_eq (map toupper dir) before_text) in
      try_on (cpu_of H key) (Lists.linsert fuel (redis_key H key) pivot value after) m
  linsert fuel _ m = refuse m

  -- LRANGE
  unfoldable pub lrange : List Bytes → Shards F S → Served F S
  lrange (key ∷ s ∷ e ∷ _) m =
      serve_on (cpu_of H key) (Lists.lrange (redis_key H key) (H.atoi s) (H.atoi e)) m
  lrange _ m = refuse m

  -- LSET
  unfoldable pub lset : List Bytes → Shards F S → Served F S
  lset (key ∷ index ∷ value ∷ _) m =
      try_on (cpu_of H key) (Lists.lset (redis_key H key) (H.atoi index) value) m
  lset _ m = refuse m

module _ {F S : Type 0} ⦃T : TimerSet S⦄ (H : Host) where
  -- `pop_impl`
  unfoldable pub pop_impl : Bool → List Bytes → Shards F S → Served F S
  pop_impl left [] m = refuse m
  pop_impl left (key ∷ _) m = try_on (cpu_of H key) (Lists.pop (redis_key H key) left) m

  unfoldable pub lpop : List Bytes → Shards F S → Served F S
  unfolding pop_impl
  lpop = pop_impl false

  unfoldable pub rpop : List Bytes → Shards F S → Served F S
  unfolding pop_impl
  rpop = pop_impl true

  -- LTRIM
  unfoldable pub ltrim : List Bytes → Shards F S → Served F S
  ltrim (key ∷ start ∷ stop ∷ _) m =
      try_on (cpu_of H key) (Lists.ltrim (redis_key H key) (H.atoi start) (H.atoi stop)) m
  ltrim _ m = refuse m

  -- LREM
  unfoldable pub lrem : List Bytes → Shards F S → Served F S
  lrem (key ∷ count ∷ value ∷ _) m =
      try_on (cpu_of H key) (Lists.lrem (redis_key H key) (H.atoi count) value) m
  lrem _ m = refuse m
