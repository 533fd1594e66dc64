-- ===== src/Service.antt =====
-- redis.cc, redis.hh: the service layer. A request is routed to the shard that owns its key, whose
-- handler replies.
pub mod Strings
pub mod Lists
pub mod Hashes
pub mod Sets
pub mod SortedSets
pub mod Bitmaps
pub mod Others
pub mod Store
pub mod Options
pub mod Routing
pub mod Keyspace
pub mod Algebra
pub mod Members
pub mod Moves
pub mod Scores
pub mod Ownership
pub mod Unions
use pedis.Base.{ℕ, ◌%◌, Option, none, some, List, [], ◌∷◌, ◌==◌, if◌then◌else◌}
use pedis.Base.Int.{ℤ}
use pedis.Base.Bytes.{Bytes}
use pedis.Keys.{RedisKey}
use pedis.Reply.{Message, Reply}
use pedis.Database.{Db, Handled, say}

-- What the service takes from its environment: `std::hash`, `smp::count`, `atoi` and `atol`.
pub record Host : Type 0 where
  pub hash : Bytes → ℕ
  pub count : ℕ
  pub atoi : Bytes → ℤ
  pub atol : Bytes → ℤ

-- The database of each core.
abbrev pub Shards : Type 0 → Type 0 → Type 0
Shards F S = ℕ → Db F S

-- A request's reply and the new shards; `none` where a handler does not go on.
abbrev pub Served : Type 0 → Type 0 → Type 0
Served F S = Option (Reply F × Shards F S)

module _ {F S : Type 0} where
  unfoldable pub set_shard : ℕ → Db F S → Shards F S → Shards F S
  set_shard cpu db shards c = if c == cpu then db else shards c

  -- `get_database().invoke_on(cpu, handler, …)`
  unfoldable pub invoke_on : {A : Type 0} → ℕ → (Db F S → A × Db F S) → Shards F S → A × Shards F S
  invoke_on cpu handler shards = let r = handler (shards cpu) in (r.0, set_shard cpu r.1 shards)

  unfoldable pub serve_on : ℕ → (Db F S → Reply F × Db F S) → Shards F S → Served F S
  serve_on cpu handler shards = some (invoke_on cpu handler shards)

  -- The same, of a handler that may not go on.
  unfoldable pub try_on : ℕ → (Db F S → Handled F S) → Shards F S → Served F S
  try_on cpu handler shards = elim (handler (shards cpu)) [
    | none ↦ none
    | some r ↦ some (r.0, set_shard cpu r.1 shards)
  ]

  abbrev pub refuse : Shards F S → Served F S
  refuse shards = some (say Message.syntax_err, shards)

-- `redis_key rk { key }`
abbrev pub redis_key : Host → Bytes → RedisKey
redis_key H key = record { key = key; hash = H.hash key }

-- `get_cpu`
abbrev pub get_cpu : Host → RedisKey → ℕ
get_cpu H rk = rk.hash % H.count

abbrev pub cpu_of : Host → Bytes → ℕ
cpu_of H key = get_cpu H (redis_key H key)

-- What a conversion of the C++ library does: a number, or one of its exceptions.
pub data Number (A : Type 0) : Type 0 where
  value : A → Number A
  invalid_argument out_of_range : Number A

-- The code catches `invalid_argument` only.
abbrev pub with_number : {A F S : Type 0} → Number A → (A → Served F S) → Shards F S → Served F S
with_number x f m = elim x [ value a ↦ f a | invalid_argument ↦ refuse m | out_of_range ↦ none ]
