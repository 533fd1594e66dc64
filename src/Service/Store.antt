-- ===== src/Service/Store.antt =====
-- What the service promises of keys, texts, counters and lists: one map from keys to values, over
-- all shards, and what a request makes of the value of its key.
pub mod Writes
pub mod Acts
pub mod Handlers
pub mod Refines
use mathlib.Core.Option
use pedis.Base.{
  ℕ, suc, ◌+◌, ◌-◌, ◌%◌, Bool, true, false, Option, none, some, List, [], ◌∷◌, ◌++◌, not,
  if◌then◌else◌, length, is_empty,
}
use pedis.Base.Bytes.{Bytes, bytes_eq}
use pedis.Base.Int.{ℤ}
use pedis.DictLsa.{word}
use pedis.Cache
use pedis.Keys.{RedisKey}
use pedis.Cache.{Cache, Value}
use pedis.Reply.{Message, Reply}
use pedis.Database.{say, flag_reply}
use pedis.Service.{Host, Shards, redis_key, cpu_of}

-- The requests, without their key: SET without options, GET, DEL and EXISTS of one key,
-- STRLEN, INCR or DECR, LPUSH or RPUSH of one value, LLEN.
pub data Op : Type 0 where
  set : Bytes → Op
  get del exists strlen llen : Op
  incr : Bool → Op
  push : Bool → Bytes → Op

-- A request on a key at a time
pub record Call : Type 0 where
  pub now : ℤ
  pub key : Bytes
  pub op : Op

-- A map from keys to values.
abbrev pub Store : Type 0 → Type 0
Store F = Bytes → Option (Value F)

-- A counter of 64 bits, one up or one down
abbrev pub stepped : Bool → ℕ → ℕ
stepped up n = if up then (n + 1) % word else (n + (word - 1)) % word

-- A list that takes in a value at its head or at its end
abbrev pub pushed : Bool → Bytes → List Bytes → List Bytes
pushed head text l = if head then text ∷ l else l ++ text ∷ []

module _ {F : Type 0} where
  abbrev pub update : Store F → Bytes → Option (Value F) → Store F
  update s k v j = if bytes_eq j k then v else s j

  abbrev pub wrong_type : Value F → Reply F × Option (Value F)
  wrong_type v = (say Message.type_err, some v)

  unfoldable pub get_value : Value F → Reply F × Option (Value F)
  get_value (Value.bytes b) = (Reply.entry (some (Value.bytes b)), some (Value.bytes b))
  get_value v = wrong_type v

  unfoldable pub strlen_of : Value F → Reply F × Option (Value F)
  strlen_of (Value.bytes b) = (Reply.size (length b), some (Value.bytes b))
  strlen_of v = wrong_type v

  unfoldable pub step_of : Bool → Value F → Reply F × Option (Value F)
  step_of up (Value.int64 n) =
      (Reply.entry (some (Value.int64 (stepped up n))), some (Value.int64 (stepped up n)))
  step_of up v = wrong_type v

  unfoldable pub push_to : Bool → Bytes → Value F → Reply F × Option (Value F)
  push_to head text (Value.list l) =
      (Reply.size (length (pushed head text l)), some (Value.list (pushed head text l)))
  push_to head text v = wrong_type v

  unfoldable pub llen_of : Value F → Reply F × Option (Value F)
  llen_of (Value.list l) = (Reply.size (length l), some (Value.list l))
  llen_of v = wrong_type v

  -- A request on the value of its key: the reply, and the value afterwards.
  unfoldable pub act : Op → Option (Value F) → Reply F × Option (Value F)
  unfolding get_value strlen_of step_of push_to llen_of
  act (Op.set text) v = (say Message.ok, some (Value.bytes text))
  act Op.get none = (Reply.entry none, none)
  act Op.get (some v) = get_value v
  act Op.del none = (say Message.zero, none)
  act Op.del (some v) = (say Message.one, none)
  act Op.exists none = (say Message.zero, none)
  act Op.exists (some v) = (say Message.one, some v)
  act Op.strlen none = (say Message.zero, none)
  act Op.strlen (some v) = strlen_of v
  act (Op.incr up) none = (Reply.entry (some (Value.int64 1)), some (Value.int64 1))
  act (Op.incr up) (some v) = step_of up v
  act (Op.push head text) none = (Reply.size 1, some (Value.list (text ∷ [])))
  act (Op.push head text) (some v) = push_to head text v
  act Op.llen none = (say Message.zero, none)
  act Op.llen (some v) = llen_of v

  -- The calls, one after the other, on a map.
  unfoldable pub replay : List Call → Store F → List (Reply F) × Store F
  unfolding act
  replay [] s = ([], s)
  replay (call ∷ calls) s =
      let r = act call.op (s call.key) in
      let rest = replay calls (update s call.key r.1) in (r.0 ∷ rest.0, rest.1)

module _ {F S : Type 0} where
  -- The value that a cache holds for a key.
  unfoldable pub value_at : RedisKey → Cache F S → Option (Value F)
  value_at k c = Option.map (λ e. e.value) (Cache.find k c)

  -- The map that the shards of a host hold.
  unfoldable pub view : Host → Shards F S → Store F
  unfolding value_at
  view H m k = value_at (redis_key H k) (m (cpu_of H k)).cache
