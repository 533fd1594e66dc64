-- ===== src/Cache.antt =====
-- cache.hh: cache entries and the cache, the table of all keys of a shard. The table is an
-- intrusive unordered set, here the list of its entries in any order; hashing to buckets and
-- `maybe_rehash` do not change which entries it holds. `S` is the type of timer sets.
pub mod Table
pub mod Timers
pub mod Effects
use pedis.Base.{
  ℕ, zero, suc, ◌+◌, ◌%◌, ◌-◌, ◌≡◌, Bool, true, false, Option, none, some, List, [], ◌∷◌, ◌&&◌,
  ◌||◌, not, ◌==◌, if◌then◌else◌, length,
}
use pedis.Base.Int.{ℤ, pos, negsuc, ◌+ℤ◌}
use pedis.Base.Bytes.{Bytes, bytes_eq}
use pedis.DictLsa.{Dict, word}
use pedis.SsetLsa.{Sset}
use pedis.Keys.{RedisKey, TimePoint, same_key}
use pedis.TimerSet.{TimerSet}

-- `data_type` with its part of the union. An `int64` is its bit pattern.
pub data Value (F : Type 0) : Type 0 where
  numeric : F → Value F
  int64 : ℕ → Value F
  bytes : Bytes → Value F
  list : List Bytes → Value F
  dict : Dict F → Value F
  set : Dict F → Value F
  sset : Sset F → Value F
  hll : Bytes → Value F

pub record CacheEntry (F : Type 0) : Type 0 where
  pub key : Bytes
  pub key_hash : ℕ
  pub value : Value F
  pub timeout : TimePoint

-- `expiration(long s)`, at the time `now`.
unfoldable pub expiration : ℤ → ℤ → TimePoint
unfolding ◌+ℤ◌
expiration now (pos zero) = none
expiration now s = some (now +ℤ s)

pub record Cache (F S : Type 0) : Type 0 where
  pub store : List (CacheEntry F)
  pub alive : S
  -- the time that `_timer` was last armed for, if it was armed
  pub timer : Option TimePoint

module _ {F : Type 0} where
  abbrev pub type_of_float : Value F → Bool
  type_of_float (numeric x) = true
  type_of_float _ = false

  abbrev pub type_of_integer : Value F → Bool
  type_of_integer (int64 n) = true
  type_of_integer _ = false

  abbrev pub type_of_bytes : Value F → Bool
  type_of_bytes (bytes b) = true
  type_of_bytes _ = false

  abbrev pub type_of_list : Value F → Bool
  type_of_list (list l) = true
  type_of_list _ = false

  abbrev pub type_of_map : Value F → Bool
  type_of_map (dict d) = true
  type_of_map _ = false

  abbrev pub type_of_set : Value F → Bool
  type_of_set (set d) = true
  type_of_set _ = false

  abbrev pub type_of_sset : Value F → Bool
  type_of_sset (sset s) = true
  type_of_sset _ = false

  abbrev pub type_of_hll : Value F → Bool
  type_of_hll (hll b) = true
  type_of_hll _ = false

  abbrev pub ever_expires : CacheEntry F → Bool
  ever_expires e = elim e.timeout [ none ↦ false | some t ↦ true ]

  -- The constructors of `cache_entry`.
  abbrev pub new_entry : RedisKey → Value F → CacheEntry F
  new_entry rk v = record { key = rk.key; key_hash = rk.hash; value = v; timeout = none }

  abbrev pub entry_key : CacheEntry F → RedisKey
  entry_key e = record { key = e.key; hash = e.key_hash }

  -- `cache_entry::compare`
  abbrev pub compare : RedisKey → CacheEntry F → Bool
  compare k e = same_key k (entry_key e)

  -- `_store.find`
  unfoldable pub find_in : RedisKey → List (CacheEntry F) → Option (CacheEntry F)
  find_in k [] = none
  find_in k (e ∷ l) = let rest = find_in k l in if compare k e then some e else rest

  -- `_store.erase_and_dispose` of the entry that `find` returns
  unfoldable pub erase_in : RedisKey → List (CacheEntry F) → List (CacheEntry F)
  erase_in k [] = []
  erase_in k (e ∷ l) = let rest = erase_in k l in if compare k e then l else e ∷ rest

  -- `_store.insert(*entry)`: an equal entry stays, and the new one is left out.
  unfoldable pub insert_in : CacheEntry F → List (CacheEntry F) → List (CacheEntry F)
  insert_in e l = elim (find_in (entry_key e) l) [ none ↦ e ∷ l | some x ↦ l ]

  -- A write through the pointer that `find` returns.
  unfoldable pub modify_in :
      (CacheEntry F → CacheEntry F) → RedisKey → List (CacheEntry F) → List (CacheEntry F)
  modify_in f k [] = []
  modify_in f k (e ∷ l) = let rest = modify_in f k l in if compare k e then f e ∷ l else e ∷ rest

  abbrev pub set_value : Value F → CacheEntry F → CacheEntry F
  set_value v e = record e { value = v }

  abbrev pub set_expiry : TimePoint → CacheEntry F → CacheEntry F
  set_expiry t e = record e { timeout = t }

module _ {F S : Type 0} where
  unfoldable pub find : RedisKey → Cache F S → Option (CacheEntry F)
  find k c = find_in k c.store

  unfoldable pub exists : RedisKey → Cache F S → Bool
  exists k c = elim (find_in k c.store) [ none ↦ false | some e ↦ true ]

  unfoldable pub insert : CacheEntry F → Cache F S → Cache F S
  insert e c = record c { store = insert_in e c.store }

  -- The value of the entry of a key, written through a pointer.
  unfoldable pub assign : RedisKey → Value F → Cache F S → Cache F S
  assign k v c = record c { store = modify_in (set_value v) k c.store }

  -- `erase(cache_entry& e)`, for the entry of this key
  unfoldable pub erase_entry : RedisKey → Cache F S → Cache F S
  erase_entry k c = record c { store = erase_in k c.store }

module _ {F S : Type 0} ⦃T : TimerSet S⦄ where
  -- `if (it->ever_expires()) { _alive.remove(*it); }`
  abbrev pub disarm : CacheEntry F → S → S
  disarm e s = if ever_expires e then T.remove (entry_key e) s else s

  -- `erase(const redis_key& key)`
  unfoldable pub erase : RedisKey → Cache F S → Cache F S × Bool
  erase k c = elim (find_in k c.store) [
    | none ↦ (c, false)
    | some e ↦ (record c { store = erase_in k c.store; alive = disarm e c.alive }, true)
  ]

  -- `replace(cache_entry* entry)`: true where the key was not there.
  unfoldable pub replace : CacheEntry F → Cache F S → Cache F S × Bool
  unfolding insert erase
  replace e c = let (c', found) = erase (entry_key e) c in (insert e c', not found)

  -- The entry's own timeout, where `expired > 0`, and the rearmed timer.
  unfoldable pub arm : ℤ → ℤ → CacheEntry F → Cache F S → CacheEntry F × Cache F S
  unfolding expiration
  arm now (pos (suc n)) e c =
      let t = now +ℤ pos (suc n) in
      let (alive, next) = T.insert (entry_key e) (some t) c.alive in
      (
        record e { timeout = some t },
        record c { alive = alive; timer = if next then some (some t) else c.timer },
      )
  arm now expired e c = (e, c)

  -- `insert_if(entry, expired, nx, xx)` at the time `now`
  unfoldable pub insert_if : ℤ → CacheEntry F → ℤ → Bool → Bool → Cache F S → Cache F S × Bool
  insert_if now e expired nx xx c =
      let k = entry_key e in
      let there = exists k c in
      let c1 = if there && (xx || (not xx && not nx)) then (erase k c).0 else c in
      let (e', c2) = arm now expired e c1 in
      if (xx && there) || (nx && not there) || (not nx && not xx)
      then (insert e' c2, true)
      else (c1, false)

  -- `set_expiry` of the entry of a key, and `_alive.insert` of it
  unfoldable pub give_expiry : ℤ → RedisKey → ℤ → Cache F S → Cache F S × Bool
  unfolding expiration
  give_expiry now k expired c = elim (find_in k c.store) [
    | none ↦ (c, false)
    | some e ↦
        let t = expiration now expired in
        let (alive, next) = T.insert (entry_key e) t c.alive in
        (
          record {
            store = modify_in (set_expiry t) k c.store;
            alive = alive;
            timer = if next then some t else c.timer;
          },
          next,
        )
  ]

  -- `expire(rk, expired)` at the time `now`: true where the new timeout is the next one. An entry
  -- that is in the timer set must not be inserted again, and nothing is counted on where it is.
  unfoldable pub expire : ℤ → RedisKey → ℤ → Cache F S → Option (Cache F S × Bool)
  unfolding give_expiry
  expire now k expired c =
      if exists k c && T.armed k c.alive then none else some (give_expiry now k expired c)

  -- `never_expired(rk)`
  unfoldable pub never_expired : RedisKey → Cache F S → Cache F S × Bool
  never_expired k c = elim (find_in k c.store) [
    | none ↦ (c, false)
    | some e ↦
        if ever_expires e
        then (
          record c {
            store = modify_in (set_expiry none) k c.store;
            alive = T.remove (entry_key e) c.alive;
          },
          true,
        )
        else (c, false)
  ]
