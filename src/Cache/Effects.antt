-- ===== src/Cache/Effects.antt =====
-- What `find` sees after each operation of the cache.
use mathlib.Core.Option
use pedis.Base.{zero, suc, ◌≡◌, refl, Bool, arith, if◌then◌else◌, none, some, ◌&&◌, ◌||◌, not}
use pedis.Base.Int.{ℤ, pos, negsuc, ◌+ℤ◌}
use pedis.Keys.{RedisKey, same_key, same_key→eq}
use pedis.TimerSet.{TimerSet}
use pedis.Cache.{
  give_expiry, Value, CacheEntry, Cache, entry_key, set_value, set_expiry, expiration, erase_in,
  find, exists, insert, assign, erase, erase_entry, replace, arm, insert_if, never_expired,
}
use pedis.Ordered.Lookup.{or_entry}
use pedis.Cache.Table.{
  IsDistinct, modify_in-IsDistinct, find-insert_in, find-erase_in, find-modify_in, key-find_in,
}

module _ {F : Type 0} where
  -- The entry that `insert_if` puts in: with its timeout where `expired` is positive.
  abbrev pub stamped : ℤ → ℤ → CacheEntry F → CacheEntry F
  stamped now (pos (suc n)) e = record e { timeout = some (now +ℤ pos (suc n)) }
  stamped now _ e = e

  pub entry_key-stamped :
      (now expired : ℤ) (e : CacheEntry F) → entry_key (stamped now expired e) ≡ entry_key e
  entry_key-stamped now (pos zero) e = refl
  entry_key-stamped now (pos (suc n)) e = refl
  entry_key-stamped now (negsuc n) e = refl

  pub value-stamped : (now expired : ℤ) (e : CacheEntry F) → (stamped now expired e).value ≡ e.value
  value-stamped now (pos zero) e = refl
  value-stamped now (pos (suc n)) e = refl
  value-stamped now (negsuc n) e = refl

-- SET's conditions: NX alone refuses a key that is there, XX alone one that is not.
abbrev pub is_refused : Bool → Bool → Bool → Bool
is_refused nx xx there = (nx && not xx && there) || (xx && not nx && not there)

module _ {F S : Type 0} ⦃T : TimerSet S⦄ where
  pub find-erase :
      (j k : RedisKey) (c : Cache F S)
      → IsDistinct c.store
      → find j (erase k c).0 ≡ (if same_key j k then none else find j c)
  unfolding find erase
  find-erase j k c d = ground (arith, find-erase_in j k c.store d, same_key→eq j k)

  pub store-arm :
      (now expired : ℤ) (e : CacheEntry F) (c : Cache F S)
      → ((arm now expired e c).0 ≡ stamped now expired e)
        × ((arm now expired e c).1.store ≡ c.store)
  unfolding arm
  store-arm now (pos zero) e c = (refl, refl)
  store-arm now (pos (suc n)) e c = (refl, refl)
  store-arm now (negsuc n) e c = (refl, refl)

  pub insert_if-is_refused :
      (now : ℤ) (e : CacheEntry F) (expired : ℤ) (nx xx : Bool) (c : Cache F S)
      → (insert_if now e expired nx xx c).1 ≡ not (is_refused nx xx (exists (entry_key e) c))
  unfolding insert_if exists
  insert_if-is_refused now e expired nx xx c = ground arith

  -- On a cache of distinct keys, what any key finds after `insert_if`: the new entry, with its
  -- timeout where the expiry is positive, under its own key unless the flags refuse it (NX alone
  -- with the key there, XX alone without it), and what it found before otherwise.
  pub find-insert_if :
      (j : RedisKey) (now : ℤ) (e : CacheEntry F) (expired : ℤ) (nx xx : Bool) (c : Cache F S)
      → IsDistinct c.store
      → find j (insert_if now e expired nx xx c).0 ≡ (
          if not (is_refused nx xx (exists (entry_key e) c)) && same_key j (entry_key e)
          then some (stamped now expired e)
          else find j c)
  unfolding insert_if find insert exists erase
  find-insert_if j now e expired nx xx c d =
      let k = entry_key e in
      let new = stamped now expired e in
      ground (
        arith,
        store-arm now expired e c,
        store-arm now expired e (erase k c).0,
        entry_key-stamped now expired e,
        find-insert_in j new c.store,
        find-insert_in j new (erase_in k c.store),
        find-erase_in j k c.store d,
        same_key→eq j k,
      )

  -- A key that is there is given the new timeout, and no other key is touched.
  pub find-give_expiry :
      (j k : RedisKey) (now expired : ℤ) (c : Cache F S)
      → find j (give_expiry now k expired c).0 ≡ (
          if same_key j k
          then Option.map (set_expiry (expiration now expired)) (find j c)
          else find j c)
  unfolding give_expiry find
  find-give_expiry j k now expired c = ground (
    arith,
    find-modify_in (set_expiry (expiration now expired)) j k c.store (λ e. refl),
    same_key→eq j k,
  )

  -- PERSIST takes the timeout away, and touches no other key.
  pub find-never_expired :
      (j k : RedisKey) (c : Cache F S)
      → find j (never_expired k c).0
        ≡ (if same_key j k then Option.map (set_expiry none) (find j c) else find j c)
  unfolding never_expired find
  find-never_expired j k c =
      ground (arith, find-modify_in (set_expiry none) j k c.store (λ e. refl), same_key→eq j k)

  pub find-replace :
      (j : RedisKey) (e : CacheEntry F) (c : Cache F S)
      → IsDistinct c.store
      → find j (replace e c).0 ≡ (if same_key j (entry_key e) then some e else find j c)
  unfolding replace find insert erase
  find-replace j e c d = ground (
    arith,
    find-insert_in j e c.store,
    find-insert_in j e (erase_in (entry_key e) c.store),
    find-erase_in j (entry_key e) c.store d,
    same_key→eq j (entry_key e),
  )

module _ {F S : Type 0} where
  pub find-insert :
      (j : RedisKey) (e : CacheEntry F) (c : Cache F S)
      → find j (insert e c) ≡ (if same_key j (entry_key e) then or_entry (find j c) e else find j c)
  unfolding find insert
  find-insert j e c = find-insert_in j e c.store

  pub find-assign :
      (j k : RedisKey) (v : Value F) (c : Cache F S)
      → find j (assign k v c)
        ≡ (if same_key j k then Option.map (set_value v) (find j c) else find j c)
  unfolding find assign
  find-assign j k v c = find-modify_in (set_value v) j k c.store (λ e. refl)

  pub find-erase_entry :
      (j k : RedisKey) (c : Cache F S)
      → IsDistinct c.store
      → find j (erase_entry k c) ≡ (if same_key j k then none else find j c)
  unfolding find erase_entry
  find-erase_entry j k c d = find-erase_in j k c.store d

  -- The entry that `find` returns has the key.
  pub key-find :
      (k : RedisKey) (c : Cache F S) {e : CacheEntry F} → find k c ≡ some e → k ≡ entry_key e
  unfolding find
  key-find k c h = key-find_in k c.store h

  pub assign-IsDistinct :
      (rk : RedisKey) (v : Value F) (c : Cache F S)
      → IsDistinct c.store
      → IsDistinct (assign rk v c).store
  unfolding assign
  assign-IsDistinct rk v c d = modify_in-IsDistinct (set_value v) rk c.store (λ e. refl) d
