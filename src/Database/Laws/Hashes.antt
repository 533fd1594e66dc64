-- ===== src/Database/Laws/Hashes.antt =====
-- HSET, HGET, HDEL, HEXISTS, HLEN and HINCRBY against one another.
use pedis.Base.{
  ℕ, ◌+◌, ◌≡◌, ◌≢◌, refl, ap, ◌∙◌, ◌||◌, Bool, true, false, Option, none, some, List, [], ◌∷◌,
  arith, if◌then◌else◌, inl, inr, length, not, ◌&&◌, ◌⊎◌, is_empty,
}
use pedis.Base.Bytes.{Bytes, bytes_eq}
use pedis.Base.Bytes.Order.{bytes_eq→eq}
use pedis.Ordered
use pedis.Ordered.Sorted.{IsSorted, erase-IsSorted}
use pedis.Ordered.Lookup
use pedis.DictLsa.{Dict, DictEntry, DictValue, dict_key}
use pedis.Keys.{RedisKey, same_key_refl}
use pedis.TimerSet.{TimerSet}
use pedis.Cache
use pedis.Cache.{CacheEntry, Value, new_entry}
use pedis.Cache.Timers
use pedis.Cache.Effects.{find-erase, find-assign, find-insert}
use pedis.Reply.{Message, Reply}
use pedis.Database.{Db, say, flag_reply}
use pedis.Database.Hashes
use pedis.Database.Hashes.{field_entry, erase_loop, integer_step}

pub is_empty→nil : {A : Type 0} (l : List A) → is_empty l ≡ true → l ≡ []
is_empty→nil [] h = refl
is_empty→nil (x ∷ l) h = ground (arith, h)

-- The hash of a key: empty where there is no key, and `none` where the value has another type.
abbrev pub when_hash : {F : Type 0} → Value F → Option (Dict F)
when_hash (Value.dict d) = some d
when_hash _ = none

abbrev pub hash_of : {F : Type 0} → Option (CacheEntry F) → Option (Dict F)
hash_of none = some []
hash_of (some e) = when_hash e.value

module _ {F S : Type 0} where
  abbrev pub hash_at : RedisKey → Db F S → Option (Dict F)
  hash_at rk db = hash_of (Cache.find rk db.cache)

when_hash-dict : {F : Type 0} (v : Value F) (d : Dict F) → when_hash v ≡ some d → v ≡ Value.dict d
when_hash-dict (Value.dict d') d h = ground (arith, h)
when_hash-dict (Value.numeric _) d h = ground (arith, h)
when_hash-dict _ d h = ground (arith, h)

-- The two ways to be a hash.
hash_of-cases :
    {F : Type 0} (o : Option (CacheEntry F)) (d : Dict F)
    → hash_of o ≡ some d
    → ((o ≡ none) × (d ≡ [])) ⊎ ((e : CacheEntry F) × (o ≡ some e) × (e.value ≡ Value.dict d))
hash_of-cases none d h = inl (refl, ground (arith, h))
hash_of-cases (some e) d h = inr (e, refl, when_hash-dict e.value d h)

insert-nonempty : {F : Type 0} (e : DictEntry F) (d : Dict F) → (Ordered.insert dict_key e d).0 ≢ []
unfolding Ordered.insert
insert-nonempty e [] q = ground (arith, q)
insert-nonempty e (x ∷ d) q = ground (arith, q)

module _ {F S : Type 0} where
  -- HSET puts the field in where it is new, and says so; a field that is there is left as it is.
  pub hash_at-hset :
      (rk : RedisKey) (key val : Bytes) (db : Db F S) (d : Dict F)
      → hash_at rk db ≡ some d
      → ((Hashes.hset rk key val db).0
          ≡ say (if Ordered.exists dict_key key d then Message.zero else Message.one))
        × (hash_at rk (Hashes.hset rk key val db).1
            ≡ some (Ordered.insert dict_key (field_entry key (DictValue.bytes val)) d).0)
  unfolding Hashes.hset Hashes.hset_dict
  hash_at-hset rk key val db d h =
      let e0 : CacheEntry F = new_entry rk (Value.dict []) in
      let v : Value F =
        Value.dict (Ordered.insert dict_key (field_entry key (DictValue.bytes val)) d).0 in
      elim (hash_of-cases (Cache.find rk db.cache) d h) [
        | inl (absent, nothing) ↦ ground (
          arith,
          absent,
          nothing,
          find-insert rk e0 db.cache,
          find-assign rk rk v (Cache.insert e0 db.cache),
          same_key_refl rk,
        )
        | inr (e, found, is_dict) ↦
            ground (arith, found, is_dict, find-assign rk rk v db.cache, same_key_refl rk)
      ]

  -- HGET, HLEN and HEXISTS of a hash that is not empty.
  pub hash_at-reads :
      (rk : RedisKey) (j : Bytes) (db : Db F S) (d : Dict F)
      → hash_at rk db ≡ some d
      → d ≢ []
      → ((Hashes.hget rk j db).0 ≡ Reply.field (Ordered.find dict_key j d))
        × ((Hashes.hlen rk db).0 ≡ Reply.size (length d))
        × ((Hashes.hexists rk j db).0 ≡ flag_reply (Ordered.exists dict_key j d))
  unfolding Hashes.hget Hashes.hlen Hashes.hexists
  hash_at-reads rk j db d h n = elim (hash_of-cases (Cache.find rk db.cache) d h) [
    | inl (absent, nothing) ↦ absurd (n nothing)
    | inr (e, found, is_dict) ↦ (
      ground (arith, found, is_dict),
      ground (arith, found, is_dict),
      ground (arith, found, is_dict),
    )
  ]

  -- For a key that is missing or holds a hash: HGET of any field after HSET replies the new value
  -- only for the field that was set and only if it was new; a field that was there keeps its value.
  pub hget-hset :
      (rk : RedisKey) (j key val : Bytes) (db : Db F S) (d : Dict F)
      → hash_at rk db ≡ some d
      → (Hashes.hget rk j (Hashes.hset rk key val db).1).0
        ≡ Reply.field (
            if bytes_eq j key && not (Ordered.exists dict_key key d)
            then some (field_entry key (DictValue.bytes val))
            else Ordered.find dict_key j d)
  unfolding Ordered.exists
  hget-hset rk j key val db d h =
      let e : DictEntry F = field_entry key (DictValue.bytes val) in
      let d1 = (Ordered.insert dict_key e d).0 in
      (hash_at-reads rk j (Hashes.hset rk key val db).1 d1 (hash_at-hset rk key val db d h).1
        (insert-nonempty e d)).0
      ∙ ap Reply.field (ground (arith, Lookup.find-insert dict_key j e d, bytes_eq→eq j key))

  -- HLEN after HSET counts the field where it is new.
  pub hlen-hset :
      (rk : RedisKey) (key val : Bytes) (db : Db F S) (d : Dict F)
      → hash_at rk db ≡ some d
      → (Hashes.hlen rk (Hashes.hset rk key val db).1).0
        ≡ Reply.size (if Ordered.exists dict_key key d then length d else length d + 1)
  hlen-hset rk key val db d h =
      let e : DictEntry F = field_entry key (DictValue.bytes val) in
      let d1 = (Ordered.insert dict_key e d).0 in
      (hash_at-reads rk key (Hashes.hset rk key val db).1 d1 (hash_at-hset rk key val db d h).1
        (insert-nonempty e d)).1
      ∙ ap Reply.size (Lookup.length-insert dict_key e d)

-- Whether a field or member is named in a request.
unfoldable pub named : Bytes → List Bytes → Bool
named j [] = false
named j (k ∷ keys) = bytes_eq j k || named j keys

module _ {F : Type 0} where
  -- On entries in key order, the loop of HDEL and SREM leaves no entry of a named key, and the
  -- entry of every other key.
  pub find-erase_loop :
      (j : Bytes) (keys : List Bytes) (d : Dict F)
      → IsSorted dict_key d
      → Ordered.find dict_key j (erase_loop keys d).0
        ≡ (if named j keys then none else Ordered.find dict_key j d)
  unfolding erase_loop named
  find-erase_loop j [] d s = refl
  find-erase_loop j (k ∷ keys) d s =
      let d1 = (Ordered.erase dict_key k d).0 in
      ground (
        arith,
        find-erase_loop j keys d1 (erase-IsSorted dict_key k d s),
        Lookup.find-erase dict_key j k d s,
      )

  pub length-erase_loop :
      (keys : List Bytes) (d : Dict F)
      → length (erase_loop keys d).0 + (erase_loop keys d).1 ≡ length d
  unfolding erase_loop
  length-erase_loop [] d = omega arith
  length-erase_loop (k ∷ keys) d =
      let d1 = (Ordered.erase dict_key k d).0 in
      ground (
        arith,
        length-erase_loop keys d1,
        Lookup.length-erase dict_key k d,
        Lookup.erase-exists dict_key k d,
      )

module _ {F S : Type 0} ⦃T : TimerSet S⦄ where
  -- On a valid cache, for a key that holds a hash in key order: HDEL replies the number of fields
  -- by which the hash got shorter; the named fields are then gone, every other field is what it
  -- was, and the key is there exactly if a field is left.
  pub hash_at-hdel_multi :
      (rk : RedisKey) (keys : List Bytes) (db : Db F S) {e : CacheEntry F} (d : Dict F)
      → Timers.IsValid db.cache
      → Cache.find rk db.cache ≡ some e
      → e.value ≡ Value.dict d
      → IsSorted dict_key d
      → (d' : Dict F) × (n : ℕ) × ((Hashes.hdel_multi rk keys db).0 ≡ Reply.size n)
        × (hash_at rk (Hashes.hdel_multi rk keys db).1 ≡ some d')
        × (length d' + n ≡ length d)
        × ((j : Bytes)
            → Ordered.find dict_key j d'
              ≡ (if named j keys then none else Ordered.find dict_key j d))
        × (Cache.exists rk (Hashes.hdel_multi rk keys db).1.cache ≡ not (is_empty d'))
  unfolding Hashes.hdel_multi Cache.exists Cache.find
  hash_at-hdel_multi rk keys db d v found is_dict sorted =
      let d' = (erase_loop keys d).0 in
      let w : Value F = Value.dict d' in
      let c = Cache.assign rk w db.cache in
      let cv = Timers.assign-IsValid rk w db.cache v in
      let here = find-assign rk rk w db.cache in
      let gone = find-erase rk rk c cv.distinct in
      (
        d',
        (erase_loop keys d).1,
        ground (arith, found, is_dict),
        ground (arith, found, is_dict, here, same_key_refl rk, gone, is_empty→nil d'),
        length-erase_loop keys d,
        λ j. find-erase_loop j keys d sorted,
        ground (arith, found, is_dict, here, same_key_refl rk, gone),
      )
