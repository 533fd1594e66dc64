-- ===== src/Database/Laws/Sets.antt =====
-- SADD, SREM, SISMEMBER and SCARD against one another.
use pedis.Base.{
  ◌+◌, ◌≡◌, refl, ap, ◌∙◌, Option, none, some, List, [], ◌∷◌, arith, inl, inr, length, not, ◌&&◌,
  ◌||◌, ◌⊎◌,
}
use pedis.Base.Bytes.{Bytes}
use pedis.Ordered
use pedis.Ordered.Sorted.{IsSorted}
use pedis.Ordered.Lookup
use pedis.DictLsa.{Dict, dict_key}
use pedis.Keys.{RedisKey, same_key_refl}
use pedis.TimerSet.{TimerSet}
use pedis.Cache
use pedis.Cache.{CacheEntry, Value, new_entry}
use pedis.Cache.Timers
use pedis.Cache.Effects.{find-erase, find-assign, find-insert}
use pedis.Reply.{Reply}
use pedis.Database.{Db, flag_reply}
use pedis.Database.Hashes.{erase_loop}
use pedis.Database.Sets
use pedis.Database.Sets.{add_loop, member_entry}
use pedis.Database.Laws.Hashes.{named, find-erase_loop, is_empty→nil}

module _ {F : Type 0} where
  pub exists-add_loop :
      (j : Bytes) (members : List Bytes) (d : Dict F)
      → Ordered.exists dict_key j (add_loop members d).0
        ≡ (named j members || Ordered.exists dict_key j d)
  unfolding add_loop named Ordered.exists
  exists-add_loop j [] d = refl
  exists-add_loop j (k ∷ members) d =
      let d1 = (Ordered.insert dict_key (member_entry k) d).0 in
      ground (arith, exists-add_loop j members d1, Lookup.find-insert dict_key j (member_entry k) d)

  pub length-add_loop :
      (members : List Bytes) (d : Dict F)
      → length (add_loop members d).0 ≡ length d + (add_loop members d).1
  unfolding add_loop
  length-add_loop [] d = omega arith
  length-add_loop (k ∷ members) d =
      let d1 = (Ordered.insert dict_key (member_entry k) d).0 in
      ground (
        arith,
        length-add_loop members d1,
        Lookup.length-insert dict_key (member_entry k) d,
        Lookup.insert-exists dict_key (member_entry k) d,
      )

  exists-erase_loop :
      (j : Bytes) (members : List Bytes) (d : Dict F)
      → IsSorted dict_key d
      → Ordered.exists dict_key j (erase_loop members d).0
        ≡ (not (named j members) && Ordered.exists dict_key j d)
  unfolding Ordered.exists
  exists-erase_loop j members d s = ground (arith, find-erase_loop j members d s)

-- The set of a key: empty where there is no key, and `none` where the value has another type.
abbrev pub when_members : {F : Type 0} → Value F → Option (Dict F)
when_members (Value.set d) = some d
when_members _ = none

abbrev pub set_of : {F : Type 0} → Option (CacheEntry F) → Option (Dict F)
set_of none = some []
set_of (some e) = when_members e.value

module _ {F S : Type 0} where
  abbrev pub set_at : RedisKey → Db F S → Option (Dict F)
  set_at rk db = set_of (Cache.find rk db.cache)

when_members-set :
    {F : Type 0} (v : Value F) (d : Dict F) → when_members v ≡ some d → v ≡ Value.set d
when_members-set (Value.set d') d h = ground (arith, h)
when_members-set (Value.numeric _) d h = ground (arith, h)
when_members-set _ d h = ground (arith, h)

set_of-cases :
    {F : Type 0} (o : Option (CacheEntry F)) (d : Dict F)
    → set_of o ≡ some d
    → ((o ≡ none) × (d ≡ [])) ⊎ ((e : CacheEntry F) × (o ≡ some e) × (e.value ≡ Value.set d))
set_of-cases none d h = inl (refl, ground (arith, h))
set_of-cases (some e) d h = inr (e, refl, when_members-set e.value d h)

module _ {F S : Type 0} where
  -- SADD replies the number of new members.
  pub set_at-sadds :
      (rk : RedisKey) (members : List Bytes) (db : Db F S) (d : Dict F)
      → set_at rk db ≡ some d
      → ((Sets.sadds rk members db).0 ≡ Reply.size (add_loop members d).1)
        × (set_at rk (Sets.sadds rk members db).1 ≡ some (add_loop members d).0)
  unfolding Sets.sadds Sets.sadds_dict
  set_at-sadds rk members db d h =
      let e0 : CacheEntry F = new_entry rk (Value.set []) in
      let v : Value F = Value.set (add_loop members d).0 in
      elim (set_of-cases (Cache.find rk db.cache) d h) [
        | inl (absent, nothing) ↦ ground (
          arith,
          absent,
          nothing,
          find-insert rk e0 db.cache,
          find-assign rk rk v (Cache.insert e0 db.cache),
          same_key_refl rk,
        )
        | inr (e, found, is_set) ↦
            ground (arith, found, is_set, find-assign rk rk v db.cache, same_key_refl rk)
      ]

  set_at-sismember :
      (rk : RedisKey) (j : Bytes) (db : Db F S) (d : Dict F)
      → set_at rk db ≡ some d
      → (Sets.sismember rk j db).0 ≡ flag_reply (Ordered.exists dict_key j d)
  unfolding Sets.sismember Ordered.exists Ordered.find
  set_at-sismember rk j db d h = elim (set_of-cases (Cache.find rk db.cache) d h) [
    | inl (absent, nothing) ↦ ground (arith, absent, nothing)
    | inr (e, found, is_set) ↦ ground (arith, found, is_set)
  ]

  -- For a key that is missing or holds a set: SISMEMBER after SADD replies 1 exactly for the
  -- members that were added or were there.
  pub sismember-sadds :
      (rk : RedisKey) (j : Bytes) (members : List Bytes) (db : Db F S) (d : Dict F)
      → set_at rk db ≡ some d
      → (Sets.sismember rk j (Sets.sadds rk members db).1).0
        ≡ flag_reply (named j members || Ordered.exists dict_key j d)
  sismember-sadds rk j members db d h =
      set_at-sismember rk j (Sets.sadds rk members db).1 (add_loop members d).0
        (set_at-sadds rk members db d h).1
      ∙ ap flag_reply (exists-add_loop j members d)

module _ {F S : Type 0} ⦃T : TimerSet S⦄ where
  -- SREM of several members.
  pub set_at-srems :
      (rk : RedisKey) (members : List Bytes) (db : Db F S) {e : CacheEntry F} (d : Dict F)
      → Timers.IsValid db.cache
      → Cache.find rk db.cache ≡ some e
      → e.value ≡ Value.set d
      → ((Sets.srems rk members db).0 ≡ Reply.size (erase_loop members d).1)
        × (set_at rk (Sets.srems rk members db).1 ≡ some (erase_loop members d).0)
  unfolding Sets.srems
  set_at-srems rk members db d v found is_set =
      let w : Value F = Value.set (erase_loop members d).0 in
      let c = Cache.assign rk w db.cache in
      let cv = Timers.assign-IsValid rk w db.cache v in
      (
        ground (arith, found, is_set),
        ground (
          arith,
          found,
          is_set,
          find-assign rk rk w db.cache,
          same_key_refl rk,
          find-erase rk rk c cv.distinct,
          is_empty→nil (erase_loop members d).0,
        ),
      )

  -- On a valid cache, for a key that holds a set in key order: SISMEMBER after SREM replies 1
  -- exactly for the members that were there and are not named by the request.
  pub sismember-srems :
      (rk : RedisKey) (j : Bytes) (members : List Bytes) (db : Db F S) {e : CacheEntry F}
      (d : Dict F)
      → Timers.IsValid db.cache
      → Cache.find rk db.cache ≡ some e
      → e.value ≡ Value.set d
      → IsSorted dict_key d
      → (Sets.sismember rk j (Sets.srems rk members db).1).0
        ≡ flag_reply (not (named j members) && Ordered.exists dict_key j d)
  sismember-srems rk j members db d v found is_set s =
      set_at-sismember rk j (Sets.srems rk members db).1 (erase_loop members d).0
        (set_at-srems rk members db d v found is_set).1
      ∙ ap flag_reply (exists-erase_loop j members d s)
