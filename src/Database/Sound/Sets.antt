-- ===== src/Database/Sound/Sets.antt =====
-- The handlers of sets keep the cache sound: the members stay in order.
use pedis.Base.{ℕ, ◌≡◌, some, List, [], ◌∷◌, arith, length, is_empty, Option-cases, inl, inr, min}
use pedis.Base.Bytes.{Bytes}
use pedis.Double.{Double}
use pedis.Ordered
use pedis.Ordered.Sorted
use pedis.DictLsa.{Dict, DictEntry, dict_key}
use pedis.Keys.{RedisKey}
use pedis.TimerSet.{TimerSet}
use pedis.Cache
use pedis.Cache.{CacheEntry, Value}
use pedis.Database.{Stat, Db, bump, store_back}
use pedis.Database.Hashes.{erase_loop}
use pedis.Database.Sets
use pedis.Database.Sets.{add_loop, erase_picked, member_entry, pick_loop}
use pedis.Database.Sound.{
  IsSound, weaken, assign-IsSound, assign_created-IsSound, store_back-IsSound, Leaves, LeavesIf,
  set_cases, value-WellFormed,
}
use pedis.Database.Sound.Hashes.{erase_loop-IsSorted}

module _ {F : Type 0} where
  pub add_loop-IsSorted :
      (members : List Bytes) (d : Dict F)
      → Sorted.IsSorted dict_key d
      → Sorted.IsSorted dict_key (add_loop members d).0
  unfolding add_loop
  add_loop-IsSorted [] d s = s
  add_loop-IsSorted (k ∷ members) d s =
      add_loop-IsSorted members (Ordered.insert dict_key (member_entry k) d).0
        (Sorted.insert-IsSorted dict_key (member_entry k) d s)

  pub erase_picked-IsSorted :
      (l : List (DictEntry F)) (d d' : Dict F)
      → Sorted.IsSorted dict_key d
      → erase_picked l d ≡ some d'
      → Sorted.IsSorted dict_key d'
  unfolding erase_picked
  erase_picked-IsSorted [] d d' s h = ground (arith, s, h)
  erase_picked-IsSorted (e ∷ l) d d' s h =
      let r = (Ordered.erase dict_key e.key d).0 in
      ground (arith, h, erase_picked-IsSorted l r d' (Sorted.erase-IsSorted dict_key e.key d s))

module _ {F S : Type 0} ⦃D : Double F⦄ ⦃T : TimerSet S⦄ where
  -- A set written back by a handler that drops the key of an empty one.
  set_back-IsSound :
      (rk : RedisKey) (d : Dict F) (db : Db F S)
      → Sorted.IsSorted dict_key d
      → IsSound db.cache
      → IsSound (store_back rk (Value.set d) (is_empty d) Stat.total_set_entries db).cache
  set_back-IsSound rk d db w s =
      store_back-IsSound rk (Value.set d) (is_empty d) Stat.total_set_entries db (λ _. w) s

  -- SADD
  pub sadds-IsSound :
      (rk : RedisKey) (members : List Bytes) (db : Db F S)
      → IsSound db.cache
      → Leaves (Sets.sadds rk members db)
  unfolding Sets.sadds Sets.sadds_dict
  sadds-IsSound rk members db s =
      set_cases Leaves _ _
        (assign_created-IsSound rk (Value.set []) (Value.set (add_loop members []).0) db.cache
          (add_loop-IsSorted members [] tt) s)
        s _ (Cache.find rk db.cache)
        (λ x d found is_set.
          assign-IsSound rk (Value.set (add_loop members d).0) db.cache
            (add_loop-IsSorted members d
              (value-WellFormed rk (Value.set d) x db.cache found is_set s))
            (weaken rk db.cache s))

  -- SREM of several members.
  pub srems-IsSound :
      (rk : RedisKey) (members : List Bytes) (db : Db F S)
      → IsSound db.cache
      → Leaves (Sets.srems rk members db)
  unfolding Sets.srems
  srems-IsSound rk members db s =
      set_cases Leaves _ _ s s _ (Cache.find rk db.cache) (λ x d found is_set.
        set_back-IsSound rk (erase_loop members d).0 (bump Stat.srem db)
          (erase_loop-IsSorted members d
            (value-WellFormed rk (Value.set d) x db.cache found is_set s))
          s)

  -- SREM
  pub srem-IsSound :
      (rk : RedisKey) (member : Bytes) (db : Db F S)
      → IsSound db.cache
      → Leaves (Sets.srem rk member db)
  unfolding Sets.srem
  srem-IsSound rk member db s =
      set_cases Leaves _ _ s s _ (Cache.find rk db.cache) (λ x d found is_set.
        set_back-IsSound rk (Ordered.erase dict_key member d).0 (bump Stat.srem db)
          (Sorted.erase-IsSorted dict_key member d
            (value-WellFormed rk (Value.set d) x db.cache found is_set s))
          s)

  -- SPOP
  pub spop-IsSound :
      (rands : List ℕ) (rk : RedisKey) (count : ℕ) (db : Db F S)
      → IsSound db.cache
      → LeavesIf (Sets.spop rands rk count db)
  unfolding Sets.spop
  spop-IsSound rands rk count db s =
      set_cases LeavesIf _ _ s s _ (Cache.find rk db.cache) (λ x d found is_set.
        let entries = pick_loop (min count (length d)) rands d in
        elim (Option-cases (erase_picked entries d)) [
          | inl twice ↦ rw twice tt
          | inr (d', erased) ↦ rw erased (
              ground (
                arith,
                s,
                set_back-IsSound rk d' (bump Stat.spop (bump Stat.read db))
                    (erase_picked-IsSorted entries d d'
                      (value-WellFormed rk (Value.set d) x db.cache found is_set s) erased)
                    s,
              ))
        ])
