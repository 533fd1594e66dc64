-- ===== src/Database/Sound/SortedSets.antt =====
-- The handlers of sorted sets keep the cache sound: the two indices stay in step.
use pedis.Reply.{Reply}
use pedis.Base.{refl, ℕ, ◌≡◌, some, List, arith, is_empty, Option-cases, inl, inr}
use pedis.Base.Int.{ℤ}
use pedis.Base.Bytes.{Bytes}
use pedis.Double.{Double}
use pedis.SsetLsa
use pedis.SsetLsa.{Sset, SsetEntry}
use pedis.SsetLsa.Links.{IsValid, empty-IsValid}
use pedis.SsetLsa.Range.{fetch_by_rank, fetch_by_score}
use pedis.SsetLsa.Updates.{
  add_new-IsValid, update_old-IsValid, add_or_update-IsValid, for_members-IsValid, AreNumbers,
  insert_or_update-IsValid, erase_keys-IsValid, erase_entries-IsValid,
}
use pedis.Keys.{RedisKey}
use pedis.TimerSet.{TimerSet}
use pedis.Cache
use pedis.Cache.{CacheEntry, Value}
use pedis.Database.{Stat, Db, bump, create}
use pedis.Database.SortedSets
use pedis.Database.SortedSets.{RepliesNumber, zadd_sset}
use pedis.Database.Sound.{
  IsSound, IsSoundBut, weaken, assign-IsSound, create-IsSoundBut, store_back-IsSound, Leaves,
  LeavesIf, sset_cases, value-WellFormed,
}

module _ {F : Type 0} ⦃D : Double F⦄ where
  pub zadd_sset-IsValid :
      (members : List (Bytes × F)) (flags : ℕ) (s : Sset F) (r : Sset F × ℕ)
      → AreNumbers members
      → IsValid s
      → zadd_sset members flags s ≡ some r
      → IsValid r.0
  unfolding zadd_sset
  zadd_sset-IsValid members flags s r numbers v h = ground (
    arith,
    h,
    for_members-IsValid SsetLsa.add_new add_new-IsValid members (s, 0) numbers v,
    for_members-IsValid SsetLsa.update_old update_old-IsValid members (s, 0) numbers v,
    for_members-IsValid SsetLsa.add_or_update add_or_update-IsValid members (s, 0) numbers v,
  )

module _ {F S : Type 0} ⦃D : Double F⦄ ⦃T : TimerSet S⦄ where
  sized-IsSound :
      (rk : RedisKey) (members : List (Bytes × F)) (flags : ℕ) (db : Db F S) (s : Sset F)
      → AreNumbers members
      → IsValid s
      → IsSoundBut rk db.cache
      → LeavesIf (SortedSets.sized (SortedSets.zadds_sset rk members flags db s))
  unfolding SortedSets.zadds_sset
  sized-IsSound rk members flags db s numbers v b =
      elim (Option-cases (zadd_sset members flags s)) [
        | inl lost ↦ rw (lost, SortedSets.zadds_sset) tt
        | inr (r, kept) ↦
            rw (kept, SortedSets.zadds_sset)
              (assign-IsSound rk (Value.sset r.0) db.cache
                (zadd_sset-IsValid members flags s r numbers v kept) b)
      ]

  -- ZADD with any flags, and scores other than NaN.
  pub zadds-IsSound :
      (rk : RedisKey) (members : List (Bytes × F)) (flags : ℕ) (db : Db F S)
      → AreNumbers members
      → IsSound db.cache
      → LeavesIf (SortedSets.zadds rk members flags db)
  unfolding SortedSets.zadds
  zadds-IsSound rk members flags db numbers s =
      sset_cases LeavesIf _ _
        (sized-IsSound rk members flags
          (create rk (Value.sset SsetLsa.empty) Stat.total_zset_entries (bump Stat.zadd db))
          SsetLsa.empty numbers empty-IsValid
          (create-IsSoundBut rk (Value.sset SsetLsa.empty) db.cache s))
        s _ (Cache.find rk db.cache)
        (λ x z found is_sset.
          sized-IsSound rk members flags (bump Stat.zadd db) z numbers
            (value-WellFormed rk (Value.sset z) x db.cache found is_sset s) (weaken rk db.cache s))

  -- ZINCRBY that replies no NaN.
  pub zincrby-IsSound :
      (rk : RedisKey) (member : Bytes) (delta : F) (db : Db F S)
      → RepliesNumber (SortedSets.zincrby rk member delta db).0
      → IsSound db.cache
      → Leaves (SortedSets.zincrby rk member delta db)
  unfolding SortedSets.zincrby SortedSets.zincrby_sset
  zincrby-IsSound rk member delta db number s =
      sset_cases (λ (r : Reply F × Db F S). RepliesNumber r.0 → Leaves r) _ _
        (λ n.
          assign-IsSound rk (Value.sset (SsetLsa.insert_or_update member delta SsetLsa.empty).0)
            (Cache.insert (Cache.new_entry rk (Value.sset SsetLsa.empty)) db.cache)
            (insert_or_update-IsValid member delta SsetLsa.empty (n _ refl) empty-IsValid)
            (create-IsSoundBut rk (Value.sset SsetLsa.empty) db.cache s))
        (λ n. s) _ (Cache.find rk db.cache)
        (λ x z found is_sset n.
          assign-IsSound rk (Value.sset (SsetLsa.insert_or_update member delta z).0) db.cache
            (insert_or_update-IsValid member delta z (n _ refl)
              (value-WellFormed rk (Value.sset z) x db.cache found is_sset s))
            (weaken rk db.cache s))
        number

  -- A sorted set written back by a handler that drops the key of an empty one.
  sset_back-IsSound :
      (rk : RedisKey) (r : Sset F × ℕ) (db : Db F S)
      → IsValid r.0
      → IsSound db.cache
      → Leaves (SortedSets.removed_back rk db r)
  sset_back-IsSound rk (z, n) db v s =
      store_back-IsSound rk (Value.sset z) (is_empty z.list) Stat.total_zset_entries db (λ _. v) s

  -- ZREM
  pub zrem-IsSound :
      (rk : RedisKey) (members : List Bytes) (db : Db F S)
      → IsSound db.cache
      → Leaves (SortedSets.zrem rk members db)
  unfolding SortedSets.zrem
  zrem-IsSound rk members db s =
      sset_cases Leaves _ _ s s _ (Cache.find rk db.cache) (λ x z found is_sset.
        sset_back-IsSound rk (SsetLsa.erase_keys members z) (bump Stat.zrem db)
          (erase_keys-IsValid members z
            (value-WellFormed rk (Value.sset z) x db.cache found is_sset s))
          s)

  -- ZREMRANGEBYRANK
  pub zremrangebyrank-IsSound :
      (rk : RedisKey) (begin end : ℤ) (db : Db F S)
      → IsSound db.cache
      → Leaves (SortedSets.zremrangebyrank rk begin end db)
  unfolding SortedSets.zremrangebyrank
  zremrangebyrank-IsSound rk begin end db s =
      sset_cases Leaves _ _ s s _ (Cache.find rk db.cache) (λ x z found is_sset.
        sset_back-IsSound rk (SsetLsa.erase_entries (fetch_by_rank begin end z) z)
          (bump Stat.zremrangebyrank db)
          (erase_entries-IsValid (fetch_by_rank begin end z) z
            (value-WellFormed rk (Value.sset z) x db.cache found is_sset s))
          s)

  -- ZREMRANGEBYSCORE
  pub zremrangebyscore-IsSound :
      (rk : RedisKey) (min max : F) (db : Db F S)
      → IsSound db.cache
      → Leaves (SortedSets.zremrangebyscore rk min max db)
  unfolding SortedSets.zremrangebyscore
  zremrangebyscore-IsSound rk min max db s =
      sset_cases Leaves _ _ s s _ (Cache.find rk db.cache) (λ x z found is_sset.
        sset_back-IsSound rk (SsetLsa.erase_entries (fetch_by_score min max 0 z) z)
          (bump Stat.zremrangebyscore db)
          (erase_entries-IsValid (fetch_by_score min max 0 z) z
            (value-WellFormed rk (Value.sset z) x db.cache found is_sset s))
          s)
