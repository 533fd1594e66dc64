-- ===== src/Database/SortedSets.antt =====
-- db.cc: the handlers of sorted sets. `none` is the failed `assert(false)` of ZADD.
use pedis.Base.{
  ◌≡◌, ℕ, ◌-◌, Bool, false, Option, none, some, List, [], is_empty, ltb, reverse, if◌then◌else◌,
}
use pedis.Base.Int.{ℤ}
use pedis.Base.Bytes.{Bytes}
use pedis.Double.{Double}
use pedis.SsetLsa
use pedis.SsetLsa.{Sset, SsetEntry}
use pedis.SsetLsa.Range.{fetch_by_rank, fetch_by_score, count_by_score}
use pedis.Keys.{RedisKey}
use pedis.TimerSet.{TimerSet}
use pedis.Cache
use pedis.Cache.{Value}
use pedis.Reply.{Message, Reply}
use pedis.Database.{Stat, Db, Handled, bump, with_cache, say, on_sset, create, store_back}
use pedis.Database.Strings.{has_flag}

-- ZADD_NX, ZADD_XX and ZADD_CH
abbrev pub zadd_nx : ℕ
zadd_nx = 2

abbrev pub zadd_xx : ℕ
zadd_xx = 4

abbrev pub zadd_ch : ℕ
zadd_ch = 8

module _ {F : Type 0} ⦃D : Double F⦄ where
  -- The ladder of flags of `zadds`.
  unfoldable pub zadd_sset : List (Bytes × F) → ℕ → Sset F → Option (Sset F × ℕ)
  zadd_sset members flags s =
      if has_flag flags zadd_nx
      then some (SsetLsa.insert_if_not_exists members s)
      else if has_flag flags zadd_xx
      then some (SsetLsa.update_if_only_exists members s)
      else if has_flag flags zadd_ch
      then some (SsetLsa.insert_or_update_members members s)
      else none

module _ {F S : Type 0} ⦃D : Double F⦄ where
  unfoldable pub zadds_sset :
      RedisKey → List (Bytes × F) → ℕ → Db F S → Sset F → Option (ℕ × Db F S)
  unfolding zadd_sset
  zadds_sset rk members flags db s = elim (zadd_sset members flags s) [
    | none ↦ none
    | some (s', inserted) ↦
        some (inserted, with_cache (Cache.assign rk (Value.sset s') db.cache) db)
  ]

  abbrev pub sized : Option (ℕ × Db F S) → Handled F S
  sized none = none
  sized (some (n, db)) = some (Reply.size n, db)

  -- ZADD
  unfoldable pub zadds : RedisKey → List (Bytes × F) → ℕ → Db F S → Handled F S
  unfolding zadds_sset
  zadds rk members flags db0 =
      let db = bump Stat.zadd db0 in
      let created = create rk (Value.sset SsetLsa.empty) Stat.total_zset_entries db in
      on_sset (Cache.find rk db.cache) (sized (zadds_sset rk members flags created SsetLsa.empty))
        (some (say Message.type_err, db)) (λ s. sized (zadds_sset rk members flags db s))

  abbrev any_inserted : Option (ℕ × Db F S) → Option (Bool × Db F S)
  any_inserted none = none
  any_inserted (some (n, db)) = some (ltb 0 n, db)

  unfoldable pub zadds_direct : RedisKey → List (Bytes × F) → ℕ → Db F S → Option (Bool × Db F S)
  unfolding zadds_sset
  zadds_direct rk members flags db0 =
      let db = bump Stat.zadd db0 in
      let created = create rk (Value.sset SsetLsa.empty) Stat.total_zset_entries db in
      on_sset (Cache.find rk db.cache)
        (any_inserted (zadds_sset rk members flags created SsetLsa.empty)) (some (false, db))
        (λ s. any_inserted (zadds_sset rk members flags db s))

  unfoldable pub zcount : RedisKey → F → F → Db F S → Reply F × Db F S
  zcount rk min max db0 =
      let db = bump Stat.zcount db0 in
      on_sset (Cache.find rk db.cache) (say Message.zero, db) (say Message.type_err, db)
        (λ s. (Reply.size (count_by_score min max s), db))

  unfoldable pub zincrby_sset : RedisKey → Bytes → F → Db F S → Sset F → Reply F × Db F S
  zincrby_sset rk member delta db s =
      let (s', result) = SsetLsa.insert_or_update member delta s in
      (Reply.double result, with_cache (Cache.assign rk (Value.sset s') db.cache) db)

  unfoldable pub zincrby : RedisKey → Bytes → F → Db F S → Reply F × Db F S
  unfolding zincrby_sset
  zincrby rk member delta db0 =
      let db = bump Stat.zincrby db0 in
      let created = create rk (Value.sset SsetLsa.empty) Stat.total_zset_entries db in
      on_sset (Cache.find rk db.cache) (zincrby_sset rk member delta created SsetLsa.empty)
        (say Message.type_err, db) (zincrby_sset rk member delta db)

  unfoldable pub zrangebyscore : RedisKey → F → F → Bool → Bool → Db F S → Reply F × Db F S
  zrangebyscore rk min max reversed with_score db0 =
      let db = bump Stat.zrangebyscore (bump Stat.read db0) in
      on_sset (Cache.find rk db.cache) (Reply.scored [] with_score, db) (say Message.type_err, db)
        (λ s.
          let entries = fetch_by_score min max 0 s in
          (
            Reply.scored (if reversed then reverse entries else entries) with_score,
            if is_empty entries then db else bump Stat.hit db,
          ))

module _ {F S : Type 0} where
  unfoldable pub zcard : RedisKey → Db F S → Reply F × Db F S
  zcard rk db0 =
      let db = bump Stat.zcard db0 in
      on_sset (Cache.find rk db.cache) (say Message.zero, db) (say Message.type_err, db)
        (λ s. (Reply.size (SsetLsa.size s), db))

  unfoldable pub zrange : RedisKey → ℤ → ℤ → Bool → Bool → Db F S → Reply F × Db F S
  zrange rk begin end reversed with_score db0 =
      let db = bump Stat.zrange (bump Stat.read db0) in
      on_sset (Cache.find rk db.cache) (Reply.scored [] with_score, db) (say Message.type_err, db)
        (λ s.
          let entries = fetch_by_rank begin end s in
          (
            Reply.scored (if reversed then reverse entries else entries) with_score,
            if is_empty entries then db else bump Stat.hit db,
          ))

  unfoldable pub zrange_direct : RedisKey → ℤ → ℤ → Db F S → List (SsetEntry F) × Db F S
  zrange_direct rk begin end db0 =
      let db = bump Stat.zrange (bump Stat.read db0) in
      on_sset (Cache.find rk db.cache) ([], db) ([], db)
        (λ s.
          let entries = fetch_by_rank begin end s in
          (entries, if is_empty entries then db else bump Stat.hit db))

  -- ZRANK, and ZREVRANK, which counts down from the size.
  unfoldable pub zrank : RedisKey → Bytes → Bool → Db F S → Reply F × Db F S
  zrank rk member reversed db0 =
      let db = bump Stat.zrank (bump Stat.read db0) in
      on_sset (Cache.find rk db.cache) (say Message.nil, db) (say Message.type_err, db)
        (λ s. elim (SsetLsa.rank member s) [
          | none ↦ (say Message.nil, db)
          | some r ↦ (Reply.size (if reversed then SsetLsa.size s - r else r), bump Stat.hit db)
        ])

  unfoldable pub zscore : RedisKey → Bytes → Db F S → Reply F × Db F S
  zscore rk member db0 =
      let db = bump Stat.zscore (bump Stat.read db0) in
      on_sset (Cache.find rk db.cache) (say Message.zero, db) (say Message.type_err, db)
        (λ s. elim (SsetLsa.score member s) [
          | none ↦ (say Message.err, db)
          | some x ↦ (Reply.double x, db)
        ])

module _ {F S : Type 0} ⦃T : TimerSet S⦄ where
  abbrev pub removed_back : RedisKey → Db F S → Sset F × ℕ → Reply F × Db F S
  removed_back rk db (s, removed) = (
    Reply.size removed,
    store_back rk (Value.sset s) (is_empty s.list) Stat.total_zset_entries db,
  )

  unfoldable pub zrem : RedisKey → List Bytes → Db F S → Reply F × Db F S
  zrem rk members db0 =
      let db = bump Stat.zrem db0 in
      on_sset (Cache.find rk db.cache) (say Message.zero, db) (say Message.type_err, db)
        (λ s. removed_back rk db (SsetLsa.erase_keys members s))

  -- `begin` and `end` are `long`, passed as `size_t` and taken as `long` again.
  unfoldable pub zremrangebyrank : RedisKey → ℤ → ℤ → Db F S → Reply F × Db F S
  zremrangebyrank rk begin end db0 =
      let db = bump Stat.zremrangebyrank db0 in
      on_sset (Cache.find rk db.cache) (say Message.zero, db) (say Message.type_err, db)
        (λ s. removed_back rk db (SsetLsa.erase_entries (fetch_by_rank begin end s) s))

module _ {F S : Type 0} ⦃D : Double F⦄ ⦃T : TimerSet S⦄ where
  unfoldable pub zremrangebyscore : RedisKey → F → F → Db F S → Reply F × Db F S
  zremrangebyscore rk min max db0 =
      let db = bump Stat.zremrangebyscore db0 in
      on_sset (Cache.find rk db.cache) (say Message.zero, db) (say Message.type_err, db)
        (λ s. removed_back rk db (SsetLsa.erase_entries (fetch_by_score min max 0 s) s))

module _ {F : Type 0} ⦃D : Double F⦄ where
  -- The double of a reply, if it is one, is not NaN.
  abbrev pub RepliesNumber : Reply F → Type 0
  RepliesNumber r = (x : F) → r ≡ Reply.double x → D.is_nan x ≡ false
