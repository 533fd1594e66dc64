-- ===== src/Database/Spares/Collections.antt =====
-- The handlers of hashes, sets and sorted sets touch no entry but that of their key.
use pedis.Base.{ℕ, Option, List, [], is_empty, Option-cases, inl, inr, min, length, on_if}
use pedis.Base.Int.{ℤ}
use pedis.Base.Bytes.{Bytes}
use pedis.Double.{Double}
use pedis.Ordered
use pedis.DictLsa.{Dict, DictValue, dict_key}
use pedis.SsetLsa
use pedis.SsetLsa.{Sset}
use pedis.Keys.{RedisKey}
use pedis.TimerSet.{TimerSet}
use pedis.Cache
use pedis.Cache.{Cache, Value, new_entry}
use pedis.Cache.Table.{IsDistinct}
use pedis.Reply.{Message}
use pedis.Database.{Stat, Db, bump, create}
use pedis.Database.Hashes
use pedis.Database.Hashes.{integer_step, float_step}
use pedis.Database.Sets
use pedis.Database.SortedSets
use pedis.Database.Sound.{dict_cases, set_cases, sset_cases}
use pedis.Database.Spares.{
  Spares, Leaves, LeavesIf, same-Spares, assign-Spares, created-Spares, store_back-Spares,
}

module _ {F S : Type 0} where
  pub hset-Spares :
      (rk : RedisKey) (key val : Bytes) (db : Db F S) → Leaves rk db (Hashes.hset rk key val db)
  unfolding Hashes.hset Hashes.hset_dict
  hset-Spares rk key val db =
      dict_cases (Leaves rk db) _ _ (created-Spares rk _ _ db.cache) (same-Spares rk db.cache) _
        (Cache.find rk db.cache) (λ x d _ _. assign-Spares rk _ db.cache)

  pub hmset-Spares :
      (rk : RedisKey) (kvs : List (Bytes × Bytes)) (db : Db F S)
      → Leaves rk db (Hashes.hmset rk kvs db)
  unfolding Hashes.hmset Hashes.hmset_dict
  hmset-Spares rk kvs db =
      dict_cases (Leaves rk db) _ _ (created-Spares rk _ _ db.cache) (same-Spares rk db.cache) _
        (Cache.find rk db.cache) (λ x d _ _. assign-Spares rk _ db.cache)

  pub sadds-Spares :
      (rk : RedisKey) (members : List Bytes) (db : Db F S) → Leaves rk db (Sets.sadds rk members db)
  unfolding Sets.sadds Sets.sadds_dict
  sadds-Spares rk members db =
      set_cases (Leaves rk db) _ _ (created-Spares rk _ _ db.cache) (same-Spares rk db.cache) _
        (Cache.find rk db.cache) (λ x d _ _. assign-Spares rk _ db.cache)

  -- The loops of HINCRBY and HINCRBYFLOAT, on a new hash and on one that is there.
  step_dict-Spares :
      (rk : RedisKey) (key : Bytes) (fresh : DictValue F)
      (step : DictValue F → Option (DictValue F)) (wrong : Message) (db : Db F S) (d : Dict F)
      → Leaves rk db (Hashes.step_dict rk key fresh step wrong db d)
  unfolding Hashes.step_dict
  step_dict-Spares rk key fresh step wrong db d =
      elim (Option-cases (Ordered.find dict_key key d)) [
        | inl absent ↦ rw (absent, Hashes.step_dict) (assign-Spares rk _ db.cache)
        | inr (e, found) ↦
            rw (found, Hashes.step_dict)
              (elim (Option-cases (step e.value)) [
                | inl refused ↦ rw refused (same-Spares rk db.cache)
                | inr (v, stepped) ↦ rw stepped (assign-Spares rk _ db.cache)
              ])
      ]

  created-step_dict :
      (rk : RedisKey) (key : Bytes) (fresh : DictValue F)
      (step : DictValue F → Option (DictValue F)) (wrong : Message) (st : Stat) (db : Db F S)
      → Leaves rk db (
          Hashes.step_dict rk key fresh step wrong
            (create rk (Value.dict []) Stat.total_dict_entries (bump st db))
            [])
  unfolding Hashes.step_dict Ordered.find
  created-step_dict rk key fresh step wrong st db = created-Spares rk _ _ db.cache

  pub hincrby-Spares :
      (rk : RedisKey) (key : Bytes) (delta : ℕ) (db : Db F S)
      → Leaves rk db (Hashes.hincrby rk key delta db)
  unfolding Hashes.hincrby
  hincrby-Spares rk key delta db =
      let fresh = DictValue.integer delta in
      let step = integer_step delta in
      dict_cases (Leaves rk db) _ _
        (created-step_dict rk key fresh step Message.not_integer_err Stat.hincrby db)
        (same-Spares rk db.cache) _ (Cache.find rk db.cache)
        (λ x d _ _.
          step_dict-Spares rk key fresh step Message.not_integer_err (bump Stat.hincrby db) d)

module _ {F S : Type 0} ⦃D : Double F⦄ where
  pub hincrbyfloat-Spares :
      (rk : RedisKey) (key : Bytes) (delta : F) (db : Db F S)
      → Leaves rk db (Hashes.hincrbyfloat rk key delta db)
  unfolding Hashes.hincrbyfloat
  hincrbyfloat-Spares rk key delta db =
      let fresh = DictValue.float delta in
      let step = float_step delta in
      dict_cases (Leaves rk db) _ _
        (created-step_dict rk key fresh step Message.not_float_err Stat.hincrbyfloat db)
        (same-Spares rk db.cache) _ (Cache.find rk db.cache)
        (λ x d _ _.
          step_dict-Spares rk key fresh step Message.not_float_err (bump Stat.hincrbyfloat db) d)

  pub zincrby-Spares :
      (rk : RedisKey) (member : Bytes) (delta : F) (db : Db F S)
      → Leaves rk db (SortedSets.zincrby rk member delta db)
  unfolding SortedSets.zincrby SortedSets.zincrby_sset
  zincrby-Spares rk member delta db =
      sset_cases (Leaves rk db) _ _ (created-Spares rk _ _ db.cache) (same-Spares rk db.cache) _
        (Cache.find rk db.cache) (λ x d _ _. assign-Spares rk _ db.cache)

  sized-Spares :
      (rk : RedisKey) (members : List (Bytes × F)) (flags : ℕ) (db : Db F S) (s : Sset F)
      → LeavesIf rk db (SortedSets.sized (SortedSets.zadds_sset rk members flags db s))
  unfolding SortedSets.zadds_sset
  sized-Spares rk members flags db s = elim (Option-cases (SortedSets.zadd_sset members flags s)) [
    | inl lost ↦ rw (lost, SortedSets.zadds_sset) tt
    | inr (r, kept) ↦ rw (kept, SortedSets.zadds_sset) (assign-Spares rk _ db.cache)
  ]

  created-sized :
      (rk : RedisKey) (members : List (Bytes × F)) (flags : ℕ) (db : Db F S) (st : Stat)
      → LeavesIf rk db (
          SortedSets.sized (
            SortedSets.zadds_sset rk members flags
              (create rk (Value.sset SsetLsa.empty) Stat.total_zset_entries (bump st db))
              SsetLsa.empty))
  unfolding SortedSets.zadds_sset
  created-sized rk members flags db st =
      elim (Option-cases (SortedSets.zadd_sset members flags SsetLsa.empty)) [
        | inl lost ↦ rw (lost, SortedSets.zadds_sset) tt
        | inr (r, kept) ↦ rw (kept, SortedSets.zadds_sset) (created-Spares rk _ _ db.cache)
      ]

  pub zadds-Spares :
      (rk : RedisKey) (members : List (Bytes × F)) (flags : ℕ) (db : Db F S)
      → LeavesIf rk db (SortedSets.zadds rk members flags db)
  unfolding SortedSets.zadds
  zadds-Spares rk members flags db =
      sset_cases (LeavesIf rk db) _ _ (created-sized rk members flags db Stat.zadd)
        (same-Spares rk db.cache) _ (Cache.find rk db.cache)
        (λ x s _ _. sized-Spares rk members flags (bump Stat.zadd db) s)

module _ {F S : Type 0} ⦃T : TimerSet S⦄ where
  pub hdel-Spares :
      (rk : RedisKey) (key : Bytes) (db : Db F S)
      → IsDistinct db.cache.store
      → Leaves rk db (Hashes.hdel rk key db)
  unfolding Hashes.hdel
  hdel-Spares rk key db d =
      let stay = same-Spares rk db.cache in
      dict_cases (Leaves rk db) _ _ stay stay _ (Cache.find rk db.cache)
        (λ x v _ _. store_back-Spares rk _ _ _ (bump Stat.hdel db) d)

  pub hdel_multi-Spares :
      (rk : RedisKey) (keys : List Bytes) (db : Db F S)
      → IsDistinct db.cache.store
      → Leaves rk db (Hashes.hdel_multi rk keys db)
  unfolding Hashes.hdel_multi
  hdel_multi-Spares rk keys db d =
      let stay = same-Spares rk db.cache in
      dict_cases (Leaves rk db) _ _ stay stay _ (Cache.find rk db.cache)
        (λ x v _ _. store_back-Spares rk _ _ _ (bump Stat.hdel db) d)

  pub srem-Spares :
      (rk : RedisKey) (member : Bytes) (db : Db F S)
      → IsDistinct db.cache.store
      → Leaves rk db (Sets.srem rk member db)
  unfolding Sets.srem
  srem-Spares rk member db d =
      let stay = same-Spares rk db.cache in
      set_cases (Leaves rk db) _ _ stay stay _ (Cache.find rk db.cache)
        (λ x v _ _. store_back-Spares rk _ _ _ (bump Stat.srem db) d)

  pub srems-Spares :
      (rk : RedisKey) (members : List Bytes) (db : Db F S)
      → IsDistinct db.cache.store
      → Leaves rk db (Sets.srems rk members db)
  unfolding Sets.srems
  srems-Spares rk members db d =
      let stay = same-Spares rk db.cache in
      set_cases (Leaves rk db) _ _ stay stay _ (Cache.find rk db.cache)
        (λ x v _ _. store_back-Spares rk _ _ _ (bump Stat.srem db) d)

  pub zrem-Spares :
      (rk : RedisKey) (members : List Bytes) (db : Db F S)
      → IsDistinct db.cache.store
      → Leaves rk db (SortedSets.zrem rk members db)
  unfolding SortedSets.zrem
  zrem-Spares rk members db d =
      let stay = same-Spares rk db.cache in
      sset_cases (Leaves rk db) _ _ stay stay _ (Cache.find rk db.cache)
        (λ x v _ _. store_back-Spares rk _ _ _ (bump Stat.zrem db) d)

  pub zremrangebyrank-Spares :
      (rk : RedisKey) (begin end : ℤ) (db : Db F S)
      → IsDistinct db.cache.store
      → Leaves rk db (SortedSets.zremrangebyrank rk begin end db)
  unfolding SortedSets.zremrangebyrank
  zremrangebyrank-Spares rk begin end db d =
      let stay = same-Spares rk db.cache in
      sset_cases (Leaves rk db) _ _ stay stay _ (Cache.find rk db.cache)
        (λ x v _ _. store_back-Spares rk _ _ _ (bump Stat.zremrangebyrank db) d)

  pub spop-Spares :
      (rands : List ℕ) (rk : RedisKey) (count : ℕ) (db : Db F S)
      → IsDistinct db.cache.store
      → LeavesIf rk db (Sets.spop rands rk count db)
  unfolding Sets.spop
  spop-Spares rands rk count db d =
      let stay = same-Spares rk db.cache in
      set_cases (LeavesIf rk db) _ _ stay stay _ (Cache.find rk db.cache) (λ x v _ _.
        elim (Option-cases (Sets.erase_picked (Sets.pick_loop (min count (length v)) rands v) v)) [
          | inl lost ↦ rw lost tt
          | inr (v', kept) ↦ rw kept (
              on_if (λ (db' : Db F S). Spares rk db.cache db'.cache)
                (is_empty (Sets.pick_loop (min count (length v)) rands v)) _ _ (λ _. stay)
                (λ _. store_back-Spares rk _ _ _ (bump Stat.spop (bump Stat.read db)) d))
        ])

module _ {F S : Type 0} ⦃D : Double F⦄ ⦃T : TimerSet S⦄ where
  pub zremrangebyscore-Spares :
      (rk : RedisKey) (min max : F) (db : Db F S)
      → IsDistinct db.cache.store
      → Leaves rk db (SortedSets.zremrangebyscore rk min max db)
  unfolding SortedSets.zremrangebyscore
  zremrangebyscore-Spares rk min max db d =
      let stay = same-Spares rk db.cache in
      sset_cases (Leaves rk db) _ _ stay stay _ (Cache.find rk db.cache)
        (λ x v _ _. store_back-Spares rk _ _ _ (bump Stat.zremrangebyscore db) d)
