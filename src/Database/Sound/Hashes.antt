-- ===== src/Database/Sound/Hashes.antt =====
-- The handlers of hashes keep the cache sound: the fields stay in key order.
use pedis.Base.{
  ℕ, ◌≡◌, ◌≢◌, refl, Bool, false, Option, none, some, List, [], ◌∷◌, arith, is_empty, Option-cases,
  inl, inr,
}
use pedis.Base.Bytes.{Bytes}
use pedis.Double.{Double}
use pedis.Ordered
use pedis.Ordered.Sorted
use pedis.DictLsa.{Dict, DictEntry, DictValue, dict_key, set_value}
use pedis.Keys.{RedisKey}
use pedis.TimerSet.{TimerSet}
use pedis.Cache
use pedis.Cache.{CacheEntry, Value}
use pedis.Reply.{Message}
use pedis.Database.{Db, Stat, bump, create}
use pedis.Database.Hashes
use pedis.Database.Hashes.{hmset_loop, erase_loop, field_entry, float_step, integer_step}
use pedis.Database.Sound.{
  IsSound, IsSoundBut, create-IsSoundBut, weaken, assign-IsSound, assign_created-IsSound,
  store_back-IsSound, Leaves, dict_cases, value-WellFormed,
}

module _ {F : Type 0} where
  hmset_loop-IsSorted :
      (kvs : List (Bytes × Bytes)) (result : Bool) (d : Dict F)
      → Sorted.IsSorted dict_key d
      → Sorted.IsSorted dict_key (hmset_loop kvs result d).0
  unfolding hmset_loop
  hmset_loop-IsSorted [] result d s = s
  hmset_loop-IsSorted ((k, v) ∷ kvs) result d s =
      let r = Ordered.insert dict_key (field_entry k (DictValue.bytes v)) d in
      let sorted = Sorted.insert-IsSorted dict_key (field_entry k (DictValue.bytes v)) d s in
      ground (arith, sorted, hmset_loop-IsSorted kvs r.1 r.0 sorted)

  pub erase_loop-IsSorted :
      (keys : List Bytes) (d : Dict F)
      → Sorted.IsSorted dict_key d
      → Sorted.IsSorted dict_key (erase_loop keys d).0
  unfolding erase_loop
  erase_loop-IsSorted [] d s = s
  erase_loop-IsSorted (k ∷ keys) d s =
      erase_loop-IsSorted keys (Ordered.erase dict_key k d).0 (Sorted.erase-IsSorted dict_key k d s)

module _ {F S : Type 0} ⦃D : Double F⦄ ⦃T : TimerSet S⦄ where
  -- HSET
  pub hset-IsSound :
      (rk : RedisKey) (key val : Bytes) (db : Db F S)
      → IsSound db.cache
      → Leaves (Hashes.hset rk key val db)
  unfolding Hashes.hset Hashes.hset_dict
  hset-IsSound rk key val db s =
      dict_cases Leaves _ _
        (assign_created-IsSound rk (Value.dict []) (Value.dict (Ordered.insert dict_key e []).0)
          db.cache (Sorted.insert-IsSorted dict_key e [] tt) s)
        s _ (Cache.find rk db.cache)
        (λ x d found is_dict.
          assign-IsSound rk (Value.dict (Ordered.insert dict_key e d).0) db.cache
            (Sorted.insert-IsSorted dict_key e d
              (value-WellFormed rk (Value.dict d) x db.cache found is_dict s))
            (weaken rk db.cache s))
    where
      e : DictEntry F
      e = field_entry key (DictValue.bytes val)

  -- HMSET
  pub hmset-IsSound :
      (rk : RedisKey) (kvs : List (Bytes × Bytes)) (db : Db F S)
      → IsSound db.cache
      → Leaves (Hashes.hmset rk kvs db)
  unfolding Hashes.hmset Hashes.hmset_dict
  hmset-IsSound rk kvs db s =
      dict_cases Leaves _ _
        (assign_created-IsSound rk (Value.dict []) (Value.dict (hmset_loop kvs false []).0) db.cache
          (hmset_loop-IsSorted kvs false [] tt) s)
        s _ (Cache.find rk db.cache)
        (λ x d found is_dict.
          assign-IsSound rk (Value.dict (hmset_loop kvs false d).0) db.cache
            (hmset_loop-IsSorted kvs false d
              (value-WellFormed rk (Value.dict d) x db.cache found is_dict s))
            (weaken rk db.cache s))

  step_dict-IsSound :
      (rk : RedisKey) (key : Bytes) (fresh : DictValue F)
      (step : DictValue F → Option (DictValue F)) (wrong : Message) (db : Db F S) (d : Dict F)
      → IsSoundBut rk db.cache
      → Sorted.IsSorted dict_key d
      → (Ordered.find dict_key key d ≢ none → IsSound db.cache)
      → Leaves (Hashes.step_dict rk key fresh step wrong db d)
  unfolding Hashes.step_dict
  step_dict-IsSound rk key fresh step wrong db d s w h =
      elim (Option-cases (Ordered.find dict_key key d)) [
        | inl absent ↦
            rw (absent, Hashes.step_dict)
              (assign-IsSound rk (Value.dict (Ordered.insert dict_key (field_entry key fresh) d).0)
                db.cache (Sorted.insert-IsSorted dict_key (field_entry key fresh) d w) s)
        | inr (e, found) ↦
            rw (found, Hashes.step_dict)
              (elim (Option-cases (step e.value)) [
                | inl refused ↦ rw refused (h (λ q. ground (arith, q, found)))
                | inr (v, stepped) ↦ rw stepped (
                    assign-IsSound rk (Value.dict (Ordered.modify dict_key key (set_value v) d))
                      db.cache (Sorted.modify-IsSorted dict_key (set_value v) (λ x. refl) key d w)
                      s)
              ])
      ]

  created-step_dict :
      (rk : RedisKey) (key : Bytes) (fresh : DictValue F)
      (step : DictValue F → Option (DictValue F)) (wrong : Message) (st : Stat) (db : Db F S)
      → IsSound db.cache
      → Leaves (
          Hashes.step_dict rk key fresh step wrong
            (create rk (Value.dict []) Stat.total_dict_entries (bump st db))
            [])
  unfolding Ordered.find
  created-step_dict rk key fresh step wrong st db s =
      step_dict-IsSound rk key fresh step wrong
        (create rk (Value.dict []) Stat.total_dict_entries (bump st db)) []
        (create-IsSoundBut rk (Value.dict []) db.cache s) tt (λ h. elim (h refl) [ ])

  found-step_dict :
      (rk : RedisKey) (key : Bytes) (fresh : DictValue F)
      (step : DictValue F → Option (DictValue F)) (wrong : Message) (st : Stat) (db : Db F S)
      (x : CacheEntry F) (d : Dict F)
      → Cache.find rk db.cache ≡ some x
      → x.value ≡ Value.dict d
      → IsSound db.cache
      → Leaves (Hashes.step_dict rk key fresh step wrong (bump st db) d)
  found-step_dict rk key fresh step wrong st db x d found is_dict s =
      step_dict-IsSound rk key fresh step wrong (bump st db) d (weaken rk db.cache s)
        (value-WellFormed rk (Value.dict d) x db.cache found is_dict s) (λ _. s)

  -- HINCRBY
  pub hincrby-IsSound :
      (rk : RedisKey) (key : Bytes) (delta : ℕ) (db : Db F S)
      → IsSound db.cache
      → Leaves (Hashes.hincrby rk key delta db)
  unfolding Hashes.hincrby
  hincrby-IsSound rk key delta db s =
      dict_cases Leaves _ _
        (created-step_dict rk key (DictValue.integer delta) (integer_step delta)
          Message.not_integer_err Stat.hincrby db s)
        s _ (Cache.find rk db.cache)
        (λ x d found is_dict.
          found-step_dict rk key (DictValue.integer delta) (integer_step delta)
            Message.not_integer_err Stat.hincrby db x d found is_dict s)

  -- HINCRBYFLOAT
  pub hincrbyfloat-IsSound :
      (rk : RedisKey) (key : Bytes) (delta : F) (db : Db F S)
      → IsSound db.cache
      → Leaves (Hashes.hincrbyfloat rk key delta db)
  unfolding Hashes.hincrbyfloat
  hincrbyfloat-IsSound rk key delta db s =
      dict_cases Leaves _ _
        (created-step_dict rk key (DictValue.float delta) (float_step delta) Message.not_float_err
          Stat.hincrbyfloat db s)
        s _ (Cache.find rk db.cache)
        (λ x d found is_dict.
          found-step_dict rk key (DictValue.float delta) (float_step delta) Message.not_float_err
            Stat.hincrbyfloat db x d found is_dict s)

  -- HDEL of several fields.
  pub hdel_multi-IsSound :
      (rk : RedisKey) (keys : List Bytes) (db : Db F S)
      → IsSound db.cache
      → Leaves (Hashes.hdel_multi rk keys db)
  unfolding Hashes.hdel_multi
  hdel_multi-IsSound rk keys db s =
      dict_cases Leaves _ _ s s _ (Cache.find rk db.cache) (λ x d found is_dict.
        store_back-IsSound rk (Value.dict (erase_loop keys d).0) (is_empty (erase_loop keys d).0)
          Stat.total_dict_entries (bump Stat.hdel db)
          (λ _.
            erase_loop-IsSorted keys d
              (value-WellFormed rk (Value.dict d) x db.cache found is_dict s))
          s)

  -- HDEL
  pub hdel-IsSound :
      (rk : RedisKey) (key : Bytes) (db : Db F S)
      → IsSound db.cache
      → Leaves (Hashes.hdel rk key db)
  unfolding Hashes.hdel
  hdel-IsSound rk key db s =
      dict_cases Leaves _ _ s s _ (Cache.find rk db.cache) (λ x d found is_dict.
        store_back-IsSound rk (Value.dict (Ordered.erase dict_key key d).0)
          (is_empty (Ordered.erase dict_key key d).0) Stat.total_dict_entries (bump Stat.hdel db)
          (λ _.
            Sorted.erase-IsSorted dict_key key d
              (value-WellFormed rk (Value.dict d) x db.cache found is_dict s))
          s)
