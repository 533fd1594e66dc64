-- ===== src/Database/Hashes.antt =====
-- db.cc: the handlers of hashes.
use pedis.Base.{
  ℕ, ◌+◌, Bool, true, false, Option, none, some, List, [], ◌∷◌, map, length, is_empty,
  if◌then◌else◌,
}
use pedis.Base.Bytes.{Bytes}
use pedis.Double.{Double}
use pedis.Ordered
use pedis.DictLsa.{Dict, DictEntry, DictValue, dict_key, set_value, fetch}
use pedis.Keys.{RedisKey}
use pedis.TimerSet.{TimerSet}
use pedis.Cache
use pedis.Cache.{Value}
use pedis.Reply.{Message, Reply}
use pedis.Database.{Stat, Db, bump, with_cache, say, flag_reply, on_dict, create, store_back}
use pedis.Database.Strings.{add_word}

abbrev pub field_entry : {F : Type 0} → Bytes → DictValue F → DictEntry F
field_entry k v = record { key = k; value = v }

-- `for (auto& kv : kvs)` of HMSET: it stops at the first field that is already there. The result
-- is that of the last insertion.
unfoldable pub hmset_loop : {F : Type 0} → List (Bytes × Bytes) → Bool → Dict F → Dict F × Bool
hmset_loop [] result d = (d, result)
hmset_loop ((k, v) ∷ kvs) result d =
    let (d', done) = Ordered.insert dict_key (field_entry k (DictValue.bytes v)) d in
    let rest = hmset_loop kvs done d' in if done then rest else (d', false)

-- The loop of HDEL, SREM with several keys, and the number of those erased.
unfoldable pub erase_loop : {F : Type 0} → List Bytes → Dict F → Dict F × ℕ
erase_loop [] d = (d, 0)
erase_loop (k ∷ keys) d =
    let (d', done) = Ordered.erase dict_key k d in
    let (d'', n) = erase_loop keys d' in (d'', if done then n + 1 else n)

module _ {F : Type 0} where
  abbrev pub integer_step : ℕ → DictValue F → Option (DictValue F)
  integer_step delta (DictValue.integer n) = some (DictValue.integer (add_word n delta))
  integer_step delta _ = none

  -- `value_bytes_size` of a field, the union read as bytes. Of a number it is not a size, and
  -- `none` stands for whatever the number reads as.
  unfoldable pub value_bytes_size : DictValue F → Option ℕ
  value_bytes_size (DictValue.bytes b) = some (length b)
  value_bytes_size _ = none

module _ {F S : Type 0} where
  -- HSET on the hash. `map.insert(entry)` leaves a field that is there as it is.
  unfoldable pub hset_dict : RedisKey → Bytes → Bytes → Db F S → Dict F → Reply F × Db F S
  hset_dict rk key val db d =
      let e = field_entry key (DictValue.bytes val) in
      let d' = (Ordered.insert dict_key e d).0 in
      (
        say (if Ordered.exists dict_key key d then Message.zero else Message.one),
        with_cache (Cache.assign rk (Value.dict d') db.cache) db,
      )

  unfoldable pub hset : RedisKey → Bytes → Bytes → Db F S → Reply F × Db F S
  unfolding hset_dict
  hset rk key val db0 =
      let db = bump Stat.hset db0 in
      on_dict (Cache.find rk db.cache)
        (hset_dict rk key val (create rk (Value.dict []) Stat.total_dict_entries db) [])
        (say Message.type_err, db) (hset_dict rk key val db)

  -- The field after an increment, and the reply: `fresh` is the value of a missing field, and
  -- `step` the new value of one that is there, if its type is right.
  unfoldable pub step_dict :
      RedisKey
      → Bytes
      → DictValue F
      → (DictValue F → Option (DictValue F))
      → Message
      → Db F S
      → Dict F
      → Reply F × Db F S
  step_dict rk key fresh step wrong db d = elim (Ordered.find dict_key key d) [
    | none ↦
        let e = field_entry key fresh in
        (
          Reply.field (some e),
          with_cache (Cache.assign rk (Value.dict (Ordered.insert dict_key e d).0) db.cache) db,
        )
    | some e ↦ (elim (step e.value) [
      | none ↦ (say wrong, db)
      | some v ↦ (
        Reply.field (some (record e { value = v })),
        with_cache
            (Cache.assign rk (Value.dict (Ordered.modify dict_key key (set_value v) d)) db.cache)
            db,
      )
    ])
  ]

  unfoldable pub hincrby : RedisKey → Bytes → ℕ → Db F S → Reply F × Db F S
  unfolding step_dict
  hincrby rk key delta db0 =
      let db = bump Stat.hincrby db0 in
      let on =
        step_dict rk key (DictValue.integer delta) (integer_step delta) Message.not_integer_err in
      on_dict (Cache.find rk db.cache)
        (on (create rk (Value.dict []) Stat.total_dict_entries db) []) (say Message.type_err, db)
        (on db)

  unfoldable pub hmset_dict : RedisKey → List (Bytes × Bytes) → Db F S → Dict F → Reply F × Db F S
  unfolding hmset_loop
  hmset_dict rk kvs db d =
      let (d', result) = hmset_loop kvs false d in
      (
        say (if result then Message.ok else Message.err),
        with_cache (Cache.assign rk (Value.dict d') db.cache) db,
      )

  -- HMSET
  unfoldable pub hmset : RedisKey → List (Bytes × Bytes) → Db F S → Reply F × Db F S
  unfolding hmset_dict
  hmset rk kvs db0 =
      let db = bump Stat.hmset db0 in
      on_dict (Cache.find rk db.cache)
        (hmset_dict rk kvs (create rk (Value.dict []) Stat.total_dict_entries db) [])
        (say Message.type_err, db) (hmset_dict rk kvs db)

  unfoldable pub hget : RedisKey → Bytes → Db F S → Reply F × Db F S
  hget rk key db0 =
      let db = bump Stat.hget (bump Stat.read db0) in
      on_dict (Cache.find rk db.cache) (say Message.err, db) (say Message.type_err, db)
        (λ d.
          let e = Ordered.find dict_key key d in
          (Reply.field e, elim e [ none ↦ db | some x ↦ bump Stat.hit db ]))

  unfoldable pub hexists : RedisKey → Bytes → Db F S → Reply F × Db F S
  hexists rk key db0 =
      let db = bump Stat.hexists db0 in
      on_dict (Cache.find rk db.cache) (say Message.zero, db) (say Message.type_err, db)
        (λ d. (flag_reply (Ordered.exists dict_key key d), db))

  unfoldable pub hstrlen : RedisKey → Bytes → Db F S → Option (Reply F × Db F S)
  unfolding value_bytes_size
  hstrlen rk key db0 =
      let db = bump Stat.hstrlen db0 in
      on_dict (Cache.find rk db.cache) (some (say Message.zero, db))
        (some (say Message.type_err, db))
        (λ d. elim (Ordered.find dict_key key d) [
          | none ↦ some (say Message.zero, db)
          | some e ↦ (elim (value_bytes_size e.value) [
            | none ↦ none
            | some n ↦ some (Reply.size n, db)
          ])
        ])

  unfoldable pub hlen : RedisKey → Db F S → Reply F × Db F S
  hlen rk db0 =
      let db = bump Stat.hlen db0 in
      on_dict (Cache.find rk db.cache) (say Message.zero, db) (say Message.type_err, db)
        (λ d. (Reply.size (length d), db))

  -- HGETALL, HKEYS and HVALS: `hgetall_impl<Key, Value>`
  unfoldable pub hgetall_impl : Bool → Bool → RedisKey → Db F S → Reply F × Db F S
  hgetall_impl keys values rk db0 =
      let db = bump Stat.read db0 in
      on_dict (Cache.find rk db.cache) (say Message.err, db) (say Message.type_err, db)
        (λ d. (Reply.fields keys values (map some d), if is_empty d then db else bump Stat.hit db))

  unfoldable pub hmget : RedisKey → List Bytes → Db F S → Reply F × Db F S
  hmget rk keys db0 =
      let db = bump Stat.hmget (bump Stat.read db0) in
      on_dict (Cache.find rk db.cache) (say Message.err, db) (say Message.type_err, db)
        (λ d.
          let entries = fetch keys d in
          (Reply.fields false true entries, if is_empty entries then db else bump Stat.hit db))

module _ {F S : Type 0} ⦃T : TimerSet S⦄ where
  unfoldable pub hdel_multi : RedisKey → List Bytes → Db F S → Reply F × Db F S
  hdel_multi rk keys db0 =
      let db = bump Stat.hdel db0 in
      on_dict (Cache.find rk db.cache) (say Message.zero, db) (say Message.type_err, db)
        (λ d.
          let (d', removed) = erase_loop keys d in
          (
            Reply.size removed,
            store_back rk (Value.dict d') (is_empty d') Stat.total_dict_entries db,
          ))

  unfoldable pub hdel : RedisKey → Bytes → Db F S → Reply F × Db F S
  hdel rk key db0 =
      let db = bump Stat.hdel db0 in
      on_dict (Cache.find rk db.cache) (say Message.zero, db) (say Message.type_err, db)
        (λ d.
          let (d', exists) = Ordered.erase dict_key key d in
          (
            say (if exists then Message.ok else Message.err),
            store_back rk (Value.dict d') (is_empty d') Stat.total_dict_entries db,
          ))

module _ {F : Type 0} ⦃D : Double F⦄ where
  abbrev pub float_step : F → DictValue F → Option (DictValue F)
  float_step delta (DictValue.float x) = some (DictValue.float (D.add x delta))
  float_step delta _ = none

module _ {F S : Type 0} ⦃D : Double F⦄ where
  unfoldable pub hincrbyfloat : RedisKey → Bytes → F → Db F S → Reply F × Db F S
  unfolding step_dict
  hincrbyfloat rk key delta db0 =
      let db = bump Stat.hincrbyfloat db0 in
      let on = step_dict rk key (DictValue.float delta) (float_step delta) Message.not_float_err in
      on_dict (Cache.find rk db.cache)
        (on (create rk (Value.dict []) Stat.total_dict_entries db) []) (say Message.type_err, db)
        (on db)
