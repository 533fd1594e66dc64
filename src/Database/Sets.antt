-- ===== src/Database/Sets.antt =====
-- db.cc: the handlers of sets. `rands` are the numbers that the random generator returns, in turn.
use pedis.Base.{
  ℕ, zero, suc, ◌+◌, ◌%◌, Bool, true, false, Option, none, some, List, [], ◌∷◌, map, length,
  is_empty, min, ◌||◌, if◌then◌else◌,
}
use pedis.Base.Bytes.{Bytes, bytes_eq}
use pedis.Ordered
use pedis.DictLsa
use pedis.DictLsa.{Dict, DictEntry, DictValue, dict_key, fetch_keys}
use pedis.Keys.{RedisKey}
use pedis.TimerSet.{TimerSet}
use pedis.Cache
use pedis.Cache.{Value}
use pedis.Reply.{Message, Reply}
use pedis.Database.{
  Stat, Db, Handled, bump, with_cache, say, flag_reply, on_set, create, store_back,
}
use pedis.Database.Hashes.{erase_loop}

module _ {F : Type 0} where
  -- `dict_entry(const bytes& key)`
  abbrev pub member_entry : Bytes → DictEntry F
  member_entry k = record { key = k; value = DictValue.unset }

  -- `for (auto& member : members)` of SADD, and the number of members that went in.
  unfoldable pub add_loop : List Bytes → Dict F → Dict F × ℕ
  add_loop [] d = (d, 0)
  add_loop (k ∷ members) d =
      let (d', done) = Ordered.insert dict_key (member_entry k) d in
      let (d'', n) = add_loop members d' in (d'', if done then n + 1 else n)

  -- The loop of SRANDMEMBER and SPOP: `count` random positions. It takes one number of `rands`
  -- for each, of which there are as many as it asks for.
  unfoldable pub pick_loop : ℕ → List ℕ → Dict F → List (DictEntry F)
  pick_loop zero rands d = []
  pick_loop (suc count) [] d = []
  pick_loop (suc count) (r ∷ rands) d =
      let rest = pick_loop count rands d in
      elim (DictLsa.at (r % length d) d) [ none ↦ rest | some e ↦ e ∷ rest ]

  mentioned : Bytes → List (DictEntry F) → Bool
  mentioned k [] = false
  mentioned k (e ∷ l) = bytes_eq k e.key || mentioned k l

  -- `for (auto it : removed) set.erase(it)`: an iterator that is there twice is erased twice.
  unfoldable pub erase_picked : List (DictEntry F) → Dict F → Option (Dict F)
  unfolding mentioned
  erase_picked [] d = some d
  erase_picked (e ∷ l) d =
      let rest = erase_picked l (Ordered.erase dict_key e.key d).0 in
      if mentioned e.key l then none else rest

module _ {F S : Type 0} where
  unfoldable pub srandmember : List ℕ → RedisKey → ℕ → Db F S → Reply F × Db F S
  srandmember rands rk count db0 =
      let db = bump Stat.srandmember (bump Stat.read db0) in
      on_set (Cache.find rk db.cache) (Reply.fields true false [], db) (say Message.type_err, db)
        (λ d.
          let result = pick_loop (min count (length d)) rands d in
          (
            Reply.fields true false (map some result),
            if is_empty result then db else bump Stat.hit db,
          ))

  -- SADD on the set: the number of new members.
  unfoldable pub sadds_dict : RedisKey → List Bytes → Db F S → Dict F → ℕ × Db F S
  unfolding add_loop
  sadds_dict rk members db d =
      let (d', inserted) = add_loop members d in
      (inserted, with_cache (Cache.assign rk (Value.set d') db.cache) db)

  abbrev sized : ℕ × Db F S → Reply F × Db F S
  sized (n, db) = (Reply.size n, db)

  abbrev done : ℕ × Db F S → Bool × Db F S
  done (n, db) = (true, db)

  unfoldable pub sadds : RedisKey → List Bytes → Db F S → Reply F × Db F S
  unfolding sadds_dict
  sadds rk members db0 =
      let db = bump Stat.sadd db0 in
      on_set (Cache.find rk db.cache)
        (sized (sadds_dict rk members (create rk (Value.set []) Stat.total_set_entries db) []))
        (say Message.type_err, db) (λ d. sized (sadds_dict rk members db d))

  -- `sadds_direct`; `sadd_direct` is the case of one member.
  unfoldable pub sadds_direct : RedisKey → List Bytes → Db F S → Bool × Db F S
  unfolding sadds_dict
  sadds_direct rk members db0 =
      let db = bump Stat.sadd db0 in
      on_set (Cache.find rk db.cache)
        (done (sadds_dict rk members (create rk (Value.set []) Stat.total_set_entries db) []))
        (false, db) (λ d. done (sadds_dict rk members db d))

  unfoldable pub sadd_direct : RedisKey → Bytes → Db F S → Bool × Db F S
  unfolding sadds_direct
  sadd_direct rk member db = sadds_direct rk (member ∷ []) db

  unfoldable pub scard : RedisKey → Db F S → Reply F × Db F S
  scard rk db0 =
      let db = bump Stat.scard db0 in
      on_set (Cache.find rk db.cache) (say Message.zero, db) (say Message.type_err, db)
        (λ d. (Reply.size (length d), db))

  unfoldable pub sismember : RedisKey → Bytes → Db F S → Reply F × Db F S
  sismember rk member db0 =
      let db = bump Stat.sismember db0 in
      on_set (Cache.find rk db.cache) (say Message.zero, db) (say Message.type_err, db)
        (λ d. (flag_reply (Ordered.exists dict_key member d), db))

  unfoldable pub smembers : RedisKey → Db F S → Reply F × Db F S
  smembers rk db0 =
      let db = bump Stat.smembers (bump Stat.read db0) in
      on_set (Cache.find rk db.cache) (say Message.nil, db) (say Message.type_err, db)
        (λ d. (Reply.fields true false (map some d), if is_empty d then db else bump Stat.hit db))

  unfoldable pub smembers_direct : RedisKey → Db F S → List Bytes × Db F S
  unfolding fetch_keys
  smembers_direct rk db0 =
      let db = bump Stat.smembers (bump Stat.read db0) in
      on_set (Cache.find rk db.cache) ([], db) ([], db)
        (λ d. (fetch_keys d, if is_empty d then db else bump Stat.hit db))

module _ {F S : Type 0} ⦃T : TimerSet S⦄ where
  unfoldable pub spop : List ℕ → RedisKey → ℕ → Db F S → Handled F S
  spop rands rk count db0 =
      let db = bump Stat.spop (bump Stat.read db0) in
      on_set (Cache.find rk db.cache) (some (say Message.nil, db)) (some (say Message.type_err, db))
        (λ d.
          let entries = pick_loop (min count (length d)) rands d in
          elim (erase_picked entries d) [
            | none ↦ none
            | some d' ↦ some (
              Reply.fields true false (map some entries),
              if is_empty entries
                  then db
                  else store_back rk (Value.set d') (is_empty d') Stat.total_set_entries db,
            )
          ])

  unfoldable pub srem : RedisKey → Bytes → Db F S → Reply F × Db F S
  srem rk member db0 =
      let db = bump Stat.srem db0 in
      on_set (Cache.find rk db.cache) (say Message.zero, db) (say Message.type_err, db)
        (λ d.
          let (d', result) = Ordered.erase dict_key member d in
          (flag_reply result, store_back rk (Value.set d') (is_empty d') Stat.total_set_entries db))

  unfoldable pub srem_direct : RedisKey → Bytes → Db F S → Bool × Db F S
  srem_direct rk member db0 =
      let db = bump Stat.srem db0 in
      on_set (Cache.find rk db.cache) (true, db) (false, db)
        (λ d.
          let (d', result) = Ordered.erase dict_key member d in
          (result, store_back rk (Value.set d') (is_empty d') Stat.total_set_entries db))

  unfoldable pub srems : RedisKey → List Bytes → Db F S → Reply F × Db F S
  srems rk members db0 =
      let db = bump Stat.srem db0 in
      on_set (Cache.find rk db.cache) (say Message.zero, db) (say Message.type_err, db)
        (λ d.
          let (d', removed) = erase_loop members d in
          (
            Reply.size removed,
            store_back rk (Value.set d') (is_empty d') Stat.total_set_entries db,
          ))
