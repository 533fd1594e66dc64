-- ===== src/Database/Spares.antt =====
-- The handlers touch no entry but that of their key: the changes of the cache, and the handlers of
-- keys and strings.
pub mod Lists
pub mod Collections
use pedis.Base.{
  inr, inl, Bool-cases, ◌&&◌, ℕ, ◌≡◌, refl, ◌∙◌, Bool, true, false, Option, none, some, [], arith,
  Option-cases, inl, inr,
}
use pedis.Base.Int.{ℤ}
use pedis.Base.Bytes.{Bytes}
use pedis.Keys.{RedisKey, same_key}
use pedis.TimerSet.{TimerSet}
use pedis.Cache
use pedis.Cache.{Cache, CacheEntry, Value, new_entry}
use pedis.Cache.Table.{IsDistinct}
use pedis.Cache.Effects.{
  find-assign, find-insert, find-erase, find-replace, find-insert_if, find-erase_entry,
  find-give_expiry, find-never_expired, assign-IsDistinct,
}
use pedis.Database.{Stat, Db, Handled, bump, create, store_back}
use pedis.Database.Strings
use pedis.Database.Strings.{has_flag, flag_set_nx, flag_set_xx}

module _ {F S : Type 0} where
  -- Every other key finds what it found before.
  unfoldable pub Spares : RedisKey → Cache F S → Cache F S → Type 0
  Spares rk c c' = (j : RedisKey) → same_key j rk ≡ false → Cache.find j c' ≡ Cache.find j c

  pub same-Spares : (rk : RedisKey) (c : Cache F S) → Spares rk c c
  unfolding Spares
  same-Spares rk c j h = refl

  pub assign-Spares :
      (rk : RedisKey) (v : Value F) (c : Cache F S) → Spares rk c (Cache.assign rk v c)
  unfolding Spares
  assign-Spares rk v c j h = ground (arith, h, find-assign j rk v c)

  pub created-Spares :
      (rk : RedisKey) (v w : Value F) (c : Cache F S)
      → Spares rk c (Cache.assign rk w (Cache.insert (new_entry rk v) c))
  unfolding Spares
  created-Spares rk v w c j h = ground (
    arith,
    h,
    find-assign j rk w (Cache.insert (new_entry rk v) c),
    find-insert j (new_entry rk v) c,
  )

  -- What a handler leaves behind.
  abbrev pub Leaves : {A : Type 0} → RedisKey → Db F S → A × Db F S → Type 0
  Leaves rk db r = Spares rk db.cache r.1.cache

  abbrev pub LeavesIf : {A : Type 0} → RedisKey → Db F S → Option (A × Db F S) → Type 0
  LeavesIf rk db none = Unit
  LeavesIf rk db (some r) = Leaves rk db r

module _ {F S : Type 0} ⦃T : TimerSet S⦄ where
  pub store_back-Spares :
      (rk : RedisKey) (v : Value F) (emptied : Bool) (total : Stat) (db : Db F S)
      → IsDistinct db.cache.store
      → Spares rk db.cache (store_back rk v emptied total db).cache
  unfolding Spares
  store_back-Spares rk v true total db d j h =
      let c = Cache.assign rk v db.cache in
      ground (
        arith,
        h,
        find-erase j rk c (assign-IsDistinct rk v db.cache d),
        find-assign j rk v db.cache,
      )
  store_back-Spares rk v false total db d j h = ground (arith, h, find-assign j rk v db.cache)

  replace-Spares :
      (rk : RedisKey) (v : Value F) (c : Cache F S)
      → IsDistinct c.store
      → Spares rk c (Cache.replace (new_entry rk v) c).0
  unfolding Spares
  replace-Spares rk v c d j h = ground (arith, h, find-replace j (new_entry rk v) c d)

  pub set-Spares :
      (now : ℤ) (rk : RedisKey) (val : Bytes) (expired : ℤ) (flag : ℕ) (db : Db F S)
      → IsDistinct db.cache.store
      → Leaves rk db (Strings.set now rk val expired flag db)
  unfolding Spares Strings.set
  set-Spares now rk val expired flag db d j h = ground (
    arith,
    h,
    find-insert_if j now (new_entry rk (Value.bytes val)) expired (has_flag flag flag_set_nx)
        (has_flag flag flag_set_xx) db.cache d,
  )

  pub del-Spares :
      (rk : RedisKey) (db : Db F S) → IsDistinct db.cache.store → Leaves rk db (Strings.del rk db)
  unfolding Spares Strings.del
  del-Spares rk db d j h = ground (arith, h, find-erase_entry j rk db.cache d)

  give_expiry-Spares :
      (now : ℤ) (rk : RedisKey) (expired : ℤ) (c : Cache F S)
      → Spares rk c (Cache.give_expiry now rk expired c).0
  unfolding Spares
  give_expiry-Spares now rk expired c j h = ground (arith, h, find-give_expiry j rk now expired c)

  pub expire-Spares :
      (now : ℤ) (rk : RedisKey) (expired : ℤ) (db : Db F S)
      → LeavesIf rk db (Strings.expire now rk expired db)
  unfolding Strings.expire Cache.expire
  expire-Spares now rk expired db =
      elim (Bool-cases (Cache.exists rk db.cache && T.armed rk db.cache.alive)) [
        | inl linked ↦ rw (linked, Strings.expire, Cache.expire) tt
        | inr free ↦
            rw (free, Strings.expire, Cache.expire) (give_expiry-Spares now rk expired db.cache)
      ]

  pub persist-Spares : (rk : RedisKey) (db : Db F S) → Leaves rk db (Strings.persist rk db)
  unfolding Spares Strings.persist
  persist-Spares rk db j h = ground (arith, h, find-never_expired j rk db.cache)

  counter_value-Spares :
      (rk : RedisKey) (step : ℕ) (incr : Bool) (db : Db F S) (v : Value F)
      → Leaves rk db (Strings.counter_value rk step incr db v)
  unfolding Strings.counter_value
  counter_value-Spares rk step incr db (Value.int64 n) = assign-Spares rk _ db.cache
  counter_value-Spares rk step incr db _ = same-Spares rk db.cache

  pub counter_by-Spares :
      (rk : RedisKey) (step : ℕ) (incr : Bool) (db : Db F S)
      → IsDistinct db.cache.store
      → Leaves rk db (Strings.counter_by rk step incr db)
  unfolding Strings.counter_by
  counter_by-Spares rk step incr db d = elim (Option-cases (Cache.find rk db.cache)) [
    | inl absent ↦ rw (absent, Strings.counter_by) (replace-Spares rk (Value.int64 step) db.cache d)
    | inr (e, found) ↦
        rw (found, Strings.counter_by)
          (counter_value-Spares rk step incr (bump Stat.counter db) e.value)
  ]

  append_value-Spares :
      (rk : RedisKey) (val : Bytes) (db : Db F S) (v : Value F)
      → LeavesIf rk db (Strings.append_value rk val db v)
  unfolding Strings.append_value
  append_value-Spares rk val db (Value.bytes b) = tt
  append_value-Spares rk val db _ = same-Spares rk db.cache

  pub append-Spares :
      (rk : RedisKey) (val : Bytes) (db : Db F S)
      → IsDistinct db.cache.store
      → LeavesIf rk db (Strings.append rk val db)
  unfolding Strings.append
  append-Spares rk val db d = elim (Option-cases (Cache.find rk db.cache)) [
    | inl absent ↦ rw (absent, Strings.append) (replace-Spares rk (Value.bytes val) db.cache d)
    | inr (e, found) ↦
        rw (found, Strings.append) (append_value-Spares rk val (bump Stat.append db) e.value)
  ]
