-- ===== src/Database/Sound/Strings.antt =====
-- The handlers of keys and strings keep the cache sound.
use pedis.Base.{
  Bool-cases, ◌&&◌, ℕ, ◌+◌, ◌%◌, ◌<◌, ◌≡◌, ◌≢◌, refl, Bool, false, none, arith, if◌then◌else◌,
  Option-cases, inl, inr,
}
use native.Mathlib.Nat.{mod-lt}
use pedis.Base.Int.{ℤ, pos}
use pedis.Base.Bytes.{Bytes}
use pedis.Double.{Double}
use pedis.DictLsa.{word}
use pedis.Keys.{RedisKey}
use pedis.TimerSet.{TimerSet}
use pedis.Cache
use pedis.Cache.{Cache, CacheEntry, Value, new_entry, set_expiry, expiration, entry_key}
use pedis.Cache.Timers
use pedis.Cache.Effects.{
  find-insert_if, find-give_expiry, find-never_expired, find-replace, find-erase_entry,
  value-stamped,
}
use pedis.Database.{Db, Stat, bump}
use pedis.Database.Strings
use pedis.Database.Strings.{add_word, neg_word, has_flag, flag_set_nx, flag_set_xx}
use pedis.Database.Sound.{LeavesIf, WellFormed, IsSound, weaken, assign-IsSound, Leaves}

module _ {F S : Type 0} ⦃D : Double F⦄ ⦃T : TimerSet S⦄ where
  insert_if-IsSound :
      (now : ℤ) (e : CacheEntry F) (expired : ℤ) (nx xx : Bool) (c : Cache F S)
      → e.timeout ≡ none
      → WellFormed e.value
      → IsSound c
      → IsSound (Cache.insert_if now e expired nx xx c).0
  insert_if-IsSound now e expired nx xx c fresh w s = record {
    valid = Timers.insert_if-IsValid now e expired nx xx c fresh s.valid;
    values = λ k x h. ground (
      arith,
      h,
      w,
      value-stamped now expired e,
      s.values k x,
      find-insert_if k now e expired nx xx c s.valid.distinct,
    );
  }

  replace-IsSound :
      (e : CacheEntry F) (c : Cache F S)
      → e.timeout ≡ none
      → WellFormed e.value
      → IsSound c
      → IsSound (Cache.replace e c).0
  replace-IsSound e c fresh w s = record {
    valid = Timers.replace-IsValid e c fresh s.valid;
    values = λ k x h. ground (arith, h, w, s.values k x, find-replace k e c s.valid.distinct);
  }

  -- SET, with any flags and any expiry.
  pub set-IsSound :
      (now : ℤ) (rk : RedisKey) (val : Bytes) (expired : ℤ) (flag : ℕ) (db : Db F S)
      → IsSound db.cache
      → Leaves (Strings.set now rk val expired flag db)
  unfolding Strings.set
  set-IsSound now rk val expired flag db s = ground (
    arith,
    insert_if-IsSound now (new_entry rk (Value.bytes val)) expired (has_flag flag flag_set_nx)
        (has_flag flag flag_set_xx) db.cache refl tt s,
  )

  give_expiry-IsSound :
      (now : ℤ) (rk : RedisKey) (expired : ℤ) (c : Cache F S)
      → expired ≢ pos 0
      → (Cache.exists rk c && T.armed rk c.alive) ≡ false
      → IsSound c
      → IsSound (Cache.give_expiry now rk expired c).0
  give_expiry-IsSound now rk expired c h free s = record {
    valid = Timers.give_expiry-IsValid rk now expired c h free s.valid;
    values = λ k x f. elim (Option-cases (Cache.find k c)) [
      | inl absent ↦ ground (arith, f, absent, find-give_expiry k rk now expired c)
      | inr (e, found) ↦
          ground (arith, f, found, s.values k e found, find-give_expiry k rk now expired c)
    ];
  }

  -- EXPIRE by a duration other than 0.
  pub expire-IsSound :
      (now : ℤ) (rk : RedisKey) (expired : ℤ) (db : Db F S)
      → expired ≢ pos 0
      → IsSound db.cache
      → LeavesIf (Strings.expire now rk expired db)
  unfolding Strings.expire Cache.expire
  expire-IsSound now rk expired db h s =
      elim (Bool-cases (Cache.exists rk db.cache && T.armed rk db.cache.alive)) [
        | inl linked ↦ rw (linked, Strings.expire, Cache.expire) tt
        | inr free ↦
            rw (free, Strings.expire, Cache.expire)
              (give_expiry-IsSound now rk expired db.cache h free s)
      ]

  -- PERSIST
  pub persist-IsSound :
      (rk : RedisKey) (db : Db F S) → IsSound db.cache → Leaves (Strings.persist rk db)
  unfolding Strings.persist
  persist-IsSound rk db s = record {
    valid = Timers.never_expired-IsValid rk db.cache s.valid;
    values = λ k x f. elim (Option-cases (Cache.find k db.cache)) [
      | inl absent ↦ ground (arith, f, absent, find-never_expired k rk db.cache)
      | inr (e, found) ↦
          ground (arith, f, found, s.values k e found, find-never_expired k rk db.cache)
    ];
  }

  counter_value-IsSound :
      (rk : RedisKey) (step : ℕ) (incr : Bool) (db : Db F S) (v : Value F)
      → IsSound db.cache
      → Leaves (Strings.counter_value rk step incr db v)
  unfolding Strings.counter_value
  counter_value-IsSound rk step incr db (Value.int64 n) s =
      let m = n + (if incr then step else neg_word step) in
      assign-IsSound rk (Value.int64 (m % word)) db.cache (mod-lt m (omega arith))
        (weaken rk db.cache s)
  counter_value-IsSound rk step incr db (Value.numeric x) s = s
  counter_value-IsSound rk step incr db _ s = s

  -- INCR, DECR, INCRBY and DECRBY by a 64-bit step.
  pub counter_by-IsSound :
      (rk : RedisKey) (step : ℕ) (incr : Bool) (db : Db F S)
      → step < word
      → IsSound db.cache
      → Leaves (Strings.counter_by rk step incr db)
  unfolding Strings.counter_by
  counter_by-IsSound rk step incr db h s = elim (Option-cases (Cache.find rk db.cache)) [
    | inl absent ↦
        rw (absent, Strings.counter_by)
          (replace-IsSound (new_entry rk (Value.int64 step)) db.cache refl h s)
    | inr (e, found) ↦
        rw (found, Strings.counter_by)
          (counter_value-IsSound rk step incr (bump Stat.counter db) e.value s)
  ]

  append_value-IsSound :
      (rk : RedisKey) (val : Bytes) (db : Db F S) (v : Value F)
      → IsSound db.cache
      → LeavesIf (Strings.append_value rk val db v)
  unfolding Strings.append_value
  append_value-IsSound rk val db (Value.bytes b) s = tt
  append_value-IsSound rk val db (Value.numeric x) s = s
  append_value-IsSound rk val db _ s = s

  pub append-IsSound :
      (rk : RedisKey) (val : Bytes) (db : Db F S)
      → IsSound db.cache
      → LeavesIf (Strings.append rk val db)
  unfolding Strings.append
  append-IsSound rk val db s = elim (Option-cases (Cache.find rk db.cache)) [
    | inl absent ↦
        rw (absent, Strings.append)
          (replace-IsSound (new_entry rk (Value.bytes val)) db.cache refl tt s)
    | inr (e, found) ↦
        rw (found, Strings.append) (append_value-IsSound rk val (bump Stat.append db) e.value s)
  ]

  erase_entry-IsSound :
      (rk : RedisKey) (c : Cache F S)
      → Timers.expires (Cache.find rk c) ≡ false
      → IsSound c
      → IsSound (Cache.erase_entry rk c)
  erase_entry-IsSound rk c h s = record {
    valid = Timers.erase_entry-IsValid rk c h s.valid;
    values = λ k e f. ground (arith, f, s.values k e, find-erase_entry k rk c s.valid.distinct);
  }

  -- DEL of a key that has no timeout.
  pub del-IsSound :
      (rk : RedisKey) (db : Db F S)
      → Timers.expires (Cache.find rk db.cache) ≡ false
      → IsSound db.cache
      → Leaves (Strings.del rk db)
  unfolding Strings.del
  del-IsSound rk db h s = elim (Option-cases (Cache.find rk db.cache)) [
    | inl absent ↦ rw (absent, Strings.del) s
    | inr (e, found) ↦ rw (found, Strings.del) (erase_entry-IsSound rk db.cache h s)
  ]
