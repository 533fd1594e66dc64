-- ===== src/Service/Store/Writes.antt =====
-- What each change of the cache makes of the value of its key, and of those of the others.
use pedis.Cache.Timers.{expires}
use pedis.Base.{◌≡◌, false, Option, none, some, arith, if◌then◌else◌, Bool-cases, inl, inr}
use pedis.Base.Int.{pos, ℤ}
use pedis.Keys.{RedisKey, same_key, same_key→eq}
use pedis.TimerSet.{TimerSet}
use pedis.Cache
use pedis.Cache.{Cache, CacheEntry, Value, new_entry, entry_key, set_value}
use pedis.Cache.Table.{IsDistinct, insert_in-IsDistinct, erase_in-IsDistinct}
use pedis.Cache.Effects.{
  assign-IsDistinct, find-insert_if, find-replace, find-erase_entry, find-assign, find-insert,
  stamped, store-arm,
}
use pedis.Service.Store.{value_at}

module _ {F S : Type 0} where
  -- Keys are distinct, and none of them has a timeout.
  abbrev pub IsQuiet : Cache F S → Type 0
  IsQuiet c = IsDistinct c.store × ((j : RedisKey) → expires (Cache.find j c) ≡ false)

  -- The second cache is quiet; it holds this value for the key, and what the first one holds for the others.
  abbrev pub Writes : RedisKey → Option (Value F) → Cache F S → Cache F S → Type 0
  Writes rk v c c' =
      ((j : RedisKey) → value_at j c' ≡ (if same_key j rk then v else value_at j c)) × IsQuiet c'

  pub same-Writes :
      (rk : RedisKey) (v : Option (Value F)) (c : Cache F S)
      → value_at rk c ≡ v
      → IsQuiet c
      → Writes rk v c c
  unfolding value_at
  same-Writes rk v c h d = (λ j. ground (arith, h, same_key→eq j rk), d)

  pub then-Writes :
      (rk : RedisKey) (v w : Option (Value F)) (c1 c2 c3 : Cache F S)
      → Writes rk v c1 c2
      → Writes rk w c2 c3
      → Writes rk w c1 c3
  then-Writes rk v w c1 c2 c3 h k = (λ j. ground (arith, h.0 j, k.0 j), k.1)

  pub insert-IsDistinct :
      (e : CacheEntry F) (c : Cache F S) → IsDistinct c.store → IsDistinct (Cache.insert e c).store
  unfolding Cache.insert
  insert-IsDistinct e c d = insert_in-IsDistinct e c.store d

  pub erase_entry-IsDistinct :
      (rk : RedisKey) (c : Cache F S)
      → IsDistinct c.store
      → IsDistinct (Cache.erase_entry rk c).store
  unfolding Cache.erase_entry
  erase_entry-IsDistinct rk c d = erase_in-IsDistinct rk c.store d

  pub assign-Writes :
      (rk : RedisKey) (v : Value F) (c : Cache F S) {e : CacheEntry F}
      → Cache.find rk c ≡ some e
      → IsQuiet c
      → Writes rk (some v) c (Cache.assign rk v c)
  unfolding value_at
  assign-Writes rk v c found d = (
    λ j. ground (arith, found, find-assign j rk v c, same_key→eq j rk),
    (assign-IsDistinct rk v c d.0, λ j. ground (arith, d.1 j, find-assign j rk v c)),
  )

  pub insert-Writes :
      (rk : RedisKey) (v : Value F) (c : Cache F S)
      → Cache.find rk c ≡ none
      → IsQuiet c
      → Writes rk (some v) c (Cache.insert (new_entry rk v) c)
  unfolding value_at
  insert-Writes rk v c absent d = (
    λ j. ground (arith, absent, find-insert j (new_entry rk v) c, same_key→eq j rk),
    (
      insert-IsDistinct (new_entry rk v) c d.0,
      λ j. ground (arith, d.1 j, find-insert j (new_entry rk v) c),
    ),
  )

  pub erase_entry-Writes :
      (rk : RedisKey) (c : Cache F S) → IsQuiet c → Writes rk none c (Cache.erase_entry rk c)
  unfolding value_at
  erase_entry-Writes rk c d = (
    λ j. ground (arith, find-erase_entry j rk c d.0),
    (erase_entry-IsDistinct rk c d.0, λ j. ground (arith, d.1 j, find-erase_entry j rk c d.0)),
  )

module _ {F S : Type 0} ⦃T : TimerSet S⦄ where
  pub erase-IsDistinct :
      (rk : RedisKey) (c : Cache F S) → IsDistinct c.store → IsDistinct (Cache.erase rk c).0.store
  unfolding Cache.erase
  erase-IsDistinct rk c d = ground (arith, erase_in-IsDistinct rk c.store d, d)

  pub replace-Writes :
      (rk : RedisKey) (v : Value F) (c : Cache F S)
      → IsQuiet c
      → Writes rk (some v) c (Cache.replace (new_entry rk v) c).0
  unfolding value_at Cache.replace
  replace-Writes rk v c d =
      let c1 = (Cache.erase rk c).0 in
      (
        λ j. ground (arith, find-replace j (new_entry rk v) c d.0),
        (
          insert-IsDistinct (new_entry rk v) c1 (erase-IsDistinct rk c d.0),
          λ j. ground (arith, d.1 j, find-replace j (new_entry rk v) c d.0),
        ),
      )

  pub arm-IsDistinct :
      (now expired : ℤ) (e : CacheEntry F) (c : Cache F S)
      → IsDistinct c.store
      → IsDistinct (Cache.insert (Cache.arm now expired e c).0 (Cache.arm now expired e c).1).store
  unfolding Cache.insert
  arm-IsDistinct now expired e c d =
      let (fst, snd) = store-arm now expired e c in
      rw (fst, snd) (insert_in-IsDistinct (stamped now expired e) c.store d)

  pub insert_if-IsDistinct :
      (now expired : ℤ) (e : CacheEntry F) (c : Cache F S)
      → IsDistinct c.store
      → IsDistinct (Cache.insert_if now e expired false false c).0.store
  unfolding Cache.insert_if
  insert_if-IsDistinct now expired e c d = elim (Bool-cases (Cache.exists (entry_key e) c)) [
    | inl there ↦
        rw (there, Cache.insert_if)
          (arm-IsDistinct now expired e (Cache.erase (entry_key e) c).0
            (erase-IsDistinct (entry_key e) c d))
    | inr absent ↦ rw (absent, Cache.insert_if) (arm-IsDistinct now expired e c d)
  ]

  -- SET without conditions and without a timeout
  pub insert_if-Writes :
      (now : ℤ) (rk : RedisKey) (v : Value F) (c : Cache F S)
      → IsQuiet c
      → Writes rk (some v) c (Cache.insert_if now (new_entry rk v) (pos 0) false false c).0
  unfolding value_at
  insert_if-Writes now rk v c d =
      let e : CacheEntry F = new_entry rk v in
      (
        λ j. ground (arith, find-insert_if j now e (pos 0) false false c d.0),
        (
          insert_if-IsDistinct now (pos 0) e c d.0,
          λ j. ground (arith, d.1 j, find-insert_if j now e (pos 0) false false c d.0),
        ),
      )
