-- ===== src/Database/Bitmaps.antt =====
-- db.cc: the handlers of bitmaps, SETBIT, GETBIT and BITCOUNT. `none` is an access past the end of
-- the bytes, or through the null pointer of a text that was never allocated.
use pedis.Base.{ℕ, Bool, Option, none, some}
use pedis.Base.Int.{ℤ}
use pedis.Base.Bytes.{Bytes}
use pedis.BitsOperation.{set_bit, get_bit, count}
use pedis.Keys.{RedisKey}
use pedis.Cache
use pedis.Cache.{CacheEntry, Value}
use pedis.Reply.{Message, Reply}
use pedis.Database.{Stat, Db, Handled, bump, with_cache, say, flag_reply}

-- The handlers' cases: a missing key, a text, a value of another type.
module _ {F R : Type 0} where
  abbrev pub when_bytes : R → (Bytes → R) → Value F → R
  when_bytes wrong f (Value.bytes b) = f b
  when_bytes wrong f _ = wrong

  abbrev pub on_bytes : Option (CacheEntry F) → R → R → (Bytes → R) → R
  on_bytes e missing wrong f = elim e [ none ↦ missing | some x ↦ when_bytes wrong f x.value ]

module _ {F S : Type 0} where
  -- The entry for a missing key has no text: its allocation is commented out.
  unfoldable pub setbit : RedisKey → ℕ → Bool → Db F S → Handled F S
  setbit rk offset value db0 =
      let db = bump Stat.setbit db0 in
      on_bytes (Cache.find rk db.cache) none (some (say Message.type_err, db)) (λ b.
        elim (set_bit b offset value) [
          | none ↦ none
          | some r ↦
              some (flag_reply r.1, with_cache (Cache.assign rk (Value.bytes r.0) db.cache) db)
        ])

  unfoldable pub getbit : RedisKey → ℕ → Db F S → Reply F × Db F S
  getbit rk offset db0 =
      let db = bump Stat.getbit (bump Stat.read db0) in
      on_bytes (Cache.find rk db.cache) (say Message.zero, db) (say Message.type_err, db)
        (λ b. (flag_reply (get_bit b offset), bump Stat.hit db))

  unfoldable pub bitcount : RedisKey → ℤ → ℤ → Db F S → Handled F S
  bitcount rk start end db0 =
      let db = bump Stat.bitcount (bump Stat.read db0) in
      on_bytes (Cache.find rk db.cache) (some (say Message.zero, db))
        (some (say Message.type_err, db))
        (λ b. elim (count b start end) [
          | none ↦ none
          | some n ↦ some (Reply.size n, bump Stat.hit db)
        ])
