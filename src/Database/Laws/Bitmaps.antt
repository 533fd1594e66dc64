-- ===== src/Database/Laws/Bitmaps.antt =====
-- What a client sees of GETBIT after SETBIT.
use pedis.Base.{
  ℕ, ◌/◌, ◌<◌, ◌≤◌, ◌≡◌, refl, ap, ◌∙◌, Bool, some, ◌==◌, arith, if◌then◌else◌, length,
}
use pedis.Base.Bytes.{Bytes}
use pedis.BitsOperation.{get_bit, bitmap_max_offset}
use pedis.BitsOperation.Bits.{AreBytes, get_bit-set_bit}
use pedis.Keys.{RedisKey, same_key_refl}
use pedis.Cache
use pedis.Cache.{CacheEntry, Value}
use pedis.Cache.Effects.{find-assign}
use pedis.Database.{Db, Stat, bump, with_cache, flag_reply}
use pedis.Database.Bitmaps

module _ {F S : Type 0} where
  reply_of :
      (rk : RedisKey) (j : ℕ) (b : Bytes) (db : Db F S) {e : CacheEntry F}
      → Cache.find rk db.cache ≡ some e
      → e.value ≡ Value.bytes b
      → (Bitmaps.getbit rk j db).0 ≡ flag_reply (get_bit b j)
  unfolding Bitmaps.getbit
  reply_of rk j b db {e} found text = ground (arith, found, text)

  assigned :
      (rk : RedisKey) (b : Bytes) (db : Db F S) {e : CacheEntry F}
      → Cache.find rk db.cache ≡ some e
      → Cache.find rk (Cache.assign rk (Value.bytes b) db.cache)
        ≡ some (record e { value = Value.bytes b })
  assigned rk b db {e} found =
      ground (arith, found, find-assign rk rk (Value.bytes b) db.cache, same_key_refl rk)

  -- For a key that holds a text of bytes, not longer than BITMAP_MAX_OFFSET, and an offset whose
  -- byte is inside it: SETBIT replies the bit that GETBIT replied before, and GETBIT of any offset
  -- afterwards replies the new bit at that offset and the old one everywhere else.
  pub getbit-setbit :
      (rk : RedisKey) (i j : ℕ) (value : Bool) (b : Bytes) (db : Db F S) {e : CacheEntry F}
      → Cache.find rk db.cache ≡ some e
      → e.value ≡ Value.bytes b
      → AreBytes b
      → length b ≤ bitmap_max_offset
      → i / 8 < length b
      → (db' : Db F S) × (Bitmaps.setbit rk i value db ≡ some (flag_reply (get_bit b i), db'))
        × ((Bitmaps.getbit rk i db).0 ≡ flag_reply (get_bit b i))
        × ((Bitmaps.getbit rk j db').0 ≡ flag_reply (if j == i then value else get_bit b j))
  unfolding Bitmaps.setbit
  getbit-setbit rk i j value b db {e} found text bytes short inside =
      let (b', written, read, _, _) = get_bit-set_bit value b i j bytes short inside in
      let db1 = bump Stat.setbit db in
      let db' = with_cache (Cache.assign rk (Value.bytes b') db1.cache) db1 in
      (
        db',
        ground (arith, found, text, written),
        reply_of rk i b db found text,
        reply_of rk j b' db' (assigned rk b' db found) refl ∙ ap flag_reply read,
      )
