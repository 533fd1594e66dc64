-- ===== src/Tests/Bitmaps.antt =====
-- The theorems on bitmaps at concrete inputs.
use pedis.Base.{ℕ, ◌≡◌, refl, true, some, List, [], ◌∷◌, arith}
use pedis.Base.Int.{pos, negsuc}
use pedis.Base.Bytes.{Bytes}
use pedis.Keys.{RedisKey}
use pedis.Cache.{Value}
use pedis.Database.{Db, flag_reply}
use pedis.Database.Bitmaps
use pedis.Database.Laws.Bitmaps.{getbit-setbit}
use pedis.BitsOperation.{get_bit, count, from_end}
use pedis.BitsOperation.Bits.{AreBytes}
use pedis.BitsOperation.Counts.{count-all_ones, all_ones}
use pedis.Tests.Data.{key1, db_with, found_with}

abbrev three_bytes : Bytes
three_bytes = 7 ∷ 4 ∷ 255 ∷ []

three_bytes-AreBytes : AreBytes three_bytes
three_bytes-AreBytes = ground arith

count-all_ones_example : count three_bytes (pos 0) (negsuc 1) ≡ some (all_ones (7 ∷ 4 ∷ []))
unfolding from_end
count-all_ones_example =
    count-all_ones three_bytes (pos 0) (negsuc 1) three_bytes-AreBytes (omega arith) (omega arith)

getbit-setbit_example :
    let db : Db ℕ (List RedisKey) = db_with (Value.bytes three_bytes) in
    (db' : Db ℕ (List RedisKey)) × (Bitmaps.setbit key1 9 true db
      ≡ some (flag_reply (get_bit three_bytes 9), db'))
    × ((Bitmaps.getbit key1 9 db).0 ≡ flag_reply (get_bit three_bytes 9))
    × ((Bitmaps.getbit key1 9 db').0 ≡ flag_reply true)
getbit-setbit_example =
    getbit-setbit key1 9 9 true three_bytes (db_with (Value.bytes three_bytes))
      (found_with (Value.bytes three_bytes)) refl three_bytes-AreBytes (omega arith) (omega arith)
