-- ===== src/BitsOperation.antt =====
-- structures/bits_operation.cc: single bits of a byte string, the highest bit of a byte first. `none`
-- is an access past the end of the bytes.
pub mod Tables
pub mod Bits
pub mod Counts
use Prim.Native.Nat.{bit_and, bit_or}
use pedis.Base.{
  ℕ, zero, suc, ◌+◌, ◌-◌, ◌*◌, ◌/◌, ◌%◌, ◌^◌, Bool, true, false, Option, none, some, List, [], ◌∷◌,
  ◌==◌, ◌&&◌, ◌||◌, not, ltb, leb, if◌then◌else◌, length, get_elem?, set, drop,
}
use pedis.Base.Int.{ℤ, pos, negsuc, ltb_ℤ, ◌+ℤ◌, is_negative, sub_ℕ}
use pedis.Base.Bytes.{Bytes}

-- BITMAP_MAX_OFFSET: the `int` 1 << 31 is negative, and wraps around as a `size_t`.
abbrev pub bitmap_max_offset : ℕ
bitmap_max_offset = 2 ^ 64 - 2 ^ 31

-- `7 - (offset & 0x7)`
abbrev pub bit_of : ℕ → ℕ
bit_of offset = 7 - offset % 8

-- `(byte_val & (1 << bit)) > 0`
abbrev pub test_byte : ℕ → ℕ → Bool
test_byte byte bit = ltb 0 (bit_and byte (2 ^ bit))

-- `byte_val &= ~(1 << bit)` and `byte_val |= (value ? 0x1 : 0x0) << bit`
abbrev pub write_byte : ℕ → ℕ → Bool → ℕ
write_byte byte bit value = bit_or (bit_and byte (255 - 2 ^ bit)) (if value then 2 ^ bit else 0)

-- `bits_operation::set`: the growth of short bytes is commented out.
unfoldable pub set_bit : Bytes → ℕ → Bool → Option (Bytes × Bool)
set_bit o offset value = elim (get_elem? o (offset / 8)) [
  | none ↦ none
  | some byte ↦
      some
        (set o (offset / 8) (write_byte byte (bit_of offset) value), test_byte byte (bit_of offset))
]

-- `bits_operation::get`
unfoldable pub get_bit : Bytes → ℕ → Bool
get_bit o offset =
    if ltb bitmap_max_offset (offset / 8) || leb (length o) (offset / 8)
    then false
    else (elim (get_elem? o (offset / 8)) [
      | none ↦ false
      | some byte ↦ test_byte byte (bit_of offset)
    ])

-- `bits_in_byte`
abbrev pub bits_in_byte : List ℕ
bits_in_byte =
    0 ∷ 1 ∷ 1 ∷ 2 ∷ 1 ∷ 2 ∷ 2 ∷ 3 ∷ 1 ∷ 2 ∷ 2 ∷ 3 ∷ 2 ∷ 3 ∷ 3 ∷ 4 ∷ 1 ∷ 2 ∷ 2 ∷ 3 ∷ 2 ∷ 3 ∷ 3 ∷ 4
    ∷ 2 ∷ 3 ∷ 3 ∷ 4 ∷ 3 ∷ 4 ∷ 4 ∷ 5 ∷ 1 ∷ 2 ∷ 2 ∷ 3 ∷ 2 ∷ 3 ∷ 3 ∷ 4 ∷ 2 ∷ 3 ∷ 3 ∷ 4 ∷ 3 ∷ 4 ∷ 4 ∷ 5
    ∷ 2 ∷ 3 ∷ 3 ∷ 4 ∷ 3 ∷ 4 ∷ 4 ∷ 5 ∷ 3 ∷ 4 ∷ 4 ∷ 5 ∷ 4 ∷ 5 ∷ 5 ∷ 6 ∷ 1 ∷ 2 ∷ 2 ∷ 3 ∷ 2 ∷ 3 ∷ 3 ∷ 4
    ∷ 2 ∷ 3 ∷ 3 ∷ 4 ∷ 3 ∷ 4 ∷ 4 ∷ 5 ∷ 2 ∷ 3 ∷ 3 ∷ 4 ∷ 3 ∷ 4 ∷ 4 ∷ 5 ∷ 3 ∷ 4 ∷ 4 ∷ 5 ∷ 4 ∷ 5 ∷ 5 ∷ 6
    ∷ 2 ∷ 3 ∷ 3 ∷ 4 ∷ 3 ∷ 4 ∷ 4 ∷ 5 ∷ 3 ∷ 4 ∷ 4 ∷ 5 ∷ 4 ∷ 5 ∷ 5 ∷ 6 ∷ 3 ∷ 4 ∷ 4 ∷ 5 ∷ 4 ∷ 5 ∷ 5 ∷ 6
    ∷ 4 ∷ 5 ∷ 5 ∷ 6 ∷ 5 ∷ 6 ∷ 6 ∷ 7 ∷ 1 ∷ 2 ∷ 2 ∷ 3 ∷ 2 ∷ 3 ∷ 3 ∷ 4 ∷ 2 ∷ 3 ∷ 3 ∷ 4 ∷ 3 ∷ 4 ∷ 4 ∷ 5
    ∷ 2 ∷ 3 ∷ 3 ∷ 4 ∷ 3 ∷ 4 ∷ 4 ∷ 5 ∷ 3 ∷ 4 ∷ 4 ∷ 5 ∷ 4 ∷ 5 ∷ 5 ∷ 6 ∷ 2 ∷ 3 ∷ 3 ∷ 4 ∷ 3 ∷ 4 ∷ 4 ∷ 5
    ∷ 3 ∷ 4 ∷ 4 ∷ 5 ∷ 4 ∷ 5 ∷ 5 ∷ 6 ∷ 3 ∷ 4 ∷ 4 ∷ 5 ∷ 4 ∷ 5 ∷ 5 ∷ 6 ∷ 4 ∷ 5 ∷ 5 ∷ 6 ∷ 5 ∷ 6 ∷ 6 ∷ 7
    ∷ 2 ∷ 3 ∷ 3 ∷ 4 ∷ 3 ∷ 4 ∷ 4 ∷ 5 ∷ 3 ∷ 4 ∷ 4 ∷ 5 ∷ 4 ∷ 5 ∷ 5 ∷ 6 ∷ 3 ∷ 4 ∷ 4 ∷ 5 ∷ 4 ∷ 5 ∷ 5 ∷ 6
    ∷ 4 ∷ 5 ∷ 5 ∷ 6 ∷ 5 ∷ 6 ∷ 6 ∷ 7 ∷ 3 ∷ 4 ∷ 4 ∷ 5 ∷ 4 ∷ 5 ∷ 5 ∷ 6 ∷ 4 ∷ 5 ∷ 5 ∷ 6 ∷ 5 ∷ 6 ∷ 6 ∷ 7
    ∷ 4 ∷ 5 ∷ 5 ∷ 6 ∷ 5 ∷ 6 ∷ 6 ∷ 7 ∷ 5 ∷ 6 ∷ 6 ∷ 7 ∷ 6 ∷ 7 ∷ 7 ∷ 8 ∷ []

-- `bits_in_byte[v]`
abbrev pub bits_of : ℕ → ℕ
bits_of v = elim (get_elem? bits_in_byte v) [ none ↦ 0 | some n ↦ n ]

-- `while (count--)`
unfoldable pub count_rest : ℕ → Bytes → Option ℕ
count_rest zero o = some 0
count_rest (suc count) [] = none
count_rest (suc count) (v ∷ o) = elim (count_rest count o) [
  | none ↦ none
  | some n ↦ some (bits_of v + n)
]

-- `while (o[p] & 3 && count)` and the loop after it: the byte is read before the count is looked at.
unfoldable pub count_from : ℕ → Bytes → Option ℕ
unfolding count_rest
count_from count [] = none
count_from zero (v ∷ o) = some 0
count_from (suc count) (v ∷ o) =
    let rest = count_from count o in
    if bit_and v 3 == 0
    then count_rest (suc count) (v ∷ o)
    else (elim rest [ none ↦ none | some n ↦ some (bits_of v + n) ])

-- A negative index counts from the end, and stops at 0.
unfoldable pub from_end : ℕ → ℤ → ℕ
unfolding ◌+ℤ◌
from_end size (pos n) = n
from_end size (negsuc n) = elim (negsuc n +ℤ pos size) [ pos k ↦ k | negsuc k ↦ 0 ]

-- `static_cast<size_t>(end - start) + 1`, where the last byte is the one before `size` at most.
unfoldable pub range_count : ℕ → ℕ → ℕ → ℕ
range_count size start end =
    let stop = if leb size end then size else end + 1 in (2 ^ 64 + stop - start) % 2 ^ 64

-- `bits_operation::count`
unfoldable pub count : Bytes → ℤ → ℤ → Option ℕ
unfolding count_from from_end range_count
count o start end =
    let s = from_end (length o) start in
    count_from (range_count (length o) s (from_end (length o) end)) (drop s o)
