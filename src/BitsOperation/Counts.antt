-- ===== src/BitsOperation/Counts.antt =====
-- The number of ones in a range of bytes.
use Prim.Native.Nat.{bit_and}
use pedis.Base.{
  ◌&&◌, not, ℕ, zero, suc, ◌+◌, ◌-◌, ◌^◌, ◌<◌, ◌≤◌, ◌≡◌, refl, ap, ◌∙◌, Bool, true, none, some, [],
  ◌∷◌, ◌==◌, leb, if◌then◌else◌, arith, length, take, drop,
}
use pedis.Base.Int.{ℤ}
use pedis.Base.Bytes.{Bytes}
use pedis.BitsOperation.{count, count_from, count_rest, range_count, from_end}
use pedis.BitsOperation.Bits.{AreBytes}
use pedis.BitsOperation.Tables.{ones, bits_of-ones}

-- The ones of all bytes.
unfoldable pub all_ones : Bytes → ℕ
unfolding ones
all_ones [] = 0
all_ones (c ∷ s) = ones c 8 + all_ones s

count_rest-all_ones :
    (n : ℕ) (o : Bytes) → AreBytes o → n ≤ length o → count_rest n o ≡ some (all_ones (take n o))
unfolding count_rest all_ones
count_rest-all_ones zero o b h = refl
count_rest-all_ones (suc n) [] b h = absurd (omega (arith, h))
count_rest-all_ones (suc n) (c ∷ o) b h =
    ground (arith, count_rest-all_ones n o b.1 (omega (arith, h)), bits_of-ones c b.0)

-- No byte has both of its lowest bits 0.
unfoldable pub all_low : Bytes → Bool
all_low [] = true
all_low (c ∷ s) = not (bit_and c 3 == 0) && all_low s

-- The loops read one byte more than they count where no byte stops the first of them.
count_from-all_ones :
    (n : ℕ) (o : Bytes)
    → AreBytes o
    → n ≤ length o
    → count_from n o ≡ (if n == length o && all_low o then none else some (all_ones (take n o)))
unfolding count_from all_ones all_low
count_from-all_ones zero [] b h = refl
count_from-all_ones (suc n) [] b h = absurd (omega (arith, h))
count_from-all_ones zero (c ∷ o) b h = ground arith
count_from-all_ones (suc n) (c ∷ o) b h = ground (
  arith,
  count_from-all_ones n o b.1 (omega (arith, h)),
  count_rest-all_ones (suc n) (c ∷ o) b h,
  bits_of-ones c b.0,
)

length-drop : (n : ℕ) (s : Bytes) → n ≤ length s → n + length (drop n s) ≡ length s
length-drop zero s h = omega arith
length-drop (suc n) [] h = absurd (omega (arith, h))
length-drop (suc n) (c ∷ s) h = omega (arith, length-drop n s (omega (arith, h)))

drop-AreBytes : (n : ℕ) (s : Bytes) → AreBytes s → AreBytes (drop n s)
drop-AreBytes zero s b = b
drop-AreBytes (suc n) [] b = tt
drop-AreBytes (suc n) (c ∷ s) b = drop-AreBytes n s b.1

-- One behind the last byte of a range.
abbrev pub stop_of : ℕ → ℕ → ℕ
stop_of size end = if leb size end then size else suc end

range_count-stop_of :
    (size start end : ℕ)
    → size < 2 ^ 63
    → start ≤ stop_of size end
    → range_count size start end ≡ stop_of size end - start
unfolding range_count
range_count-stop_of size start end h k = ground (arith, h, k)

same_test :
    (stop s n size : ℕ) → s ≤ stop → stop ≤ size → s + n ≡ size → (stop - s == n) ≡ (stop == size)
same_test stop s n size h k e = ground (arith, h, k, e)

-- For a string of bytes shorter than 2^63 and a range that does not end before it starts: `count`
-- returns the number of bits that are set in the bytes of the range, but reads past the end of the
-- string where the range goes up to its end and every byte of it has one of its two lowest bits
-- set.
pub count-all_ones :
    (o : Bytes) (start end : ℤ)
    → AreBytes o
    → length o < 2 ^ 63
    → from_end (length o) start ≤ stop_of (length o) (from_end (length o) end)
    → let s = from_end (length o) start in
      let stop = stop_of (length o) (from_end (length o) end) in
      count o start end ≡ (
        if stop == length o && all_low (drop s o)
        then none
        else some (all_ones (take (stop - s) (drop s o))))
unfolding count
count-all_ones o start end b short h =
    let s = from_end (length o) start in
    let e = from_end (length o) end in
    let stop = stop_of (length o) e in
    let inside : stop ≤ length o = ground arith in
    let len = length-drop s o (omega (arith, h, inside)) in
    ap (λ n. count_from n (drop s o)) (range_count-stop_of (length o) s e short h)
    ∙ count_from-all_ones (stop - s) (drop s o) (drop-AreBytes s o b)
        (omega (arith, len, h, inside))
    ∙ ap
        (λ (t : Bool).
          if t && all_low (drop s o) then none else some (all_ones (take (stop - s) (drop s o))))
        (same_test stop s (length (drop s o)) (length o) h inside len)
