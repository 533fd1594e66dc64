-- ===== src/BitsOperation/Bits.antt =====
-- A bit that is written is read back, and no other bit changes.
use pedis.Base.{
  ℕ, zero, suc, ◌/◌, ◌<◌, ◌≤◌, ◌≡◌, refl, sym, ap, ◌∙◌, Bool, false, Option, none, some, [], ◌∷◌,
  ◌==◌, leb, if◌then◌else◌, arith, length, get_elem?, set, length-set, inl, inr, Bool-cases,
}
use pedis.Base.Bytes.{Bytes}
use pedis.BitsOperation.{set_bit, get_bit, bit_of, test_byte, write_byte, bitmap_max_offset}
use pedis.BitsOperation.Tables.{test_byte-write_byte, write_byte-lt}

-- Characters are numbers below 256.
abbrev pub AreBytes : Bytes → Type 0
AreBytes [] = Unit
AreBytes (c ∷ s) = (c < 256) × AreBytes s

get_elem?-set :
    (l : Bytes) (i j v : ℕ)
    → i < length l
    → get_elem? (set l i v) j ≡ (if j == i then some v else get_elem? l j)
get_elem?-set [] i j v h = absurd (omega (arith, h))
get_elem?-set (x ∷ l) zero zero v h = refl
get_elem?-set (x ∷ l) zero (suc j) v h = ground arith
get_elem?-set (x ∷ l) (suc i) zero v h = ground arith
get_elem?-set (x ∷ l) (suc i) (suc j) v h = get_elem?-set l i j v (omega (arith, h)) ∙ ground arith

get_elem?-in : (l : Bytes) (i : ℕ) → i < length l → (x : ℕ) × (get_elem? l i ≡ some x)
get_elem?-in [] i h = absurd (omega (arith, h))
get_elem?-in (x ∷ l) zero h = (x, refl)
get_elem?-in (x ∷ l) (suc i) h = get_elem?-in l i (omega (arith, h))

get_elem?-lt : (l : Bytes) (i x : ℕ) → AreBytes l → get_elem? l i ≡ some x → x < 256
get_elem?-lt [] i x b h = ground (arith, h)
get_elem?-lt (y ∷ l) zero x b h = ground (arith, h, b.0)
get_elem?-lt (y ∷ l) (suc i) x b h = get_elem?-lt l i x b.1 h

get_elem?-past : (l : Bytes) (i : ℕ) → length l ≤ i → get_elem? l i ≡ none
get_elem?-past [] i h = refl
get_elem?-past (x ∷ l) zero h = absurd (omega (arith, h))
get_elem?-past (x ∷ l) (suc i) h = get_elem?-past l i (omega (arith, h))

set-AreBytes : (l : Bytes) (i v : ℕ) → v < 256 → AreBytes l → AreBytes (set l i v)
set-AreBytes [] i v h b = tt
set-AreBytes (x ∷ l) zero v h b = (h, b.1)
set-AreBytes (x ∷ l) (suc i) v h b = (b.0, set-AreBytes l i v h b.1)

bit_of-lt : (offset : ℕ) → bit_of offset < 8
bit_of-lt offset = omega arith

-- The bit that an offset names, where it is below the largest offset.
bit_at : Option ℕ → ℕ → Bool
bit_at none offset = false
bit_at (some byte) offset = test_byte byte (bit_of offset)

get_bit-bit_at :
    (o : Bytes) (offset : ℕ)
    → length o ≤ bitmap_max_offset
    → get_bit o offset ≡ bit_at (get_elem? o (offset / 8)) offset
unfolding get_bit bit_at
get_bit-bit_at o offset h = elim (Bool-cases (leb (length o) (offset / 8))) [
  | inl past ↦ ground (arith, past, get_elem?-past o (offset / 8))
  | inr inside ↦ ground (arith, inside, h)
]

found_bit :
    (o : Bytes) (i byte : ℕ)
    → get_elem? o (i / 8) ≡ some byte
    → bit_at (get_elem? o (i / 8)) i ≡ test_byte byte (bit_of i)
unfolding bit_at
found_bit o i byte found = ap (λ e. bit_at e i) found

module _ (value : Bool) where
  -- Two offsets are the same where their bytes and their places in the byte are.
  bit_at-written :
      (byte i j : ℕ) (old : Option ℕ)
      → byte < 256
      → (j / 8 ≡ i / 8 → old ≡ some byte)
      → bit_at (if j / 8 == i / 8 then some (write_byte byte (bit_of i) value) else old) j
        ≡ (if j == i then value else bit_at old j)
  unfolding bit_at
  bit_at-written byte i j old hb same = elim (Bool-cases (j / 8 == i / 8)) [
    | inl here ↦ rw here (
        test_byte-write_byte value byte (bit_of i) (bit_of j) hb (bit_of-lt i) (bit_of-lt j)
        ∙ ground (arith, here, same))
    | inr there ↦ ground (arith, there)
  ]

  set_bit-found :
      (o : Bytes) (i byte : ℕ)
      → get_elem? o (i / 8) ≡ some byte
      → set_bit o i value
        ≡ some (set o (i / 8) (write_byte byte (bit_of i) value), test_byte byte (bit_of i))
  unfolding set_bit
  set_bit-found o i byte found = ground (arith, found)

  pub get_bit-set_bit :
      (o : Bytes) (i j : ℕ)
      → AreBytes o
      → length o ≤ bitmap_max_offset
      → i / 8 < length o
      → (o' : Bytes) × (set_bit o i value ≡ some (o', get_bit o i))
        × (get_bit o' j ≡ (if j == i then value else get_bit o j))
        × (length o' ≡ length o)
        × AreBytes o'
  get_bit-set_bit o i j b short h =
      let (byte, found) = get_elem?-in o (i / 8) h in
      let hb = get_elem?-lt o (i / 8) byte b found in
      let o' = set o (i / 8) (write_byte byte (bit_of i) value) in
      let len = length-set o (i / 8) (write_byte byte (bit_of i) value) in
      (
        o',
        set_bit-found o i byte found
            ∙ ap (λ (r : Bool). some (o', r))
                (sym (get_bit-bit_at o i short ∙ found_bit o i byte found)),
        get_bit-bit_at o' j (omega (arith, len, short))
            ∙ ap (λ e. bit_at e j) (get_elem?-set o (i / 8) (j / 8) _ h)
            ∙ bit_at-written byte i j (get_elem? o (j / 8)) hb (λ q. ap (get_elem? o) q ∙ found)
            ∙ ap (λ r. if j == i then value else r) (sym (get_bit-bit_at o j short)),
        len,
        set-AreBytes o (i / 8) _ (write_byte-lt value byte (bit_of i) hb (bit_of-lt i)) b,
      )
