-- ===== src/BitsOperation/Tables.antt =====
-- The bits of one byte, checked for every byte.
use pedis.Base.{
  ℕ, zero, suc, ◌<◌, ◌≡◌, refl, Bool, true, false, ◌==◌, ◌&&◌, not, ltb, if◌then◌else◌, arith,
  ==_iff,
}
use pedis.BitsOperation.{test_byte, write_byte, bits_of}

-- A test of all numbers below a bound.
all_below : ℕ → (ℕ → Bool) → Bool
all_below zero p = true
all_below (suc n) p = let rest = all_below n p in p n && rest

all_below-true : (n : ℕ) (p : ℕ → Bool) (x : ℕ) → all_below n p ≡ true → x < n → p x ≡ true
unfolding all_below
all_below-true zero p x h lt = absurd (omega arith)
all_below-true (suc n) p x h lt = ground (arith, all_below-true n p x)

abbrev same : Bool → Bool → Bool
same true b = b
same false b = not b

same→eq : (a b : Bool) → same a b ≡ true → a ≡ b
same→eq true true h = refl
same→eq true false h = ground (arith, h)
same→eq false true h = ground (arith, h)
same→eq false false h = refl

abbrev write_holds : Bool → ℕ → ℕ → ℕ → Bool
write_holds value byte i j =
    same (test_byte (write_byte byte i value) j) (if j == i then value else test_byte byte j)

write_table :
    (value : Bool)
    → all_below 256 (λ byte. all_below 8 (λ i. all_below 8 (λ j. write_holds value byte i j)))
      ≡ true
unfolding all_below
write_table true = refl
write_table false = refl

pub test_byte-write_byte :
    (value : Bool) (byte i j : ℕ)
    → byte < 256
    → i < 8
    → j < 8
    → test_byte (write_byte byte i value) j ≡ (if j == i then value else test_byte byte j)
test_byte-write_byte value byte i j hb hi hj = same→eq _ _ (
    all_below-true 8 (λ j. write_holds value byte i j) j
      (all_below-true 8 (λ i. all_below 8 (λ j. write_holds value byte i j)) i
        (all_below-true 256
          (λ byte. all_below 8 (λ i. all_below 8 (λ j. write_holds value byte i j))) byte
          (write_table value) hb)
        hi)
      hj)

write_byte_table :
    (value : Bool)
    → all_below 256 (λ byte. all_below 8 (λ i. ltb (write_byte byte i value) 256)) ≡ true
unfolding all_below
write_byte_table true = refl
write_byte_table false = refl

-- A byte stays a byte.
pub write_byte-lt : (value : Bool) (byte i : ℕ) → byte < 256 → i < 8 → write_byte byte i value < 256
write_byte-lt value byte i hb hi = ltb→lt _ _ (
    all_below-true 8 (λ i. ltb (write_byte byte i value) 256) i
      (all_below-true 256 (λ byte. all_below 8 (λ i. ltb (write_byte byte i value) 256)) byte
        (write_byte_table value) hb)
      hi)
  where
    ltb→lt : (a b : ℕ) → ltb a b ≡ true → a < b
    ltb→lt a b h = ground (arith, h)

-- The number of ones among the lowest bits of a byte.
unfoldable pub ones : ℕ → ℕ → ℕ
ones byte zero = 0
ones byte (suc n) = let rest = ones byte n in if test_byte byte n then suc rest else rest

bits_table : all_below 256 (λ byte. bits_of byte == ones byte 8) ≡ true
unfolding all_below ones
bits_table = refl

pub bits_of-ones : (byte : ℕ) → byte < 256 → bits_of byte ≡ ones byte 8
bits_of-ones byte h =
    (==_iff _ _).0 (all_below-true 256 (λ byte. bits_of byte == ones byte 8) byte bits_table h)
