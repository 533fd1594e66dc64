-- ===== src/Base/Bytes/Order.antt =====
-- `compare_impl` is a strict total order on byte strings, and `bytes_eq` decides equality.
use Prim.Native.Nat.{compare, Ordering}
use pedis.Base.{ℕ, ◌≡◌, refl, ◌↔◌, true, false, [], ◌∷◌, arith, subst, if◌then◌else◌}
use pedis.Base.Bytes.{Bytes, compare_impl, bytes_eq}

-- The recursion that the comparison amounts to.
pub compare_impl-cons :
    (x y : ℕ) (xs ys : Bytes)
    → compare_impl (x ∷ xs) (y ∷ ys) ≡ (elim (compare x y) [
      | Ordering.lt ↦ true
      | Ordering.eq ↦ compare_impl xs ys
      | Ordering.gt ↦ false
    ])
unfolding compare_impl
compare_impl-cons x y xs ys = ground arith

compare_impl-nil_right : (a : Bytes) → compare_impl a [] ≡ false
unfolding compare_impl
compare_impl-nil_right [] = ground arith
compare_impl-nil_right (x ∷ xs) = ground arith

compare_impl-nil_left : (y : ℕ) (ys : Bytes) → compare_impl [] (y ∷ ys) ≡ true
unfolding compare_impl
compare_impl-nil_left y ys = ground arith

pub compare_impl_irrefl : (a : Bytes) → compare_impl a a ≡ false
compare_impl_irrefl [] = compare_impl-nil_right []
compare_impl_irrefl (x ∷ xs) = rw compare_impl-cons (ground (arith, compare_impl_irrefl xs))

pub compare_impl_trans :
    (a b c : Bytes) → compare_impl a b ≡ true → compare_impl b c ≡ true → compare_impl a c ≡ true
compare_impl_trans [] b [] h k = cc (compare_impl-nil_right b)
compare_impl_trans [] b (z ∷ zs) h k = compare_impl-nil_left z zs
compare_impl_trans (x ∷ xs) b [] h k = cc (compare_impl-nil_right b)
compare_impl_trans (x ∷ xs) [] (z ∷ zs) h k = cc (compare_impl-nil_right (x ∷ xs))
compare_impl_trans (x ∷ xs) (y ∷ ys) (z ∷ zs) h k = ground (
  arith,
  compare_impl-cons x y xs ys,
  compare_impl-cons y z ys zs,
  compare_impl-cons x z xs zs,
  compare_impl_trans xs ys zs,
)

pub compare_impl_total : (a b : Bytes) → compare_impl a b ≡ false → compare_impl b a ≡ false → a ≡ b
compare_impl_total [] [] h k = refl
compare_impl_total [] (y ∷ ys) h k = cc (compare_impl-nil_left y ys)
compare_impl_total (x ∷ xs) [] h k = cc (compare_impl-nil_left x xs)
compare_impl_total (x ∷ xs) (y ∷ ys) h k =
    ground
      (arith, compare_impl-cons x y xs ys, compare_impl-cons y x ys xs, compare_impl_total xs ys)

pub bytes_eq_refl : (a : Bytes) → bytes_eq a a ≡ true
unfolding bytes_eq
bytes_eq_refl [] = refl
bytes_eq_refl (x ∷ xs) = ground (arith, bytes_eq_refl xs)

pub bytes_eq→eq : (a b : Bytes) → bytes_eq a b ≡ true → a ≡ b
unfolding bytes_eq
bytes_eq→eq [] [] h = refl
bytes_eq→eq [] (y ∷ ys) h = ground arith
bytes_eq→eq (x ∷ xs) [] h = ground arith
bytes_eq→eq (x ∷ xs) (y ∷ ys) h = ground (arith, bytes_eq→eq xs ys)

pub bytes_eq_iff : (a b : Bytes) → (bytes_eq a b ≡ true) ↔ (a ≡ b)
bytes_eq_iff a b = (bytes_eq→eq a b, λ e. subst (λ c. bytes_eq a c ≡ true) e (bytes_eq_refl a))

pub compare_impl_asym : (a b : Bytes) → compare_impl a b ≡ true → compare_impl b a ≡ false
compare_impl_asym a b h = ground (arith, compare_impl_trans a b a h, compare_impl_irrefl a)

bytes_eq_ne : (a b : Bytes) → (a ≡ b → ⊥) → bytes_eq a b ≡ false
bytes_eq_ne a b h = ground (arith, bytes_eq→eq a b)

-- The test for equality, by two comparisons.
pub bytes_eq-compare_impl :
    (a b : Bytes)
    → bytes_eq a b ≡ (if compare_impl a b then false else if compare_impl b a then false else true)
bytes_eq-compare_impl a b =
    ground (arith, bytes_eq_refl a, bytes_eq→eq a b, compare_impl_irrefl a, compare_impl_total a b)
