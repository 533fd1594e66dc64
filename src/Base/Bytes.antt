-- ===== src/Base/Bytes.antt =====
-- utils/bytes.hh: `bytes` is a sequence of characters, numbers below 256 here. `memcmp` is the C
-- library's, over the shorter of the two lengths.
pub mod Order
use Prim.Native.Nat.{ℕ, zero, suc, compare, Ordering}
use mathlib.Core.Path.{◌≡◌, refl, ap, ap₂}
use mathlib.Core.Logic.{◌↔◌}
use mathlib.Core.Bool.{Bool, true, false, ◌&&◌, not}
use mathlib.Core.List.{List, [], ◌∷◌}
use native.Mathlib.Omega.{arith}
use pedis.Base.Tests.{ltb, ◌==◌, if◌then◌else◌}
use pedis.Base.Lists.{length}

abbrev pub Bytes : Type 0
Bytes = List ℕ

-- The sign of `memcmp(d1, d2, min(s1, s2))`.
pub memcmp : Bytes → Bytes → Ordering
memcmp [] ys = Ordering.eq
memcmp (x ∷ xs) [] = Ordering.eq
memcmp (x ∷ xs) (y ∷ ys) = elim (compare x y) [
  | Ordering.lt ↦ Ordering.lt
  | Ordering.eq ↦ memcmp xs ys
  | Ordering.gt ↦ Ordering.gt
]

-- `compare_impl` of the two entry types.
unfoldable pub compare_impl : Bytes → Bytes → Bool
unfolding memcmp
compare_impl d1 d2 = elim (memcmp d1 d2) [
  | Ordering.lt ↦ true
  | Ordering.eq ↦ ltb (length d1) (length d2)
  | Ordering.gt ↦ false
]

-- `memcmp` of two equally long byte strings is 0.
unfoldable pub bytes_eq : Bytes → Bytes → Bool
bytes_eq [] [] = true
bytes_eq [] (y ∷ ys) = false
bytes_eq (x ∷ xs) [] = false
bytes_eq (x ∷ xs) (y ∷ ys) = x == y && bytes_eq xs ys
