-- ===== src/Ordered/Sorted.antt =====
-- The entries stand in strictly ascending key order, and every operation keeps it.
use pedis.Base.{◌≡◌, refl, true, List, [], ◌∷◌, arith, none}
use pedis.Base.Bytes.{Bytes, compare_impl}
use pedis.Base.Bytes.Order.{compare_impl_trans}
use pedis.Ordered.{find, insert, erase, modify}

module _ {E : Type 0} (key : E → Bytes) where
  -- Every key of the set is above `k`.
  abbrev pub Above : Bytes → List E → Type 0
  Above k [] = Unit
  Above k (e ∷ d) = (compare_impl k (key e) ≡ true) × Above k d

  abbrev pub IsSorted : List E → Type 0
  IsSorted [] = Unit
  IsSorted (e ∷ d) = Above (key e) d × IsSorted d

  Above-below : (j k : Bytes) (d : List E) → compare_impl j k ≡ true → Above k d → Above j d
  Above-below j k [] h a = tt
  Above-below j k (e ∷ d) h a = (compare_impl_trans j k (key e) h a.0, Above-below j k d h a.1)

  pub find-Above : (k : Bytes) (d : List E) → Above k d → find key k d ≡ none
  unfolding find
  find-Above k [] a = refl
  find-Above k (e ∷ d) a = ground (arith, find-Above k d)

  pub find_below :
      (j k : Bytes) (d : List E) → compare_impl j k ≡ true → Above k d → find key j d ≡ none
  find_below j k d h a = find-Above j d (Above-below j k d h a)

  Above-insert :
      (k : Bytes) (e : E) (d : List E)
      → compare_impl k (key e) ≡ true
      → Above k d
      → Above k (insert key e d).0
  unfolding insert
  Above-insert k e [] h a = (h, tt)
  Above-insert k e (x ∷ d) h a = ground (arith, Above-insert k e d h a.1)

  pub insert-IsSorted : (e : E) (d : List E) → IsSorted d → IsSorted (insert key e d).0
  unfolding insert
  insert-IsSorted e [] s = (tt, tt)
  insert-IsSorted e (x ∷ d) s =
      ground (arith, Above-insert (key x) e d, insert-IsSorted e d, Above-below (key e) (key x) d)

  Above-erase : (j k : Bytes) (d : List E) → Above j d → Above j (erase key k d).0
  unfolding erase
  Above-erase j k [] a = tt
  Above-erase j k (x ∷ d) a = ground (arith, Above-erase j k d a.1)

  pub erase-IsSorted : (k : Bytes) (d : List E) → IsSorted d → IsSorted (erase key k d).0
  unfolding erase
  erase-IsSorted k [] s = tt
  erase-IsSorted k (x ∷ d) s = ground (arith, Above-erase (key x) k d, erase-IsSorted k d)

  module _ (f : E → E) (keeps : (e : E) → key (f e) ≡ key e) where
    Above-modify : (j k : Bytes) (d : List E) → Above j d → Above j (modify key k f d)
    unfolding modify
    Above-modify j k [] a = tt
    Above-modify j k (x ∷ d) a = ground (arith, Above-modify j k d a.1, keeps x)

    pub modify-IsSorted : (k : Bytes) (d : List E) → IsSorted d → IsSorted (modify key k f d)
    unfolding modify
    modify-IsSorted k [] s = tt
    modify-IsSorted k (x ∷ d) s =
        ground (arith, Above-modify (key x) k d, modify-IsSorted k d, keeps x)
