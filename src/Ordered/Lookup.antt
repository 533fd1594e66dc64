-- ===== src/Ordered/Lookup.antt =====
-- What `find` sees after each operation.
use mathlib.Core.Option
use pedis.Base.{
  ◌≡◌, refl, true, false, List, [], ◌∷◌, arith, length, ◌+◌, if◌then◌else◌, Option, none, some,
}
use pedis.Base.Bytes.{Bytes, bytes_eq}
use pedis.Base.Bytes.Order.{
  compare_impl_trans, compare_impl_asym, bytes_eq-compare_impl, compare_impl_total,
}
use pedis.Ordered.{find, insert, erase, modify, exists}
use pedis.Ordered.Sorted.{IsSorted, find-Above, find_below}

abbrev pub or_entry : {E : Type 0} → Option E → E → Option E
or_entry none e = some e
or_entry (some x) e = some x

module _ {E : Type 0} (key : E → Bytes) where
  -- An entry that is there stays, and else the new one is found.
  pub find-insert :
      (j : Bytes) (e : E) (d : List E)
      → find key j (insert key e d).0
        ≡ (if bytes_eq j (key e) then or_entry (find key j d) e else find key j d)
  unfolding find insert
  find-insert j e [] = ground (arith, bytes_eq-compare_impl j (key e), compare_impl_asym (key e) j)
  find-insert j e (x ∷ d) = ground (
    arith,
    find-insert j e d,
    bytes_eq-compare_impl j (key e),
    compare_impl_asym (key e) j,
    compare_impl_asym (key e) (key x),
    compare_impl_trans (key e) (key x) j,
    compare_impl_trans (key x) (key e) j,
    compare_impl_trans j (key e) (key x),
    compare_impl_asym (key x) j,
    compare_impl_total j (key e),
  )

  pub insert-exists :
      (e : E) (d : List E) → (insert key e d).1 ≡ (if exists key (key e) d then false else true)
  unfolding exists find insert
  insert-exists e [] = refl
  insert-exists e (x ∷ d) = ground (arith, insert-exists e d)

  pub find-erase :
      (j k : Bytes) (d : List E)
      → IsSorted key d
      → find key j (erase key k d).0 ≡ (if bytes_eq j k then none else find key j d)
  unfolding find erase
  find-erase j k [] s = ground arith
  find-erase j k (x ∷ d) s = ground (
    arith,
    find-erase j k d s.1,
    bytes_eq-compare_impl j k,
    compare_impl_asym k j,
    compare_impl_trans k (key x) j,
    compare_impl_trans (key x) k j,
    compare_impl_trans j k (key x),
    compare_impl_asym (key x) j,
    compare_impl_total j k,
    compare_impl_total (key x) k,
    find-Above key (key x) d s.0,
    find_below key j (key x) d,
  )

  pub erase-exists : (k : Bytes) (d : List E) → (erase key k d).1 ≡ exists key k d
  unfolding exists find erase
  erase-exists k [] = refl
  erase-exists k (x ∷ d) = ground (arith, erase-exists k d)

  -- Written through: the entry of the key is changed, and no other.
  pub find-modify :
      (f : E → E) (j k : Bytes) (d : List E)
      → ((e : E) → key (f e) ≡ key e)
      → find key j (modify key k f d)
        ≡ (if bytes_eq j k then Option.map f (find key j d) else find key j d)
  unfolding find modify
  find-modify f j k [] keeps = ground arith
  find-modify f j k (x ∷ d) keeps = ground (
    arith,
    keeps x,
    find-modify f j k d keeps,
    bytes_eq-compare_impl j k,
    compare_impl_trans (key x) k j,
    compare_impl_trans j k (key x),
    compare_impl_asym (key x) j,
    compare_impl_total j k,
    compare_impl_total (key x) k,
  )

  -- The entry that is found has the key.
  pub key-find : (k : Bytes) (d : List E) {e : E} → find key k d ≡ some e → key e ≡ k
  unfolding find
  key-find k [] h = ground arith
  key-find k (x ∷ d) {e} h = ground (arith, key-find k d {e = e}, compare_impl_total (key x) k)

  pub length-insert :
      (e : E) (d : List E)
      → length (insert key e d).0 ≡ (if exists key (key e) d then length d else length d + 1)
  unfolding exists find insert
  length-insert e [] = omega arith
  length-insert e (x ∷ d) = ground (arith, length-insert e d)

  pub length-erase :
      (k : Bytes) (d : List E)
      → length d
        ≡ (if exists key k d then length (erase key k d).0 + 1 else length (erase key k d).0)
  unfolding exists find erase
  length-erase k [] = omega arith
  length-erase k (x ∷ d) = ground (arith, length-erase k d)
