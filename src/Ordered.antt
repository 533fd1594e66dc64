-- ===== src/Ordered.antt =====
-- The key-ordered sets `_dict` of structures/dict_lsa.hh and structures/sset_lsa.hh. Both are
-- intrusive sets under `compare_impl` of the entries' keys: the list of the entries in key order,
-- walked by the comparator, which never holds two entries of one key.
pub mod Lookup
pub mod Sorted
use pedis.Base.{Bool, true, false, Option, none, some, List, [], ◌∷◌, if◌then◌else◌}
use pedis.Base.Bytes.{Bytes, compare_impl}

module _ {E : Type 0} (key : E → Bytes) where
  -- `_dict.find(k, compare())`
  unfoldable pub find : Bytes → List E → Option E
  find k [] = none
  find k (e ∷ d) =
      if compare_impl (key e) k then find k d else if compare_impl k (key e) then none else some e

  -- `_dict.find(k, compare()) != _dict.end()`
  unfoldable pub exists : Bytes → List E → Bool
  exists k d = elim (find k d) [ none ↦ false | some e ↦ true ]

  -- `_dict.insert(*e)`: the new set, and whether the entry went in. An entry of the same key
  -- stays as it is.
  unfoldable pub insert : E → List E → List E × Bool
  insert e [] = (e ∷ [], true)
  insert e (x ∷ d) =
      let (rest, done) = insert e d in
      if compare_impl (key x) (key e)
      then (x ∷ rest, done)
      else if compare_impl (key e) (key x)
      then (e ∷ x ∷ d, true)
      else (x ∷ d, false)

  -- `_dict.erase` of the entry that `find` returns
  unfoldable pub erase : Bytes → List E → List E × Bool
  erase k [] = ([], false)
  erase k (x ∷ d) =
      let (rest, done) = erase k d in
      if compare_impl (key x) k
      then (x ∷ rest, done)
      else if compare_impl k (key x)
      then (x ∷ d, false)
      else (d, true)

  -- A write through the pointer that `find` returns.
  unfoldable pub modify : Bytes → (E → E) → List E → List E
  modify k f [] = []
  modify k f (x ∷ d) =
      let rest = modify k f d in
      if compare_impl (key x) k then x ∷ rest else if compare_impl k (key x) then x ∷ d else f x ∷ d
