-- ===== src/SsetLsa/Placement.antt =====
-- `insert_ordered` against a plain insertion, and the order of `_list`.
use pedis.Base.{
  ◌≡◌, refl, ◌∙◌, true, false, List, [], ◌∷◌, ◌++◌, arith, if◌then◌else◌, Bool-cases, inl, inr,
}
use mathlib.Core.List.{append_assoc}
use pedis.Base.Bytes.{Bytes}
use pedis.Double.{Double}
use pedis.SsetLsa.{SsetEntry, insert_loop, insert_ordered, unlink}

module _ {F : Type 0} ⦃D : Double F⦄ where
  -- Before the first entry with a greater score.
  unfoldable pub place : SsetEntry F → List (SsetEntry F) → List (SsetEntry F)
  place e [] = e ∷ []
  place e (x ∷ l) = let rest = place e l in if D.lt e.score x.score then e ∷ x ∷ l else x ∷ rest

  -- No entry of the list is below `x`.
  abbrev pub NotBelow : F → List (SsetEntry F) → Type 0
  NotBelow x [] = Unit
  NotBelow x (e ∷ l) = (D.lt e.score x ≡ false) × NotBelow x l

  -- The scores are numbers, and do not fall.
  abbrev pub IsOrdered : List (SsetEntry F) → Type 0
  IsOrdered [] = Unit
  IsOrdered (e ∷ l) = (NotBelow e.score l × (D.is_nan e.score ≡ false)) × IsOrdered l

  insert_loop-place :
      (e : SsetEntry F) (before : List (SsetEntry F)) (trace : SsetEntry F) (l : List (SsetEntry F))
      → D.lt e.score trace.score ≡ false
      → insert_loop e before trace l ≡ before ++ place e l
  unfolding insert_loop place
  insert_loop-place e before trace [] h = rw h
  insert_loop-place e before trace (x ∷ l) h = elim (Bool-cases (D.lt e.score x.score)) [
    | inl less ↦ rw less
    | inr more ↦
        rw more (
          insert_loop-place e (before ++ x ∷ []) x l more
          ∙ append_assoc before (x ∷ []) (place e l))
  ]

  -- The two loops of `insert_ordered` put an entry where the plain insertion by score does: before
  -- the first entry with a greater score.
  pub insert_ordered-place :
      (e : SsetEntry F) (l : List (SsetEntry F)) → insert_ordered e l ≡ place e l
  unfolding insert_ordered place
  insert_ordered-place e [] = refl
  insert_ordered-place e (x ∷ l) = elim (Bool-cases (D.lt e.score x.score)) [
    | inl less ↦ rw less
    | inr more ↦ ground (arith, insert_loop-place e [] x (x ∷ l) more)
  ]

  NotBelow-trans :
      (x y : F) (l : List (SsetEntry F))
      → D.is_nan y ≡ false
      → D.lt y x ≡ false
      → NotBelow y l
      → NotBelow x l
  NotBelow-trans x y [] n h a = tt
  NotBelow-trans x y (e ∷ l) n h a = (D.le_trans x y e.score n h a.0, NotBelow-trans x y l n h a.1)

  NotBelow-place :
      (x : F) (e : SsetEntry F) (l : List (SsetEntry F))
      → D.lt e.score x ≡ false
      → NotBelow x l
      → NotBelow x (place e l)
  unfolding place
  NotBelow-place x e [] h a = (h, tt)
  NotBelow-place x e (y ∷ l) h a = ground (arith, NotBelow-place x e l h a.1)

  lt_asym : (a b : F) → D.lt a b ≡ true → D.lt b a ≡ false
  lt_asym a b h = ground (arith, D.lt_trans a b a, D.lt_irrefl a)

  place-IsOrdered :
      (e : SsetEntry F) (l : List (SsetEntry F))
      → D.is_nan e.score ≡ false
      → IsOrdered l
      → IsOrdered (place e l)
  unfolding place
  place-IsOrdered e [] n o = ((tt, n), tt)
  place-IsOrdered e (x ∷ l) n o = ground (
    arith,
    lt_asym e.score x.score,
    NotBelow-trans e.score x.score l,
    NotBelow-place x.score e l,
    place-IsOrdered e l n o.1,
  )

  pub insert_ordered-IsOrdered :
      (e : SsetEntry F) (l : List (SsetEntry F))
      → D.is_nan e.score ≡ false
      → IsOrdered l
      → IsOrdered (insert_ordered e l)
  insert_ordered-IsOrdered e l n o = rw insert_ordered-place (place-IsOrdered e l n o)

  NotBelow-unlink :
      (x : F) (k : Bytes) (l : List (SsetEntry F)) → NotBelow x l → NotBelow x (unlink k l)
  unfolding unlink
  NotBelow-unlink x k [] a = tt
  NotBelow-unlink x k (y ∷ l) a = ground (arith, NotBelow-unlink x k l a.1)

  pub unlink-IsOrdered : (k : Bytes) (l : List (SsetEntry F)) → IsOrdered l → IsOrdered (unlink k l)
  unfolding unlink
  unlink-IsOrdered k [] o = tt
  unlink-IsOrdered k (x ∷ l) o =
      ground (arith, NotBelow-unlink x.score k l o.0.0, unlink-IsOrdered k l o.1)
