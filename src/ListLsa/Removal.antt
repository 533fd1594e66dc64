-- ===== src/ListLsa/Removal.antt =====
-- What LREM and LTRIM remove: `trem` and `trim` against plain descriptions.
use pedis.Base.{
  ℕ, zero, suc, ◌+◌, ◌-◌, ◌≤◌, ◌<◌, ◌≡◌, refl, Bool, true, false, none, some, List, [], ◌∷◌, arith,
  length, if◌then◌else◌, on_if, ◌⊎◌, min, subst, not, ◌&&◌, ◌==◌, ◌||◌, leb, is_empty,
}
use pedis.Base.Bytes.{Bytes, bytes_eq}
use pedis.ListLsa.{Erased, trem_forward, trem_backward, trim, erase_run, without, keep}

-- The value stands in no two neighbouring places and not at the end.
abbrev pub IsSpread : Bytes → List Bytes → Type 0
IsSpread item [] = Unit
IsSpread item (x ∷ []) = bytes_eq x item ≡ false
IsSpread item (x ∷ y ∷ l) =
    (bytes_eq x item ≡ true → bytes_eq y item ≡ false) × IsSpread item (y ∷ l)

-- How often the value stands in the list.
pub occurrences : Bytes → List Bytes → ℕ
occurrences item [] = 0
occurrences item (x ∷ l) = (if bytes_eq x item then 1 else 0) + occurrences item l

-- On a list where the value stands in no two neighbouring places and not at the end, LREM of all
-- occurrences returns the list without the value and the number of its occurrences.
pub trem_forward-without :
    (item : Bytes) (count erased : ℕ) (l : List Bytes)
    → IsSpread item l
    → trem_forward true item count erased l ≡ some (without item l, erased + occurrences item l)
unfolding trem_forward without occurrences
trem_forward-without item count erased [] s = ground arith
trem_forward-without item count erased (x ∷ []) s = ground arith
trem_forward-without item count erased (x ∷ y ∷ []) s = ground arith
trem_forward-without item count erased (x ∷ y ∷ z ∷ l) s = ground (
  arith,
  trem_forward-without item count erased (y ∷ z ∷ l) s.1,
  trem_forward-without item count (erased + 1) (z ∷ l) s.1.1,
)

-- A count and a list against the list before: what was counted is what is gone, and nothing but
-- the value went.
pub record Removed (item : Bytes) (before : List Bytes) (erased : ℕ) (l : List Bytes) (n : ℕ)
    : Type 0 where
  pub counted : occurrences item l + n ≡ occurrences item before + erased
  pub shorter : length l + n ≡ length before + erased
  pub others : without item l ≡ without item before

abbrev Outcome : Bytes → List Bytes → ℕ → Erased → Type 0
Outcome item before erased none = Unit
Outcome item before erased (some (l, n)) = Removed item before erased l n

Outcome-keep :
    (item x : Bytes) (before : List Bytes) (erased : ℕ) (r : Erased)
    → Outcome item before erased r
    → Outcome item (x ∷ before) erased (keep x r)
unfolding without occurrences
Outcome-keep item x before erased none o = tt
Outcome-keep item x before erased (some (l, n)) o = ground arith

Outcome-skip :
    (item x : Bytes) (before : List Bytes) (erased : ℕ) (r : Erased)
    → bytes_eq x item ≡ true
    → Outcome item before (erased + 1) r
    → Outcome item (x ∷ before) erased r
unfolding without occurrences
Outcome-skip item x before erased none h o = tt
Outcome-skip item x before erased (some (l, n)) h o = ground arith

trem_forward-Outcome :
    (all : Bool) (item : Bytes) (count erased : ℕ) (l : List Bytes)
    → Outcome item l erased (trem_forward all item count erased l)
unfolding trem_forward without occurrences
trem_forward-Outcome all item count erased [] = ground arith
trem_forward-Outcome all item count erased (x ∷ []) = ground arith
trem_forward-Outcome all item count erased (x ∷ y ∷ l) =
    let here = x ∷ y ∷ l in
    let skipped = trem_forward all item count (erased + 1) l in
    let stepped = trem_forward all item count erased (y ∷ l) in
    on_if (Outcome item here erased) (bytes_eq x item) _ _
      (λ same.
        on_if (Outcome item here erased) (not all && (erased + 1) == count) _ _
          (λ _. record { counted = ground arith; shorter = omega arith; others = ground arith })
          (λ _. Outcome-skip item x (y ∷ l) erased (keep y skipped) same (
            Outcome-keep item y l (erased + 1) skipped
              (trem_forward-Outcome all item count (erased + 1) l))))
      (λ _.
        Outcome-keep item x (y ∷ l) erased stepped
          (trem_forward-Outcome all item count erased (y ∷ l)))

-- Where a removal from the head returns, whatever its flags, the count that it returns is the
-- number of occurrences of the value and the number of elements that are gone, and every other
-- element is still there, in order.
pub trem_forward-Removed :
    (all : Bool) (item : Bytes) (count : ℕ) (before : List Bytes) {l : List Bytes} {n : ℕ}
    → trem_forward all item count 0 before ≡ some (l, n)
    → Removed item before 0 l n
trem_forward-Removed all item count before h =
    subst (Outcome item before 0) h (trem_forward-Outcome all item count 0 before)

-- With `RemoveAllEqual` off, at most `count` nodes go.
Below : ℕ → Erased → Type 0
Below m none = Unit
Below m (some (l, n)) = n ≤ m

Below-keep : (m : ℕ) (x : Bytes) (r : Erased) → Below m r → Below m (keep x r)
unfolding Below
Below-keep m x none h = tt
Below-keep m x (some (l, n)) h = h

trem_forward-Below :
    (item : Bytes) (count erased : ℕ) (l : List Bytes)
    → erased < count
    → Below count (trem_forward false item count erased l)
unfolding trem_forward Below
trem_forward-Below item count erased [] lt = omega arith
trem_forward-Below item count erased (x ∷ []) lt = ground arith
trem_forward-Below item count erased (x ∷ y ∷ l) lt =
    on_if (Below count) (bytes_eq x item) _ _
      (λ _.
        on_if (Below count) ((erased + 1) == count) _ _ (λ _. omega arith)
          (λ more.
            Below-keep count y _ (trem_forward-Below item count (erased + 1) l (ground arith))))
      (λ _. Below-keep count x _ (trem_forward-Below item count erased (y ∷ l) lt))

-- Where LREM with a positive count returns, it has removed at most `count` elements.
pub trem_forward-le-count :
    (item : Bytes) (count : ℕ) (l : List Bytes) {l' : List Bytes} {n : ℕ}
    → 0 < count
    → trem_forward false item count 0 l ≡ some (l', n)
    → n ≤ count
unfolding Below
trem_forward-le-count item count l lt h =
    subst (Below count) h (trem_forward-Below item count 0 l lt)

-- Searching from the tail returns only where there is nothing to remove, or for a count of 1.
pub trem_backward_absent :
    (all : Bool) (item : Bytes) (count : ℕ) (l : List Bytes)
    → 1 < count
    → (trem_backward all item count l ≡ none) ⊎ (trem_backward all item count l ≡ some (l, 0))
unfolding trem_backward
trem_backward_absent all item count l h = ground arith

erase_run_lem : (n : ℕ) (l : List Bytes) → erase_run n l ≡ (if n == 0 then some l else none)
unfolding erase_run
erase_run_lem zero l = refl
erase_run_lem (suc n) l = ground arith

-- `trim` returns exactly where it has nothing to erase (`start` is 0 or the list is empty, and the
-- list is not longer than `end`), and then leaves the list as it is.
pub trim_lem :
    (start end : ℕ) (l : List Bytes)
    → trim start end l ≡ (if (start == 0 || is_empty l) && leb (length l) end then some l else none)
unfolding trim
trim_lem start end [] = ground (arith, erase_run_lem (min start 0) [], erase_run_lem (0 - end) [])
trim_lem start end (x ∷ l) = ground (
  arith,
  erase_run_lem (min start (length (x ∷ l))) (x ∷ l),
  erase_run_lem (length (x ∷ l) - end) (x ∷ l),
)
