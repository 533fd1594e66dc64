-- ===== src/SsetLsa/Range/Ranks.antt =====
-- The reads of an ordered list by score and by rank, against plain descriptions.
use pedis.Base.{
  ℕ, zero, suc, ◌+◌, ◌-◌, ◌<◌, ◌≤◌, ◌≡◌, refl, sym, Bool, true, false, List, [], ◌∷◌, arith, length,
  take, drop, ◌==◌, ◌&&◌, not, if◌then◌else◌, ◌⊎◌,
}
use pedis.Base.Int.{ℤ, pos, negsuc, ◌+ℤ◌, neg_part}
use pedis.Double.{Double}
use pedis.SsetLsa.{SsetEntry, Sset, size}
use pedis.SsetLsa.Placement.{IsOrdered, NotBelow}
use pedis.SsetLsa.Range.{
  score_loop, count_loop, rank_loop, rank_range, wrap_end, fetch_by_score, count_by_score,
  fetch_scores, count_scores, score_out_of_range, score_at_end,
}

module _ {F : Type 0} ⦃D : Double F⦄ where
  -- `min ≤ score ≤ max`
  abbrev pub in_range : F → F → F → Bool
  in_range min max x = not (D.lt x min) && not (D.lt max x)

  pub within : F → F → List (SsetEntry F) → List (SsetEntry F)
  within min max [] = []
  within min max (x ∷ l) =
      let rest = within min max l in if in_range min max x.score then x ∷ rest else rest

  -- From an entry above the range on, an ordered list has nothing in the range.
  within-above :
      (min max x : F) (l : List (SsetEntry F))
      → IsOrdered l
      → D.lt max x ≡ true
      → NotBelow x l
      → within min max l ≡ []
  unfolding within
  within-above min max x [] o h a = refl
  within-above min max x (e ∷ l) o h a =
      ground (arith, within-above min max x l o.1 h a.1, D.le_trans x e.score max o.0.1)

  -- On an ordered list, and with room for all, the loop takes exactly the entries in the range.
  score_loop-within :
      (min max : F) (limit taken : ℕ) (l : List (SsetEntry F))
      → IsOrdered l
      → taken + length l ≤ limit
      → score_loop min max limit taken l ≡ within min max l
  unfolding score_loop within
  score_loop-within min max limit taken [] o h = refl
  score_loop-within min max limit taken (x ∷ []) o h = ground arith
  score_loop-within min max limit taken (x ∷ y ∷ l) o h = ground (
    arith,
    score_loop-within min max limit taken (y ∷ l) o.1,
    score_loop-within min max limit (taken + 1) (y ∷ l) o.1,
    within-above min max x.score (y ∷ l) o.1,
  )

  count_loop-within :
      (min max : F) (l : List (SsetEntry F))
      → IsOrdered l
      → count_loop min max l ≡ length (within min max l)
  unfolding count_loop within
  count_loop-within min max [] o = refl
  count_loop-within min max (x ∷ l) o =
      ground (arith, count_loop-within min max l o.1, within-above min max x.score l o.1)

  at_end-NotBelow :
      (x : F) (e : SsetEntry F) (l : List (SsetEntry F))
      → D.lt e.score x ≡ false
      → NotBelow x l
      → D.lt (score_at_end e l) x ≡ false
  unfolding score_at_end
  at_end-NotBelow x e [] h a = h
  at_end-NotBelow x e (y ∷ l) h a = at_end-NotBelow x y l a.0 a.1

  within-below :
      (min max : F) (x : SsetEntry F) (l : List (SsetEntry F))
      → IsOrdered (x ∷ l)
      → D.lt (score_at_end x l) min ≡ true
      → within min max (x ∷ l) ≡ []
  unfolding within score_at_end
  within-below min max x [] o h = ground arith
  within-below min max x (y ∷ l) o h = ground (
    arith,
    within-below min max y l o.1 h,
    at_end-NotBelow x.score y l o.0.0.0 o.0.0.1,
    D.le_trans min x.score (score_at_end y l) o.0.1,
  )

  -- The early exit: the range lies outside the scores of the list.
  within-out_of_range :
      (min max : F) (x : SsetEntry F) (l : List (SsetEntry F))
      → IsOrdered (x ∷ l)
      → score_out_of_range min max x l ≡ true
      → within min max (x ∷ l) ≡ []
  unfolding score_out_of_range within
  within-out_of_range min max x l o h =
      ground (arith, within-below min max x l o, within-above min max x.score l o.1)

  fetch_scores-within :
      (min max : F) (l : List (SsetEntry F))
      → IsOrdered l
      → fetch_scores min max 0 l ≡ within min max l
  unfolding fetch_scores
  fetch_scores-within min max [] o = unfold within in refl
  fetch_scores-within min max (x ∷ l) o = ground (
    arith,
    within-out_of_range min max x l o,
    score_loop-within min max (length (x ∷ l)) 0 (x ∷ l) o,
  )

  count_scores-within :
      (min max : F) (l : List (SsetEntry F))
      → IsOrdered l
      → count_scores min max l ≡ length (within min max l)
  unfolding count_scores
  count_scores-within min max [] o = unfold within in refl
  count_scores-within min max (x ∷ l) o =
      ground (arith, within-out_of_range min max x l o, count_loop-within min max (x ∷ l) o)

  -- On a list in the order of scores, none of them NaN, and without a limit, `fetch_by_score`
  -- yields exactly the entries with scores from `min` to `max`, in order, and `count_by_score`
  -- their number.
  pub fetch_by_score-within :
      (min max : F) (s : Sset F)
      → IsOrdered s.list
      → (fetch_by_score min max 0 s ≡ within min max s.list)
        × (count_by_score min max s ≡ length (within min max s.list))
  unfolding fetch_by_score count_by_score
  fetch_by_score-within min max s o =
      (fetch_scores-within min max s.list o, count_scores-within min max s.list o)

closer : (n size fuel : ℕ) → 0 < size → suc n ≤ suc fuel → neg_part (negsuc n +ℤ pos size) ≤ fuel
unfolding ◌+ℤ◌
closer n size fuel s h = ground arith

-- For a sorted set that is not empty, the loop `while (end < 0)` ends with a rank that is not
-- negative within as many rounds as `end` is below 0.
pub wrap_end-nonneg :
    (fuel size : ℕ) (end : ℤ)
    → 0 < size
    → neg_part end ≤ fuel
    → (e : ℕ) × (wrap_end fuel size end ≡ pos e)
unfolding wrap_end
wrap_end-nonneg zero size (pos n) s h = (n, refl)
wrap_end-nonneg (suc fuel) size (pos n) s h = (n, refl)
wrap_end-nonneg zero size (negsuc n) s h = absurd (omega arith)
wrap_end-nonneg (suc fuel) size (negsuc n) s h =
    wrap_end-nonneg fuel size (negsuc n +ℤ pos size) s (closer n size fuel s h)

module _ {F : Type 0} where
  drop-nil : (n : ℕ) → drop {A = SsetEntry F} n [] ≡ []
  drop-nil zero = refl
  drop-nil (suc n) = refl

  rank_loop-take :
      (n m rank begin end : ℕ) (l : List (SsetEntry F))
      → begin - rank ≡ n
      → end + 1 - rank ≡ m
      → rank_loop rank begin end l ≡ drop n (take m l)
  unfolding rank_loop
  rank_loop-take n zero rank begin end [] b e = sym (drop-nil n)
  rank_loop-take n (suc m) rank begin end [] b e = sym (drop-nil n)
  rank_loop-take zero zero rank begin end (x ∷ l) b e = ground arith
  rank_loop-take (suc n) zero rank begin end (x ∷ l) b e =
      ground (arith, rank_loop-take n zero (rank + 1) begin end l, drop-nil n)
  rank_loop-take zero (suc m) rank begin end (x ∷ l) b e =
      ground (arith, rank_loop-take zero m (rank + 1) begin end l)
  rank_loop-take (suc n) (suc m) rank begin end (x ∷ l) b e =
      ground (arith, rank_loop-take n m (rank + 1) begin end l)

  drop-take_nil :
      (n m : ℕ) (l : List (SsetEntry F)) → (m ≤ n) ⊎ (length l ≤ n) → drop n (take m l) ≡ []
  drop-take_nil n zero l h = drop-nil n
  drop-take_nil n (suc m) [] h = drop-nil n
  drop-take_nil zero (suc m) (x ∷ l) h = absurd (omega arith)
  drop-take_nil (suc n) (suc m) (x ∷ l) h = drop-take_nil n m l (omega arith)

  -- For two ranks that are not negative, the loop of `fetch_by_rank` yields the entries from
  -- `begin` to `end`, both included, but nothing at all where `end` is 0.
  pub rank_range-take :
      (begin end : ℕ) (l : List (SsetEntry F))
      → rank_range begin end l ≡ (if end == 0 then [] else drop begin (take (end + 1) l))
  unfolding rank_range
  rank_range-take begin end l =
      let n = length l in
      ground (
        arith,
        rank_loop-take begin (end + 1) 0 begin end l,
        rank_loop-take n (end + 1) 0 n end l,
        drop-take_nil begin (end + 1) l,
        drop-take_nil n (end + 1) l,
      )
