-- ===== src/SsetLsa/Range.antt =====
-- structures/sset_lsa.hh: the reads of a sorted set by score and by rank.
pub mod Ranks
use pedis.Base.{
  ℕ, zero, suc, ◌+◌, Bool, true, false, List, [], ◌∷◌, ◌||◌, ltb, leb, if◌then◌else◌, length,
  is_empty, ◌==◌,
}
use pedis.Base.Int.{ℤ, pos, negsuc, neg_part, ◌+ℤ◌}
use pedis.Double.{Double}
use pedis.SsetLsa.{SsetEntry, Sset, size}

module _ {F : Type 0} ⦃D : Double F⦄ where
  unfoldable pub score_at_end : SsetEntry F → List (SsetEntry F) → F
  score_at_end e [] = e.score
  score_at_end e (x ∷ l) = score_at_end x l

  -- `score_out_of_range(min, max)`, on a list that is not empty
  unfoldable pub score_out_of_range : F → F → SsetEntry F → List (SsetEntry F) → Bool
  unfolding score_at_end
  score_out_of_range min max x l = D.lt (score_at_end x l) min || D.lt max x.score

  -- The loop of `fetch_by_score`: `taken` is `entries.size()`.
  unfoldable pub score_loop : F → F → ℕ → ℕ → List (SsetEntry F) → List (SsetEntry F)
  score_loop min max limit taken [] = []
  score_loop min max limit taken (x ∷ l) =
      let skip = score_loop min max limit taken l in
      let more = score_loop min max limit (taken + 1) l in
      if D.lt x.score min
      then skip
      else if D.lt max x.score
      then []
      else if leb limit (taken + 1)
      then x ∷ []
      else x ∷ more

  -- `fetch_by_score` on `_list`; a limit of 0 stands for the size.
  unfoldable pub fetch_scores : F → F → ℕ → List (SsetEntry F) → List (SsetEntry F)
  fetch_scores min max limit [] = []
  fetch_scores min max limit (x ∷ l) =
      let found = score_loop min max (if limit == 0 then length (x ∷ l) else limit) 0 (x ∷ l) in
      if score_out_of_range min max x l then [] else found

  unfoldable pub fetch_by_score : F → F → ℕ → Sset F → List (SsetEntry F)
  unfolding fetch_scores
  fetch_by_score min max limit s = fetch_scores min max limit s.list

  unfoldable pub count_loop : F → F → List (SsetEntry F) → ℕ
  count_loop min max [] = 0
  count_loop min max (x ∷ l) =
      let rest = count_loop min max l in
      if D.lt x.score min then rest else if D.lt max x.score then 0 else rest + 1

  -- `count_by_score` on `_list`
  unfoldable pub count_scores : F → F → List (SsetEntry F) → ℕ
  count_scores min max [] = 0
  count_scores min max (x ∷ l) =
      let found = count_loop min max (x ∷ l) in if score_out_of_range min max x l then 0 else found

  unfoldable pub count_by_score : F → F → Sset F → ℕ
  unfolding count_scores
  count_by_score min max s = count_scores min max s.list

-- `while (end < 0) { end += size; }`, with fuel
unfoldable pub wrap_end : ℕ → ℕ → ℤ → ℤ
wrap_end zero size end = end
wrap_end (suc fuel) size (pos n) = pos n
wrap_end (suc fuel) size (negsuc n) = wrap_end fuel size (negsuc n +ℤ pos size)

-- `if (begin < 0) { begin += size; }`, and 0 where it is still negative
unfoldable pub align_begin : ℕ → ℤ → ℕ
unfolding ◌+ℤ◌
align_begin size (pos n) = n
align_begin size (negsuc n) = elim (negsuc n +ℤ pos size) [ pos b ↦ b | negsuc m ↦ 0 ]

module _ {F : Type 0} where
  -- The loop of `fetch_by_rank`.
  unfoldable pub rank_loop : ℕ → ℕ → ℕ → List (SsetEntry F) → List (SsetEntry F)
  rank_loop rank begin end [] = []
  rank_loop rank begin end (x ∷ l) =
      let rest = rank_loop (rank + 1) begin end l in
      if ltb rank begin then rest else if ltb end rank then [] else x ∷ rest

  -- From `begin` and `end` both at least 0. `rank_out_of_range` also holds where `end` is 0.
  unfoldable pub rank_range : ℕ → ℕ → List (SsetEntry F) → List (SsetEntry F)
  unfolding rank_loop
  rank_range begin end l =
      let size = length l in
      let begin' = if ltb size begin then size else begin in
      if ltb end begin
      then []
      else if ltb size begin' || leb end 0
      then []
      else rank_loop 0 begin' end l

  unfoldable pub fetch_by_rank : ℤ → ℤ → Sset F → List (SsetEntry F)
  unfolding wrap_end align_begin rank_range ◌+ℤ◌
  fetch_by_rank begin end s =
      if is_empty s.list then [] else (elim (wrap_end (neg_part end) (size s) end) [
        | pos e ↦ rank_range (align_begin (size s) begin) e s.list
        | negsuc n ↦ []
      ])
