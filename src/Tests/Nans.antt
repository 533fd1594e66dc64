-- ===== src/Tests/Nans.antt =====
-- Scores with NaN among them (sset_lsa.hh): an instance of Double, and a range by score.
use pedis.Base.{ℕ, ◌+◌, ◌≡◌, refl, Bool, true, false, Option, none, some, [], ◌∷◌, arith, ltb}
use pedis.Double.{Double}
use pedis.SsetLsa.{Sset}
use pedis.SsetLsa.Range.{fetch_by_score, fetch_scores, score_loop, score_out_of_range, score_at_end}

-- Natural numbers, and NaN.
abbrev below : Option ℕ → Option ℕ → Bool
below (some a) (some b) = ltb a b
below _ _ = false

abbrev sum : Option ℕ → Option ℕ → Option ℕ
sum (some a) (some b) = some (a + b)
sum _ _ = none

abbrev is_none : Option ℕ → Bool
is_none none = true
is_none (some a) = false

below_irrefl : (a : Option ℕ) → below a a ≡ false
below_irrefl none = refl
below_irrefl (some a) = ground arith

below_trans : (a b c : Option ℕ) → below a b ≡ true → below b c ≡ true → below a c ≡ true
below_trans (some a) (some b) (some c) h k = ground (arith, h, k)
below_trans (some a) (some b) none h k = ground (arith, k)
below_trans (some a) none c h k = ground (arith, h)
below_trans none b c h k = ground (arith, h)

not_below_trans :
    (a b c : Option ℕ)
    → is_none b ≡ false
    → below b a ≡ false
    → below c b ≡ false
    → below c a ≡ false
not_below_trans (some a) (some b) (some c) n h k = ground (arith, h, k)
not_below_trans (some a) (some b) none n h k = refl
not_below_trans none (some b) (some c) n h k = refl
not_below_trans none (some b) none n h k = refl
not_below_trans a none c n h k = ground (arith, n)

instance abbrev partial_scores : Double (Option ℕ)
partial_scores = record {
  lt = below;
  add = sum;
  is_nan = is_none;
  lt_irrefl = below_irrefl;
  lt_trans = below_trans;
  le_trans = not_below_trans;
}

abbrev with_nan : Sset (Option ℕ)
with_nan = record {
  dict =
      record { key = 3 ∷ []; score = none }
      ∷ record { key = 4 ∷ []; score = some 2 }
      ∷ record { key = 5 ∷ []; score = some 8 }
      ∷ [];
  list =
      record { key = 4 ∷ []; score = some 2 }
      ∷ record { key = 3 ∷ []; score = none }
      ∷ record { key = 5 ∷ []; score = some 8 }
      ∷ [];
}

-- Between 4 and 5 there is no score.
nan_found : fetch_by_score (some 4) (some 5) 0 with_nan ≡ record { key = 3 ∷ []; score = none } ∷ []
unfolding fetch_by_score fetch_scores score_loop score_out_of_range score_at_end
nan_found = refl
