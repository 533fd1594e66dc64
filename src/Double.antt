-- ===== src/Double.antt =====
-- The type `double` of scores: the comparison and the sum that the program uses. The laws are those
-- of all doubles, NaN included, which no comparison holds of.
use pedis.Base.{◌≡◌, Bool, true, false}

pub record Double (F : Type 0) : Type 0 where
  pub lt : F → F → Bool
  pub add : F → F → F
  pub is_nan : F → Bool
  pub lt_irrefl : (a : F) → lt a a ≡ false
  pub lt_trans : (a b c : F) → lt a b ≡ true → lt b c ≡ true → lt a c ≡ true
  -- What is not below a number that is not below a third value is not below that value.
  pub le_trans : (a b c : F) → is_nan b ≡ false → lt b a ≡ false → lt c b ≡ false → lt c a ≡ false
