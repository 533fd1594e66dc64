-- ===== src/Tests/Instances.antt =====
-- A timer set whose timers are all due when it is asked, and the natural numbers as scores.
use pedis.Base.{
  ℕ, ◌+◌, ◌≡◌, refl, sym, ◌∙◌, true, false, none, List, [], ◌∷◌, arith, ltb, if◌then◌else◌, length,
}
use pedis.Keys.{RedisKey, same_key, same_key→eq, same_key_refl}
use pedis.Double.{Double}
use pedis.TimerSet.{TimerSet, holds, IsOnce}

unfoldable pub without_key : RedisKey → List RedisKey → List RedisKey
without_key k [] = []
without_key k (x ∷ s) = let rest = without_key k s in if same_key x k then rest else x ∷ rest

unfoldable pub once : List RedisKey → List RedisKey
once [] = []
once (k ∷ s) = let rest = once s in if holds k rest then rest else k ∷ rest

pub holds-once : (j : RedisKey) (s : List RedisKey) → holds j (once s) ≡ holds j s
unfolding holds once
holds-once j [] = refl
holds-once j (k ∷ s) = ground (arith, holds-once j s, holds-once k s, same_key→eq j k)

pub once-IsOnce : (s : List RedisKey) → IsOnce (once s)
unfolding once
once-IsOnce [] = tt
once-IsOnce (k ∷ s) = ground (arith, once-IsOnce s)

pub holds-without_key :
    (j k : RedisKey) (s : List RedisKey)
    → holds j (without_key k s) ≡ (if same_key j k then false else holds j s)
unfolding holds without_key
holds-without_key j k [] = ground arith
holds-without_key j k (x ∷ s) = ground (
  arith,
  holds-without_key j k s,
  same_key→eq j k,
  same_key→eq x k,
  same_key→eq j x,
  same_key_refl k,
)

pub holds-cons :
    (j k : RedisKey) (s : List RedisKey)
    → holds j (k ∷ s) ≡ (if same_key j k then true else holds j s)
unfolding holds
holds-cons j k s = ground arith

pub holds-nil : (j : RedisKey) → holds j [] ≡ false
unfolding holds
holds-nil j = refl

pub holds-expired :
    (j : RedisKey) (s : List RedisKey)
    → holds j [] ≡ (if holds j (once s) then false else holds j s)
holds-expired j s = ground (arith, holds-once j s, holds-nil j)

instance abbrev pub key_timers : TimerSet (List RedisKey)
key_timers = record {
  clear = [];
  size = length;
  insert = λ k t s. (k ∷ s, true);
  remove = without_key;
  get_next_timeout = λ s. none;
  expire = λ now s. (once s, []);
  armed = holds;
  armed-clear = holds-nil;
  armed-insert = λ j k t s out. holds-cons j k s;
  armed-remove = holds-without_key;
  armed-expire = λ j now s. holds-expired j s;
  expire-armed = λ j now s h. sym (holds-once j s) ∙ h;
  expire-once = λ now s. once-IsOnce s;
}

pub ltb_irrefl : (a : ℕ) → ltb a a ≡ false
ltb_irrefl a = ground arith

pub ltb_trans : (a b c : ℕ) → ltb a b ≡ true → ltb b c ≡ true → ltb a c ≡ true
ltb_trans a b c h k = ground arith

pub leb_trans : (a b c : ℕ) → false ≡ false → ltb b a ≡ false → ltb c b ≡ false → ltb c a ≡ false
leb_trans a b c n h k = ground arith

instance abbrev pub natural_scores : Double ℕ
natural_scores = record {
  lt = ltb;
  add = λ a b. a + b;
  is_nan = λ a. false;
  lt_irrefl = ltb_irrefl;
  lt_trans = ltb_trans;
  le_trans = leb_trans;
}
