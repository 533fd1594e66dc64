-- ===== src/Service/Unions/Rounds.antt =====
-- The rounds of the loop over the options of ZUNIONSTORE (`parse_zset_args`, redis.cc).
use pedis.Base.{
  ℕ, zero, suc, ◌+◌, ◌^◌, ◌≡◌, refl, sym, ◌∙◌, ◌≤◌, ◌<◌, Option, none, some, List, [], ◌∷◌, arith,
  length, get_elem?,
}
use pedis.Base.Bytes.{Bytes}
use pedis.DictLsa.{word}
use pedis.Service.{Number}
use pedis.Service.Unions.{Options, Read, options_loop, weights_option, aggregate_option}

get_elem?-past : (l : List Bytes) (i : ℕ) → length l ≤ i → get_elem? l i ≡ none
get_elem?-past [] i h = refl
get_elem?-past (x ∷ l) zero h = absurd (omega arith)
get_elem?-past (x ∷ l) (suc i) h = get_elem?-past l i (omega arith)

get_elem?-inside : (l : List Bytes) (i : ℕ) {x : Bytes} → get_elem? l i ≡ some x → i < length l
get_elem?-inside [] i h = absurd (ground (arith, h))
get_elem?-inside (y ∷ l) zero h = omega arith
get_elem?-inside (y ∷ l) (suc i) h = omega (arith, get_elem?-inside l i h)

module _ {F : Type 0} (stod : Bytes → Number F) where
  weights_option-index :
      (args : List Bytes) (numkeys : ℕ) (syntax : Bytes) (o o1 : Options F)
      → o.index + 1 + numkeys < word
      → weights_option stod args numkeys syntax o ≡ Read.value o1
      → o.index ≤ o1.index
  unfolding weights_option
  weights_option-index args numkeys syntax o o1 h e = ground (arith, h, e)

  aggregate_option-index :
      (args : List Bytes) (syntax : Bytes) (o o1 : Options F)
      → aggregate_option stod args syntax o ≡ Read.value o1
      → o.index ≤ o1.index
  unfolding aggregate_option
  aggregate_option-index args syntax o o1 e = ground (arith, e)

  past-value :
      (r : ℕ) (args : List Bytes) (numkeys : ℕ) (o : Options F)
      → length args ≤ o.index
      → options_loop stod (suc r) args numkeys o ≡ Read.value o
  unfolding options_loop
  past-value r args numkeys o h = rw (get_elem?-past args o.index h, options_loop) refl

  module _ (r s : ℕ) (args : List Bytes) (numkeys : ℕ) (o : Options F)
      (rest : (o' : Options F)
        → o.index < o'.index
        → options_loop stod r args numkeys o' ≡ options_loop stod s args numkeys o') where
    abbrev after_aggregate : ℕ → Read (Options F) → Read (Options F)
    after_aggregate n Read.refused = Read.refused
    after_aggregate n Read.lost = Read.lost
    after_aggregate n (Read.value o2) =
        options_loop stod n args numkeys (record o2 { index = o2.index + 1 })

    after_aggregate-same :
        (o1 : Options F) (syntax : Bytes) (m : Read (Options F))
        → o.index ≤ o1.index
        → aggregate_option stod args syntax o1 ≡ m
        → after_aggregate r m ≡ after_aggregate s m
    after_aggregate-same o1 syntax Read.refused h e = refl
    after_aggregate-same o1 syntax Read.lost h e = refl
    after_aggregate-same o1 syntax (Read.value o2) h e =
        rest (record o2 { index = o2.index + 1 })
          (omega (arith, h, aggregate_option-index args syntax o1 o2 e))

    abbrev after_weights : ℕ → Bytes → Read (Options F) → Read (Options F)
    after_weights n syntax Read.refused = Read.refused
    after_weights n syntax Read.lost = Read.lost
    after_weights n syntax (Read.value o1) =
        after_aggregate n (aggregate_option stod args syntax o1)

    after_weights-same :
        (syntax : Bytes) (m : Read (Options F))
        → o.index + 1 + numkeys < word
        → weights_option stod args numkeys syntax o ≡ m
        → after_weights r syntax m ≡ after_weights s syntax m
    after_weights-same syntax Read.refused h e = refl
    after_weights-same syntax Read.lost h e = refl
    after_weights-same syntax (Read.value o1) h e =
        after_aggregate-same o1 syntax (aggregate_option stod args syntax o1)
          (weights_option-index args numkeys syntax o o1 h e) refl

    abbrev after_get : ℕ → Option Bytes → Read (Options F)
    after_get n none = Read.value o
    after_get n (some syntax) = after_weights n syntax (weights_option stod args numkeys syntax o)

    after_get-same :
        (m : Option Bytes)
        → numkeys ≤ length args
        → length args < 2 ^ 62
        → get_elem? args o.index ≡ m
        → after_get r m ≡ after_get s m
    after_get-same none few short e = refl
    after_get-same (some syntax) few short e =
        after_weights-same syntax (weights_option stod args numkeys syntax o)
          (omega (arith, few, short, get_elem?-inside args o.index e)) refl

    -- A round that goes on, with two numbers of rounds left.
    round-same :
        numkeys ≤ length args
        → length args < 2 ^ 62
        → options_loop stod (suc r) args numkeys o ≡ options_loop stod (suc s) args numkeys o
    unfolding options_loop
    round-same few short = after_get-same (get_elem? args o.index) few short refl

  -- With no more keys than arguments, and fewer than 2^62 of those: two numbers of rounds that both
  -- reach past the last argument give the same, so that the loop ends within them.
  pub options_loop-rounds :
      (r s : ℕ) (args : List Bytes) (numkeys : ℕ) (o : Options F)
      → numkeys ≤ length args
      → length args < 2 ^ 62
      → length args ≤ o.index + r
      → length args ≤ o.index + s
      → options_loop stod (suc r) args numkeys o ≡ options_loop stod (suc s) args numkeys o
  options_loop-rounds zero s args numkeys o few short h k =
      let past : length args ≤ o.index = omega (arith, h) in
      past-value zero args numkeys o past ∙ sym (past-value s args numkeys o past)
  options_loop-rounds (suc r) zero args numkeys o few short h k =
      let past : length args ≤ o.index = omega (arith, k) in
      past-value (suc r) args numkeys o past ∙ sym (past-value zero args numkeys o past)
  options_loop-rounds (suc r) (suc s) args numkeys o few short h k =
      round-same (suc r) (suc s) args numkeys o
        (λ o' ahead.
          options_loop-rounds r s args numkeys o' few short (omega (arith, h, ahead))
            (omega (arith, k, ahead)))
        few short
