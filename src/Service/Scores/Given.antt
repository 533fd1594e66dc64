-- ===== src/Service/Scores/Given.antt =====
-- redis.cc: the scores that a ZADD gives its members, from the arguments of the request to the sorted
-- set. A request's scores are collected in an unordered map, which `emplace` fills.
use mathlib.Core.Option
use pedis.Base.{◌≡◌, refl, ap, ◌∙◌, Option, none, some, List, [], ◌∷◌, arith, if◌then◌else◌}
use pedis.Base.Bytes.{Bytes, bytes_eq}
use pedis.Base.Bytes.Order.{bytes_eq→eq, bytes_eq_refl}
use pedis.Double.{Double}
use pedis.SsetLsa.{Sset, score}
use pedis.Database.SortedSets
use pedis.Database.Laws.SortedSets.{or_else, first_score, last_score, score-add_or_update_all}
use pedis.Service.{Number}
use pedis.Service.SortedSets.{read_scores, emplace_score}

module _ {F : Type 0} where
  -- Each member stands once.
  abbrev pub IsOnce : List (Bytes × F) → Type 0
  IsOnce [] = Unit
  IsOnce ((k, x) ∷ members) = (first_score k members ≡ none) × IsOnce members

  -- The entries of a map, in the order in which it gives them.
  pub record IsOrderOf (scores given : List (Bytes × F)) : Type 0 where
    pub once : IsOnce given
    pub same : (j : Bytes) → first_score j given ≡ first_score j scores

  first_score-emplace :
      (j k : Bytes) (x : F) (l : List (Bytes × F))
      → first_score j (emplace_score k x l)
        ≡ or_else (first_score j l) (if bytes_eq j k then some x else none)
  unfolding first_score emplace_score
  first_score-emplace j k x [] = ground arith
  first_score-emplace j k x ((k', y) ∷ l) = ground (
    arith,
    first_score-emplace j k x l,
    bytes_eq→eq j k,
    bytes_eq→eq k k',
    bytes_eq→eq j k',
    bytes_eq_refl k,
  )

  last_score-once :
      (j : Bytes) (members : List (Bytes × F))
      → IsOnce members
      → last_score j members ≡ first_score j members
  unfolding last_score first_score
  last_score-once j [] once = refl
  last_score-once j ((k, x) ∷ members) once =
      ground (arith, last_score-once j members once.1, once.0, bytes_eq→eq j k)

abbrev pub value_of : {F : Type 0} → Number F → Option F
value_of (Number.value x) = some x
value_of _ = none

module _ {F : Type 0} (stod : Bytes → Number F) where
  -- The score that stands before the first mention of a member.
  unfoldable pub first_given : Bytes → List Bytes → Option F
  first_given j (text ∷ member ∷ rest) =
      let later = first_given j rest in if bytes_eq j member then value_of (stod text) else later
  first_given j _ = none

  first_score-read :
      (j : Bytes) (args : List Bytes) (found scores : List (Bytes × F))
      → read_scores stod args found ≡ Number.value scores
      → first_score j scores ≡ or_else (first_score j found) (first_given j args)
  unfolding read_scores first_given
  first_score-read j [] found scores h = ground (arith, h)
  first_score-read j (text ∷ []) found scores h = ground (arith, h)
  first_score-read j (text ∷ member ∷ rest) found scores h =
      go (stod text) refl (λ x. first_score-read j rest (emplace_score member x found) scores)
    where
      go :
          (v : Number F)
          → stod text ≡ v
          → ((x : F)
              → read_scores stod rest (emplace_score member x found) ≡ Number.value scores
              → first_score j scores
                ≡ or_else (first_score j (emplace_score member x found)) (first_given j rest))
          → first_score j scores
            ≡ or_else (first_score j found) (first_given j (text ∷ member ∷ rest))
      go (Number.value x) q later =
          ground (arith, q, later x (ground (arith, h, q)), first_score-emplace j member x found)
      go Number.invalid_argument q later = ground (arith, h, q)
      go Number.out_of_range q later = ground (arith, h, q)

module _ {F : Type 0} ⦃D : Double F⦄ (stod : Bytes → Number F) where
  -- For the arguments of a ZADD with CH or without a mode, where every text before a member reads
  -- as a number, and in whatever order the map that collects them gives its entries: after the
  -- update of the sorted set each member that the request names has the first score that it gives
  -- it, and every other member the score it had.
  pub score-read_scores :
      (j : Bytes) (args : List Bytes) (scores given : List (Bytes × F)) (s : Sset F)
      → read_scores stod args [] ≡ Number.value scores
      → IsOrderOf scores given
      → Option.map (λ r. score j r.0) (SortedSets.zadd_sset given SortedSets.zadd_ch s)
        ≡ some (or_else (first_given stod j args) (score j s))
  unfolding SortedSets.zadd_sset first_given first_score
  score-read_scores j args scores given s read order = ap some (
      score-add_or_update_all j given s 0
      ∙ ap (λ x. or_else x (score j s))
          (last_score-once j given order.once
            ∙ order.same j
            ∙ first_score-read stod j args [] scores read))
