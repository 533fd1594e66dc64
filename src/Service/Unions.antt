-- ===== src/Service/Unions.antt =====
-- redis.cc: ZUNIONSTORE. `stol` and `stod` are the C++ library's, `one` and `mul` are of `double`.
pub mod Aggregates
pub mod Rounds
use pedis.Base.{
  ℕ, zero, suc, ◌+◌, ◌%◌, Bool, true, false, Option, none, some, List, [], ◌∷◌, ◌++◌, ◌==◌, ltb,
  if◌then◌else◌, not, ◌&&◌, length, take, drop, get_elem?,
}
use Prim.Native.Nat.{bit_or}
use pedis.Base.Int.{ℤ, pos, negsuc}
use pedis.Base.Bytes.{Bytes, bytes_eq}
use pedis.Double.{Double}
use pedis.DictLsa.{word}
use pedis.SsetLsa.{SsetEntry}
use pedis.Reply.Wire.{codes}
use pedis.Database.Strings.{to_word}
use pedis.Database.SortedSets
use pedis.Service.{Host, Number, Shards, Served, invoke_on, try_on, refuse, redis_key, cpu_of}

-- ZAGGREGATE_MIN, ZAGGREGATE_MAX and ZAGGREGATE_SUM
abbrev pub zaggregate_min : ℕ
zaggregate_min = 1

abbrev pub zaggregate_max : ℕ
zaggregate_max = 2

abbrev pub zaggregate_sum : ℕ
zaggregate_sum = 4

-- zset_args
pub record ZsetArgs (F : Type 0) : Type 0 where
  pub dest : Bytes
  pub numkeys : ℕ
  pub keys : List Bytes
  pub weights : List F
  pub aggregate_flag : ℕ

-- What the parser of the arguments comes to: `return false`, the arguments, or an exception or an
-- access past the end.
pub data Read (A : Type 0) : Type 0 where
  refused lost : Read A
  value : A → Read A

-- The flag that an aggregate sets.
unfoldable pub aggregate_of : Bytes → Option ℕ
aggregate_of aggre =
    if bytes_eq aggre (codes "SUM")
    then some zaggregate_sum
    else if bytes_eq aggre (codes "MIN")
    then some zaggregate_min
    else if bytes_eq aggre (codes "MAX")
    then some zaggregate_max
    else none

-- The state of the loop over the options.
pub record Options (F : Type 0) : Type 0 where
  pub index : ℕ
  pub weights : List F
  pub flag : ℕ
  pub has_weights : Bool
  pub has_aggregate : Bool

module _ {F : Type 0} (stod : Bytes → Number F) where
  -- `ureq.weights.push_back(std::stod(…))` of each argument
  unfoldable pub read_weights : List Bytes → Read (List F)
  read_weights [] = Read.value []
  read_weights (text ∷ texts) =
      let rest = read_weights texts in
      elim (stod text) [
        | Number.value x ↦ elim rest [
          | refused ↦ Read.refused
          | lost ↦ Read.lost
          | value l ↦ Read.value (x ∷ l)
        ]
        | Number.invalid_argument ↦ Read.refused
        | Number.out_of_range ↦ Read.lost
      ]

  -- The weights behind WEIGHTS; `end` is the index behind them, which may have wrapped around.
  unfoldable pub taken_weights : List Bytes → ℕ → ℕ → ℕ → Read (List F)
  unfolding read_weights
  taken_weights args numkeys begin end =
      if ltb end begin then Read.value [] else read_weights (take numkeys (drop begin args))

  -- `if (syntax == "WEIGHTS")`
  unfoldable pub weights_option : List Bytes → ℕ → Bytes → Options F → Read (Options F)
  unfolding taken_weights
  weights_option args numkeys syntax o =
      let begin = o.index + 1 in
      let end = (begin + numkeys) % word in
      if bytes_eq syntax (codes "WEIGHTS")
      then (if ltb (length args) end
          then Read.refused
          else (elim (taken_weights args numkeys begin end) [
            | refused ↦ Read.refused
            | lost ↦ Read.lost
            | value l ↦
                Read.value (record o { index = end; weights = o.weights ++ l; has_weights = true })
          ]))
      else Read.value o

  -- `if (syntax == "AGGREGATE")`
  unfoldable pub aggregate_option : List Bytes → Bytes → Options F → Read (Options F)
  unfolding aggregate_of
  aggregate_option args syntax o =
      if bytes_eq syntax (codes "AGGREGATE")
      then (if ltb (length args) (o.index + 1)
          then Read.refused
          else (elim (get_elem? args (o.index + 1)) [
            | none ↦ Read.lost
            | some aggre ↦ elim (aggregate_of aggre) [
              | none ↦ Read.refused
              | some flag ↦ Read.value (record o {
                index = o.index + 1;
                flag = bit_or o.flag flag;
                has_aggregate = true;
              })
            ]
          ]))
      else Read.value o

  -- `for (; index < req._args_count; ++index)`. Where the index does not fall there are as many
  -- rounds as arguments at most.
  unfoldable pub options_loop : ℕ → List Bytes → ℕ → Options F → Read (Options F)
  unfolding weights_option aggregate_option
  options_loop zero args numkeys o = Read.lost
  options_loop (suc rounds) args numkeys o = elim (get_elem? args o.index) [
    | none ↦ Read.value o
    | some syntax ↦ elim (weights_option args numkeys syntax o) [
      | refused ↦ Read.refused
      | lost ↦ Read.lost
      | value o1 ↦ elim (aggregate_option args syntax o1) [
        | refused ↦ Read.refused
        | lost ↦ Read.lost
        | value o2 ↦ options_loop rounds args numkeys (record o2 { index = o2.index + 1 })
      ]
    ]
  ]

module _ {F : Type 0} where
  unfoldable pub repeat : ℕ → F → List F
  repeat zero x = []
  repeat (suc n) x = x ∷ repeat n x

-- `for (size_t i = 2; i < index; ++i)`
abbrev pub keys_of : List Bytes → ℕ → ℕ → List Bytes
keys_of args numkeys index = if ltb index 2 then [] else take numkeys (drop 2 args)

-- The flag of `zset_args` is not initialised: `garbage` is what it holds.
module _ {F : Type 0} (stol : Bytes → Number ℤ) (stod : Bytes → Number F) (one : F)
    (garbage : ℕ) where
  -- The end of `parse_zset_args`
  unfoldable pub defaults : Bytes → ℕ → List Bytes → Options F → ZsetArgs F
  unfolding repeat
  defaults dest numkeys keys o = record {
    dest = dest;
    numkeys = numkeys;
    keys = keys;
    weights = if o.has_weights then o.weights else repeat numkeys one;
    aggregate_flag = if o.has_aggregate then o.flag else zaggregate_sum;
  }

  -- `parse_zset_args`; a negative number of keys wraps around, and a weight for each of more keys
  -- than there are arguments exhausts the memory.
  unfoldable pub parse_zset_args : List Bytes → Read (ZsetArgs F)
  unfolding options_loop defaults
  parse_zset_args (dest ∷ count ∷ first ∷ rest) =
      let args = dest ∷ count ∷ first ∷ rest in
      elim (stol count) [
        | Number.invalid_argument ↦ Read.refused
        | Number.out_of_range ↦ Read.lost
        | Number.value n ↦
            let numkeys = to_word n in
            let index = (numkeys + 2) % word in
            if ltb (length args) index
            then Read.refused
            else (elim (options_loop stod (length args + 1) args numkeys (record {
              index = index;
              weights = [];
              flag = garbage;
              has_weights = false;
              has_aggregate = false;
            })) [
              | refused ↦ Read.refused
              | lost ↦ Read.lost
              | value o ↦
                  if not o.has_weights && ltb (length args) numkeys
                  then Read.lost
                  else Read.value (defaults dest numkeys (keys_of args numkeys index) o)
            ])
      ]
  parse_zset_args _ = Read.refused

module _ {F : Type 0} ⦃D : Double F⦄ where
  -- `score_aggregation`
  unfoldable pub score_aggregation : F → F → ℕ → F
  score_aggregation old newscore flag =
      if flag == zaggregate_min
      then (if D.lt newscore old then newscore else old)
      else if flag == zaggregate_sum
      then D.add old newscore
      else if D.lt old newscore
      then newscore
      else old

  -- `result[key] = …`: a member that is there is aggregated, a new one keeps its score as it is.
  unfoldable pub add_score : (F → F → F) → F → ℕ → SsetEntry F → List (Bytes × F) → List (Bytes × F)
  unfolding score_aggregation
  add_score mul weight flag e [] = (e.key, e.score) ∷ []
  add_score mul weight flag e ((k, x) ∷ l) =
      let rest = add_score mul weight flag e l in
      if bytes_eq e.key k
      then (k, score_aggregation x (mul e.score weight) flag) ∷ l
      else (k, x) ∷ rest

  -- The loop over `range_result`
  unfoldable pub add_scores :
      (F → F → F) → F → ℕ → List (SsetEntry F) → List (Bytes × F) → List (Bytes × F)
  unfolding add_score
  add_scores mul weight flag [] result = result
  add_scores mul weight flag (e ∷ l) result =
      add_scores mul weight flag l (add_score mul weight flag e result)

-- `wkeys`: `none` reads past the end of the keys or of the weights.
unfoldable pub weighted : {F : Type 0} → ℕ → List Bytes → List F → Option (List (Bytes × F))
weighted zero keys weights = some []
weighted (suc n) (k ∷ keys) (w ∷ weights) = elim (weighted n keys weights) [
  | none ↦ none
  | some l ↦ some ((k, w) ∷ l)
]
weighted (suc n) _ _ = none

module _ {F S : Type 0} ⦃D : Double F⦄ (H : Host) (mul : F → F → F) where
  -- `state.result`, over the keys
  unfoldable pub read_union :
      List (Bytes × F) → ℕ → List (Bytes × F) → Shards F S → List (Bytes × F) × Shards F S
  unfolding add_scores
  read_union [] flag result m = (result, m)
  read_union ((key, weight) ∷ wkeys) flag result m0 =
      let handler = SortedSets.zrange_direct (redis_key H key) (pos 0) (negsuc 0) in
      let (entries, m1) = invoke_on (cpu_of H key) handler m0 in
      read_union wkeys flag (add_scores mul weight flag entries result) m1

  -- ZUNIONSTORE of the arguments that were read; `order` is that of the unordered map.
  unfoldable pub store_union :
      (List (Bytes × F) → List (Bytes × F)) → ZsetArgs F → Shards F S → Served F S
  unfolding weighted read_union
  store_union order a m0 = elim (weighted a.numkeys a.keys a.weights) [
    | none ↦ none
    | some wkeys ↦
        let (result, m) = read_union wkeys a.aggregate_flag [] m0 in
        try_on (cpu_of H a.dest)
          (SortedSets.zadds (redis_key H a.dest) (order result) SortedSets.zadd_ch) m
  ]

  unfoldable pub zunionstore :
      (Bytes → Number ℤ)
      → (Bytes → Number F)
      → F
      → ℕ
      → (List (Bytes × F) → List (Bytes × F))
      → List Bytes
      → Shards F S
      → Served F S
  unfolding parse_zset_args store_union
  zunionstore stol stod one garbage order args m =
      elim (parse_zset_args stol stod one garbage args) [
        | refused ↦ refuse m
        | lost ↦ none
        | value a ↦ store_union order a m
      ]
