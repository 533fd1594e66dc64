-- ===== src/Tests/Cores.antt =====
-- The theorems on the service at concrete inputs: two shards, with one key on the second.
use pedis.Base.Bytes.Order.{bytes_eq→eq}
use mathlib.Core.Option
use pedis.SsetLsa
use pedis.Database.SortedSets.{zadd_ch, zadd_sset}
use pedis.Database.Laws.SortedSets.{first_score, or_else}
use pedis.Service.Scores.Given.{score-read_scores, first_given, IsOrderOf}
use pedis.Service.SortedSets.{emplace_score, read_scores}
use pedis.Ordered
use pedis.DictLsa.{dict_key}
use pedis.Base.{
  arith, ◌||◌, is_empty, none, ℕ, ◌+◌, ◌≡◌, refl, true, some, List, [], ◌∷◌, map, ◌==◌, ◌&&◌, not,
  if◌then◌else◌, length, Bool-cases, inl, inr,
}
use pedis.Base.Int.{ℤ, pos}
use pedis.Base.Bytes.{Bytes, bytes_eq}
use pedis.Keys.{RedisKey, same_key}
use pedis.DictLsa.{fetch_keys}
use pedis.Cache
use pedis.Cache.{Value}
use pedis.Reply.{Message, Reply}
use pedis.Database.{flag_reply, say}
use pedis.Database.Laws.Strings.{set_refused}
use pedis.Service
use pedis.Service.{Host, Shards, redis_key, cpu_of}
use pedis.Service.Sets.{contains, first_set, other_sets}
use pedis.Service.Routing.{replied, get-set_request}
use pedis.Service.Keyspace.{AreDistinct}
use pedis.Service.Members.{members_at, sdiff-sunion, sinter-members, sinter-missing}
use pedis.Service.Algebra.{in_some, in_all}
use pedis.SsetLsa.{score}
use pedis.Service.{Number}
use pedis.Service.Scores.{zscore-zadd_incr}
use pedis.Service.Moves.{smove-missing}
use pedis.Service.Options.{SetOption, option_args, asked, set_options-option_args}
use pedis.Reply.Wire.{codes}
use pedis.Service.Unions.{zunionstore, store_union}
use pedis.Service.Unions.Aggregates.{weights_args, summed, zunionstore-aggregate}
use pedis.Tests.Instances.{key_timers, natural_scores}
use pedis.Tests.Data.{db_with, db_empty, db_with-IsValid, db_empty-IsValid, two_fields, two_scores}

abbrev first_code : Bytes → ℕ
first_code [] = 6
first_code (c ∷ s) = c + 6

abbrev pub host : Host
host = record {
  hash = first_code;
  count = 2;
  atoi = λ s. pos (length s);
  atol = λ s. pos (length s);
}

abbrev pub a_key : Bytes
a_key = 1 ∷ []

abbrev pub b_key : Bytes
b_key = 2 ∷ []

abbrev cores : Value ℕ → Shards ℕ (List RedisKey)
cores v c = if c == 1 then db_with v else db_empty

pub cores-AreDistinct : (v : Value ℕ) → AreDistinct (cores v)
cores-AreDistinct v c = elim (Bool-cases (c == 1)) [
  | inl same ↦ rw same (db_with-IsValid v).distinct
  | inr other ↦ rw other db_empty-IsValid.distinct
]

abbrev pub texts : Shards ℕ (List RedisKey)
texts = cores (Value.bytes (5 ∷ []))

abbrev sets : Shards ℕ (List RedisKey)
sets = cores (Value.set two_fields)

abbrev ten : Bytes
ten = 49 ∷ 48 ∷ []

abbrev both : List SetOption
both = SetOption.seconds ten ∷ SetOption.if_missing ∷ []

set_options-option_args_example :
    Service.Strings.set_options host (option_args true both) (pos 0) 1
    ≡ some (asked host both (pos 0) 1)
set_options-option_args_example = set_options-option_args host true both (pos 0) 1

get-set_request_example :
    let refused = set_refused (redis_key host b_key) 1 (texts (cpu_of host b_key)) in
    (m' : Shards ℕ (List RedisKey)) × (Service.Strings.set host
        (pos 3)
        (b_key ∷ (9 ∷ []) ∷ [])
        texts
      ≡ some (say (if refused then Message.nil else Message.ok), m'))
    × (replied (Service.Strings.get host (a_key ∷ []) m') ≡ (
        if bytes_eq a_key b_key && not refused
        then some (Reply.entry (some (Value.bytes (9 ∷ []))))
        else replied (Service.Strings.get host (a_key ∷ []) texts)))
get-set_request_example =
    get-set_request host (pos 3) b_key (9 ∷ []) a_key [] (pos 0) 1 texts
      (cores-AreDistinct (Value.bytes (5 ∷ [])) (cpu_of host b_key))
      (unfold Service.Strings.set_options in refl)

sdiff-sunion_example :
    let all = a_key ∷ b_key ∷ [] in
    let found = map (members_at host sets) all in
    ((d : List Bytes) × (m' : Shards ℕ (List RedisKey)) × (Service.Sets.combine host
          (Service.Sets.sdiff_impl host)
          all
          sets
        ≡ some (Reply.bulks d, m'))
      × ((x : Bytes)
          → contains x d ≡ (contains x (first_set found) && not (in_some x (other_sets found)))))
    × ((u : List Bytes) × (m' : Shards ℕ (List RedisKey)) × (Service.Sets.combine host
            (Service.Sets.sunion_impl host)
            all
            sets
          ≡ some (Reply.bulks u, m'))
        × ((x : Bytes) → contains x u ≡ in_some x found))
sdiff-sunion_example = sdiff-sunion host a_key b_key [] sets

sinter-members_example :
    let all = b_key ∷ a_key ∷ [] in
    (i : List Bytes) × (m' : Shards ℕ (List RedisKey)) × (Service.Sets.combine host
        (Service.Sets.sinter_impl host)
        all
        sets
      ≡ some (Reply.bulks i, m'))
    × ((x : Bytes) → contains x i ≡ in_all x (map (members_at host sets) all))
sinter-members_example = sinter-members host b_key a_key [] sets (
    unfold Service.Algebra.none_empty members_at fetch_keys Cache.find Cache.find_in same_key
      bytes_eq in
    refl)

sinter-missing_example :
    (m' : Shards ℕ (List RedisKey)) × (Service.Sets.sinter_impl host
        (a_key ∷ b_key ∷ [])
        (some (8 ∷ []))
        sets
      ≡ some (Reply.bulks (members_at host sets a_key), m'))
    × ((c : ℕ) → (m' c).cache ≡ (sets c).cache)
sinter-missing_example =
    sinter-missing host a_key b_key [] (some (8 ∷ [])) sets
      (unfold members_at Cache.find Cache.find_in same_key bytes_eq in refl)

abbrev six : Bytes
six = 6 ∷ []

smove-missing_example :
    (m' : Shards ℕ (List RedisKey)) × (Service.Sets.smove host (b_key ∷ a_key ∷ six ∷ []) sets
      ≡ some (say Message.one, m'))
    × (replied (Service.Sets.sismember host (a_key ∷ six ∷ []) m')
        ≡ some (flag_reply (is_empty six || Ordered.exists dict_key six two_fields)))
smove-missing_example =
    smove-missing host b_key a_key six six sets two_fields
      (unfold Cache.find Cache.find_in same_key bytes_eq in refl)
      (unfold Cache.find Cache.find_in same_key bytes_eq in refl)

abbrev incr_text : Bytes
incr_text = 73 ∷ 110 ∷ 99 ∷ 82 ∷ []

abbrev pub count_text : Bytes → Number ℕ
count_text s = Number.value (length s)

abbrev ranked : Shards ℕ (List RedisKey)
ranked = cores (Value.sset two_scores)

zscore-zadd_incr_example :
    let result : ℕ = elim (score (3 ∷ []) two_scores) [
      | none ↦ 2
      | some x ↦ natural_scores.add 2 x
    ] in
    (m' : Shards ℕ (List RedisKey)) × (Service.SortedSets.zadd host count_text
        (λ l. l)
        (a_key ∷ incr_text ∷ ten ∷ (3 ∷ []) ∷ [])
        ranked
      ≡ some (Reply.double result, m'))
    × (replied (Service.SortedSets.zscore host (a_key ∷ (3 ∷ []) ∷ []) m')
        ≡ some (Reply.double result))
zscore-zadd_incr_example =
    zscore-zadd_incr host count_text (λ l. l) a_key incr_text ten (3 ∷ []) 2 two_scores ranked
      (unfold Service.SortedSets.zadd_mode bytes_eq in refl) refl
      (unfold Cache.find Cache.find_in same_key bytes_eq in refl)

abbrev two_keys : Bytes → Number ℤ
two_keys s = Number.value (pos 2)

zunionstore-aggregate_example :
    let dest : Bytes = 4 ∷ [] in
    let summed_up =
      store_union host natural_scores.add (λ l. l) (summed dest a_key b_key 2 1) ranked in
    (zunionstore host natural_scores.add two_keys count_text 1 7
        (λ l. l)
        (weights_args dest ten a_key b_key ten a_key (codes "AGGREGATE" ∷ codes "MAX" ∷ []))
        ranked
      ≡ summed_up)
    × (zunionstore host natural_scores.add two_keys count_text 1 7
          (λ l. l)
          (weights_args dest ten a_key b_key ten a_key [])
          ranked
        ≡ summed_up)
zunionstore-aggregate_example =
    zunionstore-aggregate host natural_scores.add two_keys count_text 1 7 (λ l. l) (4 ∷ []) ten
      a_key b_key ten a_key (codes "MAX") 2 1 ranked refl refl refl (unfold bytes_eq in refl)
      (unfold bytes_eq in refl)

-- Two scores for one member, and one for another
abbrev score_args : List Bytes
score_args = [] ∷ (3 ∷ []) ∷ (7 ∷ []) ∷ (3 ∷ []) ∷ (7 ∷ []) ∷ (5 ∷ []) ∷ []

abbrev read_in : List (Bytes × ℕ)
read_in = (3 ∷ [], 0) ∷ (5 ∷ [], 1) ∷ []

-- The map may give its entries in another order.
abbrev given : List (Bytes × ℕ)
given = (5 ∷ [], 1) ∷ (3 ∷ [], 0) ∷ []

same-given : (j : Bytes) → first_score j given ≡ first_score j read_in
unfolding first_score
same-given j = ground (arith, bytes_eq→eq j (3 ∷ []), bytes_eq→eq j (5 ∷ []))

given-IsOrderOf : IsOrderOf read_in given
given-IsOrderOf = record {
  once = (unfold first_score bytes_eq in refl, (unfold first_score in refl, tt));
  same = same-given;
}

score-read_scores_example :
    Option.map (λ r. SsetLsa.score (3 ∷ []) r.0) (zadd_sset given zadd_ch two_scores)
    ≡ some
        (or_else (first_given count_text (3 ∷ []) score_args) (SsetLsa.score (3 ∷ []) two_scores))
score-read_scores_example =
    score-read_scores count_text (3 ∷ []) score_args read_in given two_scores
      (unfold read_scores emplace_score bytes_eq in refl) given-IsOrderOf
