-- ===== src/Tests/Collections.antt =====
-- The theorems on hashes, sets and sorted sets at concrete inputs.
use pedis.Base.{
  ℕ, ◌≡◌, refl, ap, none, some, List, [], ◌∷◌, if◌then◌else◌, ◌&&◌, ◌||◌, not, ◌+◌, ◌==◌, length,
  drop, take, is_empty,
}
use pedis.Base.Bytes.{Bytes, bytes_eq}
use pedis.DictLsa.{Dict, DictValue, dict_key}
use pedis.Ordered
use pedis.SsetLsa.{score, erase_keys, insert_ordered, insert_or_update}
use pedis.SsetLsa.Links.{IsValid}
use pedis.SsetLsa.Placement.{place, insert_ordered-place}
use pedis.SsetLsa.Updates.{among, score-erase_keys, insert_or_update-IsValid}
use pedis.SsetLsa.Range.{fetch_by_score, count_by_score, rank_range}
use pedis.SsetLsa.Range.Ranks.{within, fetch_by_score-within, rank_range-take}
use pedis.Cache
use pedis.Cache.{Value}
use pedis.Reply.{Reply}
use pedis.Database.{Db, flag_reply}
use pedis.Database.Hashes
use pedis.Database.Hashes.{erase_loop, field_entry}
use pedis.Database.Sets
use pedis.Database.Laws.Hashes.{hash_at, hash_of, hget-hset, hash_at-hdel_multi, named}
use pedis.Database.Laws.Sets.{set_at, set_of, sismember-sadds}
use pedis.Database.Laws.SortedSets.{sset_at, sset_of}
use pedis.Keys.{RedisKey}
use pedis.Tests.Instances.{key_timers, natural_scores}
use pedis.Tests.Data.{
  two_fields-IsSorted, key1, db_with, found_with, db_with-IsValid, two_fields, two_scores,
  two_scores-IsOrdered, one_score, one_score-IsValid,
}

abbrev hashed : Db ℕ (List RedisKey)
hashed = db_with (Value.dict two_fields)

abbrev gathered : Db ℕ (List RedisKey)
gathered = db_with (Value.set two_fields)

abbrev ranked : Db ℕ (List RedisKey)
ranked = db_with (Value.sset two_scores)

hashed_at : hash_at key1 hashed ≡ some two_fields
hashed_at = ap (λ o. hash_of o) (found_with (Value.dict two_fields))

gathered_at : set_at key1 gathered ≡ some two_fields
gathered_at = ap (λ o. set_of o) (found_with (Value.set two_fields))

ranked_at : sset_at key1 ranked ≡ some two_scores
ranked_at = ap (λ o. sset_of o) (found_with (Value.sset two_scores))

hget-hset_example :
    (Hashes.hget key1 (3 ∷ []) (Hashes.hset key1 (3 ∷ []) (9 ∷ []) hashed).1).0
    ≡ Reply.field (
        if bytes_eq (3 ∷ []) (3 ∷ []) && not (Ordered.exists dict_key (3 ∷ []) two_fields)
        then some (field_entry (3 ∷ []) (DictValue.bytes (9 ∷ [])))
        else Ordered.find dict_key (3 ∷ []) two_fields)
hget-hset_example = hget-hset key1 (3 ∷ []) (3 ∷ []) (9 ∷ []) hashed two_fields hashed_at

abbrev fields : List Bytes
fields = (3 ∷ []) ∷ (4 ∷ []) ∷ []

hash_at-hdel_multi_example :
    (d' : Dict ℕ) × (n : ℕ) × ((Hashes.hdel_multi key1 fields hashed).0 ≡ Reply.size n)
    × (hash_at key1 (Hashes.hdel_multi key1 fields hashed).1 ≡ some d')
    × (length d' + n ≡ length two_fields)
    × ((j : Bytes)
        → Ordered.find dict_key j d'
          ≡ (if named j fields then none else Ordered.find dict_key j two_fields))
    × (Cache.exists key1 (Hashes.hdel_multi key1 fields hashed).1.cache ≡ not (is_empty d'))
hash_at-hdel_multi_example =
    hash_at-hdel_multi key1 fields hashed two_fields (db_with-IsValid (Value.dict two_fields))
      (found_with (Value.dict two_fields)) refl two_fields-IsSorted

sismember-sadds_example :
    (Sets.sismember key1 (5 ∷ []) (Sets.sadds key1 ((5 ∷ []) ∷ []) gathered).1).0
    ≡ flag_reply (named (5 ∷ []) ((5 ∷ []) ∷ []) || Ordered.exists dict_key (5 ∷ []) two_fields)
sismember-sadds_example =
    sismember-sadds key1 (5 ∷ []) ((5 ∷ []) ∷ []) gathered two_fields gathered_at

score-erase_keys_example :
    score (3 ∷ []) (erase_keys ((3 ∷ []) ∷ []) one_score).0
    ≡ (if among (3 ∷ []) ((3 ∷ []) ∷ []) then none else score (3 ∷ []) one_score)
score-erase_keys_example = score-erase_keys (3 ∷ []) ((3 ∷ []) ∷ []) one_score one_score-IsValid

insert_or_update-IsValid_example : IsValid (insert_or_update (4 ∷ []) 10 one_score).0
insert_or_update-IsValid_example =
    insert_or_update-IsValid (4 ∷ []) 10 one_score refl one_score-IsValid

fetch_by_score-within_example :
    (fetch_by_score 15 25 0 two_scores ≡ within 15 25 two_scores.list)
    × (count_by_score 15 25 two_scores ≡ length (within 15 25 two_scores.list))
fetch_by_score-within_example = fetch_by_score-within 15 25 two_scores two_scores-IsOrdered

rank_range-take_example :
    rank_range 0 1 two_scores.list ≡ (if 1 == 0 then [] else drop 0 (take (1 + 1) two_scores.list))
rank_range-take_example = rank_range-take 0 1 two_scores.list

insert_ordered-place_example :
    insert_ordered (record { key = 5 ∷ []; score = 15 }) two_scores.list
    ≡ place (record { key = 5 ∷ []; score = 15 }) two_scores.list
insert_ordered-place_example =
    insert_ordered-place (record { key = 5 ∷ []; score = 15 }) two_scores.list
