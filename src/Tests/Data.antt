-- ===== src/Tests/Data.antt =====
-- Small databases, and what the cache finds in them.
use pedis.Base.{ℕ, ◌≡◌, refl, none, some, List, [], ◌∷◌, arith}
use pedis.Base.Int.{pos}
use pedis.Base.Bytes
use pedis.Base.Bytes.{Bytes, bytes_eq}
use pedis.DictLsa.{Dict, DictValue, dict_key}
use pedis.Ordered
use pedis.Ordered.Sorted.{IsSorted}
use pedis.SsetLsa.{Sset, SsetEntry}
use pedis.SsetLsa
use pedis.SsetLsa.Links
use pedis.SsetLsa.Placement.{IsOrdered}
use pedis.Keys.{RedisKey, same_key, TimePoint}
use pedis.TimerSet.{holds}
use pedis.Cache
use pedis.Cache.{Cache, CacheEntry, Value, find_in}
use pedis.Cache.Timers
use pedis.Cache.Timers.{expires}
use pedis.Database.{Db}
use pedis.Database.Sound.{IsSound}
use pedis.Tests.Instances.{key_timers, natural_scores}

abbrev pub key1 : RedisKey
key1 = record { key = 1 ∷ []; hash = 7 }

abbrev pub key2 : RedisKey
key2 = record { key = 2 ∷ []; hash = 9 }

abbrev pub entry_of : RedisKey → Value ℕ → TimePoint → CacheEntry ℕ
entry_of k v t = record { key = k.key; key_hash = k.hash; value = v; timeout = t }

abbrev pub db_of : List (CacheEntry ℕ) → List RedisKey → Db ℕ (List RedisKey)
db_of l alive = record {
  cache = record { store = l; alive = alive; timer = none };
  stats = λ _. 0;
  log = [];
}

-- One key, without a timeout and with one.
abbrev pub db_with : Value ℕ → Db ℕ (List RedisKey)
db_with v = db_of (entry_of key1 v none ∷ []) []

abbrev pub db_dying : Value ℕ → Db ℕ (List RedisKey)
db_dying v = db_of (entry_of key1 v (some (pos 5)) ∷ []) (key1 ∷ [])

abbrev pub db_empty : Db ℕ (List RedisKey)
db_empty = db_of [] []

pub found_with : (v : Value ℕ) → Cache.find key1 (db_with v).cache ≡ some (entry_of key1 v none)
unfolding Cache.find find_in same_key bytes_eq
found_with v = refl

pub found_dying :
    (v : Value ℕ) → Cache.find key1 (db_dying v).cache ≡ some (entry_of key1 v (some (pos 5)))
unfolding Cache.find find_in same_key bytes_eq
found_dying v = refl

pub absent_empty : Cache.find key1 db_empty.cache ≡ none
unfolding Cache.find find_in
absent_empty = refl

pub db_empty-IsValid : Timers.IsValid db_empty.cache
unfolding Cache.find find_in holds
db_empty-IsValid = record { distinct = tt; armed = λ k. refl }

pub db_with-IsValid : (v : Value ℕ) → Timers.IsValid (db_with v).cache
unfolding Cache.find find_in holds
db_with-IsValid v = record { distinct = (refl, tt); armed = λ k. ground arith }

pub db_dying-IsValid : (v : Value ℕ) → Timers.IsValid (db_dying v).cache
unfolding Cache.find find_in holds
db_dying-IsValid v = record { distinct = (refl, tt); armed = λ k. ground arith }

pub db_dying-IsSound : (b : Bytes) → IsSound (db_dying (Value.bytes b)).cache
unfolding Cache.find find_in
db_dying-IsSound b = record {
  valid = db_dying-IsValid (Value.bytes b);
  values = λ k e h. ground (arith, h);
}

-- A hash or set of two fields, and a sorted set of two members.
abbrev pub two_fields : Dict ℕ
two_fields =
    record { key = 3 ∷ []; value = DictValue.bytes (30 ∷ []) }
    ∷ record { key = 4 ∷ []; value = DictValue.bytes (40 ∷ []) }
    ∷ []

pub two_fields-IsSorted : IsSorted dict_key two_fields
unfolding Bytes.compare_impl
two_fields-IsSorted = ((refl, tt), (tt, tt))

abbrev pub two_scores : Sset ℕ
two_scores = record {
  dict = record { key = 3 ∷ []; score = 20 } ∷ record { key = 4 ∷ []; score = 10 } ∷ [];
  list = record { key = 4 ∷ []; score = 10 } ∷ record { key = 3 ∷ []; score = 20 } ∷ [];
}

pub two_scores-IsOrdered : IsOrdered two_scores.list
two_scores-IsOrdered = (((refl, tt), refl), ((tt, refl), tt))

abbrev pub one_score : Sset ℕ
one_score = record {
  dict = record { key = 3 ∷ []; score = 20 } ∷ [];
  list = record { key = 3 ∷ []; score = 20 } ∷ [];
}

pub one_score-IsValid : Links.IsValid one_score
unfolding SsetLsa.insert SsetLsa.insert_ordered Ordered.insert Ordered.find
one_score-IsValid =
    Links.insert-IsValid (record { key = 3 ∷ []; score = 20 }) SsetLsa.empty
      (unfold Ordered.find in refl) refl Links.empty-IsValid
