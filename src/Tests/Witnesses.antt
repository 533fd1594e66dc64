-- ===== src/Tests/Witnesses.antt =====
-- The theorems on the cache and the shard at concrete inputs.
use pedis.Base.{
  sym, subst, arith, ℕ, ◌≡◌, refl, none, some, List, [], ◌∷◌, if◌then◌else◌, true, false, ◌&&◌, not,
}
use pedis.Base.Int.{pos}
use pedis.Base.Bytes.{Bytes, bytes_eq}
use pedis.Keys.{RedisKey, same_key}
use pedis.TimerSet.{holds}
use pedis.Cache
use pedis.Cache.{CacheEntry, Value, new_entry, find_in}
use pedis.Cache.Effects
use pedis.Cache.Effects.{stamped}
use pedis.Database.{flag_reply, Stat, bump, with_cache, Db}
use pedis.Database.Strings
use pedis.Database.Hashes
use pedis.Database.SortedSets
use pedis.Database.Expiry
use pedis.Database.Sound.{IsSound}
use pedis.Database.Steps.{Step, Reach}
use pedis.Database.Steps.Reachable
use pedis.Service.{Shards, set_shard, get_cpu}
use pedis.Service.Ownership.{Runs, Owns, Runs-Owns}
use pedis.Tests.Cores.{host}
use pedis.Tests.Instances.{key_timers, natural_scores}
use pedis.Tests.Data.{key1, db_dying, db_empty, db_dying-IsValid, db_dying-IsSound}

abbrev hello : Bytes
hello = 104 ∷ 105 ∷ []

abbrev hashed : Db ℕ (List RedisKey)
hashed = (Hashes.hset key1 hello hello db_empty).1

fresh_empty : db_empty.cache ≡ Expiry.fresh
unfolding Expiry.fresh
fresh_empty = refl

-- Then EXPIRE of the same key, and ZINCRBY of another one.
abbrev timed : Db ℕ (List RedisKey)
timed = with_cache (Cache.give_expiry (pos 1) key1 (pos 8) hashed.cache).0 (bump Stat.expire hashed)

expire-hashed : Strings.expire (pos 1) key1 (pos 8) hashed ≡ some (flag_reply true, timed)
unfolding Strings.expire Cache.expire Cache.give_expiry Cache.exists Cache.find_in same_key bytes_eq
    Hashes.hset Hashes.hset_dict Cache.find Cache.insert Cache.insert_in Cache.assign
    Cache.modify_in holds
expire-hashed = refl

expire_step : Step key1 hashed timed
expire_step =
    Step.expire (pos 1) (pos 8) (flag_reply true, timed) (λ q. ground (arith, q)) expire-hashed

abbrev key2 : RedisKey
key2 = record { key = 2 ∷ []; hash = 5 }

abbrev scored : Db ℕ (List RedisKey)
scored = (SortedSets.zincrby key2 hello 3 timed).1

scored-Reach : Reach scored
scored-Reach =
    Reach.request key2
      (Reach.request key1
        (Reach.request key1 (Reach.start db_empty fresh_empty) (Step.hset hello hello)) expire_step)
      (Step.zincrby hello 3 (λ x q. refl))

Reach-IsSound_example : IsSound scored.cache
Reach-IsSound_example = Reachable.Reach-IsSound scored-Reach

erase_expired_entries_example :
    (db' : Db ℕ (List RedisKey)) × (Expiry.erase_expired_entries
        (pos 9)
        (db_dying (Value.bytes hello))
      ≡ some db')
    × ((j : RedisKey)
        → Cache.find j db'.cache ≡ (
            if holds j (key_timers.expire (pos 9) (key1 ∷ [])).0
            then none
            else Cache.find j (db_dying (Value.bytes hello)).cache))
    × IsSound db'.cache
erase_expired_entries_example =
    Expiry.erase_expired_entries-IsSound (pos 9) (db_dying (Value.bytes hello))
      (db_dying-IsSound hello)

find-insert_if_example :
    Cache.find key1
      (Cache.insert_if
        (pos 1)
        (new_entry key1 (Value.bytes hello))
        (pos 8)
        false
        true
        (db_dying (Value.bytes [])).cache).0
    ≡ (if not (Effects.is_refused false true (Cache.exists key1 (db_dying (Value.bytes [])).cache))
          && same_key key1 key1
        then some (stamped (pos 1) (pos 8) (new_entry key1 (Value.bytes hello)))
        else Cache.find key1 (db_dying (Value.bytes [])).cache)
find-insert_if_example =
    Effects.find-insert_if key1 (pos 1) (new_entry key1 (Value.bytes hello)) (pos 8) false true
      (db_dying (Value.bytes [])).cache (db_dying-IsValid (Value.bytes [])).distinct

abbrev empties : Shards ℕ (List RedisKey)
empties c = db_empty

abbrev after_hset : Shards ℕ (List RedisKey)
after_hset = set_shard (get_cpu host key1) hashed empties

abbrev after_expire : Shards ℕ (List RedisKey)
after_expire = set_shard (get_cpu host key1) timed after_hset

hset-shard : after_hset (get_cpu host key1) ≡ hashed
unfolding set_shard
hset-shard = refl

after_expire-Runs : Runs host after_expire
after_expire-Runs =
    Runs.request key1 timed
      (Runs.request key1 hashed (Runs.start empties (λ c. fresh_empty)) (Step.hset hello hello))
      (subst (λ db. Step key1 db timed) (sym hset-shard) expire_step)

Runs-Owns_example : Owns host 1 (after_expire 1)
Runs-Owns_example = Runs-Owns host after_expire-Runs 1
