-- ===== src/Service/Keyspace.antt =====
-- Which keys are there, over all shards, and what DEL and EXISTS make of several keys.
use pedis.Base.{
  ℕ, suc, ◌≡◌, Bool, List, [], ◌∷◌, arith, ◌==◌, ◌&&◌, not, if◌then◌else◌, Bool-cases, inl, inr,
}
use pedis.Base.Bytes.{Bytes, bytes_eq}
use pedis.Keys.{RedisKey, same_key, same_key→eq}
use pedis.Cache
use pedis.Cache.Table.{IsDistinct, erase_in-IsDistinct}
use pedis.Cache.Effects.{find-erase_entry}
use pedis.Reply.{Reply}
use pedis.Database
use pedis.Database.{Db, say}
use pedis.Service
use pedis.Service.{Host, Shards, Served, set_shard, invoke_on, redis_key, cpu_of}
use pedis.Service.Routing.{at-set_shard, same_key-redis_key, cpu_of-same}
use pedis.Service.Sets.{contains}

module _ {F S : Type 0} where
  -- The keys of each shard are distinct.
  abbrev pub AreDistinct : Shards F S → Type 0
  AreDistinct m = (c : ℕ) → IsDistinct (m c).cache.store

  -- A key is in the cache of the shard that owns it.
  unfoldable pub present : Host → Shards F S → Bytes → Bool
  present H m k = Cache.exists (redis_key H k) (m (cpu_of H k)).cache

  exists-erase_entry :
      (j k : RedisKey) (c : Cache.Cache F S)
      → IsDistinct c.store
      → Cache.exists j (Cache.erase_entry k c) ≡ (not (same_key j k) && Cache.exists j c)
  unfolding Cache.exists Cache.find
  exists-erase_entry j k c d = ground (arith, find-erase_entry j k c d)

  exists-del_direct :
      (j k : RedisKey) (db : Db F S)
      → IsDistinct db.cache.store
      → Cache.exists j (Database.Strings.del_direct k db).1.cache
        ≡ (not (same_key j k) && Cache.exists j db.cache)
  unfolding Database.Strings.del_direct Cache.exists Cache.find
  exists-del_direct j k db d = ground (arith, exists-erase_entry j k db.cache d, same_key→eq j k)

  del_direct-IsDistinct :
      (k : RedisKey) (db : Db F S)
      → IsDistinct db.cache.store
      → IsDistinct (Database.Strings.del_direct k db).1.cache.store
  unfolding Database.Strings.del_direct Cache.erase_entry
  del_direct-IsDistinct k db d = ground (arith, erase_in-IsDistinct k db.cache.store d)

module _ {F S : Type 0} (H : Host) where
  present-remove_impl :
      (k key : Bytes) (m : Shards F S)
      → AreDistinct m
      → present H (Service.Strings.remove_impl H key m).1 k
        ≡ (not (bytes_eq k key) && present H m k)
  unfolding Service.Strings.remove_impl present invoke_on
  present-remove_impl k key m d =
      let db' = (Database.Strings.del_direct (redis_key H key) (m (cpu_of H key))).1 in
      ground (
        arith,
        at-set_shard (cpu_of H key) db' m (cpu_of H k),
        exists-del_direct (redis_key H k) (redis_key H key) (m (cpu_of H key)) (d (cpu_of H key)),
        same_key-redis_key H k key,
        cpu_of-same H k key,
      )

  pub on_shard-IsDistinct :
      (cpu : ℕ) (db : Db F S) (m : Shards F S)
      → AreDistinct m
      → IsDistinct db.cache.store
      → AreDistinct (set_shard cpu db m)
  unfolding set_shard
  on_shard-IsDistinct cpu db m d h c = elim (Bool-cases (c == cpu)) [
    | inl same ↦ rw same h
    | inr other ↦ rw other (d c)
  ]

  remove_impl-AreDistinct :
      (key : Bytes) (m : Shards F S)
      → AreDistinct m
      → AreDistinct (Service.Strings.remove_impl H key m).1
  unfolding Service.Strings.remove_impl invoke_on
  remove_impl-AreDistinct key m d =
      on_shard-IsDistinct (cpu_of H key) _ m d
        (del_direct-IsDistinct (redis_key H key) (m (cpu_of H key)) (d (cpu_of H key)))

  -- The different keys of a request that are there, apart from those of `seen`.
  unfoldable pub held : Shards F S → List Bytes → List Bytes → ℕ
  held m seen [] = 0
  held m seen (k ∷ keys) =
      let rest = held m (k ∷ seen) keys in
      if present H m k && not (contains k seen) then suc rest else rest

  -- DEL takes away the keys that it names, and no other.
  pub present-remove_all :
      (k : Bytes) (keys : List Bytes) (m : Shards F S)
      → AreDistinct m
      → present H (Service.Strings.remove_all H keys m).1 k
        ≡ (not (contains k keys) && present H m k)
  unfolding Service.Strings.remove_all contains
  present-remove_all k [] m d = ground arith
  present-remove_all k (key ∷ keys) m d =
      let m1 = (Service.Strings.remove_impl H key m).1 in
      ground (
        arith,
        present-remove_all k keys m1 (remove_impl-AreDistinct key m d),
        present-remove_impl k key m d,
      )

  unfoldable pub count_present : Shards F S → List Bytes → ℕ
  count_present m [] = 0
  count_present m (k ∷ keys) =
      let rest = count_present m keys in if present H m k then suc rest else rest
