-- ===== src/Database/Expiry.antt =====
-- cache.hh and db.cc: the entries whose time is over, the destructor's `flush_all`, and the state in
-- which a shard starts.
use pedis.Base.{
  ◌≡◌, refl, true, false, Option, none, some, List, [], ◌∷◌, arith, if◌then◌else◌, Option-cases,
  inl, inr, ap, sym, subst, ◌∙◌,
}
use mathlib.Core.Option
use pedis.Base.Int.{ℤ}
use pedis.Double.{Double}
use pedis.Keys.{RedisKey, same_key→eq, same_key_refl}
use pedis.TimerSet.{TimerSet, holds, IsOnce}
use pedis.Cache
use pedis.Cache.{Cache, CacheEntry, Value, disarm, entry_key, find_in}
use pedis.Cache.Timers
use pedis.Cache.Timers.{expires}
use pedis.Cache.Table.{IsDistinct, erase_in-IsDistinct}
use pedis.Cache.Effects.{find-erase_entry}
use pedis.Database.{Stat, Db, drop, with_cache}
use pedis.Database.Sound.{IsSound}

-- The counter that the releaser lowers; `dict` is not one of its cases.
unfoldable pub released_stat : {F : Type 0} → Value F → Option Stat
released_stat (Value.numeric x) = some Stat.total_counter_entries
released_stat (Value.int64 n) = some Stat.total_counter_entries
released_stat (Value.bytes b) = some Stat.total_string_entries
released_stat (Value.list l) = some Stat.total_list_entries
released_stat (Value.set d) = some Stat.total_set_entries
released_stat (Value.sset s) = some Stat.total_zset_entries
released_stat (Value.hll b) = some Stat.total_hll_entries
released_stat (Value.dict d) = none

module _ {F S : Type 0} where
  abbrev pub lower : Option Stat → Db F S → Db F S
  lower none db = db
  lower (some t) db = drop t db

  -- `_expired_entry_releaser(*entry)`, for the entry of this key; `none` where the entry is freed
  -- already.
  unfoldable pub release : RedisKey → Db F S → Option (Db F S)
  unfolding released_stat
  release k db = elim (Cache.find k db.cache) [
    | none ↦ none
    | some e ↦ some (lower (released_stat e.value) (with_cache (Cache.erase_entry k db.cache) db))
  ]

  -- `while (!expired_entries.empty())`
  unfoldable pub release_all : List RedisKey → Db F S → Option (Db F S)
  unfolding release
  release_all [] db = some db
  release_all (k ∷ keys) db = elim (release k db) [ none ↦ none | some db' ↦ release_all keys db' ]

module _ {F S : Type 0} ⦃T : TimerSet S⦄ where
  abbrev pub rearmed : Db F S → Db F S
  rearmed db =
      with_cache (record (db.cache) { timer = some (T.get_next_timeout db.cache.alive) }) db

  abbrev pub with_alive : S → Db F S → Db F S
  with_alive alive db = with_cache (record (db.cache) { alive = alive }) db

  -- `erase_expired_entries`, and the timer that is armed again
  unfoldable pub erase_expired_entries : ℤ → Db F S → Option (Db F S)
  unfolding release_all
  erase_expired_entries now db =
      let (due, alive) = T.expire now db.cache.alive in
      Option.map rearmed (release_all due (with_alive alive db))

  disarm_all : List (CacheEntry F) → S → S
  disarm_all [] s = s
  disarm_all (e ∷ l) s = disarm_all l (disarm e s)

  -- `flush_all`
  unfoldable pub flush_all : Cache F S → Cache F S
  unfolding disarm_all
  flush_all c = record c { store = []; alive = disarm_all c.store c.alive }

  -- The cache that `cache()` and `set_expired_entry_releaser` leave.
  unfoldable pub fresh : Cache F S
  fresh = record { store = []; alive = T.clear; timer = none }

-- What the loop leaves.
pub record Released {F S : Type 0} (keys : List RedisKey) (before after : Db F S) : Type 0 where
  pub gone :
      (j : RedisKey)
      → Cache.find j after.cache ≡ (if holds j keys then none else Cache.find j before.cache)
  pub distinct : IsDistinct after.cache.store
  pub timers : after.cache.alive ≡ before.cache.alive

module _ {F S : Type 0} where
  cache-lower : (t : Option Stat) (db : Db F S) → (lower t db).cache ≡ db.cache
  cache-lower none db = refl
  cache-lower (some t) db = refl

  release-Released :
      (k : RedisKey) (db : Db F S)
      → IsDistinct db.cache.store
      → expires (Cache.find k db.cache) ≡ true
      → (db' : Db F S) × (release k db ≡ some db') × Released (k ∷ []) db db'
  unfolding release holds
  release-Released k db d h = elim (Option-cases (Cache.find k db.cache)) [
    | inl absent ↦ ground (arith, h, absent)
    | inr (e, found) ↦
        let c = Cache.erase_entry k db.cache in
        let db' = lower (released_stat e.value) (with_cache c db) in
        let same : db'.cache ≡ c = cache-lower (released_stat e.value) (with_cache c db) in
        (
          db',
          rw (found, release) refl,
          record {
            gone = λ j. ground (arith, ap (Cache.find j) same, find-erase_entry j k db.cache d);
            distinct =
                subst (λ x. IsDistinct x.store) (sym same)
                  (unfold Cache.erase_entry in erase_in-IsDistinct k db.cache.store d);
            timers =
                subst (λ x. x.alive ≡ db.cache.alive) (sym same) (unfold Cache.erase_entry in refl);
          },
        )
  ]

  Released-then :
      (k : RedisKey) (keys : List RedisKey) (db db1 db2 : Db F S)
      → Released (k ∷ []) db db1
      → Released keys db1 db2
      → Released (k ∷ keys) db db2
  unfolding holds
  Released-then k keys db db1 db2 one rest = record {
    gone = λ j. ground (arith, one.gone j, rest.gone j);
    distinct = rest.distinct;
    timers = rest.timers ∙ one.timers;
  }

  release_all-Released :
      (keys : List RedisKey) (db : Db F S)
      → IsOnce keys
      → IsDistinct db.cache.store
      → ((j : RedisKey) → holds j keys ≡ true → expires (Cache.find j db.cache) ≡ true)
      → (db' : Db F S) × (release_all keys db ≡ some db') × Released keys db db'
  unfolding release_all holds
  release_all-Released [] db once d due =
      (db, refl, record { gone = λ j. refl; distinct = d; timers = refl })
  release_all-Released (k ∷ keys) db once d due =
      let (db1, one, first) = release-Released k db d (due k (ground (arith, same_key_refl k))) in
      let (db2, rest, others) =
        release_all-Released keys db1 once.1 first.distinct
          (λ j h. ground (arith, h, once.0, first.gone j, due j, same_key→eq j k)) in
      (db2, rw (one, release_all) rest, Released-then k keys db db1 db2 first others)

module _ {F S : Type 0} ⦃D : Double F⦄ ⦃T : TimerSet S⦄ where
  -- On a sound cache the timer's callback always comes to its end without meeting a freed entry; it
  -- takes away exactly the keys whose timers are due, and it leaves a sound cache.
  pub erase_expired_entries-IsSound :
      (now : ℤ) (db : Db F S)
      → IsSound db.cache
      → (db' : Db F S) × (erase_expired_entries now db ≡ some db')
        × ((j : RedisKey)
            → Cache.find j db'.cache
              ≡ (if holds j (T.expire now db.cache.alive).0 then none else Cache.find j db.cache))
        × IsSound db'.cache
  unfolding erase_expired_entries Cache.find
  erase_expired_entries-IsSound now db s =
      let (due, alive) = T.expire now db.cache.alive in
      let (db1, done, r) =
        release_all-Released due (with_alive alive db) (T.expire-once now db.cache.alive)
          s.valid.distinct
          (λ j h. ground (arith, h, T.expire-armed j now db.cache.alive, s.valid.armed j)) in
      (
        rearmed db1,
        rw (done, erase_expired_entries) refl,
        r.gone,
        record {
          valid = record {
            distinct = r.distinct;
            armed = λ j.
                ground
                  (arith, r.timers, r.gone j, s.valid.armed j, T.armed-expire j now db.cache.alive);
          };
          values = λ k e h. ground (arith, h, r.gone k, s.values k e);
        },
      )

module _ {F S : Type 0} ⦃D : Double F⦄ ⦃T : TimerSet S⦄ where
  armed-disarm_all :
      (j : RedisKey) (l : List (CacheEntry F)) (s : S)
      → IsDistinct l
      → T.armed j (disarm_all l s) ≡ (if expires (find_in j l) then false else T.armed j s)
  unfolding disarm_all find_in
  armed-disarm_all j [] s d = refl
  armed-disarm_all j (e ∷ l) s d = ground (
    arith,
    armed-disarm_all j l (disarm e s) d.1,
    T.armed-remove j (entry_key e) s,
    d.0,
    same_key→eq j (entry_key e),
  )

  -- After `flush_all` of a valid cache no key is found and no timer is armed.
  pub flush_all-empty :
      (c : Cache F S) (j : RedisKey)
      → Timers.IsValid c
      → (Cache.find j (flush_all c) ≡ none) × (T.armed j (flush_all c).alive ≡ false)
  unfolding flush_all Cache.find find_in
  flush_all-empty c j v =
      (refl, ground (arith, armed-disarm_all j c.store c.alive v.distinct, v.armed j))

  pub fresh-IsSound : IsSound {F = F} {S = S} fresh
  unfolding fresh Cache.find Cache.find_in
  fresh-IsSound = record {
    valid = record { distinct = tt; armed = T.armed-clear };
    values = λ k e h. ground (arith, h);
  }
