-- ===== src/Service/Ownership.antt =====
-- redis.hh, redis.cc: all shards at work. A request runs on the shard that `get_cpu` gives for its
-- key, and each shard has its own timer.
use pedis.Base.{
  ℕ, ◌≡◌, ◌≢◌, ap, sym, ◌∙◌, subst, Option, none, some, arith, ◌==◌, Bool-cases, inl, inr,
}
use pedis.Base.Int.{ℤ}
use pedis.Double.{Double}
use pedis.Keys.{RedisKey, same_key, same_key→eq}
use pedis.TimerSet.{TimerSet}
use pedis.Cache
use pedis.Cache.{CacheEntry}
use pedis.Cache.Table.{IsDistinct}
use pedis.Database.{Db}
use pedis.Database.Sound.{IsSound}
use pedis.Database.Steps.{Step}
use pedis.Database.Steps.Reachable.{Step-IsSound}
use pedis.Database.Expiry
use pedis.Database.Spares.{
  Spares, LeavesIf, set-Spares, del-Spares, expire-Spares, persist-Spares, counter_by-Spares,
  append-Spares,
}
use pedis.Database.Spares.Lists
use pedis.Database.Spares.Collections
use pedis.Service.{Host, Shards, set_shard, get_cpu}

module _ {F S : Type 0} ⦃D : Double F⦄ ⦃T : TimerSet S⦄ where
  of_result :
      {A : Type 0} (rk : RedisKey) (db : Db F S) (o : Option (A × Db F S)) (r : A × Db F S)
      → LeavesIf rk db o
      → o ≡ some r
      → Spares rk db.cache r.1.cache
  of_result rk db o r l q = subst (LeavesIf rk db) q l

  Step-Spares :
      (rk : RedisKey) (db : Db F S) {db' : Db F S}
      → Step rk db db'
      → IsDistinct db.cache.store
      → Spares rk db.cache db'.cache
  Step-Spares rk db (Step.set now val expired flag) d = set-Spares now rk val expired flag db d
  Step-Spares rk db (Step.del h) d = del-Spares rk db d
  Step-Spares rk db (Step.counter_by step incr h) d = counter_by-Spares rk step incr db d
  Step-Spares rk db (Step.append val r q) d = of_result rk db _ r (append-Spares rk val db d) q
  Step-Spares rk db (Step.expire now expired r h q) d =
      of_result rk db _ r (expire-Spares now rk expired db) q
  Step-Spares rk db Step.persist d = persist-Spares rk db
  Step-Spares rk db (Step.push values force left h) d =
      Lists.push_multi-Spares rk values force left db
  Step-Spares rk db (Step.pop left r q) d = of_result rk db _ r (Lists.pop-Spares rk left db d) q
  Step-Spares rk db (Step.lset idx val r q) d =
      of_result rk db _ r (Lists.lset-Spares rk idx val db) q
  Step-Spares rk db (Step.lrem count val r q) d =
      of_result rk db _ r (Lists.lrem-Spares rk count val db d) q
  Step-Spares rk db (Step.ltrim start end r q) d =
      of_result rk db _ r (Lists.ltrim-Spares rk start end db d) q
  Step-Spares rk db (Step.hset key val) d = Collections.hset-Spares rk key val db
  Step-Spares rk db (Step.hmset kvs) d = Collections.hmset-Spares rk kvs db
  Step-Spares rk db (Step.hincrby key delta) d = Collections.hincrby-Spares rk key delta db
  Step-Spares rk db (Step.hincrbyfloat key delta) d =
      Collections.hincrbyfloat-Spares rk key delta db
  Step-Spares rk db (Step.hdel key) d = Collections.hdel-Spares rk key db d
  Step-Spares rk db (Step.hdel_multi keys) d = Collections.hdel_multi-Spares rk keys db d
  Step-Spares rk db (Step.sadds members) d = Collections.sadds-Spares rk members db
  Step-Spares rk db (Step.srem member) d = Collections.srem-Spares rk member db d
  Step-Spares rk db (Step.srems members) d = Collections.srems-Spares rk members db d
  Step-Spares rk db (Step.spop rands count r q) d =
      of_result rk db _ r (Collections.spop-Spares rands rk count db d) q
  Step-Spares rk db (Step.zadds members flags r n q) d =
      of_result rk db _ r (Collections.zadds-Spares rk members flags db) q
  Step-Spares rk db (Step.zincrby member delta n) d = Collections.zincrby-Spares rk member delta db
  Step-Spares rk db (Step.zrem members) d = Collections.zrem-Spares rk members db d
  Step-Spares rk db (Step.zremrangebyrank begin end) d =
      Collections.zremrangebyrank-Spares rk begin end db d
  Step-Spares rk db (Step.zremrangebyscore min max) d =
      Collections.zremrangebyscore-Spares rk min max db d

module _ {F S : Type 0} ⦃T : TimerSet S⦄ where
  find-fresh : (c : Cache.Cache F S) (j : RedisKey) → c ≡ Expiry.fresh → Cache.find j c ≡ none
  unfolding Cache.find Cache.find_in Expiry.fresh
  find-fresh c j q = ap (Cache.find j) q

some_differs : {A : Type 0} {x : A} → some x ≢ none
some_differs h = ground (arith, h)

module _ {F S : Type 0} ⦃D : Double F⦄ ⦃T : TimerSet S⦄ (H : Host) where
  -- The states of all shards, from empty caches: a request runs on the shard of its key, and a
  -- timer's callback on any.
  pub data Runs : Shards F S → Type 0 where
    start : (m : Shards F S) → ((c : ℕ) → (m c).cache ≡ Expiry.fresh) → Runs m
    request :
        {m : Shards F S} (rk : RedisKey) (db : Db F S)
        → Runs m
        → Step rk (m (get_cpu H rk)) db
        → Runs (set_shard (get_cpu H rk) db m)
    expiry :
        {m : Shards F S} (now : ℤ) (c : ℕ) (db : Db F S)
        → Runs m
        → Expiry.erase_expired_entries now (m c) ≡ some db
        → Runs (set_shard c db m)

  -- What a shard may hold: a sound cache, with keys that it owns.
  pub record Owns (c : ℕ) (db : Db F S) : Type 0 where
    pub sound : IsSound db.cache
    pub owner : (j : RedisKey) (e : CacheEntry F) → Cache.find j db.cache ≡ some e → get_cpu H j ≡ c

  at_shard :
      (cpu : ℕ) (db : Db F S) (m : Shards F S)
      → ((c : ℕ) → Owns c (m c))
      → Owns cpu db
      → (c : ℕ) → Owns c (set_shard cpu db m c)
  unfolding set_shard
  at_shard cpu db m h k c = elim (Bool-cases (c == cpu)) [
    | inl same ↦ let eq : cpu ≡ c = ground (arith, same) in rw same (subst (λ x. Owns x db) eq k)
    | inr other ↦ rw other (h c)
  ]

  fresh-Owns : (c : ℕ) (db : Db F S) → db.cache ≡ Expiry.fresh → Owns c db
  fresh-Owns c db q = record {
    sound = subst IsSound (sym q) Expiry.fresh-IsSound;
    owner = λ j e found. absurd (some_differs (sym found ∙ find-fresh db.cache j q));
  }

  Step-Owns :
      (rk : RedisKey) (db db' : Db F S)
      → Step rk db db'
      → Owns (get_cpu H rk) db
      → Owns (get_cpu H rk) db'
  unfolding Spares
  Step-Owns rk db db' s h = record {
    sound = Step-IsSound rk db s h.sound;
    owner = λ j e found. elim (Bool-cases (same_key j rk)) [
      | inl same ↦ ap (get_cpu H) (same_key→eq j rk same)
      | inr other ↦ h.owner j e (sym (Step-Spares rk db s h.sound.valid.distinct j other) ∙ found)
    ];
  }

  expiry-Owns :
      (now : ℤ) (c : ℕ) (db db' : Db F S)
      → Expiry.erase_expired_entries now db ≡ some db'
      → Owns c db
      → Owns c db'
  expiry-Owns now c db db' q h =
      let (db1, done, gone, s) = Expiry.erase_expired_entries-IsSound now db h.sound in
      let owns : Owns c db1 = record {
        sound = s;
        owner = λ j e found. h.owner j e (ground (arith, gone j, found));
      } in
      subst OwnsIf (sym done ∙ q) owns
    where
      OwnsIf : Option (Db F S) → Type 0
      OwnsIf none = Unit
      OwnsIf (some db') = Owns c db'

  -- On every shard of every state that is reached from empty caches, by the requests of `Step` that
  -- come to a reply, each on the shard that `get_cpu` gives for its key, and by the timers'
  -- callbacks: the cache is sound, and every key that is found is one that the shard owns, so that
  -- no key is on two shards.
  pub Runs-Owns : {m : Shards F S} → Runs m → (c : ℕ) → Owns c (m c)
  Runs-Owns (Runs.start m q) c = fresh-Owns c (m c) (q c)
  Runs-Owns (Runs.request {m} rk db r s) c =
      at_shard (get_cpu H rk) db m (Runs-Owns r)
        (Step-Owns rk (m (get_cpu H rk)) db s (Runs-Owns r (get_cpu H rk))) c
  Runs-Owns (Runs.expiry {m} now cpu db r q) c =
      at_shard cpu db m (Runs-Owns r) (expiry-Owns now cpu (m cpu) db q (Runs-Owns r cpu)) c
