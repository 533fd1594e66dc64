-- ===== src/Service/Moves.antt =====
-- SMOVE of a key that is missing.
use pedis.Base.{
  refl, is_empty, ℕ, ◌≡◌, ap, ◌∙◌, Bool, true, none, some, [], ◌∷◌, arith, ◌==◌, ◌||◌, Bool-cases,
  inl, inr,
}
use pedis.Base.Bytes.{bytes_eq, Bytes}
use pedis.Ordered
use pedis.DictLsa.{Dict, dict_key}
use pedis.Keys.{RedisKey}
use pedis.Cache
use pedis.Reply.{Message}
use pedis.Database
use pedis.Database.{Db, say, flag_reply}
use pedis.Database.Laws.Hashes.{named}
use pedis.Database.Laws.Sets.{set_at, sismember-sadds}
use pedis.TimerSet.{TimerSet}
use pedis.Service
use pedis.Service.{Host, Shards, Served, set_shard, invoke_on, serve_on, redis_key, cpu_of}
use pedis.Service.Routing.{at-own, replied}

named_empty : (x : Bytes) (other : Bool) → (named x ([] ∷ []) || other) ≡ (is_empty x || other)
unfolding named bytes_eq
named_empty [] other = refl
named_empty (c ∷ x) other = refl

module _ {F S : Type 0} where
  -- `sadd_direct` leaves what SADD leaves, and replies true for a set.
  state-sadd_direct :
      (rk : RedisKey) (member : Bytes) (db : Db F S)
      → (Database.Sets.sadd_direct rk member db).1 ≡ (Database.Sets.sadds rk (member ∷ []) db).1
  unfolding Database.Sets.sadd_direct Database.Sets.sadds
  state-sadd_direct rk member db = ground arith

  sadd_direct-done :
      (rk : RedisKey) (member : Bytes) (db : Db F S) (d : Dict F)
      → set_at rk db ≡ some d
      → (Database.Sets.sadd_direct rk member db).0 ≡ true
  unfolding Database.Sets.sadd_direct
  sadd_direct-done rk member db d h = ground (arith, h)

module _ {F S : Type 0} ⦃T : TimerSet S⦄ (H : Host) where
  srem_direct-missing :
      (key member : Bytes) (db : Db F S)
      → Cache.find (redis_key H key) db.cache ≡ none
      → (Database.Sets.srem_direct (redis_key H key) member db).0 ≡ true
  unfolding Database.Sets.srem_direct
  srem_direct-missing key member db h = ground (arith, h)

  cache-srem_direct_missing :
      (key member : Bytes) (db : Db F S)
      → Cache.find (redis_key H key) db.cache ≡ none
      → (Database.Sets.srem_direct (redis_key H key) member db).1.cache ≡ db.cache
  unfolding Database.Sets.srem_direct
  cache-srem_direct_missing key member db h = ground (arith, h)

  set_at-elsewhere :
      (rk : RedisKey) (cpu : ℕ) (db : Db F S) (m : Shards F S) (c : ℕ)
      → db.cache ≡ (m cpu).cache
      → set_at rk (set_shard cpu db m c) ≡ set_at rk (m c)
  unfolding set_shard
  set_at-elsewhere rk cpu db m c h = elim (Bool-cases (c == cpu)) [
    | inl same ↦ ground (arith, same, h)
    | inr other ↦ ground (arith, other)
  ]

  -- SMOVE of any member from a key that is missing, to a key that is missing or holds a set,
  -- replies 1; the destination then has the members that it had and the empty one, whatever the
  -- request named.
  pub smove-missing :
      (key dest member j : Bytes) (m : Shards F S) (d : Dict F)
      → Cache.find (redis_key H key) (m (cpu_of H key)).cache ≡ none
      → set_at (redis_key H dest) (m (cpu_of H dest)) ≡ some d
      → (m' : Shards F S) × (Service.Sets.smove H (key ∷ dest ∷ member ∷ []) m
          ≡ some (say Message.one, m'))
        × (replied (Service.Sets.sismember H (dest ∷ j ∷ []) m')
            ≡ some (flag_reply (is_empty j || Ordered.exists dict_key j d)))
  unfolding Service.Sets.smove Service.Sets.sismember invoke_on serve_on
  smove-missing key dest member j m d h held =
      let db1 = (Database.Sets.srem_direct (redis_key H key) member (m (cpu_of H key))).1 in
      let m1 = set_shard (cpu_of H key) db1 m in
      let rk = redis_key H dest in
      let db2 = (Database.Sets.sadd_direct rk [] (m1 (cpu_of H dest))).1 in
      let m2 = set_shard (cpu_of H dest) db2 m1 in
      let held1 =
        set_at-elsewhere rk (cpu_of H key) db1 m (cpu_of H dest)
          (cache-srem_direct_missing key member (m (cpu_of H key)) h)
        ∙ held in
      (
        m2,
        ground (
          arith,
          srem_direct-missing key member (m (cpu_of H key)) h,
          sadd_direct-done rk [] (m1 (cpu_of H dest)) d held1,
        ),
        ap (λ db. some (Database.Sets.sismember rk j db).0)
              (at-own (cpu_of H dest) db2 m1 ∙ state-sadd_direct rk [] (m1 (cpu_of H dest)))
            ∙ ap some (
                sismember-sadds rk j ([] ∷ []) (m1 (cpu_of H dest)) d held1
                ∙ ap flag_reply (named_empty j (Ordered.exists dict_key j d))),
      )
