-- ===== src/Database/Steps/Reachable.antt =====
-- Every state that a shard reaches is sound.
use pedis.Base.{◌≡◌, sym, ◌∙◌, subst, Option, none, some}
use pedis.Double.{Double}
use pedis.Keys.{RedisKey}
use pedis.TimerSet.{TimerSet}
use pedis.Database.{Db}
use pedis.Database.Sound.{IsSound, LeavesIf}
use pedis.Database.Sound.Strings
use pedis.Database.Sound.Lists
use pedis.Database.Sound.Hashes
use pedis.Database.Sound.Sets
use pedis.Database.Sound.SortedSets
use pedis.Database.Expiry
use pedis.Database.Steps.{Step, Reach}

module _ {F S : Type 0} ⦃D : Double F⦄ ⦃T : TimerSet S⦄ where
  of_result :
      {A : Type 0} (o : Option (A × Db F S)) (r : A × Db F S)
      → LeavesIf o
      → o ≡ some r
      → IsSound r.1.cache
  of_result o r l q = subst LeavesIf q l

  pub Step-IsSound :
      (rk : RedisKey) (db : Db F S) {db' : Db F S}
      → Step rk db db'
      → IsSound db.cache
      → IsSound db'.cache
  Step-IsSound rk db (Step.set now val expired flag) s =
      Strings.set-IsSound now rk val expired flag db s
  Step-IsSound rk db (Step.del h) s = Strings.del-IsSound rk db h s
  Step-IsSound rk db (Step.counter_by step incr h) s =
      Strings.counter_by-IsSound rk step incr db h s
  Step-IsSound rk db (Step.append val r q) s = of_result _ r (Strings.append-IsSound rk val db s) q
  Step-IsSound rk db (Step.expire now expired r h q) s =
      of_result _ r (Strings.expire-IsSound now rk expired db h s) q
  Step-IsSound rk db Step.persist s = Strings.persist-IsSound rk db s
  Step-IsSound rk db (Step.push values force left h) s =
      Lists.push_multi-IsSound rk values force left db h s
  Step-IsSound rk db (Step.pop left r q) s = of_result _ r (Lists.pop-IsSound rk left db s) q
  Step-IsSound rk db (Step.lset idx val r q) s =
      of_result _ r (Lists.lset-IsSound rk idx val db s) q
  Step-IsSound rk db (Step.lrem count val r q) s =
      of_result _ r (Lists.lrem-IsSound rk count val db s) q
  Step-IsSound rk db (Step.ltrim start end r q) s =
      of_result _ r (Lists.ltrim-IsSound rk start end db s) q
  Step-IsSound rk db (Step.hset key val) s = Hashes.hset-IsSound rk key val db s
  Step-IsSound rk db (Step.hmset kvs) s = Hashes.hmset-IsSound rk kvs db s
  Step-IsSound rk db (Step.hincrby key delta) s = Hashes.hincrby-IsSound rk key delta db s
  Step-IsSound rk db (Step.hincrbyfloat key delta) s = Hashes.hincrbyfloat-IsSound rk key delta db s
  Step-IsSound rk db (Step.hdel key) s = Hashes.hdel-IsSound rk key db s
  Step-IsSound rk db (Step.hdel_multi keys) s = Hashes.hdel_multi-IsSound rk keys db s
  Step-IsSound rk db (Step.sadds members) s = Sets.sadds-IsSound rk members db s
  Step-IsSound rk db (Step.srem member) s = Sets.srem-IsSound rk member db s
  Step-IsSound rk db (Step.srems members) s = Sets.srems-IsSound rk members db s
  Step-IsSound rk db (Step.spop rands count r q) s =
      of_result _ r (Sets.spop-IsSound rands rk count db s) q
  Step-IsSound rk db (Step.zadds members flags r n q) s =
      of_result _ r (SortedSets.zadds-IsSound rk members flags db n s) q
  Step-IsSound rk db (Step.zincrby member delta n) s =
      SortedSets.zincrby-IsSound rk member delta db n s
  Step-IsSound rk db (Step.zrem members) s = SortedSets.zrem-IsSound rk members db s
  Step-IsSound rk db (Step.zremrangebyrank begin end) s =
      SortedSets.zremrangebyrank-IsSound rk begin end db s
  Step-IsSound rk db (Step.zremrangebyscore min max) s =
      SortedSets.zremrangebyscore-IsSound rk min max db s

  abbrev SoundIf : Option (Db F S) → Type 0
  SoundIf none = Unit
  SoundIf (some db) = IsSound db.cache

  -- Every state that a shard reaches from the empty cache, by the requests of `Step` that come to a
  -- reply and the timer's callback, is sound: keys are distinct, exactly the keys with a timeout
  -- have an armed timer, no list is empty, hashes and sets are in strict key order, the two indices
  -- of each sorted set are in step and its scores, none of them NaN, do not fall, and counters have
  -- 64 bits.
  pub Reach-IsSound : {db : Db F S} → Reach db → IsSound db.cache
  Reach-IsSound (Reach.start db q) = subst IsSound (sym q) Expiry.fresh-IsSound
  Reach-IsSound (Reach.request {db} rk r step) = Step-IsSound rk db step (Reach-IsSound r)
  Reach-IsSound (Reach.expiry {db} now db' r q) =
      let (db1, same, _, s) = Expiry.erase_expired_entries-IsSound now db (Reach-IsSound r) in
      subst SoundIf (sym same ∙ q) s
