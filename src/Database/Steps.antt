-- ===== src/Database/Steps.antt =====
-- A shard at work: the handlers that change the cache, and the timer, as the steps of a state
-- machine. A step carries the key that it is about.
pub mod Reachable
use pedis.SsetLsa.Updates.{AreNumbers}
use pedis.Database.SortedSets.{RepliesNumber}
use pedis.Base.{ℕ, ◌<◌, ◌≡◌, ◌≢◌, Bool, false, Option, none, some, List, []}
use pedis.Base.Int.{ℤ, pos}
use pedis.Base.Bytes.{Bytes}
use pedis.Double.{Double}
use pedis.DictLsa.{word}
use pedis.Keys.{RedisKey}
use pedis.TimerSet.{TimerSet}
use pedis.Cache
use pedis.Cache.Timers
use pedis.Reply.{Reply}
use pedis.Database.{Db}
use pedis.Database.Strings
use pedis.Database.Lists
use pedis.Database.Hashes
use pedis.Database.Sets
use pedis.Database.SortedSets
use pedis.Database.Expiry

module _ {F S : Type 0} ⦃D : Double F⦄ ⦃T : TimerSet S⦄ where
  -- The calls that the service layer makes. A push has a value and a counter's step 64 bits;
  -- EXPIRE by 0, DEL of a key with a timeout, and scores that are NaN are left out.
  pub data Step (rk : RedisKey) (db : Db F S) : Db F S → Type 0 where
    set :
        (now : ℤ) (val : Bytes) (expired : ℤ) (flag : ℕ)
        → Step rk db (Strings.set now rk val expired flag db).1
    del : Timers.expires (Cache.find rk db.cache) ≡ false → Step rk db (Strings.del rk db).1
    counter_by :
        (step : ℕ) (incr : Bool) → step < word → Step rk db (Strings.counter_by rk step incr db).1
    append :
        (val : Bytes) (r : Reply F × Db F S) → Strings.append rk val db ≡ some r → Step rk db r.1
    expire :
        (now expired : ℤ) (r : Reply F × Db F S)
        → expired ≢ pos 0
        → Strings.expire now rk expired db ≡ some r
        → Step rk db r.1
    persist : Step rk db (Strings.persist rk db).1
    push :
        (values : List Bytes) (force left : Bool)
        → values ≢ []
        → Step rk db (Lists.push_multi rk values force left db).1
    pop : (left : Bool) (r : Reply F × Db F S) → Lists.pop rk left db ≡ some r → Step rk db r.1
    lset :
        (idx : ℤ) (val : Bytes) (r : Reply F × Db F S)
        → Lists.lset rk idx val db ≡ some r
        → Step rk db r.1
    lrem :
        (count : ℤ) (val : Bytes) (r : Reply F × Db F S)
        → Lists.lrem rk count val db ≡ some r
        → Step rk db r.1
    ltrim :
        (start end : ℤ) (r : Reply F × Db F S)
        → Lists.ltrim rk start end db ≡ some r
        → Step rk db r.1
    hset : (key val : Bytes) → Step rk db (Hashes.hset rk key val db).1
    hmset : (kvs : List (Bytes × Bytes)) → Step rk db (Hashes.hmset rk kvs db).1
    hincrby : (key : Bytes) (delta : ℕ) → Step rk db (Hashes.hincrby rk key delta db).1
    hincrbyfloat : (key : Bytes) (delta : F) → Step rk db (Hashes.hincrbyfloat rk key delta db).1
    hdel : (key : Bytes) → Step rk db (Hashes.hdel rk key db).1
    hdel_multi : (keys : List Bytes) → Step rk db (Hashes.hdel_multi rk keys db).1
    sadds : (members : List Bytes) → Step rk db (Sets.sadds rk members db).1
    srem : (member : Bytes) → Step rk db (Sets.srem rk member db).1
    srems : (members : List Bytes) → Step rk db (Sets.srems rk members db).1
    spop :
        (rands : List ℕ) (count : ℕ) (r : Reply F × Db F S)
        → Sets.spop rands rk count db ≡ some r
        → Step rk db r.1
    zadds :
        (members : List (Bytes × F)) (flags : ℕ) (r : Reply F × Db F S)
        → AreNumbers members
        → SortedSets.zadds rk members flags db ≡ some r
        → Step rk db r.1
    zincrby :
        (member : Bytes) (delta : F)
        → RepliesNumber (SortedSets.zincrby rk member delta db).0
        → Step rk db (SortedSets.zincrby rk member delta db).1
    zrem : (members : List Bytes) → Step rk db (SortedSets.zrem rk members db).1
    zremrangebyrank : (begin end : ℤ) → Step rk db (SortedSets.zremrangebyrank rk begin end db).1
    zremrangebyscore : (min max : F) → Step rk db (SortedSets.zremrangebyscore rk min max db).1

  -- The states that a shard reaches from the empty one, with the timer's callback between the
  -- requests.
  pub data Reach : Db F S → Type 0 where
    start : (db : Db F S) → db.cache ≡ Expiry.fresh → Reach db
    request : {db db' : Db F S} (rk : RedisKey) → Reach db → Step rk db db' → Reach db'
    expiry :
        {db : Db F S} (now : ℤ) (db' : Db F S)
        → Reach db
        → Expiry.erase_expired_entries now db ≡ some db'
        → Reach db'
