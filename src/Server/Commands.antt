-- ===== src/Server/Commands.antt =====
-- server.cc: the map of commands.
use pedis.Base.{ℕ, true, false, List, [], ◌∷◌, ◌++◌}
use pedis.Base.Int.{ℤ}
use pedis.Base.Bytes.{Bytes}
use pedis.Double.{Double}
use pedis.TimerSet.{TimerSet}
use pedis.Reply.Wire.{codes}
use pedis.Service.{Host, Number}
use pedis.Service.Strings
use pedis.Service.Lists
use pedis.Service.Hashes
use pedis.Service.Sets
use pedis.Service.SortedSets
use pedis.Service.Bitmaps
use pedis.Service.Others
use pedis.Service.Unions.{zunionstore}
use pedis.Server.{Handler}

-- What the requests take from their environment: the conversions of the C++ library, the order in
-- which its unordered maps give their entries, that in which shards answer, how deep calls of
-- `equal` may nest, the product of doubles, an uninitialised number, and the requests that are not modelled.
pub record Environment (F S : Type 0) : Type 0 where
  pub host : Host
  pub atof : Bytes → F
  pub stod : Bytes → Number F
  pub stol : Bytes → Number ℤ
  pub stoi : Bytes → Number ℤ
  pub fields_order : List (Bytes × Bytes) → List (Bytes × Bytes)
  pub scores_order : List (Bytes × F) → List (Bytes × F)
  pub arrival : List Bytes → List Bytes
  pub equal_fuel : ℕ
  pub one : F
  pub mul : F → F → F
  pub garbage : ℕ
  pub unmodelled : Bytes → Handler F S

-- What a request finds when it is served: the clock and the random numbers
pub record Moment : Type 0 where
  pub now : ℤ
  pub rands : List ℕ

module _ {F S : Type 0} ⦃D : Double F⦄ ⦃T : TimerSet S⦄ (E : Environment F S) where
  abbrev pub key_commands : Moment → List (Bytes × Handler F S)
  key_commands t =
      (codes "set", Strings.set E.host t.now)
      ∷ (codes "mset", Strings.mset E.host t.now)
      ∷ (codes "get", Strings.get E.host)
      ∷ (codes "del", Strings.del E.host)
      ∷ (codes "ping", Others.ping)
      ∷ (codes "incr", Strings.counter_by E.host true false)
      ∷ (codes "decr", Strings.counter_by E.host false false)
      ∷ (codes "incrby", Strings.counter_by E.host true true)
      ∷ (codes "decrby", Strings.counter_by E.host false true)
      ∷ (codes "mget", Others.mget E.host E.arrival)
      ∷ (codes "command", Others.command)
      ∷ (codes "exists", Strings.exists E.host)
      ∷ (codes "append", Strings.append E.host)
      ∷ (codes "strlen", Strings.strlen E.host)
      ∷ []

  abbrev pub list_commands : Moment → List (Bytes × Handler F S)
  list_commands t =
      (codes "lpush", Lists.lpush E.host)
      ∷ (codes "lpushx", Lists.lpushx E.host)
      ∷ (codes "lpop", Lists.lpop E.host)
      ∷ (codes "llen", Lists.llen E.host)
      ∷ (codes "lindex", Lists.lindex E.host)
      ∷ (codes "linsert", Lists.linsert E.host E.equal_fuel)
      ∷ (codes "lrange", Lists.lrange E.host)
      ∷ (codes "lset", Lists.lset E.host)
      ∷ (codes "rpush", Lists.rpush E.host)
      ∷ (codes "rpushx", Lists.rpushx E.host)
      ∷ (codes "rpop", Lists.rpop E.host)
      ∷ (codes "lrem", Lists.lrem E.host)
      ∷ (codes "ltrim", Lists.ltrim E.host)
      ∷ []

  abbrev pub hash_commands : Moment → List (Bytes × Handler F S)
  hash_commands t =
      (codes "hset", Hashes.hset E.host)
      ∷ (codes "hmset", Hashes.hmset E.host E.fields_order)
      ∷ (codes "hdel", Hashes.hdel E.host)
      ∷ (codes "hget", Hashes.hget E.host)
      ∷ (codes "hlen", Hashes.hlen E.host)
      ∷ (codes "hexists", Hashes.hexists E.host)
      ∷ (codes "hstrlen", Hashes.hstrlen E.host)
      ∷ (codes "hincrby", Hashes.hincrby E.host)
      ∷ (codes "hincrbyfloat", Hashes.hincrbyfloat E.host E.atof)
      ∷ (codes "hkeys", Hashes.hgetall E.host true false)
      ∷ (codes "hvals", Hashes.hgetall E.host false true)
      ∷ (codes "hmget", Hashes.hmget E.host)
      ∷ (codes "hgetall", Hashes.hgetall E.host true true)
      ∷ []

  abbrev pub set_commands : Moment → List (Bytes × Handler F S)
  set_commands t =
      (codes "sadd", Sets.sadd E.host)
      ∷ (codes "scard", Sets.scard E.host)
      ∷ (codes "sismember", Sets.sismember E.host)
      ∷ (codes "smembers", Sets.smembers E.host)
      ∷ (codes "srandmember", Others.srandmember E.host t.rands E.stol)
      ∷ (codes "srem", Sets.srem E.host)
      ∷ (codes "sdiff", Sets.combine E.host (Sets.sdiff_impl E.host))
      ∷ (codes "sdiffstore", Sets.combine_store E.host (Sets.sdiff_impl E.host))
      ∷ (codes "sinter", Sets.combine E.host (Sets.sinter_impl E.host))
      ∷ (codes "sinterstore", Sets.combine_store E.host (Sets.sinter_impl E.host))
      ∷ (codes "sunion", Sets.combine E.host (Sets.sunion_impl E.host))
      ∷ (codes "sunionstore", Sets.combine_store E.host (Sets.sunion_impl E.host))
      ∷ (codes "smove", Sets.smove E.host)
      ∷ (codes "spop", Others.spop E.host t.rands E.stol)
      ∷ []

  abbrev pub expiry_commands : Moment → List (Bytes × Handler F S)
  expiry_commands t =
      (codes "type", Strings.type E.host)
      ∷ (codes "expire", Strings.expire E.host t.now)
      ∷ (codes "pexpire", Strings.pexpire E.host t.now)
      ∷ (codes "ttl", Strings.ttl E.host t.now)
      ∷ (codes "pttl", Strings.pttl E.host t.now)
      ∷ (codes "persist", Strings.persist E.host)
      ∷ []

  abbrev pub sorted_set_commands : Moment → List (Bytes × Handler F S)
  sorted_set_commands t =
      (codes "zadd", SortedSets.zadd E.host E.stod E.scores_order)
      ∷ (codes "zrange", SortedSets.zrange E.host E.stoi false)
      ∷ (codes "zrevrange", SortedSets.zrange E.host E.stoi true)
      ∷ (codes "zrangebyscore", SortedSets.zrangebyscore E.host E.stod false)
      ∷ (codes "zrevrangebyscore", SortedSets.zrangebyscore E.host E.stod true)
      ∷ (codes "zrem", SortedSets.zrem E.host)
      ∷ (codes "zremrangebyscore", SortedSets.zremrangebyscore E.host E.stod)
      ∷ (codes "zremrangebyrank", SortedSets.zremrangebyrank E.host E.stol)
      ∷ (codes "zcard", SortedSets.zcard E.host)
      ∷ (codes "zcount", SortedSets.zcount E.host E.stod)
      ∷ (codes "zscore", SortedSets.zscore E.host)
      ∷ (codes "zincrby", SortedSets.zincrby E.host E.stod)
      ∷ (codes "zrank", SortedSets.zrank E.host false)
      ∷ (codes "zrevrank", SortedSets.zrank E.host true)
      ∷ (codes "zunionstore", zunionstore E.host E.mul E.stol E.stod E.one E.garbage E.scores_order)
      ∷ (codes "zinterstore", Others.refused)
      ∷ []

  abbrev pub other_commands : Moment → List (Bytes × Handler F S)
  other_commands t =
      (codes "select", Others.select E.host E.stol)
      ∷ (codes "geoadd", E.unmodelled (codes "geoadd"))
      ∷ (codes "geodist", E.unmodelled (codes "geodist"))
      ∷ (codes "geopos", E.unmodelled (codes "geopos"))
      ∷ (codes "geohash", E.unmodelled (codes "geohash"))
      ∷ (codes "georadius", E.unmodelled (codes "georadius"))
      ∷ (codes "georadiusbymember", E.unmodelled (codes "georadiusbymember"))
      ∷ (codes "setbit", Bitmaps.setbit E.host E.stol E.stoi)
      ∷ (codes "getbit", Bitmaps.getbit E.host E.stol)
      ∷ (codes "bitcount", Bitmaps.bitcount E.host E.stol)
      ∷ (codes "pfadd", E.unmodelled (codes "pfadd"))
      ∷ (codes "pfcount", Others.refused)
      ∷ (codes "pfmerge", Others.refused)
      ∷ []

  -- `_commands`
  unfoldable pub commands : Moment → List (Bytes × Handler F S)
  commands t =
      key_commands t
      ++ list_commands t
      ++ hash_commands t
      ++ set_commands t
      ++ expiry_commands t
      ++ sorted_set_commands t
      ++ other_commands t
