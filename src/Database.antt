-- ===== src/Database.antt =====
-- db.hh: the state of a shard's database, its counters and what the handlers of db.cc share.
pub mod Strings
pub mod Lists
pub mod Hashes
pub mod Sets
pub mod SortedSets
pub mod Bitmaps
pub mod Sound
pub mod Spares
pub mod Expiry
pub mod Laws
pub mod Steps
use pedis.Base.{
  ℕ, zero, suc, ◌+◌, ◌-◌, ◌%◌, Bool, true, false, Option, none, some, List, [], ◌∷◌, ◌++◌, ◌==◌,
  not, if◌then◌else◌,
}
use pedis.Base.Int.{ℤ, pos, negsuc, ◌+ℤ◌}
use pedis.Base.Bytes.{Bytes}
use pedis.DictLsa.{Dict, word}
use pedis.Cache
use pedis.Cache.{Cache, CacheEntry, Value}
use pedis.SsetLsa.{Sset}
use pedis.TimerSet.{TimerSet}
use pedis.Keys.{RedisKey}
use pedis.Reply.{Message, Reply}

-- The members of `database::stats` that the handlers write.
pub data Stat : Type 0 where
  read hit total_counter_entries total_string_entries total_dict_entries : Stat
  total_list_entries total_set_entries total_zset_entries total_bitmap_entries : Stat
  total_hll_entries : Stat
  set get del counter strlen exists append type expire pttl ttl persist : Stat
  lpush rpush lpop rpop lindex llen linsert lrange lset ltrim lrem : Stat
  hdel hexists hset hget hmset hincrby hincrbyfloat hlen hstrlen hmget : Stat
  smembers sadd scard sismember srem srandmember spop : Stat
  zadd zcard zrange zrangebyscore zcount zincrby zrank zrem zscore : Stat
  zremrangebyscore zremrangebyrank setbit getbit bitcount pfadd pfcount pfmerge : Stat

-- Its place in the structure.
stat_index : Stat → ℕ
stat_index Stat.read = 0
stat_index Stat.hit = 1
stat_index Stat.total_counter_entries = 2
stat_index Stat.total_string_entries = 3
stat_index Stat.total_dict_entries = 4
stat_index Stat.total_list_entries = 5
stat_index Stat.total_set_entries = 6
stat_index Stat.total_zset_entries = 7
stat_index Stat.total_bitmap_entries = 8
stat_index Stat.total_hll_entries = 9
stat_index Stat.set = 11
stat_index Stat.get = 12
stat_index Stat.del = 13
stat_index Stat.counter = 16
stat_index Stat.strlen = 17
stat_index Stat.exists = 18
stat_index Stat.append = 19
stat_index Stat.lpush = 20
stat_index Stat.rpush = 22
stat_index Stat.lpop = 24
stat_index Stat.rpop = 25
stat_index Stat.lindex = 26
stat_index Stat.llen = 27
stat_index Stat.linsert = 28
stat_index Stat.lrange = 29
stat_index Stat.lset = 30
stat_index Stat.ltrim = 31
stat_index Stat.lrem = 32
stat_index Stat.hdel = 33
stat_index Stat.hexists = 34
stat_index Stat.hset = 35
stat_index Stat.hget = 36
stat_index Stat.hmset = 37
stat_index Stat.hincrby = 38
stat_index Stat.hincrbyfloat = 39
stat_index Stat.hlen = 40
stat_index Stat.hstrlen = 41
stat_index Stat.hmget = 45
stat_index Stat.smembers = 46
stat_index Stat.sadd = 47
stat_index Stat.scard = 48
stat_index Stat.sismember = 49
stat_index Stat.srem = 50
stat_index Stat.srandmember = 58
stat_index Stat.spop = 59
stat_index Stat.type = 60
stat_index Stat.expire = 61
stat_index Stat.pttl = 63
stat_index Stat.ttl = 64
stat_index Stat.persist = 65
stat_index Stat.zadd = 66
stat_index Stat.zcard = 67
stat_index Stat.zrange = 68
stat_index Stat.zrangebyscore = 69
stat_index Stat.zcount = 70
stat_index Stat.zincrby = 71
stat_index Stat.zrank = 72
stat_index Stat.zrem = 73
stat_index Stat.zscore = 74
stat_index Stat.zremrangebyscore = 78
stat_index Stat.zremrangebyrank = 79
stat_index Stat.setbit = 91
stat_index Stat.getbit = 92
stat_index Stat.bitcount = 93
stat_index Stat.pfadd = 97
stat_index Stat.pfcount = 98
stat_index Stat.pfmerge = 99

-- The counters are `uint64_t`.
abbrev pub Stats : Type 0
Stats = Stat → ℕ

unfoldable pub increment : Stat → Stats → Stats
unfolding stat_index
increment s f t = if stat_index s == stat_index t then (f t + 1) % word else f t

unfoldable pub decrement : Stat → Stats → Stats
unfolding stat_index
decrement s f t = if stat_index s == stat_index t then (f t + word - 1) % word else f t

-- mutation.cc: what the handlers append to the commit log.
pub data Mutation : Type 0 where
  deleted : Bytes → Mutation
  string : Bytes → Bytes → ℤ → ℕ → Mutation

pub record Db (F S : Type 0) : Type 0 where
  pub cache : Cache F S
  pub stats : Stats
  -- the commit log, oldest first
  pub log : List Mutation

-- A handler's reply and the new state; `none` where the process does not go on.
abbrev pub Handled : Type 0 → Type 0 → Type 0
Handled F S = Option (Reply F × Db F S)

-- `alignment_index_base_on`
unfoldable pub alignment_index_base_on : ℕ → ℤ → ℤ
unfolding ◌+ℤ◌
alignment_index_base_on size (pos n) = pos n
alignment_index_base_on size (negsuc n) = negsuc n +ℤ pos size

module _ {F S : Type 0} where
  abbrev pub bump : Stat → Db F S → Db F S
  bump s db = record db { stats = increment s db.stats }

  abbrev pub drop : Stat → Db F S → Db F S
  drop s db = record db { stats = decrement s db.stats }

  abbrev pub with_cache : Cache F S → Db F S → Db F S
  with_cache c db = record db { cache = c }

  abbrev pub append_log : Mutation → Db F S → Db F S
  append_log m db = record db { log = db.log ++ m ∷ [] }

module _ {F : Type 0} where
  abbrev pub say : Message → Reply F
  say m = Reply.message m

  -- `reply_builder::build(result ? msg_one : msg_zero)`
  abbrev pub flag_reply : Bool → Reply F
  flag_reply b = say (if b then Message.one else Message.zero)

-- The start of most handlers: `e` is what the cache finds for the key; a missing key and a value
-- of another type have their own results.
module _ {F R : Type 0} where
  abbrev pub when_list : R → (List Bytes → R) → Value F → R
  when_list wrong f (Value.list l) = f l
  when_list wrong f _ = wrong

  abbrev pub on_list : Option (CacheEntry F) → R → R → (List Bytes → R) → R
  on_list e missing wrong f = elim e [ none ↦ missing | some x ↦ when_list wrong f x.value ]

  abbrev pub when_dict : R → (Dict F → R) → Value F → R
  when_dict wrong f (Value.dict d) = f d
  when_dict wrong f _ = wrong

  abbrev pub on_dict : Option (CacheEntry F) → R → R → (Dict F → R) → R
  on_dict e missing wrong f = elim e [ none ↦ missing | some x ↦ when_dict wrong f x.value ]

  abbrev pub when_set : R → (Dict F → R) → Value F → R
  when_set wrong f (Value.set d) = f d
  when_set wrong f _ = wrong

  abbrev pub on_set : Option (CacheEntry F) → R → R → (Dict F → R) → R
  on_set e missing wrong f = elim e [ none ↦ missing | some x ↦ when_set wrong f x.value ]

  abbrev pub when_sset : R → (Sset F → R) → Value F → R
  when_sset wrong f (Value.sset s) = f s
  when_sset wrong f _ = wrong

  abbrev pub on_sset : Option (CacheEntry F) → R → R → (Sset F → R) → R
  on_sset e missing wrong f = elim e [ none ↦ missing | some x ↦ when_sset wrong f x.value ]

module _ {F S : Type 0} ⦃T : TimerSet S⦄ where
  -- A container changed in place; where it is empty afterwards, its counter falls and the key goes.
  abbrev pub store_back : RedisKey → Value F → Bool → Stat → Db F S → Db F S
  store_back rk v emptied total db =
      let c = Cache.assign rk v db.cache in
      if emptied then drop total (with_cache (Cache.erase rk c).0 db) else with_cache c db

module _ {F S : Type 0} where
  -- The entry that a handler makes for a missing key.
  abbrev pub create : RedisKey → Value F → Stat → Db F S → Db F S
  create rk v total db = bump total (with_cache (Cache.insert (Cache.new_entry rk v) db.cache) db)
