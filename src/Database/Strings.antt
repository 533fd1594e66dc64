-- ===== src/Database/Strings.antt =====
-- db.cc: the handlers of keys and strings: SET, DEL, EXISTS, INCR and DECR, APPEND, GET, STRLEN,
-- TYPE, EXPIRE, PERSIST, TTL and PTTL. `now` is `clock_type::now()`.
use Prim.Native.Nat.{bit_and}
use pedis.Base.{
  ℕ, ◌+◌, ◌-◌, ◌/◌, ◌%◌, Bool, true, false, Option, none, some, [], ◌==◌, not, if◌then◌else◌,
  length,
}
use pedis.Base.Int.{ℤ, pos, negsuc, pos_part, neg_part, sub_ℕ}
use pedis.Base.Bytes.{Bytes}
use pedis.DictLsa.{word}
use pedis.Keys.{RedisKey}
use pedis.TimerSet.{TimerSet}
use pedis.Cache
use pedis.Cache.{Cache, CacheEntry, Value, new_entry, ever_expires, type_of_bytes}
use pedis.Reply.{Message, Reply}
use pedis.Database.{
  Handled, Stat, Db, Mutation, bump, drop, with_cache, append_log, say, flag_reply,
}

-- FLAG_SET_NX and FLAG_SET_XX
abbrev pub flag_set_nx : ℕ
flag_set_nx = 8

abbrev pub flag_set_xx : ℕ
flag_set_xx = 16

-- `flag & FLAG_SET_NX`, as a condition
abbrev pub has_flag : ℕ → ℕ → Bool
has_flag flags f = not (bit_and flags f == 0)

-- `_total_*_entries` of a deleted entry, by the ladder of `del`
unfoldable pub del_stat : {F : Type 0} → Value F → Stat
del_stat (Value.bytes b) = Stat.total_string_entries
del_stat (Value.set d) = Stat.total_set_entries
del_stat (Value.list l) = Stat.total_list_entries
del_stat (Value.dict d) = Stat.total_dict_entries
del_stat (Value.sset s) = Stat.total_zset_entries
del_stat (Value.hll b) = Stat.total_hll_entries
del_stat _ = Stat.total_counter_entries

-- `static_cast<size_t>` of a `long`
abbrev pub to_word : ℤ → ℕ
to_word (pos n) = n % word
to_word (negsuc n) = word - 1 - n % word

-- `time_of_live`, of an entry that expires
unfoldable pub time_of_live : ℤ → ℤ → ℕ
time_of_live now t = to_word (sub_ℕ (pos_part t + neg_part now) (neg_part t + pos_part now))

-- `int64_t` in two's complement: the sum, and the opposite.
abbrev pub add_word : ℕ → ℕ → ℕ
add_word a b = (a + b) % word

abbrev pub neg_word : ℕ → ℕ
neg_word a = (word - a % word) % word

module _ {F : Type 0} where
  unfoldable pub strlen_value : Value F → Reply F
  strlen_value (Value.bytes b) = Reply.size (length b)
  strlen_value _ = say Message.type_err

  -- The reply where the entry expires; `unit` is 1 for PTTL and 1000 for TTL.
  unfoldable pub ttl_reply : ℤ → ℕ → Option (CacheEntry F) → Reply F
  ttl_reply now unit none = say Message.neg_two
  ttl_reply now unit (some e) = elim e.timeout [
    | none ↦ say Message.neg_one
    | some t ↦ Reply.size (time_of_live now t / unit)
  ]

module _ {F S : Type 0} where
  unfoldable pub direct_text : Db F S → Value F → Option Bytes × Db F S
  direct_text db (Value.bytes b) = (some b, bump Stat.hit db)
  direct_text db _ = (none, db)

module _ {F S : Type 0} where
  unfoldable pub exists : RedisKey → Db F S → Reply F × Db F S
  exists rk db0 = let db = bump Stat.exists db0 in (flag_reply (Cache.exists rk db.cache), db)

  unfoldable pub exists_direct : RedisKey → Db F S → Bool × Db F S
  exists_direct rk db0 = let db = bump Stat.exists db0 in (Cache.exists rk db.cache, db)

  -- Both `del` handlers decrement the counter of the type and call `_cache.erase(*e)`.
  unfoldable pub del_direct : RedisKey → Db F S → Bool × Db F S
  unfolding del_stat
  del_direct rk db0 =
      let db = append_log (Mutation.deleted rk.key) (bump Stat.del db0) in
      elim (Cache.find rk db.cache) [
        | none ↦ (false, db)
        | some e ↦ (true, drop (del_stat e.value) (with_cache (Cache.erase_entry rk db.cache) db))
      ]

  unfoldable pub del : RedisKey → Db F S → Reply F × Db F S
  unfolding del_stat
  del rk db0 =
      let db = append_log (Mutation.deleted rk.key) (bump Stat.del db0) in
      elim (Cache.find rk db.cache) [
        | none ↦ (say Message.zero, db)
        | some e ↦ (
          say Message.one,
          drop (del_stat e.value) (with_cache (Cache.erase_entry rk db.cache) db),
        )
      ]

  unfoldable pub get : RedisKey → Db F S → Reply F × Db F S
  get rk db0 =
      let db = bump Stat.get (bump Stat.read db0) in
      elim (Cache.find rk db.cache) [
        | none ↦ (Reply.entry none, db)
        | some e ↦
            if not (type_of_bytes e.value)
            then (say Message.type_err, db)
            else (Reply.entry (some e.value), bump Stat.hit db)
      ]

  -- The text of a key, or the null pointer
  unfoldable pub get_direct : RedisKey → Db F S → Option Bytes × Db F S
  unfolding direct_text
  get_direct rk db0 =
      let db = bump Stat.get (bump Stat.read db0) in
      elim (Cache.find rk db.cache) [ none ↦ (none, db) | some e ↦ direct_text db e.value ]

  unfoldable pub strlen : RedisKey → Db F S → Reply F × Db F S
  unfolding strlen_value
  strlen rk db0 =
      let db = bump Stat.strlen db0 in
      elim (Cache.find rk db.cache) [
        | none ↦ (say Message.zero, db)
        | some e ↦ (strlen_value e.value, db)
      ]

  -- `type_name` returns an empty text for every type.
  unfoldable pub type : RedisKey → Db F S → Reply F × Db F S
  type rk db0 =
      let db = bump Stat.type db0 in
      elim (Cache.find rk db.cache) [
        | none ↦ (say Message.type_none, db)
        | some e ↦ (Reply.text [], db)
      ]

  unfoldable pub pttl : ℤ → RedisKey → Db F S → Reply F × Db F S
  unfolding ttl_reply
  pttl now rk db0 = let db = bump Stat.pttl db0 in (ttl_reply now 1 (Cache.find rk db.cache), db)

  unfoldable pub ttl : ℤ → RedisKey → Db F S → Reply F × Db F S
  unfolding ttl_reply
  ttl now rk db0 = let db = bump Stat.ttl db0 in (ttl_reply now 1000 (Cache.find rk db.cache), db)

module _ {F S : Type 0} ⦃T : TimerSet S⦄ where
  unfoldable pub set_direct : ℤ → RedisKey → Bytes → ℤ → ℕ → Db F S → Bool × Db F S
  set_direct now rk val expired flag db0 =
      let db = bump Stat.set db0 in
      let (c, done) =
        Cache.insert_if now (new_entry rk (Value.bytes val)) expired (has_flag flag flag_set_nx)
          (has_flag flag flag_set_xx) db.cache in
      (done, if done then bump Stat.total_string_entries (with_cache c db) else with_cache c db)

  -- SET: first the commit log, then the cache.
  unfoldable pub set : ℤ → RedisKey → Bytes → ℤ → ℕ → Db F S → Reply F × Db F S
  set now rk val expired flag db0 =
      let db = append_log (Mutation.string rk.key val expired flag) (bump Stat.set db0) in
      let (c, done) =
        Cache.insert_if now (new_entry rk (Value.bytes val)) expired (has_flag flag flag_set_nx)
          (has_flag flag flag_set_xx) db.cache in
      (
        say (if done then Message.ok else Message.nil),
        if done then bump Stat.total_string_entries (with_cache c db) else with_cache c db,
      )

  unfoldable pub counter_value : RedisKey → ℕ → Bool → Db F S → Value F → Reply F × Db F S
  counter_value rk step incr db (Value.int64 n) =
      let v = Value.int64 (add_word n (if incr then step else neg_word step)) in
      (Reply.entry (some v), with_cache (Cache.assign rk v db.cache) db)
  counter_value rk step incr db _ = (say Message.type_err, db)

  -- INCR, DECR, INCRBY and DECRBY; a new counter starts at `step` for both signs.
  unfoldable pub counter_by : RedisKey → ℕ → Bool → Db F S → Reply F × Db F S
  unfolding counter_value
  counter_by rk step incr db0 =
      let db = bump Stat.counter db0 in
      elim (Cache.find rk db.cache) [
        | none ↦
            let v = Value.int64 step in
            (
              Reply.entry (some v),
              bump Stat.total_counter_entries
                  (with_cache (Cache.replace (new_entry rk v) db.cache).0 db),
            )
        | some e ↦ counter_value rk step incr db e.value
      ]

  -- The old text is destroyed through a pointer that the allocator did not give, and destroyed once
  -- more by the assignment: what happens then is undefined, and no reply is counted on.
  unfoldable pub append_value : RedisKey → Bytes → Db F S → Value F → Handled F S
  append_value rk val db (Value.bytes b) = none
  append_value rk val db _ = some (say Message.type_err, db)

  unfoldable pub append : RedisKey → Bytes → Db F S → Handled F S
  unfolding append_value
  append rk val db0 =
      let db = bump Stat.append db0 in
      elim (Cache.find rk db.cache) [
        | none ↦ some (
          Reply.size (length val),
          bump Stat.total_string_entries
              (with_cache (Cache.replace (new_entry rk (Value.bytes val)) db.cache).0 db),
        )
        | some e ↦ append_value rk val db e.value
      ]

  unfoldable pub expire : ℤ → RedisKey → ℤ → Db F S → Handled F S
  expire now rk expired db0 =
      let db = bump Stat.expire db0 in
      elim (Cache.expire now rk expired db.cache) [
        | none ↦ none
        | some r ↦ some (flag_reply r.1, with_cache r.0 db)
      ]

  unfoldable pub persist : RedisKey → Db F S → Reply F × Db F S
  persist rk db0 =
      let db = bump Stat.persist db0 in
      let (c, result) = Cache.never_expired rk db.cache in (flag_reply result, with_cache c db)
