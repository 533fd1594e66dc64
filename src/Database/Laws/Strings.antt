-- ===== src/Database/Laws/Strings.antt =====
-- GET after SET, EXISTS after DEL, TTL after PERSIST, and INCRBY and DECRBY.
use pedis.Base.{ℕ, ◌+◌, ◌%◌, ◌<◌, ◌≡◌, Bool, true, false, some, arith, if◌then◌else◌, not, ◌&&◌}
use pedis.Base.Int.{ℤ}
use pedis.Base.Bytes.{Bytes}
use pedis.DictLsa.{word}
use pedis.Keys.{RedisKey, same_key, same_key_refl, same_key→eq}
use pedis.TimerSet.{TimerSet}
use pedis.Cache
use pedis.Cache.{CacheEntry, Value, new_entry, entry_key, ever_expires, expiration}
use pedis.Cache.Table.{IsDistinct}
use pedis.Cache.Effects.{
  find-insert_if, insert_if-is_refused, is_refused, find-never_expired, find-erase_entry,
  find-assign, value-stamped,
}
use pedis.Reply.{Message, Reply}
use pedis.Database.{Db, say}
use pedis.Database.Strings
use pedis.Database.Strings.{has_flag, flag_set_nx, flag_set_xx, neg_word}

add_neg_word :
    (n step : ℕ)
    → n < word
    → step < word
    → Strings.add_word (Strings.add_word n step) (neg_word step) ≡ n
add_neg_word n step a b = omega arith

module _ {F S : Type 0} ⦃T : TimerSet S⦄ where
  -- Whether SET with these flags is refused.
  abbrev pub set_refused : RedisKey → ℕ → Db F S → Bool
  set_refused rk flag db =
      is_refused (has_flag flag flag_set_nx) (has_flag flag flag_set_xx) (Cache.exists rk db.cache)

  -- With distinct keys, SET replies OK unless its flags refuse it, and then nil; a GET of any key
  -- afterwards replies the new text for the key that was set, and what it replied before for every
  -- other key and after a refusal.
  pub get-set :
      (now : ℤ) (k rk : RedisKey) (val : Bytes) (expired : ℤ) (flag : ℕ) (db : Db F S)
      → IsDistinct db.cache.store
      → ((Strings.set now rk val expired flag db).0
          ≡ say (if set_refused rk flag db then Message.nil else Message.ok))
        × ((Strings.get k (Strings.set now rk val expired flag db).1).0 ≡ (
            if same_key k rk && not (set_refused rk flag db)
            then Reply.entry (some (Value.bytes val))
            else (Strings.get k db).0))
  unfolding Strings.set Strings.get
  get-set now k rk val expired flag db d =
      let e : CacheEntry F = new_entry rk (Value.bytes val) in
      let nx = has_flag flag flag_set_nx in
      let xx = has_flag flag flag_set_xx in
      ground (
        arith,
        find-insert_if k now e expired nx xx db.cache d,
        value-stamped now expired e,
        insert_if-is_refused now e expired nx xx db.cache,
      )

  pub exists-del :
      (k rk : RedisKey) (db : Db F S)
      → IsDistinct db.cache.store
      → (Strings.exists k (Strings.del rk db).1).0
        ≡ (if same_key k rk then say Message.zero else (Strings.exists k db).0)
  unfolding Strings.exists Strings.del Cache.exists Cache.find
  exists-del k rk db d = ground (arith, find-erase_entry k rk db.cache d, same_key→eq k rk)

  -- TTL after PERSIST replies -1 for the key, if it is there, and what it replied before for every
  -- other key.
  pub ttl-persist :
      (now : ℤ) (k rk : RedisKey) (db : Db F S)
      → (Strings.ttl now k (Strings.persist rk db).1).0 ≡ (
          if same_key k rk && Cache.exists rk db.cache
          then say Message.neg_one
          else (Strings.ttl now k db).0)
  unfolding Strings.ttl Strings.ttl_reply Strings.persist Cache.exists Cache.find
  ttl-persist now k rk db = ground (arith, find-never_expired k rk db.cache, same_key→eq k rk)

  -- For a key that holds a 64-bit counter and a 64-bit step: INCRBY replies the sum modulo 2^64,
  -- and DECRBY of the same step after it replies the old counter.
  pub counter_by_back :
      (rk : RedisKey) (step n : ℕ) (db : Db F S) {e : CacheEntry F}
      → Cache.find rk db.cache ≡ some e
      → e.value ≡ Value.int64 n
      → n < word
      → step < word
      → ((Strings.counter_by rk step true db).0
          ≡ Reply.entry (some (Value.int64 ((n + step) % word))))
        × ((Strings.counter_by rk step false (Strings.counter_by rk step true db).1).0
            ≡ Reply.entry (some (Value.int64 n)))
  unfolding Strings.counter_by Strings.counter_value
  counter_by_back rk step n db found is_int a b =
      let v : Value F = Value.int64 ((n + step) % word) in
      ground (
        arith,
        found,
        is_int,
        find-assign rk rk v db.cache,
        same_key_refl rk,
        add_neg_word n step a b,
      )
