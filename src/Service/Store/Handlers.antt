-- ===== src/Service/Store/Handlers.antt =====
-- What a handler makes of the value of its key, as the service's map takes it: each handler of
-- Database/Strings and Database/Lists that the map has a request for.
use pedis.Base.{
  ℕ, ◌≡◌, refl, Bool, true, false, none, some, List, [], ◌∷◌, arith, if◌then◌else◌, Option-cases,
  inl, inr,
}
use pedis.Base.Int.{ℤ, pos}
use pedis.Base.Bytes.{Bytes}
use pedis.Keys.{RedisKey, same_key_refl}
use pedis.TimerSet.{TimerSet}
use pedis.ListLsa
use pedis.Cache
use pedis.Cache.{Cache, CacheEntry, Value, new_entry, entry_key, set_value}
use pedis.Cache.Effects.{insert_if-is_refused, find-insert}
use pedis.Reply.{Reply}
use pedis.Database.{Db, flag_reply}
use pedis.Database.Strings
use pedis.Database.Lists
use pedis.Service.Store.{Op, act, step_of, push_to, value_at, stepped, pushed}
use pedis.Service.Store.Writes.{
  IsQuiet, assign-Writes, insert-Writes, then-Writes, erase_entry-Writes, replace-Writes,
  insert_if-Writes,
}
use pedis.Service.Store.Acts.{Acts, of-Writes, of-same, value_at-none, value_at-some}

next-add_word :
    (n : ℕ) (up : Bool) → Strings.add_word n (if up then 1 else Strings.neg_word 1) ≡ stepped up n
next-add_word n true = omega arith
next-add_word n false = omega arith

push_all-pushed :
    (head : Bool) (text : Bytes) (l : List Bytes)
    → Lists.push_all head (text ∷ []) l ≡ pushed head text l
unfolding Lists.push_all ListLsa.insert_head ListLsa.insert_tail
push_all-pushed true text l = refl
push_all-pushed false text l = refl

module _ {F S : Type 0} where
  pub del_direct-Acts :
      (rk : RedisKey) (db : Db F S)
      → IsQuiet db.cache
      → let r = Strings.del_direct rk db in Acts rk db Op.del (flag_reply r.0, r.1)
  unfolding Strings.del_direct act
  del_direct-Acts rk db d =
      let r0 = Strings.del_direct rk db in
      let r : Reply F × Db F S = (flag_reply r0.0, r0.1) in
      elim (Option-cases (Cache.find rk db.cache)) [
        | inl absent ↦
            let none_at = value_at-none rk db.cache absent in
            of-same rk db Op.del r none none_at (ground (arith, absent)) (ground (arith, absent))
              refl d
        | inr (e, found) ↦
            of-Writes rk db Op.del r (some e.value) (Cache.erase_entry rk db.cache)
              (value_at-some rk db.cache found refl) (ground (arith, found)) (ground (arith, found))
              (erase_entry-Writes rk db.cache d)
      ]

module _ {F S : Type 0} ⦃T : TimerSet S⦄ where
  pub set-Acts :
      (now : ℤ) (rk : RedisKey) (text : Bytes) (db : Db F S)
      → IsQuiet db.cache
      → Acts rk db (Op.set text) (Strings.set now rk text (pos 0) 1 db)
  unfolding Strings.set act
  set-Acts now rk text db d =
      let new : CacheEntry F = new_entry rk (Value.bytes text) in
      let v : Value F = Value.bytes text in
      of-Writes rk db (Op.set text) (Strings.set now rk text (pos 0) 1 db) (value_at rk db.cache)
        (Cache.insert_if now new (pos 0) false false db.cache).0 refl
        (ground (arith, insert_if-is_refused now new (pos 0) false false db.cache)) (ground arith)
        (insert_if-Writes now rk v db.cache d)

  counter_value-Acts :
      (rk : RedisKey) (up : Bool) (db : Db F S) (e : CacheEntry F) (v : Value F)
      → Cache.find rk db.cache ≡ some e
      → e.value ≡ v
      → IsQuiet db.cache
      → Acts rk db (Op.incr up) (Strings.counter_by rk 1 up db)
  unfolding Strings.counter_by Strings.counter_value act step_of
  counter_value-Acts rk up db e (Value.int64 n) found q d =
      of-Writes rk db (Op.incr up) (Strings.counter_by rk 1 up db) (some (Value.int64 n))
        (Cache.assign rk (Value.int64 (stepped up n)) db.cache) (value_at-some rk db.cache found q)
        (ground (arith, found, q, next-add_word n up))
        (ground (arith, found, q, next-add_word n up))
        (assign-Writes rk (Value.int64 (stepped up n)) db.cache found d)
  counter_value-Acts rk up db e v found q d =
      of-same rk db (Op.incr up) (Strings.counter_by rk 1 up db) (some v)
        (value_at-some rk db.cache found q) (ground (arith, found, q)) (ground (arith, found, q))
        refl d

  pub counter_by-Acts :
      (rk : RedisKey) (up : Bool) (db : Db F S)
      → IsQuiet db.cache
      → Acts rk db (Op.incr up) (Strings.counter_by rk 1 up db)
  unfolding Strings.counter_by act
  counter_by-Acts rk up db d = elim (Option-cases (Cache.find rk db.cache)) [
    | inl absent ↦
        of-Writes rk db (Op.incr up) (Strings.counter_by rk 1 up db) none
          (Cache.replace (new_entry rk (Value.int64 1)) db.cache).0
          (value_at-none rk db.cache absent) (ground (arith, absent)) (ground (arith, absent))
          (replace-Writes rk (Value.int64 1) db.cache d)
    | inr (e, found) ↦ counter_value-Acts rk up db e e.value found refl d
  ]

module _ {F S : Type 0} where
  push_list-Acts :
      (rk : RedisKey) (head : Bool) (text : Bytes) (db : Db F S) (e : CacheEntry F) (v : Value F)
      → Cache.find rk db.cache ≡ some e
      → e.value ≡ v
      → IsQuiet db.cache
      → Acts rk db (Op.push head text) (Lists.push rk text true head db)
  unfolding Lists.push Lists.push_multi Lists.push_list act push_to
  push_list-Acts rk head text db e (Value.list l) found q d =
      of-Writes rk db (Op.push head text) (Lists.push rk text true head db) (some (Value.list l))
        (Cache.assign rk (Value.list (pushed head text l)) db.cache)
        (value_at-some rk db.cache found q) (ground (arith, found, q, push_all-pushed head text l))
        (ground (arith, found, q, push_all-pushed head text l))
        (assign-Writes rk (Value.list (pushed head text l)) db.cache found d)
  push_list-Acts rk head text db e v found q d =
      of-same rk db (Op.push head text) (Lists.push rk text true head db) (some v)
        (value_at-some rk db.cache found q) (ground (arith, found, q)) (ground (arith, found, q))
        refl d

  pub push-Acts :
      (rk : RedisKey) (head : Bool) (text : Bytes) (db : Db F S)
      → IsQuiet db.cache
      → Acts rk db (Op.push head text) (Lists.push rk text true head db)
  unfolding Lists.push Lists.push_multi Lists.push_list act
  push-Acts rk head text db d = elim (Option-cases (Cache.find rk db.cache)) [
    | inl absent ↦
        let c1 = Cache.insert (new_entry rk (Value.list [])) db.cache in
        let first : CacheEntry F = new_entry rk (Value.list []) in
        let new : Value F = Value.list (text ∷ []) in
        let made = insert-Writes rk (Value.list []) db.cache absent d in
        of-Writes rk db (Op.push head text) (Lists.push rk text true head db) none
          (Cache.assign rk new c1) (value_at-none rk db.cache absent)
          (ground (arith, absent, push_all-pushed head text []))
          (ground (arith, absent, push_all-pushed head text []))
          (then-Writes rk (some (Value.list [])) (some new) db.cache c1 (Cache.assign rk new c1)
            made
            (assign-Writes rk new c1 {e = first}
              (ground (arith, absent, find-insert rk first db.cache, same_key_refl rk)) made.1))
    | inr (e, found) ↦ push_list-Acts rk head text db e e.value found refl d
  ]
