-- ===== src/Database/Laws/Lists.antt =====
-- Pushes, pops and the other handlers of lists against one another.
use pedis.Base.{
  ◌-◌, if◌then◌else◌, inr, inl, ℕ, zero, suc, ◌-◌, ◌<◌, ◌≡◌, refl, sym, ◌∙◌, ap, subst, Bool, true,
  false, Option, none, some, List, [], ◌∷◌, arith, if◌then◌else◌, Option-cases, inl, inr, ◌++◌,
  length, reverse, take, drop, get_elem?, is_empty,
}
use mathlib.Core.List.{append_assoc, append-nil, reverse-cons}
use pedis.Base.Int.{pos}
use pedis.Base.Bytes.{Bytes}
use pedis.ListLsa
use pedis.ListLsa.Positions.{index_of-never}
use pedis.Keys.{RedisKey, same_key_refl, same_key→eq}
use pedis.TimerSet.{TimerSet}
use pedis.Cache
use pedis.Cache.{CacheEntry, Value, new_entry}
use pedis.Cache.Timers
use pedis.Cache.Effects.{find-assign, find-erase, find-insert}
use pedis.Reply.{Reply}
use pedis.Database.{Stat, Db, bump, with_cache, store_back, alignment_index_base_on}
use pedis.Database.Lists
use pedis.Database.Lists.{push_all, range_of}

-- Pushing values at the head puts them before the list in reverse order, and pushing them at the
-- tail puts them behind it in their order.
pub push_all-append :
    (values l : List Bytes)
    → (push_all true values l ≡ reverse values ++ l) × (push_all false values l ≡ l ++ values)
unfolding push_all ListLsa.insert_head ListLsa.insert_tail
push_all-append [] l = (refl, sym (append-nil l))
push_all-append (v ∷ values) l = (
  (push_all-append values (v ∷ l)).0
      ∙ sym (append_assoc (reverse values) (v ∷ []) l)
      ∙ ap (λ r. r ++ l) (sym (reverse-cons v values)),
  (push_all-append values (l ++ v ∷ [])).1 ∙ append_assoc l (v ∷ []) values,
)

take-nil : (n : ℕ) → take {A = Bytes} n [] ≡ []
take-nil zero = refl
take-nil (suc n) = refl

drop-nil : (n : ℕ) → drop {A = Bytes} n [] ≡ []
drop-nil zero = refl
drop-nil (suc n) = refl

-- `range_loop` by `take` and `drop`.
range_loop-take :
    (start end : ℕ) (l : List Bytes)
    → Lists.range_loop start end l ≡ take (end - start) (drop start l)
unfolding Lists.range_loop
range_loop-take start end [] = ground (arith, drop-nil start, take-nil (end - start))
range_loop-take zero zero (x ∷ l) = refl
range_loop-take zero (suc end) (x ∷ l) = ground (arith, range_loop-take zero end l)
range_loop-take (suc start) zero (x ∷ l) = ground arith
range_loop-take (suc start) (suc end) (x ∷ l) = ground (arith, range_loop-take start end l)

-- For indices that are not negative and an `end` inside the list, LRANGE yields the elements from
-- `start` up to, and without, `end`.
pub range_of-take :
    (start end : ℕ) (l : List Bytes)
    → end < length l
    → range_of (pos start) (pos end) l ≡ take (end - start) (drop start l)
unfolding range_of alignment_index_base_on
range_of-take start end l h = ground (arith, range_loop-take start end l)

back-append :
    (l : List Bytes) (v : Bytes)
    → (ListLsa.back (l ++ v ∷ []) ≡ some v) × (ListLsa.pop_back (l ++ v ∷ []) ≡ l)
unfolding ListLsa.back ListLsa.pop_back
back-append [] v = (refl, refl)
back-append (x ∷ []) v = (refl, refl)
back-append (x ∷ y ∷ l) v = ((back-append (y ∷ l) v).0, ap (λ r. x ∷ r) (back-append (y ∷ l) v).1)

end_of : Bool → List Bytes → Option Bytes
end_of left l = if left then ListLsa.front l else ListLsa.back l

rest_of : Bool → List Bytes → List Bytes
rest_of left l = if left then ListLsa.pop_front l else ListLsa.pop_back l

end_of-push_all :
    (left : Bool) (v : Bytes) (l : List Bytes)
    → (end_of left (push_all left (v ∷ []) l) ≡ some v)
      × (rest_of left (push_all left (v ∷ []) l) ≡ l)
unfolding end_of rest_of push_all ListLsa.insert_head ListLsa.insert_tail ListLsa.front
    ListLsa.pop_front
end_of-push_all true v l = (refl, refl)
end_of-push_all false v l = back-append l v

get_elem?-some : (l : List Bytes) (n : ℕ) → n < length l → (b : Bytes) × (get_elem? l n ≡ some b)
get_elem?-some [] n h = elim h [ ]
get_elem?-some (x ∷ l) zero h = (x, refl)
get_elem?-some (x ∷ l) (suc n) h = get_elem?-some l n (omega arith)

module _ {F S : Type 0} ⦃T : TimerSet S⦄ where
  push-found :
      (rk : RedisKey) (val : Bytes) (l : List Bytes) (force left : Bool) (db : Db F S)
      {e : CacheEntry F}
      → Cache.find rk db.cache ≡ some e
      → e.value ≡ Value.list l
      → (Lists.push rk val force left db).1
        ≡ with_cache
            (Cache.assign rk (Value.list (push_all left (val ∷ []) l)) db.cache)
            (bump (if left then Stat.lpush else Stat.rpush) db)
  unfolding Lists.push Lists.push_multi Lists.push_list
  push-found rk val l force left db found is_list = ground (arith, found, is_list)

  -- What a pop leaves of a list.
  abbrev popped : RedisKey → Bool → List Bytes → Db F S → Db F S
  popped rk left l' db = bump Stat.hit (
      store_back rk (Value.list l') (is_empty l') Stat.total_list_entries
        (bump (if left then Stat.lpop else Stat.rpop) (bump Stat.read db)))

  pop-found :
      (rk : RedisKey) (b : Bytes) (l : List Bytes) (left : Bool) (db : Db F S) {e : CacheEntry F}
      → Cache.find rk db.cache ≡ some e
      → e.value ≡ Value.list l
      → end_of left l ≡ some b
      → Lists.pop rk left db ≡ some (Reply.bulk b, popped rk left (rest_of left l) db)
  unfolding Lists.pop end_of rest_of
  pop-found rk b l left db found is_list ends = ground (arith, found, is_list, ends)

  -- For a key that holds a list which is not empty: a push and then a pop at the same end replies
  -- the pushed value, and every key finds what it found before.
  pub pop-push :
      (rk : RedisKey) (val x : Bytes) (l : List Bytes) (force left : Bool) (db : Db F S)
      {e : CacheEntry F}
      → Cache.find rk db.cache ≡ some e
      → e.value ≡ Value.list (x ∷ l)
      → (db' : Db F S) × (Lists.pop rk left (Lists.push rk val force left db).1
          ≡ some (Reply.bulk val, db'))
        × ((k : RedisKey) → Cache.find k db'.cache ≡ Cache.find k db.cache)
  pop-push rk val x l force left db {e} found is_list =
      let l1 = push_all left (val ∷ []) (x ∷ l) in
      let c1 = Cache.assign rk (Value.list l1) db.cache in
      let db1 : Db F S = with_cache c1 (bump (if left then Stat.lpush else Stat.rpush) db) in
      let ends = end_of-push_all left val (x ∷ l) in
      (
        popped rk left (x ∷ l) db1,
        rw (push-found rk val (x ∷ l) force left db found is_list) (
            subst (λ r. Lists.pop rk left db1 ≡ some (Reply.bulk val, popped rk left r db1)) ends.1
              (pop-found rk val l1 left db1 {e = Cache.set_value (Value.list l1) e}
                (ground
                  (arith, found, find-assign rk rk (Value.list l1) db.cache, same_key_refl rk))
                refl ends.0)),
        λ k. ground (
          arith,
          found,
          is_list,
          find-assign k rk (Value.list l1) db.cache,
          find-assign k rk (Value.list (x ∷ l)) c1,
          same_key→eq k rk,
        ),
      )

  push-created :
      (rk : RedisKey) (val : Bytes) (left : Bool) (db : Db F S)
      → Cache.find rk db.cache ≡ none
      → (Lists.push rk val true left db).1
        ≡ with_cache
            (Cache.assign rk
              (Value.list (push_all left (val ∷ []) []))
              (Cache.insert (new_entry rk (Value.list [])) db.cache))
            (bump Stat.total_list_entries (bump (if left then Stat.lpush else Stat.rpush) db))
  unfolding Lists.push Lists.push_multi Lists.push_list
  push-created rk val left db absent = ground (arith, absent)

  -- On a valid cache, for a missing key: a push that makes the list and then a pop replies the
  -- pushed value, and every key finds what it found before; the emptied list is gone with its key.
  pub pop-push_created :
      (rk : RedisKey) (val : Bytes) (left : Bool) (db : Db F S)
      → Timers.IsValid db.cache
      → Cache.find rk db.cache ≡ none
      → (db' : Db F S) × (Lists.pop rk left (Lists.push rk val true left db).1
          ≡ some (Reply.bulk val, db'))
        × ((k : RedisKey) → Cache.find k db'.cache ≡ Cache.find k db.cache)
  pop-push_created rk val left db v absent =
      let l1 = push_all left (val ∷ []) [] in
      let e : CacheEntry F = new_entry rk (Value.list []) in
      let c0 = Cache.insert e db.cache in
      let c1 = Cache.assign rk (Value.list l1) c0 in
      let db1 : Db F S =
        with_cache c1
          (bump Stat.total_list_entries (bump (if left then Stat.lpush else Stat.rpush) db)) in
      let c2 = Cache.assign rk (Value.list []) c1 in
      let v2 =
        Timers.assign-IsValid rk (Value.list []) c1
          (Timers.assign-IsValid rk (Value.list l1) c0 (Timers.insert-IsValid e db.cache refl v)) in
      let ends = end_of-push_all left val [] in
      (
        popped rk left [] db1,
        rw (push-created rk val left db absent) (
            subst (λ r. Lists.pop rk left db1 ≡ some (Reply.bulk val, popped rk left r db1)) ends.1
              (pop-found rk val l1 left db1 {e = new_entry rk (Value.list l1)}
                (ground (
                  arith,
                  absent,
                  find-insert rk e db.cache,
                  find-assign rk rk (Value.list l1) c0,
                  same_key_refl rk,
                ))
                refl ends.0)),
        λ k. ground (
          arith,
          absent,
          find-insert k e db.cache,
          find-assign k rk (Value.list l1) c0,
          find-assign k rk (Value.list []) c1,
          same_key→eq k rk,
          find-erase k rk c2 v2.distinct,
        ),
      )

  llen-push_found :
      (rk : RedisKey) (values : List Bytes) (left : Bool) (db : Db F S) (e : CacheEntry F)
      → Cache.find rk db.cache ≡ some e
      → (Lists.llen rk (Lists.push_multi rk values true left db).1).0
        ≡ (Lists.push_multi rk values true left db).0
  unfolding Lists.llen Lists.push_multi Lists.push_list
  llen-push_found rk values left db e found = go e.value refl
    where
      go :
          (v : Value F)
          → e.value ≡ v
          → (Lists.llen rk (Lists.push_multi rk values true left db).1).0
            ≡ (Lists.push_multi rk values true left db).0
      go (Value.list l) q =
          let l1 = push_all left values l in
          ground (arith, found, q, find-assign rk rk (Value.list l1) db.cache, same_key_refl rk)
      go (Value.numeric _) q = ground (arith, found, q)
      go _ q = ground (arith, found, q)

  -- LLEN after LPUSH or RPUSH replies what the push replied, for every key: the new length, or the
  -- error of a key of another type.
  pub llen-push_multi :
      (rk : RedisKey) (values : List Bytes) (left : Bool) (db : Db F S)
      → (Lists.llen rk (Lists.push_multi rk values true left db).1).0
        ≡ (Lists.push_multi rk values true left db).0
  unfolding Lists.llen Lists.push_multi Lists.push_list
  llen-push_multi rk values left db = elim (Option-cases (Cache.find rk db.cache)) [
    | inl absent ↦
        let e : CacheEntry F = new_entry rk (Value.list []) in
        let v : Value F = Value.list (push_all left values []) in
        ground (
          arith,
          absent,
          find-insert rk e db.cache,
          find-assign rk rk v (Cache.insert e db.cache),
          same_key_refl rk,
        )
    | inr (e, found) ↦ llen-push_found rk values left db e found
  ]

  -- For a key that holds a list which is not empty, LINSERT has not returned after any number of
  -- nested calls of `equal`.
  pub linsert-never :
      (fuel : ℕ) (rk : RedisKey) (pivot val x : Bytes) (l : List Bytes) (after : Bool) (db : Db F S)
      {e : CacheEntry F}
      → Cache.find rk db.cache ≡ some e
      → e.value ≡ Value.list (x ∷ l)
      → Lists.linsert fuel rk pivot val after db ≡ none
  unfolding Lists.linsert
  linsert-never fuel rk pivot val x l after db found is_list =
      ground (arith, found, is_list, index_of-never fuel pivot x l)
