-- ===== src/Database/Sound/Lists.antt =====
-- The handlers of lists keep the cache sound: no list is left empty under its key.
use pedis.Base.{
  suc, ◌+◌, ◌≡◌, ◌≢◌, refl, Bool, true, false, List, [], ◌∷◌, arith, if◌then◌else◌, length,
  is_empty, ap, not, length-append, Option-cases, inl, inr,
}
use pedis.Base.Int.{ℤ}
use pedis.Base.Bytes.{Bytes}
use pedis.Double.{Double}
use pedis.ListLsa
use pedis.Keys.{RedisKey}
use pedis.TimerSet.{TimerSet}
use pedis.Cache
use pedis.Cache.{CacheEntry, Value}
use pedis.Reply.{Message}
use pedis.Database.{Db, Stat, bump, create, say, store_back}
use pedis.Database.Lists
use pedis.Database.Lists.{push_all}
use pedis.Database.Sound.{
  IsSound, weaken, assign-IsSound, assign_created-IsSound, store_back-IsSound, Leaves, LeavesIf,
  list_cases,
}

length-insert :
    (left : Bool) (v : Bytes) (l : List Bytes)
    → length (if left then ListLsa.insert_head v l else ListLsa.insert_tail v l) ≡ suc (length l)
unfolding ListLsa.insert_head ListLsa.insert_tail
length-insert true v l = refl
length-insert false v l = omega (arith, length-append l (v ∷ []))

-- Every pushed value goes in.
pub length-push_all :
    (left : Bool) (values l : List Bytes)
    → length (push_all left values l) ≡ length values + length l
unfolding push_all
length-push_all left [] l = omega arith
length-push_all left (v ∷ values) l =
    let l' = if left then ListLsa.insert_head v l else ListLsa.insert_tail v l in
    omega (arith, length-insert left v l, length-push_all left values l')

pub is_empty-nonempty : {A : Type 0} (l : List A) → is_empty l ≡ false → l ≢ []
is_empty-nonempty l h q = ground (arith, h, q)

push_all-nonempty :
    (left : Bool) (values l : List Bytes) → values ≢ [] → push_all left values l ≢ []
push_all-nonempty left [] l h q = h refl
push_all-nonempty left (v ∷ values) l h q =
    omega (arith, length-push_all left (v ∷ values) l, ap length q)

push_all-onto : (left : Bool) (values l : List Bytes) → l ≢ [] → push_all left values l ≢ []
push_all-onto left values [] h q = h refl
push_all-onto left values (x ∷ l) h q =
    omega (arith, length-push_all left values (x ∷ l), ap length q)

module _ {F S : Type 0} ⦃D : Double F⦄ ⦃T : TimerSet S⦄ where
  -- LPUSH and RPUSH of one or more values.
  pub push_multi-IsSound :
      (rk : RedisKey) (values : List Bytes) (force left : Bool) (db : Db F S)
      → values ≢ []
      → IsSound db.cache
      → Leaves (Lists.push_multi rk values force left db)
  unfolding Lists.push_multi Lists.push_list
  push_multi-IsSound rk values force left db h s =
      list_cases Leaves _ _ (created force) s _ (Cache.find rk db.cache) (λ x l found is_list.
        assign-IsSound rk (Value.list (push_all left values l)) db.cache
          (push_all-nonempty left values l h) (weaken rk db.cache s))
    where
      created :
          (b : Bool)
          → Leaves (
              if not b
              then (say Message.err, bump (if left then Stat.lpush else Stat.rpush) db)
              else Lists.push_list rk values left
                  (create rk
                    (Value.list [])
                    Stat.total_list_entries
                    (bump (if left then Stat.lpush else Stat.rpush) db))
                  [])
      created false = s
      created true =
          assign_created-IsSound rk (Value.list []) (Value.list (push_all left values [])) db.cache
            (push_all-nonempty left values [] h) s

  -- A list written back by a handler that drops the key of an empty one.
  list_back-IsSound :
      (rk : RedisKey) (l : List Bytes) (db : Db F S)
      → IsSound db.cache
      → IsSound (store_back rk (Value.list l) (is_empty l) Stat.total_list_entries db).cache
  list_back-IsSound rk l db s =
      store_back-IsSound rk (Value.list l) (is_empty l) Stat.total_list_entries db
        (is_empty-nonempty l) s

  -- LPOP and RPOP
  pub pop-IsSound :
      (rk : RedisKey) (left : Bool) (db : Db F S)
      → IsSound db.cache
      → LeavesIf (Lists.pop rk left db)
  unfolding Lists.pop
  pop-IsSound rk left db s =
      list_cases LeavesIf _ _ s s _ (Cache.find rk db.cache) (λ x l found is_list.
        elim (Option-cases (if left then ListLsa.front l else ListLsa.back l)) [
          | inl lost ↦ rw lost tt
          | inr (b, kept) ↦ rw kept (
              list_back-IsSound rk (if left then ListLsa.pop_front l else ListLsa.pop_back l)
                (bump (if left then Stat.lpop else Stat.rpop) (bump Stat.read db)) s)
        ])

  -- LREM
  pub lrem-IsSound :
      (rk : RedisKey) (count : ℤ) (val : Bytes) (db : Db F S)
      → IsSound db.cache
      → LeavesIf (Lists.lrem rk count val db)
  unfolding Lists.lrem
  lrem-IsSound rk count val db s =
      list_cases LeavesIf _ _ s s _ (Cache.find rk db.cache) (λ x l found is_list.
        elim (Option-cases (Lists.rem_of count val l)) [
          | inl lost ↦ rw lost tt
          | inr (r, kept) ↦ rw kept (list_back-IsSound rk r.0 (bump Stat.lrem db) s)
        ])

  -- LTRIM
  pub ltrim-IsSound :
      (rk : RedisKey) (start end : ℤ) (db : Db F S)
      → IsSound db.cache
      → LeavesIf (Lists.ltrim rk start end db)
  unfolding Lists.ltrim
  ltrim-IsSound rk start end db s =
      list_cases LeavesIf _ _ s s _ (Cache.find rk db.cache) (λ x l found is_list.
        elim (Option-cases (Lists.trim_of start end l)) [
          | inl lost ↦ rw lost tt
          | inr (l', kept) ↦ rw kept (list_back-IsSound rk l' (bump Stat.ltrim db) s)
        ])

  -- LSET
  pub lset-IsSound :
      (rk : RedisKey) (idx : ℤ) (val : Bytes) (db : Db F S)
      → IsSound db.cache
      → LeavesIf (Lists.lset rk idx val db)
  unfolding Lists.lset
  lset-IsSound rk idx val db s =
      list_cases LeavesIf _ _ s s _ (Cache.find rk db.cache)
        (λ x l found is_list. ground (arith, s))
