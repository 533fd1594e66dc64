-- ===== src/Database/Spares/Lists.antt =====
-- The handlers of lists touch no entry but that of their key.
use pedis.Base.{Bool, true, false, List, [], not, if◌then◌else◌, arith, Option-cases, inl, inr}
use pedis.Base.Int.{ℤ}
use pedis.Base.Bytes.{Bytes}
use pedis.ListLsa
use pedis.Keys.{RedisKey}
use pedis.TimerSet.{TimerSet}
use pedis.Cache
use pedis.Cache.{Value}
use pedis.Cache.Table.{IsDistinct}
use pedis.Reply.{Message}
use pedis.Database.{Stat, Db, bump, create, say}
use pedis.Database.Lists
use pedis.Database.Sound.{list_cases}
use pedis.Database.Spares.{
  Leaves, LeavesIf, same-Spares, assign-Spares, created-Spares, store_back-Spares,
}

module _ {F S : Type 0} where
  pub push_multi-Spares :
      (rk : RedisKey) (values : List Bytes) (force left : Bool) (db : Db F S)
      → Leaves rk db (Lists.push_multi rk values force left db)
  unfolding Lists.push_multi Lists.push_list
  push_multi-Spares rk values force left db =
      list_cases (Leaves rk db) _ _ (created force) (same-Spares rk db.cache) _
        (Cache.find rk db.cache) (λ x l _ _. assign-Spares rk _ db.cache)
    where
      created :
          (b : Bool)
          → Leaves rk db (
              if not b
              then (say Message.err, bump (if left then Stat.lpush else Stat.rpush) db)
              else Lists.push_list rk values left
                  (create rk
                    (Value.list [])
                    Stat.total_list_entries
                    (bump (if left then Stat.lpush else Stat.rpush) db))
                  [])
      created false = same-Spares rk db.cache
      created true = created-Spares rk _ _ db.cache

  pub lset-Spares :
      (rk : RedisKey) (idx : ℤ) (val : Bytes) (db : Db F S)
      → LeavesIf rk db (Lists.lset rk idx val db)
  unfolding Lists.lset
  lset-Spares rk idx val db =
      list_cases (LeavesIf rk db) _ _ (same-Spares rk db.cache) (same-Spares rk db.cache) _
        (Cache.find rk db.cache) (λ x l _ _. ground (arith, same-Spares rk db.cache))

module _ {F S : Type 0} ⦃T : TimerSet S⦄ where
  pub pop-Spares :
      (rk : RedisKey) (left : Bool) (db : Db F S)
      → IsDistinct db.cache.store
      → LeavesIf rk db (Lists.pop rk left db)
  unfolding Lists.pop
  pop-Spares rk left db d =
      let stay = same-Spares rk db.cache in
      list_cases (LeavesIf rk db) _ _ stay stay _ (Cache.find rk db.cache) (λ x l _ _.
        elim (Option-cases (if left then ListLsa.front l else ListLsa.back l)) [
          | inl lost ↦ rw lost tt
          | inr (b, kept) ↦ rw kept (
              store_back-Spares rk _ _ _
                (bump (if left then Stat.lpop else Stat.rpop) (bump Stat.read db)) d)
        ])

  pub lrem-Spares :
      (rk : RedisKey) (count : ℤ) (val : Bytes) (db : Db F S)
      → IsDistinct db.cache.store
      → LeavesIf rk db (Lists.lrem rk count val db)
  unfolding Lists.lrem
  lrem-Spares rk count val db d =
      let stay = same-Spares rk db.cache in
      list_cases (LeavesIf rk db) _ _ stay stay _ (Cache.find rk db.cache) (λ x l _ _.
        elim (Option-cases (Lists.rem_of count val l)) [
          | inl lost ↦ rw lost tt
          | inr (r, kept) ↦ rw kept (store_back-Spares rk _ _ _ (bump Stat.lrem db) d)
        ])

  pub ltrim-Spares :
      (rk : RedisKey) (start end : ℤ) (db : Db F S)
      → IsDistinct db.cache.store
      → LeavesIf rk db (Lists.ltrim rk start end db)
  unfolding Lists.ltrim
  ltrim-Spares rk start end db d =
      let stay = same-Spares rk db.cache in
      list_cases (LeavesIf rk db) _ _ stay stay _ (Cache.find rk db.cache) (λ x l _ _.
        elim (Option-cases (Lists.trim_of start end l)) [
          | inl lost ↦ rw lost tt
          | inr (l', kept) ↦ rw kept (store_back-Spares rk _ _ _ (bump Stat.ltrim db) d)
        ])
