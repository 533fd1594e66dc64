-- ===== src/Database/Laws/SortedSets.antt =====
-- ZADD, ZINCRBY, ZREM and ZSCORE against one another.
use pedis.Base.{
  ℕ, ◌≡◌, refl, true, false, Option, none, some, List, [], ◌∷◌, arith, if◌then◌else◌, inl, inr, ◌⊎◌,
}
use pedis.Base.Bytes.{Bytes, bytes_eq}
use pedis.Base.Bytes.Order.{bytes_eq→eq, bytes_eq_refl}
use pedis.Double.{Double}
use pedis.Ordered.{exists}
use pedis.SsetLsa
use pedis.SsetLsa.{
  Sset, SsetEntry, sset_key, score, add_new, update_old, add_or_update, for_members,
  insert_or_update,
}
use pedis.SsetLsa.Updates.{
  score-add_new, score-update_old, score-add_or_update, score-insert_or_update,
}
use pedis.Keys.{RedisKey, same_key_refl}
use pedis.Cache
use pedis.Cache.{CacheEntry, Value, new_entry}
use pedis.Cache.Effects.{find-assign, find-insert}
use pedis.Reply.{Reply}
use pedis.Database.{Db}
use pedis.Database.SortedSets

exists-score :
    {F : Type 0} (k : Bytes) (s : Sset F)
    → exists sset_key k s.dict ≡ (elim (score k s) [ none ↦ false | some x ↦ true ])
unfolding exists score
exists-score k s = ground arith

abbrev pub or_else : {F : Type 0} → Option F → Option F → Option F
or_else none y = y
or_else (some x) y = some x

-- The score that a request gives a member: the last one of it.
unfoldable pub last_score : {F : Type 0} → Bytes → List (Bytes × F) → Option F
last_score j [] = none
last_score j ((k, x) ∷ members) =
    let rest = last_score j members in or_else rest (if bytes_eq j k then some x else none)

-- The first one of it.
unfoldable pub first_score : {F : Type 0} → Bytes → List (Bytes × F) → Option F
first_score j [] = none
first_score j ((k, x) ∷ members) =
    let rest = first_score j members in if bytes_eq j k then some x else rest

module _ {F : Type 0} ⦃D : Double F⦄ where
  -- After the loop of ZADD CH each member has the last score that the request gives it, and a
  -- member that the request does not name has the score it had.
  pub score-add_or_update_all :
      (j : Bytes) (members : List (Bytes × F)) (s : Sset F) (n : ℕ)
      → score j (for_members add_or_update members (s, n)).0
        ≡ or_else (last_score j members) (score j s)
  unfolding for_members last_score
  score-add_or_update_all j [] s n = refl
  score-add_or_update_all j ((k, x) ∷ members) s n =
      let r = add_or_update (k, x) (s, n) in
      ground (arith, score-add_or_update_all j members r.0 r.1, score-add_or_update j k x s n)

  -- After the loop of ZADD NX a member that was there has the score it had, and each other member
  -- the first score that the request gives it.
  pub score-add_new_all :
      (j : Bytes) (members : List (Bytes × F)) (s : Sset F) (n : ℕ)
      → score j (for_members add_new members (s, n)).0 ≡ or_else (score j s) (first_score j members)
  unfolding for_members first_score
  score-add_new_all j [] s n = ground arith
  score-add_new_all j ((k, x) ∷ members) s n =
      let r = add_new (k, x) (s, n) in
      ground (
        arith,
        score-add_new_all j members r.0 r.1,
        score-add_new j k x s n,
        exists-score k s,
        bytes_eq→eq j k,
      )

  -- After the loop of ZADD XX a member that was not there has no score, and each member that was
  -- there the last score that the request gives it, or the one it had.
  pub score-update_old_all :
      (j : Bytes) (members : List (Bytes × F)) (s : Sset F) (n : ℕ)
      → score j (for_members update_old members (s, n)).0
        ≡ (elim (score j s) [ none ↦ none | some x ↦ or_else (last_score j members) (some x) ])
  unfolding for_members last_score
  score-update_old_all j [] s n = ground arith
  score-update_old_all j ((k, x) ∷ members) s n =
      let r = update_old (k, x) (s, n) in
      ground (
        arith,
        score-update_old_all j members r.0 r.1,
        score-update_old j k x s n,
        exists-score k s,
        bytes_eq→eq j k,
      )

-- The sorted set of a key: empty where there is no key, and `none` where the value has another
-- type.
abbrev pub when_scores : {F : Type 0} → Value F → Option (Sset F)
when_scores (Value.sset s) = some s
when_scores _ = none

abbrev pub sset_of : {F : Type 0} → Option (CacheEntry F) → Option (Sset F)
sset_of none = some SsetLsa.empty
sset_of (some e) = when_scores e.value

when_scores-sset :
    {F : Type 0} (v : Value F) (s : Sset F) → when_scores v ≡ some s → v ≡ Value.sset s
when_scores-sset (Value.sset z) s h = ground (arith, h)
when_scores-sset (Value.numeric _) s h = ground (arith, h)
when_scores-sset _ s h = ground (arith, h)

sset_of-cases :
    {F : Type 0} (o : Option (CacheEntry F)) (s : Sset F)
    → sset_of o ≡ some s
    → ((o ≡ none) × (s ≡ SsetLsa.empty))
      ⊎ ((e : CacheEntry F) × (o ≡ some e) × (e.value ≡ Value.sset s))
sset_of-cases none s h = inl (refl, ground (arith, h))
sset_of-cases (some e) s h = inr (e, refl, when_scores-sset e.value s h)

module _ {F S : Type 0} where
  abbrev pub sset_at : RedisKey → Db F S → Option (Sset F)
  sset_at rk db = sset_of (Cache.find rk db.cache)

module _ {F S : Type 0} ⦃D : Double F⦄ where
  zincrby-sset_at :
      (rk : RedisKey) (member : Bytes) (delta : F) (db : Db F S) (s : Sset F)
      → sset_at rk db ≡ some s
      → let r = insert_or_update member delta s in
        ((SortedSets.zincrby rk member delta db).0 ≡ Reply.double r.1)
        × ((e : CacheEntry F) × (Cache.find rk (SortedSets.zincrby rk member delta db).1.cache
              ≡ some e)
            × (e.value ≡ Value.sset r.0))
  unfolding SortedSets.zincrby SortedSets.zincrby_sset
  zincrby-sset_at rk member delta db s h =
      let r = insert_or_update member delta s in
      let e0 : CacheEntry F = new_entry rk (Value.sset SsetLsa.empty) in
      let v : Value F = Value.sset r.0 in
      elim (sset_of-cases (Cache.find rk db.cache) s h) [
        | inl (absent, nothing) ↦ (
          ground (arith, absent, nothing),
          (
            new_entry rk v,
            ground (
              arith,
              absent,
              nothing,
              find-insert rk e0 db.cache,
              find-assign rk rk v (Cache.insert e0 db.cache),
              same_key_refl rk,
            ),
            refl,
          ),
        )
        | inr (e, found, is_sset) ↦ (
          ground (arith, found, is_sset),
          (
            Cache.set_value v e,
            ground (arith, found, is_sset, find-assign rk rk v db.cache, same_key_refl rk),
            refl,
          ),
        )
      ]

  -- For a key that is missing or holds a sorted set: ZINCRBY replies the member's old score with
  -- `delta` added, or `delta` for a new member, and ZSCORE afterwards replies the same.
  pub zscore-zincrby :
      (rk : RedisKey) (member : Bytes) (delta : F) (db : Db F S) (s : Sset F)
      → sset_at rk db ≡ some s
      → ((SortedSets.zincrby rk member delta db).0
          ≡ Reply.double (elim (score member s) [ none ↦ delta | some x ↦ D.add delta x ]))
        × ((SortedSets.zscore rk member (SortedSets.zincrby rk member delta db).1).0
            ≡ (SortedSets.zincrby rk member delta db).0)
  unfolding SortedSets.zscore
  zscore-zincrby rk member delta db s h =
      let (reply, (e, found, is_sset)) = zincrby-sset_at rk member delta db s h in
      (
        ground (arith, reply, score-insert_or_update member member delta s),
        ground (
          arith,
          reply,
          found,
          is_sset,
          score-insert_or_update member member delta s,
          bytes_eq_refl member,
        ),
      )
