-- ===== src/SsetLsa/Updates.antt =====
-- ZADD, ZINCRBY and ZREM on a sorted set: what they do to scores, and that they keep it valid.
use pedis.Base.{
  ℕ, ◌≡◌, refl, Bool, true, false, none, some, List, [], ◌∷◌, arith, if◌then◌else◌, inl, inr, on_if,
  Option-cases, ◌&&◌, not, ◌||◌,
}
use pedis.Base.Bytes.{Bytes, bytes_eq}
use pedis.Base.Bytes.Order.{bytes_eq→eq}
use pedis.Double.{Double}
use pedis.Ordered.{find, exists}
use pedis.SsetLsa.{
  SsetEntry, Sset, sset_key, unlink_both, score, add_new, update_old, add_or_update, for_members,
  insert_or_update, erase_keys, erase_entries,
}
use pedis.SsetLsa.Links.{
  IsValid, insert-IsValid, unlink_both-IsValid, rescore-IsValid, score-rescore, score-insert,
  score-unlink_both,
}

absent_of :
    {F : Type 0} (k : Bytes) (s : Sset F)
    → exists sset_key k s.dict ≡ false
    → find sset_key k s.dict ≡ none
unfolding exists
absent_of k s h = ground arith

score_absent :
    {F : Type 0} (k : Bytes) (s : Sset F) → exists sset_key k s.dict ≡ false → score k s ≡ none
unfolding exists score
score_absent k s h = ground arith

there_of :
    {F : Type 0} (k : Bytes) (s : Sset F) {e : SsetEntry F}
    → find sset_key k s.dict ≡ some e
    → exists sset_key k s.dict ≡ true
unfolding exists
there_of k s h = ground arith

module _ {F : Type 0} ⦃D : Double F⦄ where
  -- NX: a member that is there keeps its score.
  pub score-add_new :
      (j k : Bytes) (x : F) (s : Sset F) (n : ℕ)
      → score j (add_new (k, x) (s, n)).0
        ≡ (if bytes_eq j k && not (exists sset_key k s.dict) then some x else score j s)
  unfolding add_new
  score-add_new j k x s n =
      ground (arith, score-insert j (record { key = k; score = x }) s, absent_of k s)

  -- XX: a member that is not there stays out.
  pub score-update_old :
      (j k : Bytes) (x : F) (s : Sset F) (n : ℕ)
      → score j (update_old (k, x) (s, n)).0
        ≡ (if bytes_eq j k && exists sset_key k s.dict then some x else score j s)
  unfolding update_old
  score-update_old j k x s n = ground (arith, score-rescore j k x s)

  -- CH: the member has the score in the end, in both cases.
  pub score-add_or_update :
      (j k : Bytes) (x : F) (s : Sset F) (n : ℕ)
      → score j (add_or_update (k, x) (s, n)).0 ≡ (if bytes_eq j k then some x else score j s)
  unfolding add_or_update
  score-add_or_update j k x s n = ground (
    arith,
    score-rescore j k x s,
    score-insert j (record { key = k; score = x }) s,
    absent_of k s,
  )

  abbrev pub Keeps : (Bytes × F → Sset F × ℕ → Sset F × ℕ) → Type 0
  Keeps round =
      (m : Bytes × F) (acc : Sset F × ℕ)
      → D.is_nan m.1 ≡ false
      → IsValid acc.0
      → IsValid (round m acc).0

  -- No score of a request is NaN.
  abbrev pub AreNumbers : List (Bytes × F) → Type 0
  AreNumbers [] = Unit
  AreNumbers (m ∷ members) = (D.is_nan m.1 ≡ false) × AreNumbers members

  pub add_new-IsValid : Keeps add_new
  unfolding add_new
  add_new-IsValid (k, x) (s, n) number v =
      ground (arith, insert-IsValid (record { key = k; score = x }) s, absent_of k s)

  pub update_old-IsValid : Keeps update_old
  unfolding update_old
  update_old-IsValid (k, x) (s, n) number v = ground (arith, rescore-IsValid k x s)

  pub add_or_update-IsValid : Keeps add_or_update
  unfolding add_or_update
  add_or_update-IsValid (k, x) (s, n) number v = ground (
    arith,
    rescore-IsValid k x s,
    insert-IsValid (record { key = k; score = x }) s,
    absent_of k s,
  )

  pub for_members-IsValid :
      (round : Bytes × F → Sset F × ℕ → Sset F × ℕ)
      → Keeps round
      → (members : List (Bytes × F)) (acc : Sset F × ℕ) → AreNumbers members
      → IsValid acc.0
      → IsValid (for_members round members acc).0
  unfolding for_members
  for_members-IsValid round keeps [] acc numbers v = v
  for_members-IsValid round keeps (m ∷ members) acc numbers v =
      for_members-IsValid round keeps members (round m acc) numbers.1 (keeps m acc numbers.0 v)

  -- Where the score that it gives is not NaN, ZINCRBY's update of a valid sorted set leaves a valid
  -- one: keys in strict order, scores that are numbers and do not fall, each key once in the list,
  -- and the same entries in both indices.
  pub insert_or_update-IsValid :
      (k : Bytes) (delta : F) (s : Sset F)
      → D.is_nan (insert_or_update k delta s).1 ≡ false
      → IsValid s
      → IsValid (insert_or_update k delta s).0
  unfolding insert_or_update
  insert_or_update-IsValid k delta s number v = elim (Option-cases (find sset_key k s.dict)) [
    | inl absent ↦
        rw (absent, insert_or_update)
          (insert-IsValid (record { key = k; score = delta }) s absent
            (ground (arith, number, absent)) v)
    | inr (e, found) ↦
        rw (found, insert_or_update)
          (rescore-IsValid k (D.add delta e.score) s (there_of k s found)
            (ground (arith, number, found)) v)
  ]

  -- ZINCRBY: the reply is the member's new score, the old one with `delta` added or `delta` itself,
  -- and no other member's score changes.
  pub score-insert_or_update :
      (j k : Bytes) (delta : F) (s : Sset F)
      → ((insert_or_update k delta s).1
          ≡ (elim (score k s) [ none ↦ delta | some x ↦ D.add delta x ]))
        × (score j (insert_or_update k delta s).0
            ≡ (if bytes_eq j k then some (insert_or_update k delta s).1 else score j s))
  unfolding insert_or_update
  score-insert_or_update j k delta s = elim (Option-cases (find sset_key k s.dict)) [
    | inl absent ↦ (
      unfold score in ground arith,
      ground (arith, score-insert j (record { key = k; score = delta }) s absent),
    )
    | inr (e, found) ↦ (
      unfold score in ground arith,
      ground (arith, score-rescore j k (D.add delta e.score) s (there_of k s found)),
    )
  ]

module _ {F : Type 0} ⦃D : Double F⦄ where
  pub erase_keys-IsValid :
      (keys : List Bytes) (s : Sset F) → IsValid s → IsValid (erase_keys keys s).0
  unfolding erase_keys
  erase_keys-IsValid [] s v = v
  erase_keys-IsValid (k ∷ keys) s v =
      erase_keys-IsValid keys (if exists sset_key k s.dict then unlink_both k s else s) (
        on_if IsValid (exists sset_key k s.dict) (unlink_both k s) s
          (λ _. unlink_both-IsValid k s v) (λ _. v))

  pub erase_entries-IsValid :
      (entries : List (SsetEntry F)) (s : Sset F) → IsValid s → IsValid (erase_entries entries s).0
  unfolding erase_entries
  erase_entries-IsValid [] s v = v
  erase_entries-IsValid (e ∷ entries) s v =
      erase_entries-IsValid entries (unlink_both e.key s) (unlink_both-IsValid e.key s v)

-- Whether a key is among those of a request.
pub among : Bytes → List Bytes → Bool
among j [] = false
among j (k ∷ keys) = bytes_eq j k || among j keys

module _ {F : Type 0} ⦃D : Double F⦄ where
  -- On a valid sorted set, ZREM's loop leaves the named members without a score and every other
  -- member with the score it had.
  pub score-erase_keys :
      (j : Bytes) (keys : List Bytes) (s : Sset F)
      → IsValid s
      → score j (erase_keys keys s).0 ≡ (if among j keys then none else score j s)
  unfolding erase_keys among
  score-erase_keys j [] s v = refl
  score-erase_keys j (k ∷ keys) s v =
      let there = exists sset_key k s.dict in
      let s' = if there then unlink_both k s else s in
      let v' : IsValid s' =
        on_if IsValid there (unlink_both k s) s (λ _. unlink_both-IsValid k s v) (λ _. v) in
      ground (
        arith,
        score-erase_keys j keys s' v',
        score-unlink_both j k s v,
        score_absent k s,
        bytes_eq→eq j k,
      )
