-- ===== src/SsetLsa/Links.antt =====
-- The two indices of a sorted set hold the same entries: `_dict` in key order, `_list` by score.
use pedis.Base.{
  false, ◌≡◌, refl, sym, ◌∙◌, true, Option, none, some, List, [], ◌∷◌, arith, if◌then◌else◌, inl,
  inr, Option-cases,
}
use pedis.Base.Bytes.{Bytes, bytes_eq}
use pedis.Base.Bytes.Order.{bytes_eq→eq, bytes_eq_refl}
use pedis.Double.{Double}
use pedis.Ordered.{find, exists}
use pedis.Ordered.Sorted.{IsSorted, insert-IsSorted, erase-IsSorted, modify-IsSorted}
use pedis.Ordered.Lookup.{find-insert, find-erase, find-modify, key-find}
use pedis.SsetLsa.{
  SsetEntry, Sset, sset_key, empty, set_score, insert, unlink, unlink_both, rescore, score,
}
use pedis.SsetLsa.Placement.{
  place, IsOrdered, insert_ordered-place, insert_ordered-IsOrdered, unlink-IsOrdered,
}

module _ {F : Type 0} where
  -- The entry of a key in `_list`.
  pub find_key : Bytes → List (SsetEntry F) → Option (SsetEntry F)
  find_key k [] = none
  find_key k (x ∷ l) = let rest = find_key k l in if bytes_eq x.key k then some x else rest

  abbrev pub HasDistinctKeys : List (SsetEntry F) → Type 0
  HasDistinctKeys [] = Unit
  HasDistinctKeys (x ∷ l) = (find_key x.key l ≡ none) × HasDistinctKeys l

  find_key-unlink :
      (j k : Bytes) (l : List (SsetEntry F))
      → HasDistinctKeys l
      → find_key j (unlink k l) ≡ (if bytes_eq j k then none else find_key j l)
  unfolding find_key unlink
  find_key-unlink j k [] d = ground arith
  find_key-unlink j k (x ∷ l) d = ground (
    arith,
    find_key-unlink j k l d.1,
    bytes_eq→eq j k,
    bytes_eq→eq x.key k,
    bytes_eq→eq x.key j,
    bytes_eq_refl k,
    bytes_eq_refl j,
  )

  find_key-unlink-none :
      (j k : Bytes) (l : List (SsetEntry F)) → find_key j l ≡ none → find_key j (unlink k l) ≡ none
  unfolding find_key unlink
  find_key-unlink-none j k [] h = refl
  find_key-unlink-none j k (x ∷ l) h = ground (arith, find_key-unlink-none j k l)

  unlink-HasDistinctKeys :
      (k : Bytes) (l : List (SsetEntry F)) → HasDistinctKeys l → HasDistinctKeys (unlink k l)
  unfolding unlink
  unlink-HasDistinctKeys k [] d = tt
  unlink-HasDistinctKeys k (x ∷ l) d =
      ground (arith, unlink-HasDistinctKeys k l d.1, find_key-unlink-none x.key k l d.0)

module _ {F : Type 0} ⦃D : Double F⦄ where
  find_key-place :
      (j : Bytes) (e : SsetEntry F) (l : List (SsetEntry F))
      → find_key e.key l ≡ none
      → find_key j (place e l) ≡ (if bytes_eq j e.key then some e else find_key j l)
  unfolding find_key place
  find_key-place j e [] h =
      ground (arith, bytes_eq→eq j e.key, bytes_eq→eq e.key j, bytes_eq_refl j)
  find_key-place j e (x ∷ l) h = ground (
    arith,
    find_key-place j e l,
    bytes_eq→eq j e.key,
    bytes_eq→eq e.key j,
    bytes_eq→eq x.key e.key,
    bytes_eq→eq x.key j,
    bytes_eq_refl j,
  )

  place-HasDistinctKeys :
      (e : SsetEntry F) (l : List (SsetEntry F))
      → find_key e.key l ≡ none
      → HasDistinctKeys l
      → HasDistinctKeys (place e l)
  unfolding place find_key
  place-HasDistinctKeys e [] h d = (refl, tt)
  place-HasDistinctKeys e (x ∷ l) h d = ground (
    arith,
    place-HasDistinctKeys e l,
    find_key-place x.key e l,
    bytes_eq→eq x.key e.key,
    bytes_eq_refl e.key,
  )

  pub record IsValid (s : Sset F) : Type 0 where
    pub sorted : IsSorted sset_key s.dict
    pub ordered : IsOrdered s.list
    pub distinct : HasDistinctKeys s.list
    pub linked : (k : Bytes) → find sset_key k s.dict ≡ find_key k s.list

  pub empty-IsValid : IsValid empty
  unfolding find find_key
  empty-IsValid = record { sorted = tt; ordered = tt; distinct = tt; linked = λ k. refl }

  -- A new entry in both indices.
  pub insert-IsValid :
      (e : SsetEntry F) (s : Sset F)
      → find sset_key e.key s.dict ≡ none
      → D.is_nan e.score ≡ false
      → IsValid s
      → IsValid (insert e s).0
  unfolding insert
  insert-IsValid e s absent n v =
      let absent' : find_key e.key s.list ≡ none = sym (v.linked e.key) ∙ absent in
      record {
        sorted = insert-IsSorted sset_key e s.dict v.sorted;
        ordered = insert_ordered-IsOrdered e s.list n v.ordered;
        distinct = rw insert_ordered-place (place-HasDistinctKeys e s.list absent' v.distinct);
        linked = λ k. rw insert_ordered-place (
            ground (
              arith,
              absent,
              absent',
              v.linked k,
              find-insert sset_key k e s.dict,
              find_key-place k e s.list absent',
              bytes_eq→eq k e.key,
            ));
      }

  pub unlink_both-IsValid : (k : Bytes) (s : Sset F) → IsValid s → IsValid (unlink_both k s)
  unfolding unlink_both
  unlink_both-IsValid k s v = record {
    sorted = erase-IsSorted sset_key k s.dict v.sorted;
    ordered = unlink-IsOrdered k s.list v.ordered;
    distinct = unlink-HasDistinctKeys k s.list v.distinct;
    linked = λ j. ground (
      arith,
      v.linked j,
      find-erase sset_key j k s.dict v.sorted,
      find_key-unlink j k s.list v.distinct,
    );
  }

  find-rescore :
      (j k : Bytes) (x : F) (s : Sset F)
      → exists sset_key k s.dict ≡ true
      → find sset_key j (rescore k x s).dict
        ≡ (if bytes_eq j k then some (record { key = k; score = x }) else find sset_key j s.dict)
  unfolding rescore exists
  find-rescore j k x s there = elim (Option-cases (find sset_key k s.dict)) [
    | inl absent ↦ ground arith
    | inr (e, found) ↦
        let same : e.key ≡ k = key-find sset_key k s.dict found in
        ground (arith, find-modify sset_key (set_score x) j k s.dict (λ e. refl), bytes_eq→eq j k)
  ]

  -- A moved entry in both indices.
  pub rescore-IsValid :
      (k : Bytes) (x : F) (s : Sset F)
      → exists sset_key k s.dict ≡ true
      → D.is_nan x ≡ false
      → IsValid s
      → IsValid (rescore k x s)
  unfolding rescore
  rescore-IsValid k x s there n v =
      let gone : find_key k (unlink k s.list) ≡ none =
        ground (arith, find_key-unlink k k s.list v.distinct, bytes_eq_refl k) in
      let e : SsetEntry F = record { key = k; score = x } in
      record {
        sorted = modify-IsSorted sset_key (set_score x) (λ e. refl) k s.dict v.sorted;
        ordered =
            insert_ordered-IsOrdered e (unlink k s.list) n (unlink-IsOrdered k s.list v.ordered);
        distinct = rw insert_ordered-place (
            place-HasDistinctKeys e (unlink k s.list) gone
              (unlink-HasDistinctKeys k s.list v.distinct));
        linked = λ j.
            find-rescore j k x s there
            ∙ sym (
                rw insert_ordered-place (
                  ground (
                    arith,
                    v.linked j,
                    find_key-place j e (unlink k s.list) gone,
                    find_key-unlink j k s.list v.distinct,
                  )));
      }

  -- What a score lookup sees after an entry is moved.
  pub score-rescore :
      (j k : Bytes) (x : F) (s : Sset F)
      → exists sset_key k s.dict ≡ true
      → score j (rescore k x s) ≡ (if bytes_eq j k then some x else score j s)
  unfolding score
  score-rescore j k x s there = ground (arith, find-rescore j k x s there)

  pub score-insert :
      (j : Bytes) (e : SsetEntry F) (s : Sset F)
      → find sset_key e.key s.dict ≡ none
      → score j (insert e s).0 ≡ (if bytes_eq j e.key then some e.score else score j s)
  unfolding score insert
  score-insert j e s absent =
      ground (arith, absent, find-insert sset_key j e s.dict, bytes_eq→eq j e.key)

  pub score-unlink_both :
      (j k : Bytes) (s : Sset F)
      → IsValid s
      → score j (unlink_both k s) ≡ (if bytes_eq j k then none else score j s)
  unfolding score unlink_both
  score-unlink_both j k s v = ground (arith, find-erase sset_key j k s.dict v.sorted)
