-- ===== src/Cache/Table.antt =====
-- The table of the cache as a finite map: what `find_in` sees after each change of the list, and
-- that no two entries share a key.
use mathlib.Core.Option
use pedis.Base.{◌≡◌, refl, List, [], ◌∷◌, arith, if◌then◌else◌, none, some, Option-cases, inl, inr}
use pedis.Keys.{RedisKey, same_key, same_key→eq, same_key_refl}
use pedis.Cache.{CacheEntry, entry_key, find_in, erase_in, insert_in, modify_in}
use pedis.Ordered.Lookup.{or_entry}

module _ {F : Type 0} where
  -- No two entries have the same key.
  abbrev pub IsDistinct : List (CacheEntry F) → Type 0
  IsDistinct [] = Unit
  IsDistinct (e ∷ l) = (find_in (entry_key e) l ≡ none) × IsDistinct l

  pub key-find_in :
      (k : RedisKey) (l : List (CacheEntry F)) {e : CacheEntry F}
      → find_in k l ≡ some e
      → k ≡ entry_key e
  unfolding find_in
  key-find_in k [] h = ground arith
  key-find_in k (x ∷ l) {e} h = ground (arith, key-find_in k l {e = e}, same_key→eq k (entry_key x))

  pub find-insert_in :
      (j : RedisKey) (e : CacheEntry F) (l : List (CacheEntry F))
      → find_in j (insert_in e l)
        ≡ (if same_key j (entry_key e) then or_entry (find_in j l) e else find_in j l)
  unfolding find_in insert_in
  find-insert_in j e l = ground (arith, same_key→eq j (entry_key e), same_key_refl (entry_key e))

  -- A key other than that of the entry erased, written through or in the way is not affected.
  pub find-erase_in :
      (j k : RedisKey) (l : List (CacheEntry F))
      → IsDistinct l
      → find_in j (erase_in k l) ≡ (if same_key j k then none else find_in j l)
  unfolding find_in erase_in
  find-erase_in j k [] d = ground arith
  find-erase_in j k (x ∷ l) d = ground (
    arith,
    find-erase_in j k l d.1,
    same_key→eq j k,
    same_key→eq k (entry_key x),
    same_key→eq j (entry_key x),
    same_key_refl k,
    same_key_refl j,
  )

  pub find-modify_in :
      (f : CacheEntry F → CacheEntry F) (j k : RedisKey) (l : List (CacheEntry F))
      → ((e : CacheEntry F) → entry_key (f e) ≡ entry_key e)
      → find_in j (modify_in f k l)
        ≡ (if same_key j k then Option.map f (find_in j l) else find_in j l)
  unfolding find_in modify_in
  find-modify_in f j k [] keeps = ground arith
  find-modify_in f j k (x ∷ l) keeps = ground (
    arith,
    keeps x,
    find-modify_in f j k l keeps,
    same_key→eq j k,
    same_key→eq k (entry_key x),
    same_key→eq j (entry_key x),
    same_key_refl k,
    same_key_refl j,
  )

  pub insert_in-IsDistinct :
      (e : CacheEntry F) (l : List (CacheEntry F)) → IsDistinct l → IsDistinct (insert_in e l)
  unfolding insert_in
  insert_in-IsDistinct e l d = elim (Option-cases (find_in (entry_key e) l)) [
    | inl new ↦ rw (new, insert_in) (new, d)
    | inr (x, old) ↦ rw (old, insert_in) d
  ]

  find_in-erase_in-none :
      (j k : RedisKey) (l : List (CacheEntry F))
      → find_in j l ≡ none
      → find_in j (erase_in k l) ≡ none
  unfolding find_in erase_in
  find_in-erase_in-none j k [] h = refl
  find_in-erase_in-none j k (x ∷ l) h = ground (arith, find_in-erase_in-none j k l)

  pub erase_in-IsDistinct :
      (k : RedisKey) (l : List (CacheEntry F)) → IsDistinct l → IsDistinct (erase_in k l)
  unfolding erase_in
  erase_in-IsDistinct k [] d = tt
  erase_in-IsDistinct k (x ∷ l) d =
      ground (arith, erase_in-IsDistinct k l d.1, find_in-erase_in-none (entry_key x) k l)

  pub modify_in-IsDistinct :
      (f : CacheEntry F → CacheEntry F) (k : RedisKey) (l : List (CacheEntry F))
      → ((e : CacheEntry F) → entry_key (f e) ≡ entry_key e)
      → IsDistinct l
      → IsDistinct (modify_in f k l)
  unfolding modify_in
  modify_in-IsDistinct f k [] keeps d = tt
  modify_in-IsDistinct f k (x ∷ l) keeps d = ground (
    arith,
    keeps x,
    modify_in-IsDistinct f k l keeps d.1,
    find-modify_in f (entry_key x) k l keeps,
  )
