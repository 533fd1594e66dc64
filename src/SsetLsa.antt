-- ===== src/SsetLsa.antt =====
-- structures/sset_lsa.hh: sorted sets. Each entry is linked into `_dict`, ordered by key, and into
-- `_list`, ordered by score; here both hold the entry's fields, and a write through a pointer to
-- an entry is made in both. A `std::unordered_map` argument is the list of its pairs in the order
-- of iteration.
pub mod Range
pub mod Placement
pub mod Links
pub mod Updates
use pedis.Base.{
  ℕ, zero, suc, ◌+◌, ◌-◌, Bool, true, false, Option, none, some, List, [], ◌∷◌, ◌++◌, ◌||◌, ltb,
  leb, if◌then◌else◌, length, is_empty,
}
use pedis.Base.Int.{ℤ, pos, negsuc, neg_part, ◌+ℤ◌, ltb_ℤ}
use pedis.Base.Bytes.{Bytes, bytes_eq}
use pedis.Double.{Double}
use pedis.Ordered
use pedis.Ordered.{find, exists}

pub record SsetEntry (F : Type 0) : Type 0 where
  pub key : Bytes
  pub score : F

pub record Sset (F : Type 0) : Type 0 where
  pub dict : List (SsetEntry F)
  pub list : List (SsetEntry F)

module _ {F : Type 0} where
  abbrev pub sset_key : SsetEntry F → Bytes
  sset_key e = e.key

  abbrev pub empty : Sset F
  empty = record { dict = []; list = [] }

  -- `update_score`, through a pointer
  abbrev pub set_score : F → SsetEntry F → SsetEntry F
  set_score x e = record e { score = x }

  -- `_list.erase` of the entry that a pointer names
  unfoldable pub unlink : Bytes → List (SsetEntry F) → List (SsetEntry F)
  unlink k [] = []
  unlink k (x ∷ l) = let rest = unlink k l in if bytes_eq x.key k then l else x ∷ rest

  unfoldable pub size : Sset F → ℕ
  size s = length s.list

module _ {F : Type 0} ⦃D : Double F⦄ where
  -- The loop of `insert_ordered`: `before` holds the nodes in front of `it`.
  unfoldable pub insert_loop :
      SsetEntry F → List (SsetEntry F) → SsetEntry F → List (SsetEntry F) → List (SsetEntry F)
  insert_loop e before trace [] = if D.lt e.score trace.score then e ∷ before else before ++ e ∷ []
  insert_loop e before trace (x ∷ l) =
      let rest = insert_loop e (before ++ x ∷ []) x l in
      if D.lt e.score x.score then before ++ e ∷ x ∷ l else rest

  -- It returns true on every path.
  unfoldable pub insert_ordered : SsetEntry F → List (SsetEntry F) → List (SsetEntry F)
  insert_ordered e [] = e ∷ []
  insert_ordered e (x ∷ l) = if D.lt e.score x.score then e ∷ x ∷ l else insert_loop e [] x (x ∷ l)

  unfoldable pub insert : SsetEntry F → Sset F → Sset F × Bool
  insert e s =
      let (dict, done) = Ordered.insert sset_key e s.dict in
      (record { dict = dict; list = insert_ordered e s.list }, done)

  -- `it->update_score(score)` and `update`: the entry moves to its new place.
  unfoldable pub rescore : Bytes → F → Sset F → Sset F
  rescore k x s = record {
    dict = Ordered.modify sset_key k (set_score x) s.dict;
    list = insert_ordered (record { key = k; score = x }) (unlink k s.list);
  }

  -- One round of `insert_if_not_exists`.
  unfoldable pub add_new : Bytes × F → Sset F × ℕ → Sset F × ℕ
  add_new (k, x) (s, inserted) =
      let (s', done) = insert (record { key = k; score = x }) s in
      if exists sset_key k s.dict
      then (s, inserted)
      else (s', if done then inserted + 1 else inserted)

  -- One round of `update_if_only_exists`.
  unfoldable pub update_old : Bytes × F → Sset F × ℕ → Sset F × ℕ
  update_old (k, x) (s, inserted) =
      if exists sset_key k s.dict then (rescore k x s, inserted + 1) else (s, inserted)

  -- One round of `insert_or_update(members)`.
  unfoldable pub add_or_update : Bytes × F → Sset F × ℕ → Sset F × ℕ
  add_or_update (k, x) (s, inserted) =
      let (s', done) = insert (record { key = k; score = x }) s in
      if exists sset_key k s.dict
      then (rescore k x s, inserted + 1)
      else (s', if done then inserted + 1 else inserted)

  -- `for (auto& member : members)`
  unfoldable pub for_members :
      (Bytes × F → Sset F × ℕ → Sset F × ℕ) → List (Bytes × F) → Sset F × ℕ → Sset F × ℕ
  for_members round [] acc = acc
  for_members round (m ∷ members) acc = for_members round members (round m acc)

  abbrev pub insert_if_not_exists : List (Bytes × F) → Sset F → Sset F × ℕ
  insert_if_not_exists members s = for_members add_new members (s, 0)

  abbrev pub update_if_only_exists : List (Bytes × F) → Sset F → Sset F × ℕ
  update_if_only_exists members s = for_members update_old members (s, 0)

  abbrev pub insert_or_update_members : List (Bytes × F) → Sset F → Sset F × ℕ
  insert_or_update_members members s = for_members add_or_update members (s, 0)

  -- `insert_or_update(key, delta)`: the new score comes back.
  unfoldable pub insert_or_update : Bytes → F → Sset F → Sset F × F
  insert_or_update k delta s = elim (find sset_key k s.dict) [
    | none ↦ ((insert (record { key = k; score = delta }) s).0, delta)
    | some e ↦ (rescore k (D.add delta e.score) s, D.add delta e.score)
  ]

module _ {F : Type 0} where
  -- `_dict.erase` and `_list.erase_and_dispose` of one entry
  unfoldable pub unlink_both : Bytes → Sset F → Sset F
  unlink_both k s = record { dict = (Ordered.erase sset_key k s.dict).0; list = unlink k s.list }

  -- `erase(keys)`
  unfoldable pub erase_keys : List Bytes → Sset F → Sset F × ℕ
  erase_keys [] s = (s, 0)
  erase_keys (k ∷ keys) s =
      let found = exists sset_key k s.dict in
      let (t, n) = erase_keys keys (if found then unlink_both k s else s) in
      (t, if found then n + 1 else n)

  -- `erase(entries)`: each pointer is unlinked from both, and their number comes back.
  unfoldable pub erase_entries : List (SsetEntry F) → Sset F → Sset F × ℕ
  erase_entries [] s = (s, 0)
  erase_entries (e ∷ entries) s =
      let (t, n) = erase_entries entries (unlink_both e.key s) in (t, n + 1)

  position : Bytes → List (SsetEntry F) → ℕ
  position k [] = 0
  position k (x ∷ l) = let rest = position k l in if bytes_eq x.key k then 0 else rest + 1

  unfoldable pub rank : Bytes → Sset F → Option ℕ
  unfolding position
  rank k s = if exists sset_key k s.dict then some (position k s.list) else none

  unfoldable pub score : Bytes → Sset F → Option F
  score k s = elim (find sset_key k s.dict) [ none ↦ none | some e ↦ some e.score ]

  -- `fetch_by_key`: keys that are not there are left out.
  unfoldable pub fetch_by_key : List Bytes → Sset F → List (SsetEntry F)
  fetch_by_key [] s = []
  fetch_by_key (k ∷ keys) s = elim (find sset_key k s.dict) [
    | none ↦ fetch_by_key keys s
    | some e ↦ e ∷ fetch_by_key keys s
  ]
