-- ===== src/ListLsa.antt =====
-- structures/list_lsa.hh: the value of a Redis list, an intrusive list of byte strings. `none` is
-- a failed assertion or an iterator used after its node is gone: the process does not go on.
pub mod Removal
pub mod Positions
use pedis.Base.{
  ℕ, zero, suc, ◌+◌, ◌-◌, ◌^◌, Bool, true, false, Option, none, some, List, [], ◌∷◌, ◌++◌, ◌==◌,
  ltb, ◌||◌, ◌&&◌, not, if◌then◌else◌, length, is_empty, get_elem?, set, take, drop, min,
}
use pedis.Base.Int.{ℤ, pos, negsuc}
use pedis.Base.Bytes.{Bytes, bytes_eq}

-- push_front
unfoldable pub insert_head : Bytes → List Bytes → List Bytes
insert_head item l = item ∷ l

-- push_back
unfoldable pub insert_tail : Bytes → List Bytes → List Bytes
insert_tail item l = l ++ item ∷ []

-- The node that `iterator_to(index)` reaches, as the nodes before it and those from it on.
unfoldable pub iterator_to : ℕ → List Bytes → List Bytes × List Bytes
iterator_to index l = (take index l, drop index l)

-- `_list.insert(p, *entry)` puts the new node before `p`.
unfoldable pub insert_at : ℕ → Bytes → List Bytes → Option (List Bytes)
unfolding iterator_to
insert_at index item l =
    let (before, from) = iterator_to index l in
    if ltb index (length l) then some (before ++ item ∷ from) else none

-- `equal(const bytes& data, const internal_node& n)` returns `equal(data, n)`, which is the same
-- overload again. `fuel` bounds the depth of the calls; `none` is a call that has not returned.
unfoldable pub equal_bytes : ℕ → Bytes → Bytes → Option Bool
equal_bytes zero item n = none
equal_bytes (suc fuel) item n = equal_bytes fuel item n

-- The loop of `index_of`, which compares by that overload; `result` counts down.
unfoldable pub index_loop : ℕ → ℕ → Bytes → ℕ → List Bytes → Option ℕ
index_loop fuel size pivot result [] = some result
index_loop fuel size pivot result (x ∷ l) =
    let rest = index_loop fuel size pivot (result - 1) l in
    elim (equal_bytes fuel pivot x) [
      | none ↦ none
      | some e ↦ if e then some (size - result) else rest
    ]

unfoldable pub index_of : ℕ → Bytes → List Bytes → Option ℕ
unfolding index_loop
index_of fuel pivot l = index_loop fuel (length l) pivot (length l) l

-- `at(size_t index)` and its assertion
unfoldable pub at : ℕ → List Bytes → Option Bytes
at index l = get_elem? l index

unfoldable pub front : List Bytes → Option Bytes
front [] = none
front (x ∷ l) = some x

unfoldable pub pop_front : List Bytes → List Bytes
pop_front [] = []
pop_front (x ∷ l) = l

unfoldable pub back : List Bytes → Option Bytes
back [] = none
back (x ∷ []) = some x
back (x ∷ y ∷ l) = back (y ∷ l)

unfoldable pub pop_back : List Bytes → List Bytes
pop_back [] = []
pop_back (x ∷ []) = []
pop_back (x ∷ y ∷ l) = x ∷ pop_back (y ∷ l)

-- `index_out_of_range(long index)`
unfoldable pub index_out_of_range : ℤ → List Bytes → Bool
index_out_of_range (negsuc n) l = true
index_out_of_range (pos n) l = ltb (length l) n

-- What a loop hands back: the list that is left, and how many nodes were erased.
abbrev pub Erased : Type 0
Erased = Option (List Bytes × ℕ)

abbrev pub keep : Bytes → Erased → Erased
keep x none = none
keep x (some (l, n)) = some (x ∷ l, n)

-- `trem<RemoveAllEqual, true>`: the body steps `it` past the erased node and the loop header steps
-- it again, so the node behind an erased one is skipped. Where the erased node is the last, the
-- second step is one past `end()`.
unfoldable pub trem_forward : Bool → Bytes → ℕ → ℕ → List Bytes → Erased
trem_forward all item count erased [] = some ([], erased)
trem_forward all item count erased (x ∷ []) =
    if bytes_eq x item
    then if not all && (erased + 1) == count then some ([], erased + 1) else none
    else some (x ∷ [], erased)
trem_forward all item count erased (x ∷ y ∷ l) =
    let skip = keep y (trem_forward all item count (erased + 1) l) in
    let step = keep x (trem_forward all item count erased (y ∷ l)) in
    if bytes_eq x item
    then if not all && (erased + 1) == count then some (y ∷ l, erased + 1) else skip
    else step

-- `trem<RemoveAllEqual, false>`: `remove_and_dispose` takes away every node equal to the one found,
-- the node under the reverse iterator's base too, which the loop then steps on, unless it leaves.
pub mentions : Bytes → List Bytes → Bool
mentions item [] = false
mentions item (x ∷ l) = bytes_eq x item || mentions item l

pub without : Bytes → List Bytes → List Bytes
without item [] = []
without item (x ∷ l) = let rest = without item l in if bytes_eq x item then rest else x ∷ rest

unfoldable pub trem_backward : Bool → Bytes → ℕ → List Bytes → Erased
unfolding mentions without
trem_backward all item count l =
    if mentions item l
    then if not all && count == 1 then some (without item l, 1) else none
    else some (l, 0)

-- One of the loops of `trim`, over `n` nodes: the increment uses the node that was just erased.
pub erase_run : ℕ → List Bytes → Option (List Bytes)
erase_run zero l = some l
erase_run (suc n) l = none

-- `trim`: erase before `start`, then from `end` on.
unfoldable pub trim : ℕ → ℕ → List Bytes → Option (List Bytes)
unfolding erase_run
trim start end l = elim (erase_run (min start (length l)) l) [
  | none ↦ none
  | some l' ↦ erase_run (length l' - end) l'
]
