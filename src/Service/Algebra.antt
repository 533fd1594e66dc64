-- ===== src/Service/Algebra.antt =====
-- The loops of SDIFF, SINTER and SUNION over the sets of several keys, as set algebra.
use pedis.Base.{
  ◌≡◌, refl, Bool, true, false, List, [], ◌∷◌, ◌++◌, arith, ◌&&◌, ◌||◌, not, if◌then◌else◌,
  is_empty, Bool-cases, inl, inr,
}
use pedis.Base.Bytes.{Bytes, bytes_eq}
use pedis.Base.Bytes.Order.{bytes_eq→eq, bytes_eq_refl}
use pedis.Service
use pedis.Service.{Host, Shards, Served, set_shard, invoke_on, redis_key, cpu_of}
use pedis.Service.Sets.{contains, first_set, other_sets}

-- A text is in one of the sets, or in all of them.
unfoldable pub in_some : Bytes → List (List Bytes) → Bool
in_some x [] = false
in_some x (s ∷ sets) = contains x s || in_some x sets

unfoldable pub in_all : Bytes → List (List Bytes) → Bool
in_all x [] = true
in_all x (s ∷ sets) = contains x s && in_all x sets

contains-erase_item :
    (x item : Bytes) (l : List Bytes)
    → contains x (Service.Sets.erase_item item l) ≡ (not (bytes_eq x item) && contains x l)
unfolding contains Service.Sets.erase_item
contains-erase_item x item [] = ground arith
contains-erase_item x item (o ∷ l) = ground (
  arith,
  contains-erase_item x item l,
  bytes_eq→eq x o,
  bytes_eq→eq item o,
  bytes_eq→eq x item,
  bytes_eq_refl x,
)

contains-erase_items :
    (x : Bytes) (items l : List Bytes)
    → contains x (Service.Sets.erase_items items l) ≡ (not (contains x items) && contains x l)
unfolding contains Service.Sets.erase_items
contains-erase_items x [] l = ground arith
contains-erase_items x (item ∷ items) l = ground (
  arith,
  contains-erase_items x items (Service.Sets.erase_item item l),
  contains-erase_item x item l,
)

pub contains-difference :
    (x : Bytes) (l : List Bytes) (sets : List (List Bytes))
    → contains x (Service.Sets.difference l sets) ≡ (contains x l && not (in_some x sets))
unfolding Service.Sets.difference in_some
contains-difference x l [] = ground arith
contains-difference x l (s ∷ sets) =
    ground
      (arith, contains-difference x (Service.Sets.erase_items s l) sets, contains-erase_items x s l)

contains-common :
    (x : Bytes) (l items : List Bytes)
    → contains x (Service.Sets.common l items) ≡ (contains x l && contains x items)
unfolding contains Service.Sets.common
contains-common x l [] = ground arith
contains-common x l (item ∷ items) = ground (arith, contains-common x l items, bytes_eq→eq x item)

contains-empty : (x : Bytes) (l : List Bytes) → is_empty l ≡ true → contains x l ≡ false
unfolding contains
contains-empty x [] h = refl
contains-empty x (o ∷ l) h = ground (arith, h)

contains-append :
    (x : Bytes) (l r : List Bytes) → contains x (l ++ r) ≡ (contains x l || contains x r)
unfolding contains
contains-append x [] r = ground arith
contains-append x (o ∷ l) r = ground (arith, contains-append x l r)

contains-one : (x item : Bytes) → contains x (item ∷ []) ≡ bytes_eq x item
unfolding contains
contains-one x item = ground arith

contains-add_new :
    (x : Bytes) (items l : List Bytes)
    → contains x (Service.Sets.add_new items l) ≡ (contains x l || contains x items)
unfolding contains Service.Sets.add_new
contains-add_new x [] l = ground arith
contains-add_new x (item ∷ items) l = ground (
  arith,
  contains-add_new x items (if contains item l then l else l ++ item ∷ []),
  contains-append x l (item ∷ []),
  contains-one x item,
  bytes_eq→eq x item,
)

pub contains-union :
    (x : Bytes) (sets : List (List Bytes)) (l : List Bytes)
    → contains x (Service.Sets.union sets l) ≡ (contains x l || in_some x sets)
unfolding Service.Sets.union in_some
contains-union x [] l = ground arith
contains-union x (s ∷ sets) l =
    ground (arith, contains-union x sets (Service.Sets.add_new s l), contains-add_new x s l)

-- No set of the list is empty.
unfoldable pub none_empty : List (List Bytes) → Bool
none_empty [] = true
none_empty (s ∷ sets) = not (is_empty s) && none_empty sets

pub contains-intersection :
    (x : Bytes) (l : List Bytes) (sets : List (List Bytes))
    → none_empty sets ≡ true
    → contains x (Service.Sets.intersection l sets).0 ≡ (contains x l && in_all x sets)
unfolding Service.Sets.intersection in_all none_empty
contains-intersection x l [] h = ground arith
contains-intersection x l (s ∷ sets) h = elim (Bool-cases (is_empty l)) [
  | inl nothing ↦ ground (arith, nothing, contains-empty x l nothing)
  | inr there ↦ ground (
    arith,
    h,
    there,
    contains-intersection x (Service.Sets.common l s) sets (ground (arith, h)),
    contains-common x l s,
  )
]
