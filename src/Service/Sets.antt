-- ===== src/Service/Sets.antt =====
-- redis.cc: the requests on sets, as requests of Service/Strings. The differences, intersections
-- and unions read the sets of all keys first, each on its own shard.
use pedis.Base.{
  Bool, true, false, Option, none, some, List, [], ◌∷◌, ◌++◌, ◌||◌, if◌then◌else◌, is_empty,
}
use pedis.Base.Bytes.{Bytes, bytes_eq}
use pedis.TimerSet.{TimerSet}
use pedis.Reply.{Message, Reply}
use pedis.Database.{say, flag_reply}
use pedis.Database.Sets
use pedis.Service.{Host, Shards, Served, invoke_on, serve_on, refuse, redis_key, cpu_of}

-- `std::find_if(…, item == o) != end()`
unfoldable pub contains : Bytes → List Bytes → Bool
contains item [] = false
contains item (o ∷ l) = bytes_eq item o || contains item l

-- `stdx::erase_if(temp, item == o)`
unfoldable pub erase_item : Bytes → List Bytes → List Bytes
erase_item item [] = []
erase_item item (o ∷ l) = let rest = erase_item item l in if bytes_eq item o then rest else o ∷ rest

unfoldable pub erase_items : List Bytes → List Bytes → List Bytes
unfolding erase_item
erase_items [] temp = temp
erase_items (item ∷ items) temp = erase_items items (erase_item item temp)

-- The loop of `sdiff_impl` over the other sets
unfoldable pub difference : List Bytes → List (List Bytes) → List Bytes
unfolding erase_items
difference temp [] = temp
difference temp (items ∷ sets) = difference (erase_items items temp) sets

-- The items of the next set that are in the result of `sinter_impl`
unfoldable pub common : List Bytes → List Bytes → List Bytes
unfolding contains
common result [] = []
common result (item ∷ items) =
    let rest = common result items in if contains item result then item ∷ rest else rest

-- The loop of `sinter_impl`: the result, and whether the loop replied itself.
unfoldable pub intersection : List Bytes → List (List Bytes) → List Bytes × Bool
unfolding common
intersection result [] = (result, false)
intersection result (items ∷ sets) =
    let rest = intersection (common result items) sets in
    if is_empty result || is_empty items then (result, true) else rest

-- What `sunion_impl` adds of one set
unfoldable pub add_new : List Bytes → List Bytes → List Bytes
unfolding contains
add_new [] result = result
add_new (item ∷ items) result =
    add_new items (if contains item result then result else result ++ item ∷ [])

unfoldable pub union : List (List Bytes) → List Bytes → List Bytes
unfolding add_new
union [] result = result
union (items ∷ sets) result = union sets (add_new items result)

abbrev pub first_set : List (List Bytes) → List Bytes
first_set [] = []
first_set (s ∷ _) = s

abbrev pub other_sets : List (List Bytes) → List (List Bytes)
other_sets [] = []
other_sets (_ ∷ sets) = sets

module _ {F S : Type 0} (H : Host) where
  -- SMEMBERS
  unfoldable pub smembers : List Bytes → Shards F S → Served F S
  smembers [] m = refuse m
  smembers (key ∷ _) m = serve_on (cpu_of H key) (Sets.smembers (redis_key H key)) m

  -- SADD
  unfoldable pub sadd : List Bytes → Shards F S → Served F S
  sadd (key ∷ member ∷ members) m =
      serve_on (cpu_of H key) (Sets.sadds (redis_key H key) (member ∷ members)) m
  sadd _ m = refuse m

  -- SCARD
  unfoldable pub scard : List Bytes → Shards F S → Served F S
  scard [] m = refuse m
  scard (key ∷ _) m = serve_on (cpu_of H key) (Sets.scard (redis_key H key)) m

  -- SISMEMBER
  unfoldable pub sismember : List Bytes → Shards F S → Served F S
  sismember (key ∷ member ∷ _) m =
      serve_on (cpu_of H key) (Sets.sismember (redis_key H key) member) m
  sismember _ m = refuse m

  -- `items_set`: the members of every key
  unfoldable pub read_sets : List Bytes → Shards F S → List (List Bytes) × Shards F S
  read_sets [] m = ([], m)
  read_sets (key ∷ keys) m0 =
      let (members, m1) = invoke_on (cpu_of H key) (Sets.smembers_direct (redis_key H key)) m0 in
      let (sets, m2) = read_sets keys m1 in (members ∷ sets, m2)

  -- `sadds_impl_return_keys`, or the reply where there is no destination. The members are moved into
  -- the call, and the reply is built of the empty vector that is left.
  unfoldable pub answer : Option Bytes → List Bytes → Shards F S → Served F S
  answer none result m = some (Reply.bulks result, m)
  answer (some dest) result m0 =
      let handler = Sets.sadds_direct (redis_key H dest) result in
      let (done, m) = invoke_on (cpu_of H dest) handler m0 in
      some (if done then Reply.bulks [] else say Message.err, m)

  -- `sdiff_impl`
  unfoldable pub sdiff_impl : List Bytes → Option Bytes → Shards F S → Served F S
  unfolding read_sets difference answer
  sdiff_impl keys dest m0 =
      let (sets, m) = read_sets keys m0 in
      answer dest (difference (first_set sets) (other_sets sets)) m

  -- `sinter_impl`
  unfoldable pub sinter_impl : List Bytes → Option Bytes → Shards F S → Served F S
  unfolding read_sets intersection answer
  sinter_impl keys dest m0 =
      let (sets, m) = read_sets keys m0 in
      let (result, replied) = intersection (first_set sets) (other_sets sets) in
      answer (if replied then none else dest) result m

  -- `sunion_impl`
  unfoldable pub sunion_impl : List Bytes → Option Bytes → Shards F S → Served F S
  unfolding read_sets union answer
  sunion_impl keys dest m0 = let (sets, m) = read_sets keys m0 in answer dest (union sets []) m

  -- SDIFF, SINTER and SUNION: one key is SMEMBERS.
  unfoldable pub combine :
      (List Bytes → Option Bytes → Shards F S → Served F S) → List Bytes → Shards F S → Served F S
  unfolding smembers
  combine impl [] m = refuse m
  combine impl (key ∷ []) m = smembers (key ∷ []) m
  combine impl keys m = impl keys none m

  unfoldable pub combine_store :
      (List Bytes → Option Bytes → Shards F S → Served F S) → List Bytes → Shards F S → Served F S
  combine_store impl (dest ∷ key ∷ keys) m = impl (key ∷ keys) (some dest) m
  combine_store impl _ m = refuse m

module _ {F S : Type 0} ⦃T : TimerSet S⦄ (H : Host) where
  -- SREM
  unfoldable pub srem : List Bytes → Shards F S → Served F S
  srem (key ∷ member ∷ members) m =
      serve_on (cpu_of H key) (Sets.srems (redis_key H key) (member ∷ members)) m
  srem _ m = refuse m

  -- `srem_direct` and then `sadd_direct`: the first moves the member into its call, and the second
  -- gets the empty text that is left.
  unfoldable pub smove : List Bytes → Shards F S → Served F S
  smove (key ∷ dest ∷ member ∷ _) m0 =
      let (u, m1) = invoke_on (cpu_of H key) (Sets.srem_direct (redis_key H key) member) m0 in
      let (v, m2) = invoke_on (cpu_of H dest) (Sets.sadd_direct (redis_key H dest) []) m1 in
      if u then some (flag_reply v, m2) else some (say Message.zero, m1)
  smove _ m = refuse m
