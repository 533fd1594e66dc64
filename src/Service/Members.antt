-- ===== src/Service/Members.antt =====
-- SDIFF, SINTER and SUNION against set algebra, over all shards.
use pedis.Base.{
  ℕ, ◌≡◌, refl, ap, ◌∙◌, Bool, true, false, Option, none, some, List, [], ◌∷◌, map, arith, ◌==◌,
  ◌&&◌, not, if◌then◌else◌, Bool-cases, inl, inr,
}
use pedis.Base.Bytes.{Bytes}
use pedis.DictLsa.{fetch_keys}
use pedis.Cache
use pedis.Reply.{Reply}
use pedis.Database
use pedis.Database.{Db}
use pedis.Service
use pedis.Service.{Host, Shards, Served, set_shard, invoke_on, redis_key, cpu_of}
use pedis.Service.Sets.{contains, first_set, other_sets}
use pedis.Service.Algebra.{
  contains-difference, contains-union, contains-intersection, in_some, in_all, none_empty,
}

module _ {F S : Type 0} where
  -- The members of the set that a key holds in its shard; none for another value.
  unfoldable pub members_at : Host → Shards F S → Bytes → List Bytes
  members_at H m key =
      Database.on_set (Cache.find (redis_key H key) (m (cpu_of H key)).cache) [] [] fetch_keys

  abbrev SameCaches : Shards F S → Shards F S → Type 0
  SameCaches m m1 = (c : ℕ) → (m1 c).cache ≡ (m c).cache

  members_at-same :
      (H : Host) (m m1 : Shards F S) (key : Bytes)
      → SameCaches m m1
      → members_at H m1 key ≡ members_at H m key
  unfolding members_at
  members_at-same H m m1 key h =
      ap (λ c. Database.on_set (Cache.find (redis_key H key) c) [] [] fetch_keys) (h (cpu_of H key))

  smembers_direct-members_at :
      (H : Host) (m : Shards F S) (key : Bytes)
      → (Database.Sets.smembers_direct (redis_key H key) (m (cpu_of H key))).0 ≡ members_at H m key
  unfolding Database.Sets.smembers_direct members_at
  smembers_direct-members_at H m key = ground arith

  cache-smembers_direct :
      (H : Host) (m : Shards F S) (key : Bytes)
      → (Database.Sets.smembers_direct (redis_key H key) (m (cpu_of H key))).1.cache
        ≡ (m (cpu_of H key)).cache
  unfolding Database.Sets.smembers_direct
  cache-smembers_direct H m key = ground arith

cons_both : {a b : List Bytes} {l r : List (List Bytes)} → a ≡ b → l ≡ r → (a ∷ l) ≡ (b ∷ r)
cons_both {b = b} {l = l} p q = ap (λ a. a ∷ l) p ∙ ap (λ r. b ∷ r) q

map-same :
    {f g : Bytes → List Bytes} (keys : List Bytes)
    → ((k : Bytes) → f k ≡ g k)
    → map f keys ≡ map g keys
map-same [] h = refl
map-same (k ∷ keys) h = cons_both (h k) (map-same keys h)

intersection-missing :
    (l : List Bytes) (s : List Bytes) (sets : List (List Bytes))
    → s ≡ []
    → Service.Sets.intersection l (s ∷ sets) ≡ (l, true)
unfolding Service.Sets.intersection
intersection-missing l s sets h = ground (arith, h)

module _ {F S : Type 0} (H : Host) where
  -- Reading the sets of several keys.
  SameCaches-smembers_direct :
      (m : Shards F S) (key : Bytes)
      → SameCaches m
          (invoke_on (cpu_of H key) (Database.Sets.smembers_direct (redis_key H key)) m).1
  unfolding invoke_on set_shard
  SameCaches-smembers_direct m key c = elim (Bool-cases (c == cpu_of H key)) [
    | inl same ↦ ground (arith, same, cache-smembers_direct H m key)
    | inr other ↦ ground (arith, other)
  ]

  read_sets-members_at :
      (keys : List Bytes) (m : Shards F S)
      → (Service.Sets.read_sets H keys m).0 ≡ map (members_at H m) keys
  unfolding Service.Sets.read_sets invoke_on
  read_sets-members_at [] m = refl
  read_sets-members_at (key ∷ keys) m =
      let m1 = (invoke_on (cpu_of H key) (Database.Sets.smembers_direct (redis_key H key)) m).1 in
      cons_both (smembers_direct-members_at H m key) (
        read_sets-members_at keys m1
        ∙ map-same keys (λ k. members_at-same H m m1 k (SameCaches-smembers_direct m key)))

  -- SDIFF of two keys or more replies the texts that are in the set of the first key and in no
  -- other; SUNION replies the texts that are in one of the sets. The sets are those that the keys
  -- hold on their shards, and a key that holds no set counts as the empty one.
  pub sdiff-sunion :
      (j k : Bytes) (keys : List Bytes) (m : Shards F S)
      → let all = j ∷ k ∷ keys in
        let sets = map (members_at H m) all in
        ((d : List Bytes) × (m' : Shards F S) × (Service.Sets.combine H
              (Service.Sets.sdiff_impl H)
              all
              m
            ≡ some (Reply.bulks d, m'))
          × ((x : Bytes)
              → contains x d ≡ (contains x (first_set sets) && not (in_some x (other_sets sets)))))
        × ((u : List Bytes) × (m' : Shards F S) × (Service.Sets.combine H
                (Service.Sets.sunion_impl H)
                all
                m
              ≡ some (Reply.bulks u, m'))
            × ((x : Bytes) → contains x u ≡ in_some x sets))
  unfolding Service.Sets.combine Service.Sets.sdiff_impl Service.Sets.sunion_impl
      Service.Sets.answer contains
  sdiff-sunion j k keys m =
      let all = j ∷ k ∷ keys in
      let sets = map (members_at H m) all in
      let read = read_sets-members_at all m in
      let m' = (Service.Sets.read_sets H all m).1 in
      (
        (
          Service.Sets.difference (first_set sets) (other_sets sets),
          m',
          ap (λ l. some (Reply.bulks (Service.Sets.difference (first_set l) (other_sets l)), m'))
              read,
          λ x. contains-difference x (first_set sets) (other_sets sets),
        ),
        (
          Service.Sets.union sets [],
          m',
          ap (λ l. some (Reply.bulks (Service.Sets.union l []), m')) read,
          λ x. contains-union x sets [],
        ),
      )

  answer-none :
      (replied : Bool) (result : List Bytes) (m : Shards F S)
      → Service.Sets.answer H (if replied then none else none) result m
        ≡ some (Reply.bulks result, m)
  unfolding Service.Sets.answer
  answer-none true result m = refl
  answer-none false result m = refl

  -- Where no key after the first holds an empty set or none, SINTER of two keys or more replies the
  -- texts that are in the sets of all of them.
  pub sinter-members :
      (j k : Bytes) (keys : List Bytes) (m : Shards F S)
      → none_empty (map (members_at H m) (k ∷ keys)) ≡ true
      → let all = j ∷ k ∷ keys in
        (i : List Bytes) × (m' : Shards F S) × (Service.Sets.combine H
            (Service.Sets.sinter_impl H)
            all
            m
          ≡ some (Reply.bulks i, m'))
        × ((x : Bytes) → contains x i ≡ in_all x (map (members_at H m) all))
  unfolding Service.Sets.combine Service.Sets.sinter_impl in_all
  sinter-members j k keys m h =
      let all = j ∷ k ∷ keys in
      let sets = map (members_at H m) all in
      let m' = (Service.Sets.read_sets H all m).1 in
      let found = Service.Sets.intersection (first_set sets) (other_sets sets) in
      (
        found.0,
        m',
        ap
              (λ l.
                let r = Service.Sets.intersection (first_set l) (other_sets l) in
                Service.Sets.answer H (if r.1 then none else none) r.0 m')
              (read_sets-members_at all m)
            ∙ answer-none found.1 found.0 m',
        λ x. contains-intersection x (first_set sets) (other_sets sets) h,
      )

  SameCaches-read_sets :
      (keys : List Bytes) (m : Shards F S) → SameCaches m (Service.Sets.read_sets H keys m).1
  unfolding Service.Sets.read_sets
  SameCaches-read_sets [] m c = refl
  SameCaches-read_sets (key ∷ keys) m c =
      let m1 = (invoke_on (cpu_of H key) (Database.Sets.smembers_direct (redis_key H key)) m).1 in
      SameCaches-read_sets keys m1 c ∙ SameCaches-smembers_direct m key c

  -- Where the second key holds no set, `sinter_impl` replies the set of the first key, with a
  -- destination (SINTERSTORE) and without (SINTER), and changes no cache.
  pub sinter-missing :
      (j k : Bytes) (keys : List Bytes) (dest : Option Bytes) (m : Shards F S)
      → members_at H m k ≡ []
      → (m' : Shards F S) × (Service.Sets.sinter_impl H (j ∷ k ∷ keys) dest m
          ≡ some (Reply.bulks (members_at H m j), m'))
        × ((c : ℕ) → (m' c).cache ≡ (m c).cache)
  unfolding Service.Sets.sinter_impl Service.Sets.answer
  sinter-missing j k keys dest m h =
      let all = j ∷ k ∷ keys in
      let m' = (Service.Sets.read_sets H all m).1 in
      let finish =
        λ (r : List Bytes × Bool). Service.Sets.answer H (if r.1 then none else dest) r.0 m' in
      (
        m',
        ap (λ l. finish (Service.Sets.intersection (first_set l) (other_sets l)))
              (read_sets-members_at all m)
            ∙ ap finish (
                intersection-missing (members_at H m j) (members_at H m k)
                  (map (members_at H m) keys) h),
        SameCaches-read_sets all m,
      )
