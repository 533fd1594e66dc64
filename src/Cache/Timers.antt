-- ===== src/Cache/Timers.antt =====
-- The timers and the table agree: a key is armed exactly where its entry has a timeout.
use pedis.Base.{
  zero, suc, ◌≡◌, refl, Bool, true, false, arith, if◌then◌else◌, Option, none, some, ◌≢◌, ◌&&◌,
  Option-cases, inl, inr, on_if,
}
use pedis.Base.Int.{ℤ, pos, negsuc, ◌+ℤ◌}
use pedis.Keys.{RedisKey, same_key, same_key→eq, same_key_refl}
use pedis.TimerSet.{TimerSet}
use pedis.Cache.{
  give_expiry, Value, CacheEntry, Cache, entry_key, expiration, ever_expires, find_in, set_expiry,
  set_value, find, insert, assign, erase, erase_entry, replace, arm, insert_if, never_expired,
  exists,
}
use pedis.Cache.Table.{
  IsDistinct, find-insert_in, insert_in-IsDistinct, erase_in-IsDistinct, modify_in-IsDistinct,
  key-find_in,
}
use pedis.Cache.Effects.{
  stamped, is_refused, find-erase, find-give_expiry, find-never_expired, find-insert, find-assign,
  find-erase_entry,
}

abbrev pub expires : {F : Type 0} → Option (CacheEntry F) → Bool
expires none = false
expires (some e) = ever_expires e

-- A duration other than 0.
expiration-some : (now s : ℤ) → s ≢ pos 0 → (t : ℤ) × (expiration now s ≡ some t)
unfolding expiration
expiration-some now (pos zero) h = absurd (h refl)
expiration-some now (pos (suc n)) h = (now +ℤ pos (suc n), refl)
expiration-some now (negsuc n) h = (now +ℤ negsuc n, refl)

module _ {F S : Type 0} ⦃T : TimerSet S⦄ where
  pub record IsValid (c : Cache F S) : Type 0 where
    pub distinct : IsDistinct c.store
    pub armed : (k : RedisKey) → T.armed k c.alive ≡ expires (find k c)

  -- The entries and the timers of a changed cache, by what `find` and `armed` see of them.
  armed-erase :
      (j k : RedisKey) (c : Cache F S)
      → IsValid c
      → T.armed j (erase k c).0.alive ≡ (if same_key j k then false else T.armed j c.alive)
  unfolding erase find
  armed-erase j k c v = elim (Option-cases (find_in k c.store)) [
    | inl absent ↦ ground (arith, v.armed k, same_key→eq j k)
    | inr (e, found) ↦
        let here : k ≡ entry_key e = key-find_in k c.store found in
        ground (
          arith,
          v.armed k,
          same_key→eq j k,
          T.armed-remove j (entry_key e) c.alive,
          same_key_refl k,
        )
  ]

  store-erase-IsDistinct :
      (k : RedisKey) (c : Cache F S) → IsDistinct c.store → IsDistinct (erase k c).0.store
  unfolding erase
  store-erase-IsDistinct k c d = ground (arith, erase_in-IsDistinct k c.store d)

  pub erase-IsValid : (k : RedisKey) (c : Cache F S) → IsValid c → IsValid (erase k c).0
  erase-IsValid k c v = record {
    distinct = store-erase-IsDistinct k c v.distinct;
    armed = λ j. ground (arith, armed-erase j k c v, find-erase j k c v.distinct, v.armed j);
  }

  armed-never_expired :
      (j k : RedisKey) (c : Cache F S)
      → IsValid c
      → T.armed j (never_expired k c).0.alive ≡ (if same_key j k then false else T.armed j c.alive)
  unfolding never_expired find
  armed-never_expired j k c v = elim (Option-cases (find_in k c.store)) [
    | inl absent ↦ ground (arith, v.armed k, same_key→eq j k)
    | inr (e, found) ↦
        let here : k ≡ entry_key e = key-find_in k c.store found in
        ground (
          arith,
          v.armed k,
          same_key→eq j k,
          T.armed-remove j (entry_key e) c.alive,
          same_key_refl k,
        )
  ]

  store-never_expired-IsDistinct :
      (k : RedisKey) (c : Cache F S) → IsDistinct c.store → IsDistinct (never_expired k c).0.store
  unfolding never_expired
  store-never_expired-IsDistinct k c d =
      ground (arith, modify_in-IsDistinct (set_expiry none) k c.store (λ e. refl) d)

  pub never_expired-IsValid :
      (k : RedisKey) (c : Cache F S) → IsValid c → IsValid (never_expired k c).0
  never_expired-IsValid k c v = record {
    distinct = store-never_expired-IsDistinct k c v.distinct;
    armed = λ j. ground (arith, armed-never_expired j k c v, find-never_expired j k c, v.armed j);
  }

  armed-give_expiry :
      (j k : RedisKey) (now s : ℤ) (c : Cache F S)
      → s ≢ pos 0
      → (exists k c && T.armed k c.alive) ≡ false
      → T.armed j (give_expiry now k s c).0.alive
        ≡ (if same_key j k && exists k c then true else T.armed j c.alive)
  unfolding give_expiry exists
  armed-give_expiry j k now s c h free = elim (Option-cases (find_in k c.store)) [
    | inl absent ↦ ground (arith, same_key→eq j k)
    | inr (e, found) ↦
        let here : k ≡ entry_key e = key-find_in k c.store found in
        let out : T.armed (entry_key e) c.alive ≡ false = ground (arith, free, found, here) in
        ground
          (arith, same_key→eq j k, T.armed-insert j (entry_key e) (expiration now s) c.alive out)
  ]

  store-give_expiry-IsDistinct :
      (k : RedisKey) (now s : ℤ) (c : Cache F S)
      → IsDistinct c.store
      → IsDistinct (give_expiry now k s c).0.store
  unfolding give_expiry
  store-give_expiry-IsDistinct k now s c d =
      ground (arith, modify_in-IsDistinct (set_expiry (expiration now s)) k c.store (λ e. refl) d)

  -- A duration other than 0, given to a key that is missing or not armed.
  pub give_expiry-IsValid :
      (k : RedisKey) (now s : ℤ) (c : Cache F S)
      → s ≢ pos 0
      → (exists k c && T.armed k c.alive) ≡ false
      → IsValid c
      → IsValid (give_expiry now k s c).0
  unfolding exists find
  give_expiry-IsValid k now s c h free v =
      let (t, e) = expiration-some now s h in
      record {
        distinct = store-give_expiry-IsDistinct k now s c v.distinct;
        armed = λ j. ground (
          arith,
          e,
          same_key→eq j k,
          armed-give_expiry j k now s c h free,
          find-give_expiry j k now s c,
          v.armed j,
        );
      }

  alive-insert : (e : CacheEntry F) (c : Cache F S) → (insert e c).alive ≡ c.alive
  unfolding insert
  alive-insert e c = refl

  alive-assign : (k : RedisKey) (x : Value F) (c : Cache F S) → (assign k x c).alive ≡ c.alive
  unfolding assign
  alive-assign k x c = refl

  pub alive-erase_entry : (k : RedisKey) (c : Cache F S) → (erase_entry k c).alive ≡ c.alive
  unfolding erase_entry
  alive-erase_entry k c = refl

  pub insert-IsValid :
      (e : CacheEntry F) (c : Cache F S) → e.timeout ≡ none → IsValid c → IsValid (insert e c)
  insert-IsValid e c fresh v = record {
    distinct = unfold insert in insert_in-IsDistinct e c.store v.distinct;
    armed = λ j.
        ground (
          arith,
          fresh,
          alive-insert e c,
          find-insert j e c,
          v.armed j,
          same_key→eq j (entry_key e),
        );
  }

  pub replace-IsValid :
      (e : CacheEntry F) (c : Cache F S) → e.timeout ≡ none → IsValid c → IsValid (replace e c).0
  unfolding replace
  replace-IsValid e c fresh v =
      insert-IsValid e (erase (entry_key e) c).0 fresh (erase-IsValid (entry_key e) c v)

  pub assign-IsValid :
      (k : RedisKey) (x : Value F) (c : Cache F S) → IsValid c → IsValid (assign k x c)
  assign-IsValid k x c v = record {
    distinct = unfold assign in modify_in-IsDistinct (set_value x) k c.store (λ e. refl) v.distinct;
    armed = λ j. ground (arith, alive-assign k x c, find-assign j k x c, v.armed j);
  }

  armed-arm :
      (j : RedisKey) (now expired : ℤ) (e : CacheEntry F) (c : Cache F S)
      → e.timeout ≡ none
      → T.armed (entry_key e) c.alive ≡ false
      → T.armed j (arm now expired e c).1.alive ≡ (
          if same_key j (entry_key e) && ever_expires (stamped now expired e)
          then true
          else T.armed j c.alive)
  unfolding arm
  armed-arm j now (pos zero) e c fresh out = ground arith
  armed-arm j now (pos (suc n)) e c fresh out =
      ground (arith, T.armed-insert j (entry_key e) (some (now +ℤ pos (suc n))) c.alive out)
  armed-arm j now (negsuc n) e c fresh out = ground arith

  -- The table and the timers after the branch of `insert_if` that inserts, from a cache without
  -- the key.
  arm-IsValid :
      (now expired : ℤ) (e : CacheEntry F) (c : Cache F S)
      → e.timeout ≡ none
      → find (entry_key e) c ≡ none
      → IsValid c
      → IsValid (insert (arm now expired e c).0 (arm now expired e c).1)
  arm-IsValid now (pos zero) e c fresh absent v = unfold arm in insert-IsValid e c fresh v
  arm-IsValid now (negsuc n) e c fresh absent v = unfold arm in insert-IsValid e c fresh v
  arm-IsValid now (pos (suc n)) e c fresh absent v =
      let e' = (arm now (pos (suc n)) e c).0 in
      let c' = (arm now (pos (suc n)) e c).1 in
      let out : T.armed (entry_key e) c.alive ≡ false =
        ground (arith, absent, v.armed (entry_key e)) in
      record {
        distinct = unfold arm insert in insert_in-IsDistinct e' c.store v.distinct;
        armed = λ j.
            unfold arm insert find in
            ground (
              arith,
              absent,
              v.armed j,
              find-insert_in j e' c.store,
              same_key→eq j (entry_key e),
              T.armed-insert j (entry_key e) (some (now +ℤ pos (suc n))) c.alive out,
            );
      }

  absent_of : (k : RedisKey) (c : Cache F S) → exists k c ≡ false → find k c ≡ none
  unfolding exists find
  absent_of k c h = ground arith

  -- `insert_if` by its three outcomes.
  pub insert_if-branches :
      (now : ℤ) (e : CacheEntry F) (expired : ℤ) (nx xx : Bool) (c : Cache F S)
      → (insert_if now e expired nx xx c).0 ≡ (
          if is_refused nx xx (exists (entry_key e) c)
          then c
          else if exists (entry_key e) c
          then insert
              (arm now expired e (erase (entry_key e) c).0).0
              (arm now expired e (erase (entry_key e) c).0).1
          else insert (arm now expired e c).0 (arm now expired e c).1)
  unfolding insert_if
  insert_if-branches now e expired nx xx c = ground arith

  -- For a new entry without a timeout, and any expiry and flags, `insert_if` on a valid cache
  -- leaves a valid one: keys are distinct and a key's timer is armed exactly if its entry has a
  -- timeout.
  pub insert_if-IsValid :
      (now : ℤ) (e : CacheEntry F) (expired : ℤ) (nx xx : Bool) (c : Cache F S)
      → e.timeout ≡ none
      → IsValid c
      → IsValid (insert_if now e expired nx xx c).0
  insert_if-IsValid now e expired nx xx c fresh v =
      let k = entry_key e in
      let put = λ (c1 : Cache F S). insert (arm now expired e c1).0 (arm now expired e c1).1 in
      rw (insert_if-branches now e expired nx xx c) (
        on_if IsValid (is_refused nx xx (exists k c)) c _ (λ _. v)
          (λ _.
            on_if IsValid (exists k c) (put (erase k c).0) (put c)
              (λ _.
                arm-IsValid now expired e (erase k c).0 fresh
                  (ground (arith, find-erase k k c v.distinct, same_key_refl k))
                  (erase-IsValid k c v))
              (λ absent. arm-IsValid now expired e c fresh (absent_of k c absent) v)))

  -- `erase(cache_entry&)` leaves the timers alone.
  pub erase_entry-IsValid :
      (k : RedisKey) (c : Cache F S)
      → expires (find k c) ≡ false
      → IsValid c
      → IsValid (erase_entry k c)
  erase_entry-IsValid k c h v = record {
    distinct = unfold erase_entry in erase_in-IsDistinct k c.store v.distinct;
    armed = λ j. ground (
      arith,
      h,
      v.armed j,
      alive-erase_entry k c,
      find-erase_entry j k c v.distinct,
      same_key→eq j k,
    );
  }
