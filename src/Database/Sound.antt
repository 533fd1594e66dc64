-- ===== src/Database/Sound.antt =====
-- The invariant of a shard's cache: the timers agree with the table, and every value is well formed
-- (no empty list, hashes and sets in key order, sorted sets with both indices in step, counters of
-- 64 bits).
pub mod Strings
pub mod Lists
pub mod Hashes
pub mod Sets
pub mod SortedSets
use mathlib.Core.Option
use pedis.Base.{
  ℕ, ◌<◌, ◌≡◌, ◌≢◌, refl, Bool, true, false, Option, none, some, List, [], ◌∷◌, arith,
  if◌then◌else◌, Option-cases, inl, inr, on_if, Bool-cases, subst,
}
use pedis.Base.Bytes.{Bytes}
use pedis.Double.{Double}
use pedis.Ordered.Sorted
use pedis.DictLsa.{Dict, dict_key, word}
use pedis.SsetLsa.{Sset}
use pedis.SsetLsa.Links
use pedis.Keys.{RedisKey, same_key, same_key→eq, same_key_refl}
use pedis.TimerSet.{TimerSet}
use pedis.Cache
use pedis.Cache.{Cache, CacheEntry, Value, new_entry, set_value}
use pedis.Cache.Table.{find-insert_in}
use pedis.Cache.Timers
use pedis.Cache.Effects.{find-assign, find-erase, find-insert}
use pedis.Reply.{Reply}
use pedis.Database.{
  Stat, Db, Handled, with_cache, on_list, on_dict, on_set, on_sset, when_list, when_dict, when_set,
  when_sset, create, store_back,
}

value_of_map :
    {F : Type 0} (v : Value F) (o : Option (CacheEntry F)) {e : CacheEntry F}
    → Option.map (set_value v) o ≡ some e
    → v ≡ e.value
value_of_map v none h = ground arith
value_of_map v (some x) h = ground arith

module _ {F : Type 0} ⦃D : Double F⦄ where
  abbrev pub WellFormed : Value F → Type 0
  WellFormed (Value.numeric x) = Unit
  WellFormed (Value.int64 n) = n < word
  WellFormed (Value.bytes b) = Unit
  WellFormed (Value.list l) = l ≢ []
  WellFormed (Value.dict d) = Sorted.IsSorted dict_key d
  WellFormed (Value.set d) = Sorted.IsSorted dict_key d
  WellFormed (Value.sset s) = Links.IsValid s
  WellFormed (Value.hll b) = Unit

module _ {F S : Type 0} ⦃D : Double F⦄ ⦃T : TimerSet S⦄ where
  pub record IsSound (c : Cache F S) : Type 0 where
    pub valid : Timers.IsValid c
    pub values : (k : RedisKey) (e : CacheEntry F) → Cache.find k c ≡ some e → WellFormed e.value

  -- Sound but for the value of one key, which a handler is about to write.
  pub record IsSoundBut (rk : RedisKey) (c : Cache F S) : Type 0 where
    pub valid : Timers.IsValid c
    pub values :
        (k : RedisKey) (e : CacheEntry F)
        → same_key k rk ≡ false
        → Cache.find k c ≡ some e
        → WellFormed e.value

  pub weaken : (rk : RedisKey) (c : Cache F S) → IsSound c → IsSoundBut rk c
  weaken rk c s = record { valid = s.valid; values = λ k e _ h. s.values k e h }

  -- The value that a handler finds is well formed.
  pub value-WellFormed :
      (rk : RedisKey) (v : Value F) (x : CacheEntry F) (c : Cache F S)
      → Cache.find rk c ≡ some x
      → x.value ≡ v
      → IsSound c
      → WellFormed v
  value-WellFormed rk v x c found q s = subst WellFormed q (s.values rk x found)

  pub assign-IsSound :
      (rk : RedisKey) (v : Value F) (c : Cache F S)
      → WellFormed v
      → IsSoundBut rk c
      → IsSound (Cache.assign rk v c)
  assign-IsSound rk v c w s = record {
    valid = Timers.assign-IsValid rk v c s.valid;
    values = λ k e h. elim (Bool-cases (same_key k rk)) [
      | inl same ↦
          subst WellFormed
            (value_of_map v (Cache.find k c) {e = e}
              (ground (arith, same, h, find-assign k rk v c)))
            w
      | inr other ↦ s.values k e other (ground (arith, other, h, find-assign k rk v c))
    ];
  }

  pub create-IsSoundBut :
      (rk : RedisKey) (v : Value F) (c : Cache F S)
      → IsSound c
      → IsSoundBut rk (Cache.insert (new_entry rk v) c)
  create-IsSoundBut rk v c s = record {
    valid = Timers.insert-IsValid (new_entry rk v) c refl s.valid;
    values =
        λ k e other h. ground (arith, other, h, s.values k e, find-insert k (new_entry rk v) c);
  }

  pub erase-IsSound :
      (rk : RedisKey) (c : Cache F S) → IsSoundBut rk c → IsSound (Cache.erase rk c).0
  erase-IsSound rk c s = record {
    valid = Timers.erase-IsValid rk c s.valid;
    values = λ k e h. ground (arith, h, s.values k e, find-erase k rk c s.valid.distinct);
  }

  pub assign_created-IsSound :
      (rk : RedisKey) (v w : Value F) (c : Cache F S)
      → WellFormed w
      → IsSound c
      → IsSound (Cache.assign rk w (Cache.insert (new_entry rk v) c))
  assign_created-IsSound rk v w c wf s =
      assign-IsSound rk w (Cache.insert (new_entry rk v) c) wf (create-IsSoundBut rk v c s)

  assign-IsSoundBut :
      (rk : RedisKey) (v : Value F) (c : Cache F S)
      → IsSound c
      → IsSoundBut rk (Cache.assign rk v c)
  assign-IsSoundBut rk v c s = record {
    valid = Timers.assign-IsValid rk v c s.valid;
    values = λ k e other h. s.values k e (ground (arith, other, h, find-assign k rk v c));
  }

  -- A container that is written back, or goes with its key where it is empty.
  pub store_back-IsSound :
      (rk : RedisKey) (v : Value F) (emptied : Bool) (total : Stat) (db : Db F S)
      → (emptied ≡ false → WellFormed v)
      → IsSound db.cache
      → IsSound (store_back rk v emptied total db).cache
  store_back-IsSound rk v true total db w s =
      erase-IsSound rk (Cache.assign rk v db.cache) (assign-IsSoundBut rk v db.cache s)
  store_back-IsSound rk v false total db w s =
      assign-IsSound rk v db.cache (w refl) (weaken rk db.cache s)

  -- What a handler leaves behind.
  abbrev pub Leaves : {A : Type 0} → A × Db F S → Type 0
  Leaves r = IsSound r.1.cache

  abbrev pub LeavesIf : {A : Type 0} → Option (A × Db F S) → Type 0
  LeavesIf none = Unit
  LeavesIf (some r) = IsSound r.1.cache

-- The cases of a handler: the key is missing, has another type, or has the value it wants.
module _ {F R : Type 0} (P : R → Type 0) (missing wrong : R) where
  module _ (m : P missing) (w : P wrong) where
    pub list_cases :
        (f : List Bytes → R) (e : Option (CacheEntry F))
        → ((x : CacheEntry F) (l : List Bytes) → e ≡ some x → x.value ≡ Value.list l → P (f l))
        → P (on_list e missing wrong f)
    list_cases f none h = m
    list_cases f (some x) h = go x.value refl
      where
        go : (v : Value F) → x.value ≡ v → P (when_list wrong f v)
        go (Value.list l) q = h x l refl q
        go (Value.numeric _) q = w
        go _ q = w

    pub dict_cases :
        (f : Dict F → R) (e : Option (CacheEntry F))
        → ((x : CacheEntry F) (d : Dict F) → e ≡ some x → x.value ≡ Value.dict d → P (f d))
        → P (on_dict e missing wrong f)
    dict_cases f none h = m
    dict_cases f (some x) h = go x.value refl
      where
        go : (v : Value F) → x.value ≡ v → P (when_dict wrong f v)
        go (Value.dict d) q = h x d refl q
        go (Value.numeric _) q = w
        go _ q = w

    pub set_cases :
        (f : Dict F → R) (e : Option (CacheEntry F))
        → ((x : CacheEntry F) (d : Dict F) → e ≡ some x → x.value ≡ Value.set d → P (f d))
        → P (on_set e missing wrong f)
    set_cases f none h = m
    set_cases f (some x) h = go x.value refl
      where
        go : (v : Value F) → x.value ≡ v → P (when_set wrong f v)
        go (Value.set d) q = h x d refl q
        go (Value.numeric _) q = w
        go _ q = w

    pub sset_cases :
        (f : Sset F → R) (e : Option (CacheEntry F))
        → ((x : CacheEntry F) (s : Sset F) → e ≡ some x → x.value ≡ Value.sset s → P (f s))
        → P (on_sset e missing wrong f)
    sset_cases f none h = m
    sset_cases f (some x) h = go x.value refl
      where
        go : (v : Value F) → x.value ≡ v → P (when_sset wrong f v)
        go (Value.sset s) q = h x s refl q
        go (Value.numeric _) q = w
        go _ q = w
