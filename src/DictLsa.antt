-- ===== src/DictLsa.antt =====
-- structures/dict_lsa.hh: hashes and sets. A `dict_lsa` is the key-ordered set of its entries, and
-- its operations are those of the module Ordered at `dict_key`.
use pedis.Base.{ℕ, zero, suc, ◌^◌, Option, none, some, List, [], ◌∷◌, map}
use pedis.Base.Bytes.{Bytes}
use pedis.Ordered.{find}

-- `entry_type` with its part of the union. A 64-bit integer is its bit pattern. `unset` has the
-- type BYTES and no data: the constructor for set members leaves the union alone.
pub data DictValue (F : Type 0) : Type 0 where
  bytes : Bytes → DictValue F
  float : F → DictValue F
  integer : ℕ → DictValue F
  unset : DictValue F

pub record DictEntry (F : Type 0) : Type 0 where
  pub key : Bytes
  pub value : DictValue F

abbrev pub Dict : Type 0 → Type 0
Dict F = List (DictEntry F)

-- `uint64_t`, and `int64_t` in two's complement.
abbrev pub word : ℕ
word = 2 ^ 64

module _ {F : Type 0} where
  abbrev pub dict_key : DictEntry F → Bytes
  dict_key e = e.key

  abbrev pub set_value : DictValue F → DictEntry F → DictEntry F
  set_value v e = record e { value = v }

  -- `at(size_t index)`: past the end, its assertion fails.
  unfoldable pub at : ℕ → Dict F → Option (DictEntry F)
  at i [] = none
  at zero (x ∷ d) = some x
  at (suc i) (x ∷ d) = at i d

  -- `fetch(keys, entries)`: the entry of each key, or a null pointer.
  unfoldable pub fetch : List Bytes → Dict F → List (Option (DictEntry F))
  fetch keys d = map (λ k. find dict_key k d) keys

  -- `fetch_keys(entries)`
  unfoldable pub fetch_keys : Dict F → List Bytes
  fetch_keys d = map dict_key d
