-- ===== src/Keys.antt =====
-- keys.hh: a key with its hash, and the equality of `cache_entry::compare`.
use pedis.Base.{ℕ, ◌≡◌, ◌↔◌, Bool, true, ◌&&◌, ◌==◌, arith, subst, Option}
use pedis.Base.Int.{ℤ}
use pedis.Base.Bytes.{Bytes, bytes_eq}
use pedis.Base.Bytes.Order.{bytes_eq_refl, bytes_eq→eq}

-- The hash is `std::hash` of the key, computed once.
pub record RedisKey : Type 0 where
  pub key : Bytes
  pub hash : ℕ

-- Equal hashes, equal sizes and equal characters.
unfoldable pub same_key : RedisKey → RedisKey → Bool
same_key j k = j.hash == k.hash && bytes_eq j.key k.key

-- A `clock_type::time_point` in milliseconds. `none` is `never_expire_timepoint`, the least one.
abbrev pub TimePoint : Type 0
TimePoint = Option ℤ

pub same_key_refl : (k : RedisKey) → same_key k k ≡ true
unfolding same_key
same_key_refl k = ground (arith, bytes_eq_refl k.key)

pub same_key→eq : (j k : RedisKey) → same_key j k ≡ true → j ≡ k
unfolding same_key
same_key→eq j k h = ground (arith, bytes_eq→eq j.key k.key)

pub same_key_iff : (j k : RedisKey) → (same_key j k ≡ true) ↔ (j ≡ k)
same_key_iff j k = (same_key→eq j k, λ e. subst (λ c. same_key j c ≡ true) e (same_key_refl j))
