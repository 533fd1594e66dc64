-- ===== src/TimerSet.antt =====
-- `seastar::timer_set`, which is not part of the repository: the timers that are armed, each named
-- by the key of the cache entry that carries it. Only what `cache` relies on is assumed.
use pedis.Base.{ℕ, ◌≡◌, Bool, true, false, List, [], ◌∷◌, ◌||◌, if◌then◌else◌}
use pedis.Base.Int.{ℤ}
use pedis.Keys.{RedisKey, TimePoint, same_key}

-- Whether a key is in a list of keys.
unfoldable pub holds : RedisKey → List RedisKey → Bool
holds j [] = false
holds j (k ∷ keys) = same_key j k || holds j keys

-- No key stands twice.
abbrev pub IsOnce : List RedisKey → Type 0
IsOnce [] = Unit
IsOnce (k ∷ keys) = (holds k keys ≡ false) × IsOnce keys

pub record TimerSet (S : Type 0) : Type 0 where
  pub clear : S
  pub size : S → ℕ
  -- `insert(timer)` of a timer with this timeout, which must not be in the set: true where it is
  -- the next one to expire.
  pub insert : RedisKey → TimePoint → S → S × Bool
  pub remove : RedisKey → S → S
  pub get_next_timeout : S → TimePoint
  -- `expire(now)`: the timers that are due, and the set without them.
  pub expire : ℤ → S → List RedisKey × S
  -- Whether the timer is linked into the set
  pub armed : RedisKey → S → Bool
  pub armed-clear : (k : RedisKey) → armed k clear ≡ false
  pub armed-insert :
      (j k : RedisKey) (t : TimePoint) (s : S)
      → armed k s ≡ false
      → armed j (insert k t s).0 ≡ (if same_key j k then true else armed j s)
  pub armed-remove :
      (j k : RedisKey) (s : S) → armed j (remove k s) ≡ (if same_key j k then false else armed j s)
  pub armed-expire :
      (j : RedisKey) (now : ℤ) (s : S)
      → armed j (expire now s).1 ≡ (if holds j (expire now s).0 then false else armed j s)
  -- Only armed timers come out, each one once.
  pub expire-armed :
      (j : RedisKey) (now : ℤ) (s : S) → holds j (expire now s).0 ≡ true → armed j s ≡ true
  pub expire-once : (now : ℤ) (s : S) → IsOnce (expire now s).0
