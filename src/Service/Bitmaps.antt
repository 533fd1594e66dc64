-- ===== src/Service/Bitmaps.antt =====
-- redis.cc: the requests on bitmaps, as requests of Service/Strings. `stol` and `stoi` are the C++
-- library's.
use pedis.Base.{Bool, false, List, ◌∷◌, ◌==◌}
use pedis.Base.Int.{ℤ, pos, negsuc}
use pedis.Base.Bytes.{Bytes}
use pedis.Database.Strings.{to_word}
use pedis.Database.Bitmaps
use pedis.Service.{
  Host, Number, with_number, Shards, Served, serve_on, try_on, refuse, redis_key, cpu_of,
}

-- `value == 1`
abbrev pub is_one : ℤ → Bool
is_one (pos n) = n == 1
is_one (negsuc n) = false

module _ {F S : Type 0} (H : Host) (stol : Bytes → Number ℤ) where
  -- SETBIT
  unfoldable pub setbit : (Bytes → Number ℤ) → List Bytes → Shards F S → Served F S
  setbit stoi (key ∷ offset ∷ value ∷ _) m =
      with_number (stol offset)
        (λ i.
          with_number (stoi value)
            (λ v. try_on (cpu_of H key) (Bitmaps.setbit (redis_key H key) (to_word i) (is_one v)) m)
            m)
        m
  setbit stoi _ m = refuse m

  -- GETBIT
  unfoldable pub getbit : List Bytes → Shards F S → Served F S
  getbit (key ∷ offset ∷ _) m =
      with_number (stol offset)
        (λ i. serve_on (cpu_of H key) (Bitmaps.getbit (redis_key H key) (to_word i)) m) m
  getbit _ m = refuse m

  -- BITCOUNT
  unfoldable pub bitcount : List Bytes → Shards F S → Served F S
  bitcount (key ∷ start ∷ end ∷ _) m =
      with_number (stol start)
        (λ s.
          with_number (stol end)
            (λ e. try_on (cpu_of H key) (Bitmaps.bitcount (redis_key H key) s e) m) m)
        m
  bitcount _ m = refuse m
