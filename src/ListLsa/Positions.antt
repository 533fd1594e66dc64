-- ===== src/ListLsa/Positions.antt =====
-- Positions in a list: what `index_of`, `at` and `operator[]` do.
use pedis.Base.{ℕ, zero, suc, ◌≡◌, refl, false, none, List, [], ◌∷◌, arith, length, ◌↔◌}
use pedis.Base.Int.{pos}
use pedis.Base.Bytes.{Bytes}
use pedis.ListLsa.{index_of, index_loop, equal_bytes, at, index_out_of_range}

equal_bytes-none : (fuel : ℕ) (item n : Bytes) → equal_bytes fuel item n ≡ none
unfolding equal_bytes
equal_bytes-none zero item n = refl
equal_bytes-none (suc fuel) item n = equal_bytes-none fuel item n

-- The comparison does not come back, however deep the calls may go.
pub index_of-never :
    (fuel : ℕ) (pivot x : Bytes) (l : List Bytes) → index_of fuel pivot (x ∷ l) ≡ none
unfolding index_of index_loop
index_of-never fuel pivot x l = ground (arith, equal_bytes-none fuel pivot x)

-- Of the positions that `index_out_of_range` lets through, `at` fails at exactly one, the length of
-- the list.
pub at-index_out_of_range :
    (n : ℕ) (l : List Bytes)
    → index_out_of_range (pos n) l ≡ false
    → (at n l ≡ none) ↔ (n ≡ length l)
unfolding at index_out_of_range
at-index_out_of_range n [] h = ground (arith, h)
at-index_out_of_range zero (x ∷ l) h = ground (arith, h)
at-index_out_of_range (suc n) (x ∷ l) h = ground (arith, h, at-index_out_of_range n l)
