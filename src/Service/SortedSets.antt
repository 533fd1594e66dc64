-- ===== src/Service/SortedSets.antt =====
-- redis.cc: the requests on sorted sets, as requests of Service/Strings. `stod`, `stoi` and `stol`
-- are the C++ library's; `order` is the order in which an unordered map gives its entries.
use Prim.Native.Nat.{bit_or}
use pedis.Base.{
  ℕ, ◌+◌, ◌%◌, Bool, false, none, List, [], ◌∷◌, ◌==◌, ◌&&◌, not, if◌then◌else◌, leb, length, map,
}
use pedis.Base.Int.{ℤ}
use pedis.Base.Bytes.{Bytes, bytes_eq}
use pedis.TimerSet.{TimerSet}
use pedis.Double.{Double}
use pedis.Database.SortedSets
use pedis.Service.{
  Number, with_number, Host, Shards, Served, serve_on, try_on, refuse, redis_key, cpu_of,
}
use pedis.Service.Lists.{toupper}

-- "WITHSCORES", as the fourth of four arguments
abbrev pub withscores_text : Bytes
withscores_text = b'W' ∷ b'I' ∷ b'T' ∷ b'H' ∷ b'S' ∷ b'C' ∷ b'O' ∷ b'R' ∷ b'E' ∷ b'S' ∷ []

unfoldable pub with_score : List Bytes → Bool
with_score (ws ∷ []) = bytes_eq (map toupper ws) withscores_text
with_score _ = false

-- The first argument of ZADD after the key, in lower case
abbrev pub tolower : ℕ → ℕ
tolower c = if leb b'A' c && leb c b'Z' then c + 32 else c

pub data Mode : Type 0 where
  nx xx ch incr none_given : Mode

unfoldable pub zadd_mode : Bytes → Mode
zadd_mode text =
    let un = map tolower text in
    if bytes_eq un (b'n' ∷ b'x' ∷ [])
    then Mode.nx
    else if bytes_eq un (b'x' ∷ b'x' ∷ [])
    then Mode.xx
    else if bytes_eq un (b'c' ∷ b'h' ∷ [])
    then Mode.ch
    else if bytes_eq un (b'i' ∷ b'n' ∷ b'c' ∷ b'r' ∷ [])
    then Mode.incr
    else Mode.none_given

-- `_tmp_key_scores.emplace`: a member that is there keeps its score.
unfoldable pub emplace_score : {F : Type 0} → Bytes → F → List (Bytes × F) → List (Bytes × F)
emplace_score k v [] = (k, v) ∷ []
emplace_score k v ((k', v') ∷ l) =
    let rest = emplace_score k v l in if bytes_eq k k' then (k', v') ∷ l else (k', v') ∷ rest

module _ {F : Type 0} (stod : Bytes → Number F) where
  -- The loop of ZADD over scores and members
  unfoldable pub read_scores : List Bytes → List (Bytes × F) → Number (List (Bytes × F))
  unfolding emplace_score
  read_scores (score ∷ member ∷ rest) found = elim (stod score) [
    | Number.value x ↦ read_scores rest (emplace_score member x found)
    | Number.invalid_argument ↦ Number.invalid_argument
    | Number.out_of_range ↦ Number.out_of_range
  ]
  read_scores _ found = Number.value found

module _ {F S : Type 0} ⦃D : Double F⦄ (H : Host) (stod : Bytes → Number F) where
  -- ZINCRBY
  unfoldable pub zincrby : List Bytes → Shards F S → Served F S
  zincrby (key ∷ text ∷ member ∷ _) m =
      with_number (stod text)
        (λ delta. serve_on (cpu_of H key) (SortedSets.zincrby (redis_key H key) member delta) m) m
  zincrby _ m = refuse m

  -- ZADD with the flags, from the first score on
  unfoldable pub zadd_scores :
      (List (Bytes × F) → List (Bytes × F)) → ℕ → Bytes → List Bytes → Shards F S → Served F S
  unfolding read_scores
  zadd_scores order flags key args m =
      if not (length args % 2 == 0)
      then refuse m
      else with_number (read_scores stod args [])
          (λ scores.
            try_on (cpu_of H key) (SortedSets.zadds (redis_key H key) (order scores) flags) m)
          m

  -- ZADD with INCR: a missing member is a read past the arguments.
  unfoldable pub zadd_incr : Bytes → List Bytes → Shards F S → Served F S
  zadd_incr key (delta ∷ member ∷ []) m =
      with_number (stod delta)
        (λ score. serve_on (cpu_of H key) (SortedSets.zincrby (redis_key H key) member score) m) m
  zadd_incr key (_ ∷ _ ∷ _ ∷ _) m = refuse m
  zadd_incr key _ m = none

  -- ZADD
  unfoldable pub zadd : (List (Bytes × F) → List (Bytes × F)) → List Bytes → Shards F S → Served F S
  unfolding zadd_scores zadd_incr
  zadd order (key ∷ first ∷ second ∷ rest) m = elim (zadd_mode first) [
    | nx ↦ zadd_scores order (bit_or SortedSets.zadd_ch SortedSets.zadd_nx) key (second ∷ rest) m
    | xx ↦ zadd_scores order (bit_or SortedSets.zadd_ch SortedSets.zadd_xx) key (second ∷ rest) m
    | ch ↦ zadd_scores order SortedSets.zadd_ch key (second ∷ rest) m
    | incr ↦ zadd_incr key (second ∷ rest) m
    | none_given ↦ zadd_scores order SortedSets.zadd_ch key (first ∷ second ∷ rest) m
  ]
  zadd order _ m = refuse m

  -- ZRANGEBYSCORE and ZREVRANGEBYSCORE
  unfoldable pub zrangebyscore : Bool → List Bytes → Shards F S → Served F S
  unfolding with_score
  zrangebyscore reversed (key ∷ s ∷ e ∷ rest) m =
      with_number (stod s)
        (λ min.
          with_number (stod e)
            (λ max.
              serve_on (cpu_of H key)
                (SortedSets.zrangebyscore (redis_key H key) min max reversed (with_score rest)) m)
            m)
        m
  zrangebyscore reversed _ m = refuse m

  -- ZCOUNT asks for one argument, and reads three.
  unfoldable pub zcount : List Bytes → Shards F S → Served F S
  zcount [] m = refuse m
  zcount (key ∷ s ∷ e ∷ _) m =
      with_number (stod s)
        (λ min.
          with_number (stod e)
            (λ max. serve_on (cpu_of H key) (SortedSets.zcount (redis_key H key) min max) m) m)
        m
  zcount _ m = none

module _ {F S : Type 0} (H : Host) where
  -- ZCARD
  unfoldable pub zcard : List Bytes → Shards F S → Served F S
  zcard [] m = refuse m
  zcard (key ∷ _) m = serve_on (cpu_of H key) (SortedSets.zcard (redis_key H key)) m

  -- ZRANGE and ZREVRANGE
  unfoldable pub zrange : (Bytes → Number ℤ) → Bool → List Bytes → Shards F S → Served F S
  unfolding with_score
  zrange stoi reversed (key ∷ s ∷ e ∷ rest) m =
      with_number (stoi s)
        (λ begin.
          with_number (stoi e)
            (λ end.
              serve_on (cpu_of H key)
                (SortedSets.zrange (redis_key H key) begin end reversed (with_score rest)) m)
            m)
        m
  zrange stoi reversed _ m = refuse m

  -- ZRANK and ZREVRANK
  unfoldable pub zrank : Bool → List Bytes → Shards F S → Served F S
  zrank reversed (key ∷ member ∷ _) m =
      serve_on (cpu_of H key) (SortedSets.zrank (redis_key H key) member reversed) m
  zrank reversed _ m = refuse m

  -- ZSCORE
  unfoldable pub zscore : List Bytes → Shards F S → Served F S
  zscore (key ∷ member ∷ _) m =
      serve_on (cpu_of H key) (SortedSets.zscore (redis_key H key) member) m
  zscore _ m = refuse m

module _ {F S : Type 0} ⦃T : TimerSet S⦄ (H : Host) where
  -- ZREM
  unfoldable pub zrem : List Bytes → Shards F S → Served F S
  zrem (key ∷ member ∷ members) m =
      serve_on (cpu_of H key) (SortedSets.zrem (redis_key H key) (member ∷ members)) m
  zrem _ m = refuse m

  -- ZREMRANGEBYRANK
  unfoldable pub zremrangebyrank : (Bytes → Number ℤ) → List Bytes → Shards F S → Served F S
  zremrangebyrank stol (key ∷ s ∷ e ∷ _) m =
      with_number (stol s)
        (λ begin.
          with_number (stol e)
            (λ end.
              serve_on (cpu_of H key) (SortedSets.zremrangebyrank (redis_key H key) begin end) m)
            m)
        m
  zremrangebyrank stol _ m = refuse m

module _ {F S : Type 0} ⦃D : Double F⦄ ⦃T : TimerSet S⦄ (H : Host) (stod : Bytes → Number F) where
  -- ZREMRANGEBYSCORE
  unfoldable pub zremrangebyscore : List Bytes → Shards F S → Served F S
  zremrangebyscore (key ∷ s ∷ e ∷ _) m =
      with_number (stod s)
        (λ min.
          with_number (stod e)
            (λ max.
              serve_on (cpu_of H key) (SortedSets.zremrangebyscore (redis_key H key) min max) m)
            m)
        m
  zremrangebyscore _ m = refuse m
