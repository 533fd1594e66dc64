-- ===== src/Service/Hashes.antt =====
-- redis.cc: the requests on hashes, as requests of Service/Strings.
use pedis.Base.{ℕ, suc, ◌-◌, ◌/◌, Bool, List, [], ◌∷◌, if◌then◌else◌, length}
use pedis.Base.Bytes.{Bytes, bytes_eq}
use pedis.TimerSet.{TimerSet}
use pedis.Double.{Double}
use pedis.Database.Strings.{to_word}
use pedis.Database.Hashes
use pedis.Service.{Host, Shards, Served, serve_on, try_on, refuse, redis_key, cpu_of}

-- `_tmp_key_values.emplace`: a key that is there keeps its value. The order of the entries is that
-- of their first insertion.
unfoldable pub emplace : Bytes → Bytes → List (Bytes × Bytes) → List (Bytes × Bytes)
emplace k v [] = (k, v) ∷ []
emplace k v ((k', v') ∷ l) =
    let rest = emplace k v l in if bytes_eq k k' then (k', v') ∷ l else (k', v') ∷ rest

-- The loop of HMSET over `_args[i]` and `_args[i + 1]`, from `i` on
unfoldable pub field_pairs : ℕ → List Bytes → List (Bytes × Bytes) → List (Bytes × Bytes)
unfolding emplace
field_pairs (suc n) (a ∷ b ∷ rest) found = field_pairs n (b ∷ rest) (emplace a b found)
field_pairs _ _ found = found

module _ {F S : Type 0} (H : Host) where
  -- HEXISTS
  unfoldable pub hexists : List Bytes → Shards F S → Served F S
  hexists (key ∷ field ∷ _) m = serve_on (cpu_of H key) (Hashes.hexists (redis_key H key) field) m
  hexists _ m = refuse m

  -- HSET
  unfoldable pub hset : List Bytes → Shards F S → Served F S
  hset (key ∷ field ∷ val ∷ _) m =
      serve_on (cpu_of H key) (Hashes.hset (redis_key H key) field val) m
  hset _ m = refuse m

  -- HMSET: the pairs start at the key.
  unfoldable pub hmset :
      (List (Bytes × Bytes) → List (Bytes × Bytes)) → List Bytes → Shards F S → Served F S
  unfolding field_pairs
  hmset order (key ∷ a ∷ b ∷ rest) m =
      let args = key ∷ a ∷ b ∷ rest in
      let kvs = field_pairs ((length args - 1) / 2) args [] in
      serve_on (cpu_of H key) (Hashes.hmset (redis_key H key) (order kvs)) m
  hmset order _ m = refuse m

  -- HINCRBY
  unfoldable pub hincrby : List Bytes → Shards F S → Served F S
  hincrby (key ∷ field ∷ val ∷ _) m =
      serve_on (cpu_of H key) (Hashes.hincrby (redis_key H key) field (to_word (H.atoi val))) m
  hincrby _ m = refuse m

  -- HLEN
  unfoldable pub hlen : List Bytes → Shards F S → Served F S
  hlen [] m = refuse m
  hlen (key ∷ _) m = serve_on (cpu_of H key) (Hashes.hlen (redis_key H key)) m

  -- HSTRLEN
  unfoldable pub hstrlen : List Bytes → Shards F S → Served F S
  hstrlen (key ∷ field ∷ _) m = try_on (cpu_of H key) (Hashes.hstrlen (redis_key H key) field) m
  hstrlen _ m = refuse m

  -- HGET
  unfoldable pub hget : List Bytes → Shards F S → Served F S
  hget (key ∷ field ∷ _) m = serve_on (cpu_of H key) (Hashes.hget (redis_key H key) field) m
  hget _ m = refuse m

  -- `hgetall`, `hgetall_keys` and `hgetall_values`
  unfoldable pub hgetall : Bool → Bool → List Bytes → Shards F S → Served F S
  hgetall keys values [] m = refuse m
  hgetall keys values (key ∷ _) m =
      serve_on (cpu_of H key) (Hashes.hgetall_impl keys values (redis_key H key)) m

  -- HMGET
  unfoldable pub hmget : List Bytes → Shards F S → Served F S
  hmget [] m = refuse m
  hmget (key ∷ keys) m = serve_on (cpu_of H key) (Hashes.hmget (redis_key H key) keys) m

module _ {F S : Type 0} ⦃T : TimerSet S⦄ (H : Host) where
  -- HDEL
  unfoldable pub hdel : List Bytes → Shards F S → Served F S
  hdel (key ∷ field ∷ []) m = serve_on (cpu_of H key) (Hashes.hdel (redis_key H key) field) m
  hdel (key ∷ field ∷ fields) m =
      serve_on (cpu_of H key) (Hashes.hdel_multi (redis_key H key) (field ∷ fields)) m
  hdel _ m = refuse m

module _ {F S : Type 0} ⦃D : Double F⦄ (H : Host) (atof : Bytes → F) where
  -- HINCRBYFLOAT
  unfoldable pub hincrbyfloat : List Bytes → Shards F S → Served F S
  hincrbyfloat (key ∷ field ∷ val ∷ _) m =
      serve_on (cpu_of H key) (Hashes.hincrbyfloat (redis_key H key) field (atof val)) m
  hincrbyfloat _ m = refuse m
