-- ===== src/Service/Scores.antt =====
-- ZADD with INCR, and what ZSCORE replies after it.
pub mod Given
use pedis.Base.{◌≡◌, refl, ap, ◌∙◌, none, some, List, [], ◌∷◌, arith}
use pedis.Base.Bytes.{Bytes}
use pedis.Double.{Double}
use pedis.SsetLsa.{Sset, score}
use pedis.Reply.{Reply}
use pedis.Database
use pedis.Database.{Db}
use pedis.Database.Laws.SortedSets.{sset_at, zscore-zincrby}
use pedis.Service
use pedis.Service.{Host, Shards, Served, set_shard, invoke_on, serve_on, redis_key, cpu_of}
use pedis.Service.Routing.{replied, at-own}
use pedis.Service.{Number}
use pedis.Service.SortedSets.{Mode}

module _ {F S : Type 0} ⦃D : Double F⦄ (H : Host) (stod : Bytes → Number F) where
  zadd-incr :
      (order : List (Bytes × F) → List (Bytes × F)) (key mode delta member : Bytes) (d : F)
      (m : Shards F S)
      → Service.SortedSets.zadd_mode mode ≡ Mode.incr
      → stod delta ≡ Number.value d
      → Service.SortedSets.zadd H stod order (key ∷ mode ∷ delta ∷ member ∷ []) m
        ≡ serve_on (cpu_of H key) (Database.SortedSets.zincrby (redis_key H key) member d) m
  unfolding Service.SortedSets.zadd Service.SortedSets.zadd_incr
  zadd-incr order key mode delta member d m incr read = ground (arith, incr, read)

  zscore_reply :
      (key member : Bytes) (m : Shards F S)
      → replied (Service.SortedSets.zscore H (key ∷ member ∷ []) m)
        ≡ some (Database.SortedSets.zscore (redis_key H key) member (m (cpu_of H key))).0
  unfolding Service.SortedSets.zscore serve_on invoke_on
  zscore_reply key member m = refl

  -- For a key that is missing or holds a sorted set, and a text that reads as a number: ZADD with
  -- INCR, in any case of the letters, replies that number for a new member and the number and the
  -- member's score, added, for one that is there; ZSCORE of the member then replies the same.
  pub zscore-zadd_incr :
      (order : List (Bytes × F) → List (Bytes × F)) (key mode delta member : Bytes) (d : F)
      (s : Sset F) (m : Shards F S)
      → Service.SortedSets.zadd_mode mode ≡ Mode.incr
      → stod delta ≡ Number.value d
      → sset_at (redis_key H key) (m (cpu_of H key)) ≡ some s
      → let result : F = elim (score member s) [ none ↦ d | some x ↦ D.add d x ] in
        (m' : Shards F S) × (Service.SortedSets.zadd H stod order
            (key ∷ mode ∷ delta ∷ member ∷ [])
            m
          ≡ some (Reply.double result, m'))
        × (replied (Service.SortedSets.zscore H (key ∷ member ∷ []) m')
            ≡ some (Reply.double result))
  unfolding serve_on invoke_on
  zscore-zadd_incr order key mode delta member d s m incr read held =
      let rk = redis_key H key in
      let db' = (Database.SortedSets.zincrby rk member d (m (cpu_of H key))).1 in
      let m' = set_shard (cpu_of H key) db' m in
      let law = zscore-zincrby rk member d (m (cpu_of H key)) s held in
      (
        m',
        zadd-incr order key mode delta member d m incr read ∙ ap (λ r. some (r, m')) law.0,
        zscore_reply key member m'
            ∙ ap (λ db. some (Database.SortedSets.zscore rk member db).0)
                (at-own (cpu_of H key) db' m)
            ∙ ap some (law.1 ∙ law.0),
      )
