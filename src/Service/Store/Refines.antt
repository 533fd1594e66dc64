-- ===== src/Service/Store/Refines.antt =====
-- redis.cc: a sequence of requests on the shards against the same sequence on one map.
use mathlib.Core.Path.{fun_ext}
use pedis.Base.{
  ℕ, ◌==◌, inr, inl, Bool-cases, ◌≡◌, refl, ap, ◌∙◌, true, false, Option, none, some, List, [], ◌∷◌,
  arith, if◌then◌else◌,
}
use pedis.Base.Int.{ℤ}
use pedis.Base.Bytes.{Bytes}
use pedis.TimerSet.{TimerSet}
use pedis.Reply.{Reply}
use pedis.Database.{Db}
use pedis.Service
use pedis.Service.{Host, Shards, Served, set_shard, serve_on, invoke_on, redis_key, cpu_of}
use pedis.Service.Routing.{at-set_shard, same_key-redis_key, cpu_of-same}
use pedis.Service.Store.{Op, Call, act, update, replay, view}
use pedis.Service.Store.Writes.{IsQuiet, Writes}
use pedis.Service.Store.Acts.{Acts, get-Acts, strlen-Acts, llen-Acts, exists_direct-Acts}
use pedis.Service.Store.Handlers

abbrev call_of : ℤ → Bytes → Op → Call
call_of now key op = record { now = now; key = key; op = op }

module _ {F S : Type 0} where
  -- On every shard
  abbrev pub AreQuiet : Shards F S → Type 0
  AreQuiet m = (c : ℕ) → IsQuiet (m c).cache

  on_shard-IsQuiet :
      (cpu : ℕ) (db : Db F S) (m : Shards F S)
      → AreQuiet m
      → IsQuiet db.cache
      → AreQuiet (set_shard cpu db m)
  unfolding set_shard
  on_shard-IsQuiet cpu db m d h c = elim (Bool-cases (c == cpu)) [
    | inl same ↦ rw same h
    | inr other ↦ rw other (d c)
  ]

module _ {F S : Type 0} ⦃T : TimerSet S⦄ (H : Host) where
  -- The request of a call.
  unfoldable pub serve : Call → Shards F S → Served F S
  serve call m = elim (call.op) [
    | Op.set text ↦ Service.Strings.set H call.now (call.key ∷ text ∷ []) m
    | Op.get ↦ Service.Strings.get H (call.key ∷ []) m
    | Op.del ↦ Service.Strings.del H (call.key ∷ []) m
    | Op.exists ↦ Service.Strings.exists H (call.key ∷ []) m
    | Op.strlen ↦ Service.Strings.strlen H (call.key ∷ []) m
    | Op.llen ↦ Service.Lists.llen H (call.key ∷ []) m
    | Op.incr up ↦ Service.Strings.counter_by H up false (call.key ∷ []) m
    | Op.push head text ↦
        if head
        then Service.Lists.rpush H (call.key ∷ text ∷ []) m
        else Service.Lists.lpush H (call.key ∷ text ∷ []) m
  ]

  -- The calls, one after the other: the replies, and the shards afterwards.
  unfoldable pub run : List Call → Shards F S → Option (List (Reply F) × Shards F S)
  run [] m = some ([], m)
  run (call ∷ calls) m = elim (serve call m) [
    | none ↦ none
    | some r ↦ elim (run calls r.1) [ none ↦ none | some rest ↦ some (r.0 ∷ rest.0, rest.1) ]
  ]

module _ {F S : Type 0} (H : Host) where
  -- A request replies as the map does, and leaves the shards with the map's new values.
  abbrev pub Refines : Call → Shards F S → Served F S → Type 0
  Refines call m served =
      let o = act call.op (view H m call.key) in
      (m' : Shards F S) × (served ≡ some (o.0, m'))
      × (view H m' ≡ update (view H m) call.key o.1)
      × AreQuiet m'

  view-set_shard :
      (key : Bytes) (v : Option _) (db : Db F S) (m : Shards F S)
      → Writes (redis_key H key) v (m (cpu_of H key)).cache db.cache
      → (j : Bytes) → view H (set_shard (cpu_of H key) db m) j ≡ update (view H m) key v j
  unfolding view
  view-set_shard key v db m w j = ground (
    arith,
    at-set_shard (cpu_of H key) db m (cpu_of H j),
    w.0 (redis_key H j),
    same_key-redis_key H j key,
    cpu_of-same H j key,
  )

  of-Acts :
      (call : Call) (m : Shards F S) (r : Reply F × Db F S)
      → AreQuiet m
      → (IsQuiet (m (cpu_of H call.key)).cache
          → Acts (redis_key H call.key) (m (cpu_of H call.key)) call.op r)
      → Refines call m (some (r.0, set_shard (cpu_of H call.key) r.1 m))
  unfolding view
  of-Acts call m r d h =
      let a = h (d (cpu_of H call.key)) in
      let m' = set_shard (cpu_of H call.key) r.1 m in
      (
        m',
        ap (λ x. some (x, m')) a.0,
        fun_ext (view-set_shard call.key _ r.1 m a.1),
        on_shard-IsQuiet (cpu_of H call.key) r.1 m d a.1.1,
      )

module _ {F S : Type 0} ⦃T : TimerSet S⦄ (H : Host) where
  serve_op-Refines :
      (now : ℤ) (key : Bytes) (op : Op) (m : Shards F S)
      → AreQuiet m
      → Refines H (call_of now key op) m (serve H (call_of now key op) m)
  unfolding serve Service.Strings.set Service.Strings.get Service.Strings.strlen Service.Lists.llen
      Service.Strings.counter_by serve_on invoke_on Service.Strings.del Service.Strings.exists
      Service.Strings.remove_impl Service.Strings.exists_impl Service.Lists.rpush
      Service.Lists.lpush Service.Lists.push_impl Service.Strings.set_options
  serve_op-Refines now key (Op.set text) m d =
      of-Acts H (call_of now key (Op.set text)) m _ d
        (Handlers.set-Acts now (redis_key H key) text (m (cpu_of H key)))
  serve_op-Refines now key Op.get m d =
      of-Acts H (call_of now key Op.get) m _ d (get-Acts (redis_key H key) (m (cpu_of H key)))
  serve_op-Refines now key Op.del m d =
      of-Acts H (call_of now key Op.del) m _ d
        (Handlers.del_direct-Acts (redis_key H key) (m (cpu_of H key)))
  serve_op-Refines now key Op.exists m d =
      of-Acts H (call_of now key Op.exists) m _ d
        (exists_direct-Acts (redis_key H key) (m (cpu_of H key)))
  serve_op-Refines now key Op.strlen m d =
      of-Acts H (call_of now key Op.strlen) m _ d (strlen-Acts (redis_key H key) (m (cpu_of H key)))
  serve_op-Refines now key Op.llen m d =
      of-Acts H (call_of now key Op.llen) m _ d (llen-Acts (redis_key H key) (m (cpu_of H key)))
  serve_op-Refines now key (Op.incr up) m d =
      of-Acts H (call_of now key (Op.incr up)) m _ d
        (Handlers.counter_by-Acts (redis_key H key) up (m (cpu_of H key)))
  serve_op-Refines now key (Op.push true text) m d =
      of-Acts H (call_of now key (Op.push true text)) m _ d
        (Handlers.push-Acts (redis_key H key) true text (m (cpu_of H key)))
  serve_op-Refines now key (Op.push false text) m d =
      of-Acts H (call_of now key (Op.push false text)) m _ d
        (Handlers.push-Acts (redis_key H key) false text (m (cpu_of H key)))

  pub serve-Refines :
      (call : Call) (m : Shards F S) → AreQuiet m → Refines H call m (serve H call m)
  serve-Refines call m d = serve_op-Refines call.now call.key call.op m d

  run-cons :
      (call : Call) (calls : List Call) (m : Shards F S) {m1 m2 : Shards F S} {reply : Reply F}
      {replies : List (Reply F)}
      → serve H call m ≡ some (reply, m1)
      → run H calls m1 ≡ some (replies, m2)
      → run H (call ∷ calls) m ≡ some (reply ∷ replies, m2)
  unfolding run
  run-cons call calls m served rest = rw (served, rest, run) refl

  -- On shards with distinct keys, none of which has a timeout, every sequence of SET without
  -- options, GET, DEL and EXISTS of one key, STRLEN, INCR, DECR, LPUSH and RPUSH of one value and
  -- LLEN is served to its end, with the replies that one map from keys to values gives, whichever
  -- shards own the keys; the shards then hold the map's values, and still have distinct keys
  -- without timeouts.
  pub run-replay :
      (calls : List Call) (m : Shards F S)
      → AreQuiet m
      → (m' : Shards F S) × (run H calls m ≡ some ((replay calls (view H m)).0, m'))
        × (view H m' ≡ (replay calls (view H m)).1)
        × AreQuiet m'
  unfolding run replay
  run-replay [] m d = (m, refl, refl, d)
  run-replay (call ∷ calls) m d =
      let (m1, served, seen, d1) = serve-Refines call m d in
      let (m2, rest, held, d2) = run-replay calls m1 d1 in
      let replied = (act call.op (view H m call.key)).0 in
      (
        m2,
        run-cons call calls m served rest ∙ ap (λ v. some (replied ∷ (replay calls v).0, m2)) seen,
        held ∙ ap (λ v. (replay calls v).1) seen,
        d2,
      )
