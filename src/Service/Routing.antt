-- ===== src/Service/Routing.antt =====
-- What the requests on one key leave on the shards of the others.
use mathlib.Core.Option
use pedis.Base.{
  ℕ, ◌≡◌, refl, ap, true, Option, some, List, [], ◌∷◌, arith, ◌==◌, ◌&&◌, not, if◌then◌else◌,
}
use pedis.Base.Int.{ℤ, pos}
use pedis.Base.Bytes.{Bytes, bytes_eq}
use pedis.Base.Bytes.Order.{bytes_eq→eq}
use pedis.Keys.{same_key}
use pedis.TimerSet.{TimerSet}
use pedis.Cache.{Value}
use pedis.Cache.Table.{IsDistinct}
use pedis.Reply.{Message, Reply}
use pedis.Database
use pedis.Database.{Db, say}
use pedis.Database.Laws.Strings.{get-set, set_refused}
use pedis.Service.{Host, Shards, Served, set_shard, serve_on, invoke_on, redis_key, cpu_of}
use pedis.Service

-- A key of the same host is the same exactly where its bytes are.
pub same_key-redis_key :
    (H : Host) (j k : Bytes) → same_key (redis_key H j) (redis_key H k) ≡ bytes_eq j k
unfolding same_key
same_key-redis_key H j k = ground (arith, bytes_eq→eq j k, λ (e : j ≡ k). ap H.hash e)

pub cpu_of-same : (H : Host) (j k : Bytes) → bytes_eq j k ≡ true → cpu_of H j ≡ cpu_of H k
cpu_of-same H j k h = ap (cpu_of H) (bytes_eq→eq j k h)

module _ {F S : Type 0} where
  -- The reply of a request.
  abbrev pub replied : Served F S → Option (Reply F)
  replied r = Option.map (λ x. x.0) r

  pub at-set_shard :
      (cpu : ℕ) (db : Db F S) (m : Shards F S) (c : ℕ)
      → set_shard cpu db m c ≡ (if c == cpu then db else m c)
  unfolding set_shard
  at-set_shard cpu db m c = refl

  pub at-own : (cpu : ℕ) (db : Db F S) (m : Shards F S) → set_shard cpu db m cpu ≡ db
  unfolding set_shard
  at-own cpu db m = ground arith

module _ {F S : Type 0} (H : Host) where
  get_reply :
      (k : Bytes) (m : Shards F S)
      → replied (Service.Strings.get H (k ∷ []) m)
        ≡ some (Database.Strings.get (redis_key H k) (m (cpu_of H k))).0
  unfolding Service.Strings.get serve_on invoke_on
  get_reply k m = refl

module _ {F S : Type 0} ⦃T : TimerSet S⦄ (H : Host) where
  -- A SET whose options are well formed, on a shard with distinct keys, replies OK, or nil where
  -- its flags refuse it; a GET of any key afterwards, on whichever shard, replies the new text for
  -- that key, unless it was refused, and what it replied before for every other key.
  pub get-set_request :
      (now : ℤ) (key val k : Bytes) (options : List Bytes) (expir : ℤ) (flag : ℕ) (m : Shards F S)
      → IsDistinct (m (cpu_of H key)).cache.store
      → Service.Strings.set_options H options (pos 0) Service.Strings.flag_set_no
        ≡ some (expir, flag)
      → let refused = set_refused (redis_key H key) flag (m (cpu_of H key)) in
        (m' : Shards F S) × (Service.Strings.set H now (key ∷ val ∷ options) m
          ≡ some (say (if refused then Message.nil else Message.ok), m'))
        × (replied (Service.Strings.get H (k ∷ []) m') ≡ (
            if bytes_eq k key && not refused
            then some (Reply.entry (some (Value.bytes val)))
            else replied (Service.Strings.get H (k ∷ []) m)))
  unfolding Service.Strings.set serve_on invoke_on
  get-set_request now key val k options expir flag m d e =
      let rk = redis_key H key in
      let db = m (cpu_of H key) in
      let db' = (Database.Strings.set now rk val expir flag db).1 in
      let m' = set_shard (cpu_of H key) db' m in
      let law = get-set now (redis_key H k) rk val expir flag db d in
      (
        m',
        ground (arith, e, law.0),
        ground (
          arith,
          get_reply H k m',
          get_reply H k m,
          at-set_shard (cpu_of H key) db' m (cpu_of H k),
          law.1,
          same_key-redis_key H k key,
          cpu_of-same H k key,
        ),
      )
