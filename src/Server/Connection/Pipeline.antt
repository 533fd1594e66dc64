-- ===== src/Server/Connection/Pipeline.antt =====
-- Requests that a client sends one behind the other: from the bytes of the requests to the replies
-- that are written. The parser of a connection is an interface: it is the one that ragel generates,
-- and the native one fills it as well.
use pedis.Base.{
  ℕ, ◌<◌, ◌≡◌, ◌≢◌, refl, ap, subst, sym, ◌∙◌, true, false, Option, none, some, List, [], ◌∷◌, ◌++◌,
  arith, length,
}
use mathlib.Core.Path.{ap₂}
use mathlib.Core.List.{append_assoc, append-nil}
use pedis.Base.Int.{ℤ}
use pedis.Base.Bytes.{Bytes}
use pedis.Double.{Double}
use pedis.TimerSet.{TimerSet}
use pedis.Protocol
use pedis.Protocol.{Request, Parsed}
use pedis.Protocol.Lines.{Decimal}
use pedis.Protocol.RoundTrip.{request_bytes, number_line, AreTexts, parse-request_bytes}
use pedis.Service.Store.{Op, Call, act, update, replay, view}
use pedis.Service.Store.Refines.{AreQuiet, serve-Refines}
use pedis.Server
use pedis.Server.{Answer, answered}
use pedis.Server.Commands.{Environment, commands}
use pedis.Server.Wire.{name_of, texts_of, request_of, moment, handled}
use pedis.Server.Connection.Exchange.{exchange, IsIdle, exchange-IsIdle}
use pedis.Server.Connection.{Connection, Parser, InputStream, Queue, Fed}

-- `native_protocol_parser`
unfoldable pub fed : Parsed → Fed Request
fed (Parsed.done r rest) = Fed.remainder rest r
fed (Parsed.more r) = Fed.more r
fed _ = Fed.thrown

unfoldable pub native : (Bytes → ℤ) → Parser Request
unfolding fed
native atoi = record {
  init = λ r. Protocol.init;
  parse = λ buf r. fed (Protocol.parse atoi r buf);
  request = λ r. r;
}

-- The key and the texts are neither empty nor as long as 2^32 bytes.
abbrev pub IsSendable : Call → Type 0
IsSendable call = AreTexts (call.key ∷ texts_of call.op)

abbrev pub AreSendable : List Call → Type 0
AreSendable [] = Unit
AreSendable (call ∷ calls) = IsSendable call × AreSendable calls

name_of-IsText : (op : Op) → AreTexts (name_of op ∷ [])
unfolding name_of
name_of-IsText (Op.incr true) = ground arith
name_of-IsText (Op.incr false) = ground arith
name_of-IsText (Op.push true text) = ground arith
name_of-IsText (Op.push false text) = ground arith
name_of-IsText op = ground arith

few_texts : (op : Op) → length (texts_of op) < 2
unfolding texts_of
few_texts (Op.set text) = omega arith
few_texts (Op.push head text) = omega arith
few_texts _ = omega arith

module _ {atoi : Bytes → ℤ} (D : Decimal atoi) where
  -- What the client sends.
  unfoldable pub wire : List Call → Bytes
  wire [] = []
  wire (call ∷ calls) = request_bytes D (name_of call.op) (call.key ∷ texts_of call.op) (wire calls)

  -- A parser that takes a request off the front of what the client sends, whatever it parsed
  -- before.
  abbrev pub IsReading : {P : Type 0} → Parser P → Type 0
  IsReading {P} parser =
      (call : Call) (calls : List Call) (p : P)
      → IsSendable call
      → (p' : P) × (parser.parse (wire (call ∷ calls)) (parser.init p)
          ≡ Fed.remainder (wire calls) p')
        × (parser.request p' ≡ request_of call)

  -- The native parser does.
  pub native-IsReading : IsReading (native atoi)
  unfolding native wire fed request_of Protocol.init
  native-IsReading call calls p h = (
    request_of call,
    ap fed (
        parse-request_bytes D Protocol.init (name_of call.op) call.key (texts_of call.op)
          (wire calls) refl ((name_of-IsText call.op).0, h) (omega (arith, few_texts call.op))),
    refl,
  )

  wire-nonempty : (calls : List Call) → calls ≢ [] → wire calls ≢ []
  unfolding wire request_bytes number_line
  wire-nonempty [] more h = more refl
  wire-nonempty (call ∷ calls) more h = ground (arith, h)

module _ {F S P I Q : Type 0} ⦃D : Double F⦄ ⦃T : TimerSet S⦄ (E : Environment F S) (rands : List ℕ)
    {atoi : Bytes → ℤ} (X : Decimal atoi) (parser : Parser P) (N : InputStream P I)
    (U : Queue (Answer F) Q) where
  -- One request after the other, each at its own time.
  unfoldable pub exchanges : List Call → Connection F S P I Q → Option (Connection F S P I Q)
  exchanges [] c = some c
  exchanges (call ∷ calls) c = elim (exchange parser N U (commands E (moment E rands call.now)) c) [
    | none ↦ none
    | some c' ↦ exchanges calls c'
  ]

  exchange-call :
      (call : Call) (calls : List Call) (c : Connection F S P I Q)
      → IsReading X parser
      → IsIdle parser N U c
      → IsSendable call
      → N.buffer c.input ≡ wire X (call ∷ calls)
      → AreQuiet c.shards
      → let o = act call.op (view E.host c.shards call.key) in
        (c' : Connection F S P I Q) × (exchange parser N U (commands E (moment E rands call.now)) c
          ≡ some c')
        × (c'.written ≡ c.written ++ o.0 ∷ [])
        × (view E.host c'.shards ≡ update (view E.host c.shards) call.key o.1)
        × AreQuiet c'.shards
        × (calls ≢ [] → N.buffer c'.input ≡ wire X calls)
        × IsIdle parser N U c'
  exchange-call call calls c reads idle h buffered d =
      let (p, taken, request) = reads call calls c.parser h in
      let (m, served, seen, d') = serve-Refines E.host call c.shards d in
      let (c', done, out, same, left, idle') =
        exchange-IsIdle parser N U (commands E (moment E rands call.now)) c (wire X calls) p _ m
          idle (ap (λ b. parser.parse b (parser.init c.parser)) buffered ∙ taken)
          (ap (λ r. Server.do_handle_one (commands E (moment E rands call.now)) r c.shards) request
            ∙ handled E rands call.now call.key call.op c.shards
            ∙ ap answered served) in
      (
        c',
        done,
        out,
        ap (view E.host) same ∙ seen,
        subst AreQuiet (sym same) d',
        λ more. left (wire-nonempty X calls more),
        idle',
      )

  -- With a parser that takes each request off the front of what the client sends, on a connection
  -- that waits for a request with its queue empty and its input open, whose next buffer holds any
  -- sequence of requests of the service's map one behind the other, with keys and texts that are
  -- neither empty nor as long as 2^32 bytes, and on shards with distinct keys, none of which has a
  -- timeout: every request is parsed, dispatched by its name, served and answered before the next
  -- one is read; the replies that are written are, in order, those that the map gives, and the
  -- shards then hold the map's values.
  pub exchanges-replay :
      (calls : List Call) (c : Connection F S P I Q)
      → IsReading X parser
      → IsIdle parser N U c
      → AreSendable calls
      → (calls ≢ [] → N.buffer c.input ≡ wire X calls)
      → AreQuiet c.shards
      → (c' : Connection F S P I Q) × (exchanges calls c ≡ some c')
        × (c'.written ≡ c.written ++ (replay calls (view E.host c.shards)).0)
        × (view E.host c'.shards ≡ (replay calls (view E.host c.shards)).1)
  unfolding exchanges replay
  exchanges-replay [] c reads idle h buffered d = (c, refl, sym (append-nil c.written), refl)
  exchanges-replay (call ∷ calls) c reads idle h buffered d =
      let (c1, done, out, seen, d1, left, idle1) =
        exchange-call call calls c reads idle h.0 (buffered (λ e. ground (arith, e))) d in
      let (c2, rest, out2, seen2) = exchanges-replay calls c1 reads idle1 h.1 left d1 in
      let reply = (act call.op (view E.host c.shards call.key)).0 in
      (
        c2,
        ground (arith, done, rest),
        out2
            ∙ ap₂ (λ w v. w ++ (replay calls v).0) out seen
            ∙ append_assoc c.written (reply ∷ []) _,
        seen2 ∙ ap (λ v. (replay calls v).1) seen,
      )
