-- ===== src/Server/Connection/Exchange.antt =====
-- server.cc: one request on a connection, from the buffer that holds it to the reply that is written.
use pedis.Base.{◌≡◌, ◌≢◌, refl, ap, ◌∙◌, false, Option, none, some, List, [], ◌∷◌, ◌++◌, arith}
use pedis.Base.Bytes.{Bytes}
use pedis.Reply.{Reply}
use pedis.Service.{Shards}
use pedis.Server
use pedis.Server.{Answer, Handler, answered}
use pedis.Server.Wire.{handled}
use pedis.Server.Connection
use pedis.Server.Connection.{Connection, Parser, InputStream, Queue, Stage, Fed}

module _ {F S P I Q : Type 0} (X : Parser P) (N : InputStream P I) (U : Queue (Answer F) Q) where
  unfoldable send : Stage F → Connection F S P I Q → Option (Connection F S P I Q)
  send (Stage.answered a) c = Connection.write_reply U (Connection.push_reply U a c)
  send _ c = none

  -- A request that is read, answered, pushed, and its reply written.
  unfoldable pub exchange :
      List (Bytes × Handler F S) → Connection F S P I Q → Option (Connection F S P I Q)
  unfolding send
  exchange handlers c = elim (Connection.read X N U c) [
    | none ↦ none
    | some c1 ↦ elim (Connection.answer X N U handlers c1) [
      | none ↦ none
      | some c2 ↦ send c2.stage c2
    ]
  ]

  -- A connection that waits for a request, with every reply written.
  pub record IsIdle (c : Connection F S P I Q) : Type 0 where
    pub waiting : c.stage ≡ Stage.waiting
    pub open_input : c.done ≡ false
    pub empty : U.items c.replies ≡ []

  pub exchange-IsIdle :
      (handlers : List (Bytes × Handler F S)) (c : Connection F S P I Q) (rest : Bytes) (p : P)
      (reply : Reply F) (m : Shards F S)
      → IsIdle c
      → X.parse (N.buffer c.input) (X.init c.parser) ≡ Fed.remainder rest p
      → Server.do_handle_one handlers (X.request p) c.shards ≡ some (some reply, m)
      → (c' : Connection F S P I Q) × (exchange handlers c ≡ some c')
        × (c'.written ≡ c.written ++ reply ∷ [])
        × (c'.shards ≡ m)
        × (rest ≢ [] → N.buffer c'.input ≡ rest)
        × IsIdle c'
  unfolding exchange Connection.read Connection.answer Connection.push_reply Connection.write_reply
  exchange-IsIdle handlers c rest p reply m idle parsed handled =
      let (i, consumed, left) =
        N.consume-remainder X.parse c.input (X.init c.parser) rest p parsed in
      let room = U.full-size c.replies in
      let free : U.full c.replies ≡ false = ground (arith, room, idle.empty) in
      let pushed = U.items-push (some reply) c.replies free in
      let (q, popped, rest_items) =
        U.pop-items (U.push (some reply) c.replies) (some reply) []
          (pushed ∙ ap (λ l. l ++ some reply ∷ []) idle.empty) in
      let c' : Connection F S P I Q = record {
        input = i;
        parser = p;
        done = c.done;
        replies = q;
        written = c.written ++ reply ∷ [];
        stage = Stage.waiting;
        shards = m;
      } in
      (
        c',
        ground (arith, consumed, free, idle.open_input, handled, popped),
        refl,
        refl,
        left,
        record { waiting = refl; open_input = idle.open_input; empty = rest_items },
      )
