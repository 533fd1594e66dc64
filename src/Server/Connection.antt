-- ===== src/Server/Connection.antt =====
-- server.cc, server.hh, protocol_parser.hh: a connection. Its two fibers, `request` and `reply`, share
-- the queue of replies; what a fiber does between two waits is one operation. The parser, the input
-- stream and seastar's queue are interfaces.
pub mod Steps
pub mod Order
pub mod Drain
pub mod Exchange
pub mod Pipeline
use pedis.Base.{
  ℕ, zero, suc, ◌≡◌, ◌≢◌, Bool, true, false, Option, none, some, List, [], ◌∷◌, ◌++◌, ◌||◌,
  if◌then◌else◌, leb, length, is_empty,
}
use pedis.Base.Bytes.{Bytes}
use pedis.Protocol.{Request}
use pedis.Reply.{Reply}
use pedis.Reply.Wire
use pedis.Reply.Wire.{Printer}
use pedis.Service.{Shards}
use pedis.Server
use pedis.Server.{Answer, Handler}

-- What the parser makes of a buffer: a request, and the bytes behind it; nothing yet; an exception.
pub data Fed (P : Type 0) : Type 0 where
  remainder : Bytes → P → Fed P
  more : P → Fed P
  thrown : Fed P

-- `protocol_parser` and its `impl`
pub record Parser (P : Type 0) : Type 0 where
  pub init : P → P
  -- `operator()`: `parse`, and the buffer from where it stopped on
  pub parse : Bytes → P → Fed P
  pub request : P → Request

-- seastar's `input_stream`: `consume` gives the next buffer to its consumer, and keeps what that
-- leaves of it.
pub record InputStream (P I : Type 0) : Type 0 where
  pub buffer : I → Bytes
  pub consume : (Bytes → P → Fed P) → I → P → Option (I × P)
  pub consume-remainder :
      (f : Bytes → P → Fed P) (i : I) (p : P) (rest : Bytes) (p' : P)
      → f (buffer i) p ≡ Fed.remainder rest p'
      → (i' : I) × (consume f i p ≡ some (i', p')) × (rest ≢ [] → buffer i' ≡ rest)

-- reply_queue_size
abbrev pub reply_queue_size : ℕ
reply_queue_size = 16

-- seastar's `queue` of that size; what `push` does to a full one is left open.
pub record Queue (A Q : Type 0) : Type 0 where
  pub items : Q → List A
  pub full : Q → Bool
  pub push : A → Q → Q
  pub pop : Q → Option (A × Q)
  pub full-size : (q : Q) → full q ≡ leb reply_queue_size (length (items q))
  pub items-push : (a : A) (q : Q) → full q ≡ false → items (push a q) ≡ items q ++ a ∷ []
  pub pop-items :
      (q : Q) (a : A) (l : List A)
      → items q ≡ a ∷ l
      → (q' : Q) × (pop q ≡ some (a, q')) × (items q' ≡ l)
  pub pop-empty : (q : Q) → items q ≡ [] → pop q ≡ none

-- Where the fiber of the requests is: before the first wait for a place in the queue, before the
-- second one, or about to push its message.
pub data Stage (F : Type 0) : Type 0 where
  waiting parsed : Stage F
  answered : Answer F → Stage F

pub record Connection (F S P I Q : Type 0) : Type 0 where
  pub input : I
  pub parser : P
  pub done : Bool
  pub replies : Q
  -- what `_out` was given
  pub written : List (Reply F)
  pub stage : Stage F
  pub shards : Shards F S

module _ {F S P I Q : Type 0} (X : Parser P) (N : InputStream P I) (U : Queue (Answer F) Q) where
  -- `_parser.init(); _in.consume(_parser)`
  unfoldable pub read : Connection F S P I Q → Option (Connection F S P I Q)
  read c =
      if c.done || U.full c.replies
      then none
      else (elim (N.consume X.parse c.input (X.init c.parser)) [
        | none ↦ none
        | some r ↦ some (record c { input = r.0; parser = r.1; stage = Stage.parsed })
      ])

  -- `do_handle_one(_parser.request())`
  unfoldable pub answer :
      List (Bytes × Handler F S) → Connection F S P I Q → Option (Connection F S P I Q)
  answer commands c =
      if U.full c.replies
      then none
      else (elim (Server.do_handle_one commands (X.request c.parser) c.shards) [
        | none ↦ none
        | some r ↦ some (record c {
          done = elim r.0 [ none ↦ true | some reply ↦ c.done ];
          stage = Stage.answered r.0;
          shards = r.1;
        })
      ])

module _ {F S P I Q : Type 0} (U : Queue (Answer F) Q) where
  -- `_replies.push`
  unfoldable pub push_reply : Answer F → Connection F S P I Q → Connection F S P I Q
  push_reply a c = record c { replies = U.push a c.replies; stage = Stage.waiting }

  -- `_replies.pop_eventually()`, and the write; a null message is not written.
  unfoldable pub write_reply : Connection F S P I Q → Option (Connection F S P I Q)
  write_reply c = elim (U.pop c.replies) [
    | none ↦ none
    | some r ↦ elim r.0 [
      | none ↦ none
      | some reply ↦ some (record c { replies = r.1; written = c.written ++ reply ∷ [] })
    ]
  ]

  -- The fiber of the replies, alone, for this many messages.
  unfoldable pub drain : ℕ → Connection F S P I Q → Option (Connection F S P I Q)
  unfolding write_reply
  drain zero c = some c
  drain (suc n) c = elim (write_reply c) [ none ↦ none | some c' ↦ drain n c' ]
