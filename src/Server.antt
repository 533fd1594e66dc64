-- ===== src/Server.antt =====
-- server.cc, server.hh: the connections. A request is read from the socket, dispatched by its name
-- and answered; the replies go through a queue to the fiber that writes them.
pub mod Commands
pub mod Wire
pub mod Connection
use pedis.Base.{
  ℕ, ◌+◌, ◌-◌, Bool, true, false, Option, none, some, List, [], ◌∷◌, ◌++◌, ◌&&◌, if◌then◌else◌, leb,
  map,
}
use pedis.Base.Bytes.{Bytes, bytes_eq}
use pedis.Protocol.{ProtocolState, Request}
use pedis.Reply.{Reply}
use pedis.Reply.Wire.{codes, crlf}
use pedis.Service.{Shards, Served}

-- `tolower`
abbrev pub tolower : ℕ → ℕ
tolower c = if leb b'A' c && leb c b'Z' then c + 32 else c

-- What the map of commands holds.
abbrev pub Handler : Type 0 → Type 0 → Type 0
Handler F S = List Bytes → Shards F S → Served F S

-- `do_handle_one`'s message: null at the end of the input.
abbrev pub Answer : Type 0 → Type 0
Answer F = Option (Reply F)

module _ {F S : Type 0} where
  -- `_commands.find`
  unfoldable pub find_command : Bytes → List (Bytes × Handler F S) → Option (Handler F S)
  find_command name [] = none
  find_command name ((key, handler) ∷ commands) =
      let rest = find_command name commands in if bytes_eq name key then some handler else rest

-- `do_unexpect_request`
unfoldable pub do_unexpect_request : {F : Type 0} → Bytes → Reply F
do_unexpect_request command =
    Reply.text (codes "-ERR Unknown or disabled command '" ++ (command ++ (b'\'' ∷ crlf)))

module _ {F S : Type 0} where
  abbrev pub answered : Served F S → Option (Answer F × Shards F S)
  answered served = elim served [ none ↦ none | some r ↦ some (some r.0, r.1) ]

module _ {F S : Type 0} (commands : List (Bytes × Handler F S)) where
  -- `do_handle_one`: the message, and the shards; `_done` is set where there is no message.
  unfoldable pub do_handle_one : Request → Shards F S → Option (Answer F × Shards F S)
  unfolding find_command do_unexpect_request
  do_handle_one req m =
      let command = map tolower req.command in
      let unexpected = some (some (do_unexpect_request command), m) in
      elim req.state [
        | ProtocolState.ok ↦ elim (find_command command commands) [
          | none ↦ unexpected
          | some handler ↦ answered (handler req.args m)
        ]
        | ProtocolState.eof ↦ some (none, m)
        | ProtocolState.error ↦ unexpected
      ]
