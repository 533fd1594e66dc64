-- ===== src/Server/Wire.antt =====
-- server.cc, redis.cc: the requests of the service's map by their names: what a client sends for each,
-- and the handler that the map of commands has for it.
use pedis.Base.{ℕ, ◌≡◌, refl, true, false, List, [], ◌∷◌, length}
use pedis.Base.Int.{ℤ}
use pedis.Base.Bytes.{Bytes, bytes_eq}
use pedis.Double.{Double}
use pedis.TimerSet.{TimerSet}
use pedis.Protocol.{ProtocolState, Request}
use pedis.Reply.Wire.{codes}
use pedis.Service.{Shards}
use pedis.Service.Store.{Op, Call}
use pedis.Service.Store.Refines.{serve}
use pedis.Server
use pedis.Server.{Answer, answered}
use pedis.Server.Commands.{Environment, Moment, commands}

-- The name and the arguments behind the key.
unfoldable pub name_of : Op → Bytes
name_of (Op.set text) = codes "SET"
name_of Op.get = codes "GET"
name_of Op.del = codes "DEL"
name_of Op.exists = codes "EXISTS"
name_of Op.strlen = codes "STRLEN"
name_of Op.llen = codes "LLEN"
name_of (Op.incr true) = codes "INCR"
name_of (Op.incr false) = codes "DECR"
name_of (Op.push true text) = codes "RPUSH"
name_of (Op.push false text) = codes "LPUSH"

unfoldable pub texts_of : Op → List Bytes
texts_of (Op.set text) = text ∷ []
texts_of (Op.push head text) = text ∷ []
texts_of _ = []

-- What the parser makes of it.
unfoldable pub request_of : Call → Request
unfolding name_of texts_of
request_of call = record {
  state = ProtocolState.ok;
  command = name_of call.op;
  args_count = length (call.key ∷ texts_of call.op);
  args = call.key ∷ texts_of call.op;
}

module _ {F S : Type 0} ⦃D : Double F⦄ ⦃T : TimerSet S⦄ (E : Environment F S) (rands : List ℕ) where
  abbrev pub moment : ℤ → Moment
  moment now = record { now = now; rands = rands }

  pub handled :
      (now : ℤ) (key : Bytes) (op : Op) (m : Shards F S)
      → let call : Call = record { now = now; key = key; op = op } in
        Server.do_handle_one (commands E (moment now)) (request_of call) m
        ≡ answered (serve E.host call m)
  unfolding Server.do_handle_one Server.find_command commands request_of name_of texts_of serve
      bytes_eq
  handled now key (Op.set text) m = refl
  handled now key Op.get m = refl
  handled now key Op.del m = refl
  handled now key Op.exists m = refl
  handled now key Op.strlen m = refl
  handled now key Op.llen m = refl
  handled now key (Op.incr true) m = refl
  handled now key (Op.incr false) m = refl
  handled now key (Op.push true text) m = refl
  handled now key (Op.push false text) m = refl
