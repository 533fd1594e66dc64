-- ===== src/Server/Connection/Steps.antt =====
-- The two fibers of a connection and the other connections, as the steps of a state machine.
use pedis.Base.{◌≡◌, some, List, [], ◌∷◌, ◌++◌}
use pedis.Base.Bytes.{Bytes}
use pedis.Service.{Shards}
use pedis.Server.{Answer, Handler}
use pedis.Server.Connection
use pedis.Server.Connection.{Connection, Parser, InputStream, Queue, Stage}

module _ {F S P I Q : Type 0} (X : Parser P) (N : InputStream P I) (U : Queue (Answer F) Q) where
  -- A step, with the answers that it makes. A request may find another map of commands each time,
  -- since its handlers see the clock.
  pub data Step (c : Connection F S P I Q) : List (Answer F) → Connection F S P I Q → Type 0 where
    read :
        (c' : Connection F S P I Q)
        → c.stage ≡ Stage.waiting
        → Connection.read X N U c ≡ some c'
        → Step c [] c'
    answer :
        (commands : List (Bytes × Handler F S)) (a : Answer F) (c' : Connection F S P I Q)
        → c.stage ≡ Stage.parsed
        → Connection.answer X N U commands c ≡ some c'
        → c'.stage ≡ Stage.answered a
        → Step c (a ∷ []) c'
    push : (a : Answer F) → c.stage ≡ Stage.answered a → Step c [] (Connection.push_reply U a c)
    write : (c' : Connection F S P I Q) → Connection.write_reply U c ≡ some c' → Step c [] c'
    elsewhere : (shards : Shards F S) → Step c [] (record c { shards = shards })

  -- Any number of steps, with the answers that they make in order.
  pub data Reach (c : Connection F S P I Q) : List (Answer F) → Connection F S P I Q → Type 0 where
    start : Reach c [] c
    later :
        {answers more : List (Answer F)} {c1 c2 : Connection F S P I Q}
        → Reach c answers c1
        → Step c1 more c2
        → Reach c (answers ++ more) c2
