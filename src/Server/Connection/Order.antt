-- ===== src/Server/Connection/Order.antt =====
-- The queue of a connection never overflows, and its replies leave in the order of the requests.
use mathlib.Core.List.{append_assoc, append-nil}
use pedis.Base.{
  ℕ, ◌+◌, ◌≡◌, refl, ap, subst, ◌∙◌, false, none, some, List, [], ◌∷◌, ◌++◌, arith, ◌≤◌, length,
  length-append,
}
use pedis.Base.Bytes.{Bytes}
use pedis.Reply.{Reply}
use pedis.Service.{Shards}
use pedis.Server.{Answer, Handler}
use pedis.Server.Connection
use pedis.Server.Connection.{Connection, Parser, InputStream, Queue, Stage, reply_queue_size}
use pedis.Server.Connection.Steps.{Step, Reach}

abbrev pub as_answers : {F : Type 0} → List (Reply F) → List (Answer F)
as_answers [] = []
as_answers (r ∷ l) = some r ∷ as_answers l

-- The message that the fiber of the requests has not pushed yet.
abbrev pub pending : {F : Type 0} → Stage F → List (Answer F)
pending (Stage.answered a) = a ∷ []
pending _ = []

-- The places that the queue has left, at least.
abbrev pub reserved : {F : Type 0} → Stage F → ℕ
reserved Stage.waiting = 0
reserved _ = 1

pub as_answers-append :
    {F : Type 0} (l : List (Reply F)) (r : Reply F)
    → as_answers (l ++ r ∷ []) ≡ as_answers l ++ some r ∷ []
as_answers-append [] r = refl
as_answers-append (x ∷ l) r = ap (λ t. some x ∷ t) (as_answers-append l r)

module _ {A Q : Type 0} (U : Queue A Q) where
  not_full : (q : Q) → U.full q ≡ false → length (U.items q) + 1 ≤ reply_queue_size
  not_full q h = ground (arith, h, U.full-size q)

  has_room : (q : Q) → length (U.items q) + 1 ≤ reply_queue_size → U.full q ≡ false
  has_room q h = ground (arith, h, U.full-size q)

module _ {F S P I Q : Type 0} (X : Parser P) (N : InputStream P I) (U : Queue (Answer F) Q) where
  -- Once the fiber of the requests has waited for a place, the queue has one.
  abbrev pub Fits : Connection F S P I Q → Type 0
  Fits c = length (U.items c.replies) + reserved c.stage ≤ reply_queue_size

  -- Every answer so far: written, in the queue, or about to be pushed.
  unfoldable pub said : Connection F S P I Q → List (Answer F)
  said c = as_answers c.written ++ (U.items c.replies ++ pending c.stage)

  read-left :
      (c c' : Connection F S P I Q)
      → Connection.read X N U c ≡ some c'
      → (U.full c.replies ≡ false)
        × (c'.replies ≡ c.replies)
        × (c'.written ≡ c.written)
        × (c'.stage ≡ Stage.parsed)
  unfolding Connection.read
  read-left c c' e = ground (arith, e)

  answer-left :
      (commands : List (Bytes × Handler F S)) (c c' : Connection F S P I Q)
      → Connection.answer X N U commands c ≡ some c'
      → (U.full c.replies ≡ false) × (c'.replies ≡ c.replies) × (c'.written ≡ c.written)
  unfolding Connection.answer
  answer-left commands c c' e = ground (arith, e)

  write-left :
      (c c' : Connection F S P I Q)
      → Connection.write_reply U c ≡ some c'
      → (r : Reply F) × (U.items c.replies ≡ some r ∷ U.items c'.replies)
        × (c'.written ≡ c.written ++ r ∷ [])
        × (c'.stage ≡ c.stage)
  unfolding Connection.write_reply
  write-left c c' e = go (U.items c.replies) refl
    where
      go :
          (l : List (Answer F))
          → U.items c.replies ≡ l
          → (r : Reply F) × (U.items c.replies ≡ some r ∷ U.items c'.replies)
            × (c'.written ≡ c.written ++ r ∷ [])
            × (c'.stage ≡ c.stage)
      go [] q = absurd (ground (arith, e, U.pop-empty c.replies q))
      go (none ∷ l) q =
          let (q', popped, rest) = U.pop-items c.replies none l q in
          absurd (ground (arith, e, popped))
      go (some r ∷ l) q =
          let (q', popped, rest) = U.pop-items c.replies (some r) l q in
          (
            r,
            ground (arith, e, popped, q, rest),
            ground (arith, e, popped),
            ground (arith, e, popped),
          )

  -- The invariant of a step, and what it adds to the answers.
  abbrev Keeps : Connection F S P I Q → List (Answer F) → Connection F S P I Q → Type 0
  Keeps c l c' = Fits c → Fits c' × (said c' ≡ said c ++ l)

  read-Keeps :
      (c c' : Connection F S P I Q)
      → c.stage ≡ Stage.waiting
      → Connection.read X N U c ≡ some c'
      → Keeps c [] c'
  unfolding said
  read-Keeps c c' w e h =
      let (room, same, out, now) = read-left c c' e in
      (rw (now, same) (not_full U c.replies room), rw (now, same, out, w) (simp append-nil))

  answer-Keeps :
      (commands : List (Bytes × Handler F S)) (a : Answer F) (c c' : Connection F S P I Q)
      → c.stage ≡ Stage.parsed
      → Connection.answer X N U commands c ≡ some c'
      → c'.stage ≡ Stage.answered a
      → Keeps c (a ∷ []) c'
  unfolding said
  answer-Keeps commands a c c' w e s h =
      let (room, same, out) = answer-left commands c c' e in
      (
        rw (s, same) (not_full U c.replies room),
        rw (s, same, out, w) (simp (append_assoc, append-nil)),
      )

  push-Keeps :
      (a : Answer F) (c : Connection F S P I Q)
      → c.stage ≡ Stage.answered a
      → Keeps c [] (Connection.push_reply U a c)
  unfolding said Connection.push_reply
  push-Keeps a c w h =
      let fits : length (U.items c.replies) + reserved (Stage.answered a) ≤ reply_queue_size =
        subst (λ s. length (U.items c.replies) + reserved s ≤ reply_queue_size) w h in
      let pushed = U.items-push a c.replies (has_room U c.replies fits) in
      (
        rw pushed (ground (arith, fits, length-append (U.items c.replies) (a ∷ []))),
        rw (pushed, w) (simp (append_assoc, append-nil)),
      )

  write-Keeps : (c c' : Connection F S P I Q) → Connection.write_reply U c ≡ some c' → Keeps c [] c'
  unfolding said
  write-Keeps c c' e h =
      let (r, items, out, same) = write-left c c' e in
      (
        rw same (ground (arith, h, items)),
        rw (same, out, items, as_answers-append c.written r) (simp (append_assoc, append-nil)),
      )

  elsewhere-Keeps :
      (m : Shards F S) (c : Connection F S P I Q) → Keeps c [] (record c { shards = m })
  unfolding said
  elsewhere-Keeps m c h = (h, simp append-nil)

  Step-Keeps :
      {c c' : Connection F S P I Q} {l : List (Answer F)} → Step X N U c l c' → Keeps c l c'
  Step-Keeps {c} (Step.read c' w e) = read-Keeps c c' w e
  Step-Keeps {c} (Step.answer commands a c' w e s) = answer-Keeps commands a c c' w e s
  Step-Keeps {c} (Step.push a w) = push-Keeps a c w
  Step-Keeps {c} (Step.write c' e) = write-Keeps c c' e
  Step-Keeps {c} (Step.elsewhere m) = elsewhere-Keeps m c

  -- In every state that a connection reaches from one whose queue keeps its bound, whatever the
  -- other connections do to the shards: the queue holds at most 16 messages, one less while a
  -- request is on its way, so that no push meets a full queue; and what has been written, queued
  -- and not yet pushed is what there was at the start followed by the answers to the requests, each
  -- once and in the order of the requests.
  pub Reach-Fits :
      {c c' : Connection F S P I Q} {l : List (Answer F)}
      → Reach X N U c l c'
      → Fits c
      → Fits c' × (said c' ≡ said c ++ l)
  Reach-Fits Reach.start h = (h, simp append-nil)
  Reach-Fits {c} (Reach.later {answers} {more} r s) h =
      let (fits, order) = Reach-Fits r h in
      let (fits', order') = Step-Keeps s fits in
      (fits', order' ∙ ap (λ t. t ++ more) order ∙ append_assoc (said c) answers more)
