-- ===== src/Server/Connection/Drain.antt =====
-- Every reply of a connection is written in the end.
use pedis.Base.{ℕ, suc, ◌≡◌, refl, ap, sym, ◌∙◌, some, List, [], ◌∷◌, ◌++◌, arith, ◌≤◌, length}
use mathlib.Core.List.{append_assoc, append-nil}
use pedis.Reply.{Reply}
use pedis.Server.{Answer}
use pedis.Server.Connection
use pedis.Server.Connection.{Connection, Parser, InputStream, Queue, Stage}
use pedis.Server.Connection.Steps.{Reach}
use pedis.Server.Connection.Order.{Fits, said, as_answers, Reach-Fits}

-- A list of replies that starts with those written goes on with replies.
suffix :
    {F : Type 0} (w : List (Reply F)) (x : List (Answer F)) (l : List (Reply F))
    → as_answers w ++ x ≡ as_answers l
    → (rest : List (Reply F)) × (x ≡ as_answers rest) × (l ≡ w ++ rest)
suffix [] x l h = (l, h, refl)
suffix (r ∷ w) x [] h = absurd (ground (arith, h))
suffix (r ∷ w) x (s ∷ l) h =
    let (rest, e, q) = suffix w x l (ground (arith, h)) in (rest, e, ground (arith, h, q))

length-as_answers : {F : Type 0} (l : List (Reply F)) → length (as_answers l) ≡ length l
length-as_answers [] = refl
length-as_answers (r ∷ l) = ap suc (length-as_answers l)

module _ {F S P I Q : Type 0} (U : Queue (Answer F) Q) where
  drain-pop :
      (n : ℕ) (c : Connection F S P I Q) (q : Q) (r : Reply F)
      → U.pop c.replies ≡ some (some r, q)
      → Connection.drain U (suc n) c
        ≡ Connection.drain U n (record c { replies = q; written = c.written ++ r ∷ [] })
  unfolding Connection.drain Connection.write_reply
  drain-pop n c q r popped = rw (popped, Connection.drain, Connection.write_reply) refl

  written-drain :
      (l : List (Reply F)) (c : Connection F S P I Q)
      → U.items c.replies ≡ as_answers l
      → (c' : Connection F S P I Q) × (Connection.drain U (length l) c ≡ some c')
        × (c'.written ≡ c.written ++ l)
        × (U.items c'.replies ≡ [])
  unfolding Connection.drain
  written-drain [] c h = (c, refl, sym (append-nil c.written), h)
  written-drain (r ∷ l) c h =
      let (q, popped, left) = U.pop-items c.replies (some r) (as_answers l) h in
      let c1 : Connection F S P I Q = record c { replies = q; written = c.written ++ r ∷ [] } in
      let (c2, drained, out, empty) = written-drain l c1 left in
      (
        c2,
        drain-pop (length l) c q r popped ∙ drained,
        out ∙ append_assoc c.written (r ∷ []) l,
        empty,
      )

module _ {F S P I Q : Type 0} (X : Parser P) (N : InputStream P I) (U : Queue (Answer F) Q) where
  said-waiting :
      (c : Connection F S P I Q)
      → c.stage ≡ Stage.waiting
      → said X N U c ≡ as_answers c.written ++ U.items c.replies
  unfolding said
  said-waiting c w = rw w (simp append-nil)

  bound :
      (c : Connection F S P I Q) (l : List (Reply F))
      → Fits X N U c
      → U.items c.replies ≡ as_answers l
      → length l ≤ 16
  bound c l fits queued = omega (arith, fits, ap length queued, length-as_answers l)

  -- From a connection that has said nothing yet, whose queue keeps its bound, and where every
  -- answer so far is a reply: once the fiber of the requests waits again, the fiber of the replies
  -- empties the queue by writing at most 16 messages, and then exactly the replies to the requests
  -- have been written, each once and in their order.
  pub drain-replies :
      {c c' : Connection F S P I Q} (replies : List (Reply F))
      → Fits X N U c
      → said X N U c ≡ []
      → Reach X N U c (as_answers replies) c'
      → c'.stage ≡ Stage.waiting
      → (n : ℕ) × (n ≤ 16)
        × (c2 : Connection F S P I Q) × (Connection.drain U n c' ≡ some c2)
        × (c2.written ≡ replies)
        × (U.items c2.replies ≡ [])
  drain-replies {c} {c'} replies fits silent reach waiting =
      let (fits', order) = Reach-Fits X N U reach fits in
      let all : as_answers c'.written ++ U.items c'.replies ≡ as_answers replies =
        sym (said-waiting c' waiting) ∙ order ∙ ap (λ t. t ++ as_answers replies) silent in
      let (rest, queued, q) = suffix c'.written (U.items c'.replies) replies all in
      let (c2, drained, out, empty) = written-drain U rest c' queued in
      (length rest, bound c' rest fits' queued, c2, drained, out ∙ sym q, empty)
