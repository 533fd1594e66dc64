-- ===== src/Protocol/Progress.antt =====
-- The loop of the parser ends, and how many rounds it may take does not matter.
use pedis.Base.{
  ℕ, zero, suc, ◌+◌, ◌≤◌, ◌<◌, ◌≡◌, ◌≢◌, refl, ◌∙◌, Bool, false, [], ◌∷◌, arith, length, drop, ltb,
  inl, inr, on_if, sym, subst, Option-cases, ◌&&◌, ◌||◌, not, ◌==◌, is_empty, ◌++◌, take,
}
use pedis.Base.Int.{ℤ}
use pedis.Base.Bytes.{Bytes}
use pedis.Protocol

length-skip_spaces : (s : Bytes) → length (Protocol.skip_spaces s) ≤ length s
unfolding Protocol.skip_spaces
length-skip_spaces [] = omega arith
length-skip_spaces (c ∷ s) = ground (arith, length-skip_spaces s)

length-drop : (n : ℕ) (s : Bytes) → length (drop n s) ≤ length s
length-drop zero s = omega arith
length-drop (suc n) [] = omega arith
length-drop (suc n) (c ∷ s) = omega (arith, length-drop n s)

-- What is left to read after a round.
unfoldable pub LeavesBelow : ℕ → Protocol.Next → Type 0
LeavesBelow n (Protocol.Next.stop p) = p ≢ Protocol.Parsed.stuck
LeavesBelow n (Protocol.Next.go named begin s r) = length s < n

abbrev LookBelow : ℕ → Protocol.Look → Type 0
LookBelow n Protocol.Look.past = Unit
LookBelow n (Protocol.Look.line_end s) = length s < n
LookBelow n (Protocol.Look.other s) = length s < n

look-Below : (n : ℕ) (s : Bytes) → length s ≤ n → LookBelow n (Protocol.look s)
unfolding Protocol.look
look-Below n [] h = tt
look-Below n (c ∷ []) h = on_if (LookBelow n) (c == 13) _ _ (λ _. tt) (λ _. omega arith)
look-Below n (c ∷ d ∷ s) h =
    on_if (LookBelow n) (c == 13 && d == 10) _ _ (λ _. omega arith) (λ _. omega arith)

check_size-stuck :
    (n : ℕ) (p : Protocol.Parsed)
    → p ≢ Protocol.Parsed.stuck
    → Protocol.check_size n p ≢ Protocol.Parsed.stuck
check_size-stuck n (Protocol.Parsed.more r) h =
    on_if (λ p. p ≢ Protocol.Parsed.stuck) (ltb Protocol.max_inline_buffer_size n) _ _
      (λ _ q. ground (arith, q)) (λ _. h)
check_size-stuck n (Protocol.Parsed.done r rest) h = h
check_size-stuck n Protocol.Parsed.failed h = h
check_size-stuck n Protocol.Parsed.assertion h = h
check_size-stuck n Protocol.Parsed.overrun h = h
check_size-stuck n Protocol.Parsed.stuck h = h

module _ (atoi : Bytes → ℤ) where
  take_text-Below :
      (n : ℕ) (named : Bool) (text end : Bytes) (r : Protocol.Request)
      → length end < n
      → LeavesBelow n (Protocol.take_text atoi named text end r)
  unfolding Protocol.take_text LeavesBelow
  take_text-Below n named text end r h =
      on_if (LeavesBelow n) (is_empty r.command) _ _ (λ _. h)
        (λ _.
          on_if (LeavesBelow n) (length (r.args ++ text ∷ []) == r.args_count) _ _
            (λ _ q. ground (arith, q)) (λ _. h))

  bulk_line-Below :
      (n : ℕ) (named : Bool) (begin end : Bytes) (r : Protocol.Request)
      → length end < n
      → LeavesBelow n (Protocol.bulk_line atoi named begin end r)
  unfolding Protocol.bulk_line LeavesBelow
  bulk_line-Below n named begin end r h =
      let endnumber = Protocol.find_first_nonnumeric (length end) (drop 1 begin) in
      on_if (LeavesBelow n) (length endnumber == length end) _ _ (λ _ q. ground (arith, q))
        (λ _. elim (Option-cases (Protocol.convert_to_number atoi (drop 1 begin))) [
          | inl wrong ↦ rw wrong (λ q. ground (arith, q))
          | inr (number, right) ↦ rw right (
              on_if (LeavesBelow n) (ltb (length end) (number + 2) || ltb (length endnumber) 2) _ _
                (λ _ q. ground (arith, q))
                (λ _.
                  take_text-Below n named (take number (drop 2 endnumber)) (drop (number + 2) end) r
                    (omega (arith, length-drop (number + 2) end, h))))
        ])

  count_line-Below :
      (n : ℕ) (named : Bool) (begin end : Bytes) (r : Protocol.Request)
      → length end < n
      → LeavesBelow n (Protocol.count_line atoi named begin end r)
  unfolding Protocol.count_line LeavesBelow
  count_line-Below n named begin end r h =
      on_if (LeavesBelow n) named _ _ (λ _ q. ground (arith, q))
        (λ _.
          on_if (LeavesBelow n) (not (is_empty r.args)) _ _ (λ _ q. ground (arith, q))
            (λ _. elim (Option-cases (Protocol.convert_to_number atoi (drop 1 begin))) [
              | inl wrong ↦ rw wrong (λ q. ground (arith, q))
              | inr (number, right) ↦ rw right h
            ]))

  at_line_end-Below :
      (n : ℕ) (named : Bool) (begin end : Bytes) (r : Protocol.Request)
      → length end < n
      → LeavesBelow n (Protocol.at_line_end atoi named begin end r)
  unfolding Protocol.at_line_end LeavesBelow
  at_line_end-Below n named begin end r h =
      on_if (LeavesBelow n) (Protocol.head begin == b'*') _ _
        (λ _. count_line-Below n named begin end r h)
        (λ _.
          on_if (LeavesBelow n) (not (Protocol.head begin == b'$') || not named) _ _
            (λ _ q. ground (arith, q)) (λ _. bulk_line-Below n named begin end r h))

  look_step-Below :
      (n : ℕ) (named : Bool) (begin : Bytes) (r : Protocol.Request) (l : Protocol.Look)
      → LookBelow n l
      → LeavesBelow n (elim l [
        | Protocol.Look.past ↦ Protocol.Next.stop Protocol.Parsed.overrun
        | Protocol.Look.line_end end ↦ Protocol.at_line_end atoi named begin end r
        | Protocol.Look.other rest ↦ Protocol.Next.go named begin rest r
      ])
  unfolding LeavesBelow
  look_step-Below n named begin r Protocol.Look.past h = λ q. ground (arith, q)
  look_step-Below n named begin r (Protocol.Look.line_end end) h =
      at_line_end-Below n named begin end r h
  look_step-Below n named begin r (Protocol.Look.other rest) h = h

  step-Below :
      (named : Bool) (begin s : Bytes) (r : Protocol.Request)
      → LeavesBelow (length s) (Protocol.step atoi named begin s r)
  unfolding Protocol.step LeavesBelow
  step-Below named begin s r =
      on_if (LeavesBelow (length s)) (ltb (length s) 2) _ _ (λ _ q. ground (arith, q))
        (λ _.
          look_step-Below (length s) named begin r (Protocol.look (Protocol.skip_spaces s))
            (look-Below (length s) (Protocol.skip_spaces s) (length-skip_spaces s)))

  -- What the loop makes of a round, with `fuel` more rounds.
  unfoldable pub after : ℕ → Protocol.Next → Protocol.Parsed
  after fuel (Protocol.Next.stop p) = p
  after fuel (Protocol.Next.go named begin s r) = Protocol.parse_loop atoi fuel named begin s r

  pub parse_loop-after :
      (fuel : ℕ) (named : Bool) (begin s : Bytes) (r : Protocol.Request)
      → Protocol.parse_loop atoi (suc fuel) named begin s r
        ≡ after fuel (Protocol.step atoi named begin s r)
  unfolding Protocol.parse_loop after
  parse_loop-after fuel named begin s r = refl

  after-fuel :
      (f g n : ℕ) (x : Protocol.Next)
      → LeavesBelow n x
      → ((named : Bool) (begin s : Bytes) (r : Protocol.Request)
          → length s < n
          → Protocol.parse_loop atoi f named begin s r ≡ Protocol.parse_loop atoi g named begin s r)
      → after f x ≡ after g x
  unfolding after LeavesBelow
  after-fuel f g n (Protocol.Next.stop p) h rest = refl
  after-fuel f g n (Protocol.Next.go named begin s r) h rest = rest named begin s r h

  -- Two numbers of rounds give the same result where both are above the number of bytes left.
  pub parse_loop-fuel :
      (f g : ℕ) (named : Bool) (begin s : Bytes) (r : Protocol.Request)
      → length s < f
      → length s < g
      → Protocol.parse_loop atoi f named begin s r ≡ Protocol.parse_loop atoi g named begin s r
  parse_loop-fuel zero g named begin s r hf hg = absurd (omega arith)
  parse_loop-fuel (suc f) zero named begin s r hf hg = absurd (omega arith)
  parse_loop-fuel (suc f) (suc g) named begin s r hf hg =
      parse_loop-after f named begin s r
      ∙ after-fuel f g (length s) (Protocol.step atoi named begin s r) (step-Below named begin s r)
          (λ named' begin' s' r' h.
            parse_loop-fuel f g named' begin' s' r' (omega (arith, h, hf)) (omega (arith, h, hg)))
      ∙ sym (parse_loop-after g named begin s r)

  after-returns :
      (f n : ℕ) (x : Protocol.Next)
      → LeavesBelow n x
      → ((named : Bool) (begin s : Bytes) (r : Protocol.Request)
          → length s < n
          → Protocol.parse_loop atoi f named begin s r ≢ Protocol.Parsed.stuck)
      → after f x ≢ Protocol.Parsed.stuck
  unfolding after LeavesBelow
  after-returns f n (Protocol.Next.stop p) h rest = h
  after-returns f n (Protocol.Next.go named begin s r) h rest = rest named begin s r h

  parse_loop-returns :
      (f : ℕ) (named : Bool) (begin s : Bytes) (r : Protocol.Request)
      → length s < f
      → Protocol.parse_loop atoi f named begin s r ≢ Protocol.Parsed.stuck
  parse_loop-returns zero named begin s r hf = absurd (omega arith)
  parse_loop-returns (suc f) named begin s r hf =
      subst (λ p. p ≢ Protocol.Parsed.stuck) (sym (parse_loop-after f named begin s r))
        (after-returns f (length s) (Protocol.step atoi named begin s r)
          (step-Below named begin s r)
          (λ named' begin' s' r' h.
            parse_loop-returns f named' begin' s' r' (omega (arith, h, hf))))

  -- For every buffer and every state of the parser, the loop of `parse` ends within the rounds that
  -- the model gives it, one more than the bytes of the buffer.
  pub parse-returns :
      (r : Protocol.Request) (buf : Bytes) → Protocol.parse atoi r buf ≢ Protocol.Parsed.stuck
  unfolding Protocol.parse
  parse-returns r buf =
      check_size-stuck (length buf) _ (
        parse_loop-returns (length buf + 1) false buf buf (record r { command = [] }) (omega arith))
