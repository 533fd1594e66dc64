-- ===== src/Protocol/Complete.antt =====
-- What a completed request looks like.
use pedis.Base.{
  ℕ, zero, suc, ◌+◌, ◌≡◌, refl, sym, subst, Bool, false, List, [], ◌∷◌, ◌++◌, arith, length, drop,
  take, ltb, inl, inr, on_if, Option-cases, ◌||◌, not, ◌==◌, is_empty,
}
use pedis.Base.Int.{ℤ}
use pedis.Base.Bytes.{Bytes}
use pedis.Protocol
use pedis.Protocol.{Request, Parsed, Next}
use pedis.Protocol.Progress.{after, parse_loop-after}

-- A completed request has a command, as many arguments as its first line gave, and the state `ok`.
abbrev pub IsComplete : Parsed → Type 0
IsComplete (Parsed.done r rest) =
    (r.state ≡ Protocol.ProtocolState.ok)
    × (length r.args ≡ r.args_count)
    × (is_empty r.command ≡ false)
    × (is_empty r.args ≡ false)
IsComplete _ = Unit

abbrev StopsComplete : Next → Type 0
StopsComplete (Next.stop p) = IsComplete p
StopsComplete (Next.go named begin s r) = Unit

append_one : (args : List Bytes) (text : Bytes) → is_empty (args ++ text ∷ []) ≡ false
append_one [] text = refl
append_one (a ∷ args) text = refl

check_size-IsComplete : (n : ℕ) (p : Parsed) → IsComplete p → IsComplete (Protocol.check_size n p)
check_size-IsComplete n (Parsed.more r) h =
    on_if IsComplete (ltb Protocol.max_inline_buffer_size n) _ _ (λ _. tt) (λ _. tt)
check_size-IsComplete n (Parsed.done r rest) h = h
check_size-IsComplete n Parsed.failed h = h
check_size-IsComplete n Parsed.assertion h = h
check_size-IsComplete n Parsed.overrun h = h
check_size-IsComplete n Parsed.stuck h = h

module _ (atoi : Bytes → ℤ) where
  take_text-StopsComplete :
      (named : Bool) (text end : Bytes) (r : Request)
      → StopsComplete (Protocol.take_text atoi named text end r)
  unfolding Protocol.take_text
  take_text-StopsComplete named text end r =
      on_if StopsComplete (is_empty r.command) _ _ (λ _. tt)
        (λ there.
          on_if StopsComplete (length (r.args ++ text ∷ []) == r.args_count) _ _
            (λ full. (refl, ground (arith, full), there, append_one r.args text)) (λ _. tt))

  bulk_line-StopsComplete :
      (named : Bool) (begin end : Bytes) (r : Request)
      → StopsComplete (Protocol.bulk_line atoi named begin end r)
  unfolding Protocol.bulk_line
  bulk_line-StopsComplete named begin end r =
      let endnumber = Protocol.find_first_nonnumeric (length end) (drop 1 begin) in
      on_if StopsComplete (length endnumber == length end) _ _ (λ _. tt)
        (λ _. elim (Option-cases (Protocol.convert_to_number atoi (drop 1 begin))) [
          | inl wrong ↦ rw wrong tt
          | inr (number, right) ↦ rw right (
              on_if StopsComplete (ltb (length end) (number + 2) || ltb (length endnumber) 2) _ _
                (λ _. tt)
                (λ _.
                  take_text-StopsComplete named (take number (drop 2 endnumber))
                    (drop (number + 2) end) r))
        ])

  count_line-StopsComplete :
      (named : Bool) (begin end : Bytes) (r : Request)
      → StopsComplete (Protocol.count_line atoi named begin end r)
  unfolding Protocol.count_line
  count_line-StopsComplete named begin end r =
      on_if StopsComplete named _ _ (λ _. tt)
        (λ _.
          on_if StopsComplete (not (is_empty r.args)) _ _ (λ _. tt)
            (λ _. elim (Option-cases (Protocol.convert_to_number atoi (drop 1 begin))) [
              | inl wrong ↦ rw wrong tt
              | inr (number, right) ↦ rw right tt
            ]))

  at_line_end-StopsComplete :
      (named : Bool) (begin end : Bytes) (r : Request)
      → StopsComplete (Protocol.at_line_end atoi named begin end r)
  unfolding Protocol.at_line_end
  at_line_end-StopsComplete named begin end r =
      on_if StopsComplete (Protocol.head begin == b'*') _ _
        (λ _. count_line-StopsComplete named begin end r)
        (λ _.
          on_if StopsComplete (not (Protocol.head begin == b'$') || not named) _ _ (λ _. tt)
            (λ _. bulk_line-StopsComplete named begin end r))

  look-StopsComplete :
      (named : Bool) (begin : Bytes) (r : Request) (l : Protocol.Look)
      → StopsComplete (elim l [
        | Protocol.Look.past ↦ Next.stop Parsed.overrun
        | Protocol.Look.line_end end ↦ Protocol.at_line_end atoi named begin end r
        | Protocol.Look.other rest ↦ Next.go named begin rest r
      ])
  look-StopsComplete named begin r Protocol.Look.past = tt
  look-StopsComplete named begin r (Protocol.Look.line_end end) =
      at_line_end-StopsComplete named begin end r
  look-StopsComplete named begin r (Protocol.Look.other rest) = tt

  step-StopsComplete :
      (named : Bool) (begin s : Bytes) (r : Request)
      → StopsComplete (Protocol.step atoi named begin s r)
  unfolding Protocol.step
  step-StopsComplete named begin s r =
      on_if StopsComplete (ltb (length s) 2) _ _ (λ _. tt)
        (λ _. look-StopsComplete named begin r (Protocol.look (Protocol.skip_spaces s)))

  after-IsComplete :
      (f : ℕ) (x : Next)
      → StopsComplete x
      → ((named : Bool) (begin s : Bytes) (r : Request)
          → IsComplete (Protocol.parse_loop atoi f named begin s r))
      → IsComplete (after atoi f x)
  unfolding after
  after-IsComplete f (Next.stop p) h rest = h
  after-IsComplete f (Next.go named begin s r) h rest = rest named begin s r

  parse_loop-IsComplete :
      (f : ℕ) (named : Bool) (begin s : Bytes) (r : Request)
      → IsComplete (Protocol.parse_loop atoi f named begin s r)
  unfolding Protocol.parse_loop
  parse_loop-IsComplete zero named begin s r = tt
  parse_loop-IsComplete (suc f) named begin s r =
      subst IsComplete (sym (parse_loop-after atoi f named begin s r)) (
        after-IsComplete f (Protocol.step atoi named begin s r) (step-StopsComplete named begin s r)
          (parse_loop-IsComplete f))

  -- A request that the parser returns as done has the state `ok`, a command, at least one argument,
  -- and as many arguments as `_args_count` says.
  pub parse-IsComplete : (r : Request) (buf : Bytes) → IsComplete (Protocol.parse atoi r buf)
  unfolding Protocol.parse
  parse-IsComplete r buf =
      check_size-IsComplete (length buf) _
        (parse_loop-IsComplete (length buf + 1) false buf buf (record r { command = [] }))
