-- ===== src/Protocol/RoundTrip.antt =====
-- A request in the wire format, and what the parser makes of it.
use pedis.Base.{
  ℕ, suc, ◌+◌, ◌-◌, ◌^◌, ◌<◌, ◌≡◌, refl, ap, ◌∙◌, Bool, true, false, some, List, [], ◌∷◌, ◌++◌,
  arith, length, length-append, is_empty,
}
use mathlib.Core.List.{append_assoc}
use pedis.Base.Int.{ℤ}
use pedis.Base.Bytes.{Bytes}
use pedis.Reply.Wire.{crlf}
use pedis.Protocol
use pedis.Protocol.{Request, Parsed, Next}
use pedis.Protocol.Progress.{parse_loop-fuel}
use pedis.Protocol.Lines.{
  Decimal, find-digits, take-append, drop-append, run, run-go, run-stop, step-line, run-line,
}

-- A text that a request may carry: not empty, and its length has 32 bits.
abbrev pub IsText : Bytes → Type 0
IsText text = (0 < length text) × (length text < 2 ^ 32)

abbrev pub AreTexts : List Bytes → Type 0
AreTexts [] = Unit
AreTexts (t ∷ ts) = IsText t × AreTexts ts

minus_one : (n : ℕ) → n + 1 - 1 ≡ n
minus_one n = omega arith

module _ {atoi : Bytes → ℤ} (X : Decimal atoi) where
  unfoldable pub number_line : ℕ → ℕ → Bytes → Bytes
  number_line tag n rest = tag ∷ (X.digits n ++ (crlf ++ rest))

  unfoldable pub bulk : Bytes → Bytes → Bytes
  unfolding number_line
  bulk text rest = number_line b'$' (length text) (text ++ (crlf ++ rest))

  unfoldable pub bulks : List Bytes → Bytes → Bytes
  unfolding bulk
  bulks [] rest = rest
  bulks (t ∷ ts) rest = bulk t (bulks ts rest)

  -- A request in the wire format, and what follows it.
  unfoldable pub request_bytes : Bytes → List Bytes → Bytes → Bytes
  unfolding bulks
  request_bytes command args rest = number_line b'*' (length args + 1) (bulks (command ∷ args) rest)

  convert-digits :
      (n : ℕ) (rest : Bytes)
      → 0 < n
      → n < 2 ^ 32
      → Protocol.convert_to_number atoi (X.digits n ++ (crlf ++ rest)) ≡ some n
  unfolding Protocol.convert_to_number
  convert-digits n rest h k = ground (arith, h, k, X.atoi-digits n (10 ∷ rest))

  count_line-number :
      (n : ℕ) (rest : Bytes) (r : Request)
      → 0 < n
      → n < 2 ^ 32
      → r.args ≡ []
      → Protocol.at_line_end atoi false (number_line b'*' n rest) rest r
        ≡ Next.go true rest rest (record r { args_count = n - 1 })
  unfolding Protocol.at_line_end Protocol.count_line Protocol.head number_line
  count_line-number n rest r h k e = ground (arith, h, k, e, convert-digits n rest h k)

  bulk_line-text :
      (text rest : Bytes) (r : Request)
      → IsText text
      → Protocol.at_line_end atoi true (bulk text rest) (text ++ (crlf ++ rest)) r
        ≡ Protocol.take_text atoi true text rest r
  unfolding Protocol.at_line_end Protocol.bulk_line Protocol.head bulk number_line
  bulk_line-text text rest r h =
      let n = length text in
      let end = text ++ (crlf ++ rest) in
      ground (
        arith,
        h,
        convert-digits n end h.0 h.1,
        find-digits (length end) (X.digits n) (10 ∷ end) (X.digits-IsDigits n) (omega arith),
        take-append text (crlf ++ rest),
        drop-append text rest,
        length-append text (crlf ++ rest),
      )

  after-line :
      (named : Bool) (begin rest : Bytes) (r : Request) (x : Next)
      → Protocol.at_line_end atoi named begin rest r ≡ x
      → Protocol.step atoi named begin (crlf ++ rest) r ≡ x
  after-line named begin rest r x e = step-line atoi named begin rest r ∙ e

  run-count :
      (n : ℕ) (rest : Bytes) (r : Request)
      → 0 < n
      → n < 2 ^ 32
      → r.args ≡ []
      → run atoi false (number_line b'*' n rest) (number_line b'*' n rest) r
        ≡ run atoi true rest rest (record r { args_count = n - 1 })
  unfolding number_line
  run-count n rest r h k e =
      let s = number_line b'*' n rest in
      run-line atoi false b'*' (X.digits n) rest r s (λ q. ground (arith, q))
        (λ q. ground (arith, q)) (X.digits-IsDigits n)
      ∙ run-go atoi false true s rest (crlf ++ rest) rest r (record r { args_count = n - 1 })
          (after-line false s rest r _ (count_line-number n rest r h k e)) (omega arith)

  -- One text: the round at its line end decides.
  run-bulk :
      (text rest : Bytes) (r : Request)
      → run atoi true (bulk text rest) (bulk text rest) r
        ≡ run atoi true (bulk text rest) (crlf ++ (text ++ (crlf ++ rest))) r
  unfolding bulk number_line
  run-bulk text rest r =
      run-line atoi true b'$' (X.digits (length text)) (text ++ (crlf ++ rest)) r (bulk text rest)
        (λ q. ground (arith, q)) (λ q. ground (arith, q)) (X.digits-IsDigits (length text))

  run-bulk_go :
      (text rest : Bytes) (r r' : Request)
      → IsText text
      → Protocol.take_text atoi true text rest r ≡ Next.go true rest rest r'
      → run atoi true (bulk text rest) (bulk text rest) r ≡ run atoi true rest rest r'
  run-bulk_go text rest r r' h e =
      let end = text ++ (crlf ++ rest) in
      run-bulk text rest r
      ∙ run-go atoi true true (bulk text rest) rest (crlf ++ end) rest r r'
          (after-line true (bulk text rest) end r _ (bulk_line-text text rest r h ∙ e))
          (omega (arith, length-append text (crlf ++ rest)))

  run-bulk_stop :
      (text rest : Bytes) (r : Request) (p : Parsed)
      → IsText text
      → Protocol.take_text atoi true text rest r ≡ Next.stop p
      → run atoi true (bulk text rest) (bulk text rest) r ≡ p
  run-bulk_stop text rest r p h e =
      let end = text ++ (crlf ++ rest) in
      run-bulk text rest r
      ∙ run-stop atoi true (bulk text rest) (crlf ++ end) r p
          (after-line true (bulk text rest) end r _ (bulk_line-text text rest r h ∙ e))

  -- The arguments, up to the number that the first line gave.
  run-bulks :
      (t : Bytes) (ts : List Bytes) (rest : Bytes) (r : Request)
      → AreTexts (t ∷ ts)
      → is_empty r.command ≡ false
      → r.args_count ≡ length r.args + length (t ∷ ts)
      → run atoi true (bulks (t ∷ ts) rest) (bulks (t ∷ ts) rest) r
        ≡ Parsed.done (record r { state = Protocol.ProtocolState.ok; args = r.args ++ t ∷ ts }) rest
  unfolding bulks Protocol.take_text
  run-bulks t [] rest r h c n =
      run-bulk_stop t rest r _ h.0 (ground (arith, c, n, length-append r.args (t ∷ [])))
  run-bulks t (u ∷ ts) rest r h c n =
      let r' : Request = record r { args = r.args ++ t ∷ [] } in
      run-bulk_go t (bulks (u ∷ ts) rest) r r' h.0
        (ground (arith, c, n, length-append r.args (t ∷ [])))
      ∙ run-bulks u ts rest r' h.1 c (omega (arith, n, length-append r.args (t ∷ [])))
      ∙ ap (λ l. Parsed.done (record r { state = Protocol.ProtocolState.ok; args = l }) rest)
          (append_assoc r.args (t ∷ []) (u ∷ ts))

  parse-run :
      (r : Request) (buf : Bytes)
      → Protocol.parse atoi r buf
        ≡ Protocol.check_size (length buf) (run atoi false buf buf (record r { command = [] }))
  unfolding Protocol.parse
  parse-run r buf = ap (Protocol.check_size (length buf)) (
      parse_loop-fuel atoi (length buf + 1) (suc (length buf)) false buf buf
        (record r { command = [] }) (omega arith) (omega arith))

  -- The first line and the command.
  run-command :
      (r : Request) (command : Bytes) (args : List Bytes) (rest : Bytes)
      → r.args ≡ []
      → IsText command
      → length args + 1 < 2 ^ 32
      → let s = request_bytes command args rest in
        run atoi false s s (record r { command = [] })
        ≡ run atoi true
            (bulks args rest)
            (bulks args rest)
            (record r { command = command; args_count = length args })
  unfolding request_bytes bulks Protocol.take_text
  run-command r command args rest e h n =
      let r0 : Request = record r { command = []; args_count = length args + 1 - 1 } in
      let r1 : Request = record r { command = command; args_count = length args + 1 - 1 } in
      run-count (length args + 1) (bulk command (bulks args rest)) (record r { command = [] })
        (omega arith) n e
      ∙ run-bulk_go command (bulks args rest) r0 r1 h refl
      ∙ ap
          (λ k.
            run atoi true (bulks args rest) (bulks args rest)
              (record r { command = command; args_count = k }))
          (minus_one (length args))

  IsText-nonempty : (t : Bytes) → IsText t → is_empty t ≡ false
  IsText-nonempty t h = ground (arith, h)

  -- A request in the wire format, of a command and one argument at least, each neither empty nor as
  -- long as 2^32 bytes and fewer than 2^32 in all, is parsed into exactly that command and those
  -- arguments, and the parser stops where the request ends; `atoi` reads back the decimal digits,
  -- and the parser starts without arguments.
  pub parse-request_bytes :
      (r : Request) (command t : Bytes) (ts : List Bytes) (rest : Bytes)
      → r.args ≡ []
      → AreTexts (command ∷ t ∷ ts)
      → length (t ∷ ts) + 1 < 2 ^ 32
      → Protocol.parse atoi r (request_bytes command (t ∷ ts) rest)
        ≡ Parsed.done
            (record {
              state = Protocol.ProtocolState.ok;
              command = command;
              args_count = length (t ∷ ts);
              args = t ∷ ts;
            })
            rest
  parse-request_bytes r command t ts rest e h n =
      let args = t ∷ ts in
      let buf = request_bytes command args rest in
      let r1 : Request = record r { command = command; args_count = length args } in
      parse-run r buf
      ∙ ap (Protocol.check_size (length buf)) (
          run-command r command args rest e h.0 n
          ∙ run-bulks t ts rest r1 h.1 (IsText-nonempty command h.0) (omega (arith, ap length e))
          ∙ ap
              (λ l.
                Parsed.done (record r1 { state = Protocol.ProtocolState.ok; args = l ++ args })
                  rest)
              e)

  -- A whole request of a command without arguments is never completed: the parser takes the command
  -- and asks for more bytes, or throws where the request is longer than 64 KiB.
  pub parse-command_alone :
      (r : Request) (command : Bytes)
      → r.args ≡ []
      → IsText command
      → Protocol.parse atoi r (request_bytes command [] [])
        ≡ Protocol.check_size
            (length (request_bytes command [] []))
            (Parsed.more (record r { command = command; args_count = 0 }))
  unfolding Protocol.step bulks
  parse-command_alone r command e h =
      let buf = request_bytes command [] [] in
      parse-run r buf
      ∙ ap (Protocol.check_size (length buf)) (
          run-command r command [] [] e h (omega arith)
          ∙ run-stop atoi true [] [] (record r { command = command; args_count = 0 }) _ refl)
