-- ===== src/Tests/Requests.antt =====
-- The theorems on requests at concrete inputs, with numbers in strokes.
use pedis.Base.{ℕ, zero, suc, ◌≡◌, ◌≢◌, refl, ap, [], ◌∷◌, ◌++◌, arith, length, ◌==◌, if◌then◌else◌}
use pedis.Base.Int.{ℤ, pos}
use pedis.Base.Bytes.{Bytes}
use pedis.Protocol
use pedis.Protocol.{Request, Parsed}
use pedis.Protocol.Progress.{parse-returns}
use pedis.Protocol.Complete.{IsComplete, parse-IsComplete}
use pedis.Protocol.Lines.{IsDigits, Decimal}
use pedis.Protocol.RoundTrip.{request_bytes, parse-request_bytes, parse-command_alone}

unfoldable pub marks : ℕ → Bytes
marks zero = []
marks (suc n) = b'1' ∷ marks n

unfoldable pub count_marks : Bytes → ℕ
count_marks [] = 0
count_marks (c ∷ s) = let rest = count_marks s in if c == b'1' then suc rest else 0

abbrev pub atoi_marks : Bytes → ℤ
atoi_marks s = pos (count_marks s)

pub marks-IsDigits : (n : ℕ) → IsDigits (marks n)
unfolding marks
marks-IsDigits zero = tt
marks-IsDigits (suc n) = (refl, marks-IsDigits n)

pub count_marks-marks : (n : ℕ) (rest : Bytes) → count_marks (marks n ++ (13 ∷ rest)) ≡ n
unfolding marks count_marks
count_marks-marks zero rest = refl
count_marks-marks (suc n) rest = ap suc (count_marks-marks n rest)

abbrev pub in_marks : Decimal atoi_marks
in_marks = record {
  digits = marks;
  digits-IsDigits = marks-IsDigits;
  atoi-digits = λ n rest. ap pos (count_marks-marks n rest);
}

abbrev get_name : Bytes
get_name = b'g' ∷ b'e' ∷ b't' ∷ []

abbrev pub key_text : Bytes
key_text = b'k' ∷ []

abbrev ping_name : Bytes
ping_name = b'p' ∷ b'i' ∷ []

parse-returns_example : Protocol.parse atoi_marks Protocol.init (b'*' ∷ []) ≢ Parsed.stuck
parse-returns_example = parse-returns atoi_marks Protocol.init (b'*' ∷ [])

parse-request_bytes_example :
    Protocol.parse atoi_marks Protocol.init
      (request_bytes in_marks get_name (key_text ∷ []) key_text)
    ≡ Parsed.done
        (record {
          state = Protocol.ProtocolState.ok;
          command = get_name;
          args_count = 1;
          args = key_text ∷ [];
        })
        key_text
unfolding Protocol.init
parse-request_bytes_example =
    parse-request_bytes in_marks Protocol.init get_name key_text [] key_text refl
      ((omega arith, omega arith), ((omega arith, omega arith), tt)) (omega arith)

parse-command_alone_example :
    Protocol.parse atoi_marks Protocol.init (request_bytes in_marks ping_name [] [])
    ≡ Protocol.check_size
        (length (request_bytes in_marks ping_name [] []))
        (Parsed.more (record Protocol.init { command = ping_name; args_count = 0 }))
unfolding Protocol.init
parse-command_alone_example =
    parse-command_alone in_marks Protocol.init ping_name refl (omega arith, omega arith)

parse-IsComplete_example : IsComplete (
    Protocol.parse atoi_marks Protocol.init
      (request_bytes in_marks get_name (key_text ∷ []) key_text))
parse-IsComplete_example =
    parse-IsComplete atoi_marks Protocol.init
      (request_bytes in_marks get_name (key_text ∷ []) key_text)
