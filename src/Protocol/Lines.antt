-- ===== src/Protocol/Lines.antt =====
-- The lines of a request in the wire format, and what the rounds of `parse` make of them.
use pedis.Base.{
  ℕ, suc, ◌+◌, ◌≤◌, ◌<◌, ◌≡◌, ◌≢◌, refl, ap, ◌∙◌, Bool, true, [], ◌∷◌, ◌++◌, arith, length,
  length-append, drop, take,
}
use pedis.Base.Int.{ℤ, pos}
use pedis.Base.Bytes.{Bytes}
use pedis.Reply.Wire.{crlf}
use pedis.Protocol
use pedis.Protocol.{Request, Parsed, Next}
use pedis.Protocol.Progress.{after, parse_loop-after, parse_loop-fuel}

-- Decimal digits only.
abbrev pub IsDigits : Bytes → Type 0
IsDigits [] = Unit
IsDigits (c ∷ s) = (Protocol.is_digit c ≡ true) × IsDigits s

-- Decimal digits, and `atoi` up to the first byte that is none.
pub record Decimal (atoi : Bytes → ℤ) : Type 0 where
  pub digits : ℕ → Bytes
  pub digits-IsDigits : (n : ℕ) → IsDigits (digits n)
  pub atoi-digits : (n : ℕ) (rest : Bytes) → atoi (digits n ++ (13 ∷ rest)) ≡ pos n

look-plain : (c : ℕ) (t : Bytes) → c ≢ 13 → Protocol.look (c ∷ t) ≡ Protocol.Look.other t
unfolding Protocol.look
look-plain c [] h = ground (arith, h)
look-plain c (d ∷ t) h = ground (arith, h)

pub find-digits :
    (end : ℕ) (d rest : Bytes)
    → IsDigits d
    → end ≤ length rest
    → Protocol.find_first_nonnumeric end (d ++ (13 ∷ rest)) ≡ 13 ∷ rest
unfolding Protocol.find_first_nonnumeric
find-digits end [] rest p h = refl
find-digits end (c ∷ d) rest p h =
    ground (arith, find-digits end d rest p.1 h, length-append d (13 ∷ rest))

pub take-append : (text rest : Bytes) → take (length text) (text ++ rest) ≡ text
take-append [] rest = refl
take-append (c ∷ text) rest = ap (λ r. c ∷ r) (take-append text rest)

pub drop-append : (text rest : Bytes) → drop (length text + 2) (text ++ (crlf ++ rest)) ≡ rest
drop-append [] rest = refl
drop-append (c ∷ text) rest =
    let shift : length (c ∷ text) + 2 ≡ suc (length text + 2) = omega arith in
    ap (λ n. drop n (c ∷ (text ++ (crlf ++ rest)))) shift ∙ drop-append text rest

module _ (atoi : Bytes → ℤ) where
  -- The loop with rounds enough.
  abbrev pub run : Bool → Bytes → Bytes → Request → Parsed
  run named begin s r = Protocol.parse_loop atoi (suc (length s)) named begin s r

  pub run-go :
      (named named' : Bool) (begin begin' s s' : Bytes) (r r' : Request)
      → Protocol.step atoi named begin s r ≡ Next.go named' begin' s' r'
      → length s' < length s
      → run named begin s r ≡ run named' begin' s' r'
  unfolding after
  run-go named named' begin begin' s s' r r' e h =
      parse_loop-after atoi (length s) named begin s r
      ∙ ap (after atoi (length s)) e
      ∙ parse_loop-fuel atoi (length s) (suc (length s')) named' begin' s' r' h (omega arith)

  pub run-stop :
      (named : Bool) (begin s : Bytes) (r : Request) (p : Parsed)
      → Protocol.step atoi named begin s r ≡ Next.stop p
      → run named begin s r ≡ p
  unfolding after
  run-stop named begin s r p e =
      parse_loop-after atoi (length s) named begin s r ∙ ap (after atoi (length s)) e

  step-plain :
      (named : Bool) (begin : Bytes) (c : ℕ) (t : Bytes) (r : Request)
      → c ≢ 32
      → c ≢ 13
      → 0 < length t
      → Protocol.step atoi named begin (c ∷ t) r ≡ Next.go named begin t r
  unfolding Protocol.step Protocol.skip_spaces
  step-plain named begin c t r h k l = ground (arith, h, k, l, look-plain c t k)

  pub step-line :
      (named : Bool) (begin rest : Bytes) (r : Request)
      → Protocol.step atoi named begin (crlf ++ rest) r
        ≡ Protocol.at_line_end atoi named begin rest r
  unfolding Protocol.step Protocol.skip_spaces Protocol.look
  step-line named begin rest r = ground arith

  -- The search for a line end passes over digits.
  run-digits :
      (named : Bool) (begin d rest : Bytes) (r : Request)
      → IsDigits d
      → run named begin (d ++ (crlf ++ rest)) r ≡ run named begin (crlf ++ rest) r
  run-digits named begin [] rest r p = refl
  run-digits named begin (c ∷ d) rest r p =
      let t = d ++ (crlf ++ rest) in
      let l = length-append d (crlf ++ rest) in
      run-go named named begin begin (c ∷ t) t r r
        (step-plain named begin c t r (λ q. ground (arith, p.0, q)) (λ q. ground (arith, p.0, q))
          (omega (arith, l)))
        (omega arith)
      ∙ run-digits named begin d rest r p.1

  -- A line of a tag and a number.
  pub run-line :
      (named : Bool) (tag : ℕ) (d rest : Bytes) (r : Request) (begin : Bytes)
      → tag ≢ 32
      → tag ≢ 13
      → IsDigits d
      → run named begin (tag ∷ (d ++ (crlf ++ rest))) r ≡ run named begin (crlf ++ rest) r
  run-line named tag d rest r begin h k p =
      let t = d ++ (crlf ++ rest) in
      let l = length-append d (crlf ++ rest) in
      run-go named named begin begin (tag ∷ t) t r r
        (step-plain named begin tag t r h k (omega (arith, l))) (omega arith)
      ∙ run-digits named begin d rest r p
