-- ===== src/Reply/Framing.antt =====
-- The batches that a client reads back: what it needs of the printer, and the round trips.
use pedis.Base.{
  ℕ, zero, suc, ◌+◌, ◌≡◌, refl, ap, ◌∙◌, Option, none, some, List, [], ◌∷◌, ◌++◌, arith,
  if◌then◌else◌, length, take, drop, ◌==◌,
}
use mathlib.Core.List.{append_assoc}
use mathlib.Core.Path.{ap₂}
use mathlib.Core.Option
use pedis.Base.Bytes.{Bytes}
use pedis.Reply.{Reply}
use pedis.Reply.Wire.{Printer, crlf, counted, bulk_text, header_text, each, build}

-- A reader of the printed sizes: it undoes the printer before a line end.
pub record SizeReader {F : Type 0} (P : Printer F) : Type 0 where
  pub read_size : Bytes → Option (ℕ × Bytes)
  pub read_size-print :
      (n : ℕ) (rest : Bytes) → read_size (P.size n ++ (crlf ++ rest)) ≡ some (n, rest)

module _ {F : Type 0} (P : Printer F) (R : SizeReader P) where
  -- The bytes of a text, and what follows the line end behind it.
  abbrev split_text : ℕ × Bytes → Bytes × Bytes
  split_text (n, rest) = (take n rest, drop (n + 2) rest)

  -- A client's reader of a bulk string.
  unfoldable pub read_bulk : Bytes → Option (Bytes × Bytes)
  read_bulk [] = none
  read_bulk (tag ∷ rest) = if tag == b'$' then Option.map split_text (R.read_size rest) else none

  unfoldable pub read_many : ℕ → Bytes → Option (List Bytes × Bytes)
  unfolding read_bulk
  read_many zero rest = some ([], rest)
  read_many (suc n) rest = elim (read_bulk rest) [
    | none ↦ none
    | some (b, rest') ↦ Option.map (λ r. (b ∷ r.0, r.1)) (read_many n rest')
  ]

  -- A client's reader of a batch of bulk strings.
  unfoldable pub read_batch : Bytes → Option (List Bytes × Bytes)
  unfolding read_many
  read_batch [] = none
  read_batch (tag ∷ rest) =
      if tag == b'*'
      then (elim (R.read_size rest) [ none ↦ none | some (n, rest') ↦ read_many n rest' ])
      else none

  take-append : (b rest : Bytes) → take (length b) (b ++ rest) ≡ b
  take-append [] rest = refl
  take-append (x ∷ b) rest = ap (λ r. x ∷ r) (take-append b rest)

  drop-append : (b rest : Bytes) → drop (length b + 2) (b ++ (crlf ++ rest)) ≡ rest
  drop-append [] rest = refl
  drop-append (x ∷ b) rest =
      let shift : length (x ∷ b) + 2 ≡ suc (length b + 2) = omega arith in
      ap (λ n. drop n (x ∷ (b ++ (crlf ++ rest)))) shift ∙ drop-append b rest

  read_bulk-print : (b rest : Bytes) → read_bulk (bulk_text P b ++ rest) ≡ some (b, rest)
  unfolding read_bulk bulk_text counted
  read_bulk-print b rest =
      let n = P.size (length b) in
      let text : Bytes = b ++ (crlf ++ rest) in
      let joined : (n ++ (crlf ++ (b ++ crlf))) ++ rest ≡ n ++ (crlf ++ text) =
        append_assoc n (crlf ++ (b ++ crlf)) rest
        ∙ ap (λ r. n ++ (crlf ++ r)) (append_assoc b crlf rest) in
      ap (λ r. Option.map split_text (R.read_size r)) joined
      ∙ ap (Option.map split_text) (R.read_size-print (length b) text)
      ∙ ap some (ap₂ (λ u v. (u, v)) (take-append b (crlf ++ rest)) (drop-append b rest))

  read_many-print :
      (l : List Bytes) (rest : Bytes)
      → read_many (length l) (each (bulk_text P) l ++ rest) ≡ some (l, rest)
  unfolding read_many each
  read_many-print [] rest = refl
  read_many-print (b ∷ l) rest =
      rw (append_assoc (bulk_text P b) (each (bulk_text P) l) rest)
        (ground (arith, read_bulk-print b (each (bulk_text P) l ++ rest), read_many-print l rest))

  -- With a reader that undoes the printer of sizes, a client reads the reply of a batch of texts
  -- back as those texts, and stops where the reply ends.
  pub read_batch-build :
      (l : List Bytes) (rest : Bytes)
      → read_batch (build P (Reply.bulks l) ++ rest) ≡ some (l, rest)
  unfolding read_batch build header_text
  read_batch-build l rest =
      let n = P.size (length l) in
      let parts = each (bulk_text P) l in
      ground (
        arith,
        append_assoc (n ++ crlf) parts rest,
        append_assoc n crlf (parts ++ rest),
        R.read_size-print (length l) (parts ++ rest),
        read_many-print l rest,
      )
