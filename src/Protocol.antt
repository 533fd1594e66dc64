-- ===== src/Protocol.antt =====
-- native_protocol_parser.cc: the parser of requests. A pointer into the buffer is the bytes from it
-- on, up to `pe`; the C library's `atoi` is a parameter.
pub mod Progress
pub mod Lines
pub mod RoundTrip
pub mod Complete
use pedis.Base.{
  ℕ, zero, suc, ◌+◌, ◌-◌, ◌%◌, ◌^◌, Bool, true, false, Option, none, some, List, [], ◌∷◌, ◌++◌,
  ◌==◌, ◌&&◌, ◌||◌, not, ltb, leb, if◌then◌else◌, length, is_empty, take, drop,
}
use pedis.Base.Int.{ℤ, pos, negsuc}
use pedis.Base.Bytes.{Bytes}

-- protocol_state
pub data ProtocolState : Type 0 where
  error eof ok : ProtocolState

-- The members of `request_wrapper` that the parser writes.
pub record Request : Type 0 where
  pub state : ProtocolState
  pub command : Bytes
  pub args_count : ℕ
  pub args : List Bytes

-- What a call returns: the request and the bytes behind it; a null pointer, where more bytes are
-- needed; an exception; a failed assertion; a read past the end of the buffer. `stuck` is a loop
-- that ran out of fuel.
pub data Parsed : Type 0 where
  done : Request → Bytes → Parsed
  more : Request → Parsed
  failed assertion overrun stuck : Parsed

-- `init`
unfoldable pub init : Request
init = record { state = ProtocolState.error; command = []; args_count = 0; args = [] }

-- MAX_INLINE_BUFFER_SIZE
abbrev pub max_inline_buffer_size : ℕ
max_inline_buffer_size = 65536

-- `isdigit`
abbrev pub is_digit : ℕ → Bool
is_digit c = leb b'0' c && leb c b'9'

-- `find_first_nonnumeric(begin, end)`, with the number of bytes from `end` on
unfoldable pub find_first_nonnumeric : ℕ → Bytes → Bytes
find_first_nonnumeric end [] = []
find_first_nonnumeric end (c ∷ s) =
    let rest = find_first_nonnumeric end s in
    if is_digit c && ltb end (length (c ∷ s)) then rest else c ∷ s

-- `while (*s == ' ') ++s`
unfoldable pub skip_spaces : Bytes → Bytes
skip_spaces [] = []
skip_spaces (c ∷ s) = let rest = skip_spaces s in if c == b' ' then rest else c ∷ s

-- `*s == '\r' && *(s + 1) == '\n'`
pub data Look : Type 0 where
  past : Look
  line_end other : Bytes → Look

unfoldable pub look : Bytes → Look
look [] = Look.past
look (c ∷ []) = if c == 13 then Look.past else Look.other []
look (c ∷ d ∷ s) = if c == 13 && d == 10 then Look.line_end s else Look.other (d ∷ s)

-- A round of the loop: it ends the call, or goes on with `parse_cmd_name`, `begin`, `s` and the
-- request.
pub data Next : Type 0 where
  stop : Parsed → Next
  go : Bool → Bytes → Bytes → Request → Next

unfoldable pub head : Bytes → ℕ
head [] = 0
head (c ∷ s) = c

-- `static_cast<uint32_t>`
abbrev pub to_uint32 : ℤ → ℕ
to_uint32 (pos n) = n % 2 ^ 32
to_uint32 (negsuc n) = 2 ^ 32 - 1 - n % 2 ^ 32

abbrev pub is_zero : ℤ → Bool
is_zero (pos zero) = true
is_zero _ = false

-- The check for MAX_INLINE_BUFFER_SIZE, of a buffer that wants more bytes
abbrev pub check_size : ℕ → Parsed → Parsed
check_size n (Parsed.more r) = if ltb max_inline_buffer_size n then Parsed.failed else Parsed.more r
check_size n p = p

module _ (atoi : Bytes → ℤ) where
  -- `convert_to_number`; `none` is the exception.
  unfoldable pub convert_to_number : Bytes → Option ℕ
  convert_to_number begin = if is_zero (atoi begin) then none else some (to_uint32 (atoi begin))

  -- A line that starts with `*`: the number of arguments, the command among them.
  unfoldable pub count_line : Bool → Bytes → Bytes → Request → Next
  count_line named begin end r =
      if named
      then Next.stop Parsed.failed
      else if not (is_empty r.args)
      then Next.stop Parsed.assertion
      else (elim (convert_to_number (drop 1 begin)) [
        | none ↦ Next.stop Parsed.failed
        | some n ↦ Next.go true end end (record r { args_count = (n + 2 ^ 32 - 1) % 2 ^ 32 })
      ])

  -- The text of a line that starts with `$`: the command, then the arguments.
  unfoldable pub take_text : Bool → Bytes → Bytes → Request → Next
  take_text named text end r =
      let args = r.args ++ text ∷ [] in
      if is_empty r.command
      then Next.go named end end (record r { command = text })
      else if length args == r.args_count
      then Next.stop (Parsed.done (record r { state = ProtocolState.ok; args = args }) end)
      else Next.go named end end (record r { args = args })

  unfoldable pub bulk_line : Bool → Bytes → Bytes → Request → Next
  bulk_line named begin end r =
      let endnumber = find_first_nonnumeric (length end) (drop 1 begin) in
      if length endnumber == length end
      then Next.stop Parsed.failed
      else (elim (convert_to_number (drop 1 begin)) [
        | none ↦ Next.stop Parsed.failed
        | some number ↦
            if ltb (length end) (number + 2) || ltb (length endnumber) 2
            then Next.stop Parsed.failed
            else take_text named (take number (drop 2 endnumber)) (drop (number + 2) end) r
      ])

  unfoldable pub at_line_end : Bool → Bytes → Bytes → Request → Next
  unfolding count_line bulk_line take_text
  at_line_end named begin end r =
      if head begin == b'*'
      then count_line named begin end r
      else if not (head begin == b'$') || not named
      then Next.stop Parsed.failed
      else bulk_line named begin end r

  unfoldable pub step : Bool → Bytes → Bytes → Request → Next
  unfolding at_line_end
  step named begin s r =
      if ltb (length s) 2 then Next.stop (Parsed.more r) else (elim (look (skip_spaces s)) [
        | past ↦ Next.stop Parsed.overrun
        | line_end end ↦ at_line_end named begin end r
        | other rest ↦ Next.go named begin rest r
      ])

  -- `while (s < limit)`
  unfoldable pub parse_loop : ℕ → Bool → Bytes → Bytes → Request → Parsed
  unfolding step
  parse_loop zero named begin s r = Parsed.stuck
  parse_loop (suc fuel) named begin s r = elim (step named begin s r) [
    | stop p ↦ p
    | go named' begin' s' r' ↦ parse_loop fuel named' begin' s' r'
  ]

  -- `parse`. Each round takes a byte at least, so one more round than bytes is enough.
  unfoldable pub parse : Request → Bytes → Parsed
  unfolding parse_loop
  parse r buf =
      check_size (length buf)
        (parse_loop (length buf + 1) false buf buf (record r { command = [] }))
