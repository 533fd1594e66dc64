-- ===== src/Reply/Wire.antt =====
-- reply_builder.hh: the bytes of each reply, in the Redis protocol. The printers of numbers are
-- seastar's `to_sstring` and are parameters.
use Prim.Native.Char.{code}
use Prim.Native.String.{String}
use pedis.Base.{ℕ, ◌*◌, Bool, Option, none, some, List, [], ◌∷◌, ◌++◌, length, ◌&&◌, if◌then◌else◌}
use pedis.Base.Bytes.{Bytes}
use pedis.DictLsa.{DictValue, DictEntry}
use pedis.SsetLsa.{SsetEntry}
use pedis.Cache.{Value}
use pedis.Reply.{Message, Reply}

-- The characters of an ASCII text.
abbrev pub codes : String → Bytes
codes String.[] = []
codes (String.◌∷◌ c s) = code c ∷ codes s

-- `to_sstring` of a `size_t`, an `int64_t` bit pattern and a `double`
pub record Printer (F : Type 0) : Type 0 where
  pub size : ℕ → Bytes
  pub integer : ℕ → Bytes
  pub double : F → Bytes

-- msg_crlf
abbrev pub crlf : Bytes
crlf = 13 ∷ 10 ∷ []

unfoldable pub message_text : Message → Bytes
message_text Message.ok = codes "+OK" ++ crlf
message_text Message.pong = codes "+PONG" ++ crlf
message_text Message.err = codes "-ERR" ++ crlf
message_text Message.zero = codes ":0" ++ crlf
message_text Message.one = codes ":1" ++ crlf
message_text Message.neg_one = codes ":-1" ++ crlf
message_text Message.neg_two = codes ":-2" ++ crlf
message_text Message.nil = codes "+(nil)" ++ crlf
message_text Message.type_none = codes "+none" ++ crlf
message_text Message.type_err =
    codes "-WRONGTYPE Operation against a key holding the wrong kind of value" ++ crlf
message_text Message.nokey_err = codes "-ERR no such key" ++ crlf
message_text Message.syntax_err = codes "-ERR syntax error" ++ crlf
message_text Message.out_of_range_err = codes "-ERR index out of range" ++ crlf
message_text Message.not_integer_err = codes "-ERR ERR hash value is not an integer" ++ crlf
message_text Message.not_float_err = codes "-ERR ERR hash value is not an float" ++ crlf

-- The loop over the entries of a batch.
unfoldable pub each : {A : Type 0} → (A → Bytes) → List A → Bytes
each f [] = []
each f (x ∷ l) = f x ++ each f l

module _ {F : Type 0} (P : Printer F) where
  -- The size, the text and their line ends, without the tag `$`.
  unfoldable pub counted : Bytes → Bytes
  counted b = P.size (length b) ++ (crlf ++ (b ++ crlf))

  -- `build(const managed_bytes&)`, and each part of a batch
  unfoldable pub bulk_text : Bytes → Bytes
  unfolding counted
  bulk_text b = b'$' ∷ counted b

  unfoldable pub size_text : ℕ → Bytes
  size_text n = b':' ∷ (P.size n ++ crlf)

  unfoldable pub header_text : ℕ → Bytes
  header_text n = b'*' ∷ (P.size n ++ crlf)

  -- `build<false, true>(const cache_entry*)`
  unfoldable pub entry_text : Option (Value F) → Bytes
  unfolding bulk_text message_text
  entry_text none = message_text Message.nil
  entry_text (some (Value.int64 n)) = bulk_text (P.integer n)
  entry_text (some (Value.numeric x)) = bulk_text (P.double x)
  entry_text (some (Value.bytes b)) = bulk_text b
  entry_text (some _) = b'$' ∷ message_text Message.type_err

  -- `build<false, true>(const dict_entry*)`: only bytes are sent with the tag.
  unfoldable pub field_text : Option (DictEntry F) → Bytes
  unfolding bulk_text counted message_text
  field_text none = message_text Message.nil
  field_text (some e) = elim e.value [
    | DictValue.bytes b ↦ bulk_text b
    | DictValue.unset ↦ bulk_text []
    | DictValue.integer n ↦ counted (P.integer n)
    | DictValue.float x ↦ counted (P.double x)
  ]

  -- The parts of one entry in `build<Key, Value>(entries)`.
  unfoldable pub field_parts : Bool → Bool → Option (DictEntry F) → Bytes
  unfolding bulk_text message_text
  field_parts keys values none =
      (if keys then message_text Message.nil else [])
      ++ (if values then message_text Message.nil else [])
  field_parts keys values (some e) =
      let value_text : Bytes = elim e.value [
        | DictValue.bytes b ↦ bulk_text b
        | DictValue.unset ↦ bulk_text []
        | DictValue.integer n ↦ bulk_text (P.integer n)
        | DictValue.float x ↦ bulk_text (P.double x)
      ] in
      (if keys then bulk_text e.key else []) ++ (if values then value_text else [])

  unfoldable pub fields_text : Bool → Bool → List (Option (DictEntry F)) → Bytes
  unfolding header_text field_parts each message_text
  fields_text keys values [] = message_text Message.nil
  fields_text keys values (e ∷ l) =
      let n = length (e ∷ l) in
      header_text (if keys && values then n * 2 else n) ++ each (field_parts keys values) (e ∷ l)

  unfoldable pub scored_text : List (SsetEntry F) → Bool → Bytes
  unfolding header_text bulk_text each message_text
  scored_text [] with_score = message_text Message.nil
  scored_text (e ∷ l) with_score =
      let n = length (e ∷ l) in
      header_text (if with_score then n * 2 else n)
      ++ each (λ x. bulk_text x.key ++ (if with_score then bulk_text (P.double x.score) else []))
          (e ∷ l)

  -- The overloads of `build`.
  unfoldable pub build : Reply F → Bytes
  unfolding message_text size_text bulk_text entry_text field_text fields_text header_text each
      scored_text
  build (Reply.message m) = message_text m
  build (Reply.text b) = b
  build (Reply.size n) = size_text n
  build (Reply.double x) = bulk_text (P.double x)
  build (Reply.entry v) = entry_text v
  build (Reply.field e) = field_text e
  build (Reply.fields keys values l) = fields_text keys values l
  build (Reply.bulk b) = bulk_text b
  build (Reply.bulks l) = header_text (length l) ++ each bulk_text l
  build (Reply.scored l with_score) = scored_text l with_score
