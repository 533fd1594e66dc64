-- ===== src/Reply.antt =====
-- reply_builder.hh: the replies. A reply is the overload of `build` that is called with its
-- arguments; Reply/Wire gives the bytes that the overload sends.
pub mod Wire
pub mod Framing
use pedis.Base.{ℕ, Bool, Option, List}
use pedis.Base.Bytes.{Bytes}
use pedis.DictLsa.{DictEntry}
use pedis.SsetLsa.{SsetEntry}
use pedis.Cache.{Value}

-- The constants `msg_ok`, `msg_err`, … that the database and the service send.
pub data Message : Type 0 where
  ok err zero one neg_one neg_two nil type_none type_err nokey_err syntax_err pong : Message
  out_of_range_err not_integer_err not_float_err : Message

pub data Reply (F : Type 0) : Type 0 where
  message : Message → Reply F
  -- `build(const bytes&)` of another text
  text : Bytes → Reply F
  -- `build(size_t)`
  size : ℕ → Reply F
  -- `build(double)`
  double : F → Reply F
  -- `build<false, true>(const cache_entry*)`
  entry : Option (Value F) → Reply F
  -- `build<false, true>(const dict_entry*)`
  field : Option (DictEntry F) → Reply F
  -- `build<Key, Value>(const std::vector<const dict_entry*>&)`
  fields : Bool → Bool → List (Option (DictEntry F)) → Reply F
  -- `build(const managed_bytes&)`
  bulk : Bytes → Reply F
  -- `build(const std::vector<const managed_bytes*>&)` and `build(std::vector<bytes>&)`
  bulks : List Bytes → Reply F
  -- `build(const std::vector<const sset_entry*>&, bool with_score)`
  scored : List (SsetEntry F) → Bool → Reply F
