-- ===== src/Service/Options.antt =====
-- The options of SET, written out and read back.
use Prim.Native.Nat.{bit_or}
use pedis.Base.{
  ℕ, ◌+◌, ◌≡◌, refl, ◌∙◌, Bool, true, false, some, List, [], ◌∷◌, arith, if◌then◌else◌,
}
use pedis.Base.Int.{ℤ}
use pedis.Base.Bytes.{Bytes}
use pedis.Database
use pedis.Database.{Db, say}
use pedis.Service
use pedis.Service.{Host, Shards, Served, set_shard, invoke_on, redis_key, cpu_of}
use pedis.Service.Strings.{flag_set_ex, flag_set_px, to_milliseconds}

-- An option that a client writes: EX and PX with the text of the time, NX, XX.
pub data SetOption : Type 0 where
  seconds milliseconds : Bytes → SetOption
  if_missing if_there : SetOption

-- The arguments of the options, in either case of the letters.
abbrev pub cased : Bool → ℕ → ℕ
cased upper c = if upper then c else c + 32

unfoldable pub option_args : Bool → List SetOption → List Bytes
option_args upper [] = []
option_args upper (SetOption.seconds t ∷ rest) =
    (cased upper b'E' ∷ cased upper b'X' ∷ []) ∷ t ∷ option_args upper rest
option_args upper (SetOption.milliseconds t ∷ rest) =
    (cased upper b'P' ∷ cased upper b'X' ∷ []) ∷ t ∷ option_args upper rest
option_args upper (SetOption.if_missing ∷ rest) =
    (cased upper b'N' ∷ cased upper b'X' ∷ []) ∷ option_args upper rest
option_args upper (SetOption.if_there ∷ rest) =
    (cased upper b'X' ∷ cased upper b'X' ∷ []) ∷ option_args upper rest

-- What the options ask for: the time of the last one that gives a time, and a flag of each.
unfoldable pub asked : Host → List SetOption → ℤ → ℕ → ℤ × ℕ
asked H [] expir flag = (expir, flag)
asked H (SetOption.seconds t ∷ rest) expir flag =
    asked H rest (to_milliseconds (H.atol t)) (bit_or flag flag_set_ex)
asked H (SetOption.milliseconds t ∷ rest) expir flag =
    asked H rest (H.atol t) (bit_or flag flag_set_px)
asked H (SetOption.if_missing ∷ rest) expir flag =
    asked H rest expir (bit_or flag Database.Strings.flag_set_nx)
asked H (SetOption.if_there ∷ rest) expir flag =
    asked H rest expir (bit_or flag Database.Strings.flag_set_xx)

kind_ex :
    (upper : Bool)
    → Service.Strings.option_kind (cased upper b'E' ∷ cased upper b'X' ∷ [])
      ≡ Service.Strings.Kind.ex
unfolding Service.Strings.option_kind
kind_ex true = refl
kind_ex false = refl

kind_px :
    (upper : Bool)
    → Service.Strings.option_kind (cased upper b'P' ∷ cased upper b'X' ∷ [])
      ≡ Service.Strings.Kind.px
unfolding Service.Strings.option_kind
kind_px true = refl
kind_px false = refl

kind_nx :
    (upper : Bool)
    → Service.Strings.option_kind (cased upper b'N' ∷ cased upper b'X' ∷ [])
      ≡ Service.Strings.Kind.nx
unfolding Service.Strings.option_kind
kind_nx true = refl
kind_nx false = refl

kind_xx :
    (upper : Bool)
    → Service.Strings.option_kind (cased upper b'X' ∷ cased upper b'X' ∷ [])
      ≡ Service.Strings.Kind.xx
unfolding Service.Strings.option_kind
kind_xx true = refl
kind_xx false = refl

-- One option, before any others.
module _ (H : Host) where
  set_options-ex :
      (o v : Bytes) (rest : List Bytes) (expir : ℤ) (flag : ℕ)
      → Service.Strings.option_kind o ≡ Service.Strings.Kind.ex
      → Service.Strings.set_options H (o ∷ v ∷ rest) expir flag
        ≡ Service.Strings.set_options H rest (to_milliseconds (H.atol v)) (bit_or flag flag_set_ex)
  unfolding Service.Strings.set_options
  set_options-ex o v rest expir flag h = ground (arith, h)

  set_options-px :
      (o v : Bytes) (rest : List Bytes) (expir : ℤ) (flag : ℕ)
      → Service.Strings.option_kind o ≡ Service.Strings.Kind.px
      → Service.Strings.set_options H (o ∷ v ∷ rest) expir flag
        ≡ Service.Strings.set_options H rest (H.atol v) (bit_or flag flag_set_px)
  unfolding Service.Strings.set_options
  set_options-px o v rest expir flag h = ground (arith, h)

  set_options-nx :
      (o : Bytes) (rest : List Bytes) (expir : ℤ) (flag : ℕ)
      → Service.Strings.option_kind o ≡ Service.Strings.Kind.nx
      → Service.Strings.set_options H (o ∷ rest) expir flag
        ≡ Service.Strings.set_options H rest expir (bit_or flag Database.Strings.flag_set_nx)
  unfolding Service.Strings.set_options
  set_options-nx o [] expir flag h = ground (arith, h)
  set_options-nx o (v ∷ rest) expir flag h = ground (arith, h)

  set_options-xx :
      (o : Bytes) (rest : List Bytes) (expir : ℤ) (flag : ℕ)
      → Service.Strings.option_kind o ≡ Service.Strings.Kind.xx
      → Service.Strings.set_options H (o ∷ rest) expir flag
        ≡ Service.Strings.set_options H rest expir (bit_or flag Database.Strings.flag_set_xx)
  unfolding Service.Strings.set_options
  set_options-xx o [] expir flag h = ground (arith, h)
  set_options-xx o (v ∷ rest) expir flag h = ground (arith, h)

  -- Options of SET, written out in upper or in lower case letters, are read back as the time of the
  -- last option that gives one and the flags of all of them.
  pub set_options-option_args :
      (upper : Bool) (options : List SetOption) (expir : ℤ) (flag : ℕ)
      → Service.Strings.set_options H (option_args upper options) expir flag
        ≡ some (asked H options expir flag)
  unfolding Service.Strings.set_options option_args asked
  set_options-option_args upper [] expir flag = refl
  set_options-option_args upper (SetOption.seconds t ∷ rest) expir flag =
      set_options-ex _ t (option_args upper rest) expir flag (kind_ex upper)
      ∙ set_options-option_args upper rest _ _
  set_options-option_args upper (SetOption.milliseconds t ∷ rest) expir flag =
      set_options-px _ t (option_args upper rest) expir flag (kind_px upper)
      ∙ set_options-option_args upper rest _ _
  set_options-option_args upper (SetOption.if_missing ∷ rest) expir flag =
      set_options-nx _ (option_args upper rest) expir flag (kind_nx upper)
      ∙ set_options-option_args upper rest _ _
  set_options-option_args upper (SetOption.if_there ∷ rest) expir flag =
      set_options-xx _ (option_args upper rest) expir flag (kind_xx upper)
      ∙ set_options-option_args upper rest _ _
