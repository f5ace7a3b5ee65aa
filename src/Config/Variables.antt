-- ===== src/Config/Variables.antt =====
-- The environment, and the readers of its variables in src/config.rs.
use dnsd_rs.Base.{
  Bool, Bytes, List, Option, [], any, bytes_eq, codes, false, if◌then◌else◌, map, none, not, retain,
  some, true, zero, suc, ℕ, ◌+◌, ◌==◌, ◌^◌, ◌∷◌,
}
use dnsd_rs.Base.Fields.{parse_signless, parse_unsigned, split_on}
use dnsd_rs.Base.Maps.{map_get}
use dnsd_rs.Cache.Redis.{Signed, minus_one_less, plus}
use dnsd_rs.Proto.Text.{Text}
use dnsd_rs.Resolve.Dualstack.{contains_text}

abbrev pub Env : Type 0
Env = List (Bytes × Bytes)

-- `get`
abbrev pub or_default : {A : Type 0} → A → Option A → A
or_default d none = d
or_default d (some a) = a

unfoldable pub get_var : Env → Bytes → Bytes → Bytes
unfolding map_get
get_var env key def = or_default def (map_get key env)

-- `get_opt`: a value that is not empty.
abbrev pub is_blank : Bytes → Bool
is_blank [] = true
is_blank (c ∷ cs) = false

abbrev unless_blank : Option Bytes → Option Bytes
unless_blank none = none
unless_blank (some v) = if is_blank v then none else some v

unfoldable pub get_opt : Env → Bytes → Option Bytes
unfolding map_get
get_opt env key = unless_blank (map_get key env)

-- `get_u8`, `get_u32`, `get_u64` and `get_usize`, by their bits.
abbrev pub parsed_or : ℕ → ℕ → Option Bytes → ℕ
parsed_or bits def none = def
parsed_or bits def (some v) = or_default def (parse_unsigned bits v)

unfoldable pub get_number : ℕ → Env → Bytes → ℕ → ℕ
unfolding map_get
get_number bits env key def = parsed_or bits def (map_get key env)

-- `get_i64`
abbrev pub minus : ℕ → Signed
minus zero = plus 0
minus (suc n) = minus_one_less n

abbrev pub as_minus : Option ℕ → Option Signed
as_minus none = none
as_minus (some n) = some (minus n)

abbrev pub as_plus : Option ℕ → Option Signed
as_plus none = none
as_plus (some n) = some (plus n)

unfoldable pub parse_signed : Bytes → Option Signed
parse_signed [] = none
parse_signed (c ∷ cs) =
    if c == b'-'
    then as_minus (parse_signless (2 ^ 63 + 1) cs)
    else as_plus (parse_unsigned 63 (c ∷ cs))

abbrev pub signed_or : Signed → Option Bytes → Signed
signed_or def none = def
signed_or def (some v) = or_default def (parse_signed v)

unfoldable pub get_i64 : Env → Bytes → Signed → Signed
unfolding map_get parse_signed
get_i64 env key def = signed_or def (map_get key env)

-- `get_bool`
abbrev parse_bool : Bytes → Option Bool
parse_bool s =
    if bytes_eq s (codes "true")
    then some true
    else if bytes_eq s (codes "false")
    then some false
    else none

abbrev bool_or : Bool → Option Bytes → Bool
bool_or def none = def
bool_or def (some v) = or_default def (parse_bool v)

unfoldable pub get_bool : Env → Bytes → Bool → Bool
unfolding map_get
get_bool env key def = bool_or def (map_get key env)

-- `is_placeholder`, of a text in upper case; nothing calls it.
unfoldable is_placeholder : (Bytes → Bytes) → Bytes → Bool
is_placeholder to_uppercase s =
    any (λ p. contains_text (to_uppercase s) p)
      (codes "CHANGE_ME"
        ∷ codes "CHANGEME"
        ∷ codes "PLACEHOLDER"
        ∷ codes "YOUR_SECRET"
        ∷ codes "EXAMPLE"
        ∷ [])

-- `hostname`
unfoldable pub hostname : Env → Bytes
unfolding map_get
hostname env =
    or_default (or_default (codes "unknown") (map_get (codes "HOSTNAME") env))
      (map_get (codes "COMPUTERNAME") env)

module _ ⦃text : Text⦄ where
  -- `get_csv`
  unfoldable pub get_csv : Env → Bytes → List Bytes
  unfolding map_get split_on
  get_csv env key =
      retain (λ s. not (is_blank s))
        (map text.trim (split_on b',' (or_default [] (map_get key env))))
