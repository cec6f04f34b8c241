-- ===== src/Parms/Value.antt =====
-- `Value` of src/parms/parameters.rs: what a parameter can be set to.
use monetdb_rust.Prelude.{
  ℕ, ◌+◌, Bool, true, false, ◌&&◌, leb, [], ◌∷◌, List, map, if◌then◌else◌, Bytes, codes, same_bytes,
  Option, none, some, Outcome, ok, err, ◌>>=◌, ok_or, ℤ, pos, negsuc, parse_i64, print_int,
}
use monetdb_rust.Parms.Parm.{Parm, type_bool, type_int, type_str, parm_type}
use monetdb_rust.Parms.Errors.{ParmError, invalid_bool, invalid_int, must_be_string}

-- `eq_ignore_ascii_case`
abbrev pub ascii_lowercase : ℕ → ℕ
ascii_lowercase c = if leb 65 c && leb c 90 then c + 32 else c

abbrev pub eq_ignore_ascii_case : Bytes → Bytes → Bool
eq_ignore_ascii_case s t = same_bytes (map ascii_lowercase s) (map ascii_lowercase t)

-- One of the words is `s`.
abbrev pub is_word : List Bytes → Bytes → Bool
is_word [] s = false
is_word (word ∷ words) s = if eq_ignore_ascii_case word s then true else is_word words s

unfoldable pub parse_bool : Bytes → Option Bool
parse_bool s =
    if is_word (codes "yes" ∷ codes "true" ∷ codes "on" ∷ []) s
    then some true
    else if is_word (codes "no" ∷ codes "false" ∷ codes "off" ∷ []) s
    then some false
    else none

unfoldable pub render_bool : Bool → Bytes
render_bool b = if b then codes "on" else codes "off"

-- The integers are those of `i64`, which the type of this model does not say.
pub data Value : Type 0 where
  bool : Bool → Value
  int : ℤ → Value
  str : Bytes → Value

unfoldable pub bool_value : Value → Option Bool
bool_value (bool b) = some b
bool_value (int _) = none
bool_value (str s) = parse_bool s

unfoldable pub int_value : Value → Option ℤ
int_value (bool _) = none
int_value (int i) = some i
int_value (str s) = parse_i64 s

-- `u16::try_from`
abbrev pub to_u16 : ℤ → Option ℕ
to_u16 (pos n) = if leb n 65535 then some n else none
to_u16 (negsuc _) = none

unfoldable pub binary_value : Value → Option ℕ
binary_value self = elim (bool_value self) [
  | some false ↦ some 0
  | some true ↦ some 65535
  | none ↦ elim (int_value self) [ none ↦ none | some i ↦ to_u16 i ]
]

-- `into_str` returns the same text.
unfoldable pub str_value : Value → Bytes
str_value (bool b) = render_bool b
str_value (int i) = print_int i
str_value (str s) = s

-- `let Value::Str(_) = self else { return Err(e) }`
abbrev pub need_str : Value → ParmError → Outcome ParmError (Unit {0})
need_str (str _) e = ok tt
need_str _ e = err e

unfoldable pub verify_assign : Value → Parm → Outcome ParmError (Unit {0})
verify_assign self parm = elim (parm_type parm) [
  | type_bool ↦ do _ ← ok_or (bool_value self) (invalid_bool parm); ok tt
  | type_int ↦ do _ ← ok_or (int_value self) (invalid_int parm); ok tt
  | type_str ↦ need_str self (must_be_string parm)
]
