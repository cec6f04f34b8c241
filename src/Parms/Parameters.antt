-- ===== src/Parms/Parameters.antt =====
-- `Parameters` of src/parms/parameters.rs: the unvalidated values, one for each parameter.
pub mod Slots
pub mod Resets
pub mod Texts
use monetdb_rust.Prelude.{
  ℕ, zero, suc, ◌*◌, Bool, true, false, ◌||◌, ◌==◌, List, [], ◌∷◌, if◌then◌else◌, Bytes, codes,
  same_bytes, get_elem?, Option, none, some, Outcome, ok, err, panic, ◌>>=◌, ◌>>◌, ok_or, unwrap, ℤ,
  pos, negsuc, same_int,
}
use monetdb_rust.Parms.Parm.{
  Parm, user, password, timezone, tls, port, sock_dir, language, autocommit, reply_size,
  max_prefetch, binary, client_info, connect_timeout, write_timeout, read_timeout,
  operation_timeout, max_response_size, index, parm_table_size, from_str, ignored,
}
use monetdb_rust.Parms.Errors.{ParmError, invalid_bool, invalid_int, unknown_parameter}
use monetdb_rust.Parms.Value.{
  Value, bool, int, str, bool_value, int_value, str_value, verify_assign,
}

pub record Parameters : Type 0 where
  pub parms : List Value
  pub user_changed : Bool
  pub password_changed : Bool
  pub timezone_set : Bool

unfoldable pub default_parameter_value_by_index : ℕ → Value
unfolding index
default_parameter_value_by_index idx =
    if idx == index tls
    then bool false
    else if idx == index port
    then int (negsuc 0)
    else if idx == index sock_dir
    then str (codes "/tmp")
    else if idx == index language
    then str (codes "sql")
    else if idx == index autocommit
    then bool true
    else if idx == index timezone
    then int (pos 0)
    else if idx == index reply_size
    then int (pos 200)
    else if idx == index max_prefetch
    then int (pos 2500)
    else if idx == index binary
    then str (codes "on")
    else if idx == index client_info
    then bool true
    else if idx == index connect_timeout
    then int (pos 30)
    else if idx == index write_timeout
    then int (pos 60)
    else if (idx == index read_timeout) || (idx == index operation_timeout)
    then int (pos 0)
    else if idx == index max_response_size
    then int (pos (1024 * 1024 * 1024))
    else str (codes "")

-- `array![i => f(i); n]`, from the index `i` on.
abbrev pub array : (ℕ → Value) → ℕ → ℕ → List Value
array f zero i = []
array f (suc n) i = f i ∷ array f n (suc i)

unfoldable pub default_parameters : Parameters
unfolding default_parameter_value_by_index
default_parameters = record {
  parms = array default_parameter_value_by_index parm_table_size 0;
  user_changed = false;
  password_changed = false;
  timezone_set = false;
}

-- `parms[i] = value`
abbrev pub set_elem : List Value → ℕ → Value → List Value
set_elem [] i value = []
set_elem (x ∷ xs) zero value = value ∷ xs
set_elem (x ∷ xs) (suc i) value = x ∷ set_elem xs i value

-- The flags that `replace` sets.
unfoldable pub mark : Parameters → Parm → Parameters
mark self user = record {
  parms = self.parms;
  user_changed = true;
  password_changed = self.password_changed;
  timezone_set = self.timezone_set;
}
mark self password = record {
  parms = self.parms;
  user_changed = self.user_changed;
  password_changed = true;
  timezone_set = self.timezone_set;
}
mark self timezone = record {
  parms = self.parms;
  user_changed = self.user_changed;
  password_changed = self.password_changed;
  timezone_set = true;
}
mark self _ = self

abbrev pub with_parms : Parameters → List Value → Parameters
with_parms self parms = record {
  parms = parms;
  user_changed = self.user_changed;
  password_changed = self.password_changed;
  timezone_set = self.timezone_set;
}

abbrev pub with_timezone_set : Parameters → Bool → Parameters
with_timezone_set self flag = record {
  parms = self.parms;
  user_changed = self.user_changed;
  password_changed = self.password_changed;
  timezone_set = flag;
}

-- An index out of range panics.
unfoldable pub replace : Parameters → Parm → Value → Outcome ParmError (Value × Parameters)
unfolding mark
replace self parm value = do
  _ ← verify_assign value parm
  old ← unwrap (get_elem? self.parms (index parm))
  let self' = mark self parm
  ok (old, with_parms self' (set_elem self'.parms (index parm) value))

unfoldable pub set : Parameters → Parm → Value → Outcome ParmError Parameters
unfolding replace
set self parm value = do (_, self') ← replace self parm value; ok self'

unfoldable pub get : Parameters → Parm → Outcome ParmError Value
get self parm = unwrap (get_elem? self.parms (index parm))

-- `.unwrap()` on a result: an error panics.
abbrev pub unwrap_result {ℓ} : {A : Type ℓ} → Outcome ParmError A → Outcome ParmError A
unwrap_result (ok a) = ok a
unwrap_result (err e) = panic
unwrap_result panic = panic

-- `if parm == Parm::Timezone { self.timezone_set = false; }`
unfoldable pub clear_timezone_set : Parm → Parameters → Parameters
clear_timezone_set timezone self = with_timezone_set self false
clear_timezone_set _ self = self

unfoldable pub reset : Parameters → Parm → Outcome ParmError Parameters
unfolding set get default_parameters clear_timezone_set
reset self parm = do
  default_value ← get default_parameters parm
  self' ← unwrap_result (set self parm default_value)
  ok (clear_timezone_set parm self')

unfoldable pub take : Parameters → Parm → Outcome ParmError (Value × Parameters)
unfolding replace get default_parameters clear_timezone_set
take self parm = do
  default_value ← get default_parameters parm
  (value, self') ← unwrap_result (replace self parm default_value)
  ok (value, clear_timezone_set parm self')

unfoldable pub get_bool : Parameters → Parm → Outcome ParmError Bool
unfolding get
get_bool self parm = do value ← get self parm; ok_or (bool_value value) (invalid_bool parm)

unfoldable pub get_int : Parameters → Parm → Outcome ParmError ℤ
unfolding get
get_int self parm = do value ← get self parm; ok_or (int_value value) (invalid_int parm)

unfoldable pub get_str : Parameters → Parm → Outcome ParmError Bytes
unfolding get
get_str self parm = do value ← get self parm; ok (str_value value)

unfoldable pub set_named : Parameters → Bytes → Value → Outcome ParmError Parameters
unfolding set
set_named self parm_name value = elim (from_str parm_name) [
  | some parm ↦ set self parm value
  | none ↦ if ignored parm_name then ok self else err (unknown_parameter parm_name)
]

-- `value == Some(b)`
abbrev pub is_some_bool : Option Bool → Bool → Bool
is_some_bool none b = false
is_some_bool (some true) b = b
is_some_bool (some false) b = if b then false else true

abbrev pub is_some_int : Option ℤ → ℤ → Bool
is_some_int none i = false
is_some_int (some j) i = same_int j i

unfoldable pub equals_default : Value → Value → Bool
equals_default (bool b) value = is_some_bool (bool_value value) b
equals_default (int i) value = is_some_int (int_value value) i
equals_default (str s) value = same_bytes s (str_value value)

unfoldable pub is_default : Parameters → Parm → Outcome ParmError Bool
unfolding get default_parameters equals_default
is_default self parm = do
  value ← get self parm
  default_value ← get default_parameters parm
  ok (equals_default default_value value)

abbrev pub clear_changed : Parameters → Parameters
clear_changed self = record {
  parms = self.parms;
  user_changed = false;
  password_changed = false;
  timezone_set = self.timezone_set;
}

-- The reset of `boundary`, by the two flags.
unfoldable pub reset_other : Bool → Bool → Parameters → Outcome ParmError Parameters
unfolding reset
reset_other true false self = reset self password
reset_other false true self = reset self user
reset_other _ _ self = ok self

unfoldable pub boundary : Parameters → Outcome ParmError Parameters
unfolding reset_other
boundary self = do
  self' ← reset_other self.user_changed self.password_changed self
  ok (clear_changed self')
