-- ===== src/Parms/Parameters/Texts.antt =====
-- A number or a flag that is set by its text, as in a URL.
use monetdb_rust.Prelude.{
  ◌≡◌, refl, Bool, true, false, ◌==◌, some, ok, arith, ℤ, is_i64, parse_i64-print_int,
}
use monetdb_rust.Parms.Parm.{Parm, type_bool, type_int, parm_type, index}
use monetdb_rust.Parms.Value.{
  Value, bool, int, str, bool_value, int_value, str_value, parse_bool, render_bool, verify_assign,
}
use monetdb_rust.Parms.Parameters.{Parameters, set, get, get_bool, get_int}
use monetdb_rust.Parms.Parameters.Slots.{WellFormed, Replaced}
use monetdb_rust.Parms.Setters.Stores.{set-Stores}

-- The text of an integer or of a flag is read as the same value.
pub int_value-str_value : (i : ℤ) → is_i64 i ≡ true → int_value (str (str_value (int i))) ≡ some i
unfolding int_value str_value
int_value-str_value i h = parse_i64-print_int i h

pub bool_value-str_value : (b : Bool) → bool_value (str (str_value (bool b))) ≡ some b
unfolding bool_value str_value parse_bool render_bool
bool_value-str_value true = refl
bool_value-str_value false = refl

stored_value :
    (self self' : Parameters) (p : Parm) (v old : Value)
    → Replaced self p v old self'
    → get self' p ≡ ok v
stored_value self self' p v old r =
    let same : (index p == index p) ≡ true = ground arith in rw same at (r.values p)

-- On well-formed parameters, an integer of 64 bits that is set by its decimal text is the integer that
-- the getter returns, and a flag that is set by its word is the getter's flag.
pub get-set_text :
    (self : Parameters) (number flag : Parm) (i : ℤ) (b : Bool)
    → WellFormed self
    → parm_type number ≡ type_int
    → parm_type flag ≡ type_bool
    → is_i64 i ≡ true
    → ((self' : Parameters) × (set self number (str (str_value (int i))) ≡ ok self')
        × (get_int self' number ≡ ok i))
      × ((self' : Parameters) × (set self flag (str (str_value (bool b))) ≡ ok self')
          × (get_bool self' flag ≡ ok b))
unfolding verify_assign get_int get_bool
get-set_text self number flag i b w t t' h =
    let (old, self', e, r) =
      set-Stores self number (str (str_value (int i))) w
        (rw (t, verify_assign) (rw (int_value-str_value i h) refl)) in
    let (old', self'', e', r') =
      set-Stores self flag (str (str_value (bool b))) w
        (rw (t', verify_assign) (rw (bool_value-str_value b) refl)) in
    (
      (self', e, rw (stored_value self self' number _ old r) (rw (int_value-str_value i h) refl)),
      (self'', e', rw (stored_value self self'' flag _ old' r') (rw (bool_value-str_value b) refl)),
    )
