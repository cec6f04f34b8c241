-- ===== src/Parms/Validated/Typed.antt =====
-- What the typed getters of src/parms/parameters.rs return is what was stored.
use monetdb_rust.Prelude.{
  ◌≡◌, refl, ◌⊎◌, inl, inr, Bool, Bytes, none, some, Option, Outcome, ok, err, ◌>>=◌, ok_or, ℤ,
  parse_i64,
}
use monetdb_rust.Parms.Parm.{Parm, ParmType, type_bool, type_int, type_str, parm_type}
use monetdb_rust.Parms.Errors.{ParmError, invalid_bool, invalid_int, must_be_string}
use monetdb_rust.Parms.Value.{
  Value, bool, int, str, bool_value, int_value, str_value, parse_bool, verify_assign,
}
use monetdb_rust.Parms.Parameters.{Parameters, get, get_bool, get_int, get_str}
use monetdb_rust.Parms.Parameters.Slots.{WellFormed}

-- The value is the flag, or a text that reads as it; the same for numbers.
abbrev pub Means : {A : Type 0} → (A → Value) → (Bytes → Option A) → Value → A → Type 0
Means wrap parse v a = (v ≡ wrap a) ⊎ ((s : Bytes) × (v ≡ str s) × (parse s ≡ some a))

-- What is stored is a flag, a number or a text by the type of the parameter, and is returned as such.
abbrev pub Typed : ParmType → Parameters → Parm → Type 0
Typed type_bool self p =
    (v : Value) × (b : Bool) × (get self p ≡ ok v)
    × Means bool parse_bool v b
    × (get_bool self p ≡ ok b)
Typed type_int self p =
    (v : Value) × (i : ℤ) × (get self p ≡ ok v) × Means int parse_i64 v i × (get_int self p ≡ ok i)
Typed type_str self p = (s : Bytes) × (get self p ≡ ok (str s)) × (get_str self p ≡ ok s)

bool_meant :
    (v : Value) (p : Parm)
    → parm_type p ≡ type_bool
    → verify_assign v p ≡ ok tt
    → (b : Bool) × (bool_value v ≡ some b) × Means bool parse_bool v b
unfolding verify_assign bool_value
bool_meant (bool b) p t h = (b, refl, inl refl)
bool_meant (int i) p t h =
    let wrong : Path (Outcome ParmError (Unit {0})) (err (invalid_bool p)) (ok tt) =
      rw (t, verify_assign) at h in
    cc
bool_meant (str s) p t h = read (parse_bool s) refl (rw (t, verify_assign) at h)
  where
    read :
        (o : Option Bool)
        → parse_bool s ≡ o
        → Path (Outcome ParmError (Unit {0})) (ok_or o (invalid_bool p) >>= λ _. ok tt) (ok tt)
        → (b : Bool) × (parse_bool s ≡ some b) × Means bool parse_bool (str s) b
    read none e k = cc
    read (some b) e k = (b, e, inr (s, refl, e))

int_meant :
    (v : Value) (p : Parm)
    → parm_type p ≡ type_int
    → verify_assign v p ≡ ok tt
    → (i : ℤ) × (int_value v ≡ some i) × Means int parse_i64 v i
unfolding verify_assign int_value
int_meant (bool b) p t h =
    let wrong : Path (Outcome ParmError (Unit {0})) (err (invalid_int p)) (ok tt) =
      rw (t, verify_assign) at h in
    cc
int_meant (int i) p t h = (i, refl, inl refl)
int_meant (str s) p t h = read (parse_i64 s) refl (rw (t, verify_assign) at h)
  where
    read :
        (o : Option ℤ)
        → parse_i64 s ≡ o
        → Path (Outcome ParmError (Unit {0})) (ok_or o (invalid_int p) >>= λ _. ok tt) (ok tt)
        → (i : ℤ) × (parse_i64 s ≡ some i) × Means int parse_i64 (str s) i
    read none e k = cc
    read (some i) e k = (i, e, inr (s, refl, e))

text_meant :
    (v : Value) (p : Parm)
    → parm_type p ≡ type_str
    → verify_assign v p ≡ ok tt
    → (s : Bytes) × (v ≡ str s)
unfolding verify_assign
text_meant (str s) p t h = (s, refl)
text_meant (bool b) p t h =
    let wrong : Path (Outcome ParmError (Unit {0})) (err (must_be_string p)) (ok tt) =
      rw (t, verify_assign) at h in
    cc
text_meant (int i) p t h =
    let wrong : Path (Outcome ParmError (Unit {0})) (err (must_be_string p)) (ok tt) =
      rw (t, verify_assign) at h in
    cc

-- In well-formed parameters the getter of a parameter's type returns what is stored there. For a flag
-- or a number that is the value itself, if it is of that type, and else a text is stored that reads as
-- what is returned. For a text the value stored is that text.
pub get-Typed : (self : Parameters) (p : Parm) → WellFormed self → Typed (parm_type p) self p
unfolding get_bool get_int get_str str_value
get-Typed self p w = go (parm_type p) refl
  where
    go : (t : ParmType) → parm_type p ≡ t → Typed t self p
    go type_bool e =
        let (b, reads, means) = bool_meant (w p).value p e (w p).fits in
        ((w p).value, b, (w p).here, means, rw ((w p).here) (rw reads refl))
    go type_int e =
        let (i, reads, means) = int_meant (w p).value p e (w p).fits in
        ((w p).value, i, (w p).here, means, rw ((w p).here) (rw reads refl))
    go type_str e =
        let (s, is_text) = text_meant (w p).value p e (w p).fits in
        let here = rw is_text at (w p).here in (s, here, rw here refl)
