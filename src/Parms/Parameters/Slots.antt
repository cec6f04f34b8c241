-- ===== src/Parms/Parameters/Slots.antt =====
-- Every parameter has a value that was fit to be assigned to it.
use monetdb_rust.Prelude.{
  ℕ, zero, suc, ◌≡◌, ◌≢◌, inl, inr, refl, ◌∙◌, subst, false, Bool-cases, ◌==◌, List, [], ◌∷◌, arith,
  get_elem?, Option, none, some, Outcome, ok, err, panic, unwrap, if◌then◌else◌,
}
use monetdb_rust.Parms.Parm.{Parm, index, parm_type}
use monetdb_rust.Parms.Parm.Names.{index-injective}
use monetdb_rust.Parms.Errors.{ParmError}
use monetdb_rust.Parms.Value.{Value, verify_assign, bool_value, int_value}
use monetdb_rust.Parms.Parameters.{
  Parameters, default_parameters, default_parameter_value_by_index, set_elem, mark, with_parms,
  replace, get,
}

-- The value of a parameter.
pub record Slot (self : Parameters) (p : Parm) : Type 0 where
  pub value : Value
  pub here : get self p ≡ ok value
  pub fits : verify_assign value p ≡ ok tt

abbrev pub WellFormed : Parameters → Type 0
WellFormed self = (p : Parm) → Slot self p

pub default_parameters-WellFormed : WellFormed default_parameters
unfolding get default_parameters default_parameter_value_by_index index verify_assign parm_type
    bool_value int_value
default_parameters-WellFormed Parm.database = record { value = _; here = refl; fits = refl }
default_parameters-WellFormed Parm.host = record { value = _; here = refl; fits = refl }
default_parameters-WellFormed Parm.port = record { value = _; here = refl; fits = refl }
default_parameters-WellFormed Parm.tls = record { value = _; here = refl; fits = refl }
default_parameters-WellFormed Parm.user = record { value = _; here = refl; fits = refl }
default_parameters-WellFormed Parm.password = record { value = _; here = refl; fits = refl }
default_parameters-WellFormed Parm.autocommit = record { value = _; here = refl; fits = refl }
default_parameters-WellFormed Parm.binary = record { value = _; here = refl; fits = refl }
default_parameters-WellFormed Parm.cert = record { value = _; here = refl; fits = refl }
default_parameters-WellFormed Parm.cert_hash = record { value = _; here = refl; fits = refl }
default_parameters-WellFormed Parm.client_cert = record { value = _; here = refl; fits = refl }
default_parameters-WellFormed Parm.client_key = record { value = _; here = refl; fits = refl }
default_parameters-WellFormed Parm.language = record { value = _; here = refl; fits = refl }
default_parameters-WellFormed Parm.reply_size = record { value = _; here = refl; fits = refl }
default_parameters-WellFormed Parm.schema = record { value = _; here = refl; fits = refl }
default_parameters-WellFormed Parm.sock = record { value = _; here = refl; fits = refl }
default_parameters-WellFormed Parm.sock_dir = record { value = _; here = refl; fits = refl }
default_parameters-WellFormed Parm.timezone = record { value = _; here = refl; fits = refl }
default_parameters-WellFormed Parm.connect_timeout = record { value = _; here = refl; fits = refl }
default_parameters-WellFormed Parm.read_timeout = record { value = _; here = refl; fits = refl }
default_parameters-WellFormed Parm.write_timeout = record { value = _; here = refl; fits = refl }
default_parameters-WellFormed Parm.operation_timeout = record {
  value = _;
  here = refl;
  fits = refl;
}
default_parameters-WellFormed Parm.client_info = record { value = _; here = refl; fits = refl }
default_parameters-WellFormed Parm.client_application = record {
  value = _;
  here = refl;
  fits = refl;
}
default_parameters-WellFormed Parm.client_prefix = record { value = _; here = refl; fits = refl }
default_parameters-WellFormed Parm.client_remark = record { value = _; here = refl; fits = refl }
default_parameters-WellFormed Parm.max_response_size = record {
  value = _;
  here = refl;
  fits = refl;
}
default_parameters-WellFormed Parm.max_prefetch = record { value = _; here = refl; fits = refl }
default_parameters-WellFormed Parm.table_schema = record { value = _; here = refl; fits = refl }
default_parameters-WellFormed Parm.table = record { value = _; here = refl; fits = refl }
default_parameters-WellFormed Parm.hash = record { value = _; here = refl; fits = refl }
default_parameters-WellFormed Parm.debug = record { value = _; here = refl; fits = refl }
default_parameters-WellFormed Parm.logfile = record { value = _; here = refl; fits = refl }

get_elem?-set_elem :
    (xs : List Value) (i : ℕ) (v : Value) {old : Value}
    → get_elem? xs i ≡ some old
    → get_elem? (set_elem xs i v) i ≡ some v
get_elem?-set_elem [] i v h = cc
get_elem?-set_elem (x ∷ xs) zero v h = refl
get_elem?-set_elem (x ∷ xs) (suc i) v h = get_elem?-set_elem xs i v h

get_elem?-set_elem_other :
    (xs : List Value) (i j : ℕ) (v : Value)
    → (i == j) ≡ false
    → get_elem? (set_elem xs i v) j ≡ get_elem? xs j
get_elem?-set_elem_other [] i j v h = refl
get_elem?-set_elem_other (x ∷ xs) zero zero v h = absurd (ground arith)
get_elem?-set_elem_other (x ∷ xs) zero (suc j) v h = refl
get_elem?-set_elem_other (x ∷ xs) (suc i) zero v h = refl
get_elem?-set_elem_other (x ∷ xs) (suc i) (suc j) v h =
    get_elem?-set_elem_other xs i j v (ground arith)

pub mark-parms : (self : Parameters) (p : Parm) → (mark self p).parms ≡ self.parms
unfolding mark
mark-parms self Parm.database = refl
mark-parms self Parm.host = refl
mark-parms self Parm.port = refl
mark-parms self Parm.tls = refl
mark-parms self Parm.user = refl
mark-parms self Parm.password = refl
mark-parms self Parm.autocommit = refl
mark-parms self Parm.binary = refl
mark-parms self Parm.cert = refl
mark-parms self Parm.cert_hash = refl
mark-parms self Parm.client_cert = refl
mark-parms self Parm.client_key = refl
mark-parms self Parm.language = refl
mark-parms self Parm.reply_size = refl
mark-parms self Parm.schema = refl
mark-parms self Parm.sock = refl
mark-parms self Parm.sock_dir = refl
mark-parms self Parm.timezone = refl
mark-parms self Parm.connect_timeout = refl
mark-parms self Parm.read_timeout = refl
mark-parms self Parm.write_timeout = refl
mark-parms self Parm.operation_timeout = refl
mark-parms self Parm.client_info = refl
mark-parms self Parm.client_application = refl
mark-parms self Parm.client_prefix = refl
mark-parms self Parm.client_remark = refl
mark-parms self Parm.max_response_size = refl
mark-parms self Parm.max_prefetch = refl
mark-parms self Parm.table_schema = refl
mark-parms self Parm.table = refl
mark-parms self Parm.hash = refl
mark-parms self Parm.debug = refl
mark-parms self Parm.logfile = refl

-- What `replace` does with a value: it is taken if it is fit, and the error is that of the check.
pub record Replaced (self : Parameters) (p : Parm) (v old : Value) (self' : Parameters)
    : Type 0 where
  pub fits : verify_assign v p ≡ ok tt
  pub returned : get self p ≡ ok old
  pub values : (q : Parm) → get self' q ≡ (if index p == index q then ok v else get self q)
  pub wellformed : WellFormed self'

abbrev pub Replaces : Parameters → Parm → Value → Outcome ParmError (Value × Parameters) → Type 0
Replaces self p v (ok (old, self')) = Replaced self p v old self'
Replaces self p v (err e) = verify_assign v p ≡ err e
Replaces self p v panic = ⊥

module _ (self : Parameters) (p : Parm) (v old : Value) (w : WellFormed self) where
  abbrev after : Parameters
  after = with_parms (mark self p) (set_elem (mark self p).parms (index p) v)

  stored_at : get_elem? self.parms (index p) ≡ some old → get after p ≡ ok v
  unfolding get
  stored_at h = rw mark-parms (rw (get_elem?-set_elem self.parms (index p) v h) refl)

  others_at : (q : Parm) → (index p == index q) ≡ false → get after q ≡ get self q
  unfolding get
  others_at q h =
      rw mark-parms (rw (get_elem?-set_elem_other self.parms (index p) (index q) v h) refl)

  values_at :
      get_elem? self.parms (index p) ≡ some old
      → (q : Parm) → get after q ≡ (if index p == index q then ok v else get self q)
  values_at h q = elim (Bool-cases (index p == index q)) [
    | inl e ↦
        let same : p ≡ q = index-injective p q (ground arith) in
        rw e (subst (λ (z : Parm). get after z ≡ ok v) same (stored_at h))
    | inr e ↦ rw e (others_at q e)
  ]

  WellFormed-after :
      get_elem? self.parms (index p) ≡ some old → verify_assign v p ≡ ok tt → WellFormed after
  WellFormed-after h fits q = elim (Bool-cases (index p == index q)) [
    | inl e ↦
        let same : p ≡ q = index-injective p q (ground arith) in
        let slot : Slot after p = record { value = v; here = stored_at h; fits = fits } in
        subst (λ (z : Parm). Slot after z) same slot
    | inr e ↦
        let s = w q in record { value = s.value; here = others_at q e ∙ s.here; fits = s.fits }
  ]

-- The check does not panic.
never : (v : Value) (p : Parm) → verify_assign v p ≢ panic
unfolding verify_assign
never v p h = ground arith

pub get-slot :
    (self : Parameters) (p : Parm) {v : Value}
    → get self p ≡ ok v
    → get_elem? self.parms (index p) ≡ some v
unfolding get
get-slot self p {v} h = go (get_elem? self.parms (index p)) h
  where
    go : (o : Option Value) → unwrap {E = ParmError} o ≡ ok v → o ≡ some v
    go none h = cc
    go (some x) h = cc

-- In well-formed parameters, `replace` takes a value that is fit for the parameter, returns the one it
-- had, leaves all others as they are, and the parameters well-formed; for another value it returns the
-- error of the check. It does not panic.
pub replace-Replaces :
    (self : Parameters) (p : Parm) (v : Value)
    → WellFormed self
    → Replaces self p v (replace self p v)
unfolding replace
replace-Replaces self p v w = go (verify_assign v p) refl
  where
    slot : Slot self p
    slot = w p

    held : get_elem? self.parms (index p) ≡ some slot.value
    held = get-slot self p slot.here

    taken : verify_assign v p ≡ ok tt → Replaced self p v slot.value (after self p v slot.value w)
    taken fits = record {
      fits = fits;
      returned = slot.here;
      values = values_at self p v slot.value w held;
      wellformed = WellFormed-after self p v slot.value w held fits;
    }

    go :
        (m : Outcome ParmError (Unit {0}))
        → verify_assign v p ≡ m
        → Replaces self p v (replace self p v)
    go (ok _) e = rw (e, held) (taken e)
    go (err x) e = rw e e
    go panic e = absurd (never v p e)
