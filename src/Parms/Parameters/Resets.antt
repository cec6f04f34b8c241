-- ===== src/Parms/Parameters/Resets.antt =====
-- `set`, `reset`, `take` and `boundary` on well-formed parameters.
use monetdb_rust.Prelude.{
  ◌≡◌, inl, inr, refl, sym, ◌∙◌, ap, Bool, true, false, not, ◌&&◌, ◌||◌, Bool-cases, ◌==◌, arith,
  Outcome, ok, err, panic, if◌then◌else◌,
}
use monetdb_rust.Parms.Parm.{Parm, index}
use monetdb_rust.Parms.Parm.Names.{index-injective}
use monetdb_rust.Parms.Errors.{ParmError}
use monetdb_rust.Parms.Value.{Value, verify_assign}
use monetdb_rust.Parms.Parameters.{
  Parameters, default_parameters, replace, get, set, reset, boundary, take, reset_other,
  clear_changed, clear_timezone_set,
}
use monetdb_rust.Parms.Parameters.Slots.{
  Slot, WellFormed, default_parameters-WellFormed, Replaced, Replaces, replace-Replaces,
}

abbrev pub Sets : Parameters → Parm → Value → Outcome ParmError Parameters → Type 0
Sets self p v (ok self') = (old : Value) × Replaced self p v old self'
Sets self p v (err e) = verify_assign v p ≡ err e
Sets self p v panic = ⊥

pub set-Sets :
    (self : Parameters) (p : Parm) (v : Value) → WellFormed self → Sets self p v (set self p v)
unfolding set
set-Sets self p v w = go (replace self p v) refl (replace-Replaces self p v w)
  where
    go :
        (m : Outcome ParmError (Value × Parameters))
        → replace self p v ≡ m
        → Replaces self p v m
        → Sets self p v (set self p v)
    go (ok (old, self')) e h = rw e (old, h)
    go (err x) e h = rw e h
    go panic e h = absurd h

fit_error : {x : ParmError} → Path (Outcome ParmError (Unit {0})) (ok tt) (err x) → ⊥
fit_error e = cc

clear_timezone_set-get :
    (self : Parameters) (p q : Parm) → get (clear_timezone_set p self) q ≡ get self q
unfolding clear_timezone_set get
clear_timezone_set-get self Parm.database q = refl
clear_timezone_set-get self Parm.host q = refl
clear_timezone_set-get self Parm.port q = refl
clear_timezone_set-get self Parm.tls q = refl
clear_timezone_set-get self Parm.user q = refl
clear_timezone_set-get self Parm.password q = refl
clear_timezone_set-get self Parm.autocommit q = refl
clear_timezone_set-get self Parm.binary q = refl
clear_timezone_set-get self Parm.cert q = refl
clear_timezone_set-get self Parm.cert_hash q = refl
clear_timezone_set-get self Parm.client_cert q = refl
clear_timezone_set-get self Parm.client_key q = refl
clear_timezone_set-get self Parm.language q = refl
clear_timezone_set-get self Parm.reply_size q = refl
clear_timezone_set-get self Parm.schema q = refl
clear_timezone_set-get self Parm.sock q = refl
clear_timezone_set-get self Parm.sock_dir q = refl
clear_timezone_set-get self Parm.timezone q = refl
clear_timezone_set-get self Parm.connect_timeout q = refl
clear_timezone_set-get self Parm.read_timeout q = refl
clear_timezone_set-get self Parm.write_timeout q = refl
clear_timezone_set-get self Parm.operation_timeout q = refl
clear_timezone_set-get self Parm.client_info q = refl
clear_timezone_set-get self Parm.client_application q = refl
clear_timezone_set-get self Parm.client_prefix q = refl
clear_timezone_set-get self Parm.client_remark q = refl
clear_timezone_set-get self Parm.max_response_size q = refl
clear_timezone_set-get self Parm.max_prefetch q = refl
clear_timezone_set-get self Parm.table_schema q = refl
clear_timezone_set-get self Parm.table q = refl
clear_timezone_set-get self Parm.hash q = refl
clear_timezone_set-get self Parm.debug q = refl
clear_timezone_set-get self Parm.logfile q = refl

-- The parameter has its default value, which is returned with the one before, and no other changed.
pub record Defaults (self : Parameters) (p : Parm) (self' : Parameters) : Type 0 where
  pub values :
      (q : Parm)
      → get self' q ≡ (if index p == index q then get default_parameters p else get self q)
  pub wellformed : WellFormed self'

module _ (self : Parameters) (p : Parm) (w : WellFormed self) where
  default_slot : Slot default_parameters p
  default_slot = default_parameters-WellFormed p

  default-Replaced :
      (old : Value) × (self' : Parameters) × (replace self p default_slot.value ≡ ok (old, self'))
      × Replaced self p default_slot.value old self'
  default-Replaced =
      go (replace self p default_slot.value) refl (replace-Replaces self p default_slot.value w)
    where
      go :
          (m : Outcome ParmError (Value × Parameters))
          → replace self p default_slot.value ≡ m
          → Replaces self p default_slot.value m
          → (old : Value) × (self' : Parameters) × (replace self p default_slot.value
              ≡ ok (old, self'))
            × Replaced self p default_slot.value old self'
      go (ok (old, self')) e h = (old, self', e, h)
      go (err x) e h = absurd (fit_error (sym default_slot.fits ∙ h))
      go panic e h = absurd h

  cleared :
      {old : Value} (self' : Parameters)
      → Replaced self p default_slot.value old self'
      → Defaults self p (clear_timezone_set p self')
  cleared self' r = record {
    values = λ q. clear_timezone_set-get self' p q ∙ (rw default_slot.here (r.values q));
    wellformed = λ q.
        let s = r.wellformed q in
        record { value = s.value; here = clear_timezone_set-get self' p q ∙ s.here; fits = s.fits };
  }

  -- In well-formed parameters, `take` and `reset` return: the parameter has its default value, no other
  -- one changes, the parameters stay well-formed, and `take` hands out the value from before.
  pub take-Defaults :
      (old : Value) × (self' : Parameters) × (take self p ≡ ok (old, self'))
      × (reset self p ≡ ok self')
      × (get self p ≡ ok old)
      × Defaults self p self'
  unfolding take reset set
  take-Defaults =
      let (old, self', e, r) = default-Replaced in
      let d = default_slot.here in
      (old, clear_timezone_set p self', rw (d, e) refl, rw (d, e) refl, r.returned, cleared self' r)

-- What `boundary` clears: of the user and the password, the one that was not set, if the other one was.
abbrev pub is_cleared : Parameters → Parm → Bool
is_cleared self q =
    ((index Parm.user == index q) && self.password_changed && not self.user_changed)
    || ((index Parm.password == index q) && self.user_changed && not self.password_changed)

pub record Bounded (self self' : Parameters) : Type 0 where
  pub values :
      (q : Parm)
      → get self' q ≡ (if is_cleared self q then get default_parameters q else get self q)
  pub user_unchanged : self'.user_changed ≡ false
  pub password_unchanged : self'.password_changed ≡ false
  pub wellformed : WellFormed self'

clear_changed-get : (self : Parameters) (q : Parm) → get (clear_changed self) q ≡ get self q
unfolding get
clear_changed-get self q = refl

-- One of the two was reset.
reset-Bounded :
    (self self' : Parameters) (p : Parm)
    → WellFormed self
    → Defaults self p self'
    → ((q : Parm) → is_cleared self q ≡ (index p == index q))
    → Bounded self (clear_changed self')
reset-Bounded self self' p w d only = record {
  values = λ q. clear_changed-get self' q ∙ value q;
  user_unchanged = refl;
  password_unchanged = refl;
  wellformed = λ q.
      let s = d.wellformed q in
      record { value = s.value; here = clear_changed-get self' q ∙ s.here; fits = s.fits };
}
  where
    value :
        (q : Parm)
        → get self' q ≡ (if is_cleared self q then get default_parameters q else get self q)
    value q = elim (Bool-cases (index p == index q)) [
      | inl e ↦
          let same : p ≡ q = index-injective p q (ground arith) in
          let default_same = ap (get default_parameters) same in
          rw (only q) (rw e (rw e at (d.values q) ∙ default_same))
      | inr e ↦ rw (only q) (rw e (rw e at (d.values q)))
    ]

kept-Bounded :
    (self : Parameters)
    → WellFormed self
    → ((q : Parm) → is_cleared self q ≡ false)
    → Bounded self (clear_changed self)
kept-Bounded self w none_cleared = record {
  values = λ q. rw (none_cleared q) (clear_changed-get self q);
  user_unchanged = refl;
  password_unchanged = refl;
  wellformed = λ q.
      let s = w q in
      record { value = s.value; here = clear_changed-get self q ∙ s.here; fits = s.fits };
}

boundary-reset_other :
    (self self' : Parameters) (u p : Bool)
    → self.user_changed ≡ u
    → self.password_changed ≡ p
    → reset_other u p self ≡ ok self'
    → boundary self ≡ ok (clear_changed self')
unfolding boundary
boundary-reset_other self self' u p e e' h =
    let chosen : reset_other self.user_changed self.password_changed self ≡ ok self' = cc in
    rw chosen refl

-- In well-formed parameters, `boundary` returns: if just one of the user and the password was set since
-- the last call, the other one has its default value; all other values are as before, nothing counts as
-- set any more, and the parameters stay well-formed.
pub boundary-Bounded :
    (self : Parameters)
    → WellFormed self
    → (self' : Parameters) × (boundary self ≡ ok self') × Bounded self self'
unfolding reset_other
boundary-Bounded self w = go self.user_changed self.password_changed refl refl
  where
    go :
        (u p : Bool)
        → self.user_changed ≡ u
        → self.password_changed ≡ p
        → (self' : Parameters) × (boundary self ≡ ok self') × Bounded self self'
    go true false e e' =
        let (old, self', taken, returned, before, d) = take-Defaults self Parm.password w in
        (
          clear_changed self',
          boundary-reset_other self self' true false e e' returned,
          reset-Bounded self self' Parm.password w d (λ q. rw (e, e') (ground arith)),
        )
    go false true e e' =
        let (old, self', taken, returned, before, d) = take-Defaults self Parm.user w in
        (
          clear_changed self',
          boundary-reset_other self self' false true e e' returned,
          reset-Bounded self self' Parm.user w d (λ q. rw (e, e') (ground arith)),
        )
    go true true e e' = (
      clear_changed self,
      boundary-reset_other self self true true e e' refl,
      kept-Bounded self w (λ q. rw (e, e') (ground arith)),
    )
    go false false e e' = (
      clear_changed self,
      boundary-reset_other self self false false e e' refl,
      kept-Bounded self w (λ q. rw (e, e') (ground arith)),
    )
