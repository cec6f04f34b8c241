-- ===== src/Parms/Setters/Stores.antt =====
-- Every typed setter sets its own parameter.
use monetdb_rust.Prelude.{◌≡◌, refl, Bool, List, [], ◌∷◌, Bytes, Outcome, ok, err, panic, ℤ, pos, ℕ}
use monetdb_rust.Parms.Parm.{Parm, type_bool, type_int, type_str, parm_type}
use monetdb_rust.Parms.Errors.{ParmError}
use monetdb_rust.Parms.Value.{Value, bool, int, str, verify_assign, bool_value, int_value}
use monetdb_rust.Parms.Parameters.{Parameters, set}
use monetdb_rust.Parms.Parameters.Slots.{WellFormed, Replaced}
use monetdb_rust.Parms.Parameters.Resets.{Sets, set-Sets}
use monetdb_rust.Parms.Setters.{
  text_setters, number_setters, flag_setters, set_database, set_host, set_tls, set_user,
  set_password, set_autocommit, set_cert, set_certhash, set_clientcert, set_clientkey, set_language,
  set_replysize, set_maxprefetch, set_schema, set_sock, set_sockdir, set_timezone,
  set_connect_timeout, set_read_timeout, set_write_timeout, set_operation_timeout,
  set_client_application, set_client_prefix, set_client_remark, set_max_response_size, set_port,
  set_client_info, set_binary,
}

-- A fit value is set.
abbrev pub Stores : Parameters → Parm → Value → Outcome ParmError Parameters → Type 0
Stores self p v m =
    (old : Value) × (self' : Parameters) × (m ≡ ok self') × Replaced self p v old self'

pub set-Stores :
    (self : Parameters) (p : Parm) (v : Value)
    → WellFormed self
    → verify_assign v p ≡ ok tt
    → Stores self p v (set self p v)
set-Stores self p v w fits = go (set self p v) refl (set-Sets self p v w)
  where
    go :
        (m : Outcome ParmError Parameters)
        → set self p v ≡ m
        → Sets self p v m
        → Stores self p v (set self p v)
    go (ok self') e (old, r) = (old, self', e, r)
    go (err x) e h = absurd (cc)
    go panic e h = absurd h

store_text :
    (self : Parameters) (s : Bytes) (p : Parm)
    → parm_type p ≡ type_str
    → WellFormed self
    → Stores self p (str s) (set self p (str s))
unfolding verify_assign
store_text self s p t w = set-Stores self p (str s) w (rw (t, verify_assign) refl)

store_number :
    (self : Parameters) (i : ℤ) (p : Parm)
    → parm_type p ≡ type_int
    → WellFormed self
    → Stores self p (int i) (set self p (int i))
unfolding verify_assign int_value
store_number self i p t w = set-Stores self p (int i) w (rw (t, verify_assign) refl)

store_flag :
    (self : Parameters) (b : Bool) (p : Parm)
    → parm_type p ≡ type_bool
    → WellFormed self
    → Stores self p (bool b) (set self p (bool b))
unfolding verify_assign bool_value
store_flag self b p t w = set-Stores self p (bool b) w (rw (t, verify_assign) refl)

-- All setters of a list store the value in the parameter that stands with them.
abbrev pub AllStore :
    {A : Type 0}
    → (A → Value)
    → List (Parm × (Parameters → A → Outcome ParmError Parameters))
    → Parameters
    → A
    → Type 0
AllStore wrap [] self value = Unit
AllStore wrap ((p, setter) ∷ rest) self value =
    Stores self p (wrap value) (setter self value) × AllStore wrap rest self value

-- On well-formed parameters every setter of a text, a number or a flag returns: the value stands in the
-- setter's own parameter, no other one changes, and the parameters stay well-formed. `set_client_info`
-- and `set_binary`, which take a text and any value, do the same if the value is fit for their
-- parameter, and else return the error of that check.
pub setters-Store :
    (self : Parameters) (text : Bytes) (number : ℤ) (flag : Bool) (port : ℕ) (value : Value)
    → WellFormed self
    → AllStore str text_setters self text
      × AllStore int number_setters self number
      × AllStore bool flag_setters self flag
      × Stores self Parm.port (int (pos port)) (set_port self port)
      × Sets self Parm.client_info (str text) (set_client_info self text)
      × Sets self Parm.binary value (set_binary self value)
unfolding parm_type set_database set_host set_tls set_user set_password set_autocommit set_cert
    set_certhash set_clientcert set_clientkey set_language set_replysize set_maxprefetch set_schema
    set_sock set_sockdir set_timezone set_connect_timeout set_read_timeout set_write_timeout
    set_operation_timeout set_client_application set_client_prefix set_client_remark
    set_max_response_size set_port set_client_info set_binary
setters-Store self text number flag port value w = (
  (
    store_text self text Parm.database refl w,
    (
      store_text self text Parm.host refl w,
      (
        store_text self text Parm.user refl w,
        (
          store_text self text Parm.password refl w,
          (
            store_text self text Parm.cert refl w,
            (
              store_text self text Parm.cert_hash refl w,
              (
                store_text self text Parm.client_cert refl w,
                (
                  store_text self text Parm.client_key refl w,
                  (
                    store_text self text Parm.language refl w,
                    (
                      store_text self text Parm.schema refl w,
                      (
                        store_text self text Parm.sock refl w,
                        (
                          store_text self text Parm.sock_dir refl w,
                          (
                            store_text self text Parm.client_application refl w,
                            (
                              store_text self text Parm.client_prefix refl w,
                              (store_text self text Parm.client_remark refl w, tt),
                            ),
                          ),
                        ),
                      ),
                    ),
                  ),
                ),
              ),
            ),
          ),
        ),
      ),
    ),
  ),
  (
    store_number self number Parm.reply_size refl w,
    (
      store_number self number Parm.max_prefetch refl w,
      (
        store_number self number Parm.timezone refl w,
        (
          store_number self number Parm.connect_timeout refl w,
          (
            store_number self number Parm.read_timeout refl w,
            (
              store_number self number Parm.write_timeout refl w,
              (
                store_number self number Parm.operation_timeout refl w,
                (store_number self number Parm.max_response_size refl w, tt),
              ),
            ),
          ),
        ),
      ),
    ),
  ),
  (store_flag self flag Parm.tls refl w, (store_flag self flag Parm.autocommit refl w, tt)),
  store_number self (pos port) Parm.port refl w,
  set-Sets self Parm.client_info (str text) w,
  set-Sets self Parm.binary value w,
)
