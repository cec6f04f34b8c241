-- ===== src/Parms/Validated/Extract.antt =====
-- In well-formed parameters every value has the type that `Validated::new` asks for.
use monetdb_rust.Prelude.{
  ◌≡◌, refl, Bool, none, some, Option, Outcome, ok, ◌>>=◌, ok_or, ℤ, IsOk, IsOk-bind,
}
use monetdb_rust.Parms.Parm.{Parm, ParmType, type_bool, type_int, type_str, parm_type}
use monetdb_rust.Parms.Errors.{ParmError, invalid_bool, invalid_int}
use monetdb_rust.Parms.Value.{Value, bool_value, int_value, str_value, verify_assign}
use monetdb_rust.Parms.Parameters.{Parameters, get, get_bool, get_int, get_str}
use monetdb_rust.Parms.Parameters.Slots.{WellFormed}
use monetdb_rust.Parms.Validated.{extract}

fits_bool :
    (v : Value) (p : Parm) (e : ParmError)
    → parm_type p ≡ type_bool
    → verify_assign v p ≡ ok tt
    → IsOk (ok_or (bool_value v) e)
unfolding verify_assign
fits_bool v p e t h = go (bool_value v) (rw (t, verify_assign) at h)
  where
    go :
        (o : Option Bool)
        → Path (Outcome ParmError (Unit {0})) (ok_or o (invalid_bool p) >>= λ _. ok tt) (ok tt)
        → IsOk (ok_or o e)
    go none h = cc
    go (some b) h = (b, refl)

fits_int :
    (v : Value) (p : Parm) (e : ParmError)
    → parm_type p ≡ type_int
    → verify_assign v p ≡ ok tt
    → IsOk (ok_or (int_value v) e)
unfolding verify_assign
fits_int v p e t h = go (int_value v) (rw (t, verify_assign) at h)
  where
    go :
        (o : Option ℤ)
        → Path (Outcome ParmError (Unit {0})) (ok_or o (invalid_int p) >>= λ _. ok tt) (ok tt)
        → IsOk (ok_or o e)
    go none h = cc
    go (some b) h = (b, refl)

-- A getter of the type that the parameter is declared with returns.
abbrev Gets : ParmType → Parameters → Parm → Type 0
Gets type_bool self p = IsOk (get_bool self p)
Gets type_int self p = IsOk (get_int self p)
Gets type_str self p = IsOk (get_str self p)

get-Gets : (self : Parameters) (p : Parm) → WellFormed self → Gets (parm_type p) self p
unfolding get_bool get_int get_str
get-Gets self p w = go (parm_type p) refl
  where
    go : (t : ParmType) → parm_type p ≡ t → Gets t self p
    go type_bool e = rw ((w p).here) (fits_bool (w p).value p _ e (w p).fits)
    go type_int e = rw ((w p).here) (fits_int (w p).value p _ e (w p).fits)
    go type_str e = rw ((w p).here) (str_value (w p).value, refl)

pub extract-IsOk : (self : Parameters) → WellFormed self → IsOk (extract self)
unfolding extract parm_type
extract-IsOk self w =
    IsOk-bind (get_str self Parm.database) _ (get-Gets self Parm.database w) (λ raw_database _.
      IsOk-bind (get_str self Parm.host) _ (get-Gets self Parm.host w) (λ raw_host _.
        IsOk-bind (get_int self Parm.port) _ (get-Gets self Parm.port w) (λ raw_port _.
          IsOk-bind (get_bool self Parm.tls) _ (get-Gets self Parm.tls w) (λ raw_tls _.
            IsOk-bind (get_str self Parm.user) _ (get-Gets self Parm.user w) (λ raw_user _.
              IsOk-bind (get_str self Parm.password) _ (get-Gets self Parm.password w)
                (λ raw_password _.
                  IsOk-bind (get_bool self Parm.autocommit) _ (get-Gets self Parm.autocommit w)
                    (λ raw_autocommit _.
                      IsOk-bind (get_str self Parm.cert) _ (get-Gets self Parm.cert w)
                        (λ raw_cert _.
                          IsOk-bind (get_str self Parm.cert_hash) _ (get-Gets self Parm.cert_hash w)
                            (λ raw_certhash _.
                              IsOk-bind (get_str self Parm.client_cert) _
                                (get-Gets self Parm.client_cert w)
                                (λ raw_clientcert _.
                                  IsOk-bind (get_str self Parm.client_key) _
                                    (get-Gets self Parm.client_key w)
                                    (λ raw_clientkey _.
                                      IsOk-bind (get_str self Parm.language) _
                                        (get-Gets self Parm.language w)
                                        (λ raw_language _.
                                          IsOk-bind (get_int self Parm.reply_size) _
                                            (get-Gets self Parm.reply_size w)
                                            (λ raw_replysize _.
                                              IsOk-bind (get_int self Parm.max_prefetch) _
                                                (get-Gets self Parm.max_prefetch w)
                                                (λ raw_maxprefetch _.
                                                  IsOk-bind (get_str self Parm.schema) _
                                                    (get-Gets self Parm.schema w)
                                                    (λ raw_schema _.
                                                      IsOk-bind (get_str self Parm.sock) _
                                                        (get-Gets self Parm.sock w)
                                                        (λ raw_sock _.
                                                          IsOk-bind (get_str self Parm.sock_dir) _
                                                            (get-Gets self Parm.sock_dir w)
                                                            (λ raw_sockdir _.
                                                            IsOk-bind (get_int self Parm.timezone) _
                                                            (get-Gets self Parm.timezone w)
                                                            (λ raw_timezone _.
                                                            IsOk-bind (get self Parm.binary) _
                                                            (
                                                            (w Parm.binary).value,
                                                            (w Parm.binary).here,
                                                            )
                                                            (λ raw_binary _.
                                                            IsOk-bind
                                                            (get_int self Parm.connect_timeout) _
                                                            (get-Gets self Parm.connect_timeout w)
                                                            (λ raw_connect_timeout _.
                                                            IsOk-bind
                                                            (get_int self Parm.read_timeout) _
                                                            (get-Gets self Parm.read_timeout w)
                                                            (λ raw_read_timeout _.
                                                            IsOk-bind
                                                            (get_int self Parm.write_timeout) _
                                                            (get-Gets self Parm.write_timeout w)
                                                            (λ raw_write_timeout _.
                                                            IsOk-bind
                                                            (get_int self Parm.operation_timeout) _
                                                            (get-Gets self Parm.operation_timeout w)
                                                            (λ raw_operation_timeout _.
                                                            IsOk-bind
                                                            (get_int self Parm.max_response_size) _
                                                            (get-Gets self Parm.max_response_size w)
                                                            (λ raw_max_response_size _.
                                                            IsOk-bind
                                                            (get_bool self Parm.client_info) _
                                                            (get-Gets self Parm.client_info w)
                                                            (λ raw_client_info _.
                                                            IsOk-bind
                                                            (get_str self Parm.client_application) _
                                                            (get-Gets self Parm.client_application
                                                            w)
                                                            (λ raw_client_application _.
                                                            IsOk-bind
                                                            (get_str self Parm.client_prefix) _
                                                            (get-Gets self Parm.client_prefix w)
                                                            (λ raw_client_prefix _.
                                                            IsOk-bind
                                                            (get_str self Parm.client_remark) _
                                                            (get-Gets self Parm.client_remark w)
                                                            (λ raw_client_remark _.
                                                            IsOk-bind
                                                            (get_str self Parm.table_schema) _
                                                            (get-Gets self Parm.table_schema w)
                                                            (λ raw_tableschema _.
                                                            IsOk-bind (get_str self Parm.table) _
                                                            (get-Gets self Parm.table w)
                                                            (λ raw_table _.
                                                            (_, refl)))))))))))))))))))))))))))))))
