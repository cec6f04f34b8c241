-- ===== src/Parms/Validated/Facts.antt =====
-- What the checks of `Validated::new` establish of the values that they let pass.
use monetdb_rust.Prelude.{
  Returns-ensure, ◌≤◌, ◌≡◌, refl, ◌⊎◌, inl, inr, Bool, true, false, not, ◌&&◌, ◌||◌, [], ◌∷◌,
  if◌then◌else◌, Bytes, codes, arith, same_bytes, Outcome, ok, ◌>>◌, ensure, ok_or, Returns,
  Returns-bind,
}
use monetdb_rust.Parms.Parm.{Parm}
use monetdb_rust.Parms.Parm.Names.{same_bytes-eq}
use monetdb_rust.Parms.Errors.{ParmError, invalid_value, invalid_binary}
use monetdb_rust.Parms.Value.{Value, binary_value}
use monetdb_rust.Parms.Validated.{Raw}
use monetdb_rust.Parms.Validated.Checks.{
  is_empty, contains, valid_name, certhash_digits, port_number,
}
use monetdb_rust.Parms.Validated.Build.{Checked, check, check_without_tls, check_client_info}
use monetdb_rust.Parms.Validated.Sound.{
  IsName, valid_name-IsName, port_number-range, IsPin, IsPinOf, certhash_digits-IsPin,
}

-- No newline in what is sent about the client, where it is sent.
abbrev pub NoNewline : Bool → Bytes → Type 0
NoNewline client_info text = (client_info && contains text 10) ≡ false

binary_value-range : (v : Value) → Returns (λ n. n ≤ 65535) (ok_or (binary_value v) invalid_binary)
unfolding binary_value
binary_value-range v = ground arith

-- What the checks found.
pub record IsChecked (raw : Raw) (c : Checked) : Type 0 where
  pub one_target : (is_empty raw.host || is_empty raw.sock) ≡ true
  pub binary_range : c.connect_binary ≤ 65535
  pub sock_or_tls : (is_empty raw.sock || not raw.tls) ≡ true
  pub pin : IsPin c.digits
  pub without_tls : (raw.tls ≡ true) ⊎ ((is_empty raw.cert ≡ true) × (c.digits ≡ []))
  pub named : IsName raw.database
  pub port_range : (1 ≤ c.connect_port) × (c.connect_port ≤ 65535)
  pub client_pair : (is_empty raw.clientcert || not (is_empty raw.clientkey)) ≡ true
  pub application : NoNewline raw.client_info raw.client_application
  pub prefix : NoNewline raw.client_info raw.client_prefix
  pub remark : NoNewline raw.client_info raw.client_remark
  pub sql : raw.language ≡ codes "sql"

without_tls-cases :
    (tls : Bool) (cert certhash digits : Bytes) {A : Type 0} (Q : A → Type 0) (e e' : ParmError)
    (rest : Outcome ParmError A)
    → IsPinOf certhash digits
    → ((tls ≡ true) ⊎ ((is_empty cert ≡ true) × (digits ≡ [])) → Returns Q rest)
    → Returns Q (
        (if tls then ok tt else (ensure (is_empty cert) e >> ensure (is_empty certhash) e'))
        >> rest)
without_tls-cases true cert certhash digits Q e e' rest pin k = k (inl refl)
without_tls-cases false (c ∷ cs) certhash digits Q e e' rest pin k = tt
without_tls-cases false [] (d ∷ ds) digits Q e e' rest pin k = tt
without_tls-cases false [] [] digits Q e e' rest (pin, inl given) k = absurd (cc)
without_tls-cases false [] [] digits Q e e' rest (pin, inr none_given) k =
    k (inr (refl, none_given))

info-cases :
    {A : Type 0} (Q : A → Type 0) (a b c : Bool) (e e' e'' : ParmError) (rest : Outcome ParmError A)
    → (a ≡ false → b ≡ false → c ≡ false → Returns Q rest)
    → Returns Q ((ensure (not a) e >> (ensure (not b) e' >> ensure (not c) e'')) >> rest)
info-cases Q true b c e e' e'' rest k = tt
info-cases Q false true c e e' e'' rest k = tt
info-cases Q false false true e e' e'' rest k = tt
info-cases Q false false false e e' e'' rest k = k refl refl refl

pub check-IsChecked : (raw : Raw) → Returns (IsChecked raw) (check raw)
unfolding check check_client_info check_without_tls
check-IsChecked raw =
    Returns-ensure (IsChecked raw) (is_empty raw.host || is_empty raw.sock) _ _ (λ one_target.
      Returns-bind (λ n. n ≤ 65535) (IsChecked raw) (ok_or (binary_value raw.binary) invalid_binary)
        _ (binary_value-range raw.binary)
        (λ connect_binary binary_range.
          Returns-ensure (IsChecked raw) (is_empty raw.sock || not raw.tls) _ _ (λ sock_or_tls.
            Returns-bind (IsPinOf raw.certhash) (IsChecked raw) (certhash_digits raw.certhash) _
              (certhash_digits-IsPin raw.certhash)
              (λ digits pin.
                without_tls-cases raw.tls raw.cert raw.certhash digits (IsChecked raw) _ _ _ pin
                  (λ without_tls.
                    Returns-bind (λ n. IsName raw.database) (IsChecked raw)
                      (valid_name Parm.database raw.database) _
                      (valid_name-IsName Parm.database raw.database)
                      (λ _ named.
                        Returns-bind (λ n. IsName raw.tableschema) (IsChecked raw)
                          (valid_name Parm.table_schema raw.tableschema) _
                          (valid_name-IsName Parm.table_schema raw.tableschema)
                          (λ _ _.
                            Returns-bind (λ n. IsName raw.table) (IsChecked raw)
                              (valid_name Parm.table raw.table) _
                              (valid_name-IsName Parm.table raw.table)
                              (λ _ _.
                                Returns-bind (λ n. (1 ≤ n) × (n ≤ 65535)) (IsChecked raw)
                                  (port_number raw.port) _ (port_number-range raw.port)
                                  (λ connect_port port_range.
                                    Returns-ensure (IsChecked raw)
                                      (is_empty raw.clientcert || not (is_empty raw.clientkey)) _ _
                                      (λ client_pair.
                                        info-cases (IsChecked raw)
                                          (raw.client_info && contains raw.client_application 10)
                                          (raw.client_info && contains raw.client_prefix 10)
                                          (raw.client_info && contains raw.client_remark 10) _ _ _ _
                                          (λ application prefix' remark.
                                            Returns-ensure (IsChecked raw)
                                              (same_bytes raw.language (codes "sql"))
                                              (invalid_value Parm.language)
                                              (ok record {
                                                connect_binary = connect_binary;
                                                digits = digits;
                                                connect_port = connect_port;
                                              })
                                              (λ sql. record {
                                                one_target = one_target;
                                                binary_range = binary_range;
                                                sock_or_tls = sock_or_tls;
                                                pin = pin.0;
                                                without_tls = without_tls;
                                                named = named;
                                                port_range = port_range;
                                                client_pair = client_pair;
                                                application = application;
                                                prefix = prefix';
                                                remark = remark;
                                                sql = same_bytes-eq _ _ sql;
                                              }))))))))))))
