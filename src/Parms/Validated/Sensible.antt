-- ===== src/Parms/Validated/Sensible.antt =====
-- The parameters that `Validated::new` lets pass, and the connection that it makes of them.
use monetdb_rust.Prelude.{
  ℕ, zero, suc, ◌+◌, ◌^◌, ◌≤◌, ◌<◌, ◌≡◌, ◌≢◌, refl, ◌⊎◌, inl, inr, Bool, true, false, not, ◌||◌, [],
  ◌∷◌, ◌++◌, if◌then◌else◌, Bytes, codes, length, length-append, arith, Option, none, some, ℤ, pos,
  negsuc, print_nat, Returns, Returns-bind,
}
use monetdb_rust.Parms.Parm.{Parm}
use monetdb_rust.Parms.Parameters.{Parameters}
use monetdb_rust.Parms.Validated.{
  Validated, TlsVerify, verify_off, verify_hash, verify_cert, verify_system, Raw,
}
use monetdb_rust.Parms.Validated.Checks.{
  is_empty, valid_timeout, timezone_seconds, seconds_of, positive, prefetch_limit,
}
use monetdb_rust.Parms.Validated.Build.{
  Checked, check, build, connect_unix_of, connect_tcp_of, connect_tls_verify_of, socket_path, new,
}
use monetdb_rust.Parms.Parameters.Slots.{WellFormed}
use monetdb_rust.Parms.Validated.Extract.{extract-IsOk}
use monetdb_rust.Parms.Validated.Facts.{NoNewline, IsChecked, check-IsChecked}
use monetdb_rust.Parms.Validated.Sound.{
  IsName, IsTimeout, valid_timeout-IsTimeout, positive-positive, IsPin,
}

-- Seconds that an `i32` holds.
abbrev pub IsZone : Option ℤ → Type 0
IsZone none = Unit
IsZone (some (pos n)) = n < 2 ^ 31
IsZone (some (negsuc n)) = n < 2 ^ 31

-- The times and sizes of a connection.
pub record Bounded (in_reach : ℕ → Bool) (v : Validated) : Type 0 where
  pub port_range : (1 ≤ v.connect_port) × (v.connect_port ≤ 65535)
  pub binary_range : v.connect_binary ≤ 65535
  pub some_rows : 1 ≤ v.replysize
  pub some_response : 1 ≤ v.max_response_size
  pub connecting : IsTimeout in_reach v.connect_timeout
  pub reading : IsTimeout in_reach v.read_timeout
  pub writing : IsTimeout in_reach v.write_timeout
  pub operating : IsTimeout in_reach v.operation_timeout
  pub zone : IsZone v.connect_timezone_seconds

-- Where the connection goes, and how it is secured: there is a place to connect to, and a socket of
-- the file system only without TLS; without TLS there is nothing to verify, with TLS something is
-- verified, and by the digits of the certificate if they are given. There is a client certificate just
-- if there is a client key.
pub record Targeted (v : Validated) : Type 0 where
  pub some_target : 1 ≤ length v.connect_unix + length v.connect_tcp
  pub unix_plain : (v.tls ≡ false) ⊎ (v.connect_unix ≡ [])
  pub verified :
      ((v.tls ≡ false) × (v.connect_tls_verify ≡ verify_off) × (v.connect_certhash_digits ≡ []))
      ⊎ ((v.tls ≡ true)
          × (v.connect_tls_verify ≢ verify_off)
          × ((v.connect_certhash_digits ≡ []) ⊎ (v.connect_tls_verify ≡ verify_hash)))
  pub client_pair : is_empty v.connect_clientcert ≡ is_empty v.connect_clientkey

-- The texts are of the forms that they must have.
pub record Formed (v : Validated) : Type 0 where
  pub pin : IsPin v.connect_certhash_digits
  pub named : IsName v.database
  pub application : NoNewline v.client_info v.client_application
  pub prefix : NoNewline v.client_info v.client_prefix
  pub remark : NoNewline v.client_info v.client_remark
  pub sql : v.language ≡ codes "sql"

abbrev pub Sensible : (ℕ → Bool) → Validated → Type 0
Sensible in_reach v = Bounded in_reach v × Targeted v × Formed v

some_target_of :
    (sock host path : Bytes) (tls : Bool)
    → 1 ≤ length path
    → 1
      ≤ length (
          if not (is_empty sock)
          then sock
          else if tls
          then []
          else if is_empty host
          then path
          else [])
        + length
            (if not (is_empty sock) then [] else if is_empty host then codes "localhost" else host)
some_target_of (x ∷ xs) host path tls h = omega arith
some_target_of [] [] path true h = omega arith
some_target_of [] [] path false h = omega arith
some_target_of [] (y ∷ ys) path true h = omega arith
some_target_of [] (y ∷ ys) path false h = omega arith

unix_plain_of :
    (sock host path : Bytes) (tls : Bool)
    → (is_empty sock || not tls) ≡ true
    → (tls ≡ false)
      ⊎ ((if not (is_empty sock)
            then sock
            else if tls
            then []
            else if is_empty host
            then path
            else [])
          ≡ [])
unix_plain_of sock host path false h = inl refl
unix_plain_of [] host path true h = inr refl
unix_plain_of (x ∷ xs) host path true h = absurd (cc)

verified_of :
    (tls : Bool) (digits cert : Bytes)
    → (tls ≡ true) ⊎ ((is_empty cert ≡ true) × (digits ≡ []))
    → (v : TlsVerify)
    → v ≡ (
        if not tls
        then verify_off
        else if not (is_empty digits)
        then verify_hash
        else if not (is_empty cert)
        then verify_cert
        else verify_system)
    → ((tls ≡ false) × (v ≡ verify_off) × (digits ≡ []))
      ⊎ ((tls ≡ true) × (v ≢ verify_off) × ((digits ≡ []) ⊎ (v ≡ verify_hash)))
verified_of true (d ∷ ds) cert h v e = inr (refl, λ k. cc, inr e)
verified_of true [] (c ∷ cs) h v e = inr (refl, λ k. cc, inl refl)
verified_of true [] [] h v e = inr (refl, λ k. cc, inl refl)
verified_of false digits cert (inl h) v e = absurd (cc)
verified_of false digits cert (inr (h, k)) v e = inl (refl, e, k)

client_pair_of :
    (clientcert clientkey : Bytes)
    → (is_empty clientcert || not (is_empty clientkey)) ≡ true
    → is_empty (if is_empty clientcert then clientkey else clientcert) ≡ is_empty clientkey
client_pair_of [] clientkey h = refl
client_pair_of (c ∷ cs) [] h = absurd (cc)
client_pair_of (c ∷ cs) (k ∷ ks) h = refl

socket_path-some : (dir : Bytes) (port : ℕ) → 1 ≤ length (socket_path dir port)
socket_path-some dir port = omega (
  arith,
  length-append (dir ++ codes "/.s.monetdb.") (print_nat port),
  length-append dir (codes "/.s.monetdb."),
)

timezone_seconds-IsZone : (is_set : Bool) (i : ℤ) → Returns IsZone (timezone_seconds is_set i)
unfolding timezone_seconds seconds_of
timezone_seconds-IsZone false i = tt
timezone_seconds-IsZone true (pos n) = ground arith
timezone_seconds-IsZone true (negsuc n) = ground arith

prefetch_limit-Returns : (i : ℤ) → Returns (λ t. Unit {0}) (prefetch_limit i)
unfolding prefetch_limit
prefetch_limit-Returns (pos n) = tt
prefetch_limit-Returns (negsuc zero) = tt
prefetch_limit-Returns (negsuc (suc n)) = tt

build-Sensible :
    (in_reach : ℕ → Bool) (timezone_set : Bool) (raw : Raw) (c : Checked)
    → IsChecked raw c
    → Returns (Sensible in_reach) (build in_reach timezone_set raw c)
unfolding build connect_unix_of connect_tcp_of connect_tls_verify_of
build-Sensible in_reach timezone_set raw c h =
    Returns-bind IsZone (Sensible in_reach) (timezone_seconds timezone_set raw.timezone) _
      (timezone_seconds-IsZone _ _)
      (λ _ zone.
        Returns-bind (IsTimeout in_reach) (Sensible in_reach)
          (valid_timeout in_reach Parm.connect_timeout raw.connect_timeout) _
          (valid_timeout-IsTimeout in_reach _ _)
          (λ ct connecting.
            Returns-bind (IsTimeout in_reach) (Sensible in_reach)
              (valid_timeout in_reach Parm.read_timeout raw.read_timeout) _
              (valid_timeout-IsTimeout in_reach _ _)
              (λ rt reading.
                Returns-bind (IsTimeout in_reach) (Sensible in_reach)
                  (valid_timeout in_reach Parm.write_timeout raw.write_timeout) _
                  (valid_timeout-IsTimeout in_reach _ _)
                  (λ wt writing.
                    Returns-bind (IsTimeout in_reach) (Sensible in_reach)
                      (valid_timeout in_reach Parm.operation_timeout raw.operation_timeout) _
                      (valid_timeout-IsTimeout in_reach _ _)
                      (λ ot operating.
                        Returns-bind (λ n. 1 ≤ n) (Sensible in_reach)
                          (positive Parm.reply_size raw.replysize) _ (positive-positive _ _)
                          (λ rs rows.
                            Returns-bind (λ t. Unit {0}) (Sensible in_reach)
                              (prefetch_limit raw.maxprefetch) _ (prefetch_limit-Returns _)
                              (λ _ _.
                                Returns-bind (λ n. 1 ≤ n) (Sensible in_reach)
                                  (positive Parm.max_response_size raw.max_response_size) _
                                  (positive-positive _ _)
                                  (λ ms response. (
                                    record {
                                      port_range = h.port_range;
                                      binary_range = h.binary_range;
                                      some_rows = rows;
                                      some_response = response;
                                      connecting = connecting;
                                      reading = reading;
                                      writing = writing;
                                      operating = operating;
                                      zone = zone;
                                    },
                                    record {
                                      some_target =
                                          some_target_of raw.sock raw.host
                                            (socket_path raw.sockdir c.connect_port) raw.tls
                                            (socket_path-some raw.sockdir c.connect_port);
                                      unix_plain =
                                          unix_plain_of raw.sock raw.host _ raw.tls h.sock_or_tls;
                                      verified =
                                          verified_of raw.tls c.digits raw.cert h.without_tls _
                                            refl;
                                      client_pair =
                                          client_pair_of raw.clientcert raw.clientkey h.client_pair;
                                    },
                                    record {
                                      pin = h.pin;
                                      named = h.named;
                                      application = h.application;
                                      prefix = h.prefix;
                                      remark = h.remark;
                                      sql = h.sql;
                                    },
                                  )))))))))

-- From well-formed parameters, `Validated::new` does not panic, and what it returns makes sense: the
-- port, the reply size and the times are in their ranges; there is a place to connect to, which is a
-- socket of the file system only without TLS; with TLS the server is verified, by the digits of its
-- certificate if they are given, which are then 16 to 64 lower-case hexadecimal digits; there is a
-- client certificate just if there is a client key; no newline is sent in what is said of the client.
pub new-Sensible :
    (in_reach : ℕ → Bool) (self : Parameters)
    → WellFormed self
    → Returns (Sensible in_reach) (new in_reach self)
unfolding new
new-Sensible in_reach self w =
    let (raw, e) = extract-IsOk self w in
    rw e (
      Returns-bind (IsChecked raw) (Sensible in_reach) (check raw) _ (check-IsChecked raw)
        (λ c h. build-Sensible in_reach self.timezone_set raw c h))
