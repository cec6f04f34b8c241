-- ===== src/Parms/Validated/Build.antt =====
-- `Validated::new` of src/parms/parameters.rs: the checks in their order, and the connection's own values.
use monetdb_rust.Prelude.{
  ℕ, Bool, not, ◌&&◌, ◌||◌, [], ◌++◌, if◌then◌else◌, Bytes, codes, same_bytes, Outcome, ok, ◌>>=◌,
  ◌>>◌, ensure, ok_or, negsuc, same_int, print_nat,
}
use monetdb_rust.Parms.Parm.{Parm}
use monetdb_rust.Parms.Errors.{
  ParmError, invalid_value, invalid_binary, host_sock_conflict, only_with_tls,
  client_cert_requires_key, client_info_newline,
}
use monetdb_rust.Parms.Value.{binary_value}
use monetdb_rust.Parms.Parameters.{Parameters}
use monetdb_rust.Parms.Validated.{
  Validated, TlsVerify, verify_off, verify_hash, verify_cert, verify_system, Raw, extract,
}
use monetdb_rust.Parms.Validated.Checks.{
  is_empty, contains, valid_name, valid_timeout, certhash_digits, port_number, timezone_seconds,
  positive, prefetch_limit,
}

-- Number 6 of the checks.
unfoldable pub check_without_tls : Raw → Outcome ParmError (Unit {0})
check_without_tls raw = if raw.tls then ok tt else (do
  ensure (is_empty raw.cert) (only_with_tls Parm.cert)
  ensure (is_empty raw.certhash) (only_with_tls Parm.cert_hash))

unfoldable pub check_client_info : Raw → Outcome ParmError (Unit {0})
check_client_info raw = do
  ensure (not (raw.client_info && contains raw.client_application 10))
      (client_info_newline Parm.client_application)
  ensure (not (raw.client_info && contains raw.client_prefix 10))
      (client_info_newline Parm.client_prefix)
  ensure (not (raw.client_info && contains raw.client_remark 10))
      (client_info_newline Parm.client_remark)

unfoldable pub connect_scan_of : Raw → Bool
connect_scan_of raw =
    not (is_empty raw.database)
    && is_empty raw.sock
    && is_empty raw.host
    && same_int raw.port (negsuc 0)
    && not raw.tls

-- The socket in the directory of sockets.
abbrev pub socket_path : Bytes → ℕ → Bytes
socket_path dir port = dir ++ codes "/.s.monetdb." ++ print_nat port

unfoldable pub connect_unix_of : Raw → ℕ → Bytes
connect_unix_of raw connect_port =
    if not (is_empty raw.sock)
    then raw.sock
    else if raw.tls
    then []
    else if is_empty raw.host
    then socket_path raw.sockdir connect_port
    else []

unfoldable pub connect_tcp_of : Raw → Bytes
connect_tcp_of raw =
    if not (is_empty raw.sock)
    then []
    else if is_empty raw.host
    then codes "localhost"
    else raw.host

unfoldable pub connect_tls_verify_of : Raw → Bytes → TlsVerify
connect_tls_verify_of raw digits =
    if not raw.tls
    then verify_off
    else if not (is_empty digits)
    then verify_hash
    else if not (is_empty raw.cert)
    then verify_cert
    else verify_system

-- Numbers 2 to 9 of the checks, and those behind them: the values that they determine.
pub record Checked : Type 0 where
  pub connect_binary : ℕ
  pub digits : Bytes
  pub connect_port : ℕ

unfoldable pub check : Raw → Outcome ParmError Checked
unfolding check_without_tls check_client_info
check raw = do
  ensure (is_empty raw.host || is_empty raw.sock) host_sock_conflict
  connect_binary ← ok_or (binary_value raw.binary) invalid_binary
  ensure (is_empty raw.sock || not raw.tls) (only_with_tls Parm.sock)
  digits ← certhash_digits raw.certhash
  check_without_tls raw
  _ ← valid_name Parm.database raw.database
  _ ← valid_name Parm.table_schema raw.tableschema
  _ ← valid_name Parm.table raw.table
  connect_port ← port_number raw.port
  ensure (is_empty raw.clientcert || not (is_empty raw.clientkey)) client_cert_requires_key
  check_client_info raw
  ensure (same_bytes raw.language (codes "sql")) (invalid_value Parm.language)
  ok record { connect_binary = connect_binary; digits = digits; connect_port = connect_port }

unfoldable pub build : (in_reach : ℕ → Bool) → Bool → Raw → Checked → Outcome ParmError Validated
unfolding connect_scan_of connect_unix_of connect_tcp_of connect_tls_verify_of
build in_reach timezone_set raw checked = do
  connect_timezone_seconds ← timezone_seconds timezone_set raw.timezone
  connect_timeout ← valid_timeout in_reach Parm.connect_timeout raw.connect_timeout
  read_timeout ← valid_timeout in_reach Parm.read_timeout raw.read_timeout
  write_timeout ← valid_timeout in_reach Parm.write_timeout raw.write_timeout
  operation_timeout ← valid_timeout in_reach Parm.operation_timeout raw.operation_timeout
  replysize ← positive Parm.reply_size raw.replysize
  maxprefetch ← prefetch_limit raw.maxprefetch
  max_response_size ← positive Parm.max_response_size raw.max_response_size
  ok record {
    database = raw.database;
    tls = raw.tls;
    user = raw.user;
    password = raw.password;
    autocommit = raw.autocommit;
    cert = raw.cert;
    language = raw.language;
    replysize = replysize;
    maxprefetch = maxprefetch;
    schema = raw.schema;
    client_info = raw.client_info;
    client_application = raw.client_application;
    client_prefix = raw.client_prefix;
    client_remark = raw.client_remark;
    connect_timezone_seconds = connect_timezone_seconds;
    connect_scan = connect_scan_of raw;
    connect_unix = connect_unix_of raw checked.connect_port;
    connect_tcp = connect_tcp_of raw;
    connect_port = checked.connect_port;
    connect_tls_verify = connect_tls_verify_of raw checked.digits;
    connect_certhash_digits = checked.digits;
    connect_clientkey = raw.clientkey;
    connect_clientcert = if is_empty raw.clientcert then raw.clientkey else raw.clientcert;
    connect_binary = checked.connect_binary;
    connect_timeout = connect_timeout;
    read_timeout = read_timeout;
    write_timeout = write_timeout;
    operation_timeout = operation_timeout;
    max_response_size = max_response_size;
  }

unfoldable pub new : (in_reach : ℕ → Bool) → Parameters → Outcome ParmError Validated
unfolding check build extract
new in_reach parms = do
  raw ← extract parms
  checked ← check raw
  build in_reach parms.timezone_set raw checked
