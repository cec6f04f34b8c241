-- ===== src/Parms/Validated.antt =====
-- `Validated` of src/parms/parameters.rs: parameters that make sense together, and what follows for the connection.
pub mod Checks
pub mod Build
pub mod Sound
pub mod Facts
pub mod Sensible
pub mod Extract
pub mod Typed
use monetdb_rust.Prelude.{
  ℕ, zero, suc, ◌+◌, ◌-◌, ◌*◌, ◌^◌, Bool, true, false, not, ◌&&◌, ◌||◌, ltb, leb, ◌==◌, [], ◌∷◌,
  ◌++◌, if◌then◌else◌, Bytes, codes, length, drop, same_bytes, starts_with, Option, none, some,
  Outcome, ok, err, panic, ◌>>=◌, ◌>>◌, ensure, ok_or, ℤ, pos, negsuc, print_nat,
}
use monetdb_rust.Parms.Parm
use monetdb_rust.Parms.Parm.{Parm}
use monetdb_rust.Parms.Errors.{
  ParmError, invalid_value, invalid_binary, host_sock_conflict, only_with_tls,
  client_cert_requires_key, client_info_newline,
}
use monetdb_rust.Parms.Value.{Value, binary_value}
use monetdb_rust.Parms.Parameters.{Parameters, get, get_bool, get_int, get_str}

pub data TlsVerify : Type 0 where
  verify_off : TlsVerify
  verify_hash : TlsVerify
  verify_cert : TlsVerify
  verify_system : TlsVerify

-- A duration is its number of seconds.
pub record Validated : Type 0 where
  pub database : Bytes
  pub tls : Bool
  pub user : Bytes
  pub password : Bytes
  pub autocommit : Bool
  pub cert : Bytes
  pub language : Bytes
  pub replysize : ℕ
  pub maxprefetch : Option ℕ
  pub schema : Bytes
  pub client_info : Bool
  pub client_application : Bytes
  pub client_prefix : Bytes
  pub client_remark : Bytes
  pub connect_timezone_seconds : Option ℤ
  pub connect_scan : Bool
  pub connect_unix : Bytes
  pub connect_tcp : Bytes
  pub connect_port : ℕ
  pub connect_tls_verify : TlsVerify
  pub connect_certhash_digits : Bytes
  pub connect_clientkey : Bytes
  pub connect_clientcert : Bytes
  pub connect_binary : ℕ
  pub connect_timeout : Option ℕ
  pub read_timeout : Option ℕ
  pub write_timeout : Option ℕ
  pub operation_timeout : Option ℕ
  pub max_response_size : ℕ

-- The values that `new` takes out of the parameters, with their types.
pub record Raw : Type 0 where
  pub database : Bytes
  pub host : Bytes
  pub port : ℤ
  pub tls : Bool
  pub user : Bytes
  pub password : Bytes
  pub autocommit : Bool
  pub cert : Bytes
  pub certhash : Bytes
  pub clientcert : Bytes
  pub clientkey : Bytes
  pub language : Bytes
  pub replysize : ℤ
  pub maxprefetch : ℤ
  pub schema : Bytes
  pub sock : Bytes
  pub sockdir : Bytes
  pub timezone : ℤ
  pub binary : Value
  pub connect_timeout : ℤ
  pub read_timeout : ℤ
  pub write_timeout : ℤ
  pub operation_timeout : ℤ
  pub max_response_size : ℤ
  pub client_info : Bool
  pub client_application : Bytes
  pub client_prefix : Bytes
  pub client_remark : Bytes
  pub tableschema : Bytes
  pub table : Bytes

unfoldable pub extract : Parameters → Outcome ParmError Raw
unfolding get get_bool get_int get_str
extract parms = do
  raw_database ← get_str parms Parm.database
  raw_host ← get_str parms Parm.host
  raw_port ← get_int parms Parm.port
  raw_tls ← get_bool parms Parm.tls
  raw_user ← get_str parms Parm.user
  raw_password ← get_str parms Parm.password
  raw_autocommit ← get_bool parms Parm.autocommit
  raw_cert ← get_str parms Parm.cert
  raw_certhash ← get_str parms Parm.cert_hash
  raw_clientcert ← get_str parms Parm.client_cert
  raw_clientkey ← get_str parms Parm.client_key
  raw_language ← get_str parms Parm.language
  raw_replysize ← get_int parms Parm.reply_size
  raw_maxprefetch ← get_int parms Parm.max_prefetch
  raw_schema ← get_str parms Parm.schema
  raw_sock ← get_str parms Parm.sock
  raw_sockdir ← get_str parms Parm.sock_dir
  raw_timezone ← get_int parms Parm.timezone
  raw_binary ← get parms Parm.binary
  raw_connect_timeout ← get_int parms Parm.connect_timeout
  raw_read_timeout ← get_int parms Parm.read_timeout
  raw_write_timeout ← get_int parms Parm.write_timeout
  raw_operation_timeout ← get_int parms Parm.operation_timeout
  raw_max_response_size ← get_int parms Parm.max_response_size
  raw_client_info ← get_bool parms Parm.client_info
  raw_client_application ← get_str parms Parm.client_application
  raw_client_prefix ← get_str parms Parm.client_prefix
  raw_client_remark ← get_str parms Parm.client_remark
  raw_tableschema ← get_str parms Parm.table_schema
  raw_table ← get_str parms Parm.table
  ok record {
    database = raw_database;
    host = raw_host;
    port = raw_port;
    tls = raw_tls;
    user = raw_user;
    password = raw_password;
    autocommit = raw_autocommit;
    cert = raw_cert;
    certhash = raw_certhash;
    clientcert = raw_clientcert;
    clientkey = raw_clientkey;
    language = raw_language;
    replysize = raw_replysize;
    maxprefetch = raw_maxprefetch;
    schema = raw_schema;
    sock = raw_sock;
    sockdir = raw_sockdir;
    timezone = raw_timezone;
    binary = raw_binary;
    connect_timeout = raw_connect_timeout;
    read_timeout = raw_read_timeout;
    write_timeout = raw_write_timeout;
    operation_timeout = raw_operation_timeout;
    max_response_size = raw_max_response_size;
    client_info = raw_client_info;
    client_application = raw_client_application;
    client_prefix = raw_client_prefix;
    client_remark = raw_client_remark;
    tableschema = raw_tableschema;
    table = raw_table;
  }
