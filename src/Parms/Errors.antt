-- ===== src/Parms/Errors.antt =====
-- `ParmError` of src/parms/mod.rs.
use monetdb_rust.Prelude.{Bytes}
use monetdb_rust.Parms.Parm.{Parm}

pub data ParmError : Type 0 where
  unknown_parameter : Bytes → ParmError
  invalid_value : Parm → ParmError
  invalid_bool : Parm → ParmError
  invalid_int : Parm → ParmError
  must_be_string : Parm → ParmError
  invalid_binary : ParmError
  invalid_url : Bytes → ParmError
  invalid_percent_encoding : ParmError
  invalid_percent_utf8 : ParmError
  host_sock_conflict : ParmError
  only_with_tls : Parm → ParmError
  client_cert_requires_key : ParmError
  not_allowed_as_query : Parm → ParmError
  client_info_newline : Parm → ParmError
