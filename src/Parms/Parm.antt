-- ===== src/Parms/Parm.antt =====
-- `Parm` of src/parms/parameters.rs: the things that can be configured, by name and by number.
pub mod Names
use monetdb_rust.Prelude.{
  ℕ, Bool, true, false, ◌||◌, ◌==◌, List, [], ◌∷◌, if◌then◌else◌, Bytes, codes, same_bytes, Option,
  none, some,
}

-- In the order of the declaration.
pub data Parm : Type 0 where
  database : Parm
  host : Parm
  port : Parm
  tls : Parm
  user : Parm
  password : Parm
  autocommit : Parm
  binary : Parm
  cert : Parm
  cert_hash : Parm
  client_cert : Parm
  client_key : Parm
  language : Parm
  reply_size : Parm
  schema : Parm
  sock : Parm
  sock_dir : Parm
  timezone : Parm
  connect_timeout : Parm
  read_timeout : Parm
  write_timeout : Parm
  operation_timeout : Parm
  client_info : Parm
  client_application : Parm
  client_prefix : Parm
  client_remark : Parm
  max_response_size : Parm
  max_prefetch : Parm
  table_schema : Parm
  table : Parm
  hash : Parm
  debug : Parm
  logfile : Parm

-- `Parm::iter`
unfoldable pub iter : List Parm
iter =
    database ∷ host ∷ port ∷ tls ∷ user ∷ password ∷ autocommit ∷ binary ∷ cert ∷ cert_hash
    ∷ client_cert ∷ client_key ∷ language ∷ reply_size ∷ schema ∷ sock ∷ sock_dir ∷ timezone
    ∷ connect_timeout ∷ read_timeout ∷ write_timeout ∷ operation_timeout ∷ client_info
    ∷ client_application ∷ client_prefix ∷ client_remark ∷ max_response_size ∷ table_schema ∷ table
    ∷ hash ∷ debug ∷ logfile ∷ max_prefetch ∷ []

-- The name in a URL.
unfoldable pub as_str : Parm → Bytes
as_str database = codes "database"
as_str host = codes "host"
as_str port = codes "port"
as_str tls = codes "tls"
as_str user = codes "user"
as_str password = codes "password"
as_str autocommit = codes "autocommit"
as_str binary = codes "binary"
as_str cert = codes "cert"
as_str cert_hash = codes "certhash"
as_str client_cert = codes "clientcert"
as_str client_key = codes "clientkey"
as_str language = codes "language"
as_str reply_size = codes "replysize"
as_str schema = codes "schema"
as_str sock = codes "sock"
as_str sock_dir = codes "sockdir"
as_str timezone = codes "timezone"
as_str connect_timeout = codes "connect_timeout"
as_str read_timeout = codes "read_timeout"
as_str write_timeout = codes "write_timeout"
as_str operation_timeout = codes "operation_timeout"
as_str client_info = codes "client_info"
as_str client_application = codes "client_application"
as_str client_prefix = codes "client_prefix"
as_str client_remark = codes "client_remark"
as_str max_response_size = codes "max_response_size"
as_str max_prefetch = codes "maxprefetch"
as_str table_schema = codes "tableschema"
as_str table = codes "table"
as_str hash = codes "hash"
as_str debug = codes "debug"
as_str logfile = codes "logfile"

-- The arms of `from_str`, in its order.
unfoldable pub arms : List (Bytes × Parm)
arms =
    (codes "database", database)
    ∷ (codes "host", host)
    ∷ (codes "port", port)
    ∷ (codes "tls", tls)
    ∷ (codes "user", user)
    ∷ (codes "password", password)
    ∷ (codes "autocommit", autocommit)
    ∷ (codes "binary", binary)
    ∷ (codes "cert", cert)
    ∷ (codes "certhash", cert_hash)
    ∷ (codes "clientcert", client_cert)
    ∷ (codes "clientkey", client_key)
    ∷ (codes "language", language)
    ∷ (codes "replysize", reply_size)
    ∷ (codes "fetchsize", reply_size)
    ∷ (codes "schema", schema)
    ∷ (codes "sock", sock)
    ∷ (codes "sockdir", sock_dir)
    ∷ (codes "timezone", timezone)
    ∷ (codes "connect_timeout", connect_timeout)
    ∷ (codes "read_timeout", read_timeout)
    ∷ (codes "write_timeout", write_timeout)
    ∷ (codes "operation_timeout", operation_timeout)
    ∷ (codes "client_info", client_info)
    ∷ (codes "client_application", client_application)
    ∷ (codes "client_prefix", client_prefix)
    ∷ (codes "client_remark", client_remark)
    ∷ (codes "max_response_size", max_response_size)
    ∷ (codes "tableschema", table_schema)
    ∷ (codes "table", table)
    ∷ (codes "hash", hash)
    ∷ (codes "debug", debug)
    ∷ (codes "logfile", logfile)
    ∷ (codes "maxprefetch", max_prefetch)
    ∷ []

unfoldable pub match_name : Bytes → List (Bytes × Parm) → Option Parm
match_name name [] = none
match_name name ((pattern', parm) ∷ rest) = elim (same_bytes name pattern') [
  | true ↦ some parm
  | false ↦ match_name name rest
]

unfoldable pub from_str : Bytes → Option Parm
from_str name = match_name name arms

-- `*self as usize`; the assertion of the source, that it is below the size of the table, is proved.
unfoldable pub index : Parm → ℕ
index database = 0
index host = 1
index port = 2
index tls = 3
index user = 4
index password = 5
index autocommit = 6
index binary = 7
index cert = 8
index cert_hash = 9
index client_cert = 10
index client_key = 11
index language = 12
index reply_size = 13
index schema = 14
index sock = 15
index sock_dir = 16
index timezone = 17
index connect_timeout = 18
index read_timeout = 19
index write_timeout = 20
index operation_timeout = 21
index client_info = 22
index client_application = 23
index client_prefix = 24
index client_remark = 25
index max_response_size = 26
index max_prefetch = 27
index table_schema = 28
index table = 29
index hash = 30
index debug = 31
index logfile = 32

abbrev pub parm_table_size : ℕ
parm_table_size = 35

unfoldable pub is_core : Parm → Bool
is_core tls = true
is_core host = true
is_core port = true
is_core database = true
is_core table_schema = true
is_core table = true
is_core _ = false

unfoldable pub is_sensitive : Parm → Bool
is_sensitive user = true
is_sensitive password = true
is_sensitive _ = false

-- `name.contains('_')`
unfoldable pub ignored : Bytes → Bool
ignored [] = false
ignored (c ∷ cs) = (c == 95) || ignored cs

pub data ParmType : Type 0 where
  type_bool : ParmType
  type_int : ParmType
  type_str : ParmType

unfoldable pub parm_type : Parm → ParmType
parm_type tls = type_bool
parm_type autocommit = type_bool
parm_type client_info = type_bool
parm_type port = type_int
parm_type reply_size = type_int
parm_type timezone = type_int
parm_type max_prefetch = type_int
parm_type connect_timeout = type_int
parm_type read_timeout = type_int
parm_type write_timeout = type_int
parm_type operation_timeout = type_int
parm_type max_response_size = type_int
parm_type _ = type_str
