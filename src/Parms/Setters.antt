-- ===== src/Parms/Setters.antt =====
-- The typed setters of src/parms/parameters.rs; `with_*` is `set_*` on a value that is handed over.
pub mod Stores
use monetdb_rust.Prelude.{ℕ, Bool, Bytes, List, [], ◌∷◌, Outcome, ℤ, pos}
use monetdb_rust.Parms.Parm
use monetdb_rust.Parms.Parm.{Parm}
use monetdb_rust.Parms.Errors.{ParmError}
use monetdb_rust.Parms.Value.{Value, bool, int, str}
use monetdb_rust.Parms.Parameters.{Parameters, set}

unfoldable pub set_database : Parameters → Bytes → Outcome ParmError Parameters
unfolding set
set_database self value = set self Parm.database (str value)

unfoldable pub set_host : Parameters → Bytes → Outcome ParmError Parameters
unfolding set
set_host self value = set self Parm.host (str value)

unfoldable pub set_port : Parameters → ℕ → Outcome ParmError Parameters
unfolding set
set_port self value = set self Parm.port (int (pos value))

unfoldable pub set_tls : Parameters → Bool → Outcome ParmError Parameters
unfolding set
set_tls self value = set self Parm.tls (bool value)

unfoldable pub set_user : Parameters → Bytes → Outcome ParmError Parameters
unfolding set
set_user self value = set self Parm.user (str value)

unfoldable pub set_password : Parameters → Bytes → Outcome ParmError Parameters
unfolding set
set_password self value = set self Parm.password (str value)

unfoldable pub set_autocommit : Parameters → Bool → Outcome ParmError Parameters
unfolding set
set_autocommit self value = set self Parm.autocommit (bool value)

unfoldable pub set_binary : Parameters → Value → Outcome ParmError Parameters
unfolding set
set_binary self value = set self Parm.binary value

unfoldable pub set_cert : Parameters → Bytes → Outcome ParmError Parameters
unfolding set
set_cert self value = set self Parm.cert (str value)

unfoldable pub set_certhash : Parameters → Bytes → Outcome ParmError Parameters
unfolding set
set_certhash self value = set self Parm.cert_hash (str value)

unfoldable pub set_clientcert : Parameters → Bytes → Outcome ParmError Parameters
unfolding set
set_clientcert self value = set self Parm.client_cert (str value)

unfoldable pub set_clientkey : Parameters → Bytes → Outcome ParmError Parameters
unfolding set
set_clientkey self value = set self Parm.client_key (str value)

unfoldable pub set_language : Parameters → Bytes → Outcome ParmError Parameters
unfolding set
set_language self value = set self Parm.language (str value)

unfoldable pub set_replysize : Parameters → ℤ → Outcome ParmError Parameters
unfolding set
set_replysize self value = set self Parm.reply_size (int value)

unfoldable pub set_maxprefetch : Parameters → ℤ → Outcome ParmError Parameters
unfolding set
set_maxprefetch self value = set self Parm.max_prefetch (int value)

unfoldable pub set_schema : Parameters → Bytes → Outcome ParmError Parameters
unfolding set
set_schema self value = set self Parm.schema (str value)

unfoldable pub set_sock : Parameters → Bytes → Outcome ParmError Parameters
unfolding set
set_sock self value = set self Parm.sock (str value)

unfoldable pub set_sockdir : Parameters → Bytes → Outcome ParmError Parameters
unfolding set
set_sockdir self value = set self Parm.sock_dir (str value)

unfoldable pub set_timezone : Parameters → ℤ → Outcome ParmError Parameters
unfolding set
set_timezone self value = set self Parm.timezone (int value)

unfoldable pub set_connect_timeout : Parameters → ℤ → Outcome ParmError Parameters
unfolding set
set_connect_timeout self value = set self Parm.connect_timeout (int value)

unfoldable pub set_read_timeout : Parameters → ℤ → Outcome ParmError Parameters
unfolding set
set_read_timeout self value = set self Parm.read_timeout (int value)

unfoldable pub set_write_timeout : Parameters → ℤ → Outcome ParmError Parameters
unfolding set
set_write_timeout self value = set self Parm.write_timeout (int value)

unfoldable pub set_operation_timeout : Parameters → ℤ → Outcome ParmError Parameters
unfolding set
set_operation_timeout self value = set self Parm.operation_timeout (int value)

unfoldable pub set_client_info : Parameters → Bytes → Outcome ParmError Parameters
unfolding set
set_client_info self value = set self Parm.client_info (str value)

unfoldable pub set_client_application : Parameters → Bytes → Outcome ParmError Parameters
unfolding set
set_client_application self value = set self Parm.client_application (str value)

unfoldable pub set_client_prefix : Parameters → Bytes → Outcome ParmError Parameters
unfolding set
set_client_prefix self value = set self Parm.client_prefix (str value)

unfoldable pub set_client_remark : Parameters → Bytes → Outcome ParmError Parameters
unfolding set
set_client_remark self value = set self Parm.client_remark (str value)

unfoldable pub set_max_response_size : Parameters → ℤ → Outcome ParmError Parameters
unfolding set
set_max_response_size self value = set self Parm.max_response_size (int value)

-- The setters of texts, of numbers and of flags, each with its parameter.
abbrev pub text_setters : List (Parm × (Parameters → Bytes → Outcome ParmError Parameters))
text_setters =
    (Parm.database, set_database)
    ∷ (Parm.host, set_host)
    ∷ (Parm.user, set_user)
    ∷ (Parm.password, set_password)
    ∷ (Parm.cert, set_cert)
    ∷ (Parm.cert_hash, set_certhash)
    ∷ (Parm.client_cert, set_clientcert)
    ∷ (Parm.client_key, set_clientkey)
    ∷ (Parm.language, set_language)
    ∷ (Parm.schema, set_schema)
    ∷ (Parm.sock, set_sock)
    ∷ (Parm.sock_dir, set_sockdir)
    ∷ (Parm.client_application, set_client_application)
    ∷ (Parm.client_prefix, set_client_prefix)
    ∷ (Parm.client_remark, set_client_remark)
    ∷ []

abbrev pub number_setters : List (Parm × (Parameters → ℤ → Outcome ParmError Parameters))
number_setters =
    (Parm.reply_size, set_replysize)
    ∷ (Parm.max_prefetch, set_maxprefetch)
    ∷ (Parm.timezone, set_timezone)
    ∷ (Parm.connect_timeout, set_connect_timeout)
    ∷ (Parm.read_timeout, set_read_timeout)
    ∷ (Parm.write_timeout, set_write_timeout)
    ∷ (Parm.operation_timeout, set_operation_timeout)
    ∷ (Parm.max_response_size, set_max_response_size)
    ∷ []

abbrev pub flag_setters : List (Parm × (Parameters → Bool → Outcome ParmError Parameters))
flag_setters = (Parm.tls, set_tls) ∷ (Parm.autocommit, set_autocommit) ∷ []
