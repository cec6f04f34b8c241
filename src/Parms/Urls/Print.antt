-- ===== src/Parms/Urls/Print.antt =====
-- `url_from_parms` of src/parms/urlparser.rs.
use monetdb_rust.Prelude.{
  ℕ, zero, suc, Bool, true, false, not, ◌&&◌, ◌==◌, List, [], ◌∷◌, ◌++◌, if◌then◌else◌, Bytes,
  codes, same_bytes, Option, none, some, Outcome, ok, ◌>>=◌, ℤ, pos, negsuc, print_int,
}
use monetdb_rust.Parms.Parm.{Parm, iter, as_str, is_core, is_sensitive}
use monetdb_rust.Parms.Errors.{ParmError}
use monetdb_rust.Parms.Percent.{percent_encode}
use monetdb_rust.Parms.Parameters.{Parameters, get_bool, get_int, get_str, is_default}
use monetdb_rust.Parms.Validated.Checks.{is_empty}
use monetdb_rust.Parms.Urls.{is_some}

-- The loop over the selected parameters; `sep` is `?` or `&`.
unfoldable pub query_text : Parameters → ℕ → List Parm → Outcome ParmError Bytes
unfolding is_default get_str
query_text parms sep [] = ok []
query_text parms sep (p ∷ ps) = elim (is_core p) [
  | true ↦ query_text parms sep ps
  | false ↦ do
    unchanged ← is_default parms p
    elim unchanged [
      | true ↦ query_text parms sep ps
      | false ↦ do
        value ← get_str parms p
        rest ← query_text parms 38 ps
        ok (sep ∷ as_str p ++ 61 ∷ percent_encode value ++ rest)
    ]
]

-- The port, if it is to be written.
abbrev pub written_port : ℤ → Option ℤ
written_port (pos n) = if n == 50000 then none else some (pos n)
written_port (negsuc zero) = none
written_port (negsuc (suc n)) = some (negsuc (suc n))

unfoldable pub written_host : Bytes → Option ℤ → Bytes
written_host host port =
    let host' = if same_bytes host (codes "localhost") then [] else host in
    if is_some port && is_empty host' then codes "localhost" else host'

-- `is_ipv6` is the test that the host parses as an address.
unfoldable pub host_and_port : (is_ipv6 : Bytes → Bool) → Bytes → Option ℤ → Bytes
unfolding written_host
host_and_port is_ipv6 host port =
    let host' = written_host host port in
    (if is_ipv6 host' then 91 ∷ host' ++ 93 ∷ [] else percent_encode host')
    ++ elim port [ none ↦ [] | some p ↦ 58 ∷ print_int p ]

unfoldable pub path_text : Bytes → Bytes → Bytes → Bytes
path_text database tableschema table =
    (if not (is_empty database && is_empty tableschema && is_empty table)
      then 47 ∷ percent_encode database
      else [])
    ++ (if not (is_empty tableschema && is_empty table)
        then 47 ∷ percent_encode tableschema
        else [])
    ++ (if not (is_empty table) then 47 ∷ percent_encode table else [])

unfoldable pub url_from_parms :
    (is_ipv6 : Bytes → Bool) → Parameters → List Parm → Outcome ParmError Bytes
unfolding get_bool get_int get_str query_text host_and_port path_text
url_from_parms is_ipv6 parms selection = do
  use_tls ← get_bool parms Parm.tls
  port ← get_int parms Parm.port
  host ← get_str parms Parm.host
  database ← get_str parms Parm.database
  tableschema ← get_str parms Parm.table_schema
  table ← get_str parms Parm.table
  query ← query_text parms 63 selection
  ok (
      (if use_tls then codes "monetdbs" else codes "monetdb")
      ++ codes "://"
      ++ host_and_port is_ipv6 host (written_port port)
      ++ path_text database tableschema table
      ++ query)

unfoldable pub url_with_credentials :
    (is_ipv6 : Bytes → Bool) → Parameters → Outcome ParmError Bytes
unfolding url_from_parms iter
url_with_credentials is_ipv6 self = url_from_parms is_ipv6 self iter

-- `filter`
abbrev pub without_sensitive : List Parm → List Parm
without_sensitive [] = []
without_sensitive (p ∷ ps) =
    if is_sensitive p then without_sensitive ps else p ∷ without_sensitive ps

unfoldable pub url_without_credentials :
    (is_ipv6 : Bytes → Bool) → Parameters → Outcome ParmError Bytes
unfolding url_from_parms iter
url_without_credentials is_ipv6 self = url_from_parms is_ipv6 self (without_sensitive iter)
