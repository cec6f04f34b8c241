-- ===== src/Cursor/Types.antt =====
-- `MonetType` of src/monettypes.rs: the types of columns.
use monetdb_rust.Prelude.{
  ℕ, true, false, List, [], ◌∷◌, ◌++◌, Bytes, codes, same_bytes, Option, none, some, print_nat,
}

pub data MonetType : Type 0 where
  bool : MonetType
  tiny_int : MonetType
  small_int : MonetType
  int : MonetType
  big_int : MonetType
  huge_int : MonetType
  oid : MonetType
  decimal : ℕ → ℕ → MonetType
  varchar : ℕ → MonetType
  real : MonetType
  double : MonetType
  month_interval : MonetType
  day_interval : MonetType
  sec_interval : MonetType
  time : MonetType
  time_tz : MonetType
  date : MonetType
  timestamp : MonetType
  timestamp_tz : MonetType
  blob : MonetType
  url : MonetType
  inet : MonetType
  inet4 : MonetType
  inet6 : MonetType
  json : MonetType
  uuid : MonetType
  geometry : MonetType
  xml : MonetType

-- The text of `Display`.
unfoldable pub display : MonetType → Bytes
display bool = codes "BOOL"
display tiny_int = codes "TINYINT"
display small_int = codes "SMALLINT"
display int = codes "INT"
display big_int = codes "BIGINT"
display huge_int = codes "HUGEINT"
display oid = codes "OID"
display (decimal p s) = codes "DECIMAL(" ++ print_nat p ++ codes ", " ++ print_nat s ++ codes ")"
display (varchar n) = codes "VARCHAR(" ++ print_nat n ++ codes ")"
display real = codes "REAL"
display double = codes "DOUBLE"
display month_interval = codes "MONTH_INTERVAL"
display day_interval = codes "DAY_INTERVAL"
display sec_interval = codes "SEC_INTERVAL"
display time = codes "TIME"
display time_tz = codes "TIMETZ"
display date = codes "DATE"
display timestamp = codes "TIMESTAMP"
display timestamp_tz = codes "TIMESTAMPTZ"
display blob = codes "BLOB"
display url = codes "URL"
display inet = codes "INET"
display inet4 = codes "INET4"
display inet6 = codes "INET6"
display json = codes "JSON"
display uuid = codes "UUID"
display geometry = codes "GEOMETRY"
display xml = codes "XML"

-- The arms of `from_mapi_code`, in its order.
abbrev pub code_arms : List (Bytes × MonetType)
code_arms =
    (codes "boolean", bool)
    ∷ (codes "tinyint", tiny_int)
    ∷ (codes "smallint", small_int)
    ∷ (codes "int", int)
    ∷ (codes "bigint", big_int)
    ∷ (codes "hugeint", huge_int)
    ∷ (codes "oid", oid)
    ∷ (codes "char", varchar 0)
    ∷ (codes "clob", varchar 0)
    ∷ (codes "str", varchar 0)
    ∷ (codes "varchar", varchar 0)
    ∷ (codes "decimal", decimal 0 0)
    ∷ (codes "real", real)
    ∷ (codes "double", double)
    ∷ (codes "month_interval", month_interval)
    ∷ (codes "day_interval", day_interval)
    ∷ (codes "sec_interval", sec_interval)
    ∷ (codes "time", time)
    ∷ (codes "timetz", time_tz)
    ∷ (codes "date", date)
    ∷ (codes "timestamp", timestamp)
    ∷ (codes "timestamptz", timestamp_tz)
    ∷ (codes "blob", blob)
    ∷ (codes "url", url)
    ∷ (codes "inet", inet)
    ∷ (codes "inet4", inet4)
    ∷ (codes "inet6", inet6)
    ∷ (codes "json", json)
    ∷ (codes "uuid", uuid)
    ∷ (codes "geometry", geometry)
    ∷ (codes "xml", xml)
    ∷ []

unfoldable pub match_code : Bytes → List (Bytes × MonetType) → Option MonetType
match_code code [] = none
match_code code ((pattern', typ) ∷ rest) = elim (same_bytes code pattern') [
  | true ↦ some typ
  | false ↦ match_code code rest
]

unfoldable pub from_mapi_code : Bytes → Option MonetType
unfolding match_code
from_mapi_code code = match_code code code_arms
