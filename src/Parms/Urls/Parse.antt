-- ===== src/Parms/Urls/Parse.antt =====
-- The parsers of src/parms/urlparser.rs, on top of the `url` crate.
use monetdb_rust.Prelude.{
  Bool, true, false, not, ◌&&◌, List, [], ◌∷◌, ◌++◌, if◌then◌else◌, Bytes, codes, drop, same_bytes,
  starts_with, Option, none, some, Outcome, ok, err, panic, ◌>>=◌, ◌>>◌, ensure,
}
use monetdb_rust.Parms.Parm.{Parm}
use monetdb_rust.Parms.Errors.{ParmError, invalid_url}
use monetdb_rust.Parms.Percent.{percent_decode}
use monetdb_rust.Parms.Value.{bool, int, str}
use monetdb_rust.Parms.Parameters.{Parameters, set}
use monetdb_rust.Parms.Validated.Checks.{is_empty}
use monetdb_rust.Parms.Urls.{
  Host, domain, ipv4, ipv6, Url, is_some, bad_userinfo, bad_legacy_userinfo, bad_scheme,
  port_or_none, set_query, split, set_legacy_query,
}

-- `url_parse` is `Url::parse` of the crate, which gives the error as its text; `is_utf8` is the check of
-- `String::from_utf8`; `quoted` is the text of a component in a message.
module _ (url_parse : Bytes → Outcome Bytes Url) (is_utf8 : Bytes → Bool)
    (quoted : Bytes → Bytes) where
  unfoldable pub parse_url : Bytes → Outcome ParmError Url
  parse_url url = elim (url_parse url) [ ok u ↦ ok u | err e ↦ err (invalid_url e) | panic ↦ panic ]

  abbrev pub no_userinfo : Url → Bool
  no_userinfo parsed = is_empty parsed.username && not (is_some parsed.password)

  unfoldable pub host_text : Option Host → Outcome ParmError Bytes
  unfolding percent_decode
  host_text none = ok []
  host_text (some (ipv4 ip)) = ok ip
  host_text (some (ipv6 ip)) = ok ip
  host_text (some (domain dom)) = do
    decoded ← percent_decode is_utf8 dom
    ok (
        if same_bytes decoded (codes "localhost")
        then []
        else if same_bytes decoded (codes "localhost.")
        then codes "localhost"
        else decoded)

  abbrev pub bad_component : Bytes → ParmError
  bad_component unexpected = invalid_url (codes "invalid path component " ++ quoted unexpected)

  -- The database, the schema and the table, as many as there are.
  unfoldable pub set_path : List Parm → Parameters → List Bytes → Outcome ParmError Parameters
  unfolding percent_decode set
  set_path _ parms [] = ok parms
  set_path [] parms (unexpected ∷ _) = err (bad_component unexpected)
  set_path (p ∷ ps) parms (segment ∷ rest) = do
    value ← percent_decode is_utf8 segment
    parms' ← set parms p (str value)
    set_path ps parms' rest

  unfoldable pub set_path_segments : Parameters → Option (List Bytes) → Outcome ParmError Parameters
  unfolding set_path
  set_path_segments parms none = ok parms
  set_path_segments parms (some segments) =
      set_path (Parm.database ∷ Parm.table_schema ∷ Parm.table ∷ []) parms segments

  unfoldable pub parse_monetdb_url : Parameters → Bool → Bytes → Outcome ParmError Parameters
  unfolding parse_url set host_text set_path_segments set_query
  parse_monetdb_url parms use_tls url = do
    parsed ← parse_url url
    ensure (no_userinfo parsed) (invalid_url bad_userinfo)
    parms' ← set parms Parm.tls (bool use_tls)
    host ← host_text parsed.host
    parms'' ← set parms' Parm.host (str host)
    parms''' ← set parms'' Parm.port (int (port_or_none parsed.port))
    located ← set_path_segments parms''' parsed.path_segments
    set_query located parsed.query_pairs

  -- The database of a legacy URL is the only component of its path.
  unfoldable pub legacy_database : Option (List Bytes) → Outcome ParmError Bytes
  legacy_database none = ok []
  legacy_database (some []) = ok []
  legacy_database (some (db ∷ [])) = ok db
  legacy_database (some (db ∷ unexpected ∷ _)) = err (bad_component unexpected)

  -- The place to connect to in a legacy URL.
  unfoldable pub set_legacy_place : Parameters → Url → Outcome ParmError Parameters
  unfolding set legacy_database
  set_legacy_place parms parsed = elim parsed.host_str [
    | some host ↦ do
      parms' ← set parms Parm.host (str host)
      parms'' ← set parms' Parm.sock (str [])
      database ← legacy_database parsed.path_segments
      set parms'' Parm.database (str database)
    | none ↦ do
      parms' ← set parms Parm.host (str [])
      parms'' ← set parms' Parm.sock (str parsed.path)
      set parms'' Parm.database (str [])
  ]

  unfoldable pub legacy_parts : Option Bytes → List Bytes
  unfolding split
  legacy_parts none = []
  legacy_parts (some query) = split 38 query

  unfoldable pub parse_legacy_url : Parameters → Bytes → Outcome ParmError Parameters
  unfolding parse_url set set_legacy_place set_legacy_query legacy_parts
  parse_legacy_url parms url = do
    parsed ← parse_url (drop 5 url)
    ensure (no_userinfo parsed) (invalid_url bad_legacy_userinfo)
    placed ← set_legacy_place parms parsed
    parms' ← set placed Parm.port (int (port_or_none parsed.port))
    set_legacy_query parms' (legacy_parts parsed.query)

  unfoldable pub parse_any_url : Parameters → Bytes → Outcome ParmError Parameters
  unfolding parse_monetdb_url parse_legacy_url
  parse_any_url parms url =
      if starts_with url (codes "monetdb://")
      then parse_monetdb_url parms false url
      else if starts_with url (codes "monetdbs://")
      then parse_monetdb_url parms true url
      else if starts_with url (codes "mapi:monetdb://")
      then parse_legacy_url parms url
      else err (invalid_url bad_scheme)
