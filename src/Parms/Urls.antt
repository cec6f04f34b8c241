-- ===== src/Parms/Urls.antt =====
-- src/parms/urlparser.rs: what a URL says, and the loops over queries.
pub mod Parse
pub mod Apply
pub mod Print
pub mod Secret
pub mod Keeps
use monetdb_rust.Prelude.{
  ℕ, suc, Bool, true, false, not, ◌&&◌, ◌||◌, ◌==◌, List, [], ◌∷◌, ◌++◌, if◌then◌else◌, Bytes,
  codes, drop, same_bytes, starts_with, Option, none, some, Outcome, ok, err, panic, ◌>>=◌, ◌>>◌,
  ensure, ℤ, pos, negsuc, print_int,
}
use monetdb_rust.Parms.Parm
use monetdb_rust.Parms.Parm.{Parm, iter, as_str, from_str, is_core, is_sensitive, ignored}
use monetdb_rust.Parms.Errors.{ParmError, unknown_parameter, not_allowed_as_query, invalid_url}
use monetdb_rust.Parms.Percent.{percent_decode, percent_encode}
use monetdb_rust.Parms.Value.{Value, bool, int, str}
use monetdb_rust.Parms.Parameters.{
  Parameters, set, get_bool, get_int, get_str, is_default, boundary, default_parameters,
}
use monetdb_rust.Parms.Validated.Checks.{is_empty}

-- `url::Host`; addresses by their text.
pub data Host : Type 0 where
  domain : Bytes → Host
  ipv4 : Bytes → Host
  ipv6 : Bytes → Host

-- What `url::Url` tells of a URL.
pub record Url : Type 0 where
  pub username : Bytes
  pub password : Option Bytes
  pub host : Option Host
  pub host_str : Option Bytes
  pub port : Option ℕ
  pub path : Bytes
  pub path_segments : Option (List Bytes)
  pub query : Option Bytes
  pub query_pairs : List (Bytes × Bytes)

unfoldable pub is_our_url : Bytes → Bool
is_our_url url =
    starts_with url (codes "monetdb://")
    || starts_with url (codes "monetdbs://")
    || starts_with url (codes "mapi:monetdb://")

abbrev pub is_some {ℓ} : {A : Type ℓ} → Option A → Bool
is_some none = false
is_some (some a) = true

abbrev pub bad_userinfo : Bytes
bad_userinfo = codes "user information is not allowed after ://; use ?user= and &password="

abbrev pub bad_legacy_userinfo : Bytes
bad_legacy_userinfo =
    codes "no user name or password allowed after the ://, use ?user= and password= instead"

abbrev pub bad_scheme : Bytes
bad_scheme = codes "must start with monetdb://, monetdbs:// or mapi:monetdb://"

-- `parsed.port()`, or -1.
abbrev pub port_or_none : Option ℕ → ℤ
port_or_none none = negsuc 0
port_or_none (some p) = pos p

-- The loop over the pairs of the query.
unfoldable pub set_query : Parameters → List (Bytes × Bytes) → Outcome ParmError Parameters
unfolding set
set_query parms [] = ok parms
set_query parms ((k, v) ∷ rest) = elim (from_str k) [
  | none ↦ elim (ignored k) [ true ↦ set_query parms rest | false ↦ err (unknown_parameter k) ]
  | some parm ↦ elim (is_core parm) [
    | true ↦ err (not_allowed_as_query parm)
    | false ↦ do parms' ← set parms parm (str v); set_query parms' rest
  ]
]

-- `url.split_once(c)`
abbrev pub cons_front : ℕ → Option (Bytes × Bytes) → Option (Bytes × Bytes)
cons_front c none = none
cons_front c (some (front, behind)) = some (c ∷ front, behind)

unfoldable pub split_once : ℕ → Bytes → Option (Bytes × Bytes)
split_once sep [] = none
split_once sep (c ∷ cs) = if c == sep then some ([], cs) else cons_front c (split_once sep cs)

-- `text.split(c)`: one piece more than separators.
abbrev pub cons_first : ℕ → List Bytes → List Bytes
cons_first c [] = (c ∷ []) ∷ []
cons_first c (piece ∷ pieces) = (c ∷ piece) ∷ pieces

unfoldable pub split : ℕ → Bytes → List Bytes
split sep [] = [] ∷ []
split sep (c ∷ cs) = if c == sep then [] ∷ split sep cs else cons_first c (split sep cs)

-- The loop over the parts of a legacy query.
unfoldable pub set_legacy_pair : Parameters → Option (Bytes × Bytes) → Outcome ParmError Parameters
unfolding set
set_legacy_pair parms none = ok parms
set_legacy_pair parms (some (k, v)) =
    if same_bytes k (codes "language")
    then set parms Parm.language (str v)
    else if same_bytes k (codes "database")
    then set parms Parm.database (str v)
    else ok parms

unfoldable pub set_legacy_query : Parameters → List Bytes → Outcome ParmError Parameters
unfolding set_legacy_pair split_once
set_legacy_query parms [] = ok parms
set_legacy_query parms (x ∷ rest) = do
  parms' ← set_legacy_pair parms (split_once 61 x)
  set_legacy_query parms' rest
