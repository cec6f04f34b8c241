-- ===== src/Parms/Urls/Apply.antt =====
-- The functions of src/parms/parameters.rs that take URLs.
use monetdb_rust.Prelude.{Bool, if◌then◌else◌, Bytes, Outcome, ok, ◌>>=◌}
use monetdb_rust.Parms.Parm.{Parm}
use monetdb_rust.Parms.Errors.{ParmError}
use monetdb_rust.Parms.Value.{str}
use monetdb_rust.Parms.Parameters.{Parameters, set, boundary, default_parameters}
use monetdb_rust.Parms.Validated.Checks.{is_empty}
use monetdb_rust.Parms.Urls.{Url, is_our_url}
use monetdb_rust.Parms.Urls.Parse.{parse_any_url}

-- `url_parse`, `is_utf8` and `quoted` are those of the parsers.
module _ (url_parse : Bytes → Outcome Bytes Url) (is_utf8 : Bytes → Bool)
    (quoted : Bytes → Bytes) where
  -- `Parameters::apply_url`: all or nothing, since it works on a copy.
  unfoldable pub apply_url : Parameters → Bytes → Outcome ParmError Parameters
  unfolding boundary parse_any_url
  apply_url self url = do
    updated ← boundary self
    parsed ← parse_any_url url_parse is_utf8 quoted updated url
    boundary parsed

  unfoldable pub from_url : Bytes → Outcome ParmError Parameters
  unfolding apply_url default_parameters
  from_url url = apply_url default_parameters url

  -- `Parameters::basic`
  unfoldable pub set_unless_empty : Parameters → Parm → Bytes → Outcome ParmError Parameters
  unfolding set
  set_unless_empty parms p value = if is_empty value then ok parms else set parms p (str value)

  unfoldable pub basic : Bytes → Bytes → Bytes → Outcome ParmError Parameters
  unfolding apply_url set set_unless_empty boundary default_parameters is_our_url
  basic database user password = do
    parms ←
        if is_our_url database
        then apply_url default_parameters database
        else set default_parameters Parm.database (str database)
    parms' ← set_unless_empty parms Parm.user user
    parms'' ← set_unless_empty parms' Parm.password password
    boundary parms''
