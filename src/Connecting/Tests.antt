-- ===== src/Connecting/Tests.antt =====
-- Runs of the connecting code at concrete inputs, and the properties at inputs that meet their hypotheses.
use monetdb_rust.Prelude.{
  ℕ, ◌≡◌, ◌≢◌, refl, Bool, true, [], ◌∷◌, Bytes, codes, none, some, Outcome, ok, err, panic,
  Returns, parse_uint, read_nat, read_digits,
}
use monetdb_rust.Cursor.Notices.{is_whitespace}
use monetdb_rust.Connecting.Trims.{Trims}
use monetdb_rust.Parms.Parameters.{default_parameters}
use monetdb_rust.Parms.Parameters.Slots.{default_parameters-WellFormed}
use monetdb_rust.Parms.Urls.{Url, domain, split}
use monetdb_rust.Connecting.{
  redirect, restart, lit, follow, answer, process_redirects, apply_redirect, invalid_challenge,
}
use monetdb_rust.Connecting.Challenge.{
  trim_end_matches, option_texts, read_option, read_options, read_protocol, read_endian, read_parts,
  new,
}
use monetdb_rust.Connecting.ChallengeSound.{Announces, Malformed, new-Announces}
use monetdb_rust.Connecting.OptionsSound.{Verdict}
use monetdb_rust.Connecting.Redirects.{
  Answers, process_redirects-Answers, Follows, apply_redirect-Follows,
}
use monetdb_rust.Prelude.{◌++◌, map, print_digits}
use monetdb_rust.Parms.Value.{int_value, bool_value, str_value, binary_value, parse_bool}
use monetdb_rust.Parms.Validated.Checks.{
  certhash_digits, valid_name, port_number, timezone_seconds, valid_timeout, positive,
  prefetch_limit,
}
use monetdb_rust.Parms.Validated.{Validated, extract}
use monetdb_rust.Parms.Validated.Build.{check, build}
use monetdb_rust.Parms.Validated.Build.{new as new_parms}
use monetdb_rust.Connecting.ClientInfo.{
  ClientInfo, kept, items, write_items, command, sql_form, client_info_of,
}
use monetdb_rust.Connecting.ClientLines.{OneLiners, prefixed, line_of, sql_form-lines}

abbrev greeting : Bytes
greeting =
    codes "s7NzFDHo0UdlE:merovingian:9:RIPEMD160,SHA512:LIT:SHA512:sql=6,BINARY=1,CLIENTINFO:"

reads_greeting :
    new greeting
    ≡ ok record {
      salt = codes "s7NzFDHo0UdlE";
      server_type = codes "merovingian";
      response_algos = codes "RIPEMD160,SHA512";
      endian = lit;
      prehash_algo = codes "SHA512";
      options = record { sql_handshake_option_level = 6; binary = 1; clientinfo = true };
    }
unfolding new trim_end_matches split read_parts option_texts read_option read_options read_protocol
    read_endian parse_uint read_nat read_digits
reads_greeting = refl

refuses_level :
    new (codes "salt:mserver:9:SHA1:BIG:SHA512:sql=256:")
    ≡ err (invalid_challenge (codes "invalid handshake options level"))
unfolding new trim_end_matches split read_parts option_texts read_option read_options read_protocol
    read_endian parse_uint read_nat read_digits
refuses_level = refl

new-Announces_example : Verdict (Announces greeting) (Malformed greeting) (new greeting)
new-Announces_example = new-Announces greeting

sends_on :
    process_redirects {Sock = ℕ} {State = ℕ} 1 2 (codes "^monetdb://elsewhere/demo")
    ≡ ok (redirect (codes "monetdb://elsewhere/demo"))
unfolding process_redirects answer follow split
sends_on = refl

starts_again :
    process_redirects {Sock = ℕ} {State = ℕ} 1 2 (codes "^mapi:merovingian://proxy?database=demo")
    ≡ ok (restart 1)
unfolding process_redirects answer follow split
starts_again = refl

process_redirects-Answers_example :
    (reply : Bytes) × Trims is_whitespace (codes " ^monetdb://elsewhere/demo") reply
    × Answers {Sock = ℕ} {State = ℕ} 1 2 reply
        (process_redirects 1 2 (codes " ^monetdb://elsewhere/demo"))
process_redirects-Answers_example =
    process_redirects-Answers 1 2 (codes " ^monetdb://elsewhere/demo")

-- A parser that knows one URL.
abbrev elsewhere : Url
elsewhere = record {
  username = [];
  password = none;
  host = some (domain (codes "elsewhere"));
  host_str = some (codes "elsewhere");
  port = none;
  path = codes "/demo";
  path_segments = some (codes "demo" ∷ []);
  query = none;
  query_pairs = [];
}

abbrev knows_elsewhere : Bytes → Outcome Bytes Url
knows_elsewhere url = ok elsewhere

knows_elsewhere-returns : (url : Bytes) → knows_elsewhere url ≢ panic
knows_elsewhere-returns url e = cc

abbrev any_bytes : Bytes → Bool
any_bytes text = true

abbrev as_it_is : Bytes → Bytes
as_it_is text = text

abbrev in_any_reach : ℕ → Bool
in_any_reach n = true

apply_redirect-Follows_example : Returns (Follows in_any_reach default_parameters) (
    apply_redirect knows_elsewhere any_bytes as_it_is in_any_reach default_parameters
      (codes "monetdb://elsewhere/demo"))
apply_redirect-Follows_example =
    apply_redirect-Follows knows_elsewhere any_bytes as_it_is in_any_reach knows_elsewhere-returns
      default_parameters (codes "monetdb://elsewhere/demo") default_parameters-WellFormed

abbrev teller : ClientInfo
teller = record {
  client_hostname = codes "host";
  application_name = codes "report";
  client_library = codes "monetdb-rust 0.1";
  client_remark = [];
  client_pid = 421;
}

tells :
    sql_form teller
    ≡ codes "Xclientinfo ClientHostname=host"
      ++ 10 ∷ codes "ApplicationName=report"
      ++ 10 ∷ codes "ClientLibrary=monetdb-rust 0.1"
      ++ 10 ∷ codes "ClientPid=421"
      ++ 10 ∷ []
unfolding sql_form write_items items kept print_digits
tells = refl

teller-OneLiners : OneLiners teller
teller-OneLiners = record { hostname = refl; application = refl; library = refl; remark = refl }

valid_defaults :
    (v : Validated) × (new_parms in_any_reach default_parameters ≡ ok v) × (v.client_info ≡ true)
unfolding new_parms extract check build default_parameters int_value bool_value str_value
    binary_value parse_bool certhash_digits valid_name port_number timezone_seconds valid_timeout
    positive prefetch_limit
valid_defaults = (_, refl, refl)

sql_form-lines_example :
    split 10 (sql_form (client_info_of (codes "monetdb-rust 0.1") teller valid_defaults.0))
    ≡ prefixed command
        (map line_of (items (client_info_of (codes "monetdb-rust 0.1") teller valid_defaults.0)))
      ++ [] ∷ []
sql_form-lines_example =
    sql_form-lines in_any_reach (codes "monetdb-rust 0.1") teller default_parameters
      valid_defaults.0 default_parameters-WellFormed valid_defaults.1 valid_defaults.2 refl
      teller-OneLiners
