-- ===== src/Parms/Tests.antt =====
-- Runs of the parameter code at concrete inputs, and the properties at inputs that meet their hypotheses.
use monetdb_rust.Prelude.{
  ℕ, ◌≡◌, ◌≢◌, ◌↔◌, refl, Bool, true, false, arith, [], ◌∷◌, Bytes, codes, none, some, Outcome, ok,
  err, panic, Returns, Returns-ok, pos, negsuc,
}
use monetdb_rust.Parms.Parm.{Parm, from_str, is_sensitive, parm_type, index}
use monetdb_rust.Parms.Parm.Names.{IsNameOf, from_str_iff}
use monetdb_rust.Parms.Value.{Value, str, int, bool, str_value, verify_assign}
use monetdb_rust.Parms.Parameters.{
  Parameters, default_parameters, default_parameter_value_by_index, get, get_int, get_bool, set,
  replace, boundary, take, reset, mark, set_elem,
}
use monetdb_rust.Parms.Parameters.Slots.{
  WellFormed, default_parameters-WellFormed, Replaces, replace-Replaces,
}
use monetdb_rust.Parms.Parameters.Resets.{Sets, Defaults, take-Defaults, Bounded, boundary-Bounded}
use monetdb_rust.Parms.Parameters.Texts.{get-set_text}
use monetdb_rust.Parms.Setters.{
  set_port, set_client_info, set_binary, text_setters, number_setters, flag_setters,
}
use monetdb_rust.Parms.Setters.Stores.{Stores, AllStore, setters-Store}
use monetdb_rust.Parms.Validated.Build.{new}
use monetdb_rust.Parms.Validated.Typed.{Typed, get-Typed}
use monetdb_rust.Parms.Validated.Sensible.{Sensible, new-Sensible}
use monetdb_rust.Parms.Urls.{Url, domain}
use monetdb_rust.Parms.Urls.Apply.{apply_url}
use monetdb_rust.Parms.Urls.Print.{url_without_credentials}
use monetdb_rust.Parms.Urls.Keeps.{set-WellFormed, apply_url-WellFormed}
use monetdb_rust.Parms.Urls.Secret.{url_without_credentials-same}
use monetdb_rust.Parms.Percent.{
  percent_encode, percent_decode, decode_loop, percent_position, is_safe, hex_digit,
}
use monetdb_rust.Parms.Errors.{invalid_percent_encoding}
use monetdb_rust.Parms.Percent.RoundTrip.{UrlSafe, percent_decode-percent_encode}

any_text : Bytes → Bool
any_text data' = true

encodes_space : percent_encode (codes "a b") ≡ codes "a%20b"
unfolding percent_encode is_safe hex_digit
encodes_space = refl

refuses_short : percent_decode any_text (codes "F%7") ≡ err invalid_percent_encoding
unfolding percent_decode percent_position decode_loop
refuses_short = refl

percent_decode-percent_encode_example :
    UrlSafe (percent_encode (codes "a b"))
    × (percent_decode any_text (percent_encode (codes "a b")) ≡ ok (codes "a b"))
unfolding any_text
percent_decode-percent_encode_example =
    percent_decode-percent_encode any_text (codes "a b")
      (omega arith, (omega arith, (omega arith, tt))) refl

from_str_iff_example :
    (from_str (codes "fetchsize") ≡ some Parm.reply_size)
    ↔ IsNameOf (codes "fetchsize") Parm.reply_size
from_str_iff_example = from_str_iff (codes "fetchsize") Parm.reply_size

replace-Replaces_example :
    Replaces default_parameters Parm.port
      (str (codes "50001"))
      (replace default_parameters Parm.port (str (codes "50001")))
replace-Replaces_example =
    replace-Replaces default_parameters Parm.port (str (codes "50001"))
      default_parameters-WellFormed

-- Parameters whose user was set.
abbrev with_user : Parameters
with_user = record {
  parms = set_elem default_parameters.parms 4 (str (codes "monetdb"));
  user_changed = true;
  password_changed = false;
  timezone_set = false;
}

with_user-set : set default_parameters Parm.user (str (codes "monetdb")) ≡ ok with_user
unfolding set replace mark default_parameters default_parameter_value_by_index index parm_type
    verify_assign
with_user-set = refl

with_user-WellFormed : WellFormed with_user
with_user-WellFormed =
    Returns-ok WellFormed _ with_user
      (set-WellFormed default_parameters Parm.user (str (codes "monetdb"))
        default_parameters-WellFormed)
      with_user-set

boundary-Bounded_example :
    (self' : Parameters) × (boundary with_user ≡ ok self') × Bounded with_user self'
boundary-Bounded_example = boundary-Bounded with_user with_user-WellFormed

take-Defaults_example :
    (old : Value) × (self' : Parameters) × (take with_user Parm.user ≡ ok (old, self'))
    × (reset with_user Parm.user ≡ ok self')
    × (get with_user Parm.user ≡ ok old)
    × Defaults with_user Parm.user self'
take-Defaults_example = take-Defaults with_user Parm.user with_user-WellFormed

get-set_text_example :
    ((self' : Parameters) × (set with_user Parm.timezone (str (str_value (int (negsuc 59))))
        ≡ ok self')
      × (get_int self' Parm.timezone ≡ ok (negsuc 59)))
    × ((self' : Parameters) × (set with_user Parm.tls (str (str_value (bool true))) ≡ ok self')
        × (get_bool self' Parm.tls ≡ ok true))
unfolding parm_type
get-set_text_example =
    get-set_text with_user Parm.timezone Parm.tls (negsuc 59) true with_user-WellFormed refl refl
      refl

setters-Store_example :
    AllStore str text_setters with_user (codes "x")
    × AllStore int number_setters with_user (pos 7)
    × AllStore bool flag_setters with_user true
    × Stores with_user Parm.port (int (pos 50001)) (set_port with_user 50001)
    × Sets with_user Parm.client_info (str (codes "x")) (set_client_info with_user (codes "x"))
    × Sets with_user Parm.binary (str (codes "on")) (set_binary with_user (str (codes "on")))
setters-Store_example =
    setters-Store with_user (codes "x") (pos 7) true 50001 (str (codes "on")) with_user-WellFormed

get-Typed_example : Typed (parm_type Parm.port) with_user Parm.port
get-Typed_example = get-Typed with_user Parm.port with_user-WellFormed

always : ℕ → Bool
always n = true

new-Sensible_example : Returns (Sensible always) (new always with_user)
new-Sensible_example = new-Sensible always with_user with_user-WellFormed

-- A parser that knows one URL.
abbrev localhost : Url
localhost = record {
  username = [];
  password = none;
  host = some (domain (codes "localhost"));
  host_str = some (codes "localhost");
  port = none;
  path = codes "/demo";
  path_segments = some (codes "demo" ∷ []);
  query = none;
  query_pairs = [];
}

abbrev knows_one : Bytes → Outcome Bytes Url
knows_one url = ok localhost

knows_one-returns : (url : Bytes) → knows_one url ≢ panic
knows_one-returns url e = cc

abbrev unquoted : Bytes → Bytes
unquoted text = text

apply_url-WellFormed_example :
    Returns WellFormed
      (apply_url knows_one any_text unquoted with_user (codes "monetdb://localhost/demo"))
apply_url-WellFormed_example =
    apply_url-WellFormed knows_one any_text unquoted knows_one-returns with_user
      (codes "monetdb://localhost/demo") with_user-WellFormed

same_but_user : (p : Parm) → is_sensitive p ≡ false → get default_parameters p ≡ get with_user p
unfolding is_sensitive get default_parameters default_parameter_value_by_index index
same_but_user Parm.database h = refl
same_but_user Parm.host h = refl
same_but_user Parm.port h = refl
same_but_user Parm.tls h = refl
same_but_user Parm.user h = absurd (cc)
same_but_user Parm.password h = absurd (cc)
same_but_user Parm.autocommit h = refl
same_but_user Parm.binary h = refl
same_but_user Parm.cert h = refl
same_but_user Parm.cert_hash h = refl
same_but_user Parm.client_cert h = refl
same_but_user Parm.client_key h = refl
same_but_user Parm.language h = refl
same_but_user Parm.reply_size h = refl
same_but_user Parm.schema h = refl
same_but_user Parm.sock h = refl
same_but_user Parm.sock_dir h = refl
same_but_user Parm.timezone h = refl
same_but_user Parm.connect_timeout h = refl
same_but_user Parm.read_timeout h = refl
same_but_user Parm.write_timeout h = refl
same_but_user Parm.operation_timeout h = refl
same_but_user Parm.client_info h = refl
same_but_user Parm.client_application h = refl
same_but_user Parm.client_prefix h = refl
same_but_user Parm.client_remark h = refl
same_but_user Parm.max_response_size h = refl
same_but_user Parm.max_prefetch h = refl
same_but_user Parm.table_schema h = refl
same_but_user Parm.table h = refl
same_but_user Parm.hash h = refl
same_but_user Parm.debug h = refl
same_but_user Parm.logfile h = refl

no_address : Bytes → Bool
no_address host = false

url_without_credentials-same_example :
    url_without_credentials no_address default_parameters
    ≡ url_without_credentials no_address with_user
url_without_credentials-same_example =
    url_without_credentials-same default_parameters with_user same_but_user no_address
