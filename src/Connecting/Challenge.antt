-- ===== src/Connecting/Challenge.antt =====
-- `Challenge` of src/framing/connecting.rs: the line with which a server opens the login.
use monetdb_rust.Prelude.{
  ℕ, Bool, true, false, ◌==◌, List, [], ◌∷◌, ◌++◌, if◌then◌else◌, Bytes, codes, same_bytes, none,
  some, Outcome, ok, err, ◌>>=◌, ok_or, parse_uint,
}
use monetdb_rust.Cursor.Notices.{strip_prefix}
use monetdb_rust.Parms.Urls.{split}
use monetdb_rust.Connecting.{ConnectError, invalid_challenge, Endian, big, lit}

-- What the options say.
pub record Options : Type 0 where
  pub sql_handshake_option_level : ℕ
  pub binary : ℕ
  pub clientinfo : Bool

pub record Challenge : Type 0 where
  pub salt : Bytes
  pub server_type : Bytes
  pub response_algos : Bytes
  pub endian : Endian
  pub prehash_algo : Bytes
  pub options : Options

-- `trim_end_matches` on one character.
abbrev pub cons_unless_last : ℕ → ℕ → Bytes → Bytes
cons_unless_last sep c [] = if c == sep then [] else c ∷ []
cons_unless_last sep c (x ∷ xs) = c ∷ x ∷ xs

unfoldable pub trim_end_matches : ℕ → Bytes → Bytes
trim_end_matches sep [] = []
trim_end_matches sep (c ∷ cs) = cons_unless_last sep c (trim_end_matches sep cs)

-- `parts.next()`, with the error where there is none.
abbrev pub next : List Bytes → Bytes → Outcome ConnectError (Bytes × List Bytes)
next [] message = err (invalid_challenge message)
next (part ∷ parts) message = ok (part, parts)

abbrev pub level_of : ℕ → Bytes → Bytes → Outcome ConnectError ℕ
level_of largest text message = ok_or (parse_uint largest text) (invalid_challenge message)

-- `flat_map(|field| field.split(','))`
unfoldable pub option_texts : List Bytes → List Bytes
unfolding split
option_texts [] = []
option_texts (field ∷ fields) = split 44 field ++ option_texts fields

-- One round of the loop over the options.
unfoldable pub read_option : Options → Bytes → Outcome ConnectError Options
unfolding parse_uint
read_option options option = elim (strip_prefix option (codes "sql=")) [
  | some level ↦ do
    n ← level_of 255 level (codes "invalid handshake options level")
    ok (record options { sql_handshake_option_level = n })
  | none ↦ elim (strip_prefix option (codes "BINARY=")) [
    | some level ↦ do
      n ← level_of 65535 level (codes "invalid binary level")
      ok (record options { binary = n })
    | none ↦ elim (strip_prefix option (codes "OOBINTR=")) [
      | some level ↦ do _ ← level_of 65535 level (codes "invalid oobintr level"); ok options
      | none ↦
          if same_bytes option (codes "CLIENTINFO")
          then ok (record options { clientinfo = true })
          else ok options
    ]
  ]
]

unfoldable pub read_options : Options → List Bytes → Outcome ConnectError Options
unfolding read_option
read_options options [] = ok options
read_options options (option ∷ rest) = do
  options' ← read_option options option
  read_options options' rest

abbrev pub no_options : Options
no_options = record { sql_handshake_option_level = 0; binary = 0; clientinfo = false }

unfoldable pub read_protocol : Bytes → Outcome ConnectError (Unit {0})
read_protocol part =
    if same_bytes part (codes "9")
    then ok tt
    else err (invalid_challenge (codes "unknown protocol"))

unfoldable pub read_endian : Bytes → Outcome ConnectError Endian
read_endian part =
    if same_bytes part (codes "BIG")
    then ok big
    else if same_bytes part (codes "LIT")
    then ok lit
    else err (invalid_challenge (codes "invalid endian"))

-- The parts of the line, one after the other.
unfoldable pub read_parts : List Bytes → Outcome ConnectError Challenge
unfolding read_options read_protocol read_endian option_texts
read_parts parts = do
  (salt, parts1) ← next parts (codes "salt missing")
  (server_type, parts2) ← next parts1 (codes "server_type missing")
  (protocol, parts3) ← next parts2 (codes "protocol missing")
  _ ← read_protocol protocol
  (response_algos, parts4) ← next parts3 (codes "hashes missing")
  (endian_name, parts5) ← next parts4 (codes "endian missing")
  endian ← read_endian endian_name
  (prehash_algo, fields) ← next parts5 (codes "password hash algo missing")
  options ← read_options no_options (option_texts fields)
  ok record {
    salt = salt;
    server_type = server_type;
    response_algos = response_algos;
    endian = endian;
    prehash_algo = prehash_algo;
    options = options;
  }

-- `Challenge::new`
unfoldable pub new : Bytes → Outcome ConnectError Challenge
unfolding read_parts trim_end_matches split
new line = read_parts (split 58 (trim_end_matches 58 line))
