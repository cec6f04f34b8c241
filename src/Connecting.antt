-- ===== src/Connecting.antt =====
-- src/framing/connecting.rs: the answers to a login, and where the server sends the client on to.
pub mod Challenge
pub mod Trims
pub mod OptionsSound
pub mod ChallengeSound
pub mod Redirects
pub mod ClientInfo
pub mod ClientLines
mod Tests
use monetdb_rust.Prelude.{
  ℕ, Bool, true, false, not, ◌&&◌, ◌||◌, List, [], ◌∷◌, if◌then◌else◌, Bytes, codes, drop,
  starts_with, Option, none, some, Outcome, ok, err, panic, ◌>>=◌, ◌>>◌, ensure,
}
use monetdb_rust.Cursor.Notices.{strip_prefix}
use monetdb_rust.Cursor.Replies.Headers.{trim_ascii}
use monetdb_rust.Parms.Errors.{ParmError}
use monetdb_rust.Parms.Parameters.{Parameters}
use monetdb_rust.Parms.Validated.{Validated}
use monetdb_rust.Parms.Validated.Build.{new}
use monetdb_rust.Parms.Validated.Checks.{is_empty}
use monetdb_rust.Parms.Urls.{Url, split}
use monetdb_rust.Parms.Urls.Apply.{apply_url}

-- The errors that the modelled code makes.
pub data ConnectError : Type 0 where
  parm : ParmError → ConnectError
  invalid_challenge : Bytes → ConnectError
  tls_downgrade : ConnectError
  rejected : Bytes → ConnectError
  unexpected_response : Bytes → ConnectError

-- The `?` that makes a `ConnectError` of a `ParmError`.
abbrev pub of_parm {ℓ} : {A : Type ℓ} → Outcome ParmError A → Outcome ConnectError A
of_parm (ok a) = ok a
of_parm (err e) = err (parm e)
of_parm panic = panic

-- `Endian`
pub data Endian : Type 0 where
  big : Endian
  lit : Endian

-- `Sock` stands for the socket and `State` for the state of the server, which are only handed on.
pub data Login (Sock State : Type 0) : Type 0 where
  redirect : Bytes → Login Sock State
  restart : Sock → Login Sock State
  complete : Sock → State → Login Sock State

abbrev pub proxy : Bytes
proxy = codes "mapi:merovingian://proxy"

-- `next().unwrap()` on pieces.
abbrev pub first_piece : List Bytes → Outcome ConnectError Bytes
first_piece [] = panic
first_piece (piece ∷ pieces) = ok piece

unfoldable pub follow :
    {Sock State : Type 0} → Sock → Bytes → Outcome ConnectError (Login Sock State)
unfolding split
follow sock reply = do
  first_line ← first_piece (split 10 reply)
  let target = drop 1 first_line
  if starts_with target proxy then ok (restart sock) else ok (redirect target)

-- `reply` is trimmed.
unfoldable pub answer :
    {Sock State : Type 0} → Sock → State → Bytes → Outcome ConnectError (Login Sock State)
unfolding follow
answer sock state reply =
    if is_empty reply || starts_with reply (codes "=OK")
    then ok (complete sock state)
    else if starts_with reply (codes "^")
    then follow sock reply
    else elim (strip_prefix reply (codes "!")) [
      | some message ↦ err (rejected message)
      | none ↦ elim (strip_prefix reply (codes "#")) [
        | some message ↦ ok (complete sock state)
        | none ↦ err (unexpected_response reply)
      ]
    ]

unfoldable pub process_redirects :
    {Sock State : Type 0} → Sock → State → Bytes → Outcome ConnectError (Login Sock State)
unfolding answer
process_redirects sock state text = answer sock state (trim_ascii text)

-- The parameters of this section are those of the URL parsers and of `Validated::new`.
module _ (url_parse : Bytes → Outcome Bytes Url) (is_utf8 : Bytes → Bool) (quoted : Bytes → Bytes)
    (in_reach : ℕ → Bool) where
  -- With an error the caller gives its parameters up, so that only those of a success are returned.
  unfoldable pub apply_redirect : Parameters → Bytes → Outcome ConnectError Parameters
  unfolding new apply_url
  apply_redirect parms url = do
    before ← of_parm (new in_reach parms)
    parms' ← of_parm (apply_url url_parse is_utf8 quoted parms url)
    let unchecked : Outcome ConnectError Parameters = ok parms'
    if before.tls
        then (do after ← of_parm (new in_reach parms'); ensure after.tls tls_downgrade; ok parms')
        else unchecked
