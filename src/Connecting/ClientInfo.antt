-- ===== src/Connecting/ClientInfo.antt =====
-- `ClientInfo` and `SqlForm` of src/framing/connecting.rs: what the client tells about itself.
use monetdb_rust.Prelude.{ℕ, List, [], ◌∷◌, ◌++◌, if◌then◌else◌, Bytes, codes, print_nat}
use monetdb_rust.Parms.Validated.{Validated}
use monetdb_rust.Parms.Validated.Checks.{is_empty}

pub record ClientInfo : Type 0 where
  pub client_hostname : Bytes
  pub application_name : Bytes
  pub client_library : Bytes
  pub client_remark : Bytes
  pub client_pid : ℕ

-- One of the pairs, if it is kept.
unfoldable pub kept : Bytes → Bytes → List (Bytes × Bytes) → List (Bytes × Bytes)
kept key value rest = if is_empty value then rest else (key, value) ∷ rest

unfoldable pub items : ClientInfo → List (Bytes × Bytes)
unfolding kept
items info = kept (codes "ClientHostname") info.client_hostname (
    kept (codes "ApplicationName") info.application_name (
      kept (codes "ClientLibrary") info.client_library (
        kept (codes "ClientRemark") info.client_remark
          ((codes "ClientPid", print_nat info.client_pid) ∷ []))))

-- The loop of `SqlForm`, with the prefix of its next line.
unfoldable pub write_items : Bytes → List (Bytes × Bytes) → Bytes
write_items prefix' [] = []
write_items prefix' ((k, v) ∷ rest) = prefix' ++ (k ++ 61 ∷ v) ++ 10 ∷ write_items [] rest

abbrev pub command : Bytes
command = codes "Xclientinfo "

unfoldable pub sql_form : ClientInfo → Bytes
unfolding write_items items
sql_form info = write_items command (items info)

-- What the parameters say goes before the defaults. `public_name` is the name of this library.
unfoldable pub library_of : Bytes → Bytes → Bytes → Bytes
library_of public_name prefix' library =
    if is_empty prefix' then library else prefix' ++ codes " / " ++ public_name

unfoldable pub client_info_of : (public_name : Bytes) → ClientInfo → Validated → ClientInfo
unfolding library_of
client_info_of public_name info parms = record {
  client_hostname = info.client_hostname;
  application_name =
      if is_empty parms.client_application then info.application_name else parms.client_application;
  client_library = library_of public_name parms.client_prefix info.client_library;
  client_remark = if is_empty parms.client_remark then info.client_remark else parms.client_remark;
  client_pid = info.client_pid;
}
