-- ===== src/Parms/Urls/Secret.antt =====
-- The URL without credentials says nothing about them.
use monetdb_rust.Prelude.{
  ℕ, ◌≡◌, refl, Bool, true, false, Bool-cases, inl, inr, List, [], ◌∷◌, ◌++◌, ◌>>=◌, if◌then◌else◌,
  ℤ, Bytes, codes, Outcome, ok,
}
use monetdb_rust.Parms.Parm.{Parm, iter, as_str, is_core, is_sensitive}
use monetdb_rust.Parms.Percent.{percent_encode}
use monetdb_rust.Parms.Errors.{ParmError}
use monetdb_rust.Parms.Parameters.{Parameters, get, get_bool, get_int, get_str, is_default}
use monetdb_rust.Parms.Urls.Print.{
  host_and_port, written_port, path_text, query_text, url_from_parms, url_without_credentials,
  without_sensitive,
}

-- One parameter of the query, from what is asked of it.
unfoldable entry :
    Parm
    → ℕ
    → Outcome ParmError Bool
    → Outcome ParmError Bytes
    → Outcome ParmError Bytes
    → Outcome ParmError Bytes
    → Outcome ParmError Bytes
entry p sep is_unchanged its_value without behind = do
  unchanged ← is_unchanged
  elim unchanged [
    | true ↦ without
    | false ↦ do
      value ← its_value
      rest ← behind
      ok (sep ∷ as_str p ++ 61 ∷ percent_encode value ++ rest)
  ]

entry-same :
    (p : Parm) (sep : ℕ) {a a' : Outcome ParmError Bool} {b b' c c' d d' : Outcome ParmError Bytes}
    → a ≡ a'
    → b ≡ b'
    → c ≡ c'
    → d ≡ d'
    → entry p sep a b c d ≡ entry p sep a' b' c' d'
entry-same p sep e f g h = cc

-- The URL, from what is asked of the parameters.
unfoldable assembled :
    (is_ipv6 : Bytes → Bool)
    → Outcome ParmError Bool
    → Outcome ParmError ℤ
    → Outcome ParmError Bytes
    → Outcome ParmError Bytes
    → Outcome ParmError Bytes
    → Outcome ParmError Bytes
    → Outcome ParmError Bytes
    → Outcome ParmError Bytes
assembled is_ipv6 a b c d e f g = do
  use_tls ← a
  port ← b
  host ← c
  database ← d
  tableschema ← e
  table ← f
  query ← g
  ok (
      (if use_tls then codes "monetdbs" else codes "monetdb")
      ++ codes "://"
      ++ host_and_port is_ipv6 host (written_port port)
      ++ path_text database tableschema table
      ++ query)

assembled-same :
    (is_ipv6 : Bytes → Bool) {a a' : Outcome ParmError Bool} {b b' : Outcome ParmError ℤ}
    {c c' d d' e e' f f' g g' : Outcome ParmError Bytes}
    → a ≡ a'
    → b ≡ b'
    → c ≡ c'
    → d ≡ d'
    → e ≡ e'
    → f ≡ f'
    → g ≡ g'
    → assembled is_ipv6 a b c d e f g ≡ assembled is_ipv6 a' b' c' d' e' f' g'
assembled-same is_ipv6 h i j k l m n = cc

module _ (self other : Parameters)
    (same : (p : Parm) → is_sensitive p ≡ false → get self p ≡ get other p) where
  is_default-same : (p : Parm) → is_sensitive p ≡ false → is_default self p ≡ is_default other p
  unfolding is_default
  is_default-same p h = rw (same p h) refl

  get_str-same : (p : Parm) → is_sensitive p ≡ false → get_str self p ≡ get_str other p
  unfolding get_str
  get_str-same p h = rw (same p h) refl

  query_text-same :
      (ps : List Parm) (sep : ℕ)
      → query_text self sep (without_sensitive ps) ≡ query_text other sep (without_sensitive ps)
  unfolding query_text entry
  query_text-same [] sep = refl
  query_text-same (p ∷ ps) sep = elim (Bool-cases (is_sensitive p)) [
    | inl secret ↦ rw secret (query_text-same ps sep)
    | inr plain ↦ elim (Bool-cases (is_core p)) [
      | inl core ↦ rw plain (rw (core, query_text) (query_text-same ps sep))
      | inr own ↦ rw plain (
          rw (own, query_text)
            (entry-same p sep (is_default-same p plain) (get_str-same p plain)
              (query_text-same ps sep) (query_text-same ps 38)))
    ]
  ]

  get_bool-same : (p : Parm) → is_sensitive p ≡ false → get_bool self p ≡ get_bool other p
  unfolding get_bool
  get_bool-same p h = rw (same p h) refl

  get_int-same : (p : Parm) → is_sensitive p ≡ false → get_int self p ≡ get_int other p
  unfolding get_int
  get_int-same p h = rw (same p h) refl

  -- Parameters that agree on all but the user and the password have the same URL without credentials.
  pub url_without_credentials-same :
      (is_ipv6 : Bytes → Bool)
      → url_without_credentials is_ipv6 self ≡ url_without_credentials is_ipv6 other
  unfolding url_without_credentials url_from_parms is_sensitive assembled
  url_without_credentials-same is_ipv6 =
      assembled-same is_ipv6 (get_bool-same Parm.tls refl) (get_int-same Parm.port refl)
        (get_str-same Parm.host refl) (get_str-same Parm.database refl)
        (get_str-same Parm.table_schema refl) (get_str-same Parm.table refl)
        (query_text-same iter 63)
