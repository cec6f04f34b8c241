-- ===== src/Parms/Urls/Keeps.antt =====
-- URLs leave parameters well-formed.
use monetdb_rust.Prelude.{
  ◌≢◌, refl, Bool, true, false, Bool-cases, inl, inr, List, [], ◌∷◌, Bytes, Option, none, some,
  Outcome, ok, err, panic, Option-cases, codes, same_bytes, starts_with, drop, ◌>>=◌, ◌>>◌, ensure,
  Returns, Returns-bind,
}
use monetdb_rust.Parms.Parm.{Parm}
use monetdb_rust.Parms.Parm.{from_str, ignored, is_core}
use monetdb_rust.Parms.Errors.{ParmError, invalid_url}
use monetdb_rust.Parms.Percent.{percent_decode}
use monetdb_rust.Parms.Percent.Total.{Calm, Calm-bind, percent_decode-Calm}
use monetdb_rust.Parms.Urls.{
  Url, Host, domain, ipv4, ipv6, set_query, set_legacy_pair, set_legacy_query, split_once,
}
use monetdb_rust.Parms.Urls.Parse.{
  parse_url, host_text, set_path, set_path_segments, parse_monetdb_url, legacy_database,
  set_legacy_place, parse_legacy_url, parse_any_url, legacy_parts,
}
use monetdb_rust.Parms.Urls.Apply.{apply_url}
use monetdb_rust.Parms.Value.{Value, str}
use monetdb_rust.Parms.Parameters.{Parameters, set, boundary}
use monetdb_rust.Parms.Parameters.Slots.{WellFormed}
use monetdb_rust.Parms.Parameters.Resets.{Sets, set-Sets, boundary-Bounded}

pub set-WellFormed :
    (self : Parameters) (p : Parm) (v : Value) → WellFormed self → Returns WellFormed (set self p v)
set-WellFormed self p v w = go (set self p v) (set-Sets self p v w)
  where
    go : (m : Outcome ParmError Parameters) → Sets self p v m → Returns WellFormed m
    go (ok self') (old, r) = r.wellformed
    go (err x) h = tt
    go panic h = h

pub boundary-WellFormed : (self : Parameters) → WellFormed self → Returns WellFormed (boundary self)
boundary-WellFormed self w = let (self', e, b) = boundary-Bounded self w in rw e b.wellformed

module _ (url_parse : Bytes → Outcome Bytes Url) (is_utf8 : Bytes → Bool) (quoted : Bytes → Bytes)
    (parse_returns : (url : Bytes) → url_parse url ≢ panic) where
  parse_url-Calm : (url : Bytes) → Calm (parse_url url_parse is_utf8 quoted url)
  unfolding parse_url
  parse_url-Calm url = go (url_parse url) (parse_returns url)
    where
      go :
          (m : Outcome Bytes Url)
          → m ≢ panic
          → Calm (elim m [ ok u ↦ ok u | err e ↦ err (invalid_url e) | panic ↦ panic ])
      go (ok u) h = tt
      go (err e) h = tt
      go panic h = h refl

  -- Setting a value, and going on.
  set-then :
      (self : Parameters) (p : Parm) (v : Value) (f : Parameters → Outcome ParmError Parameters)
      → WellFormed self
      → ((self' : Parameters) → WellFormed self' → Returns WellFormed (f self'))
      → Returns WellFormed (set self p v >>= f)
  set-then self p v f w k =
      Returns-bind WellFormed WellFormed (set self p v) f (set-WellFormed self p v w) k

  -- A part that is only looked at.
  Calm-then :
      {A : Type 0} (m : Outcome ParmError A) (f : A → Outcome ParmError Parameters)
      → Calm m
      → ((a : A) → Returns WellFormed (f a))
      → Returns WellFormed (m >>= f)
  Calm-then m f h k = Returns-bind (λ _. Unit {0}) WellFormed m f h (λ a _. k a)

  ensure-then :
      (b : Bool) (e : ParmError) (rest : Outcome ParmError Parameters)
      → Returns WellFormed rest
      → Returns WellFormed (ensure b e >> rest)
  ensure-then true e rest h = h
  ensure-then false e rest h = tt

  set_path-WellFormed :
      (ps : List Parm) (self : Parameters) (segments : List Bytes)
      → WellFormed self
      → Returns WellFormed (set_path url_parse is_utf8 quoted ps self segments)
  unfolding set_path
  set_path-WellFormed [] self [] w = w
  set_path-WellFormed (p ∷ ps) self [] w = w
  set_path-WellFormed [] self (unexpected ∷ rest) w = tt
  set_path-WellFormed (p ∷ ps) self (segment ∷ rest) w =
      Calm-then (percent_decode is_utf8 segment) _ (percent_decode-Calm is_utf8 segment) (λ value.
        set-then self p (str value) _ w (λ self' w'. set_path-WellFormed ps self' rest w'))

  set_query-WellFormed :
      (pairs : List (Bytes × Bytes)) (self : Parameters)
      → WellFormed self
      → Returns WellFormed (set_query self pairs)
  unfolding set_query
  set_query-WellFormed [] self w = w
  set_query-WellFormed ((k, v) ∷ rest) self w = elim (Option-cases (from_str k)) [
    | inl e ↦ elim (Bool-cases (ignored k)) [
      | inl i ↦ rw (e, set_query) (rw (i, set_query) (set_query-WellFormed rest self w))
      | inr i ↦ rw (e, set_query) (rw (i, set_query) tt)
    ]
    | inr (parm, e) ↦ elim (Bool-cases (is_core parm)) [
      | inl c ↦ rw (e, set_query) (rw (c, set_query) tt)
      | inr c ↦
          rw (e, set_query)
            (rw (c, set_query)
              (set-then self parm (str v) _ w (λ self' w'. set_query-WellFormed rest self' w')))
    ]
  ]

  host_text-Calm : (host : Option Host) → Calm (host_text url_parse is_utf8 quoted host)
  unfolding host_text
  host_text-Calm none = tt
  host_text-Calm (some (ipv4 ip)) = tt
  host_text-Calm (some (ipv6 ip)) = tt
  host_text-Calm (some (domain dom)) =
      Calm-bind (percent_decode is_utf8 dom) _ (percent_decode-Calm is_utf8 dom) (λ _. tt)

  set_path_segments-WellFormed :
      (segments : Option (List Bytes)) (self : Parameters)
      → WellFormed self
      → Returns WellFormed (set_path_segments url_parse is_utf8 quoted self segments)
  unfolding set_path_segments
  set_path_segments-WellFormed none self w = w
  set_path_segments-WellFormed (some segments) self w =
      set_path-WellFormed (Parm.database ∷ Parm.table_schema ∷ Parm.table ∷ []) self segments w

  parse_monetdb_url-WellFormed :
      (self : Parameters) (use_tls : Bool) (url : Bytes)
      → WellFormed self
      → Returns WellFormed (parse_monetdb_url url_parse is_utf8 quoted self use_tls url)
  unfolding parse_monetdb_url
  parse_monetdb_url-WellFormed self use_tls url w =
      Calm-then (parse_url url_parse is_utf8 quoted url) _ (parse_url-Calm url) (λ parsed.
        ensure-then _ _ _ (
          set-then self Parm.tls _ _ w (λ first w1.
            Calm-then (host_text url_parse is_utf8 quoted parsed.host) _
              (host_text-Calm parsed.host)
              (λ host. set-then first Parm.host _ _ w1 (λ second w2.
                set-then second Parm.port _ _ w2 (λ placed w3.
                  Returns-bind WellFormed WellFormed
                    (set_path_segments url_parse is_utf8 quoted placed parsed.path_segments) _
                    (set_path_segments-WellFormed parsed.path_segments placed w3)
                    (λ located w4. set_query-WellFormed parsed.query_pairs located w4)))))))

  legacy_database-Calm :
      (segments : Option (List Bytes)) → Calm (legacy_database url_parse is_utf8 quoted segments)
  unfolding legacy_database
  legacy_database-Calm none = tt
  legacy_database-Calm (some []) = tt
  legacy_database-Calm (some (db ∷ [])) = tt
  legacy_database-Calm (some (db ∷ c ∷ cs)) = tt

  set_legacy_place-WellFormed :
      (self : Parameters) (parsed : Url)
      → WellFormed self
      → Returns WellFormed (set_legacy_place url_parse is_utf8 quoted self parsed)
  unfolding set_legacy_place
  set_legacy_place-WellFormed self parsed w = elim (Option-cases parsed.host_str) [
    | inl e ↦
        rw (e, set_legacy_place)
          (set-then self Parm.host _ _ w (λ first w1.
            set-then first Parm.sock _ _ w1
              (λ second w2. set-WellFormed second Parm.database _ w2)))
    | inr (host, e) ↦
        rw (e, set_legacy_place)
          (set-then self Parm.host _ _ w (λ first w1. set-then first Parm.sock _ _ w1 (λ second w2.
            Calm-then (legacy_database url_parse is_utf8 quoted parsed.path_segments) _
              (legacy_database-Calm parsed.path_segments)
              (λ db. set-WellFormed second Parm.database _ w2))))
  ]

  set_legacy_pair-WellFormed :
      (pair : Option (Bytes × Bytes)) (self : Parameters)
      → WellFormed self
      → Returns WellFormed (set_legacy_pair self pair)
  unfolding set_legacy_pair
  set_legacy_pair-WellFormed none self w = w
  set_legacy_pair-WellFormed (some (k, v)) self w =
      elim (Bool-cases (same_bytes k (codes "language"))) [
        | inl e ↦ rw e (set-WellFormed self Parm.language _ w)
        | inr e ↦ elim (Bool-cases (same_bytes k (codes "database"))) [
          | inl e' ↦ rw (e, e') (set-WellFormed self Parm.database _ w)
          | inr e' ↦ rw (e, e') w
        ]
      ]

  set_legacy_query-WellFormed :
      (parts : List Bytes) (self : Parameters)
      → WellFormed self
      → Returns WellFormed (set_legacy_query self parts)
  unfolding set_legacy_query
  set_legacy_query-WellFormed [] self w = w
  set_legacy_query-WellFormed (x ∷ rest) self w =
      Returns-bind WellFormed WellFormed (set_legacy_pair self (split_once 61 x)) _
        (set_legacy_pair-WellFormed (split_once 61 x) self w)
        (λ self' w'. set_legacy_query-WellFormed rest self' w')

  parse_legacy_url-WellFormed :
      (self : Parameters) (url : Bytes)
      → WellFormed self
      → Returns WellFormed (parse_legacy_url url_parse is_utf8 quoted self url)
  unfolding parse_legacy_url
  parse_legacy_url-WellFormed self url w =
      Calm-then (parse_url url_parse is_utf8 quoted (drop 5 url)) _ (parse_url-Calm (drop 5 url))
        (λ parsed. ensure-then _ _ _ (
          Returns-bind WellFormed WellFormed (set_legacy_place url_parse is_utf8 quoted self parsed)
            _ (set_legacy_place-WellFormed self parsed w)
            (λ placed w'. set-then placed Parm.port _ _ w' (λ self' w''.
              set_legacy_query-WellFormed (legacy_parts url_parse is_utf8 quoted parsed.query) self'
                w''))))

  parse_any_url-WellFormed :
      (self : Parameters) (url : Bytes)
      → WellFormed self
      → Returns WellFormed (parse_any_url url_parse is_utf8 quoted self url)
  unfolding parse_any_url
  parse_any_url-WellFormed self url w = elim (Bool-cases (starts_with url (codes "monetdb://"))) [
    | inl e ↦ rw e (parse_monetdb_url-WellFormed self false url w)
    | inr e ↦ elim (Bool-cases (starts_with url (codes "monetdbs://"))) [
      | inl e' ↦ rw (e, e') (parse_monetdb_url-WellFormed self true url w)
      | inr e' ↦ elim (Bool-cases (starts_with url (codes "mapi:monetdb://"))) [
        | inl e'' ↦ rw (e, e', e'') (parse_legacy_url-WellFormed self url w)
        | inr e'' ↦ rw (e, e', e'') tt
      ]
    ]
  ]

  -- If the parser of the `url` crate does not panic, applying a URL to well-formed parameters does not
  -- either, for any text; it gives well-formed parameters or an error.
  pub apply_url-WellFormed :
      (self : Parameters) (url : Bytes)
      → WellFormed self
      → Returns WellFormed (apply_url url_parse is_utf8 quoted self url)
  unfolding apply_url
  apply_url-WellFormed self url w =
      Returns-bind WellFormed WellFormed (boundary self) _ (boundary-WellFormed self w)
        (λ updated w'.
          Returns-bind WellFormed WellFormed (parse_any_url url_parse is_utf8 quoted updated url) _
            (parse_any_url-WellFormed updated url w')
            (λ parsed w''. boundary-WellFormed parsed w''))
