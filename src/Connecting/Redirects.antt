-- ===== src/Connecting/Redirects.antt =====
-- Where redirects of src/framing/connecting.rs lead to.
use monetdb_rust.Prelude.{
  ℕ, ◌≡◌, ◌≢◌, ◌⊎◌, ◌++◌, ap, refl, inl, inr, Bool, true, false, arith, ◌==◌, Bool-cases, List, [],
  ◌∷◌, Bytes, codes, starts_with, Outcome, ok, err, panic, Returns, Returns-bind,
}
use monetdb_rust.Cursor.Replies.Headers.{trim_ascii}
use monetdb_rust.Parms.Errors.{ParmError}
use monetdb_rust.Parms.Parameters.{Parameters}
use monetdb_rust.Parms.Parameters.Slots.{WellFormed}
use monetdb_rust.Parms.Validated.{Validated}
use monetdb_rust.Parms.Validated.Build.{new}
use monetdb_rust.Parms.Validated.Sensible.{Sensible, new-Sensible}
use monetdb_rust.Parms.Urls.{Url, split}
use monetdb_rust.Parms.Urls.Apply.{apply_url}
use monetdb_rust.Parms.Urls.Keeps.{apply_url-WellFormed}
use monetdb_rust.Cursor.Notices.{is_whitespace}
use monetdb_rust.Connecting.Trims.{Without, Trims, trim_ascii-Trims}
use monetdb_rust.Connecting.{
  ConnectError, of_parm, Login, rejected, unexpected_response, redirect, restart, complete, proxy,
  follow, answer, process_redirects, apply_redirect,
}

-- The first line of a reply: all of it, or up to its first newline.
abbrev pub IsFirstLine : Bytes → Bytes → Type 0
IsFirstLine reply line =
    Without 10 line × ((reply ≡ line) ⊎ ((rest : Bytes) × (reply ≡ line ++ 10 ∷ rest)))

-- How a login goes on: the URL to redirect to is the first line behind a `^`, unless it is the proxy's.
abbrev pub Leads : {Sock State : Type 0} → Sock → State → Bytes → Login Sock State → Type 0
Leads sock state reply (redirect url) =
    IsFirstLine reply (94 ∷ url) × (starts_with url proxy ≡ false)
Leads sock state reply (restart s) =
    (s ≡ sock) × (line : Bytes) × IsFirstLine reply (94 ∷ line) × (starts_with line proxy ≡ true)
Leads sock state reply (complete s t) =
    (s ≡ sock)
    × (t ≡ state)
    × ((reply ≡ [])
        ⊎ (starts_with reply (codes "=OK") ≡ true)
        ⊎ (starts_with reply (codes "#") ≡ true))

abbrev pub Refuses : Bytes → ConnectError → Type 0
Refuses reply (rejected message) = reply ≡ 33 ∷ message
Refuses reply (unexpected_response text) =
    (text ≡ reply)
    × (reply ≢ [])
    × (starts_with reply (codes "=OK") ≡ false)
    × (starts_with reply (codes "^") ≡ false)
    × (starts_with reply (codes "!") ≡ false)
    × (starts_with reply (codes "#") ≡ false)
Refuses reply _ = ⊥

abbrev pub Answers :
    {Sock State : Type 0} → Sock → State → Bytes → Outcome ConnectError (Login Sock State) → Type 0
Answers sock state reply (ok login) = Leads sock state reply login
Answers sock state reply (err e) = Refuses reply e
Answers sock state reply panic = ⊥

-- A text is the piece, or the piece and then the byte.
abbrev Cuts : ℕ → Bytes → Bytes → Type 0
Cuts sep xs piece = (xs ≡ piece) ⊎ ((rest : Bytes) × (xs ≡ piece ++ sep ∷ rest))

Cuts-cons : (sep c : ℕ) (xs piece : Bytes) → Cuts sep xs piece → Cuts sep (c ∷ xs) (c ∷ piece)
Cuts-cons sep c xs piece (inl e) = inl (ap (◌∷◌ c) e)
Cuts-cons sep c xs piece (inr (rest, e)) = inr (rest, ap (◌∷◌ c) e)

split-first :
    (sep : ℕ) (xs : Bytes)
    → (piece : Bytes) × (pieces : List Bytes) × (split sep xs ≡ piece ∷ pieces)
      × Without sep piece
      × Cuts sep xs piece
unfolding split
split-first sep [] = ([], [], refl, tt, inl refl)
split-first sep (c ∷ cs) = elim (Bool-cases (c == sep)) [
  | inl e ↦
      let same : c ≡ sep = ground arith in ([], split sep cs, rw e refl, tt, inr (cs, rw same refl))
  | inr e ↦
      let (piece, pieces, shape, free, cut) = split-first sep cs in
      (c ∷ piece, pieces, rw e (rw shape refl), (e, free), Cuts-cons sep c cs piece cut)
]

follow-Answers :
    {Sock State : Type 0} (sock : Sock) (state : State) (xs : Bytes)
    → Answers {State = State} sock state (94 ∷ xs) (follow sock (94 ∷ xs))
unfolding follow split
follow-Answers sock state xs =
    let (piece, pieces, shape, free, cut) = split-first 10 xs in
    let first = Cuts-cons 10 94 xs piece cut in
    elim (Bool-cases (starts_with piece proxy)) [
      | inl e ↦ rw shape (rw e (refl, piece, ((refl, free), first), e))
      | inr e ↦ rw shape (rw e (((refl, free), first), e))
    ]

answer-Answers :
    {Sock State : Type 0} (sock : Sock) (state : State) (reply : Bytes)
    → Answers sock state reply (answer sock state reply)
unfolding answer
answer-Answers sock state [] = (refl, refl, inl refl)
answer-Answers sock state (c ∷ cs) = elim (Bool-cases (starts_with (c ∷ cs) (codes "=OK"))) [
  | inl e ↦ rw e (refl, refl, inr (inl e))
  | inr e ↦ elim (Bool-cases (c == 94)) [
    | inl e1 ↦
        let same : c ≡ 94 = ground arith in rw e (rw e1 (rw same (follow-Answers sock state cs)))
    | inr e1 ↦ elim (Bool-cases (c == 33)) [
      | inl e2 ↦ let same : c ≡ 33 = ground arith in rw e (rw e1 (rw e2 (rw same refl)))
      | inr e2 ↦ elim (Bool-cases (c == 35)) [
        | inl e3 ↦ rw e (rw (e1, e2, e3) (refl, refl, inr (inr (rw e3 refl))))
        | inr e3 ↦ rw e (rw (e1, e2, e3) (refl, (λ k. cc), e, rw e1 refl, rw e2 refl, rw e3 refl))
      ]
    ]
  ]
]

-- The answer to a login is read without a panic, whatever it is, by the first bytes behind its leading
-- whitespace, and the whitespace at its end does not count either. It completes the
-- login on the same socket if it is empty or begins with `=OK` or `#`; behind `^` it sends the client on
-- to the URL in its first line, or back to the login on the same socket if that begins like the proxy's;
-- behind `!` it is a rejection with its message; any other is an error that quotes it.
pub process_redirects-Answers :
    {Sock State : Type 0} (sock : Sock) (state : State) (text : Bytes)
    → (reply : Bytes) × Trims is_whitespace text reply
      × Answers sock state reply (process_redirects sock state text)
unfolding process_redirects
process_redirects-Answers sock state text =
    (trim_ascii text, trim_ascii-Trims text, answer-Answers sock state (trim_ascii text))

-- Both lists of parameters are valid, and the second asks for TLS if the first does.
abbrev pub Follows : (ℕ → Bool) → Parameters → Parameters → Type 0
Follows in_reach parms parms' =
    WellFormed parms'
    × (before : Validated) × (new in_reach parms ≡ ok before)
    × ((before.tls ≡ false)
        ⊎ ((after : Validated) × (new in_reach parms' ≡ ok after) × (after.tls ≡ true)))

Returns-of_parm :
    {A : Type 0} (P : A → Type 0) (m : Outcome ParmError A)
    → Returns P m
    → Returns (λ a. P a × (m ≡ ok a)) (of_parm m)
Returns-of_parm P (ok a) h = (h, refl)
Returns-of_parm P (err e) h = tt
Returns-of_parm P panic h = h

module _ (url_parse : Bytes → Outcome Bytes Url) (is_utf8 : Bytes → Bool) (quoted : Bytes → Bytes)
    (in_reach : ℕ → Bool) (parse_returns : (url : Bytes) → url_parse url ≢ panic) where
  -- If the parser of the `url` crate does not panic, following a redirect from well-formed parameters
  -- does not either, for any URL. Where it succeeds, the new parameters are well-formed, the old ones were
  -- valid, and if these ask for TLS then the new ones are valid and ask for TLS too.
  pub apply_redirect-Follows :
      (parms : Parameters) (url : Bytes)
      → WellFormed parms
      → Returns
          (Follows in_reach parms)
          (apply_redirect url_parse is_utf8 quoted in_reach parms url)
  unfolding apply_redirect
  apply_redirect-Follows parms url w =
      let Q : Parameters → Type 0 = Follows in_reach parms in
      let V : Parameters → Validated → Type 0 =
        λ p v. Sensible in_reach v × (new in_reach p ≡ ok v) in
      Returns-bind (V parms) Q (of_parm (new in_reach parms)) _
        (Returns-of_parm (Sensible in_reach) (new in_reach parms) (new-Sensible in_reach parms w))
        (λ before hb.
          Returns-bind (λ p. WellFormed p × (apply_url url_parse is_utf8 quoted parms url ≡ ok p)) Q
            (of_parm (apply_url url_parse is_utf8 quoted parms url)) _
            (Returns-of_parm WellFormed (apply_url url_parse is_utf8 quoted parms url)
              (apply_url-WellFormed url_parse is_utf8 quoted parse_returns parms url w))
            (λ parms' hp. elim (Bool-cases before.tls) [
              | inr e ↦ rw e (hp.0, before, hb.1, inl e)
              | inl e ↦ rw e (
                  Returns-bind (V parms') Q (of_parm (new in_reach parms')) _
                    (Returns-of_parm (Sensible in_reach) (new in_reach parms')
                      (new-Sensible in_reach parms' hp.0))
                    (λ after ha. elim (Bool-cases after.tls) [
                      | inl k ↦ rw k (hp.0, before, hb.1, inr (after, ha.1, k))
                      | inr k ↦ rw k tt
                    ]))
            ]))
