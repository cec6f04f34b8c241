-- ===== src/Connecting/ChallengeSound.antt =====
-- What a challenge of src/framing/connecting.rs has been read from.
use monetdb_rust.Prelude.{
  ℕ, ◌≤◌, ◌≡◌, refl, inl, inr, arith, Bool-cases, leb, List, [], ◌∷◌, Bytes, codes, same_bytes,
  Option, none, some, Option-cases, Outcome, ok, err, panic, ok_or, parse_uint, within, read_nat,
  ◌==◌, Returns, Returns-bind,
}
use monetdb_rust.Cursor.Notices.{strip_prefix}
use monetdb_rust.Parms.Parm.Names.{same_bytes-eq}
use monetdb_rust.Parms.Urls.{split}
use monetdb_rust.Connecting.{
  ConnectError, Endian, big, lit, invalid_challenge, parm, tls_downgrade, rejected,
  unexpected_response,
}
use monetdb_rust.Connecting.Trims.{
  TrimsEnd, is_byte, Pieces, split-Pieces, trim_end_matches-TrimsEnd,
}
use monetdb_rust.Connecting.OptionsSound.{
  Verdict, Verdict-bind, Verdict-mono, TextsOf, option_texts-TextsOf, Means, Unreadable,
  read_options-Verdict,
}
use monetdb_rust.Prelude.{true, false, ◌≢◌, ◌⊎◌, ◌>>=◌, get_elem?, drop, length}
use monetdb_rust.Connecting.Challenge.{
  Options, Challenge, trim_end_matches, next, level_of, option_texts, read_option, read_options,
  no_options, read_protocol, read_endian, read_parts, new,
}

-- The levels fit their types.
abbrev pub InRange : Options → Type 0
InRange o = (o.sql_handshake_option_level ≤ 255) × (o.binary ≤ 65535)

abbrev pub endian_text : Endian → Bytes
endian_text big = codes "BIG"
endian_text lit = codes "LIT"

-- What the line says between its colons: the protocol is the third part.
abbrev pub SaysParts : List Bytes → Challenge → Type 0
SaysParts parts c =
    (fields : List Bytes) × (texts : List Bytes) × (parts
      ≡ c.salt
        ∷ c.server_type
        ∷ codes "9"
        ∷ c.response_algos
        ∷ endian_text c.endian
        ∷ c.prehash_algo
        ∷ fields)
    × TextsOf fields texts
    × Means no_options texts c.options
    × InRange c.options

-- Parts that are no challenge: too few, another protocol or byte order, or a level that is no number.
abbrev pub Unfit : List Bytes → Type 0
Unfit parts =
    (length parts ≤ 5)
    ⊎ ((protocol : Bytes) × (get_elem? parts 2 ≡ some protocol) × (protocol ≢ codes "9"))
    ⊎ ((endian : Bytes) × (get_elem? parts 4 ≡ some endian)
        × (endian ≢ codes "BIG")
        × (endian ≢ codes "LIT"))
    ⊎ ((texts : List Bytes) × TextsOf (drop 6 parts) texts × Unreadable texts)

-- The parts of the line without the colons at its end.
abbrev pub PartsOf : Bytes → List Bytes → Type 0
PartsOf line parts = (text : Bytes) × TrimsEnd (is_byte 58) line text × Pieces 58 text parts

abbrev pub Announces : Bytes → Challenge → Type 0
Announces line c = (parts : List Bytes) × PartsOf line parts × SaysParts parts c

abbrev pub Malformed : Bytes → Type 0
Malformed line = (parts : List Bytes) × PartsOf line parts × Unfit parts

within-range :
    (largest : ℕ) (o : Option ℕ) (message : ConnectError)
    → Returns (λ n. n ≤ largest) (ok_or (within largest o) message)
within-range largest none message = tt
within-range largest (some n) message = elim (Bool-cases (leb n largest)) [
  | inl e ↦ rw e (ground arith)
  | inr e ↦ rw e tt
]

level_of-range :
    (largest : ℕ) (text message : Bytes)
    → Returns (λ n. n ≤ largest) (level_of largest text message)
unfolding parse_uint
level_of-range largest [] message = tt
level_of-range largest (c ∷ cs) message = elim (Bool-cases (c == 43)) [
  | inl e ↦ rw e (within-range largest (read_nat cs) _)
  | inr e ↦ rw e (within-range largest (read_nat (c ∷ cs)) _)
]

read_option-InRange :
    (o : Options) (option : Bytes) → InRange o → Returns InRange (read_option o option)
unfolding read_option
read_option-InRange o option h = elim (Option-cases (strip_prefix option (codes "sql="))) [
  | inr (level, e) ↦ rw e (
      Returns-bind (λ n. n ≤ 255) InRange (level_of 255 level _) _ (level_of-range 255 level _)
        (λ n k. (k, h.1)))
  | inl e ↦ elim (Option-cases (strip_prefix option (codes "BINARY="))) [
    | inr (level, e') ↦
        rw (e, e')
          (Returns-bind (λ n. n ≤ 65535) InRange (level_of 65535 level _) _
            (level_of-range 65535 level _) (λ n k. (h.0, k)))
    | inl e' ↦ elim (Option-cases (strip_prefix option (codes "OOBINTR="))) [
      | inr (level, e'') ↦
          rw (e, e', e'')
            (Returns-bind (λ n. n ≤ 65535) InRange (level_of 65535 level _) _
              (level_of-range 65535 level _) (λ n k. h))
      | inl e'' ↦ elim (Bool-cases (same_bytes option (codes "CLIENTINFO"))) [
        | inl c ↦ rw (e, e', e'', c) h
        | inr c ↦ rw (e, e', e'', c) h
      ]
    ]
  ]
]

read_options-InRange :
    (options : List Bytes) (o : Options) → InRange o → Returns InRange (read_options o options)
unfolding read_options
read_options-InRange [] o h = h
read_options-InRange (option ∷ rest) o h =
    Returns-bind InRange InRange (read_option o option) _ (read_option-InRange o option h)
      (λ o' h'. read_options-InRange rest o' h')

Verdict-Returns :
    {A : Type 0} (P Q : A → Type 0) (E : Type 0) (m : Outcome ConnectError A)
    → Verdict P E m
    → Returns Q m
    → Verdict (λ a. P a × Q a) E m
Verdict-Returns P Q E (ok a) h k = (h, k)
Verdict-Returns P Q E (err (invalid_challenge x)) h k = h
Verdict-Returns P Q E (err (parm x)) h k = h
Verdict-Returns P Q E (err tls_downgrade) h k = h
Verdict-Returns P Q E (err (rejected x)) h k = h
Verdict-Returns P Q E (err (unexpected_response x)) h k = h
Verdict-Returns P Q E panic h k = h

next-Verdict :
    (parts : List Bytes) (message : Bytes)
    → Verdict (λ r. parts ≡ r.0 ∷ r.1) (parts ≡ []) (next parts message)
next-Verdict [] message = refl
next-Verdict (part ∷ parts) message = refl

read_protocol-Verdict :
    (part : Bytes) → Verdict (λ _. part ≡ codes "9") (part ≢ codes "9") (read_protocol part)
unfolding read_protocol
read_protocol-Verdict part = elim (Bool-cases (same_bytes part (codes "9"))) [
  | inl e ↦ rw e (same_bytes-eq part (codes "9") e)
  | inr e ↦ rw e (λ k. let wrong : true ≡ false = rw k at e in cc)
]

read_endian-Verdict :
    (part : Bytes)
    → Verdict
        (λ e. part ≡ endian_text e)
        ((part ≢ codes "BIG") × (part ≢ codes "LIT"))
        (read_endian part)
unfolding read_endian
read_endian-Verdict part = elim (Bool-cases (same_bytes part (codes "BIG"))) [
  | inl e ↦ rw e (same_bytes-eq part (codes "BIG") e)
  | inr e ↦ elim (Bool-cases (same_bytes part (codes "LIT"))) [
    | inl e' ↦ rw (e, e') (same_bytes-eq part (codes "LIT") e')
    | inr e' ↦
        rw (e, e')
          (
            (λ k. let wrong : true ≡ false = rw k at e in cc),
            (λ k. let wrong : true ≡ false = rw k at e' in cc),
          )
  ]
]

-- The parts from the byte order on, behind four others.
read_rest :
    (parts : List Bytes) (a b d : Bytes) (parts4 : List Bytes)
    → parts ≡ a ∷ b ∷ codes "9" ∷ d ∷ parts4
    → Verdict (SaysParts parts) (Unfit parts) (do
      (endian_name, parts5) ← next parts4 (codes "endian missing")
      endian ← read_endian endian_name
      (prehash_algo, fields) ← next parts5 (codes "password hash algo missing")
      options ← read_options no_options (option_texts fields)
      ok record {
        salt = a;
        server_type = b;
        response_algos = d;
        endian = endian;
        prehash_algo = prehash_algo;
        options = options;
      })
read_rest parts a b d parts4 e =
    let E = Unfit parts in
    let S : Challenge → Type 0 = SaysParts parts in
    Verdict-bind (λ r. parts4 ≡ r.0 ∷ r.1) S (parts4 ≡ []) E (next parts4 _) _
      (next-Verdict parts4 _) (λ none. inl (rw (e, none) (omega arith)))
      (λ r5 e5.
        Verdict-bind (λ x. r5.0 ≡ endian_text x) S ((r5.0 ≢ codes "BIG") × (r5.0 ≢ codes "LIT")) E
          (read_endian r5.0) _ (read_endian-Verdict r5.0)
          (λ other. inr (inr (inl (r5.0, rw (e, e5) refl, other.0, other.1))))
          (λ endian e6.
            Verdict-bind (λ r. r5.1 ≡ r.0 ∷ r.1) S (r5.1 ≡ []) E (next r5.1 _) _
              (next-Verdict r5.1 _) (λ none. inl (rw (e, e5, none) (omega arith)))
              (λ r7 e7.
                let texts = option_texts r7.1 in
                let Told : Options → Type 0 = λ o. Means no_options texts o × InRange o in
                let shape : parts ≡ a ∷ b ∷ codes "9" ∷ d ∷ r5.0 ∷ r7.0 ∷ r7.1 = cc in
                Verdict-bind Told S (Unreadable texts) E (read_options no_options texts) _
                  (Verdict-Returns (Means no_options texts) InRange (Unreadable texts)
                    (read_options no_options texts) (read_options-Verdict texts no_options)
                    (read_options-InRange texts no_options (omega arith, omega arith)))
                  (λ bad. inr (inr (inr (texts, rw shape (option_texts-TextsOf r7.1), bad))))
                  (λ o k. (r7.1, texts, cc, option_texts-TextsOf r7.1, k.0, k.1)))))

read_parts-Verdict :
    (parts : List Bytes) → Verdict (SaysParts parts) (Unfit parts) (read_parts parts)
unfolding read_parts
read_parts-Verdict parts =
    let E = Unfit parts in
    let S : Challenge → Type 0 = SaysParts parts in
    Verdict-bind (λ r. parts ≡ r.0 ∷ r.1) S (parts ≡ []) E (next parts _) _ (next-Verdict parts _)
      (λ none. inl (rw none (omega arith)))
      (λ r1 e1.
        Verdict-bind (λ r. r1.1 ≡ r.0 ∷ r.1) S (r1.1 ≡ []) E (next r1.1 _) _ (next-Verdict r1.1 _)
          (λ none. inl (rw (e1, none) (omega arith)))
          (λ r2 e2.
            Verdict-bind (λ r. r2.1 ≡ r.0 ∷ r.1) S (r2.1 ≡ []) E (next r2.1 _) _
              (next-Verdict r2.1 _) (λ none. inl (rw (e1, e2, none) (omega arith)))
              (λ r3 e3.
                Verdict-bind (λ _. r3.0 ≡ codes "9") S (r3.0 ≢ codes "9") E (read_protocol r3.0) _
                  (read_protocol-Verdict r3.0)
                  (λ other. inr (inl (r3.0, rw (e1, e2, e3) refl, other)))
                  (λ _ nine.
                    Verdict-bind (λ r. r3.1 ≡ r.0 ∷ r.1) S (r3.1 ≡ []) E (next r3.1 _) _
                      (next-Verdict r3.1 _) (λ none. inl (rw (e1, e2, e3, none) (omega arith)))
                      (λ r4 e4. read_rest parts r1.0 r2.0 r4.0 r4.1 cc)))))

-- Reading a challenge never panics. A challenge that is read is what the line says: between the
-- colons, of which those at the end do not count, stand the salt, the type of the server, the protocol,
-- which is 9, the hashes for the response, BIG or LIT for the byte order, and the hash of passwords. What
-- follows are the options between colons and commas: the last `sql=` and the last `BINARY=` give the
-- levels, at most 255 and 65535, which are 0 without them, and CLIENTINFO sets its flag. A line is refused,
-- as an invalid challenge, only if it has fewer parts, another protocol or byte order, or a level of
-- these or of `OOBINTR=` that is not a number of its type.
pub new-Announces : (line : Bytes) → Verdict (Announces line) (Malformed line) (new line)
unfolding new
new-Announces line =
    let text = trim_end_matches 58 line in
    let parts = split 58 text in
    let of_line : PartsOf line parts =
      (text, trim_end_matches-TrimsEnd 58 line, split-Pieces 58 text) in
    Verdict-mono (SaysParts parts) (Announces line) (Unfit parts) (Malformed line)
      (read_parts parts) (read_parts-Verdict parts) (λ unfit. (parts, of_line, unfit))
      (λ c says. (parts, of_line, says))
