-- ===== src/Connecting/OptionsSound.antt =====
-- What the options of a challenge of src/framing/connecting.rs mean.
use monetdb_rust.Prelude.{
  ℕ, ◌≡◌, refl, ap, ◌∙◌, ◌⊎◌, inl, inr, Bool, true, false, Bool-cases, List, [], ◌∷◌, ◌++◌, Bytes,
  codes, same_bytes, starts_with, none, some, Option-cases, Outcome, ok, err, panic, ◌>>=◌,
  parse_uint,
}
use monetdb_rust.Cursor.Notices.{strip_prefix}
use monetdb_rust.Parms.Parm.Names.{same_bytes-eq}
use monetdb_rust.Parms.Urls.{split}
use monetdb_rust.Connecting.{
  ConnectError, invalid_challenge, parm, tls_downgrade, rejected, unexpected_response,
}
use monetdb_rust.Connecting.Challenge.{Options, option_texts, level_of, read_option, read_options}
use monetdb_rust.Connecting.Trims.{Pieces, split-Pieces, strip_prefix-some, strip_prefix-none}

-- What holds of a result, and what holds where there is an error.
abbrev pub Verdict : {A : Type 0} → (A → Type 0) → Type 0 → Outcome ConnectError A → Type 0
Verdict P E (ok a) = P a
Verdict P E (err (invalid_challenge _)) = E
Verdict P E (err _) = ⊥
Verdict P E panic = ⊥

pub Verdict-bind :
    {A B : Type 0} (P : A → Type 0) (Q : B → Type 0) (D E : Type 0) (m : Outcome ConnectError A)
    (f : A → Outcome ConnectError B)
    → Verdict P D m
    → (D → E)
    → ((a : A) → P a → Verdict Q E (f a))
    → Verdict Q E (m >>= f)
Verdict-bind P Q D E (ok a) f h e k = k a h
Verdict-bind P Q D E (err (invalid_challenge x)) f h e k = e h
Verdict-bind P Q D E (err (parm x)) f h e k = h
Verdict-bind P Q D E (err tls_downgrade) f h e k = h
Verdict-bind P Q D E (err (rejected x)) f h e k = h
Verdict-bind P Q D E (err (unexpected_response x)) f h e k = h
Verdict-bind P Q D E panic f h e k = h

pub Verdict-mono :
    {A : Type 0} (P Q : A → Type 0) (D E : Type 0) (m : Outcome ConnectError A)
    → Verdict P D m
    → (D → E)
    → ((a : A) → P a → Q a)
    → Verdict Q E m
Verdict-mono P Q D E (ok a) h e k = k a h
Verdict-mono P Q D E (err (invalid_challenge x)) h e k = e h
Verdict-mono P Q D E (err (parm x)) h e k = h
Verdict-mono P Q D E (err tls_downgrade) h e k = h
Verdict-mono P Q D E (err (rejected x)) h e k = h
Verdict-mono P Q D E (err (unexpected_response x)) h e k = h
Verdict-mono P Q D E panic h e k = h

-- The options are what stands between the commas of the fields.
abbrev pub TextsOf : List Bytes → List Bytes → Type 0
TextsOf [] texts = texts ≡ []
TextsOf (field ∷ fields) texts =
    (front : List Bytes) × (behind : List Bytes) × (texts ≡ front ++ behind)
    × Pieces 44 field front
    × TextsOf fields behind

pub option_texts-TextsOf : (fields : List Bytes) → TextsOf fields (option_texts fields)
unfolding option_texts
option_texts-TextsOf [] = refl
option_texts-TextsOf (field ∷ fields) =
    (split 44 field, option_texts fields, refl, split-Pieces 44 field, option_texts-TextsOf fields)

abbrev sql : Bytes
sql = codes "sql="

abbrev binary_text : Bytes
binary_text = codes "BINARY="

abbrev oobintr : Bytes
oobintr = codes "OOBINTR="

abbrev flag : Bytes
flag = codes "CLIENTINFO"

abbrev pub NoneBegins : Bytes → List Bytes → Type 0
NoneBegins prefix' [] = Unit
NoneBegins prefix' (text ∷ texts) = (starts_with text prefix' ≡ false) × NoneBegins prefix' texts

-- A level is that of the last text with the prefix, or the one from before if there is none.
abbrev pub LevelOf : Bytes → ℕ → List Bytes → ℕ → ℕ → Type 0
LevelOf prefix' largest texts before level =
    (NoneBegins prefix' texts × (level ≡ before))
    ⊎ ((front : List Bytes) × (digits : Bytes) × (behind : List Bytes) × (texts
          ≡ front ++ (prefix' ++ digits) ∷ behind)
        × NoneBegins prefix' behind
        × (parse_uint largest digits ≡ some level))

abbrev pub NoneIs : Bytes → List Bytes → Type 0
NoneIs word [] = Unit
NoneIs word (text ∷ texts) = (same_bytes text word ≡ false) × NoneIs word texts

abbrev pub FlagOf : Bytes → List Bytes → Bool → Bool → Type 0
FlagOf word texts before b =
    (NoneIs word texts × (b ≡ before))
    ⊎ ((front : List Bytes) × (behind : List Bytes) × (texts ≡ front ++ word ∷ behind) × (b ≡ true))

-- Some text has the prefix of a level, and no number within its type behind it.
abbrev pub BadLevel : List Bytes → Bytes → ℕ → Type 0
BadLevel texts prefix' largest =
    (front : List Bytes) × (digits : Bytes) × (behind : List Bytes) × (texts
      ≡ front ++ (prefix' ++ digits) ∷ behind)
    × (parse_uint largest digits ≡ none)

abbrev pub Unreadable : List Bytes → Type 0
Unreadable texts =
    BadLevel texts (codes "sql=") 255
    ⊎ BadLevel texts (codes "BINARY=") 65535
    ⊎ BadLevel texts (codes "OOBINTR=") 65535

abbrev pub Means : Options → List Bytes → Options → Type 0
Means o texts o' =
    LevelOf (codes "sql=") 255 texts o.sql_handshake_option_level o'.sql_handshake_option_level
    × LevelOf (codes "BINARY=") 65535 texts o.binary o'.binary
    × FlagOf (codes "CLIENTINFO") texts o.clientinfo o'.clientinfo

-- One text.
abbrev LevelStep : Bytes → ℕ → Bytes → ℕ → ℕ → Type 0
LevelStep prefix' largest text before level =
    ((starts_with text prefix' ≡ false) × (level ≡ before))
    ⊎ ((digits : Bytes) × (text ≡ prefix' ++ digits) × (parse_uint largest digits ≡ some level))

abbrev FlagStep : Bytes → Bytes → Bool → Bool → Type 0
FlagStep word text before b =
    ((same_bytes text word ≡ false) × (b ≡ before)) ⊎ ((text ≡ word) × (b ≡ true))

abbrev Step : Options → Bytes → Options → Type 0
Step o text o' =
    LevelStep sql 255 text o.sql_handshake_option_level o'.sql_handshake_option_level
    × LevelStep binary_text 65535 text o.binary o'.binary
    × FlagStep flag text o.clientinfo o'.clientinfo

LevelOf-step :
    (prefix' : Bytes) (largest : ℕ) (text : Bytes) (texts : List Bytes) (before between level : ℕ)
    → LevelStep prefix' largest text before between
    → LevelOf prefix' largest texts between level
    → LevelOf prefix' largest (text ∷ texts) before level
LevelOf-step prefix' largest text texts before between level step
      (inr (front, digits, behind, e, last, parsed)) =
    inr (text ∷ front, digits, behind, ap (◌∷◌ text) e, last, parsed)
LevelOf-step prefix' largest text texts before between level (inl (other, same)) (inl (last, e)) =
    inl ((other, last), e ∙ same)
LevelOf-step prefix' largest text texts before between level (inr (digits, shape, parsed))
      (inl (last, e)) =
    inr ([], digits, texts, rw shape refl, last, rw e parsed)

FlagOf-step :
    (word text : Bytes) (texts : List Bytes) (before between b : Bool)
    → FlagStep word text before between
    → FlagOf word texts between b
    → FlagOf word (text ∷ texts) before b
FlagOf-step word text texts before between b step (inr (front, behind, e, on)) =
    inr (text ∷ front, behind, ap (◌∷◌ text) e, on)
FlagOf-step word text texts before between b (inl (other, same)) (inl (last, e)) =
    inl ((other, last), e ∙ same)
FlagOf-step word text texts before between b (inr (is, on)) (inl (last, e)) =
    inr ([], texts, rw is refl, e ∙ on)

Unreadable-later :
    (text : Bytes) (texts : List Bytes) → Unreadable texts → Unreadable (text ∷ texts)
Unreadable-later text texts (inl (front, digits, behind, e, bad)) =
    inl (text ∷ front, digits, behind, ap (◌∷◌ text) e, bad)
Unreadable-later text texts (inr (inl (front, digits, behind, e, bad))) =
    inr (inl (text ∷ front, digits, behind, ap (◌∷◌ text) e, bad))
Unreadable-later text texts (inr (inr (front, digits, behind, e, bad))) =
    inr (inr (text ∷ front, digits, behind, ap (◌∷◌ text) e, bad))

level_of-Verdict :
    (largest : ℕ) (text message : Bytes)
    → Verdict
        (λ n. parse_uint largest text ≡ some n)
        (parse_uint largest text ≡ none)
        (level_of largest text message)
level_of-Verdict largest text message = elim (Option-cases (parse_uint largest text)) [
  | inl e ↦ rw e refl
  | inr (n, e) ↦ rw e refl
]

-- The first text of some.
BadLevel-first :
    (prefix' digits text : Bytes) (texts : List Bytes) (largest : ℕ)
    → text ≡ prefix' ++ digits
    → parse_uint largest digits ≡ none
    → BadLevel (text ∷ texts) prefix' largest
BadLevel-first prefix' digits text texts largest shape bad = ([], digits, texts, rw shape refl, bad)

read_option-Verdict :
    (o : Options) (text : Bytes) (texts : List Bytes)
    → Verdict (Step o text) (Unreadable (text ∷ texts)) (read_option o text)
unfolding read_option
read_option-Verdict o text texts = elim (Option-cases (strip_prefix text sql)) [
  | inr (level, e) ↦
      let shape = strip_prefix-some text sql level e in
      rw e (
        Verdict-bind (λ n. parse_uint 255 level ≡ some n) (Step o text)
          (parse_uint 255 level ≡ none) (Unreadable (text ∷ texts)) (level_of 255 level _) _
          (level_of-Verdict 255 level _)
          (λ bad. inl (BadLevel-first sql level text texts 255 shape bad))
          (λ n k. (inr (level, shape, k), inl (rw shape refl, refl), inl (rw shape refl, refl))))
  | inl e ↦ elim (Option-cases (strip_prefix text binary_text)) [
    | inr (level, e') ↦
        let shape = strip_prefix-some text binary_text level e' in
        rw (e, e')
          (Verdict-bind (λ n. parse_uint 65535 level ≡ some n) (Step o text)
            (parse_uint 65535 level ≡ none) (Unreadable (text ∷ texts)) (level_of 65535 level _) _
            (level_of-Verdict 65535 level _)
            (λ bad. inr (inl (BadLevel-first binary_text level text texts 65535 shape bad)))
            (λ n k. (inl (rw shape refl, refl), inr (level, shape, k), inl (rw shape refl, refl))))
    | inl e' ↦ elim (Option-cases (strip_prefix text oobintr)) [
      | inr (level, e'') ↦
          let shape = strip_prefix-some text oobintr level e'' in
          rw (e, e', e'')
            (Verdict-bind (λ n. parse_uint 65535 level ≡ some n) (Step o text)
              (parse_uint 65535 level ≡ none) (Unreadable (text ∷ texts)) (level_of 65535 level _) _
              (level_of-Verdict 65535 level _)
              (λ bad. inr (inr (BadLevel-first oobintr level text texts 65535 shape bad)))
              (λ n k.
                (inl (rw shape refl, refl), inl (rw shape refl, refl), inl (rw shape refl, refl))))
      | inl e'' ↦
          let no_sql = strip_prefix-none text sql e in
          let no_binary = strip_prefix-none text binary_text e' in
          elim (Bool-cases (same_bytes text flag)) [
            | inl c ↦
                rw (e, e', e'', c)
                  (inl (no_sql, refl), inl (no_binary, refl), inr (same_bytes-eq text flag c, refl))
            | inr c ↦ rw (e, e', e'', c) (inl (no_sql, refl), inl (no_binary, refl), inl (c, refl))
          ]
    ]
  ]
]

-- Either some level cannot be read, or the options say what the texts say.
pub read_options-Verdict :
    (texts : List Bytes) (o : Options)
    → Verdict (Means o texts) (Unreadable texts) (read_options o texts)
unfolding read_options
read_options-Verdict [] o = (inl (tt, refl), inl (tt, refl), inl (tt, refl))
read_options-Verdict (text ∷ texts) o =
    Verdict-bind (Step o text) (Means o (text ∷ texts)) (Unreadable (text ∷ texts))
      (Unreadable (text ∷ texts)) (read_option o text) _ (read_option-Verdict o text texts)
      (λ bad. bad)
      (λ o1 step.
        Verdict-mono (Means o1 texts) (Means o (text ∷ texts)) (Unreadable texts)
          (Unreadable (text ∷ texts)) (read_options o1 texts) (read_options-Verdict texts o1)
          (Unreadable-later text texts)
          (λ o2 m. (
            LevelOf-step sql 255 text texts _ _ _ step.0 m.0,
            LevelOf-step binary_text 65535 text texts _ _ _ step.1 m.1,
            FlagOf-step flag text texts _ _ _ step.2 m.2,
          )))
