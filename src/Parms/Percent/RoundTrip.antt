-- ===== src/Parms/Percent/RoundTrip.antt =====
-- What `percent_encode` of src/parms/urlparser.rs writes is safe in a URL, and `percent_decode` reads it back.
use monetdb_rust.Prelude.{
  ℕ, suc, ◌+◌, ◌*◌, ◌/◌, ◌%◌, ◌<◌, ◌≡◌, refl, sym, ap, ◌∙◌, >>=-returned, Option-cases, err, panic,
  Bool, true, false, ◌||◌, inl, inr, [], ◌∷◌, ◌++◌, arith, ◌==◌, Bytes, take, drop, Option, none,
  some, Outcome, ok, ◌>>=◌, Bool-cases,
}
use monetdb_rust.Parms.Percent.{
  ParmError, unhex, decode_loop, percent_position, percent_decode, is_safe, hex_digit,
  percent_encode,
}

abbrev pub AllBytes : Bytes → Type 0
AllBytes [] = Unit
AllBytes (b ∷ bs) = (b < 256) × AllBytes bs

-- Every byte is unreserved in URLs, or a percent sign.
abbrev pub UrlSafe : Bytes → Type 0
UrlSafe [] = Unit
UrlSafe (b ∷ bs) = ((is_safe b || (b == 37)) ≡ true) × UrlSafe bs

unhex-hex_digit : (n : ℕ) → n < 16 → unhex (hex_digit n) ≡ ok n
unfolding unhex hex_digit
unhex-hex_digit n h = ground arith

hex_digit_safe : (n : ℕ) → n < 16 → (is_safe (hex_digit n) || (hex_digit n == 37)) ≡ true
unfolding is_safe hex_digit
hex_digit_safe n h = ground arith

safe_plain : (b : ℕ) → is_safe b ≡ true → (b == 37) ≡ false
unfolding is_safe
safe_plain b h = ground arith

decode_loop-plain :
    (b : ℕ) (bs : Bytes)
    → (b == 37) ≡ false
    → decode_loop (b ∷ bs) ≡ (decode_loop bs >>= λ tail. ok (b ∷ tail))
unfolding decode_loop
decode_loop-plain b [] h = rw h refl
decode_loop-plain b (c ∷ []) h = rw (h, decode_loop) refl
decode_loop-plain b (c ∷ d ∷ bs) h = rw (h, decode_loop) refl

decode_loop-percent :
    (h l hi lo : ℕ) (bs : Bytes)
    → unhex hi ≡ ok h
    → unhex lo ≡ ok l
    → decode_loop (37 ∷ hi ∷ lo ∷ bs) ≡ (decode_loop bs >>= λ tail. ok ((16 * h + l) ∷ tail))
unfolding decode_loop
decode_loop-percent h l hi lo bs p q = rw p (rw q refl)

decode_loop-percent_encode : (s : Bytes) → AllBytes s → decode_loop (percent_encode s) ≡ ok s
unfolding percent_encode
decode_loop-percent_encode [] a = unfold decode_loop in refl
decode_loop-percent_encode (b ∷ s) (small, a) = elim (Bool-cases (is_safe b)) [
  | inl safe ↦ rw safe (
      decode_loop-plain b (percent_encode s) (safe_plain b safe)
      ∙ ap (λ (m : Outcome ParmError Bytes). m >>= λ tail. ok (b ∷ tail))
          (decode_loop-percent_encode s a))
  | inr unsafe ↦
      let whole : 16 * (b / 16) + b % 16 ≡ b = omega arith in
      rw unsafe (
        decode_loop-percent (b / 16) (b % 16) _ _ (percent_encode s)
          (unhex-hex_digit (b / 16) (omega arith)) (unhex-hex_digit (b % 16) (omega arith))
        ∙ ap (λ (m : Outcome ParmError Bytes). m >>= λ tail. ok ((16 * (b / 16) + b % 16) ∷ tail))
            (decode_loop-percent_encode s a)
        ∙ ap (λ (n : ℕ). ok (n ∷ s)) whole)
]

-- What `percent_decode` makes of the loop: the bytes in front of the first percent sign are kept.
abbrev behind_position : Bytes → Option ℕ → Outcome ParmError Bytes
behind_position data' none = ok data'
behind_position data' (some idx) = do
  tail ← decode_loop (drop idx data')
  ok (take idx data' ++ tail)

>>=-ok : {A : Type 0} (m : Outcome ParmError A) → (m >>= λ a. ok a) ≡ m
>>=-ok (ok a) = refl
>>=-ok (err e) = refl
>>=-ok panic = refl

push_bind :
    (b : ℕ) (front : Bytes) (m : Outcome ParmError Bytes)
    → ((m >>= λ tail. ok (front ++ tail)) >>= λ tail. ok (b ∷ tail))
      ≡ (m >>= λ tail. ok (b ∷ (front ++ tail)))
push_bind b front (ok a) = refl
push_bind b front (err e) = refl
push_bind b front panic = refl

push_byte :
    (b : ℕ) (bs : Bytes) (o : Option ℕ)
    → (behind_position bs o >>= λ tail. ok (b ∷ tail))
      ≡ behind_position (b ∷ bs) (elim o [ none ↦ none | some n ↦ some (suc n) ])
push_byte b bs none = refl
push_byte b bs (some n) = push_bind b (take n bs) (decode_loop (drop n bs))

decode_loop-behind_position :
    (data' : Bytes) → decode_loop data' ≡ behind_position data' (percent_position data')
unfolding percent_position
decode_loop-behind_position [] = unfold decode_loop in refl
decode_loop-behind_position (b ∷ bs) = elim (Bool-cases (b == 37)) [
  | inl sign ↦ rw sign (sym (>>=-ok (decode_loop (b ∷ bs))))
  | inr plain ↦ rw plain (
      decode_loop-plain b bs plain
      ∙ ap (λ (m : Outcome ParmError Bytes). m >>= λ tail. ok (b ∷ tail))
          (decode_loop-behind_position bs)
      ∙ push_byte b bs (percent_position bs))
]

percent_encode-UrlSafe : (s : Bytes) → AllBytes s → UrlSafe (percent_encode s)
unfolding percent_encode
percent_encode-UrlSafe [] a = tt
percent_encode-UrlSafe (b ∷ s) (small, a) = elim (Bool-cases (is_safe b)) [
  | inl safe ↦ rw safe (rw safe refl, percent_encode-UrlSafe s a)
  | inr unsafe ↦ rw unsafe (
    ground arith,
    (
      hex_digit_safe (b / 16) (omega arith),
      (hex_digit_safe (b % 16) (omega arith), percent_encode-UrlSafe s a),
    ),
  )
]

-- For a text, `percent_encode` writes only unreserved bytes and percent signs, and `percent_decode`
-- does not fail on what it writes: it returns the text.
pub percent_decode-percent_encode :
    (is_utf8 : Bytes → Bool) (s : Bytes)
    → AllBytes s
    → is_utf8 s ≡ true
    → UrlSafe (percent_encode s) × (percent_decode is_utf8 (percent_encode s) ≡ ok s)
unfolding percent_decode
percent_decode-percent_encode is_utf8 s a u =
    let text = percent_encode s in
    let decoded = decode_loop-percent_encode s a in
    let kept = decode_loop-behind_position text in
    (
      percent_encode-UrlSafe s a,
      elim (Option-cases (percent_position text)) [
        | inl none_is ↦
            let same : ok text ≡ ok s = sym (rw none_is at kept) ∙ decoded in
            rw (none_is, percent_decode) same
        | inr (idx, place) ↦
            let (tail, loop, whole) =
              >>=-returned (decode_loop (drop idx text)) (λ tail. ok (take idx text ++ tail))
                (sym (rw place at kept) ∙ decoded) in
            let all : take idx text ++ tail ≡ s = cc in
            rw (place, percent_decode) (rw (loop, ◌>>=◌) (rw all (rw u refl)))
      ],
    )
