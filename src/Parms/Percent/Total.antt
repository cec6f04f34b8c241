-- ===== src/Parms/Percent/Total.antt =====
-- Percent decoding returns or refuses.
use monetdb_rust.Prelude.{
  ℕ, arith, Bool, Bool-cases, inl, inr, ◌==◌, [], ◌∷◌, ◌++◌, drop, take, Bytes, Option, none, some,
  Outcome, ok, err, ◌>>=◌, Returns, Returns-bind, if◌then◌else◌,
}
use monetdb_rust.Parms.Errors.{ParmError, invalid_percent_utf8}
use monetdb_rust.Parms.Percent.{unhex, decode_loop, percent_position, percent_decode}

-- The code does not panic.
abbrev pub Calm : {A : Type 0} → Outcome ParmError A → Type 0
Calm m = Returns (λ _. Unit {0}) m

unhex-Calm : (digit : ℕ) → Calm (unhex digit)
unfolding unhex
unhex-Calm digit = ground arith

pub Calm-bind :
    {A B : Type 0} (m : Outcome ParmError A) (f : A → Outcome ParmError B)
    → Calm m
    → ((a : A) → Calm (f a))
    → Calm (m >>= f)
Calm-bind m f h k = Returns-bind (λ _. Unit {0}) (λ _. Unit {0}) m f h (λ a _. k a)

decode_loop-Calm : (bs : Bytes) → Calm (decode_loop bs)
unfolding decode_loop
decode_loop-Calm [] = tt
decode_loop-Calm (b ∷ []) = elim (Bool-cases (b == 37)) [ inl e ↦ rw e tt | inr e ↦ rw e tt ]
decode_loop-Calm (b ∷ c ∷ []) = elim (Bool-cases (b == 37)) [
  | inl e ↦ rw (e, decode_loop) tt
  | inr e ↦
      rw (e, decode_loop) (Calm-bind (decode_loop (c ∷ [])) _ (decode_loop-Calm (c ∷ [])) (λ _. tt))
]
decode_loop-Calm (b ∷ hi ∷ lo ∷ rest) = elim (Bool-cases (b == 37)) [
  | inl e ↦
      rw (e, decode_loop)
        (Calm-bind (unhex hi) _ (unhex-Calm hi) (λ h.
          Calm-bind (unhex lo) _ (unhex-Calm lo)
            (λ l. Calm-bind (decode_loop rest) _ (decode_loop-Calm rest) (λ _. tt))))
  | inr e ↦
      rw (e, decode_loop)
        (Calm-bind (decode_loop (hi ∷ lo ∷ rest)) _ (decode_loop-Calm (hi ∷ lo ∷ rest)) (λ _. tt))
]

pub percent_decode-Calm : (is_utf8 : Bytes → Bool) (bs : Bytes) → Calm (percent_decode is_utf8 bs)
unfolding percent_decode
percent_decode-Calm is_utf8 bs = go (percent_position bs)
  where
    rest : ℕ → Outcome ParmError Bytes
    rest idx = decode_loop (drop idx bs) >>= λ tail.
        (if is_utf8 (take idx bs ++ tail)
          then ok (take idx bs ++ tail)
          else err invalid_percent_utf8)

    go : (o : Option ℕ) → Calm (elim o [ none ↦ ok bs | some idx ↦ rest idx ])
    go none = tt
    go (some idx) =
        Calm-bind (decode_loop (drop idx bs)) _ (decode_loop-Calm (drop idx bs)) (λ tail.
          elim (Bool-cases (is_utf8 (take idx bs ++ tail))) [ inl e ↦ rw e tt | inr e ↦ rw e tt ])
