-- ===== src/Parms/Validated/Sound.antt =====
-- What `Validated::new` guarantees.
use monetdb_rust.Prelude.{
  ℕ, zero, suc, ◌+◌, ◌≤◌, ◌≡◌, refl, ◌⊎◌, inl, inr, Bool, true, false, ◌&&◌, ◌||◌, Bool-cases, leb,
  ◌==◌, [], ◌∷◌, Bytes, codes, length, drop, arith, starts_with, Option, none, some, ℤ, pos, negsuc,
  Returns, Returns-bind,
}
use monetdb_rust.Parms.Parm.{Parm}
use monetdb_rust.Parms.Validated.Checks.{
  is_empty, all_name_chars, valid_name, valid_timeout, max_timeout_seconds, fingerprint_digits,
  valid_certhash, certhash_digits, port_number, positive,
}

-- A name as `valid_name` lets it pass.
abbrev pub IsName : Bytes → Type 0
IsName name = (all_name_chars name ≡ true) × (starts_with name (codes "-") ≡ false)

pub valid_name-IsName : (p : Parm) (name : Bytes) → Returns (λ n. IsName name) (valid_name p name)
unfolding valid_name
valid_name-IsName p name = ground arith

abbrev pub IsTimeout : (ℕ → Bool) → Option ℕ → Type 0
IsTimeout in_reach none = Unit
IsTimeout in_reach (some n) = (1 ≤ n) × (n ≤ max_timeout_seconds) × (in_reach n ≡ true)

pub valid_timeout-IsTimeout :
    (in_reach : ℕ → Bool) (p : Parm) (i : ℤ)
    → Returns (IsTimeout in_reach) (valid_timeout in_reach p i)
unfolding valid_timeout
valid_timeout-IsTimeout in_reach p (negsuc n) = tt
valid_timeout-IsTimeout in_reach p (pos zero) = tt
valid_timeout-IsTimeout in_reach p (pos (suc n)) = ground arith

pub port_number-range : (i : ℤ) → Returns (λ n. (1 ≤ n) × (n ≤ 65535)) (port_number i)
unfolding port_number
port_number-range (pos n) = ground arith
port_number-range (negsuc zero) = (omega arith, omega arith)
port_number-range (negsuc (suc n)) = tt

pub positive-positive : (p : Parm) (i : ℤ) → Returns (λ n. 1 ≤ n) (positive p i)
unfolding positive
positive-positive p (pos n) = ground arith
positive-positive p (negsuc n) = tt

-- A lower-case hexadecimal digit.
abbrev pub is_lower_hex : ℕ → Bool
is_lower_hex c = (leb 48 c && leb c 57) || (leb 97 c && leb c 102)

abbrev pub AllLowerHex : Bytes → Type 0
AllLowerHex [] = Unit
AllLowerHex (c ∷ cs) = (is_lower_hex c ≡ true) × AllLowerHex cs

fingerprint_digits-AllLowerHex : (cs : Bytes) → Returns AllLowerHex (fingerprint_digits cs)
unfolding fingerprint_digits
fingerprint_digits-AllLowerHex [] = tt
fingerprint_digits-AllLowerHex (c ∷ cs) = elim (Bool-cases (is_lower_hex c)) [
  | inl lower ↦
      rw (lower, fingerprint_digits)
        (Returns-bind AllLowerHex AllLowerHex (fingerprint_digits cs) _
          (fingerprint_digits-AllLowerHex cs) (λ rest h. (lower, h)))
  | inr other ↦ elim (Bool-cases (leb 65 c && leb c 70)) [
    | inl upper ↦
        let lowered : is_lower_hex (c + 32) ≡ true = ground arith in
        rw (other, upper, fingerprint_digits)
          (Returns-bind AllLowerHex AllLowerHex (fingerprint_digits cs) _
            (fingerprint_digits-AllLowerHex cs) (λ rest h. (lowered, h)))
    | inr neither ↦ elim (Bool-cases (c == 58)) [
      | inl colon ↦
          rw (other, neither, colon, fingerprint_digits) (fingerprint_digits-AllLowerHex cs)
      | inr bad ↦ rw (other, neither, bad, fingerprint_digits) tt
    ]
  ]
]

-- The digits of a certificate's hash, none where it is not given.
abbrev pub IsPin : Bytes → Type 0
IsPin digits =
    AllLowerHex digits × (length digits ≤ 64) × ((length digits ≡ 0) ⊎ (16 ≤ length digits))

-- There are none if there is no hash.
abbrev pub IsPinOf : Bytes → Bytes → Type 0
IsPinOf certhash digits = IsPin digits × ((is_empty certhash ≡ false) ⊎ (digits ≡ []))

pub certhash_digits-IsPin :
    (certhash : Bytes) → Returns (IsPinOf certhash) (certhash_digits certhash)
unfolding certhash_digits valid_certhash
certhash_digits-IsPin [] = ((tt, omega arith, inl (omega arith)), inr refl)
certhash_digits-IsPin (c ∷ cs) = elim (Bool-cases (starts_with (c ∷ cs) (codes "sha256:"))) [
  | inl e ↦ rw e (
      Returns-bind AllLowerHex (IsPinOf (c ∷ cs)) (fingerprint_digits (drop 7 (c ∷ cs))) _
        (fingerprint_digits-AllLowerHex (drop 7 (c ∷ cs)))
        (λ digits h. elim (Bool-cases (leb 16 (length digits) && leb (length digits) 64)) [
          | inl fits ↦ rw fits ((h, ground arith, inr (ground arith)), inl refl)
          | inr unfit ↦ rw unfit tt
        ]))
  | inr e ↦ rw e tt
]
