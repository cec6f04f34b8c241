-- ===== src/Prelude/Results.antt =====
-- The result of Rust code: `Ok`, `Err`, or a panic (a failed `assert!`, an `unwrap` of nothing).
use mathlib.Core.Path.{◌≡◌, refl}
use mathlib.Core.Logic.{◌≢◌}
use mathlib.Core.Bool.{Bool, true, false}
use mathlib.Core.Option.{Option, none, some}

pub data Outcome {ℓ} (E : Type 0) (A : Type ℓ) : Type ℓ where
  ok : A → Outcome E A
  err : E → Outcome E A
  panic : Outcome E A

-- `?` on a result that may also be a panic.
module _ {ℓ κ} {E : Type 0} {A : Type ℓ} {B : Type κ} where
  infixl 5 ◌>>=◌ ◌>>◌
  abbrev pub ◌>>=◌ : Outcome E A → (A → Outcome E B) → Outcome E B
  panic >>= next = panic
  err why >>= next = err why
  ok a >>= next = next a

  abbrev pub ◌>>◌ : Outcome E A → Outcome E B → Outcome E B
  panic >> next = panic
  err why >> next = err why
  ok _ >> next = next

  -- Where a chain of two steps returned, both did.
  pub >>=-returned :
      (first : Outcome E A) (next : A → Outcome E B) {result : B}
      → (first >>= next) ≡ ok result
      → (a : A) × (first ≡ ok a) × (next a ≡ ok result)
  >>=-returned panic next returned = cc
  >>=-returned (err why) next returned = cc
  >>=-returned (ok a) next returned = (a, refl, returned)

-- `if !test { return Err(e) }`
abbrev pub ensure : {E : Type 0} → Bool → E → Outcome E (Unit {0})
ensure true e = ok tt
ensure false e = err e

-- `assert!(test)`
abbrev pub assert : {E : Type 0} → Bool → Outcome E (Unit {0})
assert true = ok tt
assert false = panic

-- A value that the code unwraps, or a checked operation whose failure panics.
abbrev pub unwrap {ℓ} : {E : Type 0} {A : Type ℓ} → Option A → Outcome E A
unwrap (some a) = ok a
unwrap none = panic

-- `option.ok_or(e)?`
abbrev pub ok_or {ℓ} : {E : Type 0} {A : Type ℓ} → Option A → E → Outcome E A
ok_or (some a) e = ok a
ok_or none e = err e

-- The code does not panic, and what it returns satisfies `P`.
abbrev pub Returns {ℓ} : {E : Type 0} {A : Type ℓ} → (A → Type 0) → Outcome E A → Type 0
Returns P (ok a) = P a
Returns P (err e) = Unit
Returns P panic = ⊥

pub Returns-bind {ℓ κ} :
    {E : Type 0} {A : Type ℓ} {B : Type κ} (P : A → Type 0) (Q : B → Type 0) (m : Outcome E A)
    (f : A → Outcome E B)
    → Returns P m
    → ((a : A) → P a → Returns Q (f a))
    → Returns Q (m >>= f)
Returns-bind P Q (ok a) f h k = k a h
Returns-bind P Q (err e) f h k = tt
Returns-bind P Q panic f h k = h

pub Returns-elim {ℓ} :
    {E : Type 0} {A : Type ℓ} (P : A → Type 0) (m : Outcome E A)
    → m ≢ panic
    → ((a : A) → m ≡ ok a → P a)
    → Returns P m
Returns-elim P (ok a) h k = k a refl
Returns-elim P (err e) h k = tt
Returns-elim P panic h k = h refl

pub Returns-mono {ℓ} :
    {E : Type 0} {A : Type ℓ} (P Q : A → Type 0) (m : Outcome E A)
    → Returns P m
    → ((a : A) → P a → Q a)
    → Returns Q m
Returns-mono P Q (ok a) h k = k a h
Returns-mono P Q (err e) h k = tt
Returns-mono P Q panic h k = h

-- The code returns.
abbrev pub IsOk {ℓ} : {E : Type 0} {A : Type ℓ} → Outcome E A → Type ℓ
IsOk {A = A} m = (a : A) × (m ≡ ok a)

pub IsOk-bind {ℓ κ} :
    {E : Type 0} {A : Type ℓ} {B : Type κ} (m : Outcome E A) (f : A → Outcome E B)
    → IsOk m
    → ((a : A) → m ≡ ok a → IsOk (f a))
    → IsOk (m >>= f)
IsOk-bind m f (a, e) k = let (b, e') = k a e in (b, rw e e')

pub Returns-ok {ℓ} :
    {E : Type 0} {A : Type ℓ} (P : A → Type 0) (m : Outcome E A) (a : A)
    → Returns P m
    → m ≡ ok a
    → P a
Returns-ok P m a h e = rw e at h

pub Returns-ensure :
    {E B : Type 0} (Q : B → Type 0) (b : Bool) (e : E) (rest : Outcome E B)
    → (b ≡ true → Returns Q rest)
    → Returns Q (ensure b e >> rest)
Returns-ensure Q true e rest h = h refl
Returns-ensure Q false e rest h = tt
