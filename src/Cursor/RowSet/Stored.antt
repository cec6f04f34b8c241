-- ===== src/Cursor/RowSet/Stored.antt =====
-- What the fields of a row set hold: values, at places in the reply.
use monetdb_rust.Prelude.{
  ℕ, zero, suc, ◌≡◌, refl, ap, List, [], ◌∷◌, ◌++◌, append_assoc, Bytes, length, get_elem?, Option,
  none, some, Outcome, ok, err,
}
use monetdb_rust.Cursor.ReplyBuf.{BadReply, column_index_out_of_bounds}
use monetdb_rust.Cursor.ReplyBuf.Front.{at, range-append}
use monetdb_rust.Cursor.RowSet.{Place, field_at}

-- The used part of the reply holds a value at a place.
abbrev pub Stores : Bytes → Place → Option Bytes → Type 0
Stores front none none = Unit
Stores front none (some value) = ⊥
Stores front (some place) none = ⊥
Stores front (some (start, len)) (some value) =
    (a : Bytes) × (b : Bytes) × (front ≡ a ++ (value ++ b))
    × (start ≡ length a)
    × (len ≡ length value)

pub Stores-append :
    (front more : Bytes) (place : Place) (value : Option Bytes)
    → Stores front place value
    → Stores (front ++ more) place value
Stores-append front more none none s = tt
Stores-append front more none (some value) s = s
Stores-append front more (some place) none s = s
Stores-append front more (some (start, len)) (some value) (a, b, e, s, l) =
    (a, b ++ more, rw e (rw append_assoc (rw append_assoc refl)), s, l)

abbrev pub StoresAll : Bytes → List Place → List (Option Bytes) → Type 0
StoresAll front [] [] = Unit
StoresAll front [] (value ∷ values) = ⊥
StoresAll front (place ∷ places) [] = ⊥
StoresAll front (place ∷ places) (value ∷ values) =
    Stores front place value × StoresAll front places values

abbrev value_at : Option (Option Bytes) → BadReply → Outcome BadReply (Option Bytes)
value_at none missing = err missing
value_at (some value) missing = ok value

-- What is returned for the field with an index.
abbrev pub expected : List (Option Bytes) → ℕ → Outcome BadReply (Option Bytes)
expected values idx =
    value_at (get_elem? values idx) (column_index_out_of_bounds idx (length values))

pub StoresAll-append :
    (front more : Bytes) (places : List Place) (values : List (Option Bytes))
    → StoresAll front places values
    → StoresAll (front ++ more) places values
StoresAll-append front more [] [] s = tt
StoresAll-append front more [] (_ ∷ _) s = s
StoresAll-append front more (_ ∷ _) [] s = s
StoresAll-append front more (place ∷ places) (value ∷ values) s =
    (Stores-append front more place value s.0, StoresAll-append front more places values s.1)

pub StoresAll-length :
    (front : Bytes) (places : List Place) (values : List (Option Bytes))
    → StoresAll front places values
    → length places ≡ length values
StoresAll-length front [] [] s = refl
StoresAll-length front [] (_ ∷ _) s = absurd s
StoresAll-length front (_ ∷ _) [] s = absurd s
StoresAll-length front (_ ∷ places) (_ ∷ values) s =
    ap suc (StoresAll-length front places values s.1)

Stores-field_at :
    (front rest : Bytes) (place : Place) (value : Option Bytes) (missing : BadReply)
    → Stores front place value
    → field_at (at front rest) (some place) missing ≡ ok value
Stores-field_at front rest none none missing s = refl
Stores-field_at front rest none (some value) missing s = absurd s
Stores-field_at front rest (some place) none missing s = absurd s
Stores-field_at front rest (some (start, len)) (some value) missing (a, b, e, s, l) =
    rw (s, l)
      (rw (range-append a value b rest (at front rest) (ap (λ (z : Bytes). z ++ rest) e)) refl)

pub StoresAll-field_at :
    (front rest : Bytes) (places : List Place) (values : List (Option Bytes)) (idx : ℕ)
    (missing : BadReply)
    → StoresAll front places values
    → field_at (at front rest) (get_elem? places idx) missing
      ≡ value_at (get_elem? values idx) missing
StoresAll-field_at front rest [] [] idx missing s = refl
StoresAll-field_at front rest [] (_ ∷ _) idx missing s = absurd s
StoresAll-field_at front rest (_ ∷ _) [] idx missing s = absurd s
StoresAll-field_at front rest (place ∷ _) (value ∷ _) zero missing s =
    Stores-field_at front rest place value missing s.0
StoresAll-field_at front rest (_ ∷ places) (_ ∷ values) (suc idx) missing s =
    StoresAll-field_at front rest places values idx missing s.1
