-- ===== src/Connecting/ClientLines.antt =====
-- The lines of the client info of src/framing/connecting.rs.
use monetdb_rust.Prelude.{
  ℕ, zero, suc, ◌+◌, ◌/◌, ◌%◌, ◌≡◌, refl, inl, inr, arith, Bool, true, false, ◌==◌, ltb, Bool-cases,
  List, [], ◌∷◌, ◌++◌, map, if◌then◌else◌, Bytes, codes, print_digits, ok, Returns-ok,
}
use monetdb_rust.Parms.Parameters.{Parameters}
use monetdb_rust.Parms.Parameters.Slots.{WellFormed}
use monetdb_rust.Parms.Validated.{Validated}
use monetdb_rust.Parms.Validated.Build.{new}
use monetdb_rust.Parms.Validated.Checks.{is_empty, contains}
use monetdb_rust.Parms.Validated.Sensible.{Sensible, new-Sensible}
use monetdb_rust.Parms.Urls.{split}
use monetdb_rust.Connecting.ClientInfo.{
  ClientInfo, kept, items, write_items, command, sql_form, library_of, client_info_of,
}

contains-append :
    (c : ℕ) (xs ys : Bytes)
    → contains xs c ≡ false
    → contains ys c ≡ false
    → contains (xs ++ ys) c ≡ false
contains-append c [] ys h k = k
contains-append c (x ∷ xs) ys h k = elim (Bool-cases (x == c)) [
  | inl e ↦ let wrong : true ≡ false = rw e at h in cc
  | inr e ↦ rw e (contains-append c xs ys (rw e at h) k)
]

-- A piece, and the separator behind it.
split-piece :
    (sep : ℕ) (piece rest : Bytes)
    → contains piece sep ≡ false
    → split sep (piece ++ sep ∷ rest) ≡ piece ∷ split sep rest
unfolding split
split-piece sep [] rest h = let same : (sep == sep) ≡ true = ground arith in rw same refl
split-piece sep (x ∷ xs) rest h = elim (Bool-cases (x == sep)) [
  | inl e ↦ let wrong : true ≡ false = rw e at h in cc
  | inr e ↦ rw e (rw (split-piece sep xs rest (rw e at h)) refl)
]

-- Names and values that are on one line each.
abbrev pub SingleLines : List (Bytes × Bytes) → Type 0
SingleLines [] = Unit
SingleLines ((k, v) ∷ rest) = ((contains k 10 ≡ false) × (contains v 10 ≡ false)) × SingleLines rest

abbrev pub line_of : Bytes × Bytes → Bytes
line_of (k, v) = k ++ 61 ∷ v

-- The lines, the first of them behind the prefix.
abbrev pub prefixed : Bytes → List Bytes → List Bytes
prefixed prefix' [] = []
prefixed prefix' (line ∷ lines) = (prefix' ++ line) ∷ lines

prefixed_nil : (lines : List Bytes) → prefixed [] lines ≡ lines
prefixed_nil [] = refl
prefixed_nil (line ∷ lines) = refl

write_items-lines :
    (prefix' : Bytes) (pairs : List (Bytes × Bytes))
    → contains prefix' 10 ≡ false
    → SingleLines pairs
    → split 10 (write_items prefix' pairs) ≡ prefixed prefix' (map line_of pairs) ++ [] ∷ []
unfolding write_items split
write_items-lines prefix' [] h l = refl
write_items-lines prefix' ((k, v) ∷ rest) h ((hk, hv), l) =
    let line : contains (k ++ 61 ∷ v) 10 ≡ false = contains-append 10 k (61 ∷ v) hk hv in
    let whole : contains (prefix' ++ (k ++ 61 ∷ v)) 10 ≡ false =
      contains-append 10 prefix' (k ++ 61 ∷ v) h line in
    let later = write_items-lines [] rest refl l in
    rw (split-piece 10 (prefix' ++ (k ++ 61 ∷ v)) (write_items [] rest) whole)
      (rw later (rw (prefixed_nil (map line_of rest)) refl))

kept-SingleLines :
    (key value : Bytes) (rest : List (Bytes × Bytes))
    → contains key 10 ≡ false
    → contains value 10 ≡ false
    → SingleLines rest
    → SingleLines (kept key value rest)
unfolding kept
kept-SingleLines key [] rest hk hv l = l
kept-SingleLines key (c ∷ cs) rest hk hv l = ((hk, hv), l)

print_digits-line : (fuel n : ℕ) → contains (print_digits fuel n) 10 ≡ false
unfolding print_digits
print_digits-line zero n = refl
print_digits-line (suc fuel) n = elim (Bool-cases (ltb n 10)) [
  | inl e ↦
      let digit : (48 + n == 10) ≡ false = ground arith in rw (e, print_digits) (rw digit refl)
  | inr e ↦
      let digit : (48 + n % 10 == 10) ≡ false = ground arith in
      rw (e, print_digits)
        (contains-append 10 (print_digits fuel (n / 10)) ((48 + n % 10) ∷ [])
          (print_digits-line fuel (n / 10)) (rw digit refl))
]

-- What is told of the client has no newline in it.
pub record OneLiners (info : ClientInfo) : Type 0 where
  pub hostname : contains info.client_hostname 10 ≡ false
  pub application : contains info.application_name 10 ≡ false
  pub library : contains info.client_library 10 ≡ false
  pub remark : contains info.client_remark 10 ≡ false

items-SingleLines : (info : ClientInfo) → OneLiners info → SingleLines (items info)
unfolding items
items-SingleLines info h = kept-SingleLines _ info.client_hostname _ refl h.hostname (
    kept-SingleLines _ info.application_name _ refl h.application (
      kept-SingleLines _ info.client_library _ refl h.library (
        kept-SingleLines _ info.client_remark _ refl h.remark
          ((refl, print_digits-line (suc info.client_pid) info.client_pid), tt))))

chosen-line :
    (given other : Bytes)
    → contains given 10 ≡ false
    → contains other 10 ≡ false
    → contains (if is_empty given then other else given) 10 ≡ false
chosen-line [] other h k = k
chosen-line (c ∷ cs) other h k = h

library_of-line :
    (public_name prefix' library : Bytes)
    → contains public_name 10 ≡ false
    → contains prefix' 10 ≡ false
    → contains library 10 ≡ false
    → contains (library_of public_name prefix' library) 10 ≡ false
unfolding library_of
library_of-line public_name [] library hp h k = k
library_of-line public_name (c ∷ cs) library hp h k =
    contains-append 10 ((c ∷ cs) ++ codes " / ") public_name
      (contains-append 10 (c ∷ cs) (codes " / ") h refl) hp

client_info_of-OneLiners :
    (in_reach : ℕ → Bool) (public_name : Bytes) (info : ClientInfo) (v : Validated)
    → Sensible in_reach v
    → v.client_info ≡ true
    → contains public_name 10 ≡ false
    → OneLiners info
    → OneLiners (client_info_of public_name info v)
unfolding client_info_of
client_info_of-OneLiners in_reach public_name info v s on hp h =
    let formed = s.2 in
    record {
      hostname = h.hostname;
      application =
          chosen-line v.client_application info.application_name (rw on at formed.application)
            h.application;
      library =
          library_of-line public_name v.client_prefix info.client_library hp
            (rw on at formed.prefix) h.library;
      remark = chosen-line v.client_remark info.client_remark (rw on at formed.remark) h.remark;
    }

-- Parameters cannot slip a line into what is told of the client. From well-formed parameters that are
-- valid and ask for the client info, with defaults and a name of the library without newlines, the text is
-- the command with one line for each pair that is kept, and nothing else: split at its newlines, it
-- gives these lines in order, the first behind `Xclientinfo `, and an end that is empty.
pub sql_form-lines :
    (in_reach : ℕ → Bool) (public_name : Bytes) (info : ClientInfo) (parms : Parameters)
    (v : Validated)
    → WellFormed parms
    → new in_reach parms ≡ ok v
    → v.client_info ≡ true
    → contains public_name 10 ≡ false
    → OneLiners info
    → split 10 (sql_form (client_info_of public_name info v))
      ≡ prefixed command (map line_of (items (client_info_of public_name info v))) ++ [] ∷ []
unfolding sql_form
sql_form-lines in_reach public_name info parms v w e on hp h =
    let told = client_info_of public_name info v in
    let s =
      Returns-ok (Sensible in_reach) (new in_reach parms) v (new-Sensible in_reach parms w) e in
    write_items-lines command (items told) refl
      (items-SingleLines told (client_info_of-OneLiners in_reach public_name info v s on hp h))
