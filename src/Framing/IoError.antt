-- ===== src/Framing/IoError.antt =====
-- `std::io::Error`, as far as src/framing looks into it: its kind, and a framing error inside it.
use monetdb_rust.Prelude.{ℕ, Bool, true, false, Outcome, ok, err, panic}
use monetdb_rust.Framing.Header.{FramingError}

-- `io::ErrorKind`: the kinds that the code names, and the others by a number.
pub data ErrorKind : Type 0 where
  unexpected_eof invalid_data timed_out would_block interrupted invalid_input write_zero : ErrorKind
  other : ℕ → ErrorKind

-- `simple` is made from a kind alone; `custom` has a message, told apart by a number.
pub data IoError : Type 0 where
  simple : ErrorKind → IoError
  custom : ErrorKind → ℕ → IoError
  framing : FramingError → IoError

unfoldable pub kind : IoError → ErrorKind
kind (simple k) = k
kind (custom k _) = k
kind (framing _) = invalid_data

unfoldable pub is_unexpected_eof : ErrorKind → Bool
is_unexpected_eof unexpected_eof = true
is_unexpected_eof _ = false

unfoldable pub is_interrupted : ErrorKind → Bool
is_interrupted interrupted = true
is_interrupted _ = false

-- `?` on a `FramingResult` in a function that returns an `io::Result`.
abbrev pub lift {ℓ} : {A : Type ℓ} → Outcome FramingError A → Outcome IoError A
lift (ok a) = ok a
lift (err e) = err (framing e)
lift panic = panic
