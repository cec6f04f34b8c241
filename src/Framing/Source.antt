-- ===== src/Framing/Source.antt =====
-- What `MapiReader` asks of the reader below it: the documented behaviour of `std::io::Read`.
use monetdb_rust.Prelude.{ℕ, ◌≤◌, ◌≡◌, ◌≢◌, ◌++◌, Bytes, length, Outcome, ok, err, panic, ◌<◌, true}
use monetdb_rust.Framing.IoError.{IoError, kind, is_interrupted}

-- A read that fails has read nothing. Where it was interrupted it can be tried again, on the reader
-- `resume r`, and a reader is interrupted finitely often, at most `interruptions r` times in turn.
-- `read r n` fills a part of a buffer of length `n`, `read_exact r n` all of it; they return the
-- bytes, and the reader behind them. `pending r` is all that is still to come.
pub record Source : Type 1 where
  pub R : Type 0
  pub read : R → ℕ → Outcome IoError (Bytes × R)
  pub read_exact : R → ℕ → Outcome IoError (Bytes × R)
  pub pending : R → Bytes
  pub read_takes :
      (r : R) (n : ℕ) (buf : Bytes) (r' : R)
      → read r n ≡ ok (buf, r')
      → (pending r ≡ buf ++ pending r') × (length buf ≤ n)
  pub read_exact_takes :
      (r : R) (n : ℕ) (buf : Bytes) (r' : R)
      → read_exact r n ≡ ok (buf, r')
      → (pending r ≡ buf ++ pending r') × (length buf ≡ n)
  pub read_returns : (r : R) (n : ℕ) → read r n ≢ panic
  pub read_exact_returns : (r : R) (n : ℕ) → read_exact r n ≢ panic
  pub resume : R → R
  pub interruptions : R → ℕ
  pub resume_keeps : (r : R) → pending (resume r) ≡ pending r
  pub resume_less :
      (r : R) (n : ℕ) (e : IoError)
      → read r n ≡ err e
      → is_interrupted (kind e) ≡ true
      → interruptions (resume r) < interruptions r
