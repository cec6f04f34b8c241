-- ===== src/Framing/BlockState.antt =====
-- `BlockState` of src/framing/blockstate.rs: where a reader stands in the block structure of a
-- message, and `skip_headers`, which finds the next range of payload bytes in a piece of input.
pub mod Automaton
pub mod Refines
pub mod Prefix
use monetdb_rust.Prelude.{
  ℕ, zero, suc, ◌+◌, ◌-◌, ◌≤◌, ◌<◌, Bool, true, false, not, List, [], ◌∷◌, ltb, leb, ◌==◌,
  if◌then◌else◌, Bytes, length, Outcome, ok, err, panic, ◌>>=◌, ◌>>◌, assert,
}
use monetdb_rust.Framing.Header
use monetdb_rust.Framing.Header.{Header, FramingError, message_already_complete, blocksize}

pub data BlockState : Type 0 where
  start : BlockState
  partial_header : ℕ → BlockState
  body : ℕ → Bool → BlockState
  end : BlockState

-- `BlockState::new`
unfoldable pub new : ℕ → Bool → BlockState
new zero false = start
new zero true = end
new (suc n) last = body (suc n) last

unfoldable pub from_header : Header → BlockState
from_header h = new (Header.size h) (Header.is_last h)

-- `Range<usize>`
pub record Range : Type 0 where
  pub start : ℕ
  pub end : ℕ

-- The loop of `skip_headers`: `rest` is `data[pos..]`, so its length is `avail`.
unfoldable pub skip_loop : ℕ → BlockState → Bytes → Outcome FramingError (Range × BlockState)
unfolding Header.from_slice Header.from_bytes from_header
skip_loop pos st [] = ok (record { start = pos; end = pos }, st)
skip_loop pos (body remaining last) (c ∷ cs) =
    let avail = length (c ∷ cs) in
    if ltb avail remaining
    then ok (record { start = pos; end = pos + avail }, new (remaining - avail) last)
    else do
      assert (not (remaining == 0))
      ok (record { start = pos; end = pos + remaining }, new 0 last)
skip_loop pos start (lo ∷ []) = ok (record { start = pos + 1; end = pos + 1 }, partial_header lo)
skip_loop pos start (lo ∷ hi ∷ cs) = do
  header ← Header.from_slice (lo ∷ hi ∷ [])
  skip_loop (pos + 2) (from_header header) cs
skip_loop pos (partial_header lo) (c ∷ cs) = do
  header ← Header.from_bytes (record { lo = lo; hi = c })
  skip_loop (pos + 1) (from_header header) cs
skip_loop pos end (c ∷ cs) = err message_already_complete

-- `skip_headers`; `interpret` stores the new state, so in the model it is the same function.
unfoldable pub skip_headers : BlockState → Bytes → Outcome FramingError (Range × BlockState)
unfolding skip_loop
skip_headers st input = skip_loop 0 st input

-- A state that the code can be in: a body has bytes left, and fits a block.
abbrev pub IsValid : BlockState → Type 0
IsValid (body n last) = (0 < n) × (n ≤ blocksize)
IsValid start = Unit
IsValid (partial_header _) = Unit
IsValid end = Unit
