-- ===== src/Cursor/Upload.antt =====
-- `write_fragment` of src/cursor/upload.rs: uploaded data is framed without copying it.
pub mod Fragment
use monetdb_rust.Prelude.{
  ℕ, zero, suc, ◌+◌, ◌-◌, ◌*◌, ◌/◌, ◌%◌, ◌^◌, min, Bool, true, false, ◌&&◌, List, [], ◌∷◌, ◌++◌,
  ltb, ◌==◌, if◌then◌else◌, Bytes, length, take, drop, replicate,
}
use monetdb_rust.Framing.Header.{Header, blocksize, bool_to_ℕ, to_le_bytes, as_bytes}

abbrev pub scatter_blocks_per_write : ℕ
scatter_blocks_per_write = 64

-- `(((length as u16) << 1) | u16::from(last)).to_le_bytes()`: the lowest bit is free.
unfoldable pub fragment_header : ℕ → Bool → Header
fragment_header length last = to_le_bytes ((2 * (length % 2 ^ 16) + bool_to_ℕ last) % 2 ^ 16)

-- `data.len().div_ceil(BLOCKSIZE)`
abbrev pub block_count : ℕ → ℕ
block_count n = (n + (blocksize - 1)) / blocksize

-- The header and the slice of the block with an index.
unfoldable pub block_slices : Bytes → Bool → ℕ → List Bytes
block_slices data' finish index =
    let offset = index * blocksize in
    let len = min (length data' - offset) blocksize in
    let last = finish && (index + 1 == block_count (length data')) in
    let end = min (offset + blocksize) (length data') in
    as_bytes (fragment_header len last) ∷ take (end - offset) (drop offset data') ∷ []

-- The slices of `count` blocks from `first` on.
unfoldable pub slices : Bytes → Bool → ℕ → ℕ → List Bytes
slices data' finish first zero = []
slices data' finish first (suc count) =
    block_slices data' finish first ++ slices data' finish (suc first) count

-- The loop over the writes: at most 64 blocks go into each. The fuel bounds the rounds; each is a list
-- of slices, which `write_all_vectored` writes to the last byte.
unfoldable pub writes : ℕ → Bytes → Bool → ℕ → List (List Bytes)
writes zero data' finish first = []
writes (suc fuel) data' finish first =
    let blocks = block_count (length data') in
    let last = min (first + scatter_blocks_per_write) blocks in
    let rest = writes fuel data' finish (first + scatter_blocks_per_write) in
    if ltb first blocks then slices data' finish first (last - first) ∷ rest else []

-- The writes of `write_fragment`; the header of an empty last block is written by itself.
unfoldable pub write_fragment : Bytes → Bool → List (List Bytes)
write_fragment [] finish = if finish then (as_bytes (to_le_bytes 1) ∷ []) ∷ [] else []
write_fragment (b ∷ bs) finish = writes (block_count (length (b ∷ bs))) (b ∷ bs) finish 0
