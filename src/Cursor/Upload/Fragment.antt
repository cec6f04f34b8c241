-- ===== src/Cursor/Upload/Fragment.antt =====
-- The fragments of src/cursor/upload.rs are read back by the block automaton as the data.
use monetdb_rust.Prelude.{
  ℕ, zero, suc, ◌+◌, ◌-◌, ◌*◌, ◌≤◌, ◌<◌, min, ◌≡◌, refl, sym, ap, ◌∙◌, subst, inl, inr, Bool-cases,
  Bool, true, false, ◌&&◌, List, [], ◌∷◌, ◌++◌, arith, append_assoc, append-nil, Bytes, length,
  take, drop, flatten, take_all, drop-drop, length-take, length-drop, take-append-drop, leb, ltb,
  ◌==◌, ok,
}
use monetdb_rust.Framing.Header
use monetdb_rust.Framing.Header.{Header, blocksize, bool_to_ℕ, to_le_bytes, as_bytes}
use monetdb_rust.Framing.BlockState
use monetdb_rust.Framing.BlockState.{BlockState, start, end, from_header}
use monetdb_rust.Framing.BlockState.Automaton.{run, step, run_join}
use monetdb_rust.Framing.Writing.Represents.{block}
use monetdb_rust.Cursor.Upload.{
  fragment_header, block_count, block_slices, slices, writes, write_fragment,
}

-- A header made here reads back as one of `Header::new` does.
run_block :
    (n : ℕ) (last : Bool) (chunk : Bytes)
    → n ≤ blocksize
    → length chunk ≡ n
    → run start (as_bytes (fragment_header n last) ++ chunk) ≡ ok (chunk, BlockState.new 0 last)
unfolding fragment_header Header.new
run_block n last chunk fits e =
    let b = block n last fits in
    let inside : leb n blocksize ≡ true = ground arith in
    let made = rw inside at b.made in
    let same : fragment_header n last ≡ b.header = cc in
    subst (λ (h : Header). run start (as_bytes h ++ chunk) ≡ ok (chunk, BlockState.new 0 last))
      (sym same) (b.reads chunk e)

abbrev pub outcome : Bool → BlockState
outcome finish = BlockState.new 0 finish

flatten-append : (xs ys : List Bytes) → flatten (xs ++ ys) ≡ flatten xs ++ flatten ys
flatten-append [] ys = refl
flatten-append (x ∷ xs) ys =
    rw (flatten-append xs ys) (sym (append_assoc x (flatten xs) (flatten ys)))

run-block_slices :
    (data' : Bytes) (finish : Bool) (index n : ℕ) (last : Bool) (chunk : Bytes)
    → min (length data' - index * blocksize) blocksize ≡ n
    → (finish && (index + 1 == block_count (length data'))) ≡ last
    → take
        (min (index * blocksize + blocksize) (length data') - index * blocksize)
        (drop (index * blocksize) data')
      ≡ chunk
    → length chunk ≡ n
    → n ≤ blocksize
    → run start (flatten (block_slices data' finish index)) ≡ ok (chunk, BlockState.new 0 last)
unfolding block_slices
run-block_slices data' finish index n last chunk size flag text len fits =
    rw (size, flag, text) (rw append-nil (run_block n last chunk fits len))

-- A block that others follow is full, and does not end the message.
run_inner :
    (data' : Bytes) (finish : Bool) (index : ℕ)
    → index + 1 < block_count (length data')
    → run start (flatten (block_slices data' finish index))
      ≡ ok (take blocksize (drop (index * blocksize) data'), start)
unfolding BlockState.new
run_inner data' finish index h =
    let inside : index * 8190 + 8190 ≤ length data' = omega (arith, h) in
    let behind : length (drop (index * blocksize) data') ≡ length data' - index * blocksize =
      length-drop (index * blocksize) data' in
    let not_last : (finish && (index + 1 == block_count (length data'))) ≡ false =
      ground (arith, h) in
    let cut : min (index * blocksize + blocksize) (length data') - index * blocksize ≡ blocksize =
      omega (arith, inside) in
    run-block_slices data' finish index blocksize false
      (take blocksize (drop (index * blocksize) data')) (omega (arith, inside)) not_last
      (rw cut refl)
      (length-take blocksize (drop (index * blocksize) data') ∙ omega (arith, behind, inside))
      (omega arith)

-- The last block holds what is left.
run_last :
    (data' : Bytes) (finish : Bool) (index : ℕ)
    → index + 1 ≡ block_count (length data')
    → run start (flatten (block_slices data' finish index))
      ≡ ok (drop (index * blocksize) data', BlockState.new 0 finish)
run_last data' finish index h =
    let behind : length (drop (index * blocksize) data') ≡ length data' - index * blocksize =
      length-drop (index * blocksize) data' in
    let fits : length data' ≤ index * 8190 + 8190 = omega (arith, h) in
    let is_last : (finish && (index + 1 == block_count (length data'))) ≡ finish =
      ground (arith, h) in
    run-block_slices data' finish index (length data' - index * blocksize) finish
      (drop (index * blocksize) data') (omega (arith, fits)) is_last
      (take_all _ (drop (index * blocksize) data') (omega (arith, behind, fits))) behind
      (omega (arith, fits))

run_slices :
    (data' : Bytes) (finish : Bool) (count first : ℕ)
    → first + suc count ≡ block_count (length data')
    → run start (flatten (slices data' finish first (suc count)))
      ≡ ok (drop (first * blocksize) data', BlockState.new 0 finish)
unfolding slices
run_slices data' finish zero first h = rw append-nil (run_last data' finish first h)
run_slices data' finish (suc count) first h =
    let here = run_inner data' finish first (omega (arith, h)) in
    let rest = run_slices data' finish count (suc first) (omega (arith, h)) in
    let next : first * blocksize + blocksize ≡ suc first * blocksize = omega arith in
    let whole : take blocksize (drop (first * blocksize) data')
          ++ drop (suc first * blocksize) data'
        ≡ drop (first * blocksize) data' =
      rw (← next) (
        rw (← drop-drop blocksize (first * blocksize) data')
          (take-append-drop blocksize (drop (first * blocksize) data'))) in
    ap (run start) (
      flatten-append (block_slices data' finish first)
        (slices data' finish (suc first) (suc count)))
    ∙ run_join _ _ start here rest
    ∙ ap (λ (z : Bytes). ok (z, BlockState.new 0 finish)) whole

slices-append :
    (data' : Bytes) (finish : Bool) (m n first : ℕ)
    → slices data' finish first (m + n)
      ≡ slices data' finish first m ++ slices data' finish (first + m) n
unfolding slices
slices-append data' finish zero n first =
    let none : 0 + n ≡ n = omega arith in
    let here : first + 0 ≡ first = omega arith in rw (none, here) refl
slices-append data' finish (suc m) n first =
    let count : suc m + n ≡ suc (m + n) = omega arith in
    let place : first + suc m ≡ suc first + m = omega arith in
    rw (count, place)
      (rw (slices-append data' finish m n (suc first)) (
        sym (
          append_assoc (block_slices data' finish first) (slices data' finish (suc first) m)
            (slices data' finish (suc first + m) n))))

slices_none : (data' : Bytes) (finish : Bool) (first : ℕ) → slices data' finish first 0 ≡ []
unfolding slices
slices_none data' finish first = refl

flatten-writes :
    (data' : Bytes) (finish : Bool) (fuel first : ℕ)
    → block_count (length data') ≤ first + fuel
    → flatten (writes fuel data' finish first)
      ≡ slices data' finish first (block_count (length data') - first)
unfolding writes
flatten-writes data' finish zero first h =
    let none : block_count (length data') - first ≡ 0 = omega (arith, h) in
    rw none (sym (slices_none data' finish first))
flatten-writes data' finish (suc fuel) first h =
    let blocks = block_count (length data') in
    let rest = flatten-writes data' finish fuel (first + 64) (omega (arith, h)) in
    elim (Bool-cases (ltb first blocks)) [
      | inr out ↦
          let none : blocks - first ≡ 0 = ground arith in
          rw out (rw none (sym (slices_none data' finish first)))
      | inl inside ↦ rw inside (
          rw rest (elim (Bool-cases (leb (first + 64) blocks)) [
            | inl more ↦
                let len : min (first + 64) blocks - first ≡ 64 = ground arith in
                let all : blocks - first ≡ 64 + (blocks - (first + 64)) = ground arith in
                rw (len, all) (sym (slices-append data' finish 64 (blocks - (first + 64)) first))
            | inr final ↦
                let len : min (first + 64) blocks - first ≡ blocks - first = ground arith in
                let none : blocks - (first + 64) ≡ 0 = ground arith in
                rw (len, none) (rw (slices_none data' finish (first + 64)) (append-nil _))
          ]))
    ]

run_empty : run start (1 ∷ 0 ∷ []) ≡ ok ([], end)
unfolding run step from_header Header.from_bytes Header.size Header.is_last BlockState.new
run_empty = refl

unread : run start [] ≡ ok ([], start)
unfolding run
unread = refl

-- The bytes of a fragment, whatever the length of the data: a reader at the start of a message or
-- between two blocks finds in them exactly the data, and is at the end of the message if the fragment
-- is to finish it, else between two blocks again.
pub write_fragment-run :
    (data' : Bytes) (finish : Bool)
    → run start (flatten (flatten (write_fragment data' finish)))
      ≡ ok (data', BlockState.new 0 finish)
unfolding write_fragment BlockState.new
write_fragment-run [] true = run_empty
write_fragment-run [] false = unread
write_fragment-run (b ∷ bs) finish =
    let data' = b ∷ bs in
    let blocks = block_count (length data') in
    let all = flatten-writes data' finish blocks 0 (omega arith) in
    let some' : blocks - 0 ≡ suc (blocks - 1) = omega arith in
    rw all (rw some' (run_slices data' finish (blocks - 1) 0 (omega arith)))
