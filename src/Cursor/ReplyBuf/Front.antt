-- ===== src/Cursor/ReplyBuf/Front.antt =====
-- The methods of `ReplyBuf` of src/cursor/replies.rs on a buffer given by its two parts.
use monetdb_rust.Prelude.{
  ℕ, ◌+◌, ◌≡◌, refl, sym, ap, true, [], ◌∷◌, ◌++◌, arith, append_assoc, Bytes, length, take, drop,
  leb, some, ok, length-append, take-append, drop-append, get_elem?-append,
}
use monetdb_rust.Cursor.Search.{Search, Without, is_byte, is_either}
use monetdb_rust.Cursor.ReplyBuf.{ReplyBuf, peek, consume, range, find, find2, split}

-- A buffer whose bytes are used up as far as `front`.
abbrev pub at : Bytes → Bytes → ReplyBuf
at front rest = record { data' = front ++ rest; pos = length front }

pub peek-at : (front rest : Bytes) → peek (at front rest) ≡ rest
unfolding peek
peek-at front rest = drop-append (length front) front rest refl

pub consume-at :
    (front xs ys : Bytes) (n : ℕ)
    → n ≡ length xs
    → consume (at front (xs ++ ys)) n ≡ ok (xs, at (front ++ xs) ys)
unfolding consume
consume-at front xs ys n h =
    let size = length-append front (xs ++ ys) in
    let size' = length-append xs ys in
    let size'' : length front + n ≡ length (front ++ xs) =
      omega (arith, h, length-append front xs) in
    let inside : leb (length front + n) (length (front ++ (xs ++ ys))) ≡ true =
      ground (arith, h, size, size') in
    let behind : drop (length front) (front ++ (xs ++ ys)) ≡ xs ++ ys =
      drop-append (length front) front (xs ++ ys) refl in
    let cut : take n (xs ++ ys) ≡ xs = take-append n xs ys h in
    rw (inside, behind, cut, size'')
      (ap (λ (z : Bytes). ok (xs, record { data' = z; pos = length (front ++ xs) }))
        (sym (append_assoc front xs ys)))

pub range-append :
    (a v b rest : Bytes) (buf : ReplyBuf)
    → buf.data' ≡ (a ++ (v ++ b)) ++ rest
    → range buf (length a) (length v) ≡ ok v
unfolding range
range-append a v b rest buf h =
    let shape : (a ++ (v ++ b)) ++ rest ≡ a ++ (v ++ (b ++ rest)) =
      rw append_assoc (rw append_assoc refl) in
    let size = length-append a (v ++ (b ++ rest)) in
    let size' = length-append v (b ++ rest) in
    let inside : leb (length a + length v) (length (a ++ (v ++ (b ++ rest)))) ≡ true =
      ground (arith, size, size') in
    rw (h, shape, inside, drop-append (length a) a (v ++ (b ++ rest)) refl)
      (ap (λ (z : Bytes). ok z) (take-append (length v) v (b ++ rest) refl))

module _ (search : Search) where
  pub split-at :
      (sep : ℕ) (front xs ys : Bytes)
      → Without (is_byte sep) xs
      → split search (at front (xs ++ sep ∷ ys)) sep ≡ ok (xs, at (front ++ (xs ++ sep ∷ [])) ys)
  unfolding split find
  split-at sep front xs ys free =
      let shape : xs ++ sep ∷ ys ≡ (xs ++ sep ∷ []) ++ ys = rw append_assoc refl in
      let found = search.memchr_finds sep xs ys free in
      let taken =
        consume-at front (xs ++ sep ∷ []) ys (length xs + 1) (sym (length-append xs (sep ∷ []))) in
      let taken' = rw (← shape) at taken in
      rw (peek-at front (xs ++ sep ∷ ys), split)
        (rw (found, split)
          (rw taken' (
            ap (λ (z : Bytes). ok (z, at (front ++ (xs ++ sep ∷ [])) ys))
              (take-append (length xs) xs (sep ∷ []) refl))))

  pub find2-first :
      (a b : ℕ) (front xs ys : Bytes)
      → Without (is_either a b) xs
      → find2 search (at front (xs ++ a ∷ ys)) a b ≡ some (length xs, a)
  unfolding find2
  find2-first a b front xs ys free =
      rw (peek-at front (xs ++ a ∷ ys), find2)
        (rw (search.memchr2_finds_first a b xs ys free, find2)
          (rw
            (peek-at front (xs ++ a ∷ ys), get_elem?-append xs (a ∷ ys) (length xs) 0 (omega arith))
            refl))

  pub find2-second :
      (a b : ℕ) (front xs ys : Bytes)
      → Without (is_either a b) xs
      → find2 search (at front (xs ++ b ∷ ys)) a b ≡ some (length xs, b)
  unfolding find2
  find2-second a b front xs ys free =
      rw (peek-at front (xs ++ b ∷ ys), find2)
        (rw (search.memchr2_finds_second a b xs ys free, find2)
          (rw
            (peek-at front (xs ++ b ∷ ys), get_elem?-append xs (b ∷ ys) (length xs) 0 (omega arith))
            refl))
