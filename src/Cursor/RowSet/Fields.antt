-- ===== src/Cursor/RowSet/Fields.antt =====
-- Each field of a row is read at its place, and stays there while the fields behind it are decoded.
use monetdb_rust.Prelude.{
  ℕ, suc, ◌+◌, ◌≡◌, refl, sym, Bool, true, false, ◌⊎◌, inl, inr, [], ◌∷◌, ◌++◌, arith, append_assoc,
  Bytes, codes, length, length-append, same_bytes, ltb, ◌==◌, if◌then◌else◌, Option, none, some, ok,
  ◌>>=◌,
}
use monetdb_rust.Cursor.Search.{Search, Without, is_byte, is_either}
use monetdb_rust.Cursor.ReplyBuf.{Reply}
use monetdb_rust.Cursor.ReplyBuf.Front.{
  at, peek-at, consume-at, split-at, find2-first, find2-second,
}
use monetdb_rust.Cursor.ReplyBuf.Escapes.{Escapes, nothing, itself, letter, digits}
use monetdb_rust.Cursor.ReplyBuf.Convert.{convert_backslashes-Escapes}
use monetdb_rust.Cursor.RowSet.{
  Place, strip_comma, adjust, consume_field_separator, read_quoted, read_plain, read_field,
}
use monetdb_rust.Cursor.RowSet.Stored.{Stores}
use monetdb_rust.Cursor.RowSet.Text.{Cell, null, bare, quoted}

-- A field has been read: the buffer stands behind it and its separator.
pub record FieldRead (front rest : Bytes) (value : Option Bytes) (m : Reply Place) : Type 0 where
  pub place : Place
  pub front' : Bytes
  pub more : Bytes
  pub extends : front' ≡ front ++ more
  pub returns : m ≡ ok (place, at front' rest)
  pub stores : Stores front' place value

abbrev pub separator : Bool → Bytes
separator true = 44 ∷ 9 ∷ []
separator false = 9 ∷ []

consume_field_separator-at :
    (front rest : Bytes) (comma : Bool)
    → consume_field_separator (at front (separator comma ++ rest)) comma
      ≡ ok (tt, at (front ++ separator comma) rest)
unfolding consume_field_separator
consume_field_separator-at front rest true =
    let long : ltb (suc (suc (length rest))) 2 ≡ false = ground arith in
    rw (peek-at front (44 ∷ 9 ∷ rest), long) (rw (consume-at front (44 ∷ 9 ∷ []) rest 2 refl) refl)
consume_field_separator-at front rest false =
    let long : ltb (suc (length rest)) 1 ≡ false = ground arith in
    rw (peek-at front (9 ∷ rest), long) (rw (consume-at front (9 ∷ []) rest 1 refl) refl)

strip_comma-append : (xs : Bytes) → strip_comma (xs ++ 44 ∷ []) ≡ some xs
unfolding strip_comma
strip_comma-append [] = refl
strip_comma-append (x ∷ []) = refl
strip_comma-append (x ∷ y ∷ ys) = rw (strip_comma-append (y ∷ ys)) refl

adjust-comma : (xs : Bytes) → adjust (xs ++ 44 ∷ []) true ≡ ok xs
unfolding adjust
adjust-comma xs = rw (strip_comma-append xs, adjust) refl

adjust-bare : (xs : Bytes) → adjust xs false ≡ ok xs
unfolding adjust
adjust-bare xs = refl

-- A quoted text has no byte to decode, or a first one, behind bytes that stand for themselves.
Escapes-cases :
    {body value : Bytes}
    → Escapes body value
    → ((body ≡ value) × Without (is_either 34 92) body)
      ⊎ ((clean : Bytes) × (body' : Bytes) × (value' : Bytes) × Without (is_either 34 92) clean
          × (body ≡ clean ++ 92 ∷ body')
          × (value ≡ clean ++ value')
          × Escapes (92 ∷ body') value')
Escapes-cases nothing = inl (refl, tt)
Escapes-cases (itself {b = c} plain e) = elim (Escapes-cases e) [
  | inl (same, free) ↦ inl (rw same refl, (plain, free))
  | inr (clean, body', value', free, b, v, e') ↦
      inr (c ∷ clean, body', value', (plain, free), rw b refl, rw v refl, e')
]
Escapes-cases (letter l e) = inr ([], _, _, tt, refl, refl, letter l e)
Escapes-cases (digits x y z p q r e) = inr ([], _, _, tt, refl, refl, digits x y z p q r e)

Without-append : (xs : Bytes) → Without (is_byte 9) xs → Without (is_byte 9) (xs ++ 44 ∷ [])
Without-append [] w = (refl, tt)
Without-append (x ∷ xs) (p, w) = (p, Without-append xs w)

null_free : Without (is_byte 9) (codes "NULL")
null_free = (refl, (refl, (refl, (refl, tt))))

module _ (search : Search) where
  read_quoted-clean :
      (front rest : Bytes) (comma : Bool) (body : Bytes)
      → Without (is_either 34 92) body
      → FieldRead front rest
          (some body)
          (read_quoted search (at front (34 ∷ (body ++ 34 ∷ (separator comma ++ rest)))) comma)
  unfolding read_quoted
  read_quoted-clean front rest comma body free =
      let tail = separator comma ++ rest in
      let opened_front = front ++ 34 ∷ [] in
      let opened = consume-at front (34 ∷ []) (body ++ 34 ∷ tail) 1 refl in
      let shape : (body ++ 34 ∷ []) ++ tail ≡ body ++ 34 ∷ tail =
        append_assoc body (34 ∷ []) tail in
      let found = find2-first search 34 92 opened_front body tail free in
      let closed = rw shape at (
        consume-at opened_front (body ++ 34 ∷ []) tail (length body + 1)
          (sym (length-append body (34 ∷ [])))) in
      let closed_front = opened_front ++ (body ++ 34 ∷ []) in
      rw (opened, read_quoted)
        (rw (found, ◌>>=◌)
          (rw (closed, ◌>>=◌)
            (rw (consume_field_separator-at closed_front rest comma, ◌>>=◌)
              (record {
                place = some (length opened_front, length body);
                front' = closed_front ++ separator comma;
                more = (34 ∷ (body ++ 34 ∷ [])) ++ separator comma;
                extends = simp append_assoc refl;
                returns = refl;
                stores = (opened_front, 34 ∷ separator comma, simp append_assoc refl, refl, refl);
              }))))

  read_quoted-escaped :
      (front rest : Bytes) (comma : Bool) (clean body value : Bytes)
      → Without (is_either 34 92) clean
      → Escapes (92 ∷ body) value
      → FieldRead front rest (some (clean ++ value)) (
          read_quoted search
            (at front (34 ∷ (clean ++ 92 ∷ (body ++ 34 ∷ (separator comma ++ rest)))))
            comma)
  unfolding read_quoted
  read_quoted-escaped front rest comma clean body value free e =
      let tail = separator comma ++ rest in
      let opened_front = front ++ 34 ∷ [] in
      let opened = consume-at front (34 ∷ []) (clean ++ 92 ∷ (body ++ 34 ∷ tail)) 1 refl in
      let found = find2-second search 34 92 opened_front clean (body ++ 34 ∷ tail) free in
      let (gap, converted) = convert_backslashes-Escapes opened_front clean tail e in
      let closed_front = opened_front ++ (clean ++ (value ++ gap)) in
      rw (opened, read_quoted)
        (rw (found, ◌>>=◌)
          (rw (converted, ◌>>=◌)
            (rw (consume_field_separator-at closed_front rest comma, ◌>>=◌)
              (record {
                place = some (length opened_front, length (clean ++ value));
                front' = closed_front ++ separator comma;
                more = (34 ∷ (clean ++ (value ++ gap))) ++ separator comma;
                extends = simp append_assoc refl;
                returns = refl;
                stores = (opened_front, gap ++ separator comma, simp append_assoc refl, refl, refl);
              }))))

  read_quoted-FieldRead :
      (front rest : Bytes) (comma : Bool) {body value : Bytes}
      → Escapes body value
      → FieldRead front rest
          (some value)
          (read_quoted search (at front (34 ∷ (body ++ 34 ∷ (separator comma ++ rest)))) comma)
  read_quoted-FieldRead front rest comma {body} {value} e = elim (Escapes-cases e) [
    | inl (same, free) ↦ rw (← same) (read_quoted-clean front rest comma body free)
    | inr (clean, body', value', free, b, v, e') ↦
        rw (b, v)
          (rw append_assoc (read_quoted-escaped front rest comma clean body' value' free e'))
  ]

  -- A bare text, or `NULL`; the value is what the text is taken for.
  read_plain-at :
      (front rest text : Bytes) (comma : Bool)
      → Without (is_byte 9) text
      → read_plain search (at front (text ++ (separator comma ++ rest))) comma
        ≡ ok (
          if same_bytes text (codes "NULL") then none else some (length front, length text),
          at (front ++ (text ++ separator comma)) rest,
        )
  unfolding read_plain
  read_plain-at front rest text true free =
      let shape : (text ++ 44 ∷ []) ++ 9 ∷ rest ≡ text ++ 44 ∷ 9 ∷ rest =
        append_assoc text (44 ∷ []) (9 ∷ rest) in
      let shape' : (text ++ 44 ∷ []) ++ 9 ∷ [] ≡ text ++ 44 ∷ 9 ∷ [] =
        append_assoc text (44 ∷ []) (9 ∷ []) in
      let cut =
        rw (shape, shape') at
          (split-at search 9 front (text ++ 44 ∷ []) rest (Without-append text free)) in
      rw (cut, read_plain) (rw (adjust-comma text, ◌>>=◌) refl)
  read_plain-at front rest text false free =
      rw (split-at search 9 front text rest free, read_plain) (rw (adjust-bare text, ◌>>=◌) refl)

  pub read_field-FieldRead :
      (front rest text : Bytes) (i : ℕ) (comma : Bool) {value : Option Bytes}
      → Cell text value
      → FieldRead front rest value
          (read_field search i (at front (text ++ (separator comma ++ rest))) comma)
  unfolding read_field
  read_field-FieldRead front rest text i comma null =
      rw (peek-at front (codes "NULL" ++ (separator comma ++ rest)), read_field)
        (rw (read_plain-at front rest (codes "NULL") comma null_free) (record {
          place = none;
          front' = front ++ (codes "NULL" ++ separator comma);
          more = codes "NULL" ++ separator comma;
          extends = refl;
          returns = refl;
          stores = tt;
        }))
  read_field-FieldRead front rest text i comma (bare {c} {cs} plain free word) =
      let not_bracket : (c == 93) ≡ false = ground arith in
      let not_quote : (c == 34) ≡ false = ground arith in
      rw (peek-at front ((c ∷ cs) ++ (separator comma ++ rest)), read_field)
        (rw (not_bracket, not_quote)
          (rw (read_plain-at front rest (c ∷ cs) comma free) (
            rw word (record {
              place = some (length front, length (c ∷ cs));
              front' = front ++ ((c ∷ cs) ++ separator comma);
              more = (c ∷ cs) ++ separator comma;
              extends = refl;
              returns = refl;
              stores = (front, separator comma, refl, refl, refl);
            }))))
  read_field-FieldRead front rest text i comma (quoted {body} e) =
      let shape : (body ++ 34 ∷ []) ++ (separator comma ++ rest)
          ≡ body ++ 34 ∷ (separator comma ++ rest) =
        append_assoc body (34 ∷ []) (separator comma ++ rest) in
      rw shape (
        rw (peek-at front (34 ∷ (body ++ 34 ∷ (separator comma ++ rest))), read_field)
          (read_quoted-FieldRead front rest comma e))
