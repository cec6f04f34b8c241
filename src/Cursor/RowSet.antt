-- ===== src/Cursor/RowSet.antt =====
-- `RowSet` of src/cursor/rowset.rs: the rows of a result set, one at a time, as places in the reply.
pub mod Text
pub mod Stored
pub mod Fields
pub mod Advance
use monetdb_rust.Prelude.{
  ℕ, zero, suc, ◌+◌, Bool, true, false, not, List, [], ◌∷◌, ltb, ◌==◌, if◌then◌else◌, Bytes, codes,
  length, same_bytes, starts_with, get_elem?, map, replicate, Option, none, some, min, Outcome, ok,
  err, panic, ◌>>=◌, ◌>>◌,
}
use monetdb_rust.Cursor.Search.{Search}
use monetdb_rust.Cursor.ReplyBuf.{
  ReplyBuf, Reply, BadReply, unexpected_end, sep_not_found, unexpected_header, too_few_columns,
  column_index_out_of_bounds, peek, consume, find_line, range, find2, split, convert_backslashes,
}

-- The place of a field in the reply: its start and its length; nothing for NULL.
abbrev pub Place : Type 0
Place = Option (ℕ × ℕ)

pub record RowSet : Type 0 where
  pub buf : ReplyBuf
  pub ncols : ℕ
  pub fields : List Place
  pub noslice : Bool

abbrev pub new : ReplyBuf → ℕ → RowSet
new buf ncols = record { buf = buf; ncols = ncols; fields = replicate ncols none; noslice = false }

abbrev pub new_noslice : ReplyBuf → RowSet
new_noslice buf = record { buf = buf; ncols = 1; fields = none ∷ []; noslice = true }

unfoldable pub has_pending_row : RowSet → Bool
has_pending_row me = starts_with (peek me.buf) (codes "[")

unfoldable pub consume_field_separator : ReplyBuf → Bool → Reply (Unit {0})
consume_field_separator buf comma =
    let expected = if comma then 44 ∷ 9 ∷ [] else 9 ∷ [] in
    if ltb (length (peek buf)) (length expected)
    then err (unexpected_end, buf)
    else if not (starts_with (peek buf) expected)
    then err (sep_not_found (if comma then 44 else 9), buf)
    else (do (_, buf') ← consume buf (length expected); ok (tt, buf'))

-- `strip_suffix(b",")`
unfoldable pub strip_comma : Bytes → Option Bytes
strip_comma [] = none
strip_comma (x ∷ []) = if x == 44 then some [] else none
strip_comma (x ∷ y ∷ ys) = elim (strip_comma (y ∷ ys)) [ none ↦ none | some zs ↦ some (x ∷ zs) ]

-- The text of a field without quotes, where a comma has to follow it and where none may.
unfoldable pub adjust : Bytes → Bool → Outcome BadReply Bytes
unfolding strip_comma
adjust rough false = ok rough
adjust rough true = elim (strip_comma rough) [
  | some adjusted ↦ ok adjusted
  | none ↦ if length rough == 0 then err unexpected_end else err (sep_not_found 44)
]

abbrev with_buf : ReplyBuf → Outcome BadReply Bytes → Reply Bytes
with_buf buf (ok a) = ok (a, buf)
with_buf buf (err e) = err (e, buf)
with_buf buf panic = panic

module _ (search : Search) where
  -- A field that begins with a quote.
  unfoldable pub read_quoted : ReplyBuf → Bool → Reply Place
  read_quoted buf comma = do
    (_, buf) ← consume buf 1
    elim (find2 search buf 34 92) [
      | none ↦ err (unexpected_end, buf)
      | some (at, char) ↦ elim (char == 34) [
        | true ↦ do
          (_, buf') ← consume buf (at + 1)
          (_, buf'') ← consume_field_separator buf' comma
          ok (some (buf.pos, at), buf'')
        | false ↦ do
          (unescaped, buf') ← convert_backslashes buf at
          (_, buf'') ← consume_field_separator buf' comma
          ok (some (buf.pos, length unescaped), buf'')
      ]
    ]

  unfoldable pub read_plain : ReplyBuf → Bool → Reply Place
  read_plain buf comma = do
    (rough, buf') ← split search buf 9
    (adjusted, buf') ← with_buf buf' (adjust rough comma)
    ok (if same_bytes adjusted (codes "NULL") then none else some (buf.pos, length adjusted), buf')

  -- The body of the loop over the fields, for the field with index `i`.
  unfoldable pub read_field : ℕ → ReplyBuf → Bool → Reply Place
  read_field i buf comma = elim (peek buf) [
    | [] ↦ err (unexpected_end, buf)
    | first ∷ _ ↦
        if first == 93
        then err (too_few_columns i, buf)
        else if first == 34
        then read_quoted buf comma
        else read_plain buf comma
  ]

  -- The loop, from index `i` on; an error empties the fields, so that it need not return them.
  unfoldable pub read_fields : ℕ → ℕ → List Place → ReplyBuf → Reply (List Place)
  read_fields ncols i [] buf = ok ([], buf)
  read_fields ncols i (_ ∷ fields) buf = do
    (field, buf) ← read_field i buf (ltb (i + 1) ncols)
    (rest, buf) ← read_fields ncols (i + 1) fields buf
    ok (field ∷ rest, buf)

  unfoldable pub read_row : RowSet → Reply (List Place)
  read_row me =
      if ltb (length (peek me.buf)) 2
      then err (unexpected_end, me.buf)
      else if not (starts_with (peek me.buf) (codes "[ "))
      then err (unexpected_header (peek me.buf), me.buf)
      else (do
        (_, buf) ← consume me.buf 2
        (fields, buf) ← read_fields me.ncols 0 me.fields buf
        if ltb (length (peek buf)) 2
            then err (unexpected_end, buf)
            else if not (starts_with (peek buf) (93 ∷ 10 ∷ []))
            then err (sep_not_found 93, buf)
            else (do (_, buf) ← consume buf 2; ok (fields, buf)))

  -- A row that is one line behind `=`: the text is the only field.
  unfoldable pub read_line : RowSet → Reply (List Place)
  read_line me = do
    (_, buf) ← consume me.buf 1
    (value, buf') ← split search buf 10
    elim me.fields [ [] ↦ panic | _ ∷ fields ↦ ok (some (buf.pos, length value) ∷ fields, buf') ]

  abbrev no_row : RowSet → RowSet
  no_row me = record me { fields = map (λ _. none) me.fields }

  -- `advance` around `do_advance`: the fields are emptied by an error.
  abbrev settle : RowSet → Reply (List Place) → Outcome (BadReply × RowSet) (Bool × RowSet)
  settle me (ok (fields, buf)) = ok (true, record me { fields = fields; buf = buf })
  settle me (err (why, buf)) = err (why, record me { fields = []; buf = buf })
  settle me panic = panic

  unfoldable pub advance : RowSet → Outcome (BadReply × RowSet) (Bool × RowSet)
  advance me = elim me.noslice [
    | true ↦
        if starts_with (peek me.buf) (codes "=")
        then settle me (read_line me)
        else ok (false, no_row me)
    | false ↦ if has_pending_row me then settle me (read_row me) else ok (false, no_row me)
  ]

-- What stands at the place of a field; the error is for an index that is out of bounds.
abbrev pub field_at : ReplyBuf → Option Place → BadReply → Outcome BadReply (Option Bytes)
field_at buf none missing = err missing
field_at buf (some none) missing = ok none
field_at buf (some (some (start, len))) missing = do bytes ← range buf start len; ok (some bytes)

unfoldable pub get_field_raw : RowSet → ℕ → Outcome BadReply (Option Bytes)
get_field_raw me idx =
    field_at me.buf (get_elem? me.fields idx) (column_index_out_of_bounds idx (length me.fields))

-- The smaller one, if both are there.
abbrev pub min_option : Option ℕ → Option ℕ → Option ℕ
min_option none b = b
min_option (some a) none = some a
min_option (some a) (some b) = some (min a b)

-- An error of `finish` keeps no buffer.
abbrev pub forget_buf {ℓ} : {A : Type ℓ} → Outcome (BadReply × ReplyBuf) A → Outcome BadReply A
forget_buf (ok a) = ok a
forget_buf (err (e, _)) = err e
forget_buf panic = panic

abbrev pub bound_or : Option ℕ → ℕ → ℕ
bound_or none n = n
bound_or (some i) n = i

unfoldable pub finish : (memmem : Bytes → Bytes → Option ℕ) → RowSet → Outcome BadReply ReplyBuf
unfolding find_line consume
finish memmem me = do
  (_, buf) ← forget_buf (
      consume me.buf (
        bound_or (min_option (find_line memmem me.buf 38) (find_line memmem me.buf 61))
          (length (peek me.buf))))
  ok buf
