-- ===== src/Cursor/Replies/Sound.antt =====
-- What is known of a reply that was parsed.
use monetdb_rust.Prelude.{
  ℕ, zero, suc, ◌+◌, ◌≡◌, ◌≤◌, inl, inr, refl, Bool, Bool-cases, Option-cases, leb, List, [], ◌∷◌,
  arith, Bytes, codes, length, length-drop, drop, starts_with, same_bytes, Option, Outcome, ok, err,
  panic, Returns, Returns-bind, Returns-ensure,
}
use monetdb_rust.Cursor.Search.{Search}
use monetdb_rust.Cursor.ReplyBuf.{ReplyBuf, BadReply, peek, consume, find, split, split_str}
use monetdb_rust.Cursor.RowSet.{forget_buf}
use monetdb_rust.Cursor.Replies.Headers.{
  read_items, update_columns, update_from_line, split_once_on, split_fields,
}

-- The buffer behind has no more bytes to come than the one in front.
abbrev pub Shrinks : {A : Type 0} → ReplyBuf → A × ReplyBuf → Type 0
Shrinks buf (a, buf') = length (peek buf') ≤ length (peek buf)

consume-Shrinks : (buf : ReplyBuf) (n : ℕ) → Returns (Shrinks buf) (consume buf n)
unfolding consume peek
consume-Shrinks buf n = elim (Bool-cases (leb (buf.pos + n) (length buf.data'))) [
  | inl fits ↦
      rw fits (omega (arith, length-drop (buf.pos + n) buf.data', length-drop buf.pos buf.data'))
  | inr over ↦ rw over tt
]

pub forget-Returns :
    {A : Type 0} (P : A → Type 0) (m : Outcome (BadReply × ReplyBuf) A)
    → Returns P m
    → Returns P (forget_buf m)
forget-Returns P (ok a) h = h
forget-Returns P (err (e, buf)) h = tt
forget-Returns P panic h = h

module _ (search : Search) (is_utf8 : Bytes → Bool) where
  pub split-Shrinks : (buf : ReplyBuf) (sep : ℕ) → Returns (Shrinks buf) (split search buf sep)
  unfolding split
  split-Shrinks buf sep = elim (Option-cases (find search buf sep)) [
    | inl e ↦ rw (e, split) tt
    | inr (end, e) ↦
        rw (e, split)
          (Returns-bind (Shrinks buf) (Shrinks buf) (consume buf (end + 1)) _
            (consume-Shrinks buf (end + 1)) (λ r h. h))
  ]

  pub split_str-Shrinks :
      (buf : ReplyBuf) (sep : ℕ) (context : Bytes)
      → Returns (Shrinks buf) (forget_buf (split_str search is_utf8 buf sep context))
  unfolding split_str
  split_str-Shrinks buf sep context = forget-Returns (Shrinks buf) _ (
      Returns-bind (Shrinks buf) (Shrinks buf) (split search buf sep) _ (split-Shrinks buf sep)
        (λ r h. elim (Bool-cases (is_utf8 r.0)) [ inl e ↦ rw e h | inr e ↦ rw e tt ]))

pub read_items-length :
    {T : Type 0} (parse_one : Bytes → Option T) (n i left : ℕ) (line : Bytes) (parts : List Bytes)
    → Returns (λ items. length items ≡ left) (read_items parse_one n i left line parts)
unfolding read_items
read_items-length parse_one n i zero line parts = refl
read_items-length parse_one n i (suc left) line [] = tt
read_items-length parse_one n i (suc left) line (p ∷ parts) = elim (Option-cases (parse_one p)) [
  | inl e ↦ rw (e, read_items) tt
  | inr (value, e) ↦
      rw (e, read_items)
        (Returns-bind (λ items. length items ≡ left) _
          (read_items parse_one n (i + 1) left line parts) _
          (read_items-length parse_one n (i + 1) left line parts) (λ rest h. omega (arith, h)))
]

update_columns-length :
    {C : Type 0} (f : C → Bytes → Option C) (i : ℕ) (cols : List C) (parts : List Bytes)
    → Returns (λ cols'. length cols' ≡ length cols) (update_columns f i cols parts)
unfolding update_columns
update_columns-length f i [] [] = refl
update_columns-length f i (col ∷ cols) [] = tt
update_columns-length f i [] (part ∷ parts) = tt
update_columns-length f i (col ∷ cols) (part ∷ parts) = elim (Option-cases (f col part)) [
  | inl e ↦ rw (e, update_columns) tt
  | inr (col', e) ↦
      rw (e, update_columns)
        (Returns-bind (λ cols'. length cols' ≡ length cols) _ (update_columns f (i + 1) cols parts)
          _ (update_columns-length f (i + 1) cols parts) (λ rest h. omega (arith, h)))
]

pub update_from_line-length :
    {C : Type 0} (f : C → Bytes → Option C) (kind : Bytes) (cols : List C) (line : Bytes)
    → Returns (λ cols'. length cols' ≡ length cols) (update_from_line f kind cols line)
unfolding update_from_line
update_from_line-length f kind cols line = elim (Bool-cases (starts_with line (codes "% "))) [
  | inr e ↦ rw e tt
  | inl e ↦ elim (Option-cases (split_once_on (codes " # ") (drop 2 line))) [
    | inl e' ↦ rw (e, e', update_from_line) tt
    | inr ((body, found), e') ↦
        rw (e, e', update_from_line)
          (Returns-ensure _ (same_bytes found kind) _ _
            (λ _. update_columns-length f 0 cols (split_fields body)))
  ]
]
