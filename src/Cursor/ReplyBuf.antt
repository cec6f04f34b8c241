-- ===== src/Cursor/ReplyBuf.antt =====
-- `ReplyBuf` of src/cursor/replies.rs: the bytes of a reply, and how far they are used up.
pub mod Front
pub mod Escapes
pub mod Decode
pub mod Convert
use monetdb_rust.Prelude.{
  ℕ, zero, suc, ◌+◌, ◌-◌, ◌*◌, ◌%◌, Bool, true, false, not, ◌&&◌, List, [], ◌∷◌, ◌++◌, ltb, leb,
  ◌==◌, if◌then◌else◌, Bytes, length, take, drop, get_elem?, Option, none, some, Outcome, ok, err,
  panic, ◌>>=◌, ◌>>◌, assert, unwrap,
}
use monetdb_rust.Cursor.Search.{Search}

-- What is wrong with a header; the messages are made of these parts.
pub data HeaderFault : Type 0 where
  expected_ok : Bytes → HeaderFault
  expected_prefix : Bytes → HeaderFault
  not_enough_items : ℕ → Bytes → HeaderFault
  cannot_parse_item : ℕ → Bytes → HeaderFault
  invalid_autocommit : Bytes → HeaderFault
  expected_hash : HeaderFault
  expected_header : Bytes → Bytes → HeaderFault
  too_many_in_header : HeaderFault
  too_few_in_header : HeaderFault
  bad_column : ℕ → HeaderFault

-- The errors that the modelled code makes; the texts that they quote are kept.
pub data BadReply : Type 0 where
  unexpected_end : BadReply
  sep_not_found : ℕ → BadReply
  unexpected_header : Bytes → BadReply
  too_few_columns : ℕ → BadReply
  invalid_backslash_escape : BadReply
  column_index_out_of_bounds : ℕ → ℕ → BadReply
  unicode : Bytes → BadReply
  unknown_response : Bytes → BadReply
  invalid_header : HeaderFault → BadReply
  too_many_columns : ℕ → BadReply
  too_many_included_rows : ℕ → ℕ → BadReply
  invalid_quoted_identifier : BadReply

pub record ReplyBuf : Type 0 where
  pub data' : Bytes
  pub pos : ℕ

-- A method on `&mut self`: the buffer behind it is returned with an error too.
abbrev pub Reply : Type 0 → Type 0
Reply A = Outcome (BadReply × ReplyBuf) (A × ReplyBuf)

abbrev pub new : Bytes → ReplyBuf
new vec = record { data' = vec; pos = 0 }

unfoldable pub peek : ReplyBuf → Bytes
peek me = drop me.pos me.data'

unfoldable pub is_empty : ReplyBuf → Bool
is_empty me = length (peek me) == 0

-- A sum above the range of `usize` is above the length of the data too, and is the same error.
unfoldable pub consume : ReplyBuf → ℕ → Reply Bytes
consume me nbytes =
    let newpos = me.pos + nbytes in
    if leb newpos (length me.data')
    then ok (take nbytes (drop me.pos me.data'), record me { pos = newpos })
    else err (unexpected_end, me)

-- `range`, with the sum as for `consume`.
unfoldable pub range : ReplyBuf → ℕ → ℕ → Outcome BadReply Bytes
range me start len =
    if leb (start + len) (length me.data')
    then ok (take len (drop start me.data'))
    else err unexpected_end

module _ (search : Search) where
  open search use {memchr, memchr2}

  unfoldable pub find : ReplyBuf → ℕ → Option ℕ
  find me byte = memchr byte (peek me)

  -- The place, and the byte that stands there.
  unfoldable pub find2 : ReplyBuf → ℕ → ℕ → Option (ℕ × ℕ)
  find2 me byte1 byte2 = elim (memchr2 byte1 byte2 (peek me)) [
    | none ↦ none
    | some i ↦ elim (get_elem? (peek me) i) [ none ↦ none | some byte ↦ some (i, byte) ]
  ]

  unfoldable pub split : ReplyBuf → ℕ → Reply Bytes
  split me sep = elim (find me sep) [
    | none ↦ err (if is_empty me then unexpected_end else sep_not_found sep, me)
    | some end ↦ do (ret, me') ← consume me (end + 1); ok (take end ret, me')
  ]

-- `memmem` is `memchr::memmem::find`, with the text to search in first.
unfoldable pub find_line : (memmem : Bytes → Bytes → Option ℕ) → ReplyBuf → ℕ → Option ℕ
find_line memmem me first = elim (peek me) [
  | [] ↦ none
  | c ∷ cs ↦
      if c == first
      then some 0
      else elim (memmem (c ∷ cs) (10 ∷ first ∷ [])) [ none ↦ none | some idx ↦ some (idx + 1) ]
]

-- `is_utf8` is the check of `from_utf8`.
unfoldable pub split_str :
    (search : Search) → (is_utf8 : Bytes → Bool) → ReplyBuf → ℕ → Bytes → Reply Bytes
unfolding split
split_str search is_utf8 me sep context = do
  (head, me') ← split search me sep
  if is_utf8 head then ok (head, me') else err (unicode context, me')

-- `wrapping_sub` on bytes
abbrev pub wrapping_sub : ℕ → ℕ → ℕ
wrapping_sub a b = (a + 256 - b) % 256

-- The letters that may stand behind a backslash, and what they mean.
unfoldable pub unescape_letter : ℕ → Option ℕ
unescape_letter chr =
    if chr == 116
    then some 9
    else if chr == 110
    then some 10
    else if chr == 102
    then some 12
    else if chr == 114
    then some 13
    else if chr == 92
    then some 92
    else if chr == 34
    then some 34
    else none

-- `data[wr] = byte`, which the code does through a raw pointer; out of bounds it would be undefined.
unfoldable pub write : Bytes → ℕ → ℕ → Outcome (BadReply × Bytes) Bytes
write [] wr byte = panic
write (x ∷ xs) zero byte = ok (byte ∷ xs)
write (x ∷ xs) (suc wr) byte = do xs' ← write xs wr byte; ok (x ∷ xs')

-- A read through a raw pointer.
abbrev pub read : Bytes → ℕ → Outcome (BadReply × Bytes) ℕ
read data' rd = unwrap (get_elem? data' rd)

-- The three octal digits behind a backslash, of which `chr` is the first: the byte, and the place
-- behind. The bits of the digits do not overlap, so that `|` is `+` and the mask is a bound on each.
unfoldable pub octal : Bytes → ℕ → ℕ → ℕ → Outcome (BadReply × Bytes) (ℕ × ℕ)
octal data' rd avail chr = if ltb avail 3 then err (unexpected_end, data') else (do
  b2 ← read data' rd
  b3 ← read data' (rd + 1)
  let e1 = wrapping_sub chr 48
  let e2 = wrapping_sub b2 48
  let e3 = wrapping_sub b3 48
  if ltb e2 8 && ltb e3 8
      then ok (64 * e1 + 8 * e2 + e3, rd + 2)
      else err (invalid_backslash_escape, data'))

-- What stands behind a backslash at `rd`: the byte it means, and the place behind it.
unfoldable pub escaped : Bytes → ℕ → Outcome (BadReply × Bytes) (ℕ × ℕ)
escaped data' rd =
    let avail = length data' - rd in
    if ltb avail 1 then err (invalid_backslash_escape, data') else (do
      chr ← read data' rd
      elim (unescape_letter chr) [
        | some byte ↦ ok (byte, rd + 1)
        | none ↦
            if leb 48 chr && leb chr 51
            then octal data' (rd + 1) avail chr
            else err (invalid_backslash_escape, data')
      ])

-- The loop of `convert_backslashes`: `wr` and `rd` are the offsets of the two pointers. Each round
-- reads a byte, so the length of the data bounds the rounds.
unfoldable pub convert_loop : ℕ → Bytes → ℕ → ℕ → Outcome (BadReply × Bytes) (Bytes × ℕ × ℕ)
convert_loop zero data' wr rd = panic
convert_loop (suc fuel) data' wr rd = elim (rd == length data') [
  | true ↦ err (unexpected_end, data')
  | false ↦ do
    b ← read data' rd
    elim (b == 92) [
      | true ↦ do
        (byte, rd') ← escaped data' (rd + 1)
        data'' ← write data' wr byte
        convert_loop fuel data'' (wr + 1) rd'
      | false ↦ elim (b == 34) [
        | true ↦ ok (data', wr, rd + 1)
        | false ↦ do data'' ← write data' wr b; convert_loop fuel data'' (wr + 1) (rd + 1)
      ]
    ]
]

unfoldable pub convert_backslashes : ReplyBuf → ℕ → Reply Bytes
convert_backslashes me skip =
    let start = me.pos + skip in
    if leb start (length me.data')
    then (elim (convert_loop (suc (length me.data')) me.data' start start) [
      | ok (data'', wr, rd) ↦
          ok (take (wr - me.pos) (drop me.pos data''), record { data' = data''; pos = rd })
      | err (why, data'') ↦ err (why, record me { data' = data'' })
      | panic ↦ panic
    ])
    else panic
