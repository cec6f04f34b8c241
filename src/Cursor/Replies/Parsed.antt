-- ===== src/Cursor/Replies/Parsed.antt =====
-- `ReplyParser::parse` returns sound replies, or refuses.
use monetdb_rust.Prelude.{
  ℕ, zero, suc, ◌-◌, ◌*◌, ◌≡◌, ◌≤◌, ◌<◌, ◌⊎◌, inl, inr, refl, ◌∙◌, Bool, true, false, Bool-cases,
  ltb, leb, List, arith, Bytes, codes, length, drop, min, replicate, starts_with, Option, none,
  some, Returns, Returns-bind, Returns-ensure, Returns-mono,
}
use monetdb_rust.Cursor.Search.{Search}
use monetdb_rust.Cursor.ReplyBuf.{ReplyBuf, peek, split, split_str}
use monetdb_rust.Cursor.RowSet.{forget_buf}
use monetdb_rust.Cursor.Notices.{pieces_of}
use monetdb_rust.Cursor.Replies.{
  ResultColumn, ResultSet, ReplyParser, exhausted, error, success, results, tx,
}
use monetdb_rust.Cursor.Replies.Headers.{
  trim_ascii, is_space, has_header_prefix, parse_header_line, update_from_line, parse_header,
  parse_data_header,
}
use monetdb_rust.Cursor.Replies.Columns.{
  empty_column, set_table_name, set_name, set_type, set_length, set_typesizes,
}
use monetdb_rust.Cursor.Replies.Sound.{
  Shrinks, forget-Returns, split-Shrinks, split_str-Shrinks, read_items-length,
  update_from_line-length,
}
use monetdb_rust.Cursor.Replies.Parse.{
  usize_max, close_later, parse_typesizes, parse_columns, row_set_of, parse_result,
}

-- A result set as it is when it was just parsed.
pub record SoundResult (buf : ReplyBuf) (rs : ResultSet) : Type 0 where
  pub included : rs.rows_included ≤ rs.total_rows
  pub at_first : rs.next_row ≡ 0
  pub unstashed : rs.stashed ≡ none
  pub allocated : min ((length rs.columns - 1) * 10) usize_max ≤ length (peek buf)
  pub rows : (rs.row_set.noslice ≡ true) ⊎ (rs.row_set.ncols ≡ length rs.columns)
  pub closing :
      ((rs.to_close ≡ none) × ((rs.prepared ≡ true) ⊎ (rs.rows_included ≡ rs.total_rows)))
      ⊎ ((rs.to_close ≡ some rs.result_id)
          × (rs.prepared ≡ false)
          × (rs.rows_included < rs.total_rows))

abbrev pub SoundReply : ReplyBuf → ReplyParser → Type 0
SoundReply buf (exhausted vec) = length (peek buf) ≡ 0
SoundReply buf (error buf') = length (peek buf') ≤ length (peek buf)
SoundReply buf (success buf' affected) = length (peek buf') ≤ length (peek buf)
SoundReply buf (results rs) = SoundResult buf rs
SoundReply buf (tx buf') = length (peek buf') ≤ length (peek buf)

close_later-closing :
    (prepared : Bool) (included total id : ℕ)
    → included ≤ total
    → ((close_later prepared included total id ≡ none) × ((prepared ≡ true) ⊎ (included ≡ total)))
      ⊎ ((close_later prepared included total id ≡ some id)
          × (prepared ≡ false)
          × (included < total))
unfolding close_later
close_later-closing true included total id h = inl (refl, inl refl)
close_later-closing false included total id h = elim (Bool-cases (ltb included total)) [
  | inl less ↦ inr (rw less refl, refl, ground arith)
  | inr same ↦ inl (rw same refl, inr (ground arith))
]

module _ (search : Search) (is_utf8 : Bytes → Bool) where
  -- As many items as were asked for.
  abbrev pub Sized : {T : Type 0} → ℕ → ReplyBuf → List T × ReplyBuf → Type 0
  Sized n buf (items, buf') = (length items ≡ n) × (length (peek buf') ≤ length (peek buf))

  pub parse_header-Sized :
      {T : Type 0} (parse_one : Bytes → Option T) (n : ℕ) (buf : ReplyBuf)
      → Returns (Sized n buf) (parse_header search is_utf8 parse_one n buf)
  unfolding parse_header parse_header_line
  parse_header-Sized parse_one n buf =
      Returns-bind (Shrinks buf) (Sized n buf)
        (forget_buf (split_str search is_utf8 buf 10 (codes "header line"))) _
        (split_str-Shrinks search is_utf8 buf 10 (codes "header line"))
        (λ r h.
          let line = trim_ascii r.0 in
          Returns-bind (λ items. length items ≡ n) (Sized n buf)
            (parse_header_line parse_one n line) _
            (Returns-ensure (λ items. length items ≡ n) (has_header_prefix line) _ _
              (λ _. read_items-length parse_one n 0 n line (pieces_of is_space (drop 3 line))))
            (λ items k. (k, h)))

  parse_data_header-Sized :
      {C : Type 0} (f : C → Bytes → Option C) (kind : Bytes) (cols : List C) (buf : ReplyBuf)
      → Returns (Sized (length cols) buf) (parse_data_header search is_utf8 f kind cols buf)
  unfolding parse_data_header
  parse_data_header-Sized f kind cols buf =
      Returns-bind (Shrinks buf) (Sized (length cols) buf) (forget_buf (split search buf 10)) _
        (forget-Returns (Shrinks buf) _ (split-Shrinks search is_utf8 buf 10))
        (λ r h. Returns-ensure (Sized (length cols) buf) (is_utf8 r.0) _ _ (λ _.
          Returns-bind (λ cols'. length cols' ≡ length cols) (Sized (length cols) buf)
            (update_from_line f kind cols r.0) _ (update_from_line-length f kind cols r.0)
            (λ cols' k. (k, h))))

length-replicate : {A : Type 0} (n : ℕ) (a : A) → length (replicate n a) ≡ n
length-replicate zero a = refl
length-replicate (suc n) a = omega (arith, length-replicate n a)

module _ (search : Search) (is_utf8 : Bytes → Bool) (lines : Bytes → List Bytes)
    (reserves : ℕ → Bool) where
  abbrev Columns : ℕ → List ResultColumn × ReplyBuf → Type 0
  Columns n r = length r.0 ≡ n

  header-Columns :
      (f : ResultColumn → Bytes → Option ResultColumn) (kind : Bytes) (cols : List ResultColumn)
      (n : ℕ) (buf : ReplyBuf)
      → length cols ≡ n
      → Returns (Columns n) (parse_data_header search is_utf8 f kind cols buf)
  header-Columns f kind cols n buf h =
      Returns-mono (Sized search is_utf8 (length cols) buf) (Columns n) _
        (parse_data_header-Sized search is_utf8 f kind cols buf) (λ r k. k.0 ∙ h)

  parse_columns-Columns :
      (n : ℕ) (buf : ReplyBuf)
      → Returns (Columns n) (parse_columns search is_utf8 lines reserves n buf)
  unfolding parse_columns parse_typesizes
  parse_columns-Columns n buf =
      Returns-bind (Columns n) (Columns n)
        (parse_data_header search is_utf8 set_table_name (codes "table_name")
          (replicate n empty_column) buf)
        _
        (header-Columns set_table_name (codes "table_name") (replicate n empty_column) n buf
          (length-replicate n empty_column))
        (λ a ha.
          Returns-bind (Columns n) (Columns n)
            (parse_data_header search is_utf8 set_name (codes "name") a.0 a.1) _
            (header-Columns set_name (codes "name") a.0 n a.1 ha)
            (λ b hb.
              Returns-bind (Columns n) (Columns n)
                (parse_data_header search is_utf8 set_type (codes "type") b.0 b.1) _
                (header-Columns set_type (codes "type") b.0 n b.1 hb)
                (λ c hc.
                  Returns-bind (Columns n) (Columns n)
                    (parse_data_header search is_utf8 set_length (codes "length") c.0 c.1) _
                    (header-Columns set_length (codes "length") c.0 n c.1 hc)
                    (λ d hd. elim (Bool-cases (starts_with (peek d.1) (codes "="))) [
                      | inl e ↦ rw e hd
                      | inr e ↦ rw e (header-Columns set_typesizes (codes "typesizes") d.0 n d.1 hd)
                    ]))))

  row_set_of-rows :
      (buf : ReplyBuf) (n : ℕ)
      → ((row_set_of search is_utf8 lines reserves buf n).noslice ≡ true)
        ⊎ ((row_set_of search is_utf8 lines reserves buf n).ncols ≡ n)
  unfolding row_set_of
  row_set_of-rows buf n = elim (Bool-cases (starts_with (peek buf) (codes "="))) [
    | inl e ↦ rw e (inl refl)
    | inr e ↦ rw e (inr refl)
  ]

  pub parse_result-Sound :
      (prepared : Bool) (result_id rows_total ncols rows_included : ℕ) (start buf : ReplyBuf)
      → length (peek buf) ≤ length (peek start)
      → Returns (SoundReply start) (
          parse_result search is_utf8 lines reserves prepared result_id rows_total ncols
            rows_included buf)
  unfolding parse_result
  parse_result-Sound prepared result_id rows_total ncols rows_included start buf h =
      Returns-ensure (SoundReply start) (leb rows_included rows_total) _ _ (λ included.
        Returns-ensure (SoundReply start) (leb ncols usize_max) _ _ (λ _.
          Returns-ensure (SoundReply start)
            (leb (min ((ncols - 1) * 10) usize_max) (length (peek buf))) _ _
            (λ allocated. Returns-ensure (SoundReply start) (reserves ncols) _ _ (λ _.
              Returns-bind (Columns ncols) (SoundReply start)
                (parse_columns search is_utf8 lines reserves ncols buf) _
                (parse_columns-Columns ncols buf)
                (λ r k. record {
                  included = ground arith;
                  at_first = refl;
                  unstashed = refl;
                  allocated = rw k (ground (arith, h));
                  rows = row_set_of-rows r.1 (length r.0);
                  closing =
                      close_later-closing prepared rows_included rows_total result_id
                        (ground arith);
                })))))
