-- ===== src/Cursor/Replies/Accepted.antt =====
-- Every reply: what `ReplyParser::parse` makes of it.
use monetdb_rust.Prelude.{
  ℕ, ◌≡◌, ◌≢◌, ◌≤◌, ◌<◌, inl, inr, refl, Bool, true, false, Bool-cases, ◌==◌, List, [], ◌∷◌, arith,
  Bytes, codes, length, starts_with, same_bytes, some, Outcome, ok, err, ◌>>=◌, unwrap, Returns,
  Returns-bind, if◌then◌else◌, ℤ, parse_i64, parse_uint,
}
use monetdb_rust.Cursor.Search.{Search}
use monetdb_rust.Cursor.ReplyBuf.{ReplyBuf, BadReply, peek, split_str, unknown_response}
use monetdb_rust.Cursor.RowSet.{forget_buf}
use monetdb_rust.Cursor.Notices.{parse_autocommit_line, is_none}
use monetdb_rust.Cursor.Replies.{ReplyParser, success}
use monetdb_rust.Cursor.Replies.Headers.{trim_ascii, parse_header}
use monetdb_rust.Cursor.Replies.Sound.{Shrinks, split_str-Shrinks}
use monetdb_rust.Cursor.Replies.Parsed.{SoundReply, Sized, parse_header-Sized, parse_result-Sound}
use monetdb_rust.Cursor.Replies.Parse.{
  usize_max, first_line, first_item, parse_successful_update, parse_successful_other, parse_ok,
  parse_noslice, parse_autocommit_status, parse_error, parse_result_fields, parse_data,
  parse_unknown, parse,
}

split_on :
    {A : Type 0} (P : A → Type 0) (b : Bool) (m n : Outcome BadReply A)
    → (b ≡ true → Returns P m)
    → (b ≡ false → Returns P n)
    → Returns P (if b then m else n)
split_on P true m n h k = h refl
split_on P false m n h k = k refl

module _ (search : Search) (is_utf8 : Bytes → Bool) (lines : Bytes → List Bytes)
    (reserves : ℕ → Bool) (some_line : (text : Bytes) → 0 < length text → lines text ≢ []) where
  line-Sound :
      (buf : ReplyBuf) (context : Bytes) (f : Bytes × ReplyBuf → Outcome BadReply ReplyParser)
      → ((r : Bytes × ReplyBuf)
          → length (peek r.1) ≤ length (peek buf)
          → Returns (SoundReply buf) (f r))
      → Returns (SoundReply buf) (forget_buf (split_str search is_utf8 buf 10 context) >>= f)
  line-Sound buf context f k =
      Returns-bind (Shrinks buf) (SoundReply buf)
        (forget_buf (split_str search is_utf8 buf 10 context)) f
        (split_str-Shrinks search is_utf8 buf 10 context) k

  parse_data-Sound :
      (prepared : Bool) (buf : ReplyBuf)
      → Returns (SoundReply buf) (parse_data search is_utf8 lines reserves prepared buf)
  unfolding parse_data parse_result_fields
  parse_data-Sound prepared buf =
      Returns-bind (Sized search is_utf8 4 buf) (SoundReply buf)
        (parse_header search is_utf8 (parse_uint usize_max) 4 buf) _
        (parse_header-Sized search is_utf8 (parse_uint usize_max) 4 buf)
        (λ r h. fields r.0 r.1 h.0 h.1)
    where
      fields :
          (items : List ℕ) (behind : ReplyBuf)
          → length items ≡ 4
          → length (peek behind) ≤ length (peek buf)
          → Returns
              (SoundReply buf)
              (parse_result_fields search is_utf8 lines reserves prepared items behind)
      fields (a ∷ b ∷ c ∷ d ∷ []) behind h k =
          parse_result-Sound search is_utf8 lines reserves prepared a b c d buf behind k
      fields [] behind h k = absurd (omega arith)
      fields (a ∷ []) behind h k = absurd (omega arith)
      fields (a ∷ b ∷ []) behind h k = absurd (omega arith)
      fields (a ∷ b ∷ c ∷ []) behind h k = absurd (omega arith)
      fields (a ∷ b ∷ c ∷ d ∷ e ∷ rest) behind h k = absurd (omega arith)

  parse-ok-Sound :
      (buf : ReplyBuf) → Returns (SoundReply buf) (parse_ok search is_utf8 lines reserves buf)
  unfolding parse_ok
  parse-ok-Sound buf =
      line-Sound buf (codes "success line") _ (λ r h.
        elim (Bool-cases (same_bytes r.0 (codes "=OK"))) [ inl e ↦ rw e h | inr e ↦ rw e tt ])

  parse_autocommit_status-Sound :
      (buf : ReplyBuf)
      → Returns (SoundReply buf) (parse_autocommit_status search is_utf8 lines reserves buf)
  unfolding parse_autocommit_status
  parse_autocommit_status-Sound buf = line-Sound buf (codes "header line") _ (λ r h.
      elim (Bool-cases (is_none (parse_autocommit_line (trim_ascii r.0)))) [
        | inl e ↦ rw e tt
        | inr e ↦ rw e h
      ])

  parse_error-Sound :
      (buf : ReplyBuf) → Returns (SoundReply buf) (parse_error search is_utf8 lines reserves buf)
  unfolding parse_error
  parse_error-Sound buf = line-Sound buf (codes "error header") _ (λ r h. h)

  parse_successful_update-Sound :
      (buf : ReplyBuf)
      → Returns (SoundReply buf) (parse_successful_update search is_utf8 lines reserves buf)
  unfolding parse_successful_update
  parse_successful_update-Sound buf =
      Returns-bind (Sized search is_utf8 1 buf) (SoundReply buf)
        (parse_header search is_utf8 parse_i64 1 buf) _
        (parse_header-Sized search is_utf8 parse_i64 1 buf) (λ r h. one r.0 r.1 h.0 h.1)
    where
      one :
          (items : List ℤ) (behind : ReplyBuf)
          → length items ≡ 1
          → length (peek behind) ≤ length (peek buf)
          → Returns {E = BadReply}
              (SoundReply buf)
              (unwrap (first_item items) >>= λ affected. ok (success behind (some affected)))
      one [] behind h k = absurd (omega arith)
      one (i ∷ is) behind h k = k

  parse_successful_other-Sound :
      (buf : ReplyBuf)
      → Returns (SoundReply buf) (parse_successful_other search is_utf8 lines reserves buf)
  unfolding parse_successful_other
  parse_successful_other-Sound buf =
      Returns-bind (Sized search is_utf8 0 buf) (SoundReply buf)
        (parse_header search is_utf8 parse_i64 0 buf) _
        (parse_header-Sized search is_utf8 parse_i64 0 buf) (λ r h. h.1)

  parse_noslice-Sound :
      (buf : ReplyBuf) → Returns (SoundReply buf) (parse_noslice search is_utf8 lines reserves buf)
  unfolding parse_noslice
  parse_noslice-Sound buf = record {
    included = omega arith;
    at_first = refl;
    unstashed = refl;
    allocated = omega arith;
    rows = inl refl;
    closing = inl (refl, inr refl);
  }

  parse_unknown-Sound :
      (buf : ReplyBuf) (ahead : Bytes)
      → 0 < length ahead
      → Returns (SoundReply buf) (parse_unknown search is_utf8 lines reserves ahead)
  unfolding parse_unknown
  parse_unknown-Sound buf ahead h = go (lines ahead) (some_line ahead h)
    where
      go :
          (ls : List Bytes)
          → ls ≢ []
          → Returns {E = BadReply}
              (SoundReply buf)
              (unwrap (first_line ls) >>= λ line. err (unknown_response line))
      go [] k = k refl
      go (line ∷ rest) k = tt

  -- Where the crate bstr finds a line in every text that is not empty, the parser does not panic. A reply
  -- that it accepts is sound: at most as many rows as there are in all, none read yet; as many columns
  -- as the row set reads, unless its rows are not cut, and no more of them than the text behind can
  -- describe; to be closed later just if it is not prepared and rows are missing. An exhausted parser is
  -- at the end of the response, and all others are not in front of where they started.
  pub parse-Sound :
      (buf : ReplyBuf) → Returns (SoundReply buf) (parse search is_utf8 lines reserves buf)
  unfolding parse
  parse-Sound buf =
      split_on (SoundReply buf) (length (peek buf) == 0) _ _ (λ e. ground arith)
        (λ more.
          split_on (SoundReply buf) (starts_with (peek buf) (codes "&1")) _ _
            (λ _. parse_data-Sound false buf)
            (λ _.
              split_on (SoundReply buf) (starts_with (peek buf) (codes "&2")) _ _
                (λ _. parse_successful_update-Sound buf)
                (λ _.
                  split_on (SoundReply buf) (starts_with (peek buf) (codes "&3")) _ _
                    (λ _. parse_successful_other-Sound buf)
                    (λ _.
                      split_on (SoundReply buf) (starts_with (peek buf) (codes "&4")) _ _
                        (λ _. parse_autocommit_status-Sound buf)
                        (λ _.
                          split_on (SoundReply buf) (starts_with (peek buf) (codes "&5")) _ _
                            (λ _. parse_data-Sound true buf)
                            (λ _.
                              split_on (SoundReply buf) (starts_with (peek buf) (codes "!")) _ _
                                (λ _. parse_error-Sound buf)
                                (λ _.
                                  split_on (SoundReply buf)
                                    (starts_with (peek buf) (61 ∷ 79 ∷ 75 ∷ 10 ∷ [])) _ _
                                    (λ _. parse-ok-Sound buf)
                                    (λ _.
                                      split_on (SoundReply buf) (starts_with (peek buf) (codes "="))
                                        _ _ (λ _. parse_noslice-Sound buf)
                                        (λ _.
                                          parse_unknown-Sound buf (peek buf) (ground arith))))))))))
