-- ===== src/Cursor/Replies/Stuck.antt =====
-- A result of lines that are not cut, left with its rows unread.
use monetdb_rust.Prelude.{
  ℕ, zero, suc, ◌+◌, ◌≡◌, ◌≤◌, refl, Bool, true, false, ◌==◌, List, [], ◌∷◌, arith, Bytes, codes,
  length, starts_with, Option, none, some, ok, panic, leb,
}
use monetdb_rust.Cursor.Search.{Search}
use monetdb_rust.Cursor.ReplyBuf.{ReplyBuf, peek, consume, find_line}
use monetdb_rust.Cursor.RowSet.{new_noslice, finish, min_option, bound_or}
use monetdb_rust.Cursor.Replies.{ResultSet, results}
use monetdb_rust.Cursor.Replies.Parse.{
  parse, parse_noslice, leave, into_next_reply, exhaust, count_noslice,
}
use monetdb_rust.Cursor.Types.{varchar}

-- The reply begins with a line that begins with `=`, and not with `=OK`.
pub record AtNoslice (buf : ReplyBuf) : Type 0 where
  pub rest : Bytes
  pub ahead : peek buf ≡ 61 ∷ rest
  pub not_ok : starts_with rest (79 ∷ 75 ∷ 10 ∷ []) ≡ false
  pub inside : buf.pos ≤ length buf.data'

module _ (search : Search) (is_utf8 : Bytes → Bool) (lines : Bytes → List Bytes)
    (reserves : ℕ → Bool) (memmem : Bytes → Bytes → Option ℕ) (buf : ReplyBuf)
    (a : AtNoslice buf) where
  parse-at :
      parse search is_utf8 lines reserves buf ≡ parse_noslice search is_utf8 lines reserves buf
  unfolding parse
  parse-at =
      let more : (suc (length a.rest) == 0) ≡ false = ground arith in
      rw (a.ahead) (rw (a.not_ok) (rw more refl))

  result : ResultSet
  unfolding parse_noslice
  result = record {
    result_id = 0;
    prepared = false;
    next_row = 0;
    total_rows = count_noslice (lines (peek buf));
    rows_included = count_noslice (lines (peek buf));
    columns = record { table_name = []; name = codes "rel"; typ = varchar 0 } ∷ [];
    row_set = new_noslice buf;
    stashed = none;
    to_close = none;
  }

  parse-result : parse search is_utf8 lines reserves buf ≡ ok (results result)
  unfolding result parse_noslice
  parse-result = parse-at

  own_line : find_line memmem buf 61 ≡ some 0
  unfolding find_line
  own_line = rw (a.ahead, find_line) refl

  boundary_here :
      bound_or (min_option (find_line memmem buf 38) (find_line memmem buf 61)) (length (peek buf))
      ≡ 0
  boundary_here = rw own_line (at_start (find_line memmem buf 38))
    where
      at_start : (o : Option ℕ) → bound_or (min_option o (some 0)) (length (peek buf)) ≡ 0
      at_start none = refl
      at_start (some i) = omega arith

  finish-here : finish memmem (new_noslice buf) ≡ ok buf
  unfolding finish consume
  finish-here =
      let same : buf.pos + 0 ≡ buf.pos = omega arith in
      let inside : leb buf.pos (length buf.data') ≡ true = ground (arith, a.inside) in
      rw boundary_here (rw same (rw inside refl))

  into_next_reply-result :
      into_next_reply search is_utf8 lines reserves memmem (results result)
      ≡ ok (results result, none)
  unfolding into_next_reply leave result
  into_next_reply-result = rw finish-here (rw parse-result refl)

  exhaust-result :
      (fuel : ℕ) → exhaust search is_utf8 lines reserves memmem fuel (results result) ≡ panic
  unfolding exhaust
  exhaust-result zero = refl
  exhaust-result (suc fuel) = rw (into_next_reply-result) (rw (exhaust-result fuel) refl)

  -- Where a reply begins with a line that is not cut into fields, `parse` gives a result set; as long
  -- as no row of it is read, the next reply is the same result set again, with nothing to be closed,
  -- so that no number of rounds is enough for `exhaust`.
  pub exhaust-stuck :
      (rs : ResultSet) × (parse search is_utf8 lines reserves buf ≡ ok (results rs))
      × (into_next_reply search is_utf8 lines reserves memmem (results rs) ≡ ok (results rs, none))
      × ((fuel : ℕ) → exhaust search is_utf8 lines reserves memmem fuel (results rs) ≡ panic)
  exhaust-stuck = (result, parse-result, into_next_reply-result, exhaust-result)
