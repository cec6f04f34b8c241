-- ===== src/Cursor/ReplyTests.antt =====
-- Runs of the reply parser at concrete inputs, and its properties at inputs that meet their hypotheses.
use monetdb_rust.Prelude.{
  ℕ, suc, ◌≡◌, ◌≢◌, ◌==◌, ◌<◌, refl, sym, ◌∙◌, Bool, true, Bool-cases, Option-cases, inl, inr, List,
  [], ◌∷◌, ◌++◌, arith, Bytes, codes, length, starts_with, Option, none, some, ok, panic, Returns,
  if◌then◌else◌, read_digits, read_nat, parse_i64, pos,
}
use monetdb_rust.Cursor.Search.Linear.{linear}
use monetdb_rust.Cursor.ReplyBuf
use monetdb_rust.Cursor.ReplyBuf.{ReplyBuf, BadReply, peek, consume, find, split, split_str}
use monetdb_rust.Cursor.Notices.{
  pieces_of, is_newline, parse_autocommit_line, filter_map, last_of, response_autocommit,
  server_error, error_of, error_message,
}
use monetdb_rust.Cursor.Notices.Lines.{Finds, response_autocommit-lines}
use monetdb_rust.Cursor.Replies.{ResultSet, results, success}
use monetdb_rust.Cursor.Replies.Headers.{parse_header, parse_header_line, read_items}
use monetdb_rust.Cursor.Replies.Parse.{parse, into_next_reply, exhaust, parse_successful_update}
use monetdb_rust.Cursor.Replies.Parsed.{SoundReply}
use monetdb_rust.Cursor.Replies.Accepted.{parse-Sound}
use monetdb_rust.Cursor.Replies.Stuck.{AtNoslice, exhaust-stuck}

any_bytes : Bytes → Bool
any_bytes text = true

any_number : ℕ → Bool
any_number n = true

abbrev whole : Bytes → List Bytes
whole text = text ∷ []

some_line : (text : Bytes) → 0 < length text → whole text ≢ []
some_line text h e = cc

-- A search for a text at one place after the other.
abbrev naive : Bytes → Bytes → Option ℕ
naive [] needle = if starts_with [] needle then some 0 else none
naive (c ∷ cs) needle =
    if starts_with (c ∷ cs) needle
    then some 0
    else elim (naive cs needle) [ none ↦ none | some i ↦ some (suc i) ]

starts_with-front : (needle behind : Bytes) → starts_with (needle ++ behind) needle ≡ true
starts_with-front [] behind = refl
starts_with-front (x ∷ xs) behind =
    let same : (x == x) ≡ true = ground arith in rw same (starts_with-front xs behind)

naive-here : (text needle : Bytes) → starts_with text needle ≡ true → naive text needle ≡ some 0
naive-here [] needle h = rw h refl
naive-here (c ∷ cs) needle h = rw h refl

naive-Finds : Finds naive
naive-Finds [] needle behind e =
    let wrong : Path (Option ℕ) none (some 0) =
      sym e ∙ naive-here (needle ++ behind) needle (starts_with-front needle behind) in
    cc
naive-Finds (c ∷ front) needle behind e =
    elim (Bool-cases (starts_with (c ∷ (front ++ needle ++ behind)) needle)) [
      | inl here ↦ let wrong : Path (Option ℕ) (some 0) none = rw here at e in cc
      | inr later ↦ elim (Option-cases (naive (front ++ needle ++ behind) needle)) [
        | inl missed ↦ naive-Finds front needle behind missed
        | inr (i, found) ↦
            let wrong : Path (Option ℕ) (some (suc i)) none = rw found at (rw later at e) in cc
      ]
    ]

-- The witnesses.
response_autocommit-lines_example :
    (response_autocommit naive (codes "x" ++ 10 ∷ codes "&4 t")
      ≡ last_of (
          filter_map parse_autocommit_line (pieces_of is_newline (codes "x" ++ 10 ∷ codes "&4 t"))))
    × (server_error naive (λ text. text) (codes "x" ++ 10 ∷ codes "&4 t")
        ≡ error_of naive
            (λ text. text)
            (filter_map error_message (pieces_of is_newline (codes "x" ++ 10 ∷ codes "&4 t"))))
response_autocommit-lines_example =
    response_autocommit-lines naive (λ text. text) (codes "x" ++ 10 ∷ codes "&4 t") naive-Finds

parse-Sound_example :
    Returns
      (SoundReply (ReplyBuf.new (codes "&2 42 7" ++ 10 ∷ codes "=OK")))
      (parse linear any_bytes whole any_number (ReplyBuf.new (codes "&2 42 7" ++ 10 ∷ codes "=OK")))
parse-Sound_example =
    parse-Sound linear any_bytes whole any_number some_line
      (ReplyBuf.new (codes "&2 42 7" ++ 10 ∷ codes "=OK"))

abbrev plan : ReplyBuf
plan = ReplyBuf.new (codes "=project (" ++ 10 ∷ codes "=)" ++ 10 ∷ [])

plan-AtNoslice : AtNoslice plan
unfolding peek
plan-AtNoslice = record { rest = _; ahead = refl; not_ok = refl; inside = omega arith }

exhaust-stuck_example :
    (rs : ResultSet) × (parse linear any_bytes whole any_number plan ≡ ok (results rs))
    × (into_next_reply linear any_bytes whole any_number naive (results rs) ≡ ok (results rs, none))
    × ((fuel : ℕ) → exhaust linear any_bytes whole any_number naive fuel (results rs) ≡ panic)
exhaust-stuck_example = exhaust-stuck linear any_bytes whole any_number naive plan plan-AtNoslice

updates_42 :
    parse linear any_bytes whole any_number (ReplyBuf.new (codes "&2 42 7" ++ 10 ∷ []))
    ≡ ok (success (record { data' = codes "&2 42 7" ++ 10 ∷ []; pos = 8 }) (some (pos 42)))
unfolding parse parse_successful_update parse_header parse_header_line read_items split_str split
    find consume peek pieces_of parse_i64 read_nat read_digits any_bytes
updates_42 = refl
