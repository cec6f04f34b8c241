-- ===== src/Cursor/ReplyBuf/Convert.antt =====
-- `convert_backslashes` of src/cursor/replies.rs decodes in place, and damages no byte outside the field.
use monetdb_rust.Prelude.{
  take-append, drop-append, ℕ, zero, suc, ◌+◌, ◌-◌, ◌*◌, ◌<◌, ◌≡◌, refl, sym, ◌∙◌, true, false, [],
  ◌∷◌, ◌++◌, arith, append_assoc, Bytes, length, take, drop, get_elem?, length-append,
  get_elem?-append, leb, ◌==◌, some, ok, ◌>>=◌,
}
use monetdb_rust.Cursor.Search.{is_either}
use monetdb_rust.Cursor.ReplyBuf.{Reply, write, escaped, convert_loop, convert_backslashes}
use monetdb_rust.Cursor.ReplyBuf.Front.{at}
use monetdb_rust.Cursor.ReplyBuf.Escapes.{Escapes, nothing, itself, letter, digits}
use monetdb_rust.Cursor.ReplyBuf.Decode.{
  Converts, Converts-push, write_behind, escaped-letter, escaped-digits, unescape_letter-Letter,
}

-- A byte stands at `rd`.
abbrev Reads : Bytes → ℕ → ℕ → Type 0
Reads data' rd x = ((rd == length data') ≡ false) × (get_elem? data' rd ≡ some x)

Reads-behind :
    (front gap tail : Bytes) (x rd : ℕ)
    → rd ≡ length front + length gap
    → Reads (front ++ (gap ++ x ∷ tail)) rd x
Reads-behind front gap tail x rd k =
    let inner : length (gap ++ x ∷ tail) ≡ length gap + suc (length tail) =
      length-append gap (x ∷ tail) in
    let size : length (front ++ (gap ++ x ∷ tail)) ≡ length front + length (gap ++ x ∷ tail) =
      length-append front (gap ++ x ∷ tail) in
    (
      ground (arith, inner, size),
      get_elem?-append front (gap ++ x ∷ tail) rd (length gap) k
          ∙ get_elem?-append gap (x ∷ tail) (length gap) 0 (omega arith),
    )

loop_itself :
    (fuel : ℕ) (data' data'' : Bytes) (wr rd b : ℕ)
    → Reads data' rd b
    → is_either 34 92 b ≡ false
    → write data' wr b ≡ ok data''
    → convert_loop (suc fuel) data' wr rd ≡ convert_loop fuel data'' (wr + 1) (rd + 1)
unfolding convert_loop
loop_itself fuel data' data'' wr rd b (inside, there) plain w =
    let not_quote : (b == 34) ≡ false = ground arith in
    let not_backslash : (b == 92) ≡ false = ground arith in
    rw (inside, convert_loop) (rw there (rw (not_backslash, ◌>>=◌) (rw not_quote (rw w refl))))

loop_escaped :
    (fuel : ℕ) (data' data'' : Bytes) (wr rd rd' b : ℕ)
    → Reads data' rd 92
    → escaped data' (rd + 1) ≡ ok (b, rd')
    → write data' wr b ≡ ok data''
    → convert_loop (suc fuel) data' wr rd ≡ convert_loop fuel data'' (wr + 1) rd'
unfolding convert_loop
loop_escaped fuel data' data'' wr rd rd' b (inside, there) e w =
    rw (inside, convert_loop) (rw there (rw e (rw w refl)))

loop_closed :
    (fuel : ℕ) (data' : Bytes) (wr rd : ℕ)
    → Reads data' rd 34
    → convert_loop (suc fuel) data' wr rd ≡ ok (data', wr, rd + 1)
unfolding convert_loop
loop_closed fuel data' wr rd (inside, there) = rw (inside, convert_loop) (rw there refl)

behind_backslash :
    (front gap : Bytes) (rd : ℕ)
    → rd ≡ length front + length gap
    → rd + 1 ≡ length (front ++ (gap ++ 92 ∷ []))
behind_backslash front gap rd k =
    omega (arith, length-append front (gap ++ 92 ∷ []), length-append gap (92 ∷ []))

split_backslash :
    (front gap tail : Bytes) → (front ++ (gap ++ 92 ∷ [])) ++ tail ≡ front ++ (gap ++ 92 ∷ tail)
split_backslash front gap tail = rw append_assoc (rw append_assoc refl)

-- The loop on a field whose text stands behind `front` and `gap`, with a quote behind it.
pub convert_loop-Converts :
    (fuel : ℕ) {body value : Bytes} (e : Escapes body value) (front gap rest : Bytes) (wr rd : ℕ)
    → wr ≡ length front
    → rd ≡ length front + length gap
    → length body < fuel
    → Converts front value rest (convert_loop fuel (front ++ (gap ++ (body ++ 34 ∷ rest))) wr rd)
convert_loop-Converts zero e front gap rest wr rd h k f = absurd (omega arith)
convert_loop-Converts (suc fuel) nothing front gap rest wr rd h k f =
    let closed = loop_closed fuel _ wr rd (Reads-behind front gap rest 34 rd k) in
    rw closed (record {
      gap = gap ++ 34 ∷ [];
      wr = wr;
      rd = rd + 1;
      returns = rw append_assoc refl;
      wr_is = omega arith;
      rd_is = omega (arith, length-append gap (34 ∷ []));
    })
convert_loop-Converts (suc fuel) (itself {b} {body} plain e) front gap rest wr rd h k f =
    let (gap', written, size) = write_behind front gap [] (body ++ 34 ∷ rest) b b wr h in
    let round =
      loop_itself fuel _ _ wr rd b (Reads-behind front gap (body ++ 34 ∷ rest) b rd k) plain
        written in
    let next = length-append front (b ∷ []) in
    rw round (
      Converts-push (
        convert_loop-Converts fuel e (front ++ b ∷ []) gap' rest (wr + 1) (rd + 1)
          (omega (arith, next)) (omega (arith, next, size)) (omega arith)))
convert_loop-Converts (suc fuel) (letter {c} {b} {body} l e) front gap rest wr rd h k f =
    let tail = body ++ 34 ∷ rest in
    let (gap', written, size) = write_behind front gap (c ∷ []) tail 92 b wr h in
    let means =
      escaped-letter (front ++ (gap ++ 92 ∷ [])) tail c b (rd + 1) (behind_backslash front gap rd k)
        (unescape_letter-Letter l) in
    let round =
      loop_escaped fuel _ _ wr rd (rd + 1 + 1) b (Reads-behind front gap (c ∷ tail) 92 rd k)
        (rw (split_backslash front gap (c ∷ tail)) at means) written in
    let next = length-append front (b ∷ []) in
    rw round (
      Converts-push (
        convert_loop-Converts fuel e (front ++ b ∷ []) gap' rest (wr + 1) (rd + 1 + 1)
          (omega (arith, next)) (omega (arith, next, size)) (omega arith)))
convert_loop-Converts (suc fuel) (digits x y z {body} p q r e) front gap rest wr rd h k f =
    let tail = body ++ 34 ∷ rest in
    let text : Bytes = (48 + x) ∷ (48 + y) ∷ (48 + z) ∷ [] in
    let b = 64 * x + 8 * y + z in
    let (gap', written, size) = write_behind front gap text tail 92 b wr h in
    let means =
      escaped-digits (front ++ (gap ++ 92 ∷ [])) tail x y z (rd + 1)
        (behind_backslash front gap rd k) p q r in
    let round =
      loop_escaped fuel _ _ wr rd (rd + 1 + 1 + 2) b (Reads-behind front gap (text ++ tail) 92 rd k)
        (rw (split_backslash front gap (text ++ tail)) at means) written in
    let next = length-append front (b ∷ []) in
    rw round (
      Converts-push (
        convert_loop-Converts fuel e (front ++ b ∷ []) gap' rest (wr + 1) (rd + 1 + 1 + 2)
          (omega (arith, next)) (omega (arith, next, size)) (omega arith)))

-- What the method makes of the loop's answer.
answer :
    (front clean value gap rest : Bytes) (wr rd : ℕ)
    → wr ≡ length front + length clean + length value
    → rd ≡ length front + length clean + length value + length gap
    → Path
        (Reply Bytes)
        (ok (
          take
              (wr - length front)
              (drop (length front) ((front ++ clean) ++ (value ++ (gap ++ rest)))),
          record { data' = (front ++ clean) ++ (value ++ (gap ++ rest)); pos = rd },
        ))
        (ok (clean ++ value, at (front ++ (clean ++ (value ++ gap))) rest))
answer front clean value gap rest wr rd w r =
    let shape : (front ++ clean) ++ (value ++ (gap ++ rest))
        ≡ (front ++ (clean ++ (value ++ gap))) ++ rest =
      rw append_assoc (rw append_assoc (rw append_assoc (rw append_assoc refl))) in
    let shape' : (front ++ clean) ++ (value ++ (gap ++ rest))
        ≡ front ++ ((clean ++ value) ++ (gap ++ rest)) =
      rw append_assoc (rw append_assoc refl) in
    let place : rd ≡ length (front ++ (clean ++ (value ++ gap))) = omega (
      arith,
      r,
      length-append front (clean ++ (value ++ gap)),
      length-append clean (value ++ gap),
      length-append value gap,
    ) in
    let behind : drop (length front) ((front ++ clean) ++ (value ++ (gap ++ rest)))
        ≡ (clean ++ value) ++ (gap ++ rest) =
      rw shape' (drop-append (length front) front _ refl) in
    let cut : take (wr - length front) ((clean ++ value) ++ (gap ++ rest)) ≡ clean ++ value =
      take-append (wr - length front) (clean ++ value) (gap ++ rest)
        (omega (arith, w, length-append clean value)) in
    rw (behind, cut, shape, place) refl

-- On a buffer that stands behind the opening quote of a field, with `skip` the number of bytes in front
-- of the first escape, `convert_backslashes` does not fail: it returns the bytes that the text of the
-- field stands for. The buffer then stands behind the closing quote; its bytes in front of the field
-- and behind it are unchanged, and those of the field begin with the returned ones.
pub convert_backslashes-Escapes :
    (front clean rest : Bytes) {body value : Bytes}
    → Escapes body value
    → (gap : Bytes) × (convert_backslashes (at front (clean ++ (body ++ 34 ∷ rest))) (length clean)
        ≡ ok (clean ++ value, at (front ++ (clean ++ (value ++ gap))) rest))
unfolding convert_backslashes
convert_backslashes-Escapes front clean rest {body} {value} e =
    let data' = front ++ (clean ++ (body ++ 34 ∷ rest)) in
    let text = body ++ 34 ∷ rest in
    let start = length front + length clean in
    let size : length data' ≡ length front + length (clean ++ text) =
      length-append front (clean ++ text) in
    let size' : length (clean ++ text) ≡ length clean + length text = length-append clean text in
    let size'' : length text ≡ length body + suc (length rest) = length-append body (34 ∷ rest) in
    let inside : leb start (length data') ≡ true = ground (arith, size, size', size'') in
    let c =
      convert_loop-Converts (suc (length data')) e (front ++ clean) [] rest start start
        (sym (length-append front clean)) (omega (arith, length-append front clean))
        (omega (arith, size, size', size'')) in
    let whole : (front ++ clean) ++ text ≡ data' = append_assoc front clean text in
    let done = rw whole at c.returns in
    (
      c.gap,
      rw (inside, done)
          (answer front clean value c.gap rest c.wr c.rd
            (omega (arith, c.wr_is, length-append front clean))
            (omega (arith, c.rd_is, length-append front clean))),
    )
