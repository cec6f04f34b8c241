-- ===== src/Cursor/ReplyBuf/Decode.antt =====
-- The steps of `convert_backslashes` of src/cursor/replies.rs: one escape, and one byte written.
use monetdb_rust.Prelude.{
  ℕ, zero, suc, ◌+◌, ◌-◌, ◌*◌, ◌≤◌, ◌<◌, ◌≡◌, refl, sym, ap, ◌∙◌, true, false, [], ◌∷◌, ◌++◌, arith,
  append_assoc, Bytes, length, get_elem?, length-append, get_elem?-append, ltb, leb, ◌&&◌, some,
  none, Outcome, ok, ◌>>=◌,
}
use monetdb_rust.Cursor.ReplyBuf.{BadReply, write, unescape_letter, octal, escaped}
use monetdb_rust.Cursor.ReplyBuf.Escapes.{
  Letter, tab, newline, form_feed, carriage_return, backslash, quote,
}

-- The loop has put `value` behind `front`, some bytes that are left over behind that, and stands at `rest`.
pub record Converts (front value rest : Bytes) (m : Outcome (BadReply × Bytes) (Bytes × ℕ × ℕ))
    : Type 0 where
  pub gap : Bytes
  pub wr : ℕ
  pub rd : ℕ
  pub returns : m ≡ ok (front ++ (value ++ (gap ++ rest)), wr, rd)
  pub wr_is : wr ≡ length front + length value
  pub rd_is : rd ≡ length front + length value + length gap

pub Converts-push :
    {front value rest : Bytes} {b : ℕ} {m : Outcome (BadReply × Bytes) (Bytes × ℕ × ℕ)}
    → Converts (front ++ b ∷ []) value rest m
    → Converts front (b ∷ value) rest m
Converts-push {front} {b = b} c =
    let size : length (front ++ b ∷ []) ≡ length front + 1 = length-append front (b ∷ []) in
    record {
      gap = c.gap;
      wr = c.wr;
      rd = c.rd;
      returns = rw append_assoc at c.returns;
      wr_is = omega (arith, size, c.wr_is);
      rd_is = omega (arith, size, c.rd_is);
    }

write-append :
    (front ys : Bytes) (x b n : ℕ)
    → n ≡ length front
    → write (front ++ x ∷ ys) n b ≡ ok (front ++ b ∷ ys)
unfolding write
write-append [] ys x b zero h = refl
write-append [] ys x b (suc n) h = absurd (omega arith)
write-append (z ∷ front) ys x b zero h = absurd (omega arith)
write-append (z ∷ front) ys x b (suc n) h = rw (write-append front ys x b n (omega arith))

-- One byte is written where `gap` or, if that is empty, the bytes just read stand.
pub write_behind :
    (front gap used tail : Bytes) (u b n : ℕ)
    → n ≡ length front
    → (gap' : Bytes) × (write (front ++ (gap ++ (u ∷ (used ++ tail)))) n b
        ≡ ok ((front ++ b ∷ []) ++ (gap' ++ tail)))
      × (length gap' ≡ length gap + length used)
write_behind front [] used tail u b n h = (
  used,
  write-append front (used ++ tail) u b n h
      ∙ ap (λ (z : Bytes). ok z) (sym (append_assoc front (b ∷ []) (used ++ tail))),
  omega arith,
)
write_behind front (g ∷ gap) used tail u b n h = (
  gap ++ (u ∷ used),
  write-append front (gap ++ (u ∷ (used ++ tail))) g b n h
      ∙ ap (λ (z : Bytes). ok z)
          (sym (
            append_assoc front (b ∷ []) ((gap ++ u ∷ used) ++ tail)
            ∙ ap (λ (z : Bytes). front ++ b ∷ z) (append_assoc gap (u ∷ used) tail))),
  omega (arith, length-append gap (u ∷ used)),
)

pub unescape_letter-Letter : {c b : ℕ} → Letter c b → unescape_letter c ≡ some b
unfolding unescape_letter
unescape_letter-Letter tab = refl
unescape_letter-Letter newline = refl
unescape_letter-Letter form_feed = refl
unescape_letter-Letter carriage_return = refl
unescape_letter-Letter backslash = refl
unescape_letter-Letter quote = refl

pub escaped-letter :
    (pre tail : Bytes) (c b rd : ℕ)
    → rd ≡ length pre
    → unescape_letter c ≡ some b
    → escaped (pre ++ c ∷ tail) rd ≡ ok (b, rd + 1)
unfolding escaped
escaped-letter pre tail c b rd h e =
    let size : length (pre ++ c ∷ tail) ≡ length pre + suc (length tail) =
      length-append pre (c ∷ tail) in
    let enough : ltb (length (pre ++ c ∷ tail) - rd) 1 ≡ false = ground (arith, size) in
    let there : get_elem? (pre ++ c ∷ tail) rd ≡ some c =
      get_elem?-append pre (c ∷ tail) rd 0 (omega arith) in
    rw (enough, there) cc

unescape_letter-digit : (x : ℕ) → x < 4 → unescape_letter (48 + x) ≡ none
unfolding unescape_letter
unescape_letter-digit x p = ground arith

octal-digits :
    (pre tail : Bytes) (x y z rd avail : ℕ)
    → rd ≡ length pre
    → 3 ≤ avail
    → x < 4
    → y < 8
    → z < 8
    → octal (pre ++ (48 + y) ∷ (48 + z) ∷ tail) rd avail (48 + x) ≡ ok (64 * x + 8 * y + z, rd + 2)
unfolding octal
octal-digits pre tail x y z rd avail h enough p q r =
    let second = get_elem?-append pre ((48 + y) ∷ (48 + z) ∷ tail) rd 0 (omega arith) in
    let third = get_elem?-append pre ((48 + y) ∷ (48 + z) ∷ tail) (rd + 1) 1 (omega arith) in
    rw (second, third) (ground arith)

pub escaped-digits :
    (pre tail : Bytes) (x y z rd : ℕ)
    → rd ≡ length pre
    → x < 4
    → y < 8
    → z < 8
    → escaped (pre ++ (48 + x) ∷ (48 + y) ∷ (48 + z) ∷ tail) rd
      ≡ ok (64 * x + 8 * y + z, rd + 1 + 2)
unfolding escaped
escaped-digits pre tail x y z rd h p q r =
    let text : Bytes = (48 + x) ∷ (48 + y) ∷ (48 + z) ∷ tail in
    let size : length (pre ++ text) ≡ length pre + length text = length-append pre text in
    let enough : ltb (length (pre ++ text) - rd) 1 ≡ false = ground (arith, size) in
    let there : get_elem? (pre ++ text) rd ≡ some (48 + x) =
      get_elem?-append pre text rd 0 (omega arith) in
    let digit : (leb 48 (48 + x) && leb (48 + x) 51) ≡ true = ground arith in
    let whole : (pre ++ (48 + x) ∷ []) ++ (48 + y) ∷ (48 + z) ∷ tail ≡ pre ++ text =
      append_assoc pre _ _ in
    let three =
      octal-digits (pre ++ (48 + x) ∷ []) tail x y z (rd + 1) (length (pre ++ text) - rd)
        (omega (arith, length-append pre ((48 + x) ∷ []))) (omega (arith, size)) p q r in
    rw (enough, there) (rw (unescape_letter-digit x p, ◌>>=◌) (rw digit (rw whole at three)))
