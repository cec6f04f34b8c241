-- ===== src/Cursor/RowSet/Advance.antt =====
-- `advance` of src/cursor/rowset.rs on the text of a row: all fields are read, and kept.
use monetdb_rust.Prelude.{
  ℕ, ◌<◌, suc, true, ◌+◌, ◌≡◌, refl, sym, ap, ◌∙◌, Bool, true, false, List, [], ◌∷◌, ◌++◌, arith,
  append_assoc, Bytes, length, ltb, Option, Outcome, ok, ◌>>=◌,
}
use monetdb_rust.Cursor.Search.{Search}
use monetdb_rust.Cursor.ReplyBuf.{Reply, BadReply}
use monetdb_rust.Cursor.ReplyBuf.Front.{at, peek-at, consume-at}
use monetdb_rust.Cursor.RowSet.{
  Place, RowSet, read_fields, read_row, has_pending_row, advance, get_field_raw,
}
use monetdb_rust.Cursor.RowSet.Text.{Cells, last, more}
use monetdb_rust.Cursor.RowSet.Stored.{
  StoresAll, StoresAll-length, StoresAll-field_at, StoresAll-append, Stores-append, expected,
}
use monetdb_rust.Cursor.RowSet.Fields.{read_field-FieldRead}

-- The fields have been read: the buffer stands behind the last tab.
record FieldsRead (front rest : Bytes) (values : List (Option Bytes)) (m : Reply (List Place))
    : Type 0 where
  places : List Place
  front' : Bytes
  more' : Bytes
  extends : front' ≡ front ++ more'
  returns : m ≡ ok (places, at front' rest)
  stores : StoresAll front' places values

Cells-nonempty :
    {text : Bytes} {values : List (Option Bytes)} → Cells text values → 0 < length values
Cells-nonempty (last c) = omega arith
Cells-nonempty (more c cs) = omega arith

-- What is asked of a row set in front of a row: it splits rows, and has its fields.
pub record Ready (me : RowSet) (values : List (Option Bytes)) : Type 0 where
  pub slices : me.noslice ≡ false
  pub sized : length me.fields ≡ me.ncols
  pub columns : length values ≡ me.ncols

-- A row has been read: the row set stands behind it, and gives out its values.
pub record RowRead (rest : Bytes) (values : List (Option Bytes))
    (m : Outcome (BadReply × RowSet) (Bool × RowSet)) : Type 0 where
  pub result : RowSet
  pub front : Bytes
  pub returns : m ≡ ok (true, result)
  pub stands : result.buf ≡ at front rest
  pub ready : Ready result values
  pub gives : (idx : ℕ) → get_field_raw result idx ≡ expected values idx

module _ (search : Search) where
  read_fields-FieldsRead :
      (fields : List Place) (ncols i : ℕ) (front rest : Bytes) {text : Bytes}
      {values : List (Option Bytes)}
      → Cells text values
      → length fields ≡ length values
      → i + length fields ≡ ncols
      → FieldsRead front rest values (read_fields search ncols i fields (at front (text ++ rest)))
  unfolding read_fields
  read_fields-FieldsRead [] ncols i front rest (last c) size total = absurd (omega arith)
  read_fields-FieldsRead [] ncols i front rest (more c cs) size total = absurd (omega arith)
  read_fields-FieldsRead (_ ∷ []) ncols i front rest (last {text} c) size total =
      let final : ltb (i + 1) ncols ≡ false = ground arith in
      let f = read_field-FieldRead search front rest text i false c in
      let shape : (text ++ 9 ∷ []) ++ rest ≡ text ++ 9 ∷ rest = append_assoc text (9 ∷ []) rest in
      rw (shape, final)
        (rw (f.returns, ◌>>=◌)
          (record {
            places = f.place ∷ [];
            front' = f.front';
            more' = f.more;
            extends = f.extends;
            returns = refl;
            stores = (f.stores, tt);
          }))
  read_fields-FieldsRead (_ ∷ _ ∷ fields) ncols i front rest (last c) size total =
      absurd (omega arith)
  read_fields-FieldsRead (_ ∷ fields) ncols i front rest (more {text} {texts} {value} c cs) size
        total =
      let inner : ltb (i + 1) ncols ≡ true = ground (arith, Cells-nonempty cs) in
      let f = read_field-FieldRead search front (texts ++ rest) text i true c in
      let others =
        read_fields-FieldsRead fields ncols (i + 1) f.front' rest cs (omega arith) (omega arith) in
      let shape : (text ++ 44 ∷ 9 ∷ texts) ++ rest ≡ text ++ 44 ∷ 9 ∷ (texts ++ rest) =
        append_assoc text (44 ∷ 9 ∷ texts) rest in
      rw (shape, inner)
        (rw (f.returns, ◌>>=◌)
          (rw (others.returns, ◌>>=◌)
            (record {
              places = f.place ∷ others.places;
              front' = others.front';
              more' = f.more ++ others.more';
              extends =
                  others.extends
                  ∙ (ap (λ (z : Bytes). z ++ others.more') f.extends
                      ∙ append_assoc front f.more others.more');
              returns = refl;
              stores = (
                rw others.extends (Stores-append f.front' others.more' f.place value f.stores),
                others.stores,
              );
            })))

  read_row-FieldsRead :
      (me : RowSet) (front rest : Bytes) {text : Bytes} {values : List (Option Bytes)}
      → Ready me values
      → me.buf ≡ at front (91 ∷ 32 ∷ (text ++ 93 ∷ 10 ∷ rest))
      → Cells text values
      → FieldsRead front rest values (read_row search me)
  unfolding read_row
  read_row-FieldsRead me front rest {text} {values} ready stands cells =
      let tail = 93 ∷ 10 ∷ rest in
      let opened = consume-at front (91 ∷ 32 ∷ []) (text ++ tail) 2 refl in
      let long : ltb (suc (suc (length (text ++ tail)))) 2 ≡ false = ground arith in
      let f =
        read_fields-FieldsRead me.fields me.ncols 0 (front ++ 91 ∷ 32 ∷ []) tail cells
          (ready.sized ∙ sym ready.columns) (omega (arith, ready.sized)) in
      let long' : ltb (suc (suc (length rest))) 2 ≡ false = ground arith in
      let closed = consume-at f.front' (93 ∷ 10 ∷ []) rest 2 refl in
      rw (stands, read_row)
        (rw (peek-at front (91 ∷ 32 ∷ (text ++ tail)), long)
          (rw (opened, ◌>>=◌)
            (rw (f.returns, ◌>>=◌)
              (rw (peek-at f.front' tail, ◌>>=◌)
                (rw (long', closed)
                  (record {
                    places = f.places;
                    front' = f.front' ++ 93 ∷ 10 ∷ [];
                    more' = (91 ∷ 32 ∷ []) ++ (f.more' ++ 93 ∷ 10 ∷ []);
                    extends = rw f.extends (simp append_assoc refl);
                    returns = refl;
                    stores = StoresAll-append f.front' (93 ∷ 10 ∷ []) f.places values f.stores;
                  }))))))

  -- On a row set that stands in front of a row with as many fields as it has columns, `advance` does
  -- not fail: it returns true and stands behind the row, ready for the next one. Each field then has
  -- its value, with all escapes decoded and none for NULL, and an index beyond the columns is refused.
  pub advance-RowRead :
      (me : RowSet) (front rest : Bytes) {text : Bytes} {values : List (Option Bytes)}
      → Ready me values
      → me.buf ≡ at front (91 ∷ 32 ∷ (text ++ 93 ∷ 10 ∷ rest))
      → Cells text values
      → RowRead rest values (advance search me)
  unfolding advance has_pending_row get_field_raw
  advance-RowRead me front rest {text} {values} ready stands cells =
      let f = read_row-FieldsRead me front rest ready stands cells in
      let line = 91 ∷ 32 ∷ (text ++ 93 ∷ 10 ∷ rest) in
      let pending : has_pending_row me ≡ true = rw stands (rw (peek-at front line) refl) in
      let size = StoresAll-length f.front' f.places values f.stores in
      rw (ready.slices, advance)
        (rw pending (
          rw f.returns (record {
            result = record me { fields = f.places; buf = at f.front' rest };
            front = f.front';
            returns = refl;
            stands = refl;
            ready = record {
              slices = ready.slices;
              sized = size ∙ ready.columns;
              columns = ready.columns;
            };
            gives =
                λ idx. rw size (StoresAll-field_at f.front' rest f.places values idx _ f.stores);
          })))
