-- ===== src/Framing/Reading/Total.antt =====
-- `to_limited` over a source that gives its bytes: it returns the payload, or says that it is too long.
use monetdb_rust.Prelude.{
  ℕ, zero, suc, ◌-◌, ◌≤◌, ◌<◌, ◌≡◌, if◌then◌else◌, refl, sym, ap, ◌∙◌, ◌⊎◌, inl, inr, true, [],
  ◌++◌, ◌==◌, Bool-cases, arith, append_assoc, append-nil, Bytes, length, length-append, min, ok,
  err,
}
use monetdb_rust.Framing.Header.{too_long}
use monetdb_rust.Framing.BlockState.{BlockState, start, end, IsValid}
use monetdb_rust.Framing.BlockState.Prefix.{Finishes, Finishes-end}
use monetdb_rust.Framing.IoError.{framing}
use monetdb_rust.Framing.Source.{Source}
use monetdb_rust.Framing.Retry.{retrying, read_again_first}
use monetdb_rust.Framing.Reading.{
  MapiReader, new, is_end, finish_with, take_to_end, check_end, to_limited,
}
use monetdb_rust.Framing.Reading.Sound.{Advances, Advances-trans}
use monetdb_rust.Framing.Reading.Complete.{Reliable, Has, Has-advance, do_read-Continues}
use monetdb_rust.Framing.Reading.Message.{
  is_end-end, eq-nil, Advances-lt, Advances-le, Advances-refl, Advances-retrying, skip_to_end_done,
}

end_is : (st : BlockState) → st ≡ end → is_end st ≡ true
unfolding is_end
end_is st h = rw h refl

module _ (src : Source) (reliable : Reliable src) where
  open src use {R, pending}

  -- Payload up to the limit, or up to the end.
  record Took (me : MapiReader R) (out : Bytes) (limit : ℕ) (r : Bytes × MapiReader R)
      : Type 0 where
    more : Bytes
    joined : r.0 ≡ out ++ more
    advances : Advances src me more r.1
    bounded : length more ≤ limit
    stopped : (r.1.state ≡ end) ⊎ (length more ≡ limit)

  take_to_end-Took :
      (room : ℕ → ℕ) (fuel limit : ℕ) (me : MapiReader R) (out : Bytes) {payload rest : Bytes}
      → ((n : ℕ) → 0 < room n)
      → IsValid me.state
      → length (pending me.inner) < fuel
      → Has src reliable me payload rest
      → (r : Bytes × MapiReader R) × (take_to_end src room fuel limit me out ≡ ok r)
        × Took me out limit r
  unfolding take_to_end
  take_to_end-Took room fuel zero me out rooms v f has = (
    (out, me),
    refl,
    record {
      more = [];
      joined = sym (append-nil out);
      advances = Advances-refl src me v;
      bounded = omega arith;
      stopped = inr refl;
    },
  )
  take_to_end-Took room zero (suc limit) me out rooms v f has = absurd (omega arith)
  take_to_end-Took room (suc fuel) (suc limit) me out rooms v f has =
      let n = min (room (length out)) (suc limit) in
      let some = rooms (length out) in
      let (r, e, (later, d, has', whole)) =
        do_read-Continues src reliable (suc fuel) me n v f (omega arith) has in
      elim (Bool-cases (length r.0 == 0)) [
        | inl none ↦
            let empty = eq-nil r.0 (ground arith) in
            let ended : r.1.state ≡ end = elim d.progress [
              | inl more ↦ absurd (ground arith)
              | inr e ↦ e
            ] in
            (
              (out, r.1),
              rw e (rw none refl),
              record {
                more = [];
                joined = sym (append-nil out);
                advances = rw empty at d.advances;
                bounded = omega arith;
                stopped = inl ended;
              },
            )
        | inr some_more ↦
            let fewer = Advances-lt src d.advances (ground arith) in
            let (r', e', t) =
              take_to_end-Took room fuel (suc limit - length r.0) r.1 (out ++ r.0) rooms
                d.advances.valid (omega arith) has' in
            (
              r',
              rw e (rw some_more e'),
              record {
                more = r.0 ++ t.more;
                joined = t.joined ∙ append_assoc out r.0 t.more;
                advances = Advances-trans src d.advances t.advances;
                bounded = omega (arith, t.bounded, length-append r.0 t.more, d.bounded);
                stopped = elim t.stopped [
                  | inl ended ↦ inl ended
                  | inr full ↦ inr (omega (arith, full, length-append r.0 t.more, d.bounded))
                ];
              },
            )
      ]

-- A source that gives what it has also does with reads tried again.
retrying-Reliable : (src : Source) → Reliable src → Reliable (retrying src)
retrying-Reliable src reliable = record {
  reads = λ r n some has.
      let (buf, r', e, got) = reliable.reads r n some has in
      (buf, r', read_again_first src (src.interruptions r) r n (buf, r') e, got);
  reads_exact = reliable.reads_exact;
}

module _ (src : Source) (reliable : Reliable src) where
  open src use {R, pending}

  -- The payload is returned and the source is at the byte behind the message, or the payload is over
  -- the limit and that is the error.
  abbrev pub Receives : (ℕ → ℕ) → ℕ → R → ℕ → Bytes → Bytes → Type 0
  Receives room fuel rd limit payload rest =
      ((length payload ≤ limit)
        × (rd' : R) × (to_limited src room fuel rd limit ≡ ok (payload, rd'))
        × (pending rd' ≡ rest))
      ⊎ ((limit < length payload) × (to_limited src room fuel rd limit ≡ err (framing too_long)))

  finished :
      (fuel : ℕ) (me : MapiReader R) (buffer : Bytes)
      → is_end me.state ≡ true
      → (if is_end me.state then finish_with src fuel me buffer else err (framing too_long))
        ≡ ok (buffer, me.inner)
  unfolding finish_with
  finished fuel me buffer e = rw (e, skip_to_end_done src) refl

  check_end_done :
      (fuel : ℕ) (me : MapiReader R) → is_end me.state ≡ true → check_end src fuel me ≡ ok me
  unfolding check_end
  check_end_done fuel me e = rw (e, check_end) refl

  -- Where the end was not met yet, one byte decides.
  record Decides (fuel : ℕ) (me : MapiReader R) (later rest : Bytes) : Type 0 where
    verdict :
        ((me' : MapiReader R) × (check_end src fuel me ≡ ok me')
          × (is_end me'.state ≡ true)
          × (later ≡ [])
          × (pending me'.inner ≡ rest))
        ⊎ ((check_end src fuel me ≡ err (framing too_long)) × (0 < length later))

  check_end-Decides :
      (fuel : ℕ) (me : MapiReader R) {later rest : Bytes}
      → IsValid me.state
      → length (pending me.inner) < fuel
      → Has src reliable me later rest
      → Decides fuel me later rest
  unfolding check_end
  check_end-Decides fuel me {later} {rest} v f has = elim (Bool-cases (is_end me.state)) [
    | inl ended ↦
        let (none, behind) = Finishes-end (rw (is_end-end me.state ended) at has) in
        record { verdict = inl (me, rw (ended, check_end) refl, ended, none, behind) }
    | inr going ↦
        let (r, e, (last, d, has', whole)) =
          do_read-Continues src reliable fuel me 1 v f (omega arith) has in
        elim (Bool-cases (length r.0 == 0)) [
          | inl none ↦
              let ended : r.1.state ≡ end = elim d.progress [
                | inl more ↦ absurd (ground arith)
                | inr e ↦ e
              ] in
              let (nothing, behind) = Finishes-end (rw ended at has') in
              let nil = eq-nil r.0 (ground arith) in
              record {
                verdict = inl (
                  r.1,
                  rw (going, check_end) (rw e (rw none refl)),
                  end_is r.1.state ended,
                  rw (whole, nil, nothing) refl,
                  behind,
                );
              }
          | inr more ↦
              let some : 0 < length r.0 = ground arith in
              record {
                verdict = inr (
                  rw (going, check_end) (rw e (rw more refl)),
                  omega (arith, some, ap length whole, length-append r.0 last),
                );
              }
        ]
  ]

  received :
      (room : ℕ → ℕ) (fuel : ℕ) (rd : R) (limit : ℕ) (r : Bytes × MapiReader R)
      {payload later rest : Bytes}
      → take_to_end (retrying src) room fuel limit (new rd) [] ≡ ok r
      → (t : Took (retrying src) (retrying-Reliable src reliable) (new rd) [] limit r)
      → payload ≡ t.more ++ later
      → (length t.more ≡ limit) ⊎ (later ≡ [])
      → Decides fuel r.1 later rest
      → Receives room fuel rd limit payload rest
  unfolding to_limited
  received room fuel rd limit r {payload} {later} {rest} e t whole full d = elim d.verdict [
    | inl (me', checked, ended, none, behind) ↦
        let all : payload ≡ r.0 = whole ∙ (rw (none, t.joined) (append-nil t.more)) in
        inl (
          rw (all, t.joined) t.bounded,
          me'.inner,
          rw (e, checked) (rw all (finished fuel me' r.0 ended)),
          behind,
        )
    | inr (refused, more) ↦
        let over : length t.more ≡ limit = elim full [
          | inl full ↦ full
          | inr none ↦ absurd (omega (arith, more, ap length none))
        ] in
        inr (
          omega (arith, more, over, ap length whole, length-append t.more later),
          rw (e, refused) refl,
        )
  ]

  -- If the source gives the bytes it has and these begin with a whole message, then `to_limited`, with
  -- buffers that are never empty and more fuel than the source has bytes, returns: a payload of at
  -- most `limit` bytes is returned itself, with the source at the byte behind the message, and a
  -- longer one is refused as too long.
  pub to_limited-Receives :
      (room : ℕ → ℕ) (fuel : ℕ) (rd : R) (limit : ℕ) (payload rest : Bytes)
      → ((n : ℕ) → 0 < room n)
      → length (pending rd) < fuel
      → Finishes start (pending rd) payload rest
      → Receives room fuel rd limit payload rest
  to_limited-Receives room fuel rd limit payload rest rooms f has =
      let again = retrying-Reliable src reliable in
      let (r, e, t) =
        take_to_end-Took (retrying src) again room fuel limit (new rd) [] rooms tt f has in
      let advances = Advances-retrying src t.advances in
      let (later, has', whole) = Has-advance src reliable (new rd) r.1 has advances in
      received room fuel rd limit r e t whole
        (elim t.stopped [
          | inl ended ↦ inr (Finishes-end (rw ended at has')).0
          | inr full ↦ inl full
        ])
        (check_end-Decides fuel r.1 advances.valid (omega (arith, Advances-le src advances)) has')
