-- ===== src/Framing/Reading/Message.antt =====
-- `to_limited` reads exactly one message, and `finish` leaves the source behind it.
use monetdb_rust.Prelude.{
  ℕ, zero, suc, ◌+◌, ◌-◌, ◌≤◌, ◌<◌, ◌≡◌, refl, sym, ap, ◌∙◌, ◌⊎◌, inl, inr, true, [], ◌∷◌, ◌++◌,
  ◌==◌, Bool-cases, arith, append_assoc, append-nil, Bytes, length, length-append, min, ok, Returns,
  Returns-bind, Returns-mono,
}
use monetdb_rust.Framing.Header.{blocksize}
use monetdb_rust.Framing.BlockState.{BlockState, start, partial_header, body, end, IsValid}
use monetdb_rust.Framing.BlockState.Automaton.{run}
use monetdb_rust.Framing.Source.{Source}
use monetdb_rust.Framing.Retry.{retrying}
use monetdb_rust.Framing.Reading.{
  MapiReader, new, is_end, do_read, skip_to_end, finish_with, take_to_end, check_end, to_limited,
}
use monetdb_rust.Framing.Reading.Sound.{Advances, Advances-trans, Delivers, do_read-Delivers}

pub is_end-end : (st : BlockState) → is_end st ≡ true → st ≡ end
unfolding is_end
is_end-end end h = refl
is_end-end start h = cc
is_end-end (partial_header _) h = cc
is_end-end (body _ _) h = cc

run-nil :
    (st : BlockState) {st' : BlockState} {out : Bytes} → run st [] ≡ ok (out, st') → length out ≡ 0
unfolding run
run-nil st h = ground arith

pub eq-nil : (xs : Bytes) → length xs ≡ 0 → xs ≡ []
eq-nil [] h = refl
eq-nil (x ∷ xs) h = absurd (omega arith)

module _ (src : Source) where
  open src use {R, pending}

  pub Advances-le :
      {me me' : MapiReader R} {out : Bytes}
      → Advances src me out me'
      → length (pending me'.inner) ≤ length (pending me.inner)
  Advances-le a = omega (arith, ap length a.splits, length-append a.consumed (pending _))

  -- Payload takes bytes from the source.
  pub Advances-lt :
      {me me' : MapiReader R} {out : Bytes}
      → Advances src me out me'
      → 0 < length out
      → length (pending me'.inner) < length (pending me.inner)
  Advances-lt {me} {me'} {out} a h = go a.consumed a.splits a.decodes
    where
      go :
          (consumed : Bytes)
          → pending me.inner ≡ consumed ++ pending me'.inner
          → run me.state consumed ≡ ok (out, me'.state)
          → length (pending me'.inner) < length (pending me.inner)
      go [] e d = absurd (omega (arith, run-nil me.state d))
      go (c ∷ cs) e d = omega (arith, ap length e, length-append cs (pending me'.inner))

  pub Advances-refl : (me : MapiReader R) → IsValid me.state → Advances src me [] me
  unfolding run
  Advances-refl me v = record { consumed = []; splits = refl; decodes = refl; valid = v }

  -- A call that was made either found the end, or left less to read.
  pub rest_below :
      {me : MapiReader R} {n fuel : ℕ} {r : Bytes × MapiReader R}
      → Delivers src me n r
      → length (pending me.inner) < suc fuel
      → (is_end r.1.state ≡ true) ⊎ (length (pending r.1.inner) < fuel)
  unfolding is_end
  rest_below d f = elim d.progress [
    | inl more ↦ inr (omega (arith, Advances-lt d.advances more))
    | inr e ↦ inl (rw e)
  ]

  -- The rest of the message is read, and dropped.
  abbrev Drops : MapiReader R → MapiReader R → Type 0
  Drops me me' = (out : Bytes) × Advances src me out me' × (me'.state ≡ end)

  skip_to_end-Drops :
      (fuel : ℕ) (me : MapiReader R)
      → IsValid me.state
      → (is_end me.state ≡ true) ⊎ (length (pending me.inner) < fuel)
      → Returns (Drops me) (skip_to_end src fuel me)
  unfolding skip_to_end
  skip_to_end-Drops zero me v (inl e) = rw e ([], Advances-refl me v, is_end-end me.state e)
  skip_to_end-Drops zero me v (inr f) = absurd (omega arith)
  skip_to_end-Drops (suc fuel) me v (inl e) =
      rw (e, skip_to_end) ([], Advances-refl me v, is_end-end me.state e)
  skip_to_end-Drops (suc fuel) me v (inr f) = elim (Bool-cases (is_end me.state)) [
    | inl e ↦ rw (e, skip_to_end) ([], Advances-refl me v, is_end-end me.state e)
    | inr e ↦
        rw (e, skip_to_end)
          (Returns-bind (Delivers src me (blocksize + 2)) (Drops me)
            (do_read src (suc fuel) me (blocksize + 2)) (λ r. skip_to_end src fuel r.1)
            (do_read-Delivers src (suc fuel) me (blocksize + 2) v f (omega arith))
            (λ r d.
              Returns-mono (Drops r.1) (Drops me) _
                (skip_to_end-Drops fuel r.1 d.advances.valid (rest_below d f))
                (λ me' dropped.
                  (r.0 ++ dropped.0, Advances-trans src d.advances dropped.1, dropped.2))))
  ]

  -- Payload of at most `limit` bytes.
  abbrev Takes : MapiReader R → Bytes → ℕ → Bytes × MapiReader R → Type 0
  Takes me out limit r =
      (more : Bytes) × (r.0 ≡ out ++ more) × Advances src me more r.1 × (length more ≤ limit)

  take_to_end-Takes :
      (room : ℕ → ℕ) (fuel limit : ℕ) (me : MapiReader R) (out : Bytes)
      → ((n : ℕ) → 0 < room n)
      → IsValid me.state
      → length (pending me.inner) < fuel
      → Returns (Takes me out limit) (take_to_end src room fuel limit me out)
  unfolding take_to_end
  take_to_end-Takes room fuel zero me out rooms v f =
      ([], sym (append-nil out), Advances-refl me v, omega arith)
  take_to_end-Takes room zero (suc limit) me out rooms v f = absurd (omega arith)
  take_to_end-Takes room (suc fuel) (suc limit) me out rooms v f =
      let n = min (room (length out)) (suc limit) in
      let some = rooms (length out) in
      Returns-bind (Delivers src me n) (Takes me out (suc limit)) (do_read src (suc fuel) me n) _
        (do_read-Delivers src (suc fuel) me n v f (omega arith))
        (λ r d. elim (Bool-cases (length r.0 == 0)) [
          | inl none ↦
              let empty = eq-nil r.0 (ground arith) in
              rw none ([], sym (append-nil out), rw empty at d.advances, omega arith)
          | inr more ↦
              let fewer = Advances-lt d.advances (ground arith) in
              rw more (
                Returns-mono (Takes r.1 (out ++ r.0) (suc limit - length r.0))
                  (Takes me out (suc limit)) _
                  (take_to_end-Takes room fuel (suc limit - length r.0) r.1 (out ++ r.0) rooms
                    d.advances.valid (omega arith))
                  (λ r' t. (
                    r.0 ++ t.0,
                    t.1 ∙ append_assoc out r.0 t.0,
                    Advances-trans src d.advances t.2,
                    omega (arith, t.3, length-append r.0 t.0, d.bounded),
                  )))
        ])

  abbrev Extends : MapiReader R → MapiReader R → Type 0
  Extends me me' = Advances src me [] me'

  check_end-Extends :
      (fuel : ℕ) (me : MapiReader R)
      → IsValid me.state
      → length (pending me.inner) < fuel
      → Returns (Extends me) (check_end src fuel me)
  unfolding check_end
  check_end-Extends fuel me v f = elim (Bool-cases (is_end me.state)) [
    | inl e ↦ rw (e, check_end) (Advances-refl me v)
    | inr e ↦
        rw (e, check_end)
          (Returns-bind (Delivers src me 1) (Extends me) (do_read src fuel me 1) _
            (do_read-Delivers src fuel me 1 v f (omega arith))
            (λ r d. elim (Bool-cases (length r.0 == 0)) [
              | inl none ↦ rw none (rw (eq-nil r.0 (ground arith)) at d.advances)
              | inr more ↦ rw more tt
            ]))
  ]

  pub skip_to_end_done :
      (fuel : ℕ) (me : MapiReader R) → is_end me.state ≡ true → skip_to_end src fuel me ≡ ok me
  unfolding skip_to_end
  skip_to_end_done zero me e = rw e
  skip_to_end_done (suc fuel) me e = rw (e, skip_to_end)

  -- The bytes taken from the source are one whole message, whose payload is returned.
  pub record Message (rd : R) (limit : ℕ) (r : Bytes × R) : Type 0 where
    pub consumed : Bytes
    pub splits : pending rd ≡ consumed ++ pending r.1
    pub decodes : run start consumed ≡ ok (r.0, end)
    pub bounded : length r.0 ≤ limit

-- What is read with reads tried again has been read from the source.
pub Advances-retrying :
    (src : Source) {me me' : MapiReader src.R} {out : Bytes}
    → Advances (retrying src) me out me'
    → Advances src me out me'
Advances-retrying src a = record {
  consumed = a.consumed;
  splits = a.splits;
  decodes = a.decodes;
  valid = a.valid;
}

module _ (src : Source) where
  open src use {R, pending}

  -- With buffers that are never empty and more fuel than the source has bytes, `to_limited` does not
  -- panic, and when it returns it has taken exactly one whole message from the source, whatever the
  -- lengths of the source's reads: the byte automaton reads these bytes as the returned payload and
  -- is then at the end, and the payload is not longer than the limit.
  pub to_limited-Message :
      (room : ℕ → ℕ) (fuel : ℕ) (rd : R) (limit : ℕ)
      → ((n : ℕ) → 0 < room n)
      → length (pending rd) < fuel
      → Returns (Message src rd limit) (to_limited src room fuel rd limit)
  unfolding to_limited finish_with
  to_limited-Message room fuel rd limit rooms f =
      Returns-bind (Takes (retrying src) (new rd) [] limit) (Message src rd limit)
        (take_to_end (retrying src) room fuel limit (new rd) []) _
        (take_to_end-Takes (retrying src) room fuel limit (new rd) [] rooms tt f)
        (λ r t.
          let taken = Advances-retrying src t.2 in
          Returns-bind (Extends src r.1) (Message src rd limit) (check_end src fuel r.1) _
            (check_end-Extends src fuel r.1 taken.valid (omega (arith, Advances-le src taken)))
            (λ me x. elim (Bool-cases (is_end me.state)) [
              | inl e ↦
                  let all = Advances-trans src taken x in
                  rw (e, skip_to_end_done src)
                    (record {
                      consumed = all.consumed;
                      splits = all.splits;
                      decodes = rw (t.1, ← is_end-end me.state e) (rw append-nil at all.decodes);
                      bounded = rw t.1 t.3;
                    })
              | inr e ↦ rw e tt
            ]))
