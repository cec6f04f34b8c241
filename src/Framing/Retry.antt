-- ===== src/Framing/Retry.antt =====
-- `read_to_end` of the standard library tries a read again that was interrupted. The reader of
-- src/framing/reading.rs fails only in the read of its source then, at the body of a block, and stands
-- there when it is called again; so its source is one whose reads are tried again.
use monetdb_rust.Prelude.{
  ℕ, zero, suc, ◌≤◌, ◌<◌, ◌≡◌, ◌≢◌, refl, ◌∙◌, sym, inl, inr, true, false, Bool-cases, ◌++◌,
  if◌then◌else◌, arith, Bytes, length, Outcome, ok, err, panic,
}
use monetdb_rust.Framing.IoError.{IoError, kind, is_interrupted}
use monetdb_rust.Framing.Source.{Source}

module _ (src : Source) where
  open src use {
    R, read, read_exact, pending, resume, interruptions, read_takes, read_exact_takes, read_returns,
    read_exact_returns, resume_keeps, resume_less,
  }

  -- What a read gives, or else another one if it was interrupted.
  abbrev or_again :
      Outcome IoError (Bytes × R) → Outcome IoError (Bytes × R) → Outcome IoError (Bytes × R)
  or_again (ok a) again = ok a
  or_again panic again = panic
  or_again (err e) again = if is_interrupted (kind e) then again else err e

  unfoldable pub read_again : ℕ → R → ℕ → Outcome IoError (Bytes × R)
  read_again zero r n = read r n
  read_again (suc tries) r n = or_again (read r n) (read_again tries (resume r) n)

  abbrev Takes : R → ℕ → Outcome IoError (Bytes × R) → Type 0
  Takes r n (ok (buf, r')) = (pending r ≡ buf ++ pending r') × (length buf ≤ n)
  Takes r n (err e) = Unit
  Takes r n panic = ⊥

  read-Takes : (r : R) (n : ℕ) → Takes r n (read r n)
  read-Takes r n = go (read r n) refl
    where
      go : (m : Outcome IoError (Bytes × R)) → read r n ≡ m → Takes r n m
      go (ok (buf, r')) e = read_takes r n buf r' e
      go (err x) e = tt
      go panic e = read_returns r n e

  or_again-Takes :
      (r : R) (n : ℕ) (m again : Outcome IoError (Bytes × R))
      → Takes r n m
      → Takes r n again
      → Takes r n (or_again m again)
  or_again-Takes r n (ok a) again h k = h
  or_again-Takes r n panic again h k = h
  or_again-Takes r n (err e) again h k = elim (Bool-cases (is_interrupted (kind e))) [
    | inl i ↦ rw i k
    | inr i ↦ rw i tt
  ]

  read_again-Takes : (tries : ℕ) (r : R) (n : ℕ) → Takes r n (read_again tries r n)
  unfolding read_again
  read_again-Takes zero r n = read-Takes r n
  read_again-Takes (suc tries) r n =
      or_again-Takes r n (read r n) (read_again tries (resume r) n) (read-Takes r n)
        (moved (read_again tries (resume r) n) (read_again-Takes tries (resume r) n))
    where
      moved : (m : Outcome IoError (Bytes × R)) → Takes (resume r) n m → Takes r n m
      moved (ok a) h = (sym (resume_keeps r) ∙ h.0, h.1)
      moved (err e) h = tt
      moved panic h = h

  pub read_again_takes :
      (tries : ℕ) (r : R) (n : ℕ) (buf : Bytes) (r' : R)
      → read_again tries r n ≡ ok (buf, r')
      → (pending r ≡ buf ++ pending r') × (length buf ≤ n)
  read_again_takes tries r n buf r' e = rw e at (read_again-Takes tries r n)

  pub read_again_returns : (tries : ℕ) (r : R) (n : ℕ) → read_again tries r n ≢ panic
  read_again_returns tries r n e = rw e at (read_again-Takes tries r n)

  -- A read that gives bytes is not tried again.
  pub read_again_first :
      (tries : ℕ) (r : R) (n : ℕ) (a : Bytes × R) → read r n ≡ ok a → read_again tries r n ≡ ok a
  unfolding read_again
  read_again_first zero r n a e = e
  read_again_first (suc tries) r n a e = rw e refl

  or_again-settled :
      (m again : Outcome IoError (Bytes × R)) (e : IoError)
      → or_again m again ≡ err e
      → ((x : IoError)
          → m ≡ err x
          → is_interrupted (kind x) ≡ true
          → again ≡ err e
          → is_interrupted (kind e) ≡ false)
      → is_interrupted (kind e) ≡ false
  or_again-settled (ok a) again e h k = absurd (cc)
  or_again-settled panic again e h k = absurd (cc)
  or_again-settled (err x) again e h k = elim (Bool-cases (is_interrupted (kind x))) [
    | inl i ↦ k x refl i (rw i at h)
    | inr i ↦
        let h' : Path (Outcome IoError (Bytes × R)) (err x) (err e) = rw i at h in
        let same : x ≡ e = cc in rw same at i
  ]

  -- With as many tries as there can be interruptions, no error that is left is one.
  pub read_again_settled :
      (tries : ℕ) (r : R) (n : ℕ) (e : IoError)
      → interruptions r ≤ tries
      → read_again tries r n ≡ err e
      → is_interrupted (kind e) ≡ false
  unfolding read_again
  read_again_settled zero r n e enough h = elim (Bool-cases (is_interrupted (kind e))) [
    | inl i ↦ absurd (omega (arith, resume_less r n e h i))
    | inr i ↦ i
  ]
  read_again_settled (suc tries) r n e enough h =
      or_again-settled (read r n) (read_again tries (resume r) n) e h (λ x was i later.
        read_again_settled tries (resume r) n e (omega (arith, resume_less r n x was i)) later)

  pub retried_less :
      (r : R) (n : ℕ) (e : IoError)
      → read_again (interruptions r) r n ≡ err e
      → is_interrupted (kind e) ≡ true
      → interruptions (resume r) < interruptions r
  retried_less r n e h i =
      let settled = read_again_settled (interruptions r) r n e (omega arith) h in
      let wrong : true ≡ false = sym i ∙ settled in absurd (cc)

abbrev pub retrying : Source → Source
retrying src = record {
  R = src.R;
  read = λ r n. read_again src (src.interruptions r) r n;
  read_exact = src.read_exact;
  pending = src.pending;
  read_takes = λ r n. read_again_takes src (src.interruptions r) r n;
  read_exact_takes = src.read_exact_takes;
  read_returns = λ r n. read_again_returns src (src.interruptions r) r n;
  read_exact_returns = src.read_exact_returns;
  resume = src.resume;
  interruptions = src.interruptions;
  resume_keeps = src.resume_keeps;
  resume_less = retried_less src;
}
