-- ===== src/Cursor/Delayed/Newline.antt =====
-- Whether the buffer of src/cursor/delayed.rs ends like the command that was written to it.
use monetdb_rust.Prelude.{
  ℕ, zero, suc, ◌-◌, ◌≡◌, refl, ap, sym, ◌∙◌, ◌⊎◌, inl, inr, min, Bool, true, false, List, [], ◌∷◌,
  ◌++◌, if◌then◌else◌, leb, ◌==◌, Bool-cases, arith, append_assoc, append-nil, Bytes, length, take,
  drop, take-append-drop, flatten, Outcome, ok, err, panic, ◌>>=◌, unwrap, checked_sub,
}
use monetdb_rust.Framing.Header
use monetdb_rust.Framing.Header.{blocksize}
use monetdb_rust.Framing.Header.{FramingError}
use monetdb_rust.Framing.Writing.{
  MapiBuf, prepare_reset, make_room, append_loop, append_long, append, append_all, peek,
  finish_block, write_at,
}
use monetdb_rust.Framing.Writing.Append.{prepare_reset_live}
use monetdb_rust.Cursor.Delayed.{ends_with_newline}

ends-append :
    (xs : Bytes) (y : ℕ) (ys : Bytes)
    → ends_with_newline (xs ++ y ∷ ys) ≡ ends_with_newline (y ∷ ys)
unfolding ends_with_newline
ends-append [] y ys = refl
ends-append (x ∷ []) y ys = refl
ends-append (x ∷ x' ∷ xs) y ys = ends-append (x' ∷ xs) y ys

-- What comes before matters only where nothing comes behind.
ends-cong :
    (xs xs' ys : Bytes)
    → ends_with_newline xs ≡ ends_with_newline xs'
    → ends_with_newline (xs ++ ys) ≡ ends_with_newline (xs' ++ ys)
ends-cong xs xs' [] h = rw (append-nil xs, append-nil xs') h
ends-cong xs xs' (y ∷ ys) h = ends-append xs y ys ∙ sym (ends-append xs' y ys)

-- What holds of a result, if there is one.
abbrev IfOk : {A : Type 0} → (A → Type 0) → Outcome FramingError A → Type 0
IfOk P (ok a) = P a
IfOk P (err e) = Unit
IfOk P panic = Unit

IfOk-bind :
    {A B : Type 0} (P : A → Type 0) (Q : B → Type 0) (m : Outcome FramingError A)
    (f : A → Outcome FramingError B)
    → IfOk P m
    → ((a : A) → P a → IfOk Q (f a))
    → IfOk Q (m >>= f)
IfOk-bind P Q (ok a) f h k = k a h
IfOk-bind P Q (err e) f h k = tt
IfOk-bind P Q panic f h k = tt

IfOk-mono :
    {A : Type 0} (P Q : A → Type 0) (m : Outcome FramingError A)
    → IfOk P m
    → ((a : A) → P a → Q a)
    → IfOk Q m
IfOk-mono P Q (ok a) h k = k a h
IfOk-mono P Q (err e) h k = tt
IfOk-mono P Q panic h k = tt

IfOk-then :
    {A B : Type 0} (Q : B → Type 0) (m : Outcome FramingError A) (f : A → Outcome FramingError B)
    → ((a : A) → IfOk Q (f a))
    → IfOk Q (m >>= f)
IfOk-then Q (ok a) f k = k a
IfOk-then Q (err e) f k = tt
IfOk-then Q panic f k = tt

List-cases : (xs : Bytes) → (xs ≡ []) ⊎ ((d : ℕ) × (ds : Bytes) × (xs ≡ d ∷ ds))
List-cases [] = inl refl
List-cases (x ∷ xs) = inr (x, xs, refl)

-- A buffer that is in use stays so.
abbrev IsLive : MapiBuf → Type 0
IsLive me = me.reset_pending ≡ false

finish_block-IsLive : (me : MapiBuf) (last : Bool) → IsLive me → IfOk IsLive (finish_block me last)
unfolding finish_block
finish_block-IsLive me last live =
    IfOk-then IsLive (unwrap (checked_sub blocksize me.block_left)) _ (λ used.
      IfOk-then IsLive (Header.new used last) _ (λ header.
        IfOk-then IsLive (unwrap (checked_sub (length me.buffer) used)) _ (λ behind.
          IfOk-then IsLive (unwrap (checked_sub behind 2)) _ (λ at.
            IfOk-then IsLive (write_at me.buffer at (Header.as_bytes header)) _ (λ buffer. live)))))

make_room-IsLive : (me : MapiBuf) → IsLive me → IfOk IsLive (make_room me)
unfolding make_room
make_room-IsLive me live = elim (Bool-cases (me.block_left == 0)) [
  | inl full ↦ rw full (finish_block-IsLive me false live)
  | inr free ↦ rw free live
]

choice-IsLive :
    (pending : Bool) (me me' : MapiBuf)
    → IsLive me
    → (pending ≡ false → IsLive me')
    → IsLive (if pending then me else me')
choice-IsLive true me me' h k = h
choice-IsLive false me me' h k = k refl

prepare_reset-IsLive : (me : MapiBuf) → IsLive (prepare_reset me)
unfolding prepare_reset
prepare_reset-IsLive me = choice-IsLive me.reset_pending _ me refl (λ e. e)

-- The buffer is in use, and ends like the bytes.
abbrev EndsLike : Bytes → MapiBuf → Type 0
EndsLike bytes me =
    (me.reset_pending ≡ false) × (ends_with_newline me.buffer ≡ ends_with_newline bytes)

-- Bytes that are cut in two end like the second part, if it is there.
ends-cut :
    (n : ℕ) (b : Bytes) (xs : Bytes) (d : ℕ) (ds : Bytes)
    → drop n xs ≡ d ∷ ds
    → ends_with_newline (d ∷ ds) ≡ ends_with_newline (b ++ xs)
ends-cut n b xs d ds e =
    let whole : take n xs ++ d ∷ ds ≡ xs = rw e at (take-append-drop n xs) in
    sym (ends-append (b ++ take n xs) d ds)
    ∙ ap ends_with_newline (append_assoc b (take n xs) (d ∷ ds) ∙ ap (λ (z : Bytes). b ++ z) whole)

append_loop-EndsLike :
    (fuel : ℕ) (me : MapiBuf) (c : ℕ) (cs : Bytes)
    → IsLive me
    → (b : Bytes) → IfOk (EndsLike (b ++ c ∷ cs)) (append_loop fuel me (c ∷ cs))
unfolding append_loop
append_loop-EndsLike zero me c cs live b = tt
append_loop-EndsLike (suc fuel) me c cs live b =
    IfOk-bind IsLive (EndsLike (b ++ c ∷ cs)) (make_room me) _ (make_room-IsLive me live)
      (λ me1 live1.
        let n = min (suc (length cs)) me1.block_left in
        let filled : MapiBuf = record me1 {
          buffer = me1.buffer ++ take n (c ∷ cs);
          block_left = me1.block_left - n;
        } in
        elim (List-cases (drop n (c ∷ cs))) [
          | inl none ↦
              let all : take n (c ∷ cs) ≡ c ∷ cs =
                sym (append-nil (take n (c ∷ cs))) ∙ (rw none at (take-append-drop n (c ∷ cs))) in
              rw none (live1, rw all (ends-append me1.buffer c cs ∙ sym (ends-append b c cs)))
          | inr (d, ds, e) ↦ rw e (
              IfOk-mono (EndsLike (d ∷ ds)) (EndsLike (b ++ c ∷ cs))
                (append_loop fuel filled (d ∷ ds)) (append_loop-EndsLike fuel filled d ds live1 [])
                (λ me' h. (h.0, h.1 ∙ ends-cut n b (c ∷ cs) d ds e)))
        ])

append-EndsLike :
    (me : MapiBuf) (input : Bytes)
    → IfOk (EndsLike ((prepare_reset me).buffer ++ input)) (append me input)
unfolding append append_long append_loop
append-EndsLike me [] =
    let live = prepare_reset-IsLive me in
    let fits : leb 0 (prepare_reset me).block_left ≡ true = ground arith in rw fits (live, refl)
append-EndsLike me (c ∷ cs) =
    let live = prepare_reset-IsLive me in
    elim (Bool-cases (leb (suc (length cs)) (prepare_reset me).block_left)) [
      | inl fits ↦ rw fits (live, refl)
      | inr long ↦ rw long (
          append_loop-EndsLike (suc (length cs)) (prepare_reset me) c cs live
            (prepare_reset me).buffer)
    ]

append_all-EndsLike :
    (cmd : List Bytes) (me : MapiBuf) (b : Bytes)
    → EndsLike b me
    → IfOk (EndsLike (b ++ flatten cmd)) (append_all me cmd)
unfolding append_all
append_all-EndsLike [] me b h = rw (append-nil b) h
append_all-EndsLike (chunk ∷ extra) me b h =
    let Then = EndsLike (b ++ (chunk ++ flatten extra)) in
    let same =
      ap (λ (m : MapiBuf). ends_with_newline (m.buffer ++ chunk)) (prepare_reset_live me h.0) in
    IfOk-bind (EndsLike ((prepare_reset me).buffer ++ chunk)) Then (append me chunk) _
      (append-EndsLike me chunk)
      (λ me1 h1.
        IfOk-mono (EndsLike ((b ++ chunk) ++ flatten extra)) Then (append_all me1 extra)
          (append_all-EndsLike extra me1 (b ++ chunk)
            (h1.0, h1.1 ∙ same ∙ ends-cong me.buffer b chunk h.1))
          (λ me2 h2. (h2.0, h2.1 ∙ ap ends_with_newline (append_assoc b chunk (flatten extra)))))

-- The buffer ends like a command that is not empty, whatever it held before.
abbrev Behind : List Bytes → MapiBuf → Type 0
Behind cmd me = (flatten cmd ≡ []) ⊎ (ends_with_newline (peek me) ≡ ends_with_newline (flatten cmd))

peek-EndsLike :
    (me : MapiBuf) (b c : Bytes)
    → EndsLike (b ++ c) me
    → (c ≡ []) ⊎ (ends_with_newline (peek me) ≡ ends_with_newline c)
unfolding peek
peek-EndsLike me b [] h = inl refl
peek-EndsLike me b (x ∷ xs) h = inr (shown me.reset_pending h.0 (h.1 ∙ ends-append b x xs))
  where
    shown :
        (pending : Bool)
        → pending ≡ false
        → ends_with_newline me.buffer ≡ ends_with_newline (x ∷ xs)
        → ends_with_newline (if pending then [] else me.buffer) ≡ ends_with_newline (x ∷ xs)
    shown true h k = cc
    shown false h k = k

append_all-Behind : (cmd : List Bytes) (me : MapiBuf) → IfOk (Behind cmd) (append_all me cmd)
unfolding append_all
append_all-Behind [] me = inl refl
append_all-Behind (chunk ∷ extra) me =
    let b = (prepare_reset me).buffer in
    let All = EndsLike (b ++ (chunk ++ flatten extra)) in
    IfOk-mono All (Behind (chunk ∷ extra)) (append_all me (chunk ∷ extra))
      (IfOk-bind (EndsLike (b ++ chunk)) All (append me chunk) _ (append-EndsLike me chunk)
        (λ me1 h1.
          IfOk-mono (EndsLike ((b ++ chunk) ++ flatten extra)) All (append_all me1 extra)
            (append_all-EndsLike extra me1 (b ++ chunk) h1)
            (λ me2 h2. (h2.0, h2.1 ∙ ap ends_with_newline (append_assoc b chunk (flatten extra))))))
      (λ me2 h. peek-EndsLike me2 b (chunk ++ flatten extra) h)

pub append_all-ends :
    (cmd : List Bytes) (me me' : MapiBuf)
    → append_all me cmd ≡ ok me'
    → (flatten cmd ≡ []) ⊎ (ends_with_newline (peek me') ≡ ends_with_newline (flatten cmd))
append_all-ends cmd me me' e = rw e at (append_all-Behind cmd me)

-- A text that ends with a newline is some text and this newline, and no other text is.
pub ends-split :
    (xs : Bytes) → ends_with_newline xs ≡ true → (front : Bytes) × (xs ≡ front ++ 10 ∷ [])
unfolding ends_with_newline
ends-split [] h = cc
ends-split (x ∷ []) h = let same : x ≡ 10 = ground arith in ([], rw same refl)
ends-split (x ∷ y ∷ ys) h = let (front, e) = ends-split (y ∷ ys) h in (x ∷ front, ap (◌∷◌ x) e)

pub ends-newline : (front : Bytes) → ends_with_newline (front ++ 10 ∷ []) ≡ true
unfolding ends_with_newline
ends-newline front = ends-append front 10 []
