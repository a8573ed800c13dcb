-- ===== src/Secret/Stream.antt =====
-- What the masker gives out over a whole stream.
use mathlib.Core.List.{append-nil, append_assoc}
use racemo.Base.{
  ℕ, zero, suc, ◌+◌, ◌-◌, ◌≤◌, ◌≡◌, refl, sym, ap, inl, inr, Option, none, some, List, [], ◌∷◌,
  ◌++◌, map, arith, leb, ◌==◌, Bool-cases, Option-cases, length, get_elem?, take, drop,
  take-append-drop, length-drop, Text, concat,
}
use racemo.Secret.{
  Exec, mask_secrets_with_patterns, after_match, find_unterminated, find_unterminated_ansi_start,
  adjusted, push, flush,
}

after_match-le :
    (o : Option (ℕ × ℕ)) (i : ℕ) (k : ℕ → Option ℕ) {j : ℕ}
    → ((n : ℕ) → k n ≡ some j → i ≤ j)
    → after_match o i k ≡ some j
    → i ≤ j
after_match-le none i k f h = ground arith
after_match-le (some (zero, n)) i k f h = f n h
after_match-le (some (suc index, n)) i k f h = ground arith

find_unterminated-le :
    (exec : Exec) (fuel : ℕ) (buf : Text) (i : ℕ) {j : ℕ}
    → find_unterminated exec fuel buf i ≡ some j
    → i ≤ j
unfolding find_unterminated
find_unterminated-le exec zero buf i h = cc
find_unterminated-le exec (suc fuel) buf i {j} h = elim (Option-cases (get_elem? buf i)) [
  | inl e ↦ absurd (ground arith)
  | inr (c, e) ↦ elim (Bool-cases (c == 0x1b)) [
    | inl q ↦
        after_match-le (exec (drop i buf) 0) i (λ n. find_unterminated exec fuel buf (i + n))
          (λ n p. omega (arith, find_unterminated-le exec fuel buf (i + n) {j = j} p))
          (rw (e, q, find_unterminated) at h)
    | inr q ↦ omega (
      arith,
      find_unterminated-le exec fuel buf (i + 1) {j = j} (rw (e, q, find_unterminated) at h),
    )
  ]
]

-- The search for an open escape sequence starts at the split, so what it finds never moves it.
adjusted-find :
    (exec : Exec) (buf : Text) (k : ℕ) → adjusted (find_unterminated_ansi_start exec buf k) k ≡ k
unfolding find_unterminated_ansi_start
adjusted-find exec buf k = elim (Option-cases (find_unterminated exec (suc (length buf)) buf k)) [
  | inl e ↦ rw e
  | inr (j, e) ↦ rw e (ground (arith, find_unterminated-le exec (suc (length buf)) buf k {j = j} e))
]

module _ (exec : Exec) (ps : List (Text → Text)) (tail_bytes : ℕ) where
  -- A push holds back the last `tail_bytes` code units of what is buffered and masks the rest as one
  -- piece: the cut stands there also where it splits an escape sequence or a secret.
  pub push_lem :
      (buffer chunk : Text)
      → length buffer ≤ tail_bytes
      → let buf = buffer ++ chunk in
        let k = length buf - tail_bytes in
        push exec ps tail_bytes buffer chunk
        ≡ (drop k buf, mask_secrets_with_patterns exec ps (take k buf))
  unfolding push
  push_lem buffer [] h = rw append-nil (
      let e : length buffer - tail_bytes ≡ 0 = omega arith in
      rw e (unfold mask_secrets_with_patterns in refl))
  push_lem buffer (c ∷ chunk) h =
      let buf = buffer ++ c ∷ chunk in
      elim (Bool-cases (leb (length buf) tail_bytes)) [
        | inl e ↦
            let z : length buf - tail_bytes ≡ 0 = ground arith in
            rw (e, push) (rw z (unfold mask_secrets_with_patterns in refl))
        | inr e ↦ rw (e, push) (rw adjusted-find refl)
      ]

-- A stream: one push for each chunk, then the flush.
unfoldable pub mask_stream : Exec → List (Text → Text) → ℕ → Text → List Text → Text
unfolding flush
mask_stream exec ps tail_bytes buffer [] = (flush exec ps buffer).1
mask_stream exec ps tail_bytes buffer (c ∷ cs) =
    let (rest, out) = push exec ps tail_bytes buffer c in
    out ++ mask_stream exec ps tail_bytes rest cs

mask_secrets-nil :
    (exec : Exec) (ps : List (Text → Text)) → mask_secrets_with_patterns exec ps [] ≡ []
unfolding mask_secrets_with_patterns
mask_secrets-nil exec ps = refl

module _ (exec : Exec) (ps : List (Text → Text)) (tail_bytes : ℕ) where
  abbrev mask : Text → Text
  mask = mask_secrets_with_patterns exec ps

  -- Whatever the chunks are, the output is the masked pieces of a cutting of the input: nothing is
  -- lost, doubled or moved, and each piece is masked by itself.
  pub mask_stream-pieces :
      (chunks : List Text) (buffer : Text)
      → length buffer ≤ tail_bytes
      → (pieces : List Text) × (concat pieces ≡ buffer ++ concat chunks)
        × (mask_stream exec ps tail_bytes buffer chunks ≡ concat (map mask pieces))
  unfolding mask_stream concat
  mask_stream-pieces [] buffer h = (buffer ∷ [], refl, sym (append-nil _))
  mask_stream-pieces (c ∷ cs) buffer h =
      let buf = buffer ++ c in
      let k = length buf - tail_bytes in
      let (pieces, p, q) = mask_stream-pieces cs (drop k buf) (omega (arith, length-drop k buf)) in
      (
        take k buf ∷ pieces,
        rw (p, ← append_assoc, take-append-drop) (append_assoc buffer c (concat cs)),
        rw (push_lem exec ps tail_bytes buffer c h, mask_stream) (ap (mask (take k buf) ++◌) q),
      )

  -- A chunk that is longer than what is held back is cut at a fixed place, and its two parts are
  -- masked one by one: a secret across that place is never seen whole.
  pub mask_stream-split :
      (x : Text)
      → let k = length x - tail_bytes in
        mask_stream exec ps tail_bytes [] (x ∷ []) ≡ mask (take k x) ++ mask (drop k x)
  unfolding mask_stream
  mask_stream-split x = rw (push_lem exec ps tail_bytes [] x (omega arith), mask_stream)
