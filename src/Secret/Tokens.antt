-- ===== src/Secret/Tokens.antt =====
-- The tokens of a text, and the rounds that they take.
use mathlib.Core.List.{append-nil}
use racemo.Base.{
  ℕ, zero, suc, ◌+◌, ◌-◌, ◌≤◌, ◌<◌, ◌≡◌, refl, sym, ap, ◌∙◌, inl, inr, Option, none, some, List, [],
  ◌∷◌, ◌++◌, arith, ltb, Bool-cases, Option-cases, length, drop, take-append-drop, Text,
}
use racemo.Secret.{
  Token, ansi, plain, Exec, slice, plain_before, next_index, token_round, tokens_from, tokenize,
  apply_patterns, mask_tokens, mask_secrets_with_patterns,
}

-- What is relied on of `exec`: a match lies behind the place where the search starts, and within the
-- text.
abbrev pub InText : Exec → Type 0
InText exec =
    (raw : Text) (from index n : ℕ)
    → exec raw from ≡ some (index, n)
    → (from ≤ index) × (index + n ≤ length raw)

drop-drop : (m n : ℕ) (s : Text) → drop n (drop m s) ≡ drop (m + n) s
drop-drop zero n s = let e : 0 + n ≡ n = omega arith in rw e
drop-drop (suc m) zero [] = let e : suc m + 0 ≡ suc m = omega arith in rw e
drop-drop (suc m) (suc n) [] = let e : suc m + suc n ≡ suc (m + suc n) = omega arith in rw e
drop-drop (suc m) n (c ∷ s) =
    let e : suc m + n ≡ suc (m + n) = omega arith in rw e (drop-drop m n s)

drop_all : (s : Text) → drop (length s) s ≡ []
drop_all [] = refl
drop_all (c ∷ s) = drop_all s

slice-append-drop : (s : Text) (a b : ℕ) → a ≤ b → slice s a b ++ drop b s ≡ drop a s
slice-append-drop s a b h =
    let e : a + (b - a) ≡ b = omega arith in
    ap (slice s a b ++◌) (sym (drop-drop a (b - a) s ∙ rw e)) ∙ take-append-drop (b - a) (drop a s)

mask_tokens-plain_before :
    (raw : Text) (last index : ℕ) (ts : List Token)
    → last ≤ index
    → mask_tokens [] (plain_before raw last index ++ ts) ≡ slice raw last index ++ mask_tokens [] ts
unfolding mask_tokens apply_patterns
mask_tokens-plain_before raw last index ts h = elim (Bool-cases (ltb last index)) [
  | inl e ↦ rw e refl
  | inr e ↦ let z : index - last ≡ 0 = ground arith in rw (e, z)
]

mask_tokens-rest :
    (raw : Text) (last : ℕ)
    → last ≤ length raw
    → mask_tokens [] (plain_before raw last (length raw)) ≡ drop last raw
unfolding mask_tokens
mask_tokens-rest raw last k =
    ap (mask_tokens []) (sym (append-nil (plain_before raw last (length raw))))
    ∙ mask_tokens-plain_before raw last (length raw) [] k
    ∙ ap (slice raw last (length raw) ++◌) (sym (drop_all raw))
    ∙ slice-append-drop raw last (length raw) k

mask_tokens-token_round :
    (raw : Text) (last from : ℕ) (o : Option (ℕ × ℕ)) (go : ℕ → ℕ → List Token)
    → last ≤ from
    → last ≤ length raw
    → ((index n : ℕ) → o ≡ some (index, n) → (from ≤ index) × (index + n ≤ length raw))
    → ((l f : ℕ) → l ≤ f → l ≤ length raw → mask_tokens [] (go l f) ≡ drop l raw)
    → mask_tokens [] (token_round raw last o go) ≡ drop last raw
unfolding mask_tokens
mask_tokens-token_round raw last from none go h k ok ih = mask_tokens-rest raw last k
mask_tokens-token_round raw last from (some (index, n)) go h k ok ih =
    let (p, q) = ok index n refl in
    mask_tokens-plain_before raw last index _ (omega arith)
    ∙ ap (λ t. slice raw last index ++ (slice raw index (index + n) ++ t))
        (ih (index + n) (next_index index n) (ground arith) q)
    ∙ ap (slice raw last index ++◌) (slice-append-drop raw index (index + n) (omega arith))
    ∙ slice-append-drop raw last index (omega arith)

module _ (exec : Exec) (ok : InText exec) where
  mask_tokens-tokens_from :
      (fuel : ℕ) (raw : Text) (last from : ℕ)
      → last ≤ from
      → last ≤ length raw
      → mask_tokens [] (tokens_from exec fuel raw last from) ≡ drop last raw
  unfolding tokens_from
  mask_tokens-tokens_from zero raw last from h k = mask_tokens-rest raw last k
  mask_tokens-tokens_from (suc fuel) raw last from h k =
      mask_tokens-token_round raw last from (exec raw from) (λ l f. tokens_from exec fuel raw l f) h
        k (λ index n e. ok raw from index n e) (λ l f p q. mask_tokens-tokens_from fuel raw l f p q)

-- Each pattern leaves each plain token as it is; escape sequences are not looked at.
abbrev pub Leaves : List (Text → Text) → Text → Type 0
Leaves [] t = Unit
Leaves (p ∷ ps) t = (p t ≡ t) × Leaves ps t

abbrev pub FindsNothing : List (Text → Text) → List Token → Type 0
FindsNothing ps [] = Unit
FindsNothing ps (plain t ∷ ts) = Leaves ps t × FindsNothing ps ts
FindsNothing ps (ansi t ∷ ts) = FindsNothing ps ts

apply_patterns-Leaves : (ps : List (Text → Text)) (t : Text) → Leaves ps t → apply_patterns ps t ≡ t
unfolding apply_patterns
apply_patterns-Leaves [] t h = refl
apply_patterns-Leaves (p ∷ ps) t (e, h) = rw e (apply_patterns-Leaves ps t h)

mask_tokens-FindsNothing :
    (ps : List (Text → Text)) (ts : List Token)
    → FindsNothing ps ts
    → mask_tokens ps ts ≡ mask_tokens [] ts
unfolding mask_tokens
mask_tokens-FindsNothing ps [] h = refl
mask_tokens-FindsNothing ps (plain t ∷ ts) (l, h) =
    rw (apply_patterns-Leaves ps t l, mask_tokens-FindsNothing ps ts h)
      (unfold apply_patterns in refl)
mask_tokens-FindsNothing ps (ansi t ∷ ts) h = ap (t ++◌) (mask_tokens-FindsNothing ps ts h)

-- A text of which no pattern changes a plain token comes back unchanged, escape sequences included,
-- if the matches of escape sequences lie within the text and behind where the search starts.
pub mask_secrets-clean :
    (exec : Exec) (ps : List (Text → Text)) (raw : Text)
    → InText exec
    → FindsNothing ps (tokenize exec raw)
    → mask_secrets_with_patterns exec ps raw ≡ raw
unfolding mask_secrets_with_patterns tokenize
mask_secrets-clean exec ps [] ok h = refl
mask_secrets-clean exec ps (c ∷ raw) ok h =
    mask_tokens-FindsNothing ps _ h
    ∙ mask_tokens-tokens_from exec ok (suc (suc (length raw))) (c ∷ raw) 0 0 (omega arith)
        (omega arith)

module _ (exec : Exec) (ok : InText exec) where
  -- One round for each code unit and one more are enough: further fuel changes no token.
  pub tokens_from_enough :
      (fuel : ℕ) (raw : Text) (last from : ℕ)
      → length raw < fuel + from
      → tokens_from exec (suc fuel) raw last from ≡ tokens_from exec fuel raw last from
  unfolding tokens_from
  tokens_from_enough zero raw last from h = elim (Option-cases (exec raw from)) [
    | inl e ↦ rw e
    | inr ((index, n), e) ↦ absurd (omega (arith, ok raw from index n e))
  ]
  tokens_from_enough (suc fuel) raw last from h = elim (Option-cases (exec raw from)) [
    | inl e ↦ rw e
    | inr ((index, n), e) ↦
        let (p, q) = ok raw from index n e in
        rw e (
          ap (λ ts. plain_before raw last index ++ (ansi (slice raw index (index + n)) ∷ ts))
            (tokens_from_enough fuel raw (index + n) (next_index index n) (ground arith)))
  ]
