-- ===== src/Completion/Tokens.antt =====
-- The tokens of a command line that is made of quoted words, and the sides of a path
-- (src/lib/completionEngine.ts).
use racemo.Base.{
  ℕ, ◌≡◌, refl, ap, ◌∙◌, ◌⊎◌, inl, inr, Bool, true, not, ◌&&◌, ◌||◌, none, some, List, [], ◌∷◌,
  ◌++◌, ◌==◌, Bool-cases, Option-cases, Text, codes, truthy, starts_with,
}
use mathlib.Core.List.{append_assoc}
use racemo.Completion.Engine.{split_slash, target}

abbrev pub lacks : ℕ → Text → Bool
lacks c [] = true
lacks c (d ∷ t) = not (d == c) && lacks c t

-- Words that are not empty and have no double quote.
abbrev pub Quotable : List Text → Type 0
Quotable [] = Unit
Quotable (t ∷ ts) = (truthy t ≡ true) × (lacks 34 t ≡ true) × Quotable ts

abbrev pub quoted : Text → Text
quoted t = 34 ∷ (t ++ 34 ∷ [])

split_slash-none : (t : Text) → split_slash t ≡ none → lacks 47 t ≡ true
unfolding split_slash
split_slash-none [] e = refl
split_slash-none (c ∷ t) e = elim (Option-cases (split_slash t)) [
  | inl f ↦ elim (Bool-cases (c == 47)) [
    | inl g ↦ absurd (let n : some (c ∷ [], t) ≡ none = rw (f, g) at e in cc)
    | inr g ↦ rw g (split_slash-none t f)
  ]
  | inr ((a, b), f) ↦ absurd (let n : some (c ∷ a, b) ≡ none = rw f at e in cc)
]

split_slash_lem : (t a b : Text) → split_slash t ≡ some (a, b) → (a ++ b ≡ t) × (lacks 47 b ≡ true)
unfolding split_slash
split_slash_lem [] a b e = cc
split_slash_lem (c ∷ t) a b e = elim (Option-cases (split_slash t)) [
  | inl f ↦ elim (Bool-cases (c == 47)) [
    | inl g ↦
        let n : some (c ∷ [], t) ≡ some (a, b) = rw (f, g) at e in
        let x : a ≡ c ∷ [] = cc in let y : b ≡ t = cc in rw (x, y) (refl, split_slash-none t f)
    | inr g ↦ absurd (let n : none ≡ some (a, b) = rw (f, g) at e in cc)
  ]
  | inr ((a', b'), f) ↦
      let n : some (c ∷ a', b') ≡ some (a, b) = rw f at e in
      let x : a ≡ c ∷ a' = cc in
      let y : b ≡ b' = cc in
      let (p, q) = split_slash_lem t a' b' f in rw (x, y) (ap (λ (z : Text). c ∷ z) p, q)
]

-- The directory that is listed and what its entries begin with make up the path that was typed, as it
-- stands or under the working directory; the second has no slash.
pub target_lem :
    (typed cwd : Text)
    → let (dir, part) = target typed cwd in
      (lacks 47 part ≡ true)
      × ((dir ++ 47 ∷ part ≡ cwd ++ 47 ∷ typed)
          ⊎ ((dir ++ part ≡ typed) ⊎ (dir ++ part ≡ cwd ++ 47 ∷ typed)))
unfolding target
target_lem typed cwd = elim (Option-cases (split_slash typed)) [
  | inl e ↦ rw (e, target) (split_slash-none typed e, inl refl)
  | inr ((a, b), e) ↦
      let (p, q) = split_slash_lem typed a b e in
      elim (Bool-cases (starts_with a (codes "/") || starts_with a (codes "~/"))) [
        | inl f ↦ rw (e, target, f) (q, inr (inl p))
        | inr f ↦
            rw (e, target, f)
              (q, inr (inr (append_assoc cwd (47 ∷ a) b ∙ ap (λ (z : Text). cwd ++ 47 ∷ z) p)))
      ]
]
