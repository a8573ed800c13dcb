-- ===== src/Base/Arrays.antt =====
-- The array calls of the program, by predicates and by indices.
use Prim.Native.Nat.{ℕ, zero, suc}
use mathlib.Core.Path.{◌≡◌, refl}
use mathlib.Core.Logic.{inl, inr}
use mathlib.Core.Bool.{Bool, true, false, ◌||◌}
use mathlib.Core.Option.{Option, none, some}
use mathlib.Core.List.{List, [], ◌∷◌}
use racemo.Base.Tests.{if◌then◌else◌, Bool-cases, Option-cases}
use racemo.Base.Lists.{get_elem?}
use racemo.Base.Texts.{Text, text_eq}

module _ {ℓ} {A : Type ℓ} where
  -- `xs.filter(p)`; the library's `filter` takes decisions.
  unfoldable pub keep : (A → Bool) → List A → List A
  keep p [] = []
  keep p (x ∷ xs) = let rest = keep p xs in if p x then x ∷ rest else rest

  unfoldable pub find : (A → Bool) → List A → Option A
  find p [] = none
  find p (x ∷ xs) = if p x then some x else find p xs

  unfoldable pub some_of : (A → Bool) → List A → Bool
  some_of p [] = false
  some_of p (x ∷ xs) = p x || some_of p xs

  -- `xs.findIndex(p)`; `none` is -1.
  unfoldable pub find_index : (A → Bool) → List A → Option ℕ
  find_index p [] = none
  find_index p (x ∷ xs) =
      if p x then some 0 else elim (find_index p xs) [ none ↦ none | some i ↦ some (suc i) ]

  -- `xs.splice(i, 1)` on a copy: what stays.
  unfoldable pub remove_at : List A → ℕ → List A
  remove_at [] i = []
  remove_at (x ∷ xs) zero = xs
  remove_at (x ∷ xs) (suc i) = x ∷ remove_at xs i

  -- `xs.splice(i, 0, x)` on a copy: an index past the end is the end.
  unfoldable pub insert_at : List A → ℕ → A → List A
  insert_at xs zero y = y ∷ xs
  insert_at [] (suc i) y = y ∷ []
  insert_at (x ∷ xs) (suc i) y = x ∷ insert_at xs i y

  unfoldable pub last : List A → Option A
  last [] = none
  last (x ∷ []) = some x
  last (x ∷ y ∷ xs) = last (y ∷ xs)

unfoldable pub text_mem : Text → List Text → Bool
text_mem t [] = false
text_mem t (s ∷ ss) = text_eq s t || text_mem t ss

module _ {ℓ} {A : Type ℓ} (p : A → Bool) where
  -- What is found at an index stands there and passes the test.
  pub find_index_lem :
      (xs : List A) (i : ℕ)
      → find_index p xs ≡ some i
      → (x : A) × (get_elem? xs i ≡ some x) × (p x ≡ true)
  unfolding find_index
  find_index_lem [] i e = cc
  find_index_lem (x ∷ xs) i e = elim (Bool-cases (p x)) [
    | inl f ↦ let n : some 0 ≡ some i = rw f at e in let m : i ≡ 0 = cc in rw m (x, refl, f)
    | inr f ↦ elim (Option-cases (find_index p xs)) [
      | inl n ↦ absurd (let m : none ≡ some i = rw (f, n) at e in cc)
      | inr (j, n) ↦
          let m : some (suc j) ≡ some i = rw (f, n) at e in
          let k : i ≡ suc j = cc in rw k (find_index_lem xs j n)
    ]
  ]
