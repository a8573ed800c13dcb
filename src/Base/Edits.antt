-- ===== src/Base/Edits.antt =====
-- Laws of removals and insertions by index.
use Prim.Native.Nat.{ℕ, zero, suc, ◌+◌, ◌≤◌, ◌<◌}
use mathlib.Core.Path.{◌≡◌, refl, ap, sym, ◌∙◌}
use mathlib.Core.Bool.{true, false, ◌||◌}
use mathlib.Core.Option.{some}
use mathlib.Core.List.{List, [], ◌∷◌, ◌++◌, map}
use native.Mathlib.Omega.{arith}
use racemo.Base.Lists.{length, get_elem?, take}
use racemo.Base.Texts.{Text, text_eq, text_eq_iff}
use racemo.Base.Arrays.{remove_at, insert_at, text_mem}

module _ {ℓ} {A : Type ℓ} where
  pub length-remove_at :
      (xs : List A) (i : ℕ) → i < length xs → length (remove_at xs i) + 1 ≡ length xs
  unfolding remove_at
  length-remove_at [] i h = elim h [ ]
  length-remove_at (x ∷ xs) zero h = omega arith
  length-remove_at (x ∷ xs) (suc i) h = omega (arith, length-remove_at xs i (omega arith))

  pub remove_at_out : (xs : List A) (i : ℕ) → length xs ≤ i → remove_at xs i ≡ xs
  unfolding remove_at
  remove_at_out [] i h = refl
  remove_at_out (x ∷ xs) zero h = absurd (omega arith)
  remove_at_out (x ∷ xs) (suc i) h = ap (x ∷◌) (remove_at_out xs i (omega arith))

  pub length-insert_at : (xs : List A) (i : ℕ) (y : A) → length (insert_at xs i y) ≡ length xs + 1
  unfolding insert_at
  length-insert_at [] zero y = omega arith
  length-insert_at [] (suc i) y = omega arith
  length-insert_at (x ∷ xs) zero y = omega arith
  length-insert_at (x ∷ xs) (suc i) y = omega (arith, length-insert_at xs i y)

  pub get_elem?-remove_at_lt :
      (xs : List A) (i j : ℕ) → j < i → get_elem? (remove_at xs i) j ≡ get_elem? xs j
  unfolding remove_at
  get_elem?-remove_at_lt [] i j h = refl
  get_elem?-remove_at_lt (x ∷ xs) zero j h = elim h [ ]
  get_elem?-remove_at_lt (x ∷ xs) (suc i) zero h = refl
  get_elem?-remove_at_lt (x ∷ xs) (suc i) (suc j) h = get_elem?-remove_at_lt xs i j (omega arith)

  pub get_elem?-remove_at_ge :
      (xs : List A) (i j : ℕ) → i ≤ j → get_elem? (remove_at xs i) j ≡ get_elem? xs (suc j)
  unfolding remove_at
  get_elem?-remove_at_ge [] i j h = refl
  get_elem?-remove_at_ge (x ∷ xs) zero j h = refl
  get_elem?-remove_at_ge (x ∷ xs) (suc i) zero h = absurd (omega arith)
  get_elem?-remove_at_ge (x ∷ xs) (suc i) (suc j) h = get_elem?-remove_at_ge xs i j (omega arith)

  pub get_elem?-insert_at_lt :
      (xs : List A) (i j : ℕ) (y : A)
      → j < i
      → j < length xs
      → get_elem? (insert_at xs i y) j ≡ get_elem? xs j
  unfolding insert_at
  get_elem?-insert_at_lt [] i j y h k = absurd (omega arith)
  get_elem?-insert_at_lt (x ∷ xs) zero j y h k = absurd (omega arith)
  get_elem?-insert_at_lt (x ∷ xs) (suc i) zero y h k = refl
  get_elem?-insert_at_lt (x ∷ xs) (suc i) (suc j) y h k =
      get_elem?-insert_at_lt xs i j y (omega arith) (omega arith)

  pub get_elem?-insert_at_self :
      (ts : List A) (k : ℕ) (t : A) → k ≤ length ts → get_elem? (insert_at ts k t) k ≡ some t
  unfolding insert_at
  get_elem?-insert_at_self [] zero t _ = refl
  get_elem?-insert_at_self [] (suc k) t le = elim le [ ]
  get_elem?-insert_at_self (u ∷ ts) zero t _ = refl
  get_elem?-insert_at_self (u ∷ ts) (suc k) t le = get_elem?-insert_at_self ts k t (omega arith)

  pub get_elem?-insert_at_ge :
      (xs : List A) (i j : ℕ) (y : A)
      → i ≤ j
      → get_elem? (insert_at xs i y) (suc j) ≡ get_elem? xs j
  unfolding insert_at
  get_elem?-insert_at_ge xs zero j y h = refl
  get_elem?-insert_at_ge [] (suc i) j y h = refl
  get_elem?-insert_at_ge (x ∷ xs) (suc i) zero y h = absurd (omega arith)
  get_elem?-insert_at_ge (x ∷ xs) (suc i) (suc j) y h =
      get_elem?-insert_at_ge xs i j y (omega arith)

  pub get_elem?-some : (xs : List A) (i : ℕ) → i < length xs → (x : A) × (get_elem? xs i ≡ some x)
  get_elem?-some [] i h = elim h [ ]
  get_elem?-some (x ∷ xs) zero h = (x, refl)
  get_elem?-some (x ∷ xs) (suc i) h = get_elem?-some xs i (omega arith)

  pub lt_of_get_elem? : (xs : List A) (i : ℕ) {x : A} → get_elem? xs i ≡ some x → i < length xs
  lt_of_get_elem? [] i h = cc
  lt_of_get_elem? (y ∷ xs) zero h = omega arith
  lt_of_get_elem? (y ∷ xs) (suc i) h = omega (arith, lt_of_get_elem? xs i h)

  pub get_elem?-map {κ} :
      {B : Type κ} (f : A → B) (xs : List A) (i : ℕ) {x : A}
      → get_elem? xs i ≡ some x
      → get_elem? (map f xs) i ≡ some (f x)
  get_elem?-map f [] i h = cc
  get_elem?-map f (y ∷ xs) zero h = cc
  get_elem?-map f (y ∷ xs) (suc i) h = get_elem?-map f xs i h

  pub map-remove_at {κ} :
      {B : Type κ} (f : A → B) (xs : List A) (i : ℕ)
      → map f (remove_at xs i) ≡ remove_at (map f xs) i
  unfolding remove_at
  map-remove_at f [] i = refl
  map-remove_at f (x ∷ xs) zero = refl
  map-remove_at f (x ∷ xs) (suc i) = ap (f x ∷◌) (map-remove_at f xs i)

  pub map-insert_at {κ} :
      {B : Type κ} (f : A → B) (xs : List A) (i : ℕ) (y : A)
      → map f (insert_at xs i y) ≡ insert_at (map f xs) i (f y)
  unfolding insert_at
  map-insert_at f xs zero y = refl
  map-insert_at f [] (suc i) y = refl
  map-insert_at f (x ∷ xs) (suc i) y = ap (f x ∷◌) (map-insert_at f xs i y)

  pub map-take {κ} :
      {B : Type κ} (f : A → B) (n : ℕ) (xs : List A) → map f (take n xs) ≡ take n (map f xs)
  map-take f zero xs = refl
  map-take f (suc n) [] = refl
  map-take f (suc n) (x ∷ xs) = ap (f x ∷◌) (map-take f n xs)

-- No text stands twice.
abbrev pub Distinct : List Text → Type 0
Distinct [] = Unit
Distinct (x ∷ xs) = (text_mem x xs ≡ false) × Distinct xs

pub text_mem-append :
    (t : Text) (xs ys : List Text) → text_mem t (xs ++ ys) ≡ (text_mem t xs || text_mem t ys)
unfolding text_mem
text_mem-append t [] ys = refl
text_mem-append t (x ∷ xs) ys = ground (arith, text_mem-append t xs ys)

text_mem-remove_at :
    (t : Text) (xs : List Text) (i : ℕ)
    → text_mem t xs ≡ false
    → text_mem t (remove_at xs i) ≡ false
unfolding text_mem remove_at
text_mem-remove_at t [] i h = refl
text_mem-remove_at t (x ∷ xs) zero h = ground arith
text_mem-remove_at t (x ∷ xs) (suc i) h = ground (arith, text_mem-remove_at t xs i)

pub remove_at-Distinct : (xs : List Text) (i : ℕ) → Distinct xs → Distinct (remove_at xs i)
unfolding remove_at
remove_at-Distinct [] i h = h
remove_at-Distinct (x ∷ xs) zero (_, d) = d
remove_at-Distinct (x ∷ xs) (suc i) (m, d) =
    (text_mem-remove_at x xs i m, remove_at-Distinct xs i d)

text_mem-get_elem? :
    (xs : List Text) (i : ℕ) {t : Text} → get_elem? xs i ≡ some t → text_mem t xs ≡ true
unfolding text_mem
text_mem-get_elem? [] i h = cc
text_mem-get_elem? (x ∷ xs) zero {t} h = ground (arith, text_eq_iff x t)
text_mem-get_elem? (x ∷ xs) (suc i) {t} h = ground (arith, text_mem-get_elem? xs i h)

-- What is taken out of a list without repetitions is gone.
pub text_mem-remove_at_self :
    (xs : List Text) (i : ℕ) {t : Text}
    → Distinct xs
    → get_elem? xs i ≡ some t
    → text_mem t (remove_at xs i) ≡ false
unfolding text_mem remove_at
text_mem-remove_at_self [] i d h = refl
text_mem-remove_at_self (x ∷ xs) zero (m, d) h = ground arith
text_mem-remove_at_self (x ∷ xs) (suc i) {t} (m, d) h =
    ground (arith, text_eq_iff x t, text_mem-get_elem? xs i h, text_mem-remove_at_self xs i d h)

text_mem-insert_at :
    (t y : Text) (xs : List Text) (i : ℕ)
    → text_mem t (insert_at xs i y) ≡ (text_eq y t || text_mem t xs)
unfolding text_mem insert_at
text_mem-insert_at t y [] zero = refl
text_mem-insert_at t y [] (suc i) = refl
text_mem-insert_at t y (x ∷ xs) zero = refl
text_mem-insert_at t y (x ∷ xs) (suc i) = ground (arith, text_mem-insert_at t y xs i)

pub insert_at-Distinct :
    (xs : List Text) (i : ℕ) (y : Text)
    → Distinct xs
    → text_mem y xs ≡ false
    → Distinct (insert_at xs i y)
unfolding insert_at text_mem
insert_at-Distinct [] zero y d m = (refl, tt)
insert_at-Distinct [] (suc i) y d m = (refl, tt)
insert_at-Distinct (x ∷ xs) zero y d m = (m, d)
insert_at-Distinct (x ∷ xs) (suc i) y (n, d) m = (
  ground (arith, text_mem-insert_at x y xs i, text_eq_iff x y, text_eq_iff y x),
  insert_at-Distinct xs i y d (ground arith),
)

text_mem-take :
    (t : Text) (n : ℕ) (xs : List Text) → text_mem t xs ≡ false → text_mem t (take n xs) ≡ false
unfolding text_mem
text_mem-take t zero xs h = refl
text_mem-take t (suc n) [] h = refl
text_mem-take t (suc n) (x ∷ xs) h = ground (arith, text_mem-take t n xs)

pub take-Distinct : (n : ℕ) (xs : List Text) → Distinct xs → Distinct (take n xs)
take-Distinct zero xs d = tt
take-Distinct (suc n) [] d = tt
take-Distinct (suc n) (x ∷ xs) (m, d) = (text_mem-take x n xs m, take-Distinct n xs d)

pub snoc-Distinct :
    (xs : List Text) (y : Text) → Distinct xs → text_mem y xs ≡ false → Distinct (xs ++ y ∷ [])
unfolding text_mem
snoc-Distinct [] y d m = (refl, tt)
snoc-Distinct (x ∷ xs) y (n, d) m = (
  ground (arith, text_mem-append x xs (y ∷ []), text_eq_iff x y, text_eq_iff y x),
  snoc-Distinct xs y d (ground arith),
)

text_mem-get :
    (t : Text) (xs : List Text) (i : ℕ) {x : Text}
    → get_elem? xs i ≡ some x
    → text_mem t xs ≡ (text_eq x t || text_mem t (remove_at xs i))
unfolding text_mem remove_at
text_mem-get t [] i h = cc
text_mem-get t (y ∷ xs) zero h = ground arith
text_mem-get t (y ∷ xs) (suc i) {x} h = ground (arith, text_mem-get t xs i {x = x} h)

-- Moving an element changes no membership.
pub text_mem-move :
    (t : Text) (xs : List Text) (from to : ℕ) {x : Text}
    → get_elem? xs from ≡ some x
    → text_mem t (insert_at (remove_at xs from) to x) ≡ text_mem t xs
text_mem-move t xs from to {x} h =
    text_mem-insert_at t x (remove_at xs from) to ∙ sym (text_mem-get t xs from h)
