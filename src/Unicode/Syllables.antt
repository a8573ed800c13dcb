-- ===== src/Unicode/Syllables.antt =====
-- The parts of a composed syllable can be read back, and the width of a text is bounded.
use racemo.Base.{
  ℕ, zero, suc, ◌+◌, ◌-◌, ◌*◌, ◌/◌, ◌%◌, ◌≤◌, ◌<◌, ◌≡◌, ◌≢◌, inl, inr, not, ◌&&◌, ◌||◌, Option,
  none, some, List, [], ◌∷◌, arith, ltb, leb, ◌==◌, Bool-cases, Option-cases, length, get_elem?,
  Text,
}
use racemo.Unicode.{
  choseong_idx, jongseong_idx, join_idx, table_at, compose_hangul_syllable, add_jongseong, between,
  code_points, width_of, get_display_width,
}

abbrev AllBelow : ℕ → List (Option ℕ) → Type 0
AllBelow n [] = Unit
AllBelow n (none ∷ os) = AllBelow n os
AllBelow n (some k ∷ os) = (k < n) × AllBelow n os

get-AllBelow :
    (n : ℕ) (os : List (Option ℕ)) (i : ℕ) {k : ℕ}
    → AllBelow n os
    → join_idx (get_elem? os i) ≡ some k
    → k < n
get-AllBelow n [] i h e = cc
get-AllBelow n (none ∷ os) zero h e = cc
get-AllBelow n (some m ∷ os) zero h e = ground arith
get-AllBelow n (none ∷ os) (suc i) h e = get-AllBelow n os i h e
get-AllBelow n (some m ∷ os) (suc i) (_, h) e = get-AllBelow n os i h e

table_at-lt :
    (n : ℕ) (os : List (Option ℕ)) (t : Text) {k : ℕ}
    → AllBelow n os
    → table_at os t ≡ some k
    → k < n
unfolding table_at
table_at-lt n os [] h e = cc
table_at-lt n os (c ∷ t) {k} h e = ground (arith, get-AllBelow n os (c - 0x3131) {k = k} h)

pub initial-lt : (t : Text) {k : ℕ} → table_at choseong_idx t ≡ some k → k < 19
initial-lt t e = table_at-lt 19 choseong_idx t (omega arith) e

pub final-lt : (t : Text) {k : ℕ} → table_at jongseong_idx t ≡ some k → k < 28
final-lt t e = table_at-lt 28 jongseong_idx t (omega arith) e

-- A consonant and a vowel make a syllable without a final, in the block of the syllables, from whose
-- code the index of the consonant and the vowel can be computed.
pub compose_hangul_syllable_parts :
    (initial : Text) (v : ℕ) (rest : Text) {s : Text}
    → compose_hangul_syllable initial (v ∷ rest) ≡ some s
    → (i : ℕ) × (code : ℕ) × (s ≡ code ∷ [])
      × (table_at choseong_idx initial ≡ some i)
      × (0xAC00 ≤ code)
      × (code ≤ 0xD7A3)
      × ((code - 0xAC00) / 588 ≡ i)
      × ((code - 0xAC00) % 588 / 28 + 0x314F ≡ v)
      × ((code - 0xAC00) % 28 ≡ 0)
unfolding compose_hangul_syllable
compose_hangul_syllable_parts initial v rest {s} h =
    elim (Option-cases (table_at choseong_idx initial)) [
      | inl e ↦ let n : none ≡ some s = rw (e, compose_hangul_syllable) at h in cc
      | inr (i, e) ↦ elim (Bool-cases (ltb v 0x314F || ltb 20 (v - 0x314F))) [
        | inl b ↦ let n : none ≡ some s = rw (e, b, compose_hangul_syllable) at h in cc
        | inr b ↦
            let q : some ((0xAC00 + i * 21 * 28 + (v - 0x314F) * 28) ∷ []) ≡ some s =
              rw (e, b, compose_hangul_syllable) at h in
            let lt = initial-lt initial {k = i} e in
            (
              i,
              0xAC00 + i * 21 * 28 + (v - 0x314F) * 28,
              cc,
              e,
              omega arith,
              ground arith,
              ground arith,
              ground arith,
              ground arith,
            )
      ]
    ]

add_jongseong-none :
    (code : ℕ) (final : Text) → (code - 0xAC00) % 28 ≢ 0 → add_jongseong (code ∷ []) final ≡ none
unfolding add_jongseong
add_jongseong-none code final h = ground arith

-- What is known of the arguments of an addition that succeeds.
add_jongseong_inv :
    (code : ℕ) (rest final : Text) (j : ℕ) {s : Text}
    → table_at jongseong_idx final ≡ some j
    → add_jongseong (code ∷ rest) final ≡ some s
    → (s ≡ (code + j) ∷ []) × (0xAC00 ≤ code) × ((code - 0xAC00) % 28 ≡ 0) × (0 < j)
unfolding add_jongseong
add_jongseong_inv code rest final j {s} e h =
    elim (Bool-cases (ltb code 0xAC00 || ltb 0xD7AF code)) [
      | inl b ↦ let n : none ≡ some s = rw (b, add_jongseong) at h in cc
      | inr b ↦ elim (Bool-cases (not ((code - 0xAC00) % 28 == 0))) [
        | inl c ↦ let n : none ≡ some s = rw (b, c, add_jongseong) at h in cc
        | inr c ↦ elim (Bool-cases (leb j 0)) [
          | inl d ↦ let n : none ≡ some s = rw (b, c, e, d, add_jongseong) at h in cc
          | inr d ↦
              let q : some ((code + j) ∷ []) ≡ some s = rw (b, c, e, d, add_jongseong) at h in
              (cc, ground arith, ground arith, ground arith)
        ]
      ]
    ]

-- Adding a final keeps the consonant and the vowel, and the final's index can be computed; a second
-- final is refused.
pub add_jongseong_parts :
    (code : ℕ) (rest final : Text) {s : Text}
    → code ≤ 0xD7A3
    → add_jongseong (code ∷ rest) final ≡ some s
    → (j : ℕ) × (s ≡ (code + j) ∷ [])
      × (table_at jongseong_idx final ≡ some j)
      × ((code + j - 0xAC00) / 28 ≡ (code - 0xAC00) / 28)
      × ((code + j - 0xAC00) % 28 ≡ j)
      × (code + j ≤ 0xD7A3)
      × ((other : Text) → add_jongseong s other ≡ none)
unfolding add_jongseong
add_jongseong_parts code rest final {s} lim h = elim (Option-cases (table_at jongseong_idx final)) [
  | inl e ↦ absurd (ground arith)
  | inr (j, e) ↦
      let lt = final-lt final {k = j} e in
      let (q, lo, z, pos) = add_jongseong_inv code rest final j {s = s} e h in
      (
        j,
        q,
        e,
        omega arith,
        omega arith,
        omega arith,
        λ other. rw q (add_jongseong-none (code + j) other (omega arith)),
      )
]

width_of_bounds : (cps : List ℕ) → (length cps ≤ width_of cps) × (width_of cps ≤ 2 * length cps)
unfolding width_of
width_of_bounds [] = omega arith
width_of_bounds (cp ∷ cps) = ground (arith, width_of_bounds cps)

length-code_points :
    (s : Text) → (length (code_points s) ≤ length s) × (length s ≤ 2 * length (code_points s))
unfolding code_points
length-code_points [] = omega arith
length-code_points (h ∷ []) = omega arith
length-code_points (h ∷ l ∷ s) =
    elim (Bool-cases (between 0xD800 0xDBFF h && between 0xDC00 0xDFFF l)) [
      | inl e ↦ rw e (omega (arith, length-code_points s))
      | inr e ↦ rw e (omega (arith, length-code_points (l ∷ s)))
    ]

-- A text of n code units is between n / 2 and 2 n columns wide.
pub get_display_width_bounds :
    (text : Text)
    → (length text ≤ 2 * get_display_width text) × (get_display_width text ≤ 2 * length text)
unfolding get_display_width
get_display_width_bounds text =
    omega (arith, width_of_bounds (code_points text), length-code_points text)
