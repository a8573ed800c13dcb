-- ===== src/Unicode.antt =====
-- Hangul syllables and the width of text (src/lib/utils/unicode.ts).
pub mod Syllables
pub mod Tests
use racemo.Base.{
  ℕ, ◌+◌, ◌-◌, ◌*◌, ◌%◌, Bool, false, not, ◌&&◌, ◌||◌, Option, none, some, List, [], ◌∷◌, ltb, leb,
  ◌==◌, if◌then◌else◌, get_elem?, Text,
}

-- `CHOSEONG_IDX` and `JONGSEONG_IDX`; `none` is -1.
abbrev pub choseong_idx : List (Option ℕ)
choseong_idx =
    some 0
    ∷ some 1
    ∷ none
    ∷ some 2
    ∷ none
    ∷ none
    ∷ some 3
    ∷ some 4
    ∷ some 5
    ∷ none
    ∷ none
    ∷ none
    ∷ none
    ∷ none
    ∷ none
    ∷ none
    ∷ some 6
    ∷ some 7
    ∷ some 8
    ∷ none
    ∷ some 9
    ∷ some 10
    ∷ some 11
    ∷ some 12
    ∷ some 13
    ∷ some 14
    ∷ some 15
    ∷ some 16
    ∷ some 17
    ∷ some 18
    ∷ []

abbrev pub jongseong_idx : List (Option ℕ)
jongseong_idx =
    some 1
    ∷ some 2
    ∷ some 3
    ∷ some 4
    ∷ some 5
    ∷ some 6
    ∷ some 7
    ∷ none
    ∷ some 8
    ∷ some 9
    ∷ some 10
    ∷ some 11
    ∷ some 12
    ∷ some 13
    ∷ some 14
    ∷ some 15
    ∷ some 16
    ∷ some 17
    ∷ none
    ∷ some 18
    ∷ some 19
    ∷ some 20
    ∷ some 21
    ∷ some 22
    ∷ none
    ∷ some 23
    ∷ some 24
    ∷ some 25
    ∷ some 26
    ∷ some 27
    ∷ []

-- `s.charCodeAt(0)`; `none` is NaN.
abbrev pub char_code : Text → Option ℕ
char_code [] = none
char_code (c ∷ _) = some c

-- The comparisons are false of NaN.
unfoldable pub is_hangul_vowel_jamo : Text → Bool
is_hangul_vowel_jamo ch = elim (char_code ch) [
  | none ↦ false
  | some c ↦ leb 0x314F c && leb c 0x3163
]

unfoldable pub is_hangul_consonant_jamo : Text → Bool
is_hangul_consonant_jamo ch = elim (char_code ch) [
  | none ↦ false
  | some c ↦ leb 0x3131 c && leb c 0x314E
]

-- `TABLE[ch.charCodeAt(0) - 0x3131]`; an index outside of the table and the entry -1 are `none`.
abbrev pub join_idx : Option (Option ℕ) → Option ℕ
join_idx none = none
join_idx (some o) = o

unfoldable pub table_at : List (Option ℕ) → Text → Option ℕ
table_at table [] = none
table_at table (c ∷ _) = if ltb c 0x3131 then none else join_idx (get_elem? table (c - 0x3131))

-- With an empty medial every test on NaN fails, and `String.fromCharCode(NaN)` is the code unit 0.
unfoldable pub compose_hangul_syllable : Text → Text → Option Text
unfolding table_at
compose_hangul_syllable initial medial = elim (table_at choseong_idx initial) [
  | none ↦ none
  | some i ↦ elim (char_code medial) [
    | none ↦ some (0 ∷ [])
    | some c ↦
        if ltb c 0x314F || ltb 20 (c - 0x314F)
        then none
        else some ((0xAC00 + i * 21 * 28 + (c - 0x314F) * 28) ∷ [])
  ]
]

-- `j <= 0` is never true of an entry that is not -1.
unfoldable pub add_jongseong : Text → Text → Option Text
unfolding table_at
add_jongseong [] final = none
add_jongseong (code ∷ _) final =
    if ltb code 0xAC00 || ltb 0xD7AF code
    then none
    else if not ((code - 0xAC00) % 28 == 0)
    then none
    else elim (table_at jongseong_idx final) [
      | none ↦ none
      | some j ↦ if leb j 0 then none else some ((code + j) ∷ [])
    ]

abbrev pub between : ℕ → ℕ → ℕ → Bool
between lo hi c = leb lo c && leb c hi

unfoldable pub is_wide : ℕ → Bool
is_wide cp =
    between 0xAC00 0xD7AF cp
    || between 0x1100 0x11FF cp
    || between 0x3130 0x318F cp
    || between 0xA960 0xA97F cp
    || between 0xD7B0 0xD7FF cp
    || between 0x4E00 0x9FFF cp
    || between 0x3400 0x4DBF cp
    || between 0x3000 0x303F cp
    || between 0xFF01 0xFF60 cp
    || between 0xFFE0 0xFFE6 cp

-- The code points that `for (const ch of text)` goes through: surrogate pairs are one.
unfoldable pub code_points : Text → List ℕ
code_points [] = []
code_points (h ∷ []) = h ∷ []
code_points (h ∷ l ∷ s) =
    let single = h ∷ code_points (l ∷ s) in
    let pair = (0x10000 + (h - 0xD800) * 1024 + (l - 0xDC00)) ∷ code_points s in
    if between 0xD800 0xDBFF h && between 0xDC00 0xDFFF l then pair else single

unfoldable pub width_of : List ℕ → ℕ
unfolding is_wide
width_of [] = 0
width_of (cp ∷ cps) = (if is_wide cp then 2 else 1) + width_of cps

unfoldable pub get_display_width : Text → ℕ
unfolding code_points width_of
get_display_width text = width_of (code_points text)
