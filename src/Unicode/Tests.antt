-- ===== src/Unicode/Tests.antt =====
-- Runs of the syllable functions, and the theorems at concrete characters.
use racemo.Base.{◌≡◌, refl, some, [], ◌∷◌}
use racemo.Unicode.{compose_hangul_syllable, add_jongseong, get_display_width}

ga : compose_hangul_syllable (0x3131 ∷ []) (0x314F ∷ []) ≡ some (0xAC00 ∷ [])
unfolding compose_hangul_syllable
ga = refl

gak : add_jongseong (0xAC00 ∷ []) (0x3131 ∷ []) ≡ some (0xAC01 ∷ [])
unfolding add_jongseong
gak = refl

width_two : get_display_width (0xAC00 ∷ []) ≡ 2
unfolding get_display_width
width_two = refl
