-- ===== src/Secret/Tests.antt =====
-- The theorems on the masker at a concrete engine and text.
use racemo.Base.{
  zero, suc, ◌≡◌, refl, none, some, List, [], ◌∷◌, map, arith, ◌==◌, if◌then◌else◌, Text, codes,
  concat,
}
use racemo.Secret.{
  find_unterminated_ansi_start, mask_tokens, tokenize, Exec, push, mask_secrets_with_patterns,
  tokens_from,
}
use racemo.Secret.Tokens.{InText, FindsNothing, mask_secrets-clean, tokens_from_enough}
use racemo.Secret.Stream.{mask_stream, mask_stream-pieces}

-- An engine that finds an escape sequence of two code units in front of a text.
abbrev front : Exec
front [] from = none
front (c ∷ []) from = none
front (c ∷ d ∷ raw) zero = if c == 0x1b then some (0, 2) else none
front (c ∷ d ∷ raw) (suc from) = none

front-InText : InText front
front-InText [] from index n e = cc
front-InText (c ∷ []) from index n e = cc
front-InText (c ∷ d ∷ raw) zero index n e = ground arith
front-InText (c ∷ d ∷ raw) (suc from) index n e = cc

-- A pattern for the one secret `s`.
abbrev hide : Text → Text
hide [] = []
hide (c ∷ t) = (if c == b's' then b'*' else c) ∷ hide t

masked_behind_escape :
    mask_secrets_with_patterns front (hide ∷ []) (0x1b ∷ b's' ∷ b's' ∷ []) ≡ 0x1b ∷ b's' ∷ b'*' ∷ []
unfolding mask_secrets_with_patterns mask_tokens tokenize
masked_behind_escape = refl

held_back : push front (hide ∷ []) 2 [] (codes "asb") ≡ (codes "sb", codes "a")
unfolding push mask_secrets_with_patterns find_unterminated_ansi_start mask_tokens tokenize
held_back = refl

-- The pattern would hide the `s`, were it not a part of the escape sequence.
nothing_found : FindsNothing (hide ∷ []) (tokenize front (0x1b ∷ b's' ∷ b'a' ∷ []))
unfolding tokenize
nothing_found = ((refl, tt), tt)

mask_secrets-clean_example :
    mask_secrets_with_patterns front (hide ∷ []) (0x1b ∷ b's' ∷ b'a' ∷ []) ≡ 0x1b ∷ b's' ∷ b'a' ∷ []
mask_secrets-clean_example =
    mask_secrets-clean front (hide ∷ []) (0x1b ∷ b's' ∷ b'a' ∷ []) front-InText nothing_found

tokens_from_enough_example :
    tokens_from front 4 (0x1b ∷ b's' ∷ []) 0 0 ≡ tokens_from front 3 (0x1b ∷ b's' ∷ []) 0 0
tokens_from_enough_example =
    tokens_from_enough front front-InText 3 (0x1b ∷ b's' ∷ []) 0 0 (omega arith)

mask_stream-pieces_example :
    (pieces : List Text) × (concat pieces ≡ concat (codes "as" ∷ codes "b" ∷ []))
    × (mask_stream front (hide ∷ []) 2 [] (codes "as" ∷ codes "b" ∷ [])
        ≡ concat (map (mask_secrets_with_patterns front (hide ∷ [])) pieces))
mask_stream-pieces_example =
    mask_stream-pieces front (hide ∷ []) 2 (codes "as" ∷ codes "b" ∷ []) [] (omega arith)
