-- ===== src/Secret.antt =====
-- The masking of secrets in terminal output (src/lib/secretDetector.ts).
-- The engine of regular expressions is a parameter: `exec raw from` is the first match of `ANSI_RE`
-- at or behind `from`, its position and its length; a pattern is the function that `replace` with it
-- is.
pub mod Tokens
pub mod Stream
pub mod Tests
use racemo.Base.{
  ℕ, zero, suc, ◌+◌, ◌-◌, Option, none, some, List, [], ◌∷◌, ◌++◌, ltb, leb, ◌==◌, if◌then◌else◌,
  length, get_elem?, take, drop, Text, last,
}

pub data Token : Type 0 where
  ansi plain : Text → Token

abbrev pub Exec : Type 0
Exec = Text → ℕ → Option (ℕ × ℕ)

-- `raw.slice(from, to)`
abbrev pub slice : Text → ℕ → ℕ → Text
slice raw from to = take (to - from) (drop from raw)

abbrev pub plain_before : Text → ℕ → ℕ → List Token
plain_before raw last index = if ltb last index then plain (slice raw last index) ∷ [] else []

unfoldable pub apply_patterns : List (Text → Text) → Text → Text
apply_patterns [] text = text
apply_patterns (p ∷ ps) text = apply_patterns ps (p text)

unfoldable pub mask_tokens : List (Text → Text) → List Token → Text
unfolding apply_patterns
mask_tokens ps [] = []
mask_tokens ps (plain t ∷ ts) = apply_patterns ps t ++ mask_tokens ps ts
mask_tokens ps (ansi t ∷ ts) = t ++ mask_tokens ps ts

-- `lastIndex` behind a match, with the guard against empty ones.
abbrev pub next_index : ℕ → ℕ → ℕ
next_index index n = if n == 0 then index + n + 1 else index + n

-- A match of the rest that begins at once closes the sequence, and the scan goes on behind it.
abbrev pub after_match : Option (ℕ × ℕ) → ℕ → (ℕ → Option ℕ) → Option ℕ
after_match none i k = some i
after_match (some (zero, n)) i k = k n
after_match (some (suc index, n)) i k = some i

-- `if (escIdx !== -1 && escIdx < splitAt) splitAt = escIdx`
abbrev pub adjusted : Option ℕ → ℕ → ℕ
adjusted none split_at = split_at
adjusted (some esc) split_at = if ltb esc split_at then esc else split_at

abbrev pub token_round : Text → ℕ → Option (ℕ × ℕ) → (ℕ → ℕ → List Token) → List Token
token_round raw last none go = plain_before raw last (length raw)
token_round raw last (some (index, n)) go =
    plain_before raw last index
    ++ (ansi (slice raw index (index + n)) ∷ go (index + n) (next_index index n))

module _ (exec : Exec) where
  -- The loop of `tokenize`; `from` is `lastIndex`. Every round moves it on, so one round more than
  -- the text is long is enough.
  unfoldable pub tokens_from : ℕ → Text → ℕ → ℕ → List Token
  tokens_from zero raw last from = plain_before raw last (length raw)
  tokens_from (suc fuel) raw last from =
      token_round raw last (exec raw from) (λ last' from'. tokens_from fuel raw last' from')

  unfoldable pub tokenize : Text → List Token
  unfolding tokens_from
  tokenize raw = tokens_from (suc (length raw)) raw 0 0

  unfoldable pub mask_secrets_with_patterns : List (Text → Text) → Text → Text
  mask_secrets_with_patterns ps [] = []
  mask_secrets_with_patterns ps (c ∷ raw) = mask_tokens ps (tokenize (c ∷ raw))

  -- `findUnterminatedAnsiStart`, from position i; a round for each code unit is enough.
  unfoldable pub find_unterminated : ℕ → Text → ℕ → Option ℕ
  find_unterminated zero buf i = none
  find_unterminated (suc fuel) buf i =
      let next = find_unterminated fuel buf (i + 1) in
      let escape = after_match (exec (drop i buf) 0) i (λ n. find_unterminated fuel buf (i + n)) in
      elim (get_elem? buf i) [ none ↦ none | some c ↦ if c == 0x1b then escape else next ]

  unfoldable pub find_unterminated_ansi_start : Text → ℕ → Option ℕ
  unfolding find_unterminated
  find_unterminated_ansi_start buf from = find_unterminated (suc (length buf)) buf from

  -- `push` and `flush` of a masker: the new buffer and the text that is given out.
  unfoldable pub push : List (Text → Text) → ℕ → Text → Text → Text × Text
  push ps tail_bytes buffer [] = (buffer, [])
  push ps tail_bytes buffer (c ∷ chunk) =
      let buf = buffer ++ c ∷ chunk in
      let k = length buf - tail_bytes in
      let split_at = adjusted (find_unterminated_ansi_start buf k) k in
      if leb (length buf) tail_bytes
      then (buf, [])
      else (drop split_at buf, mask_secrets_with_patterns ps (take split_at buf))

  unfoldable pub flush : List (Text → Text) → Text → Text × Text
  flush ps buffer = ([], mask_secrets_with_patterns ps buffer)
