-- ===== src/Session/TabName.antt =====
-- Names of new tabs (`nextTabName` of src/stores/sessionStore.ts): a prefix, a dash and the least
-- number that no session's name ends in. Numbers are exact here; in the source they are doubles, so
-- names with numbers of more than 15 digits are outside of the model.
use racemo.Base.{
  ℕ, zero, suc, ◌+◌, ◌-◌, ◌*◌, ◌/◌, ◌%◌, Bool, false, not, ◌&&◌, ◌||◌, Option, none, some, List, [],
  ◌∷◌, ◌++◌, reverse, ltb, leb, ◌==◌, if◌then◌else◌, length, Text, truthy,
}
use racemo.Session.{Session, SessionStore}

abbrev pub is_digit : ℕ → Bool
is_digit c = leb b'0' c && leb c b'9'

-- What `.` of a regular expression does not match.
abbrev pub is_line_end : ℕ → Bool
is_line_end c = c == 10 || c == 13 || c == 0x2028 || c == 0x2029

unfoldable pub has_line_end : Text → Bool
has_line_end [] = false
has_line_end (c ∷ s) = is_line_end c || has_line_end s

-- The value of digits, the last one first.
unfoldable pub value_of : Text → ℕ
value_of [] = 0
value_of (d ∷ ds) = (d - b'0') + 10 * value_of ds

-- Behind the digits of a reversed name there must be a dash and at least one more character.
abbrev pub is_stem : Text → Bool
is_stem [] = false
is_stem (c ∷ []) = false
is_stem (c ∷ d ∷ s) = c == b'-' && not (has_line_end (d ∷ s))

-- Over a reversed name: the digits read so far, the last one first, and the rest.
unfoldable pub scan_number : Text → Text → Option ℕ
scan_number ds [] = none
scan_number ds (c ∷ s) =
    let more = scan_number (ds ++ c ∷ []) s in
    if is_digit c then more else if truthy ds && is_stem (c ∷ s) then some (value_of ds) else none

-- `name.match(/^.+-(\d+)$/)` and `parseInt` of its group.
unfoldable pub tab_number : Text → Option ℕ
unfolding scan_number value_of has_line_end
tab_number name = scan_number [] (reverse name)

unfoldable pub used_numbers : List Session → List ℕ
unfolding tab_number
used_numbers [] = []
used_numbers (x ∷ xs) = elim (tab_number x.name) [
  | none ↦ used_numbers xs
  | some n ↦ n ∷ used_numbers xs
]

unfoldable pub number_mem : ℕ → List ℕ → Bool
number_mem n [] = false
number_mem n (m ∷ ms) = m == n || number_mem n ms

-- `while (usedNumbers.has(next)) next++`, on fuel.
unfoldable pub next_free : ℕ → ℕ → List ℕ → Option ℕ
next_free zero next used = none
next_free (suc fuel) next used =
    let later = next_free fuel (next + 1) used in if number_mem next used then later else some next

-- `String(n)`, the last digit first; n rounds are enough.
unfoldable pub digits_from : ℕ → ℕ → Text
digits_from zero n = (b'0' + n % 10) ∷ []
digits_from (suc fuel) n =
    let more = digits_from fuel (n / 10) in
    if ltb n 10 then (b'0' + n) ∷ [] else (b'0' + n % 10) ∷ more

-- `padStart(2, "0")` on reversed digits.
abbrev pub pad_two : Text → Text
pad_two [] = b'0' ∷ b'0' ∷ []
pad_two (d ∷ []) = d ∷ b'0' ∷ []
pad_two (d ∷ e ∷ ds) = d ∷ e ∷ ds

unfoldable pub tab_name : Text → ℕ → Text
unfolding digits_from
tab_name prefix n = prefix ++ (b'-' ∷ reverse (pad_two (digits_from n n)))

-- `prefix` is the translated text of `session.newTab`; one round more than there are numbers.
unfoldable pub next_tab_name : Text → SessionStore → Option (Text × SessionStore)
next_tab_name prefix s =
    let used = used_numbers s.sessions in
    elim (next_free (suc (length used)) 1 used) [
      | none ↦ none
      | some next ↦ some (tab_name prefix next, record s { tab_counter = next })
    ]
