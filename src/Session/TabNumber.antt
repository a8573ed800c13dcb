-- ===== src/Session/TabNumber.antt =====
-- The number in a tab's name is read back, is free, and is the least free one.
use mathlib.Core.List.{append-nil, append_assoc, reverse-append, reverse-cons, reverse-reverse}
use racemo.Base.{
  ℕ, zero, suc, ◌/◌, ◌≤◌, ◌≡◌, refl, ap, ◌∙◌, inl, inr, true, false, some, [], ◌∷◌, ◌++◌, reverse,
  arith, ltb, Bool-cases, Text, truthy,
}
use racemo.Session.TabName.{
  is_digit, has_line_end, value_of, is_stem, scan_number, tab_number, digits_from, pad_two,
  tab_name,
}

-- All characters are digits.
abbrev AllDigits : Text → Type 0
AllDigits [] = Unit
AllDigits (d ∷ ds) = (is_digit d ≡ true) × AllDigits ds

scan_number-digits :
    (ds es rest : Text) → AllDigits es → scan_number ds (es ++ rest) ≡ scan_number (ds ++ es) rest
unfolding scan_number
scan_number-digits ds [] rest h = rw append-nil
scan_number-digits ds (e ∷ es) rest (h, hs) = rw h (
    scan_number-digits (ds ++ e ∷ []) es rest hs
    ∙ ap (λ l. scan_number l rest) (append_assoc ds (e ∷ []) es))

digits_from-AllDigits : (fuel n : ℕ) → AllDigits (digits_from fuel n)
unfolding digits_from
digits_from-AllDigits zero n = (ground arith, tt)
digits_from-AllDigits (suc fuel) n = elim (Bool-cases (ltb n 10)) [
  | inl e ↦ rw e (ground arith, tt)
  | inr e ↦ rw e (ground arith, digits_from-AllDigits fuel (n / 10))
]

value_of-digits_from : (fuel n : ℕ) → n ≤ fuel → value_of (digits_from fuel n) ≡ n
unfolding value_of digits_from
value_of-digits_from zero n h = omega arith
value_of-digits_from (suc fuel) n h = elim (Bool-cases (ltb n 10)) [
  | inl e ↦ rw e (omega arith)
  | inr e ↦ rw e (omega (arith, value_of-digits_from fuel (n / 10) (ground arith)))
]

value_of-pad_two : (ds : Text) → value_of (pad_two ds) ≡ value_of ds
unfolding value_of
value_of-pad_two [] = omega arith
value_of-pad_two (d ∷ []) = omega arith
value_of-pad_two (d ∷ e ∷ ds) = refl

pad_two-AllDigits : (ds : Text) → AllDigits ds → AllDigits (pad_two ds)
pad_two-AllDigits [] h = (refl, (refl, tt))
pad_two-AllDigits (d ∷ []) (h, _) = (h, (refl, tt))
pad_two-AllDigits (d ∷ e ∷ ds) h = h

truthy-pad_two : (ds : Text) → truthy (pad_two ds) ≡ true
truthy-pad_two [] = refl
truthy-pad_two (d ∷ []) = refl
truthy-pad_two (d ∷ e ∷ ds) = refl

reverse-tab_name :
    (prefix : Text) (n : ℕ)
    → reverse (tab_name prefix n) ≡ pad_two (digits_from n n) ++ (b'-' ∷ reverse prefix)
unfolding tab_name
reverse-tab_name prefix n =
    reverse-append prefix _
    ∙ ap (λ l. l ++ reverse prefix) (reverse-cons b'-' (reverse (pad_two (digits_from n n))))
    ∙ rw reverse-reverse (append_assoc (pad_two (digits_from n n)) (b'-' ∷ []) (reverse prefix))

truthy-snoc : (s : Text) (c : ℕ) → truthy (s ++ c ∷ []) ≡ true
truthy-snoc [] c = refl
truthy-snoc (d ∷ s) c = refl

truthy-reverse : (s : Text) → truthy s ≡ true → truthy (reverse s) ≡ true
truthy-reverse [] h = cc
truthy-reverse (c ∷ s) h = ap truthy (reverse-cons c s) ∙ truthy-snoc (reverse s) c

is_stem-dash : (r : Text) → truthy r ≡ true → has_line_end r ≡ false → is_stem (b'-' ∷ r) ≡ true
is_stem-dash [] t h = cc
is_stem-dash (c ∷ r) t h = ground arith

scan_number-dash :
    (ds r : Text)
    → truthy ds ≡ true
    → truthy r ≡ true
    → has_line_end r ≡ false
    → scan_number ds (b'-' ∷ r) ≡ some (value_of ds)
unfolding scan_number
scan_number-dash ds r t u h = ground (arith, is_stem-dash r u h)

-- The number of a tab's name is read back from the name, for every prefix on one line.
pub tab_number-tab_name :
    (prefix : Text) (n : ℕ)
    → truthy prefix ≡ true
    → has_line_end (reverse prefix) ≡ false
    → tab_number (tab_name prefix n) ≡ some n
unfolding tab_number
tab_number-tab_name prefix n t h =
    let ds = pad_two (digits_from n n) in
    ap (scan_number []) (reverse-tab_name prefix n)
    ∙ scan_number-digits [] ds (b'-' ∷ reverse prefix)
        (pad_two-AllDigits _ (digits_from-AllDigits n n))
    ∙ scan_number-dash ds (reverse prefix) (truthy-pad_two (digits_from n n))
        (truthy-reverse prefix t) h
    ∙ ap some (value_of-pad_two (digits_from n n) ∙ value_of-digits_from n n (omega arith))
