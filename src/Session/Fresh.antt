-- ===== src/Session/Fresh.antt =====
-- The number of a new tab is free, and the least one.
use racemo.Base.{
  ℕ, zero, suc, ◌+◌, ◌≤◌, ◌<◌, ◌≡◌, refl, sym, ◌∙◌, ◌≢◌, inl, inr, true, false, some, List, [], ◌∷◌,
  map, reverse, arith, ◌==◌, if◌then◌else◌, Bool-cases, length, Text, text_eq_iff, truthy, text_mem,
}
use racemo.Session.{Session, SessionStore}
use racemo.Session.TabName.{
  has_line_end, tab_number, used_numbers, number_mem, next_free, tab_name, next_tab_name,
}
use racemo.Session.TabNumber.{tab_number-tab_name}

without : ℕ → List ℕ → List ℕ
without n [] = []
without n (m ∷ ms) = if m == n then without n ms else m ∷ without n ms

number_mem-without : (k n : ℕ) (ms : List ℕ) → k ≢ n → number_mem k (without n ms) ≡ number_mem k ms
unfolding number_mem without
number_mem-without k n [] h = refl
number_mem-without k n (m ∷ ms) h = ground (arith, number_mem-without k n ms h)

length-without_le : (n : ℕ) (ms : List ℕ) → length (without n ms) ≤ length ms
unfolding without
length-without_le n [] = omega arith
length-without_le n (m ∷ ms) = ground (arith, length-without_le n ms)

length-without_lt :
    (n : ℕ) (ms : List ℕ) → number_mem n ms ≡ true → length (without n ms) < length ms
unfolding number_mem without
length-without_lt n [] h = cc
length-without_lt n (m ∷ ms) h = ground (arith, length-without_le n ms, length-without_lt n ms)

next_free-without :
    (fuel n k : ℕ) (ms : List ℕ) → n < k → next_free fuel k (without n ms) ≡ next_free fuel k ms
unfolding next_free
next_free-without zero n k ms h = refl
next_free-without (suc fuel) n k ms h =
    rw (number_mem-without k n ms (omega arith), next_free-without fuel n (k + 1) ms (omega arith))

-- With more rounds than numbers the loop ends, at the least number from its start that is not used.
pub next_free_least :
    (fuel n : ℕ) (used : List ℕ)
    → length used < fuel
    → (k : ℕ) × (next_free fuel n used ≡ some k)
      × (number_mem k used ≡ false)
      × (n ≤ k)
      × ((j : ℕ) → n ≤ j → j < k → number_mem j used ≡ true)
unfolding next_free
next_free_least zero n used h = absurd (omega arith)
next_free_least (suc fuel) n used h = elim (Bool-cases (number_mem n used)) [
  | inl e ↦
      let (k, f, m, l, b) =
        next_free_least fuel (n + 1) (without n used) (omega (arith, length-without_lt n used e)) in
      (
        k,
        rw e (sym (next_free-without fuel n (n + 1) used (omega arith)) ∙ f),
        sym (number_mem-without k n used (omega arith)) ∙ m,
        omega arith,
        λ j p q. ground (arith, e, b j, number_mem-without j n used),
      )
  | inr e ↦ (n, rw e, e, omega arith, λ j p q. absurd (omega arith))
]

used-not-name :
    (xs : List Session) (name : Text) (k : ℕ)
    → tab_number name ≡ some k
    → number_mem k (used_numbers xs) ≡ false
    → text_mem name (map (λ (x : Session). x.name) xs) ≡ false
unfolding used_numbers number_mem text_mem
used-not-name [] name k h f = refl
used-not-name (x ∷ xs) name k h f =
    ground (arith, text_eq_iff x.name name, used-not-name xs name k h)

-- For every list of sessions the name of a new tab is found, no session has it, its number is read
-- back from it, and every smaller positive number is in use.
pub next_tab_name_fresh :
    (prefix : Text) (s : SessionStore)
    → truthy prefix ≡ true
    → has_line_end (reverse prefix) ≡ false
    → (n : ℕ) × (next_tab_name prefix s ≡ some (tab_name prefix n, record s { tab_counter = n }))
      × (text_mem (tab_name prefix n) (map (λ (x : Session). x.name) s.sessions) ≡ false)
      × (tab_number (tab_name prefix n) ≡ some n)
      × ((j : ℕ) → 1 ≤ j → j < n → number_mem j (used_numbers s.sessions) ≡ true)
unfolding next_tab_name
next_tab_name_fresh prefix s t h =
    let used = used_numbers s.sessions in
    let (k, f, m, l, b) = next_free_least (suc (length used)) 1 used (omega arith) in
    let r = tab_number-tab_name prefix k t h in
    (k, rw (f, next_tab_name), used-not-name s.sessions (tab_name prefix k) k r m, r, b)
