-- ===== src/Toast/Progress.antt =====
-- The ids of toasts, and the timer of the progress bar.
use racemo.Base.{
  ℕ, ◌+◌, ◌<◌, ◌≡◌, refl, not, none, List, [], ◌∷◌, ◌++◌, arith, ◌==◌, Text, keep, length,
  get_elem?-snoc,
}
use racemo.Toast.{
  ToastType, ToastItem, ProgressState, ToastState, hides_progress, dismiss, show_toast,
  show_progress, resolve_progress, hide_progress, fire,
}

-- Every toast has an id that was given out.
abbrev AllGiven : ℕ → List ToastItem → Type 0
AllGiven n [] = Unit
AllGiven n (t ∷ ts) = (t.id < n) × AllGiven n ts

AllGiven-suc : (n : ℕ) (ts : List ToastItem) → AllGiven n ts → AllGiven (n + 1) ts
AllGiven-suc n [] h = tt
AllGiven-suc n (t ∷ ts) (h, hs) = (omega arith, AllGiven-suc n ts hs)

keep_old :
    (n : ℕ) (x : ToastItem) (ts : List ToastItem)
    → AllGiven n ts
    → x.id ≡ n
    → keep (λ (t : ToastItem). not (t.id == n)) (ts ++ x ∷ []) ≡ ts
unfolding keep
keep_old n x [] h e = ground arith
keep_old n x (t ∷ ts) (h, hs) e = ground (arith, keep_old n x ts hs e)

-- A toast that is shown and dismissed by its id leaves the others as they were.
pub dismiss-show_toast :
    (message : Text) (kind : ToastType) (duration : ℕ) (s : ToastState)
    → AllGiven s.next_id s.toasts
    → (dismiss s.next_id (show_toast message kind duration s)).toasts ≡ s.toasts
unfolding dismiss show_toast
dismiss-show_toast message kind duration s h =
    keep_old s.next_id (record { id = s.next_id; message = message; kind = kind }) s.toasts h refl

-- The timer of a progress bar that is done is not stopped by the next bar: a bar that is shown before
-- that timer runs is hidden by it, while still loading.
pub fire-show_progress :
    (state : ProgressState) (old new pty_id : Text) (s : ToastState)
    → (fire (length s.timers) (show_progress new pty_id (resolve_progress state old s))).progress
      ≡ none
unfolding show_progress resolve_progress fire hide_progress
fire-show_progress state old new pty_id s = rw (get_elem?-snoc s.timers hides_progress)
