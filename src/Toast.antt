-- ===== src/Toast.antt =====
-- The store of toasts and of the progress bar (src/stores/toastStore.ts). The timers that are
-- started are kept in a list, in the order in which they were started; each runs once, at any time
-- after its start.
pub mod Progress
pub mod Tests
use racemo.Base.{
  ℕ, ◌+◌, not, Option, none, some, List, [], ◌∷◌, ◌++◌, ltb, ◌==◌, if◌then◌else◌, Text, keep,
  get_elem?, remove_at,
}

pub data ToastType : Type 0 where
  info success error : ToastType

pub record ToastItem : Type 0 where
  pub id : ℕ
  pub message : Text
  pub kind : ToastType

pub data ProgressState : Type 0 where
  loading succeeded failed : ProgressState

pub record ProgressBar : Type 0 where
  pub message : Text
  pub state : ProgressState
  pub pty_id : Text

pub data Timer : Type 0 where
  removes_toast : ℕ → Timer
  hides_progress : Timer

pub record ToastState : Type 0 where
  pub toasts : List ToastItem
  pub progress : Option ProgressBar
  pub next_id : ℕ
  pub timers : List Timer

unfoldable pub dismiss : ℕ → ToastState → ToastState
dismiss id s = record s { toasts = keep (λ (t : ToastItem). not (t.id == id)) s.toasts }

unfoldable pub show_toast : Text → ToastType → ℕ → ToastState → ToastState
show_toast message kind duration s = record s {
  next_id = s.next_id + 1;
  toasts = s.toasts ++ record { id = s.next_id; message = message; kind = kind } ∷ [];
  timers = if ltb 0 duration then s.timers ++ removes_toast s.next_id ∷ [] else s.timers;
}

unfoldable pub show_progress : Text → Text → ToastState → ToastState
show_progress message pty_id s = record s {
  progress = some (record { message = message; state = loading; pty_id = pty_id });
}

abbrev pub resolved : ProgressState → Text → Option ProgressBar → Option ProgressBar
resolved state message none = none
resolved state message (some p) = some (record p { message = message; state = state })

unfoldable pub resolve_progress : ProgressState → Text → ToastState → ToastState
resolve_progress state message s = record s {
  progress = resolved state message s.progress;
  timers = s.timers ++ hides_progress ∷ [];
}

unfoldable pub hide_progress : ToastState → ToastState
hide_progress s = record s { progress = none }

-- The timer at position i runs, and with it what it was started for.
abbrev pub run_timer : Option Timer → ToastState → ToastState
run_timer none s = s
run_timer (some (removes_toast id)) s = dismiss id s
run_timer (some hides_progress) s = hide_progress s

unfoldable pub fire : ℕ → ToastState → ToastState
fire i s = run_timer (get_elem? s.timers i) (record s { timers = remove_at s.timers i })
