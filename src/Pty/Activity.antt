-- ===== src/Pty/Activity.antt =====
-- The activity mark of a pane (`suppressActivity`, `trackActivity` and the timers of
-- `clearPtyOutputBuffer`). A timer that fires is an event; a map of timers says for each key whether
-- its timer still runs, since `suppressActivity` stops a grace timer and leaves its key.
use racemo.Base.{
  ℕ, ◌+◌, ◌≡◌, refl, Bool, true, false, not, ◌&&◌, ◌||◌, Option, none, some, arith, leb, ◌==◌,
  if◌then◌else◌, Text, text_eq, text_eq_refl, Dict, dict_get, dict_set, dict_delete, dict_get_or,
  dict_get-dict_delete, dict_get_or-dict_set, dict_get_or-dict_delete,
}

abbrev pub activity_threshold : ℕ
activity_threshold = 2048

pub record ActivityState : Type 0 where
  pub timers : Dict Bool
  pub bytes : Dict ℕ
  pub suppressed : Dict Bool
  pub grace : Dict Bool
  -- `paneActive` of the session store
  pub pane_active : Dict Bool

abbrev pub is_set : Text → Dict Bool → Bool
is_set p m = elim (dict_get p m) [ none ↦ false | some _ ↦ true ]

abbrev pub stop_timer : Text → Dict Bool → Dict Bool
stop_timer p m = if is_set p m then dict_set p false m else m

unfoldable pub suppress_activity : Text → ActivityState → ActivityState
suppress_activity p s = record s {
  suppressed = dict_set p true s.suppressed;
  grace = stop_timer p s.grace;
}

-- The listener of `pty-resized`, with the size of the pane's terminal, if it has one; calls of
-- `resize` are not kept.
unfoldable pub on_pty_resized : Option (ℕ × ℕ) → Text → ℕ → ℕ → ActivityState → ActivityState
unfolding suppress_activity
on_pty_resized none p rows cols s = s
on_pty_resized (some (cur_rows, cur_cols)) p rows cols s =
    if cur_cols == cols && cur_rows == rows then s else suppress_activity p s

unfoldable pub suppress_ends : Text → ActivityState → ActivityState
suppress_ends p s = record s {
  suppressed = dict_delete p s.suppressed;
  bytes = dict_delete p s.bytes;
  grace = dict_set p true s.grace;
}

unfoldable pub grace_ends : Text → ActivityState → ActivityState
grace_ends p s = record s { grace = dict_delete p s.grace; bytes = dict_delete p s.bytes }

unfoldable pub track_activity : Text → ℕ → ActivityState → ActivityState
track_activity p data_len s =
    let accumulated = dict_get_or p 0 s.bytes + data_len in
    if is_set p s.suppressed || is_set p s.grace then s else record s {
      bytes = dict_set p accumulated s.bytes;
      pane_active =
          if leb activity_threshold accumulated && not (dict_get_or p false s.pane_active)
          then dict_set p true s.pane_active
          else s.pane_active;
      timers = dict_set p true s.timers;
    }

unfoldable pub cooldown_ends : Text → ActivityState → ActivityState
cooldown_ends p s = record s {
  pane_active = dict_set p false s.pane_active;
  timers = dict_delete p s.timers;
  bytes = dict_delete p s.bytes;
}

unfoldable pub clear_timers : Text → ActivityState → ActivityState
clear_timers p s = record s { timers = dict_delete p s.timers; grace = dict_delete p s.grace }

abbrev pub is_active : Text → ActivityState → Bool
is_active p s = dict_get_or p false s.pane_active

-- Whether the timer of a pane runs: a timer that was stopped may have left its key.
abbrev pub runs : Text → Dict Bool → Bool
runs p m = dict_get_or p false m

-- A pane that is marked active has a cooldown timer that runs and will take the mark away.
abbrev pub WillIdle : ActivityState → Type 0
WillIdle s = (p : Text) → is_active p s ≡ true → runs p s.timers ≡ true

pub data Event : Type 0 where
  suppresses : Text → Event
  resizes : Option (ℕ × ℕ) → Text → ℕ → ℕ → Event
  suppress_timer : Text → Event
  grace_timer : Text → Event
  receives : Text → ℕ → Event
  cooldown_timer : Text → Event

unfoldable pub step : Event → ActivityState → ActivityState
step (suppresses p) s = suppress_activity p s
step (resizes size p rows cols) s = on_pty_resized size p rows cols s
step (suppress_timer p) s = suppress_ends p s
step (grace_timer p) s = grace_ends p s
step (receives p n) s = track_activity p n s
step (cooldown_timer p) s = cooldown_ends p s

is_set-dict_delete :
    (k p : Text) (m : Dict Bool)
    → is_set p (dict_delete k m) ≡ (if text_eq k p then false else is_set p m)
is_set-dict_delete k p m = ground (arith, dict_get-dict_delete k p m)

-- Every event but the clearing of a closed pane keeps it so that each pane that is marked active has
-- a cooldown timer that runs. Timers may fire in any order.
pub step-WillIdle : (e : Event) (s : ActivityState) → WillIdle s → WillIdle (step e s)
unfolding step on_pty_resized suppress_activity suppress_ends grace_ends track_activity
    cooldown_ends
step-WillIdle (suppresses q) s h p a = h p a
step-WillIdle (resizes none q rows cols) s h p a = h p a
step-WillIdle (resizes (some (r, c)) q rows cols) s h p a = ground (arith, h p)
step-WillIdle (suppress_timer q) s h p a = h p a
step-WillIdle (grace_timer q) s h p a = h p a
step-WillIdle (receives q n) s h p a = ground (
  arith,
  h p,
  dict_get_or-dict_set q p false true s.timers,
  dict_get_or-dict_set q p false true s.pane_active,
)
step-WillIdle (cooldown_timer q) s h p a = ground (
  arith,
  h p,
  dict_get_or-dict_delete q p false s.timers,
  dict_get_or-dict_set q p false false s.pane_active,
)

-- While a pane is suppressed or in its grace period its output leaves no trace; otherwise the pane
-- is active after the output exactly if it was before or its bytes have reached the threshold.
pub is_active-track_activity :
    (p : Text) (n : ℕ) (s : ActivityState)
    → is_active p (track_activity p n s) ≡ (
        if is_set p s.suppressed || is_set p s.grace
        then is_active p s
        else is_active p s || leb activity_threshold (dict_get_or p 0 s.bytes + n))
unfolding track_activity
is_active-track_activity p n s =
    ground (arith, dict_get_or-dict_set p p false true s.pane_active, text_eq_refl p)

-- A pane that is cleared while active stays marked active, with no timer left to change it, and
-- keeps its suppression.
pub is_active-clear_timers :
    (p : Text) (s : ActivityState)
    → (is_active p (clear_timers p s) ≡ is_active p s)
      × (is_set p (clear_timers p s).timers ≡ false)
      × ((clear_timers p s).suppressed ≡ s.suppressed)
unfolding clear_timers
is_active-clear_timers p s =
    (refl, ground (arith, is_set-dict_delete p p s.timers, text_eq_refl p), refl)
