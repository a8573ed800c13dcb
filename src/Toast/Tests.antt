-- ===== src/Toast/Tests.antt =====
-- The timer of the progress bar at a concrete state.
use racemo.Base.{none, []}
use racemo.Toast.{ToastState}

abbrev start : ToastState
start = record { toasts = []; progress = none; next_id = 0; timers = [] }
