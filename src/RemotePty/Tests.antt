-- ===== src/RemotePty/Tests.antt =====
-- A remote terminal whose bytes are the code units, and the properties at it.
use racemo.Base.{ℕ, ◌≡◌, refl, false, none, some, List, [], ◌∷◌, Text, codes, text_eq, dict_delete}
use racemo.Secret.{Exec}
use racemo.RemotePty.{RemotePtyState, on_remote_output, apply_mask, on_remote_resized}
use racemo.RemotePty.Held.{arrive}

abbrev ascii : ℕ → List ℕ → ℕ × Text
ascii d bytes = (d, bytes)

-- An engine that finds no escape sequence.
abbrev plain : Exec
plain raw from = none

abbrev start : RemotePtyState ℕ
start = record {
  pane_maskers = [];
  pending = (codes "p", codes "ab" ∷ codes "cd" ∷ []) ∷ [];
  decoder = 0;
  host_pty_sizes = [];
  written = [];
  resized = [];
}

abbrev holding : RemotePtyState ℕ
holding = record start {
  pane_maskers = (codes "p", record { patterns = []; buffer = codes "xy" }) ∷ [];
}

-- A size of the host that does not fit is capped.
capped :
    (on_remote_resized ascii 0
      (codes "p")
      (record { rows = 50; cols = 200 })
      (some (record {
        proposed = some (record { rows = 60; cols = 80 });
        current = record { rows = 50; cols = 100 };
      }))
      start).resized
    ≡ (codes "p", record { rows = 50; cols = 80 }) ∷ []
unfolding on_remote_resized
capped = refl

-- With privacy turned off meanwhile, the text that was held back is dropped.
held_text_lost :
    let t = arrive ascii 0 plain [] 3 false (codes "p") (codes "zw") holding in
    (t.pane_maskers ≡ []) × (t.written ≡ (codes "p", codes "zw") ∷ [])
unfolding on_remote_output apply_mask dict_delete text_eq
held_text_lost = (refl, refl)
