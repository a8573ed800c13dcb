-- ===== src/RemotePty/Held.antt =====
-- What the maskers of remote terminals hold back (src/lib/remotePtyOutputBuffer.ts).
use racemo.Base.{ℕ, Bool, true, List, Text}
use racemo.Secret.{Exec}
use racemo.RemotePty.{RemotePtyState, on_remote_output}

module _ {D : Type 0} (decode : D → List ℕ → D × Text) (fresh : D) (exec : Exec)
    (patterns : List (Text → Text)) (tail_bytes : ℕ) where
  abbrev pub arrive : Bool → Text → List ℕ → RemotePtyState D → RemotePtyState D
  arrive enabled pane_id bytes s =
      on_remote_output decode fresh exec patterns tail_bytes enabled true pane_id bytes s
