-- ===== src/RemotePty/Flush.antt =====
-- The flush of the output of a remote terminal (src/lib/remotePtyOutputBuffer.ts).
use racemo.Base.{
  ℕ, ◌≡◌, refl, sym, inl, inr, Bool, true, false, none, List, [], ◌∷◌, ◌++◌, if◌then◌else◌,
  Bool-cases, Text, text_eq, text_eq_refl, concat, dict_get, dict_set,
}
use mathlib.Core.List.{append-nil, append_assoc}
use racemo.Secret.{Exec, push}
use racemo.Secret.Stream.{mask_stream}
use racemo.RemotePty.{
  PaneMasker, RemotePtyState, written_to, masker_of, apply_mask, flush_mask, write_all,
}

-- What was written to a pane.
abbrev pub output_of : Text → List (Text × Text) → Text
output_of pane_id [] = []
output_of pane_id ((p, t) ∷ ws) =
    let rest = output_of pane_id ws in if text_eq p pane_id then t ++ rest else rest

output_of-snoc :
    (pane_id t : Text) (ws : List (Text × Text))
    → output_of pane_id (ws ++ (pane_id, t) ∷ []) ≡ output_of pane_id ws ++ t
output_of-snoc pane_id t [] = rw (text_eq_refl pane_id) (append-nil t)
output_of-snoc pane_id t ((p, u) ∷ ws) = elim (Bool-cases (text_eq p pane_id)) [
  | inl e ↦ rw e (rw (output_of-snoc pane_id t ws) (sym (append_assoc u _ t)))
  | inr e ↦ rw e (output_of-snoc pane_id t ws)
]

pub output_of-written_to :
    (pane_id t : Text) (ws : List (Text × Text))
    → output_of pane_id (written_to pane_id t ws) ≡ output_of pane_id ws ++ t
output_of-written_to pane_id [] ws = sym (append-nil _)
output_of-written_to pane_id (c ∷ t) ws = output_of-snoc pane_id (c ∷ t) ws

module _ {D : Type 0} (decode : D → List ℕ → D × Text) (fresh : D) (exec : Exec)
    (patterns : List (Text → Text)) (tail_bytes : ℕ) where
  -- The texts of the chunks, decoded in a row.
  abbrev pub texts : D → List (List ℕ) → List Text
  texts d [] = []
  texts d (bytes ∷ buf) = (decode d bytes).1 ∷ texts (decode d bytes).0 buf

  abbrev State : Type 0
  State = RemotePtyState D

  -- The state after a text is masked by a masker.
  abbrev masked : Text → Text → PaneMasker → State → State
  masked pane_id text m s =
      let (rest, out) = push exec m.patterns tail_bytes m.buffer text in
      record s {
        pane_maskers = dict_set pane_id (record m { buffer = rest }) s.pane_maskers;
        written = written_to pane_id out s.written;
      }

  pub apply_mask-on :
      (pane_id text : Text) (s : State)
      → apply_mask decode fresh exec patterns tail_bytes true pane_id text s
        ≡ masked pane_id text
            (masker_of decode fresh exec patterns tail_bytes (dict_get pane_id s.pane_maskers))
            s
  unfolding apply_mask
  apply_mask-on pane_id text s = refl

  abbrev on : Text → D → List (List ℕ) → State → State
  on pane_id d buf s =
      flush_mask decode fresh exec patterns tail_bytes pane_id
        (write_all decode fresh exec patterns tail_bytes true pane_id d buf s)

  abbrev Streamed : Text → D → List (List ℕ) → PaneMasker → State → State → Type 0
  Streamed pane_id d buf m s t =
      (output_of pane_id t.written
        ≡ output_of pane_id s.written
          ++ mask_stream exec m.patterns tail_bytes m.buffer (texts d buf))
      × (dict_get pane_id t.pane_maskers ≡ none)

  abbrev off : Text → D → List (List ℕ) → State → State
  off pane_id d buf s =
      flush_mask decode fresh exec patterns tail_bytes pane_id
        (write_all decode fresh exec patterns tail_bytes false pane_id d buf s)

  -- What the flush of a pane writes, with privacy on or off.
  abbrev pub shown : Bool → List Text → Text
  shown true ts = mask_stream exec patterns tail_bytes [] ts
  shown false ts = concat ts
