-- ===== src/RemotePty.antt =====
-- The buffer of the output of remote terminals (src/lib/remotePtyOutputBuffer.ts), which masks secrets
-- by the maskers of src/lib/secretDetector.ts. The maps of the module are a state; what is written to
-- the terminals and how they are resized is kept in lists. Whether a terminal is in the registry, its
-- sizes, the patterns of secrets and the decoder of bytes are arguments.

pub mod Flush
pub mod Held
mod Tests
use racemo.Base.{
  ℕ, ◌&&◌, Bool, Option, none, some, List, [], ◌∷◌, ◌++◌, ◌==◌, if◌then◌else◌, Text, min, Dict,
  dict_get, dict_set, dict_delete, dict_get_or,
}
use racemo.Secret.{Exec, push, flush}

-- A masker: its patterns, and the text that it holds back.
pub record PaneMasker : Type 0 where
  pub patterns : List (Text → Text)
  pub buffer : Text

pub record PtySize : Type 0 where
  pub rows : ℕ
  pub cols : ℕ

-- The size of the terminal that is shown, and the one that its container proposes.
pub record Shown : Type 0 where
  pub proposed : Option PtySize
  pub current : PtySize

-- `D` is the state of a decoder.
pub record RemotePtyState (D : Type 0) : Type 0 where
  pub pane_maskers : Dict PaneMasker
  pub pending : Dict (List (List ℕ))
  pub decoder : D
  pub host_pty_sizes : Dict PtySize
  -- what has left the module
  pub written : List (Text × Text)
  pub resized : List (Text × PtySize)

-- A write, which is left out if the text is empty.
abbrev pub written_to : Text → Text → List (Text × Text) → List (Text × Text)
written_to pane_id [] ws = ws
written_to pane_id (c ∷ t) ws = ws ++ (pane_id, c ∷ t) ∷ []

abbrev pub resize_calls : Text → PtySize → Option Shown → List (Text × PtySize)
resize_calls pane_id host none = []
resize_calls pane_id host (some t) = elim t.proposed [
  | none ↦ []
  | some p ↦
      let rows = min host.rows p.rows in
      let cols = min host.cols p.cols in
      if t.current.cols == cols && t.current.rows == rows
      then []
      else (pane_id, record { rows = rows; cols = cols }) ∷ []
]

module _ {D : Type 0} (decode : D → List ℕ → D × Text) (fresh : D) where
  module _ (exec : Exec) (patterns : List (Text → Text)) (tail_bytes : ℕ) where
    -- The masker of a pane, made when there is none.
    abbrev pub masker_of : Option PaneMasker → PaneMasker
    masker_of none = record { patterns = patterns; buffer = [] }
    masker_of (some m) = m

    -- `applyMask` and the write of what it gives; `enabled` is the store's switch of privacy.
    unfoldable pub apply_mask : Bool → Text → Text → RemotePtyState D → RemotePtyState D
    apply_mask enabled pane_id text s =
        let m = masker_of (dict_get pane_id s.pane_maskers) in
        let (rest, out) = push exec m.patterns tail_bytes m.buffer text in
        if enabled
        then record s {
          pane_maskers = dict_set pane_id (record m { buffer = rest }) s.pane_maskers;
          written = written_to pane_id out s.written;
        }
        else record s {
          pane_maskers = dict_delete pane_id s.pane_maskers;
          written = written_to pane_id text s.written;
        }

    abbrev pub flushed : Text → Option PaneMasker → RemotePtyState D → RemotePtyState D
    flushed pane_id none s = s
    flushed pane_id (some m) s = record s {
      pane_maskers = dict_delete pane_id s.pane_maskers;
      written = written_to pane_id ((flush exec m.patterns m.buffer).1) s.written;
    }

    -- `flushMask` and the write of what it gives.
    unfoldable pub flush_mask : Text → RemotePtyState D → RemotePtyState D
    flush_mask pane_id s = flushed pane_id (dict_get pane_id s.pane_maskers) s

    -- The listener of the event.
    unfoldable pub on_remote_output :
        Bool → Bool → Text → List ℕ → RemotePtyState D → RemotePtyState D
    on_remote_output enabled mounted pane_id bytes s =
        let (d, text) = decode s.decoder bytes in
        let t = record s { decoder = d } in
        if mounted then apply_mask enabled pane_id text t else record t {
          pending = dict_set pane_id (dict_get_or pane_id [] s.pending ++ bytes ∷ []) s.pending;
        }

    -- The loop of the flush, with its own decoder.
    unfoldable pub write_all : Bool → Text → D → List (List ℕ) → RemotePtyState D → RemotePtyState D
    write_all enabled pane_id d [] s = s
    write_all enabled pane_id d (bytes ∷ buf) s =
        write_all enabled pane_id (decode d bytes).0 buf
          (apply_mask enabled pane_id (decode d bytes).1 s)

    abbrev pub flush_pending :
        Bool → Bool → Text → List (List ℕ) → RemotePtyState D → RemotePtyState D
    flush_pending enabled mounted pane_id [] s = s
    flush_pending enabled mounted pane_id (bytes ∷ buf) s =
        let t = flush_mask pane_id (write_all enabled pane_id fresh (bytes ∷ buf) s) in
        if mounted then record t { pending = dict_delete pane_id t.pending } else s

    unfoldable pub flush_remote_pty_output_buffer :
        Bool → Bool → Text → RemotePtyState D → RemotePtyState D
    flush_remote_pty_output_buffer enabled mounted pane_id s =
        flush_pending enabled mounted pane_id (dict_get_or pane_id [] s.pending) s

  unfoldable pub clear_remote_pty_output_buffer : Text → RemotePtyState D → RemotePtyState D
  clear_remote_pty_output_buffer pane_id s = record s {
    pending = dict_delete pane_id s.pending;
    pane_maskers = dict_delete pane_id s.pane_maskers;
  }

  unfoldable pub clear_remote_pty_output_buffers : List Text → RemotePtyState D → RemotePtyState D
  clear_remote_pty_output_buffers [] s = s
  clear_remote_pty_output_buffers (id ∷ ids) s = clear_remote_pty_output_buffers ids (record s {
    pending = dict_delete id s.pending;
    pane_maskers = dict_delete id s.pane_maskers;
  })

  unfoldable pub clear_all_remote_pty_output_buffers : RemotePtyState D → RemotePtyState D
  clear_all_remote_pty_output_buffers s = record s {
    pending = [];
    pane_maskers = [];
    decoder = fresh;
  }

  unfoldable pub get_host_pty_size : Text → RemotePtyState D → Option PtySize
  get_host_pty_size pane_id s = dict_get pane_id s.host_pty_sizes

  unfoldable pub on_remote_resized :
      Text → PtySize → Option Shown → RemotePtyState D → RemotePtyState D
  on_remote_resized pane_id size terminal s = record s {
    host_pty_sizes = dict_set pane_id size s.host_pty_sizes;
    resized = s.resized ++ resize_calls pane_id size terminal;
  }
