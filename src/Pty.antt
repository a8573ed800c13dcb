-- ===== src/Pty.antt =====
-- The buffer of terminal output and its flow control (src/lib/ptyOutputBuffer.ts), and the writes to
-- a terminal (src/lib/terminalWrite.ts).
-- The maps of the module are a state that is passed along. Calls out of the module are kept as
-- lists: the texts written to terminals, the writes whose callback is still due, the acks sent.
-- Whether a terminal is mounted, the decoder of the flush and what the decoder of the listener gives
-- are arguments.
pub mod Activity
pub mod Ack
pub mod Bounds
pub mod Stream
pub mod Tests
use racemo.Base.{
  ℕ, ◌+◌, ◌-◌, ◌*◌, Bool, true, false, not, ◌&&◌, List, [], ◌∷◌, ◌++◌, ltb, leb, if◌then◌else◌,
  length, Text, text_eq, Dict, dict_set, dict_delete, dict_get_or, keep, text_mem,
}
use racemo.Secret.{Exec, mask_secrets_with_patterns}

-- 4 MiB
abbrev pub pending_max_bytes : ℕ
pending_max_bytes = 4 * 1024 * 1024

pub record PtyState : Type 0 where
  pub pending : Dict (List (List ℕ))
  pub pending_bytes : Dict ℕ
  pub pending_dropped : List Text
  pub ack_pending : Dict ℕ
  pub ack_flush_scheduled : Bool
  -- what has left the module
  pub written : List (Text × Text)
  pub in_flight : List (Text × ℕ)
  pub acks : List (Text × ℕ)

-- A `TextDecoder` that is called with `stream: true`, and the state of a new one.
pub record Decoder (D : Type 0) : Type 0 where
  pub decode : D → List ℕ → D × Text
  pub fresh : D

-- The store's switch of privacy, and the engine and the patterns that `maskSecrets` uses.
pub record Privacy : Type 0 where
  pub enabled : Bool
  pub exec : Exec
  pub patterns : List (Text → Text)

-- What `writeToTerminal` gives to the terminal.
unfoldable pub write_to_terminal : Privacy → Text → Text
write_to_terminal v text =
    if v.enabled then mask_secrets_with_patterns v.exec v.patterns text else text

unfoldable pub queue_ack : Text → ℕ → PtyState → PtyState
queue_ack pane_id bytes s = if leb bytes 0 then s else record s {
  ack_pending = dict_set pane_id (dict_get_or pane_id 0 s.ack_pending + bytes) s.ack_pending;
  ack_flush_scheduled = true;
}

-- The time-out that `queueAck` starts.
unfoldable pub flush_acks : PtyState → PtyState
flush_acks s = record s {
  ack_flush_scheduled = false;
  acks = s.acks ++ s.ack_pending;
  ack_pending = [];
}

pub record Dropped : Type 0 where
  pub buf : List (List ℕ)
  pub total : ℕ
  pub any : Bool

-- `while (total > PENDING_MAX_BYTES && buf.length > 0)`, for any limit.
unfoldable pub drop_oldest : ℕ → ℕ → List (List ℕ) → Dropped
drop_oldest limit total [] = record { buf = []; total = total; any = false }
drop_oldest limit total (c ∷ buf) =
    let r = drop_oldest limit (total - length c) buf in
    if ltb limit total
    then record r { any = true }
    else record { buf = c ∷ buf; total = total; any = false }

abbrev pub buffered : Text → PtyState → List (List ℕ)
buffered pane_id s = dict_get_or pane_id [] s.pending

abbrev pub buffered_bytes : Text → PtyState → ℕ
buffered_bytes pane_id s = dict_get_or pane_id 0 s.pending_bytes

-- The branch of the listener without a terminal.
unfoldable pub buffer_chunk : Text → List ℕ → PtyState → PtyState
unfolding queue_ack drop_oldest
buffer_chunk pane_id chunk s =
    let r =
      drop_oldest pending_max_bytes (buffered_bytes pane_id s + length chunk)
        (buffered pane_id s ++ chunk ∷ []) in
    record (queue_ack pane_id (length chunk) s) {
      pending = dict_set pane_id r.buf s.pending;
      pending_bytes = dict_set pane_id r.total s.pending_bytes;
      pending_dropped =
          if r.any && not (text_mem pane_id s.pending_dropped)
          then s.pending_dropped ++ pane_id ∷ []
          else s.pending_dropped;
    }

-- The branch with a terminal: a chunk that decodes to nothing yet is acked at once.
unfoldable pub write_chunk : Privacy → Text → Text → List ℕ → PtyState → PtyState
unfolding queue_ack
write_chunk v [] pane_id chunk s = queue_ack pane_id (length chunk) s
write_chunk v (c ∷ text) pane_id chunk s = record s {
  written = s.written ++ (pane_id, write_to_terminal v (c ∷ text)) ∷ [];
  in_flight = s.in_flight ++ (pane_id, length chunk) ∷ [];
}

-- `text` is what the decoder of the listener gives for the chunk.
unfoldable pub on_pty_output : Privacy → Bool → Text → Text → List ℕ → PtyState → PtyState
on_pty_output v mounted text pane_id chunk s =
    if mounted then write_chunk v text pane_id chunk s else buffer_chunk pane_id chunk s

-- The terminal is done with its oldest write and calls back.
unfoldable pub on_written : PtyState → PtyState
unfolding queue_ack
on_written s = elim s.in_flight [
  | [] ↦ s
  | (pane_id, bytes) ∷ rest ↦ queue_ack pane_id bytes (record s { in_flight = rest })
]

-- The loop of `flushPtyOutputBuffer`: every chunk is decoded and written, without a callback.
unfoldable pub writes :
    {D : Type 0} → Decoder D → Privacy → D → Text → List (List ℕ) → List (Text × Text)
writes dec v d pane_id [] = []
writes dec v d pane_id (c ∷ cs) =
    let (d', text) = dec.decode d c in
    (pane_id, write_to_terminal v text) ∷ writes dec v d' pane_id cs

abbrev pub forget : Text → PtyState → PtyState
forget pane_id s = record s {
  pending = dict_delete pane_id s.pending;
  pending_bytes = dict_delete pane_id s.pending_bytes;
  pending_dropped = keep (λ p. not (text_eq p pane_id)) s.pending_dropped;
}

abbrev pub flush_buffered :
    {D : Type 0} → Decoder D → Privacy → List (List ℕ) → Bool → Text → PtyState → PtyState
flush_buffered dec v [] mounted pane_id s = s
flush_buffered dec v (c ∷ buf) mounted pane_id s =
    if mounted
    then record (forget pane_id s) {
      written = s.written ++ writes dec v dec.fresh pane_id (c ∷ buf);
    }
    else s

unfoldable pub flush_pty_output_buffer :
    {D : Type 0} → Decoder D → Privacy → Bool → Text → PtyState → PtyState
flush_pty_output_buffer dec v mounted pane_id s =
    flush_buffered dec v (buffered pane_id s) mounted pane_id s

unfoldable pub has_pending_output : Text → PtyState → Bool
has_pending_output pane_id s = elim (buffered pane_id s) [ [] ↦ false | _ ∷ _ ↦ true ]

-- `clearPtyOutputBuffer`, less the timers, which `Activity` has.
unfoldable pub clear_pty_output_buffer : Text → PtyState → PtyState
clear_pty_output_buffer pane_id s = forget pane_id s
