-- ===== src/Pty/Bounds.antt =====
-- The limit on what is buffered for a pane without a terminal.
use racemo.Base.{
  ℕ, suc, ◌+◌, ◌-◌, ◌≤◌, ◌≡◌, refl, inl, inr, Bool, true, false, List, [], ◌∷◌, ◌++◌, arith, ltb,
  leb, Bool-cases, length, drop, Text, text_eq, dict_get_or-dict_set, dict_get_or-dict_delete,
}
use racemo.Pty.{
  PtyState, Decoder, Privacy, pending_max_bytes, drop_oldest, buffer_chunk, queue_ack,
  on_pty_output, write_chunk, on_written, flush_acks, buffered, buffered_bytes, flush_buffered,
  flush_pty_output_buffer, clear_pty_output_buffer,
}
use racemo.Pty.Ack.{Call, output, wrote, ack_timer, flush, clear, run}

-- The bytes of a list of chunks.
unfoldable pub size : List (List ℕ) → ℕ
size [] = 0
size (c ∷ cs) = length c + size cs

pub size-append : (xs ys : List (List ℕ)) → size (xs ++ ys) ≡ size xs + size ys
unfolding size
size-append [] ys = omega arith
size-append (x ∷ xs) ys = omega (arith, size-append xs ys)

-- The loop ends with an exact total below the limit, having cut chunks from the front only.
pub drop_oldest_exact :
    (limit : ℕ) (buf : List (List ℕ))
    → let r = drop_oldest limit (size buf) buf in
      (r.total ≡ size r.buf) × (r.total ≤ limit) × ((k : ℕ) × (r.buf ≡ drop k buf))
unfolding drop_oldest size
drop_oldest_exact limit [] = (refl, omega arith, (0, refl))
drop_oldest_exact limit (c ∷ buf) = elim (Bool-cases (ltb limit (length c + size buf))) [
  | inl e ↦
      let q : length c + size buf - length c ≡ size buf = omega arith in
      let (t, b, (k, d)) = drop_oldest_exact limit buf in rw (e, q) (t, b, (suc k, d))
  | inr e ↦ rw e (refl, ground arith, (0, refl))
]

-- For every pane the recorded number of bytes is that of its chunks, and within the limit.
abbrev pub IsBounded : PtyState → Type 0
IsBounded s =
    (p : Text)
    → (buffered_bytes p s ≡ size (buffered p s)) × (buffered_bytes p s ≤ pending_max_bytes)

pub size_one : (c : List ℕ) → size (c ∷ []) ≡ length c
unfolding size
size_one c = omega arith

queue_ack-IsBounded : (k : Text) (n : ℕ) (s : PtyState) → IsBounded s → IsBounded (queue_ack k n s)
unfolding queue_ack
queue_ack-IsBounded k n s h p = elim (Bool-cases (leb n 0)) [
  | inl e ↦ rw (e, queue_ack) (h p)
  | inr e ↦ rw (e, queue_ack) (h p)
]

pub buffer_chunk-IsBounded :
    (pane : Text) (chunk : List ℕ) (s : PtyState)
    → IsBounded s
    → IsBounded (buffer_chunk pane chunk s)
unfolding buffer_chunk
buffer_chunk-IsBounded pane chunk s h p =
    let b = buffered pane s ++ chunk ∷ [] in
    let e : buffered_bytes pane s + length chunk ≡ size b =
      omega (arith, (h pane).0, size-append (buffered pane s) (chunk ∷ []), size_one chunk) in
    rw (dict_get_or-dict_set, dict_get_or-dict_set)
      (elim (Bool-cases (text_eq pane p)) [
        | inl q ↦ rw (q, e) (let (t, l, _) = drop_oldest_exact pending_max_bytes b in (t, l))
        | inr q ↦ rw q (h p)
      ])

forget-IsBounded :
    (pane : Text) (s : PtyState) → IsBounded s → IsBounded (clear_pty_output_buffer pane s)
unfolding clear_pty_output_buffer
forget-IsBounded pane s h p =
    rw (dict_get_or-dict_delete, dict_get_or-dict_delete)
      (elim (Bool-cases (text_eq pane p)) [
        | inl q ↦ rw q (unfold size in refl, omega arith)
        | inr q ↦ rw q (h p)
      ])

on_pty_output-IsBounded :
    (v : Privacy) (m : Bool) (text pane : Text) (chunk : List ℕ) (s : PtyState)
    → IsBounded s
    → IsBounded (on_pty_output v m text pane chunk s)
unfolding on_pty_output write_chunk
on_pty_output-IsBounded v false text pane chunk s h = buffer_chunk-IsBounded pane chunk s h
on_pty_output-IsBounded v true [] pane chunk s h = queue_ack-IsBounded pane (length chunk) s h
on_pty_output-IsBounded v true (c ∷ text) pane chunk s h = h

on_written-IsBounded :
    (w : List (Text × ℕ)) (s : PtyState)
    → IsBounded s
    → IsBounded (on_written (record s { in_flight = w }))
unfolding on_written
on_written-IsBounded [] s h = h
on_written-IsBounded ((pane, n) ∷ w) s h = queue_ack-IsBounded pane n (record s { in_flight = w }) h

module _ {D : Type 0} (dec : Decoder D) where
  flush-IsBounded :
      (v : Privacy) (buf : List (List ℕ)) (m : Bool) (pane : Text) (s : PtyState)
      → IsBounded s
      → IsBounded (flush_buffered dec v buf m pane s)
  flush-IsBounded v [] m pane s h = h
  flush-IsBounded v (c ∷ buf) false pane s h = h
  flush-IsBounded v (c ∷ buf) true pane s h =
      unfold clear_pty_output_buffer in forget-IsBounded pane s h

  -- Over any sequence of calls the bytes recorded for a pane are those of its buffered chunks, and
  -- never more than 4 MiB.
  pub run-IsBounded : (cs : List Call) (s : PtyState) → IsBounded s → IsBounded (run dec cs s)
  unfolding run flush_pty_output_buffer flush_acks
  run-IsBounded [] s h = h
  run-IsBounded (output v m t pane chunk ∷ cs) s h =
      run-IsBounded cs _ (on_pty_output-IsBounded v m t pane chunk s h)
  run-IsBounded (wrote ∷ cs) s h = run-IsBounded cs _ (on_written-IsBounded s.in_flight s h)
  run-IsBounded (ack_timer ∷ cs) s h = run-IsBounded cs _ h
  run-IsBounded (flush v m pane ∷ cs) s h =
      run-IsBounded cs _ (flush-IsBounded v (buffered pane s) m pane s h)
  run-IsBounded (clear pane ∷ cs) s h = run-IsBounded cs _ (forget-IsBounded pane s h)
