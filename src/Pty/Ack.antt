-- ===== src/Pty/Ack.antt =====
-- Flow control: every byte received is acked once.
use racemo.Base.{
  ℕ, ◌+◌, ◌≡◌, refl, Bool, true, false, List, [], ◌∷◌, ◌++◌, arith, if◌then◌else◌, length, Text,
  text_eq, text_eq_iff, Dict, dict_get, dict_set, dict_get_or,
}
use racemo.Pty.{
  PtyState, Decoder, Privacy, queue_ack, flush_acks, buffer_chunk, write_chunk, on_pty_output,
  on_written, buffered, flush_buffered, flush_pty_output_buffer, clear_pty_output_buffer,
}

-- What a list of pairs gives to one pane.
unfoldable pub amount : Text → List (Text × ℕ) → ℕ
amount p [] = 0
amount p ((q, n) ∷ r) = (if text_eq q p then n else 0) + amount p r

-- The bytes of a pane that are acked, or will be: sent, queued, or waiting for a callback.
abbrev pub credit : Text → PtyState → ℕ
credit p s = amount p s.acks + amount p s.ack_pending + amount p s.in_flight

amount-append :
    (p : Text) (xs ys : List (Text × ℕ)) → amount p (xs ++ ys) ≡ amount p xs + amount p ys
unfolding amount
amount-append p [] ys = omega arith
amount-append p ((q, n) ∷ xs) ys = ground (arith, amount-append p xs ys)

amount-dict_set :
    (p k : Text) (n : ℕ) (m : Dict ℕ)
    → amount p (dict_set k (dict_get_or k 0 m + n) m) ≡ amount p m + (if text_eq k p then n else 0)
unfolding amount dict_set dict_get_or dict_get
amount-dict_set p k n [] = ground arith
amount-dict_set p k n ((j, v) ∷ m) =
    ground (arith, text_eq_iff j k, text_eq_iff k p, text_eq_iff j p, amount-dict_set p k n m)

credit-queue_ack :
    (p k : Text) (n : ℕ) (s : PtyState)
    → credit p (queue_ack k n s) ≡ credit p s + (if text_eq k p then n else 0)
unfolding queue_ack
credit-queue_ack p k n s = ground (arith, amount-dict_set p k n s.ack_pending)

-- A chunk of output adds its length to the credit of its pane, and to no other, whether its terminal
-- is mounted or not and whatever is dropped from the buffer.
pub credit-on_pty_output :
    (v : Privacy) (mounted : Bool) (text pane p : Text) (chunk : List ℕ) (s : PtyState)
    → credit p (on_pty_output v mounted text pane chunk s)
      ≡ credit p s + (if text_eq pane p then length chunk else 0)
unfolding on_pty_output write_chunk buffer_chunk amount
credit-on_pty_output v mounted [] pane p chunk s =
    ground (arith, credit-queue_ack p pane (length chunk) s)
credit-on_pty_output v mounted (c ∷ text) pane p chunk s = ground (
  arith,
  credit-queue_ack p pane (length chunk) s,
  amount-append p s.in_flight ((pane, length chunk) ∷ []),
)

credit-on_written : (p : Text) (s : PtyState) → credit p (on_written s) ≡ credit p s
unfolding on_written amount
credit-on_written p s = go s.in_flight
  where
    go :
        (w : List (Text × ℕ))
        → credit p (on_written (record s { in_flight = w })) ≡ credit p (record s { in_flight = w })
    go [] = refl
    go ((pane, bytes) ∷ rest) =
        ground (arith, credit-queue_ack p pane bytes (record s { in_flight = rest }))

credit-flush_acks : (p : Text) (s : PtyState) → credit p (flush_acks s) ≡ credit p s
unfolding flush_acks amount
credit-flush_acks p s = ground (arith, amount-append p s.acks s.ack_pending)

-- The calls of the module.
pub data Call : Type 0 where
  output : (v : Privacy) (mounted : Bool) (text pane : Text) (chunk : List ℕ) → Call
  wrote : Call
  ack_timer : Call
  flush : (v : Privacy) (mounted : Bool) (pane : Text) → Call
  clear : Text → Call

unfoldable pub run : {D : Type 0} → Decoder D → List Call → PtyState → PtyState
run dec [] s = s
run dec (output v m t pane chunk ∷ cs) s = run dec cs (on_pty_output v m t pane chunk s)
run dec (wrote ∷ cs) s = run dec cs (on_written s)
run dec (ack_timer ∷ cs) s = run dec cs (flush_acks s)
run dec (flush v m pane ∷ cs) s = run dec cs (flush_pty_output_buffer dec v m pane s)
run dec (clear pane ∷ cs) s = run dec cs (clear_pty_output_buffer pane s)

-- The bytes that the calls bring for a pane.
unfoldable pub received : Text → List Call → ℕ
received p [] = 0
received p (output v m t pane chunk ∷ cs) =
    (if text_eq pane p then length chunk else 0) + received p cs
received p (wrote ∷ cs) = received p cs
received p (ack_timer ∷ cs) = received p cs
received p (flush v m pane ∷ cs) = received p cs
received p (clear pane ∷ cs) = received p cs

module _ {D : Type 0} (dec : Decoder D) where
  credit-flush_buffered :
      (p pane : Text) (v : Privacy) (buf : List (List ℕ)) (m : Bool) (s : PtyState)
      → credit p (flush_buffered dec v buf m pane s) ≡ credit p s
  credit-flush_buffered p pane v [] m s = refl
  credit-flush_buffered p pane v (c ∷ buf) true s = refl
  credit-flush_buffered p pane v (c ∷ buf) false s = refl

  credit-flush :
      (p pane : Text) (v : Privacy) (m : Bool) (s : PtyState)
      → credit p (flush_pty_output_buffer dec v m pane s) ≡ credit p s
  unfolding flush_pty_output_buffer
  credit-flush p pane v m s = credit-flush_buffered p pane v (buffered pane s) m s

  -- Over any sequence of calls the credit of a pane grows by exactly the bytes received for it: each
  -- chunk is acked once, however often the buffer is flushed, cleared or cut.
  pub credit-run :
      (p : Text) (cs : List Call) (s : PtyState)
      → credit p (run dec cs s) ≡ credit p s + received p cs
  unfolding run received clear_pty_output_buffer
  credit-run p [] s = omega arith
  credit-run p (output v m t pane chunk ∷ cs) s = omega (
    arith,
    credit-run p cs (on_pty_output v m t pane chunk s),
    credit-on_pty_output v m t pane p chunk s,
  )
  credit-run p (wrote ∷ cs) s = omega (arith, credit-run p cs (on_written s), credit-on_written p s)
  credit-run p (ack_timer ∷ cs) s =
      omega (arith, credit-run p cs (flush_acks s), credit-flush_acks p s)
  credit-run p (flush v m pane ∷ cs) s =
      omega
        (arith, credit-run p cs (flush_pty_output_buffer dec v m pane s), credit-flush p pane v m s)
  credit-run p (clear pane ∷ cs) s = omega (arith, credit-run p cs (clear_pty_output_buffer pane s))
