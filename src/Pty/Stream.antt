-- ===== src/Pty/Stream.antt =====
-- What a terminal shows of the output that came before it was mounted.
use mathlib.Core.List.{append-nil, append_assoc}
use racemo.Base.{
  ℕ, ◌+◌, ◌≤◌, ◌≡◌, refl, sym, ap, ◌∙◌, true, false, List, [], ◌∷◌, ◌++◌, arith, ltb, if◌then◌else◌,
  length, map, Text, text_eq, text_eq_refl, concat, dict_get_or-dict_set, dict_get_or-dict_delete,
}
use racemo.Pty.{
  PtyState, Decoder, Privacy, write_to_terminal, pending_max_bytes, drop_oldest, queue_ack,
  buffer_chunk, on_pty_output, buffered, buffered_bytes, writes, flush_buffered,
  flush_pty_output_buffer,
}
use racemo.Pty.Bounds.{size, size-append, size_one, IsBounded, buffer_chunk-IsBounded}

-- What is relied on of a `TextDecoder` with `stream: true`: it may be given the bytes in pieces.
pub record IsStream {D : Type 0} (dec : Decoder D) : Type 0 where
  pub nothing : (d : D) → dec.decode d [] ≡ (d, [])
  pub pieces :
      (d : D) (xs ys : List ℕ)
      → dec.decode d (xs ++ ys) ≡ (
          let (d', text) = dec.decode d xs in
          let (d'', more) = dec.decode d' ys in (d'', text ++ more))

-- The texts that the chunks give, one after the other.
unfoldable pub texts : {D : Type 0} → Decoder D → D → List (List ℕ) → List Text
texts dec d [] = []
texts dec d (c ∷ cs) = let (d', text) = dec.decode d c in text ∷ texts dec d' cs

concat-texts :
    {D : Type 0} (dec : Decoder D)
    → IsStream dec
    → (d : D) (cs : List (List ℕ)) → concat (texts dec d cs) ≡ (dec.decode d (concat cs)).1
unfolding texts concat
concat-texts dec h d [] = rw h.nothing refl
concat-texts dec h d (c ∷ cs) =
    let (d', text) = dec.decode d c in
    ap (text ++◌) (concat-texts dec h d' cs) ∙ sym (ap (λ r. r.1) (h.pieces d c (concat cs)))

-- The text that has gone to the terminal of a pane.
unfoldable pub written_to : Text → List (Text × Text) → Text
written_to p [] = []
written_to p ((q, c) ∷ ws) = (if text_eq q p then c else []) ++ written_to p ws

written_to-append :
    (p : Text) (xs ys : List (Text × Text))
    → written_to p (xs ++ ys) ≡ written_to p xs ++ written_to p ys
unfolding written_to
written_to-append p [] ys = refl
written_to-append p ((q, c) ∷ xs) ys =
    rw (written_to-append p xs ys) (sym (append_assoc (if text_eq q p then c else []) _ _))

written_to-writes :
    {D : Type 0} (dec : Decoder D) (v : Privacy) (d : D) (p : Text) (cs : List (List ℕ))
    → written_to p (writes dec v d p cs) ≡ concat (map (write_to_terminal v) (texts dec d cs))
unfolding written_to concat writes texts
written_to-writes dec v d p [] = refl
written_to-writes dec v d p (c ∷ cs) =
    rw (text_eq_refl p, written_to-writes dec v (dec.decode d c).0 p cs)

-- The chunks of one pane, received without a terminal; the listener's decoder gives a text for each,
-- which is not used then.
unfoldable pub buffer_all : Privacy → Text → List (Text × List ℕ) → PtyState → PtyState
buffer_all v p [] s = s
buffer_all v p ((t, c) ∷ cs) s = buffer_all v p cs (on_pty_output v false t p c s)

abbrev pub chunks : List (Text × List ℕ) → List (List ℕ)
chunks [] = []
chunks ((t, c) ∷ cs) = c ∷ chunks cs

drop_oldest_none :
    (limit total : ℕ) (buf : List (List ℕ))
    → total ≤ limit
    → (drop_oldest limit total buf).buf ≡ buf
unfolding drop_oldest
drop_oldest_none limit total [] h = refl
drop_oldest_none limit total (c ∷ buf) h = let e : ltb limit total ≡ false = ground arith in rw e

buffered-buffer_chunk :
    (p : Text) (c : List ℕ) (s : PtyState)
    → buffered_bytes p s + length c ≤ pending_max_bytes
    → buffered p (buffer_chunk p c s) ≡ buffered p s ++ c ∷ []
unfolding buffer_chunk
buffered-buffer_chunk p c s h =
    dict_get_or-dict_set p p [] _ s.pending
    ∙ rw text_eq_refl (drop_oldest_none pending_max_bytes _ _ h)

written-queue_ack : (k : Text) (n : ℕ) (s : PtyState) → (queue_ack k n s).written ≡ s.written
unfolding queue_ack
written-queue_ack k n s = ground arith

written-buffer_all :
    (v : Privacy) (p : Text) (cs : List (Text × List ℕ)) (s : PtyState)
    → (buffer_all v p cs s).written ≡ s.written
unfolding buffer_all on_pty_output buffer_chunk
written-buffer_all v p [] s = refl
written-buffer_all v p ((t, c) ∷ cs) s =
    written-buffer_all v p cs (buffer_chunk p c s) ∙ written-queue_ack p (length c) s

buffered-buffer_all :
    (v : Privacy) (p : Text) (cs : List (Text × List ℕ)) (s : PtyState)
    → IsBounded s
    → size (buffered p s) + size (chunks cs) ≤ pending_max_bytes
    → buffered p (buffer_all v p cs s) ≡ buffered p s ++ chunks cs
unfolding buffer_all on_pty_output size
buffered-buffer_all v p [] s b h = sym (append-nil _)
buffered-buffer_all v p ((t, c) ∷ cs) s b h =
    let e = buffered-buffer_chunk p c s (omega (arith, (b p).0)) in
    let n : size (buffered p (buffer_chunk p c s)) ≡ size (buffered p s) + length c =
      ap size e ∙ omega (arith, size-append (buffered p s) (c ∷ []), size_one c) in
    buffered-buffer_all v p cs (buffer_chunk p c s) (buffer_chunk-IsBounded p c s b) (omega arith)
    ∙ rw e (append_assoc (buffered p s) (c ∷ []) (chunks cs))

module _ {D : Type 0} (dec : Decoder D) (v : Privacy) where
  abbrev pub shown : List (List ℕ) → Text
  shown cs = concat (map (write_to_terminal v) (texts dec dec.fresh cs))

  flush_buffered_lem :
      (p : Text) (buf : List (List ℕ)) (s : PtyState)
      → buffered p s ≡ buf
      → let s' = flush_buffered dec v buf true p s in
        (written_to p s'.written ≡ written_to p s.written ++ shown buf) × (buffered p s' ≡ [])
  flush_buffered_lem p [] s e = (unfold concat texts in sym (append-nil _), e)
  flush_buffered_lem p (c ∷ buf) s e = (
    written_to-append p s.written _
        ∙ ap (written_to p s.written ++◌) (written_to-writes dec v dec.fresh p (c ∷ buf)),
    dict_get_or-dict_delete p p [] s.pending ∙ rw text_eq_refl,
  )

  -- Output that comes before the terminal and fits the buffer goes to the mounted terminal when the
  -- buffer is flushed, behind what was written before: the text of every chunk in order, those that
  -- were buffered before included, each masked as `writeToTerminal` does. With a decoder that may be
  -- given the bytes in pieces, the texts before masking are together what a new decoder gives for all
  -- these bytes at once, so what it holds back of a character that is not finished is not written.
  -- No chunk stays in the buffer.
  pub flush-buffer_all :
      (p : Text) (c : Text × List ℕ) (cs : List (Text × List ℕ)) (s : PtyState)
      → IsStream dec
      → IsBounded s
      → size (buffered p s) + size (chunks (c ∷ cs)) ≤ pending_max_bytes
      → let s' = flush_pty_output_buffer dec v true p (buffer_all v p (c ∷ cs) s) in
        let all = buffered p s ++ chunks (c ∷ cs) in
        (written_to p s'.written ≡ written_to p s.written ++ shown all)
        × (concat (texts dec dec.fresh all) ≡ (dec.decode dec.fresh (concat all)).1)
        × (buffered p s' ≡ [])
  unfolding flush_pty_output_buffer
  flush-buffer_all p c cs s st b h =
      let s' = buffer_all v p (c ∷ cs) s in
      let (w, e) = flush_buffered_lem p (buffered p s') s' refl in
      (
        w
            ∙ ap (λ l. written_to p l ++ shown (buffered p s')) (written-buffer_all v p (c ∷ cs) s)
            ∙ ap (λ l. written_to p s.written ++ shown l) (buffered-buffer_all v p (c ∷ cs) s b h),
        concat-texts dec st dec.fresh (buffered p s ++ chunks (c ∷ cs)),
        e,
      )
