-- ===== src/Pty/Tests.antt =====
-- Runs of the output buffer, and the theorems at concrete states.
use racemo.Base.{
  ℕ, ◌+◌, ◌*◌, ◌≤◌, ◌≡◌, refl, ap, true, false, Option, none, some, List, [], ◌∷◌, ◌++◌, arith,
  ◌==◌, if◌then◌else◌, Text, codes, concat, dict_get, dict_get_or,
}
use racemo.Secret.{mask_secrets_with_patterns, mask_tokens, tokenize, apply_patterns}
use racemo.Pty.{
  PtyState, Decoder, Privacy, write_to_terminal, pending_max_bytes, buffered,
  flush_pty_output_buffer,
}
use racemo.Pty.Ack.{Call, output, wrote, ack_timer, flush, clear, run, credit, received, credit-run}
use racemo.Pty.Bounds.{size, IsBounded, run-IsBounded}
use racemo.Pty.Stream.{IsStream, texts, written_to, buffer_all, chunks, shown, flush-buffer_all}
use racemo.Pty.Activity.{ActivityState, WillIdle, receives, step, step-WillIdle}

abbrev pane : Text
pane = b'p' ∷ []

abbrev start : PtyState
start = record {
  pending = [];
  pending_bytes = [];
  pending_dropped = [];
  ack_pending = [];
  ack_flush_scheduled = false;
  written = [];
  in_flight = [];
  acks = [];
}

start-IsBounded : IsBounded start
unfolding size dict_get_or dict_get
start-IsBounded p = (refl, omega arith)

-- A decoder of two bytes to a code unit, the higher one first; it holds back the first of two.
abbrev utf_16be : Option ℕ → List ℕ → Option ℕ × Text
utf_16be d [] = (d, [])
utf_16be none (x ∷ xs) = utf_16be (some x) xs
utf_16be (some x) (y ∷ ys) = let (d, text) = utf_16be none ys in (d, (256 * x + y) ∷ text)

abbrev decoder : Decoder (Option ℕ)
decoder = record { decode = utf_16be; fresh = none }

decoder-IsStream : IsStream decoder
decoder-IsStream = record { nothing = λ d. refl; pieces = go }
  where
    go :
        (d : Option ℕ) (xs ys : List ℕ)
        → utf_16be d (xs ++ ys) ≡ (
            let (d', text) = utf_16be d xs in
            let (d'', more) = utf_16be d' ys in (d'', text ++ more))
    go d [] ys = refl
    go none (x ∷ xs) ys = go (some x) xs ys
    go (some x) (y ∷ xs) ys = ap (λ r. (r.0, (256 * x + y) ∷ r.1)) (go none xs ys)

-- Privacy is on, and the one pattern hides every code unit `s`.
abbrev hide : Text → Text
hide [] = []
hide (c ∷ t) = (if c == b's' then b'*' else c) ∷ hide t

abbrev private : Privacy
private = record { enabled = true; exec = λ raw from. none; patterns = hide ∷ [] }

abbrev calls : List Call
calls =
    output private false [] pane (7 ∷ [])
    ∷ flush private true pane
    ∷ output private true (b's' ∷ []) pane (8 ∷ [])
    ∷ wrote
    ∷ ack_timer
    ∷ clear pane
    ∷ []

credit-run_example : credit pane (run decoder calls start) ≡ credit pane start + received pane calls
credit-run_example = credit-run decoder pane calls start

run-IsBounded_example : IsBounded (run decoder calls start)
run-IsBounded_example = run-IsBounded decoder calls start start-IsBounded

-- The first chunk ends in the middle of a character, and the last byte is half of one.
abbrev cut : List (Text × List ℕ)
cut = ([], 0 ∷ b's' ∷ 0 ∷ []) ∷ ([], b'a' ∷ 1 ∷ []) ∷ []

hides_whole_characters : shown decoder private (chunks cut) ≡ codes "*a"
unfolding concat texts write_to_terminal mask_secrets_with_patterns mask_tokens tokenize
    apply_patterns
hides_whole_characters = refl

fits : size (buffered pane start) + size (chunks cut) ≤ pending_max_bytes
unfolding size dict_get_or dict_get
fits = omega arith

flush-buffer_all_example :
    let s' =
      flush_pty_output_buffer decoder private true pane (buffer_all private pane cut start) in
    let all = buffered pane start ++ chunks cut in
    (written_to pane s'.written ≡ written_to pane [] ++ shown decoder private all)
    × (concat (texts decoder none all) ≡ (utf_16be none (concat all)).1)
    × (buffered pane s' ≡ [])
flush-buffer_all_example =
    flush-buffer_all decoder private pane ([], 0 ∷ b's' ∷ 0 ∷ []) (([], b'a' ∷ 1 ∷ []) ∷ []) start
      decoder-IsStream start-IsBounded fits

abbrev quiet : ActivityState
quiet = record { timers = []; bytes = []; suppressed = []; grace = []; pane_active = [] }

quiet-WillIdle : WillIdle quiet
unfolding dict_get_or dict_get
quiet-WillIdle p h = cc

step-WillIdle_example : WillIdle (step (receives pane 3000) quiet)
step-WillIdle_example = step-WillIdle (receives pane 3000) quiet quiet-WillIdle
