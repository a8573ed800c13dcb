-- ===== src/AiHistory/Bounds.antt =====
-- The store stays small.
use racemo.Base.{
  ℕ, zero, suc, ◌+◌, ◌≤◌, inl, inr, List, [], ◌∷◌, ◌++◌, arith, ltb, if◌then◌else◌, Bool-cases,
  length, length-append, take, length-take, length-map, Text, text_eq, keep,
}
use racemo.AiHistory.{
  AiHistoryEntry, max_entries, max_output_length, clipped, add, Patch, or_old, patched, update,
  remove, clear,
}

-- No output is longer than the limit and the ellipsis.
abbrev AllShort : List AiHistoryEntry → Type 0
AllShort [] = Unit
AllShort (e ∷ es) = (length e.output ≤ max_output_length + 1) × AllShort es

-- At most 100 entries, each with at most 3001 code units of output.
pub record IsSmall (es : List AiHistoryEntry) : Type 0 where
  pub few : length es ≤ max_entries
  pub short : AllShort es

length-clip :
    (n : ℕ) (output : Text)
    → length (if ltb n (length output) then take n output ++ 0x2026 ∷ [] else output) ≤ n + 1
length-clip n output = elim (Bool-cases (ltb n (length output))) [
  | inl e ↦
      rw (e, length-append (take n output) (0x2026 ∷ [])) (omega (arith, length-take n output))
  | inr e ↦ rw e (ground arith)
]

length-clipped : (output : Text) → length (clipped output) ≤ max_output_length + 1
unfolding clipped
length-clipped output = length-clip max_output_length output

take-AllShort : (n : ℕ) (es : List AiHistoryEntry) → AllShort es → AllShort (take n es)
take-AllShort zero es h = tt
take-AllShort (suc n) [] h = tt
take-AllShort (suc n) (e ∷ es) (h, hs) = (h, take-AllShort n es hs)

update-AllShort :
    (id : Text) (p : Patch) (es : List AiHistoryEntry) → AllShort es → AllShort (update id p es)
unfolding update
update-AllShort id p [] h = tt
update-AllShort id p (e ∷ es) (h, hs) = elim (Bool-cases (text_eq e.id id)) [
  | inl q ↦ rw q (length-clipped (or_old p.output e.output), update-AllShort id p es hs)
  | inr q ↦ rw q (h, update-AllShort id p es hs)
]

remove-IsSmall :
    (id : Text) (es : List AiHistoryEntry)
    → AllShort es
    → (length (remove id es) ≤ length es) × AllShort (remove id es)
unfolding remove keep
remove-IsSmall id [] h = (omega arith, tt)
remove-IsSmall id (e ∷ es) (h, hs) =
    let (l, s) = remove-IsSmall id es hs in
    elim (Bool-cases (text_eq e.id id)) [
      | inl q ↦ rw q (omega arith, s)
      | inr q ↦ rw q (omega arith, (h, s))
    ]

pub data Event : Type 0 where
  adds : AiHistoryEntry → Event
  updates : Text → Patch → Event
  removes : Text → Event
  clears : Event

unfoldable pub step : Event → List AiHistoryEntry → List AiHistoryEntry
step (adds e) es = add e es
step (updates id p) es = update id p es
step (removes id) es = remove id es
step clears es = clear es

-- Every operation keeps the store within its bounds: 100 entries, and 3000 code units of output and
-- an ellipsis in each.
pub ai_history_step-IsSmall :
    (e : Event) (es : List AiHistoryEntry) → IsSmall es → IsSmall (step e es)
unfolding step add clear update
ai_history_step-IsSmall (adds e) es v = record {
  few = omega (arith, length-take max_entries (record e { output = clipped e.output } ∷ es));
  short =
      take-AllShort max_entries (record e { output = clipped e.output } ∷ es)
        (length-clipped e.output, v.short);
}
ai_history_step-IsSmall (updates id p) es v =
    let f : AiHistoryEntry → AiHistoryEntry = λ e. if text_eq e.id id then patched p e else e in
    record { few = omega (arith, length-map es f, v.few); short = update-AllShort id p es v.short }
ai_history_step-IsSmall (removes id) es v =
    let (l, s) = remove-IsSmall id es v.short in record { few = omega (arith, v.few); short = s }
ai_history_step-IsSmall clears es v = record { few = omega arith; short = tt }
