-- ===== src/Gateway/Usage/Tools.antt =====
-- The tool calls of a chat stream: what is put together for each index, and when it panics.
use text.Mathlib.TextLemmas.{append_assoc, append-nil}
use new_api_gateway.Prelude.{
  ℕ, zero, suc, String, Bool, true, false, List, [], ◌∷◌, Option, none, some, ◌≡◌, ◌↔◌, refl, sym,
  ap, arith, length, ltb, ltb→lt, ◌<◌, ◌≤◌, if◌then◌else◌, inl, inr, Bool-cases, ◌&&◌,
}
use new_api_gateway.Prelude.Int.{ℤ, pos, negsuc, beq_ℤ, beq_ℤ_iff}
use new_api_gateway.Text.{◌<>◌}
use new_api_gateway.Gateway.Usage.Chat.{
  Tool, ToolDelta, Tools, Chat, no_tool, merge_tool, add_tool, add_tools, put_at, put_slot,
  fill_slots, empty_slots, assemble_sse, panic,
}

-- The tool of an index, an empty one if the index has none.
unfoldable pub find : ℤ → Tools → Tool
find k [] = no_tool
find k ((i, tool) ∷ tools) = let rest = find k tools in if beq_ℤ i k then tool else rest

-- The arguments that the deltas of an index carry, in their order.
unfoldable pub arguments_for : ℤ → List ToolDelta → String
arguments_for k [] = ""
arguments_for k (tc ∷ tcs) =
    if beq_ℤ tc.index k then tc.arguments <> arguments_for k tcs else arguments_for k tcs

beq_ℤ_comm : (a b : ℤ) → beq_ℤ a b ≡ false → beq_ℤ b a ≡ false
beq_ℤ_comm (pos a) (pos b) h = ground arith
beq_ℤ_comm (pos a) (negsuc b) h = refl
beq_ℤ_comm (negsuc a) (pos b) h = refl
beq_ℤ_comm (negsuc a) (negsuc b) h = ground arith

find-add_tool :
    (k : ℤ) (tools : Tools) (tc : ToolDelta)
    → find k (add_tool tools tc)
      ≡ (if beq_ℤ tc.index k then merge_tool (find k tools) tc else find k tools)
unfolding find add_tool
find-add_tool k [] tc = refl
find-add_tool k ((i, tool) ∷ tools) tc = elim (Bool-cases (beq_ℤ i tc.index)) [
  | inl same ↦ let e = (beq_ℤ_iff i tc.index).0 same in rw (same, ← e) (ground arith)
  | inr other ↦ elim (Bool-cases (beq_ℤ i k)) [
    | inl found ↦
        let e = (beq_ℤ_iff i k).0 found in
        let apart = rw e at (beq_ℤ_comm i tc.index other) in rw (other, found, apart)
    | inr passed ↦ rw (other, passed) (find-add_tool k tools tc)
  ]
]

-- Whatever the deltas, the arguments of a tool are those that it had, with those of all deltas of
-- its index behind them, in order.
pub find-add_tools_arguments :
    (k : ℤ) (tools : Tools) (tcs : List ToolDelta)
    → (find k (add_tools tools tcs)).arguments ≡ (find k tools).arguments <> arguments_for k tcs
unfolding add_tools arguments_for
find-add_tools_arguments k tools [] = sym (append-nil _)
find-add_tools_arguments k tools (tc ∷ tcs) = elim (Bool-cases (beq_ℤ tc.index k)) [
  | inl same ↦
      rw (same, find-add_tools_arguments k (add_tool tools tc) tcs, find-add_tool k tools tc, same)
        (unfold merge_tool in append_assoc _ _ _)
  | inr other ↦
      rw
        (other, find-add_tools_arguments k (add_tool tools tc) tcs, find-add_tool k tools tc, other)
]

-- The index is one of a slice of the length.
unfoldable pub in_range : ℕ → ℤ → Bool
in_range n (pos i) = ltb i n
in_range n (negsuc i) = false

put_at-fits :
    (i : ℕ) (tool : Tool) (slots : List (Option Tool))
    → i < length slots
    → (slots' : List (Option Tool)) × (put_at i tool slots ≡ some slots')
      × (length slots' ≡ length slots)
unfolding put_at
put_at-fits i tool [] h = absurd (omega arith)
put_at-fits zero tool (slot ∷ slots) h = (some tool ∷ slots, refl, refl)
put_at-fits (suc i) tool (slot ∷ slots) h =
    let (slots', put, same) = put_at-fits i tool slots (omega arith) in
    (slot ∷ slots', rw put, ap suc same)

put_at-out :
    (i : ℕ) (tool : Tool) (slots : List (Option Tool))
    → length slots ≤ i
    → put_at i tool slots ≡ none
unfolding put_at
put_at-out i tool [] h = refl
put_at-out zero tool (slot ∷ slots) h = absurd (omega arith)
put_at-out (suc i) tool (slot ∷ slots) h = rw (put_at-out i tool slots (omega arith))

-- The tests of all indices against the length of the slice.
unfoldable pub all_in_range : ℕ → Tools → Bool
unfolding in_range
all_in_range n [] = true
all_in_range n ((i, tool) ∷ tools) = in_range n i && all_in_range n tools

fill_slots-step :
    (i : ℕ) (tool : Tool) (tools : Tools) (slots slots' : List (Option Tool))
    → put_at i tool slots ≡ some slots'
    → length slots' ≡ length slots
    → ltb i (length slots) ≡ true
    → (fill_slots tools slots' ≡ none) ↔ (all_in_range (length slots') tools ≡ false)
    → (fill_slots ((pos i, tool) ∷ tools) slots ≡ none)
      ↔ (all_in_range (length slots) ((pos i, tool) ∷ tools) ≡ false)
unfolding fill_slots all_in_range put_slot
fill_slots-step i tool tools slots slots' put same fits rest =
    rw (fits, fill_slots, put) (rw same at rest)

fill_slots-none_iff :
    (tools : Tools) (slots : List (Option Tool))
    → (fill_slots tools slots ≡ none) ↔ (all_in_range (length slots) tools ≡ false)
unfolding fill_slots all_in_range put_slot
fill_slots-none_iff [] slots = ground arith
fill_slots-none_iff ((negsuc i, tool) ∷ tools) slots = (λ h. refl, λ h. refl)
fill_slots-none_iff ((pos i, tool) ∷ tools) slots = elim (Bool-cases (ltb i (length slots))) [
  | inl fits ↦
      let (slots', put, same) = put_at-fits i tool slots (ltb→lt i _ fits) in
      fill_slots-step i tool tools slots slots' put same fits (fill_slots-none_iff tools slots')
  | inr out ↦ rw (out, fill_slots, put_at-out i tool slots (ground arith)) (λ h. refl, λ h. refl)
]

length-empty_slots : (n : ℕ) → length (empty_slots n) ≡ n
length-empty_slots zero = refl
length-empty_slots (suc n) = ap suc (length-empty_slots n)

-- Putting the document together panics exactly when some tool call's index is negative or not below
-- the number of different indices.
pub assemble_sse-panic_iff :
    (e : Chat) → (assemble_sse e ≡ panic) ↔ (all_in_range (length e.sse_tools) e.sse_tools ≡ false)
unfolding assemble_sse all_in_range
assemble_sse-panic_iff e = ground (
  arith,
  rw (length-empty_slots (length e.sse_tools)) at
      (fill_slots-none_iff e.sse_tools (empty_slots (length e.sse_tools))),
)
