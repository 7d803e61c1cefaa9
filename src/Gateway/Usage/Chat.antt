-- ===== src/Gateway/Usage/Chat.antt =====
-- internal/gateway/usage_openai_chat.go: the chunks of a chat completion, put together again.
use new_api_gateway.Prelude.{
  zero, suc, ℕ, String, Bool, true, false, List, [], ◌∷◌, ◌++◌, Option, none, some, nat_eq,
  if◌then◌else◌, length, ◌&&◌,
}
use new_api_gateway.Prelude.Int.{ℤ, pos, negsuc, positive, beq_ℤ}
use new_api_gateway.Text.{Bytes, is_empty, ◌<>◌}
use new_api_gateway.Gateway.Usage.{MinimalUsage, no_usage, keep}

-- What the decoder makes of a payload.
pub record ToolDelta : Type 0 where
  pub index : ℤ
  pub id : String
  pub kind : String
  pub name : String
  pub arguments : String

pub record Choice : Type 0 where
  pub finish_reason : String
  pub role : String
  pub content : String
  pub tool_calls : List ToolDelta

pub record Chunk : Type 0 where
  pub id : String
  pub model : String
  pub usage : Option MinimalUsage
  pub choices : List Choice

pub record Tool : Type 0 where
  pub id : String
  pub kind : String
  pub name : String
  pub arguments : String

abbrev pub no_tool : Tool
no_tool = record { id = ""; kind = ""; name = ""; arguments = "" }

-- A Go map from indices, as pairs with different indices.
abbrev pub Tools : Type 0
Tools = List (ℤ × Tool)

pub record SseUsage : Type 0 where
  pub prompt_tokens : ℤ
  pub completion_tokens : ℤ
  pub total_tokens : ℤ

-- `openaiChatExtractor`
pub record Chat : Type 0 where
  pub acc : MinimalUsage
  pub mdl : String
  pub sse_id : String
  pub sse_role : String
  pub sse_parts : List String
  pub sse_tools : Tools
  pub sse_finish_reason : String
  pub sse_usage : Option SseUsage

abbrev pub new_chat : Chat
new_chat = record {
  acc = no_usage;
  mdl = "";
  sse_id = "";
  sse_role = "";
  sse_parts = [];
  sse_tools = [];
  sse_finish_reason = "";
  sse_usage = none;
}

unfoldable pub merge_tool : Tool → ToolDelta → Tool
merge_tool entry tc = record {
  id = keep entry.id tc.id;
  kind = keep entry.kind tc.kind;
  name = entry.name <> tc.name;
  arguments = entry.arguments <> tc.arguments;
}

-- The entry of an index, made where there is none, with the delta merged in.
unfoldable pub add_tool : Tools → ToolDelta → Tools
unfolding merge_tool
add_tool [] tc = (tc.index, merge_tool no_tool tc) ∷ []
add_tool ((i, entry) ∷ tools) tc =
    let rest = add_tool tools tc in
    if beq_ℤ i tc.index then (i, merge_tool entry tc) ∷ tools else (i, entry) ∷ rest

unfoldable pub add_tools : Tools → List ToolDelta → Tools
add_tools tools [] = tools
add_tools tools (tc ∷ tcs) = add_tools (add_tool tools tc) tcs

unfoldable pub add_choice : Chat → Choice → Chat
add_choice e ch = record e {
  sse_role = if is_empty e.sse_role then ch.role else e.sse_role;
  sse_parts = if is_empty ch.content then e.sse_parts else e.sse_parts ++ ch.content ∷ [];
  sse_finish_reason = keep e.sse_finish_reason ch.finish_reason;
  sse_tools = add_tools e.sse_tools ch.tool_calls;
}

unfoldable pub add_choices : Chat → List Choice → Chat
add_choices e [] = e
add_choices e (ch ∷ chs) = add_choices (add_choice e ch) chs

-- The part of `processSSE` in front of the loop over the choices.
unfoldable pub add_header : Chat → Chunk → Chat
add_header e v =
    let named : Chat = record e { sse_id = keep e.sse_id v.id; mdl = keep e.mdl v.model } in
    elim v.usage [
      | none ↦ named
      | some u ↦
          if positive u.total_tokens
          then record named {
            acc = u;
            sse_usage = some (record {
              prompt_tokens = u.prompt_tokens;
              completion_tokens = u.completion_tokens;
              total_tokens = u.total_tokens;
            });
          }
          else named
    ]

unfoldable pub add_chunk : Chat → Chunk → Chat
add_chunk e v = add_choices (add_header e v) v.choices

unfoldable pub process_sse : (Bytes → Option Chunk) → Chat → Bytes → Chat
process_sse decode e payload = elim (decode payload) [ none ↦ e | some v ↦ add_chunk e v ]

unfoldable pub sse_result : Chat → MinimalUsage × String
sse_result e = (e.acc, e.mdl)

-- The decoder of a whole response reads its usage and model.
unfoldable pub extract_response :
    (Bytes → Option (MinimalUsage × String)) → Bytes → MinimalUsage × String
extract_response decode body = elim (decode body) [ none ↦ (no_usage, "") | some v ↦ v ]

-- The document that `assembleSSE` encodes. A slot of `toolCalls` that is not written stays null.
pub record Document : Type 0 where
  pub id : String
  pub model : String
  pub role : String
  pub content : String
  pub tool_calls : List (Option Tool)
  pub finish_reason : String
  pub usage : Option SseUsage

-- A Go function may panic, here by an index out of range.
pub data Assembled : Type 0 where
  nothing panic : Assembled
  document : Document → Assembled

unfoldable pub concat_parts : String → List String → String
concat_parts content [] = content
concat_parts content (p ∷ ps) = concat_parts (content <> p) ps

abbrev pub empty_slots : ℕ → List (Option Tool)
empty_slots zero = []
empty_slots (suc n) = none ∷ empty_slots n

-- `toolCalls[idx] = …`; `none` is the panic of an index out of range.
unfoldable pub put_at : ℕ → Tool → List (Option Tool) → Option (List (Option Tool))
put_at i tool [] = none
put_at zero tool (slot ∷ slots) = some (some tool ∷ slots)
put_at (suc i) tool (slot ∷ slots) = elim (put_at i tool slots) [
  | none ↦ none
  | some slots' ↦ some (slot ∷ slots')
]

unfoldable pub put_slot : ℤ → Tool → List (Option Tool) → Option (List (Option Tool))
put_slot (pos i) tool slots = put_at i tool slots
put_slot (negsuc i) tool slots = none

unfoldable pub fill_slots : Tools → List (Option Tool) → Option (List (Option Tool))
fill_slots [] slots = some slots
fill_slots ((i, tool) ∷ tools) slots = elim (put_slot i tool slots) [
  | none ↦ none
  | some slots' ↦ fill_slots tools slots'
]

abbrev no_parts : {A : Type 0} → List A → Bool
no_parts [] = true
no_parts (x ∷ xs) = false

unfoldable pub assemble_sse : Chat → Assembled
assemble_sse e =
    if is_empty e.sse_id && no_parts e.sse_parts && is_empty e.sse_role && no_parts e.sse_tools
    then nothing
    else elim (fill_slots e.sse_tools (empty_slots (length e.sse_tools))) [
      | none ↦ panic
      | some slots ↦ document (record {
        id = e.sse_id;
        model = e.mdl;
        role = e.sse_role;
        content = concat_parts "" e.sse_parts;
        tool_calls = slots;
        finish_reason = e.sse_finish_reason;
        usage = e.sse_usage;
      })
    ]
