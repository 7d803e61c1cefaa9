-- ===== src/Gateway/Usage/Claude.antt =====
-- internal/gateway/usage_claude.go: the events of a Claude message, and whole messages.
use new_api_gateway.Prelude.{
  String, Bool, true, false, List, [], ◌∷◌, ◌++◌, Option, none, some, ◌==◌, string_eq, ◌&&◌,
  if◌then◌else◌,
}
use new_api_gateway.Prelude.Int.{ℤ, pos, positive, beq_ℤ, add64}
use new_api_gateway.Text.{Bytes, is_empty, ◌<>◌}
use new_api_gateway.Gateway.Usage.{MinimalUsage, no_usage, keep}

-- A `usage` object of the protocol.
pub record Tokens : Type 0 where
  pub input_tokens : ℤ
  pub output_tokens : ℤ
  pub cache_read_tokens : ℤ
  pub cache_create_tokens : ℤ

-- What the decoder makes of an event; a missing object has zero fields.
pub record Event : Type 0 where
  pub kind : String
  pub usage : Tokens
  pub message_id : String
  pub message_model : String
  pub message_usage : Tokens
  pub stop_reason : String
  pub delta_text : String
  pub block_type : String

pub record Block : Type 0 where
  pub kind : String
  pub text : String

-- `claudeExtractor`
pub record Claude : Type 0 where
  pub acc : MinimalUsage
  pub mdl : String
  pub sse_id : String
  pub sse_stop_reason : String
  pub sse_blocks : List Block

abbrev pub new_claude : Claude
new_claude = record { acc = no_usage; mdl = ""; sse_id = ""; sse_stop_reason = ""; sse_blocks = [] }

-- The usage of `message_start`, with the model.
unfoldable pub add_message_usage : Claude → Event → Claude
add_message_usage e v =
    let u = v.message_usage in
    if positive u.input_tokens
    then record e {
      acc = record (e.acc) {
        prompt_tokens = u.input_tokens;
        cached_tokens =
            if beq_ℤ e.acc.cached_tokens (pos 0)
            then add64 u.cache_read_tokens u.cache_create_tokens
            else e.acc.cached_tokens;
      };
      mdl = keep e.mdl v.message_model;
    }
    else e

-- The usage of `message_delta`, and the total.
unfoldable pub add_delta_usage : MinimalUsage → Tokens → MinimalUsage
add_delta_usage acc u =
    let prompt =
      if positive u.input_tokens && beq_ℤ acc.prompt_tokens (pos 0)
      then u.input_tokens
      else acc.prompt_tokens in
    let completion = if positive u.output_tokens then u.output_tokens else acc.completion_tokens in
    record acc {
      prompt_tokens = prompt;
      completion_tokens = completion;
      total_tokens = add64 prompt completion;
    }

-- `e.sseBlocks[len(e.sseBlocks)-1].Text += text`, where there is a block.
unfoldable pub append_text : List Block → String → List Block
append_text [] text = []
append_text (b ∷ []) text = record b { text = b.text <> text } ∷ []
append_text (b ∷ c ∷ bs) text = b ∷ append_text (c ∷ bs) text

unfoldable pub add_blocks : List Block → Event → List Block
unfolding append_text
add_blocks blocks v =
    let started =
      if v.kind == "content_block_start" && v.block_type == "text"
      then blocks ++ record { kind = "text"; text = "" } ∷ []
      else blocks in
    if v.kind == "content_block_delta"
    then (if is_empty v.delta_text then started else append_text started v.delta_text)
    else started

unfoldable pub add_event : Claude → Event → Claude
add_event e v =
    let e' = add_message_usage e v in
    record e' {
      sse_id = keep e.sse_id v.message_id;
      acc = add_delta_usage e'.acc v.usage;
      sse_blocks = add_blocks e.sse_blocks v;
      sse_stop_reason = keep e.sse_stop_reason v.stop_reason;
    }

unfoldable pub process_sse : (Bytes → Option Event) → Claude → Bytes → Claude
process_sse decode e payload = elim (decode payload) [ none ↦ e | some v ↦ add_event e v ]

unfoldable pub sse_result : Claude → MinimalUsage × String
sse_result e = (e.acc, e.mdl)

-- The decoder of a whole message reads its usage and model.
unfoldable pub extract_response : (Bytes → Option (Tokens × String)) → Bytes → MinimalUsage × String
extract_response decode body = elim (decode body) [
  | none ↦ (no_usage, "")
  | some (u, model) ↦ (
    record {
      prompt_tokens = u.input_tokens;
      completion_tokens = u.output_tokens;
      total_tokens = add64 u.input_tokens u.output_tokens;
      reasoning_tokens = pos 0;
      cached_tokens = add64 u.cache_read_tokens u.cache_create_tokens;
    },
    model,
  )
]

-- The document that `assembleSSE` encodes.
pub record Document : Type 0 where
  pub id : String
  pub model : String
  pub content : List Block
  pub stop_reason : String
  pub input_tokens : ℤ
  pub output_tokens : ℤ

abbrev no_blocks : List Block → Bool
no_blocks [] = true
no_blocks (b ∷ bs) = false

unfoldable pub assemble_sse : Claude → Option Document
assemble_sse e =
    if is_empty e.sse_id && no_blocks e.sse_blocks
    then none
    else some (record {
      id = e.sse_id;
      model = e.mdl;
      content = e.sse_blocks;
      stop_reason = e.sse_stop_reason;
      input_tokens = e.acc.prompt_tokens;
      output_tokens = e.acc.completion_tokens;
    })
