-- ===== src/Gateway/Usage/Responses.antt =====
-- internal/gateway/usage_openai_responses.go
use new_api_gateway.Prelude.{
  String, Bool, true, false, [], ◌∷◌, Option, none, some, ◌==◌, string_eq, ◌&&◌, if◌then◌else◌,
}
use new_api_gateway.Prelude.Int.{positive}
use new_api_gateway.Text.{Bytes}
use new_api_gateway.Gateway.Usage.{MinimalUsage, no_usage, keep}

-- The first reading of a payload: its type and the raw text of its response.
pub record Header : Type 0 where
  pub kind : String
  pub response : Bytes

-- `openaiResponsesExtractor`
pub record Responses : Type 0 where
  pub acc : MinimalUsage
  pub mdl : String
  pub raw_completed : Bytes

abbrev pub new_responses : Responses
new_responses = record { acc = no_usage; mdl = ""; raw_completed = [] }

abbrev pub has_bytes : Bytes → Bool
has_bytes [] = false
has_bytes (b ∷ bs) = true

unfoldable pub add_header : Responses → Header → Responses
add_header e h =
    if h.kind == "response.completed" && has_bytes h.response
    then record e { raw_completed = h.response }
    else e

-- The second reading: usage and model of the response in the payload.
unfoldable pub add_usage : Responses → MinimalUsage → String → Responses
add_usage e u model = record e {
  acc = if positive u.total_tokens then u else e.acc;
  mdl = keep e.mdl model;
}

unfoldable pub process_sse :
    (Bytes → Option Header)
    → (Bytes → Option (MinimalUsage × String))
    → Responses
    → Bytes
    → Responses
unfolding add_header add_usage
process_sse decode_header decode_usage e payload = elim (decode_header payload) [
  | none ↦ e
  | some h ↦
      let e' = add_header e h in
      elim (decode_usage payload) [ none ↦ e' | some (u, model) ↦ add_usage e' u model ]
]

unfoldable pub sse_result : Responses → MinimalUsage × String
sse_result e = (e.acc, e.mdl)

unfoldable pub assemble_sse : Responses → Option Bytes
assemble_sse e = if has_bytes e.raw_completed then some e.raw_completed else none

unfoldable pub extract_response :
    (Bytes → Option (MinimalUsage × String)) → Bytes → MinimalUsage × String
extract_response decode body = elim (decode body) [ none ↦ (no_usage, "") | some v ↦ v ]
