-- ===== src/Gateway/Usage/Generic.antt =====
-- internal/gateway/usage_generic.go: the extractor of the families that have none of their own.
use new_api_gateway.Prelude.{String, Option, none, some}
use new_api_gateway.Prelude.Int.{ℤ, pos}
use new_api_gateway.Text.{Bytes}
use new_api_gateway.Gateway.Usage.{MinimalUsage, no_usage}

-- The decoded fields; a pointer that stays nil is `none`.
pub record Payload : Type 0 where
  pub prompt_tokens : Option ℤ
  pub completion_tokens : Option ℤ
  pub input_tokens : Option ℤ
  pub output_tokens : Option ℤ
  pub total_tokens : ℤ
  pub prompt_cached_tokens : Option ℤ
  pub input_cached_tokens : Option ℤ
  pub completion_reasoning_tokens : Option ℤ
  pub output_reasoning_tokens : Option ℤ
  pub model : String

-- The first of two pointers that is not nil, zero if both are.
abbrev pub first_of_two : Option ℤ → Option ℤ → ℤ
first_of_two (some a) b = a
first_of_two none (some b) = b
first_of_two none none = pos 0

unfoldable pub extract_response : (Bytes → Option Payload) → Bytes → MinimalUsage × String
extract_response decode body = elim (decode body) [
  | none ↦ (no_usage, "")
  | some v ↦ (
    record {
      prompt_tokens = first_of_two v.prompt_tokens v.input_tokens;
      completion_tokens = first_of_two v.completion_tokens v.output_tokens;
      total_tokens = v.total_tokens;
      reasoning_tokens = first_of_two v.completion_reasoning_tokens v.output_reasoning_tokens;
      cached_tokens = first_of_two v.prompt_cached_tokens v.input_cached_tokens;
    },
    v.model,
  )
]
