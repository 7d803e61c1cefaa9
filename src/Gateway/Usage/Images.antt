-- ===== src/Gateway/Usage/Images.antt =====
-- internal/gateway/usage_openai_images.go
use new_api_gateway.Prelude.{String, Option, none, some, if◌then◌else◌}
use new_api_gateway.Prelude.Int.{ℤ, pos, positive}
use new_api_gateway.Text.{Bytes}
use new_api_gateway.Gateway.Usage.{MinimalUsage, no_usage}

pub record Tokens : Type 0 where
  pub input_tokens : ℤ
  pub output_tokens : ℤ
  pub total_tokens : ℤ
  pub cached_tokens : ℤ

abbrev pub usage_of : Tokens → MinimalUsage
usage_of u = record {
  prompt_tokens = u.input_tokens;
  completion_tokens = u.output_tokens;
  total_tokens = u.total_tokens;
  reasoning_tokens = pos 0;
  cached_tokens = u.cached_tokens;
}

-- `openaiImagesExtractor`
pub record Images : Type 0 where
  pub acc : MinimalUsage
  pub mdl : String

unfoldable pub process_sse : (Bytes → Option Tokens) → Images → Bytes → Images
process_sse decode e payload = elim (decode payload) [
  | none ↦ e
  | some u ↦ if positive u.total_tokens then record e { acc = usage_of u } else e
]

unfoldable pub sse_result : Images → MinimalUsage × String
sse_result e = (e.acc, e.mdl)

unfoldable pub extract_response : (Bytes → Option Tokens) → Bytes → MinimalUsage × String
extract_response decode body = elim (decode body) [
  | none ↦ (no_usage, "")
  | some u ↦ (usage_of u, "")
]
