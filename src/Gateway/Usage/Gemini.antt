-- ===== src/Gateway/Usage/Gemini.antt =====
-- internal/gateway/usage_gemini.go: usage alone, no model, and no document put together.
use new_api_gateway.Prelude.{String, Option, none, some, if◌then◌else◌}
use new_api_gateway.Prelude.Int.{ℤ, pos, positive}
use new_api_gateway.Text.{Bytes}
use new_api_gateway.Gateway.Usage.{MinimalUsage, no_usage}

-- `usageMetadata`
pub record Metadata : Type 0 where
  pub prompt_tokens : ℤ
  pub candidates_tokens : ℤ
  pub total_tokens : ℤ

abbrev pub usage_of : Metadata → MinimalUsage
usage_of m = record {
  prompt_tokens = m.prompt_tokens;
  completion_tokens = m.candidates_tokens;
  total_tokens = m.total_tokens;
  reasoning_tokens = pos 0;
  cached_tokens = pos 0;
}

-- `geminiExtractor`
pub record Gemini : Type 0 where
  pub acc : MinimalUsage
  pub mdl : String

unfoldable pub process_sse : (Bytes → Option Metadata) → Gemini → Bytes → Gemini
process_sse decode e payload = elim (decode payload) [
  | none ↦ e
  | some m ↦ if positive m.total_tokens then record e { acc = usage_of m } else e
]

unfoldable pub sse_result : Gemini → MinimalUsage × String
sse_result e = (e.acc, e.mdl)

unfoldable pub extract_response : (Bytes → Option Metadata) → Bytes → MinimalUsage × String
extract_response decode body = elim (decode body) [
  | none ↦ (no_usage, "")
  | some m ↦ (usage_of m, "")
]
