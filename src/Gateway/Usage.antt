-- ===== src/Gateway/Usage.antt =====
-- internal/gateway/usage.go and minimal.go: token usage and model names, one extractor for each
-- protocol family. The decoding of JSON is not the program's own code: each extractor takes the
-- decoder of its payload as a parameter.
pub mod Chat
pub mod Claude
pub mod Responses
pub mod Gemini
pub mod Images
pub mod Generic
pub mod Tools
pub mod Streams
mod Tests
use new_api_gateway.Prelude.{
  String, Bool, true, false, Option, none, some, ◌==◌, string_eq, ◌||◌, if◌then◌else◌,
}
use new_api_gateway.Prelude.Int.{ℤ, pos}
use new_api_gateway.Text.{
  Bytes, is_empty, has_prefix, has_suffix, trim_prefix, trim_suffix, contains, before, cut_at,
}

pub record MinimalUsage : Type 0 where
  pub prompt_tokens : ℤ
  pub completion_tokens : ℤ
  pub total_tokens : ℤ
  pub reasoning_tokens : ℤ
  pub cached_tokens : ℤ

abbrev pub no_usage : MinimalUsage
no_usage = record {
  prompt_tokens = pos 0;
  completion_tokens = pos 0;
  total_tokens = pos 0;
  reasoning_tokens = pos 0;
  cached_tokens = pos 0;
}

-- A field that a message sets only where it is not empty.
abbrev pub keep : String → String → String
keep old new = if is_empty new then old else new

-- The extractors that the `init` functions register.
pub data Family : Type 0 where
  chat responses claude gemini images generic : Family

-- `extractorFor`: the registered families, and the generic extractor for all others.
unfoldable pub extractor_for : String → Family
extractor_for family =
    if family == "openai_chat" || family == "openai_completions"
    then chat
    else if family == "openai_responses"
    then responses
    else if family == "claude_messages"
    then claude
    else if family == "gemini"
    then gemini
    else if family == "openai_images"
    then images
    else generic

-- `extractModelFromBody`; the decoder reads the `model` field.
unfoldable pub extract_model_from_body : (Bytes → Option String) → Bytes → String
extract_model_from_body decode body = elim (decode body) [ none ↦ "" | some model ↦ model ]

unfoldable pub model_from_engine_embedding_path : String → String
unfolding has_prefix has_suffix trim_prefix trim_suffix contains
model_from_engine_embedding_path path =
    if has_prefix "/v1/engines/" path
    then (if has_suffix "/embeddings" path
        then (let model = trim_suffix "/embeddings" (trim_prefix "/v1/engines/" path) in
            if is_empty model || contains "/" model then "" else model)
        else "")
    else ""

unfoldable pub extract_request_model : (Bytes → Option String) → String → Bytes → String
unfolding model_from_engine_embedding_path extract_model_from_body
extract_request_model decode path body =
    let model = model_from_engine_embedding_path path in
    if is_empty model then extract_model_from_body decode body else model

unfoldable pub model_from_gemini_path : String → String
unfolding cut_at before
model_from_gemini_path path = elim (cut_at "/models/" path) [
  | none ↦ ""
  | some after ↦ before b':' after
]

-- The request's model: the generic helper serves where an extractor finds none.
unfoldable pub extract_request : Family → (Bytes → Option String) → String → Bytes → String
unfolding extract_model_from_body model_from_gemini_path
extract_request gemini decode path body =
    let model = model_from_gemini_path path in
    if is_empty model then extract_model_from_body decode body else model
extract_request _ decode path body = extract_model_from_body decode body
