-- ===== src/Gateway/Usage/Tests.antt =====
-- Tests of the usage extractors, and their theorems at concrete streams.
use new_api_gateway.Prelude.{
  ℕ, String, false, List, [], ◌∷◌, ◌++◌, Option, none, some, ◌≡◌, ◌↔◌, refl, length,
}
use new_api_gateway.Prelude.Int.{pos}
use new_api_gateway.Text.{Bytes, ◌<>◌}
use new_api_gateway.Gateway.Usage.{
  extractor_for, chat, generic, model_from_gemini_path, model_from_engine_embedding_path,
}
use new_api_gateway.Gateway.Usage.Chat.{
  Chunk, ToolDelta, new_chat, add_chunk, add_choice, add_choices, add_header, add_tools, add_tool,
  assemble_sse, panic, fill_slots, put_slot, put_at,
}
use new_api_gateway.Gateway.Usage.Claude
use new_api_gateway.Gateway.Usage.Claude.{Tokens, Event, new_claude}
use new_api_gateway.Gateway.Usage.Tools.{
  find, arguments_for, all_in_range, find-add_tools_arguments, assemble_sse-panic_iff,
}
use new_api_gateway.Gateway.Usage.Streams.{
  run_chat, content_of, chunks_content, run_chat-content, run_claude, no_tokens, message_start,
  message_delta, run_claude-eq-extract_response,
}

dispatch : (extractor_for "openai_completions" ≡ chat) × (extractor_for "realtime" ≡ generic)
unfolding extractor_for
dispatch = (refl, refl)

models :
    (model_from_gemini_path "/v1beta/models/gemini-pro:generateContent" ≡ "gemini-pro")
    × (model_from_gemini_path "/v1/models/:x" ≡ "")
    × (model_from_engine_embedding_path "/v1/engines/ada/embeddings" ≡ "ada")
    × (model_from_engine_embedding_path "/v1/engines/a/b/embeddings" ≡ "")
unfolding model_from_gemini_path model_from_engine_embedding_path
models = (refl, refl, refl, refl)

abbrev call : ℕ → String → ToolDelta
call i text = record { index = pos i; id = ""; kind = ""; name = ""; arguments = text }

abbrev says : String → List ToolDelta → Chunk
says text calls = record {
  id = "c";
  model = "m";
  usage = none;
  choices = record { finish_reason = ""; role = ""; content = text; tool_calls = calls } ∷ [];
}

-- The only tool call of this stream has the index 1.
abbrev sparse : List Chunk
sparse = says "" (call 1 "{}" ∷ []) ∷ []

sparse_panics : assemble_sse (run_chat new_chat sparse) ≡ panic
unfolding run_chat add_chunk add_choices add_choice add_header add_tools add_tool assemble_sse
    fill_slots put_slot put_at
sparse_panics = refl

find-add_tools_arguments_example :
    (find (pos 0) (add_tools [] (call 0 "{\"a\"" ∷ call 1 "x" ∷ call 0 ":1}" ∷ []))).arguments
    ≡ (find (pos 0) []).arguments
      <> arguments_for (pos 0) (call 0 "{\"a\"" ∷ call 1 "x" ∷ call 0 ":1}" ∷ [])
find-add_tools_arguments_example =
    find-add_tools_arguments (pos 0) [] (call 0 "{\"a\"" ∷ call 1 "x" ∷ call 0 ":1}" ∷ [])

assemble_sse-panic_iff_example : (assemble_sse (run_chat new_chat sparse) ≡ panic) ↔ (
    all_in_range (length (run_chat new_chat sparse).sse_tools) (run_chat new_chat sparse).sse_tools
    ≡ false)
assemble_sse-panic_iff_example = assemble_sse-panic_iff (run_chat new_chat sparse)

run_chat-content_example :
    content_of (run_chat new_chat (says "he" [] ∷ says "llo" [] ∷ []))
    ≡ content_of new_chat <> chunks_content (says "he" [] ∷ says "llo" [] ∷ [])
run_chat-content_example = run_chat-content new_chat (says "he" [] ∷ says "llo" [] ∷ [])

abbrev prompt : Tokens
prompt = record no_tokens { input_tokens = pos 12; cache_read_tokens = pos 3 }

abbrev output : Tokens
output = record no_tokens { output_tokens = pos 7 }

abbrev text_delta : Event
text_delta = record (message_delta no_tokens "") { kind = "content_block_delta"; delta_text = "hi" }

abbrev decode_message : Bytes → Option (Tokens × String)
decode_message body = some (record prompt { output_tokens = pos 7 }, "claude")

run_claude-eq-extract_response_example :
    Claude.sse_result (
      run_claude new_claude
        (message_start prompt "a" "claude" ∷ (text_delta ∷ []) ++ message_delta output "end" ∷ []))
    ≡ Claude.extract_response decode_message []
run_claude-eq-extract_response_example =
    run_claude-eq-extract_response prompt output "a" "claude" "end" (text_delta ∷ []) decode_message
      [] refl refl refl (record { no_message = refl; no_input = refl; no_output = refl }, tt) refl
