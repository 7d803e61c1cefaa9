-- ===== src/Routes/Default.antt =====
-- `DefaultRegistry` of internal/routes/registry.go: the gateway's own route table.
use new_api_gateway.Prelude.{String, [], ◌∷◌}
use new_api_gateway.Routes.{Entry, Registry, raw_and_normalized, raw_and_minimal}

-- An entry whose requests are captured raw and normalized, with its normalizer.
abbrev normalized : String → String → String → String → String → Entry
normalized m path family body name = record {
  method = m;
  path_pattern = path;
  protocol_family = family;
  body_kind = body;
  capture_mode = raw_and_normalized;
  normalizer = name;
  minimal_extractor = "";
  unsupported_alert_code = "";
}

-- An entry whose requests are captured raw with minimal metadata, with its extractor.
abbrev minimal : String → String → String → String → String → Entry
minimal m path family body name = record {
  method = m;
  path_pattern = path;
  protocol_family = family;
  body_kind = body;
  capture_mode = raw_and_minimal;
  normalizer = "";
  minimal_extractor = name;
  unsupported_alert_code = "known_route_raw_first";
}

unfoldable pub default_registry : Registry
default_registry = record {
  entries =
      normalized "POST" "/v1/chat/completions" "openai_chat" "json" "openai_chat"
      ∷ normalized "POST" "/pg/chat/completions" "openai_chat" "json" "openai_chat"
      ∷ normalized "POST" "/v1/responses" "openai_responses" "json" "openai_responses"
      ∷ normalized "POST" "/v1/responses/compact" "openai_responses" "json"
          "openai_responses_compact"
      ∷ normalized "POST" "/v1/messages" "claude_messages" "json" "claude_messages"
      ∷ normalized "POST" "/v1/completions" "openai_completions" "json" "openai_completions"
      ∷ normalized "POST" "/v1/embeddings" "embeddings" "json" "embeddings"
      ∷ normalized "POST" "/v1/rerank" "rerank" "json" "rerank"
      ∷ normalized "POST" "/v1/images/generations" "openai_images" "json" "openai_image_generation"
      ∷ normalized "POST" "/v1/images/edits" "openai_images" "multipart_or_json" "openai_image_edit"
      ∷ normalized "POST" "/v1/edits" "openai_images" "multipart_or_json" "openai_edit"
      ∷ normalized "POST" "/v1/audio/transcriptions" "openai_audio" "multipart"
          "audio_transcription"
      ∷ normalized "POST" "/v1/audio/translations" "openai_audio" "multipart" "audio_translation"
      ∷ normalized "POST" "/v1/audio/speech" "openai_audio" "json" "audio_speech"
      ∷ normalized "POST" "/v1beta/models/*" "gemini" "json" "gemini_generate_content"
      ∷ normalized "POST" "/v1/models/*" "gemini" "json" "gemini_generate_content"
      ∷ minimal "GET" "/v1/realtime" "realtime" "websocket" "realtime_minimal"
      ∷ normalized "POST" "/v1/engines/:model/embeddings" "embeddings" "json" "embeddings"
      ∷ minimal "POST" "/v1/video/generations" "video" "json_or_multipart" "generic_task_minimal"
      ∷ minimal "GET" "/v1/video/generations/:task_id" "video" "none" "generic_task_minimal"
      ∷ minimal "GET" "/v1/videos/:task_id" "video" "none" "generic_task_minimal"
      ∷ minimal "GET" "/v1/videos/:task_id/content" "video" "none" "generic_task_minimal"
      ∷ minimal "POST" "/v1/videos/:video_id/remix" "video" "json_or_multipart"
          "generic_task_minimal"
      ∷ minimal "POST" "/kling/v1/videos/text2video" "kling_video" "json" "generic_task_minimal"
      ∷ minimal "POST" "/kling/v1/videos/image2video" "kling_video" "json_or_multipart"
          "generic_task_minimal"
      ∷ minimal "GET" "/kling/v1/videos/text2video/:task_id" "kling_video" "none"
          "generic_task_minimal"
      ∷ minimal "GET" "/kling/v1/videos/image2video/:task_id" "kling_video" "none"
          "generic_task_minimal"
      ∷ minimal "POST" "/jimeng/" "jimeng" "json" "generic_task_minimal"
      ∷ minimal "POST" "/:mode/mj/*" "midjourney" "json" "generic_task_minimal"
      ∷ minimal "POST" "/mj/*" "midjourney" "json" "generic_task_minimal"
      ∷ minimal "POST" "/suno/*" "suno" "json" "generic_task_minimal"
      ∷ minimal "POST" "/v1/videos*" "video" "json_or_multipart" "generic_task_minimal"
      ∷ [];
}
