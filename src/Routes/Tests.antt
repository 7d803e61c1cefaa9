-- ===== src/Routes/Tests.antt =====
-- Tests of route matching, and the theorems of the routes at concrete requests.
use new_api_gateway.Prelude.{true, false, [], none, some, ◌≡◌, ◌≢◌, refl, ◌↔◌, All}
use new_api_gateway.Text.{has_suffix}
use new_api_gateway.Routes.{
  Entry, match, match_path, match_segment_path, split_path, raw_and_normalized,
}
use new_api_gateway.Routes.Default.{default_registry}
use new_api_gateway.Routes.Segments.{match_segment_path_iff, Fits}
use new_api_gateway.Routes.First.{match-IsFirst, match-none_iff, serves, IsFirst}

abbrev chat : Entry
chat = record {
  method = "POST";
  path_pattern = "/v1/chat/completions";
  protocol_family = "openai_chat";
  body_kind = "json";
  capture_mode = raw_and_normalized;
  normalizer = "openai_chat";
  minimal_extractor = "";
  unsupported_alert_code = "";
}

match-chat : match default_registry "POST" "/v1/chat/completions" ≡ some chat
unfolding match default_registry
match-chat = refl

match_family :
    (match default_registry "POST" "/v1/chat/completions/" ≡ none)
    × (match default_registry "GET" "/v1/chat/completions" ≡ none)
unfolding match default_registry
match_family = (refl, refl)

path_tests :
    (match_path "/v1/videos*" "/v1/videos" ≡ true)
    × (match_path "/v1/videos*" "/v1/videos/a" ≡ true)
    × (match_path "/v1/videos*" "/v1/videosx" ≡ false)
    × (match_path "/mj/*" "/mj" ≡ false)
    × (match_path "/mj/*" "/mj/submit/imagine" ≡ true)
    × (match_path "/mj/*" "/mj//imagine" ≡ false)
    × (match_path "/:mode/mj/*" "/fast/mj/task" ≡ true)
    × (match_path "/v1/videos/:task_id" "/v1/videos/" ≡ false)
unfolding match_path
path_tests = (refl, refl, refl, refl, refl, refl, refl, refl)

match_segment_path_iff_example : (match_segment_path "/mj/*" "/mj/a" ≡ true) ↔ (
    (has_suffix "/" "/mj/*" ≡ has_suffix "/" "/mj/a")
    × (split_path "/mj/*" ≢ [])
    × Fits (split_path "/mj/*") (split_path "/mj/a"))
match_segment_path_iff_example = match_segment_path_iff "/mj/*" "/mj/a"

match-IsFirst_example : IsFirst "POST" "/v1/chat/completions" default_registry.entries chat
match-IsFirst_example = match-IsFirst default_registry "POST" "/v1/chat/completions" match-chat

match-none_iff_example :
    (match default_registry "POST" "/nowhere" ≡ none)
    ↔ All (λ x. serves "POST" "/nowhere" x ≡ false) default_registry.entries
match-none_iff_example = match-none_iff default_registry "POST" "/nowhere"
