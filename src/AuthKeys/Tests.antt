-- ===== src/AuthKeys/Tests.antt =====
-- Tests of key extraction, and its theorems at concrete requests.
use new_api_gateway.Prelude.{String, none, some, ◌≡◌, refl, ◌==◌, string_eq, if◌then◌else◌}
use new_api_gateway.Text.{
  trim_space, before, trim_prefix, cut_prefix_lower, fields, split, equal_fold,
}
use new_api_gateway.AuthKeys.{
  Request, realtime, anthropic, extract, canonicalize, authorization_bearer_key, canonical_key,
  bearer_key, part_or, realtime_key, after_bearer,
}
use new_api_gateway.AuthKeys.Canonical.{extract-IsKey, IsKey}

abbrev request : String → String → Request
request name value = record {
  header = λ asked. if asked == name then value else "";
  query = λ asked. "";
}

canonicalize_cases :
    (canonicalize " Bearer sk-abc-7 " ≡ "abc")
    × (canonicalize "a b" ≡ "a b")
    × (canonicalize "-x" ≡ "")
unfolding canonicalize after_bearer trim_space before trim_prefix cut_prefix_lower
canonicalize_cases = (refl, refl, refl)

sources :
    (extract (request "x-api-key" "sk-abc") ≡ some ("abc", anthropic))
    × (extract (request "Sec-WebSocket-Protocol" "realtime, openai-insecure-api-key.sk-abc")
        ≡ some ("abc", realtime))
    × (extract (request "Authorization" "Basic abc") ≡ none)
unfolding extract authorization_bearer_key canonical_key bearer_key part_or realtime_key
    canonicalize after_bearer trim_space before trim_prefix cut_prefix_lower fields split equal_fold
sources = (refl, refl, refl)

extract-IsKey_example : IsKey "abc"
unfolding extract authorization_bearer_key canonical_key bearer_key part_or realtime_key
    canonicalize after_bearer trim_space before trim_prefix cut_prefix_lower fields split equal_fold
extract-IsKey_example =
    extract-IsKey (request "x-api-key" "sk-abc") {key = "abc"} {source = anthropic} refl
