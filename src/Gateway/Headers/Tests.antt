-- ===== src/Gateway/Headers/Tests.antt =====
-- Tests of the evidence of headers, and its theorem at two requests.
use new_api_gateway.Prelude.{String, [], ◌∷◌, ◌≡◌, refl, inl, inr, string_eq}
use new_api_gateway.Text.{
  lower_eq, trim_space, trim, trim_left, trim_right, is_space, split, join, has_prefix, cut_prefix,
  equal_fold,
}
use new_api_gateway.Gateway.Headers.{
  Headers, is_sensitive, is_protocol, is_marked, redact_parts, sanitize_header_value, add_values,
  header_evidence_key, add_headers, header_evidence,
}
use new_api_gateway.Gateway.Headers.Secrets.{bearer_authorization, header_evidence-same}

abbrev headers_of : String → String → Headers
headers_of authorization protocol =
    ("Authorization", authorization ∷ []) ∷ ("Sec-Websocket-Protocol", protocol ∷ []) ∷ []

evidence_test :
    header_evidence (λ k. k) (headers_of "Bearer sk-1" "realtime, openai-insecure-api-key.sk-1")
    ≡ ("Authorization", "[REDACTED]" ∷ [])
      ∷ ("Sec-WebSocket-Protocol", "realtime, openai-insecure-api-key.[REDACTED]" ∷ [])
      ∷ []
unfolding header_evidence add_headers add_values header_evidence_key sanitize_header_value
    redact_parts is_sensitive is_protocol is_marked lower_eq equal_fold trim_space trim trim_left
    trim_right is_space split join has_prefix cut_prefix
evidence_test = refl

-- The value of a cookie is kept as it is.
cookie_test :
    header_evidence (λ k. k) (("Cookie", "session=1" ∷ []) ∷ []) ≡ ("Cookie", "session=1" ∷ []) ∷ []
unfolding header_evidence add_headers add_values header_evidence_key sanitize_header_value
    is_sensitive is_protocol lower_eq equal_fold trim_space trim trim_left trim_right is_space
cookie_test = refl

header_evidence-same_example :
    header_evidence (λ k. k) (headers_of "Bearer sk-1" "realtime, openai-insecure-api-key.sk-1")
    ≡ header_evidence (λ k. k) (headers_of "Bearer sk-2" "realtime, openai-insecure-api-key.sk-2")
unfolding is_sensitive is_protocol is_marked lower_eq trim_space trim trim_left trim_right is_space
    split has_prefix cut_prefix
header_evidence-same_example =
    header_evidence-same (λ k. k)
      (headers_of "Bearer sk-1" "realtime, openai-insecure-api-key.sk-1")
      (headers_of "Bearer sk-2" "realtime, openai-insecure-api-key.sk-2")
      (
        refl,
        (inl (bearer_authorization refl), tt),
        (refl, (inr (inl (refl, (inr refl, (inl (refl, refl), tt)))), tt), tt),
      )
