-- ===== src/Gateway/Headers.antt =====
-- internal/gateway/headers.go: the evidence of a request's and a response's headers.
mod Secrets
mod Tests
use new_api_gateway.Prelude.{
  String, Bool, true, false, List, [], ◌∷◌, ◌++◌, map, ◌==◌, string_eq, if◌then◌else◌, any,
}
use new_api_gateway.Text.{has_prefix, trim_space, split, join, equal_fold, lower_eq}

-- `sensitiveHeaderNames`
abbrev pub sensitive_header_names : List String
sensitive_header_names =
    "authorization" ∷ "x-api-key" ∷ "x-goog-api-key" ∷ "mj-api-secret" ∷ "proxy-authorization"
    ∷ "openai-organization" ∷ "anthropic-api-key" ∷ "anthropic-auth-token" ∷ []

unfoldable pub is_sensitive : String → Bool
is_sensitive key = any (λ name. lower_eq (trim_space key) name) sensitive_header_names

unfoldable pub is_protocol : String → Bool
is_protocol key = lower_eq (trim_space key) "sec-websocket-protocol"

-- A part of `Sec-WebSocket-Protocol` that carries a key.
unfoldable pub is_marked : String → Bool
is_marked part = has_prefix "openai-insecure-api-key." (trim_space part)

-- The parts without their keys; the Boolean says that the next part is the first one.
unfoldable pub redact_parts : Bool → List String → List String
redact_parts first [] = []
redact_parts first (part ∷ parts) =
    let rest = redact_parts false parts in
    (if is_marked part
      then (if first
          then "openai-insecure-api-key.[REDACTED]"
          else " openai-insecure-api-key.[REDACTED]")
      else part)
    ∷ rest

-- `sanitizeHeaderValue`
unfoldable pub sanitize_header_value : String → String → String
sanitize_header_value key value =
    if is_sensitive key
    then "[REDACTED]"
    else if is_protocol key
    then join "," (redact_parts true (split b',' value))
    else value

-- The values under a key, or their addition to the ones that are there: `snapshot` is a map.
abbrev pub Headers : Type 0
Headers = List (String × List String)

unfoldable pub add_values : String → List String → Headers → Headers
add_values key values [] = (key, values) ∷ []
add_values key values ((k, vs) ∷ snapshot) =
    let rest = add_values key values snapshot in
    if k == key then (k, vs ++ values) ∷ snapshot else (k, vs) ∷ rest

-- `http.CanonicalHeaderKey` is a parameter.
module _ (canonical : String → String) where
  -- `headerEvidenceKey`
  unfoldable pub header_evidence_key : String → String
  header_evidence_key key =
      if equal_fold (canonical key) "Sec-Websocket-Protocol"
      then "Sec-WebSocket-Protocol"
      else canonical key

  unfoldable pub add_headers : Headers → Headers → Headers
  add_headers [] snapshot = snapshot
  add_headers ((key, values) ∷ header) snapshot =
      add_headers header
        (add_values (header_evidence_key key) (map (sanitize_header_value key) values) snapshot)

  -- `headerEvidenceJSON` without the encoding; the header is listed by its keys, as they are sorted.
  unfoldable pub header_evidence : Headers → Headers
  header_evidence header = add_headers header []
