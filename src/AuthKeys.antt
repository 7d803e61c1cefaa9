-- ===== src/AuthKeys.antt =====
-- internal/authkeys/extractor.go: the API key of a request, from its headers and its query.
pub mod Canonical
pub mod Bearer
mod Tests
use new_api_gateway.Prelude.{
  ℕ, String, Bool, true, false, List, [], ◌∷◌, Option, none, some, if◌then◌else◌,
}
use new_api_gateway.Text.{
  is_empty, trim_space, trim_prefix, cut_prefix, cut_prefix_lower, before, fields, split,
  equal_fold,
}

-- `Source`
pub data Source : Type 0 where
  authorization anthropic gemini_query gemini_header midjourney realtime : Source

-- What the code reads of a request: `req.Header.Get` and `req.URL.Query().Get`, which are empty
-- where there is no such header or parameter.
pub record Request : Type 0 where
  pub header : String → String
  pub query : String → String

-- `value[7:]`, trimmed, behind "bearer " in any case.
unfoldable pub after_bearer : String → String
after_bearer value = elim (cut_prefix_lower "bearer " value) [
  | none ↦ value
  | some rest ↦ trim_space rest
]

unfoldable pub canonicalize : String → String
canonicalize value = trim_space (before b'-' (trim_prefix "sk-" (after_bearer (trim_space value))))

-- `Canonicalize`: a key, unless it is empty.
unfoldable pub canonical_key : String → Option String
canonical_key value = let key = canonicalize value in if is_empty key then none else some key

-- The two parts of an authorization header, the scheme and the key.
unfoldable pub bearer_key : List String → Option String
bearer_key (scheme ∷ key ∷ []) = if equal_fold scheme "Bearer" then canonical_key key else none
bearer_key _ = none

unfoldable pub authorization_bearer_key : String → Option String
authorization_bearer_key value = bearer_key (fields (trim_space value))

-- The key of a part without its prefix, or that of the later parts.
unfoldable pub part_or : Option String → Option String → Option String
part_or none later = later
part_or (some rest) later = elim (canonical_key rest) [ none ↦ later | some key ↦ some key ]

-- The loop over the parts of `Sec-WebSocket-Protocol`.
unfoldable pub realtime_key : List String → Option String
realtime_key [] = none
realtime_key (part ∷ parts) =
    part_or (cut_prefix "openai-insecure-api-key." (trim_space part)) (realtime_key parts)

-- An attempt at one source, and what is tried after it.
abbrev pub try_source : Source → Option String → Option (String × Source) → Option (String × Source)
try_source source none next = next
try_source source (some key) next = some (key, source)

unfoldable pub extract : Request → Option (String × Source)
extract r =
    let value = r.header "Sec-WebSocket-Protocol" in
    try_source authorization (authorization_bearer_key (r.header "Authorization")) (
      try_source anthropic (canonical_key (r.header "x-api-key")) (
        try_source gemini_query (canonical_key (r.query "key")) (
          try_source gemini_header (canonical_key (r.header "x-goog-api-key")) (
            try_source midjourney (canonical_key (r.header "mj-api-secret")) (
              if is_empty value
              then none
              else try_source realtime (realtime_key (split b',' value)) none)))))
