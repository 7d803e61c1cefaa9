-- ===== src/Gateway/Headers/Secrets.antt =====
-- internal/gateway/headers.go: what the evidence does not depend on.
use new_api_gateway.Prelude.{
  String, Bool, true, false, List, [], ◌∷◌, map, ◌≡◌, refl, sym, ap, ◌⊎◌, inl, inr, Bool-cases,
  arith,
}
use new_api_gateway.Text.{split, join, lower_eq, trim_space, has_prefix}
use new_api_gateway.Gateway.Headers.{
  is_sensitive, is_protocol, is_marked, redact_parts, sanitize_header_value, Headers, add_values,
  header_evidence_key, add_headers, header_evidence,
}

-- A part that begins with the mark of a key, behind spaces.
abbrev pub Marked : String → Type 0
Marked part = has_prefix "openai-insecure-api-key." (trim_space part) ≡ true

-- Parts of a protocol header that differ at most in what stands behind the mark of a key.
abbrev pub SamePart : String → String → Type 0
SamePart p p' = (Marked p × Marked p') ⊎ (p ≡ p')

abbrev pub SameParts : List String → List String → Type 0
SameParts [] [] = Unit
SameParts (p ∷ ps) (p' ∷ ps') = SamePart p p' × SameParts ps ps'
SameParts [] (p' ∷ ps') = ⊥
SameParts (p ∷ ps) [] = ⊥

-- A name as Go writes it, up to case and the spaces around it.
abbrev pub Named : String → String → Type 0
Named key name = lower_eq (trim_space key) name ≡ true

-- The names of the headers whose values are secret.
pub data Secret (key : String) : Type 0 where
  bearer_authorization : Named key "authorization" → Secret key
  proxy_authorization : Named key "proxy-authorization" → Secret key
  api_key : Named key "x-api-key" → Secret key
  goog_api_key : Named key "x-goog-api-key" → Secret key
  mj_api_secret : Named key "mj-api-secret" → Secret key
  anthropic_api_key : Named key "anthropic-api-key" → Secret key
  anthropic_auth_token : Named key "anthropic-auth-token" → Secret key
  openai_organization : Named key "openai-organization" → Secret key

Secret-is_sensitive : (key : String) → Secret key → is_sensitive key ≡ true
unfolding is_sensitive
Secret-is_sensitive key (bearer_authorization h) = ground arith
Secret-is_sensitive key (proxy_authorization h) = ground arith
Secret-is_sensitive key (api_key h) = ground arith
Secret-is_sensitive key (goog_api_key h) = ground arith
Secret-is_sensitive key (mj_api_secret h) = ground arith
Secret-is_sensitive key (anthropic_api_key h) = ground arith
Secret-is_sensitive key (anthropic_auth_token h) = ground arith
Secret-is_sensitive key (openai_organization h) = ground arith

-- Values that differ at most in secrets.
abbrev pub SameValue : String → String → String → Type 0
SameValue key v v' =
    Secret key
    ⊎ (Named key "sec-websocket-protocol" × SameParts (split b',' v) (split b',' v'))
    ⊎ (v ≡ v')

abbrev pub SameValues : String → List String → List String → Type 0
SameValues key [] [] = Unit
SameValues key (v ∷ vs) (v' ∷ vs') = SameValue key v v' × SameValues key vs vs'
SameValues key [] (v' ∷ vs') = ⊥
SameValues key (v ∷ vs) [] = ⊥

abbrev pub SameHeaders : Headers → Headers → Type 0
SameHeaders [] [] = Unit
SameHeaders ((k, vs) ∷ h) ((k', vs') ∷ h') = (k ≡ k') × SameValues k vs vs' × SameHeaders h h'
SameHeaders [] (x ∷ h') = ⊥
SameHeaders (x ∷ h) [] = ⊥

redact_parts-same :
    (first : Bool) (ps ps' : List String)
    → SameParts ps ps'
    → redact_parts first ps ≡ redact_parts first ps'
unfolding redact_parts is_marked
redact_parts-same first [] [] s = refl
redact_parts-same first [] (p' ∷ ps') s = absurd s
redact_parts-same first (p ∷ ps) [] s = absurd s
redact_parts-same first (p ∷ ps) (p' ∷ ps') (inl (m, m'), s) =
    rw (m, m', redact_parts-same false ps ps' s) refl
redact_parts-same first (p ∷ ps) (p' ∷ ps') (inr e, s) =
    rw (e, redact_parts-same false ps ps' s) refl

sanitize_header_value-same :
    (key v v' : String)
    → SameValue key v v'
    → sanitize_header_value key v ≡ sanitize_header_value key v'
unfolding sanitize_header_value is_protocol
sanitize_header_value-same key v v' (inl secret) = rw (Secret-is_sensitive key secret) refl
sanitize_header_value-same key v v' (inr (inl (protocol, s))) =
    elim (Bool-cases (is_sensitive key)) [
      | inl sensitive ↦ rw sensitive refl
      | inr other ↦
          rw (other, protocol)
            (ap (join ",") (redact_parts-same true (split b',' v) (split b',' v') s))
    ]
sanitize_header_value-same key v v' (inr (inr e)) = rw e refl

map-same :
    (key : String) (vs vs' : List String)
    → SameValues key vs vs'
    → map (sanitize_header_value key) vs ≡ map (sanitize_header_value key) vs'
map-same key [] [] s = refl
map-same key [] (v' ∷ vs') s = absurd s
map-same key (v ∷ vs) [] s = absurd s
map-same key (v ∷ vs) (v' ∷ vs') (h, s) =
    rw (sanitize_header_value-same key v v' h, map-same key vs vs' s) refl

module _ (canonical : String → String) where
  add_headers-same :
      (h h' snapshot : Headers)
      → SameHeaders h h'
      → add_headers canonical h snapshot ≡ add_headers canonical h' snapshot
  unfolding add_headers
  add_headers-same [] [] snapshot s = refl
  add_headers-same [] (x ∷ h') snapshot s = absurd s
  add_headers-same (x ∷ h) [] snapshot s = absurd s
  add_headers-same ((k, vs) ∷ h) ((k', vs') ∷ h') snapshot (e, vals, s) =
      rw (sym e, map-same k vs vs' vals)
        (add_headers-same h h'
          (add_values (header_evidence_key canonical k) (map (sanitize_header_value k) vs')
            snapshot)
          s)

  -- The evidence of the headers does not depend on the keys in them: headers that differ at most in the
  -- values under the eight names of `Secret`, in any case, and in what stands behind the mark of a key in
  -- the parts of a websocket protocol header, leave the same evidence.
  pub header_evidence-same :
      (h h' : Headers)
      → SameHeaders h h'
      → header_evidence canonical h ≡ header_evidence canonical h'
  unfolding header_evidence
  header_evidence-same h h' s = add_headers-same h h' [] s
