-- ===== src/Admin/Handlers/Records.antt =====
-- internal/admin/handlers.go: reviews, the context catalog, raw evidence and the traces' references.
use new_api_gateway.Prelude.{
  ℕ, String, Bool, true, false, ◌||◌, not, List, [], ◌∷◌, Option, none, some, ◌==◌, string_eq,
  if◌then◌else◌, any,
}
use new_api_gateway.Text.{◌<>◌, is_empty, trim_space}
use new_api_gateway.Admin.Limits.{Limiter, Counters, allow}
use new_api_gateway.Admin.Permissions.{raw_evidence, allows}
use new_api_gateway.Admin.Repository.{
  Principal, ActionLog, ReviewDecision, ContextEntry, EvidenceObject, Store, Db, Answer, row,
  no_rows, failed, insert_audit_action_log, insert_review_decision, insert_context_catalog_entry,
  find_raw_evidence_object,
}
use new_api_gateway.Admin.Handlers.{
  Services, Reply, reply, error, entry, review_body, context_body, evidence_body,
}

-- A text is one of the list's.
abbrev pub one_of : String → List String → Bool
one_of s names = any (λ n. n == s) names

-- `validReviewTargetType` and `validReviewDecision`
unfoldable pub valid_review_target_type : String → Bool
valid_review_target_type s = one_of s ("trace" ∷ "anomaly" ∷ "coverage_alert" ∷ [])

unfoldable pub valid_review_decision : String → Bool
valid_review_decision s = one_of s (
    "acknowledge" ∷ "dismiss" ∷ "confirm" ∷ "mark_personal_use" ∷ "mark_abuse" ∷ "needs_normalizer"
    ∷ "mark_fixed" ∷ "ignore_for_now" ∷ [])

-- `createReview`
pub record ReviewInput : Type 0 where
  pub target_type : String
  pub target_id : String
  pub decision : String
  pub note : String

-- The answer once the decision is in the table or is not; the entry in the log may fail.
unfoldable pub review_created :
    Services → Db → ℕ → Principal → ReviewDecision → Bool × Store → Reply × Store
review_created x db now p d (false, s) = (error 500, s)
review_created x db now p d (true, s) = (
  reply 201 (review_body d),
  (insert_audit_action_log db now
      (entry p.user_id p.username "review_decision_create" d.target_type d.target_id
        (x.marshal (("decision", d.decision) ∷ [])) now)
      s).1,
)

unfoldable pub review_of : ℕ → Principal → ReviewInput → ReviewDecision
review_of now p i = record {
  target_type = trim_space i.target_type;
  target_id = trim_space i.target_id;
  decision = trim_space i.decision;
  reviewer_id = p.user_id;
  reviewer_username = p.username;
  note = i.note;
  created_at = now;
}

unfoldable pub is_bad_review : ReviewDecision → Bool
is_bad_review d =
    not (valid_review_target_type d.target_type)
    || is_empty d.target_id
    || not (valid_review_decision d.decision)

unfoldable pub create_review :
    Services → Db → ℕ → Option ReviewInput → Principal → Store → Reply × Store
create_review x db now none p s = (error 400, s)
create_review x db now (some i) p s =
    let d = review_of now p i in
    if is_bad_review d
    then (error 400, s)
    else review_created x db now p d (insert_review_decision db d s)

-- `createContextCatalogEntry`: the input has no authors, and `active` may be missing.
pub record ContextInput : Type 0 where
  pub given : ContextEntry
  pub given_active : Option Bool

abbrev pub or_true : Option Bool → Bool
or_true none = true
or_true (some b) = b

unfoldable pub context_of : Principal → ContextInput → ContextEntry
context_of p i = record i.given {
  context_type = trim_space i.given.context_type;
  name = trim_space i.given.name;
  expected_usage_level = trim_space i.given.expected_usage_level;
  active = or_true i.given_active;
  created_by = p.username;
  updated_by = p.username;
}

-- `validContextCatalogEntry`
unfoldable pub valid_context_catalog_entry : ContextEntry → Bool
valid_context_catalog_entry e =
    if one_of e.context_type
      ("repo" ∷ "project" ∷ "product" ∷ "service" ∷ "team" ∷ "keyword_set" ∷ [])
    then (if is_empty e.name
        then false
        else one_of e.expected_usage_level ("" ∷ "low" ∷ "medium" ∷ "high" ∷ []))
    else false

unfoldable pub context_logged : ContextEntry → Bool × Store → Reply × Store
context_logged e (false, s) = (error 500, s)
context_logged e (true, s) = (reply 201 (context_body e), s)

unfoldable pub context_created : Db → ℕ → Principal → ContextEntry → Bool × Store → Reply × Store
context_created db now p e (false, s) = (error 500, s)
context_created db now p e (true, s) = context_logged e (
    insert_audit_action_log db now
      (entry p.user_id p.username "context_catalog_upsert" "context_catalog"
        (e.context_type <> ":" <> e.name) "{\"source\":\"admin_api\"}" now)
      s)

unfoldable pub create_context_catalog_entry :
    Db → ℕ → Option ContextInput → Principal → Store → Reply × Store
create_context_catalog_entry db now none p s = (error 400, s)
create_context_catalog_entry db now (some i) p s =
    let e = context_of p i in
    if valid_context_catalog_entry e
    then context_created db now p e (insert_context_catalog_entry db e s)
    else (error 400, s)

-- `getRawEvidence`: the path's parts and the two names of the query's reference.
pub record EvidenceInput : Type 0 where
  pub trace_id : String
  pub object_type : String
  pub object_ref : String
  pub ref : String

-- The entry on who reads which object.
unfoldable pub access_entry : Services → ℕ → Principal → EvidenceObject → ActionLog
access_entry x now p o =
    let e =
      entry p.user_id p.username "raw_evidence_access" "raw_evidence" o.object_type
        (x.marshal (("object_type", o.object_type) ∷ ("object_ref", o.object_ref) ∷ [])) now in
    record e { trace_id = o.trace_id }

unfoldable pub send_evidence : EvidenceObject → String → Bool × Store → Reply × Store
send_evidence o content (false, s) = (error 500, s)
send_evidence o content (true, s) = (reply 200 (evidence_body o content), s)

unfoldable pub log_evidence :
    Services → Db → ℕ → Principal → EvidenceObject → Store → Option String → Reply × Store
log_evidence x db now p o s none = (error 500, s)
log_evidence x db now p o s (some content) =
    send_evidence o content (insert_audit_action_log db now (access_entry x now p o) s)

unfoldable pub read_evidence :
    Services
    → Db
    → ℕ
    → Principal
    → EvidenceObject
    → Store
    → Option (String → Option String)
    → Reply × Store
read_evidence x db now p o s none = (error 503, s)
read_evidence x db now p o s (some get) = log_evidence x db now p o s (get o.object_ref)

unfoldable pub open_evidence :
    Services → Db → ℕ → Principal → Store → Answer EvidenceObject → Reply × Store
open_evidence x db now p s no_rows = (error 404, s)
open_evidence x db now p s failed = (error 404, s)
open_evidence x db now p s (row o) = read_evidence x db now p o s x.evidence

abbrev pub ref_of : EvidenceInput → String
ref_of i = if is_empty (trim_space i.object_ref) then trim_space i.ref else trim_space i.object_ref

unfoldable pub find_evidence : Services → Db → ℕ → EvidenceInput → Principal → Store → Reply × Store
find_evidence x db now i p s =
    if is_empty (trim_space i.trace_id) || is_empty (trim_space i.object_type)
    then (error 400, s)
    else open_evidence x db now p s (
        find_raw_evidence_object db (trim_space i.trace_id) (trim_space i.object_type) (ref_of i) s)

-- `rawLimiter`: 120 requests of a user in an hour.
abbrev pub raw_limiter : Limiter
raw_limiter = record { limit = 120; window = 3600 }

abbrev pub limited : Counters → Reply × Store → Store → Bool → Reply × Store × Counters
limited counters (r, s') s true = (r, s', counters)
limited counters (r, s') s false = (error 429, s, counters)

unfoldable pub get_raw_evidence :
    Services → Db → ℕ → EvidenceInput → Principal → Store → Counters → Reply × Store × Counters
get_raw_evidence x db now i p s counters =
    let (ok, counters') = allow raw_limiter (p.username <> ":raw_evidence") now counters in
    limited counters' (find_evidence x db now i p s) s ok

-- `getTraceDetail`: the references to the raw evidence of a trace, which only some roles see.
pub record References : Type 0 where
  pub request_raw_ref : String
  pub response_raw_ref : String
  pub request_headers_ref : String
  pub response_headers_ref : String

unfoldable pub shown_references : Option Principal → References → References
shown_references none refs = record {
  request_raw_ref = "";
  response_raw_ref = "";
  request_headers_ref = "";
  response_headers_ref = "";
}
shown_references (some p) refs = if allows p.role raw_evidence then refs else record {
  request_raw_ref = "";
  response_raw_ref = "";
  request_headers_ref = "";
  response_headers_ref = "";
}
