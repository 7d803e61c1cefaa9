-- ===== src/Admin/Handlers/Needs.antt =====
-- internal/admin/handlers.go: what each request has to show, and that its guards ask for it.
use new_api_gateway.Prelude.{Bool, true, false, Option, none, some, ◌≡◌, refl}
use new_api_gateway.Admin.Permissions.{
  Permission, view_aggregates, view_normalized_traces, review, raw_evidence, api_key_lookup,
  manage_users,
}
use new_api_gateway.Admin.Handlers.Routing.{
  session_route, guards_of, route_of, Action, logging_in, logging_out, password_change,
  context_creation, review_creation, key_lookup, evidence_reading, data_reading, Read, get_me,
  get_overview, get_runtime, get_runtime_history, get_runtime_consumers, get_usage,
  get_usage_employees, get_trace, get_contexts, get_audit_logs, get_traces, get_anomalies,
  get_coverage_alerts, get_token_identities, get_reviews, get_settings, reading,
}

-- What a request has to show: none of it to sign in or out; the session's CSRF token with each other POST;
-- and a permission, of which one's own account and password ask for none.
abbrev pub is_open : Action → Bool
is_open (logging_in i sid token) = true
is_open logging_out = true
is_open _ = false

abbrev pub needs_token : Action → Bool
needs_token (evidence_reading i) = false
needs_token (data_reading r data_) = false
needs_token _ = true

abbrev pub read_permission : Read → Option Permission
read_permission get_me = none
read_permission get_trace = some view_normalized_traces
read_permission get_traces = some view_normalized_traces
read_permission get_reviews = some review
read_permission get_audit_logs = some manage_users
read_permission get_settings = some manage_users
read_permission _ = some view_aggregates

abbrev pub needed_permission : Action → Option Permission
needed_permission (context_creation i) = some review
needed_permission (review_creation i) = some review
needed_permission (key_lookup i answers) = some api_key_lookup
needed_permission (evidence_reading i) = some raw_evidence
needed_permission (data_reading r data_) = read_permission r
needed_permission _ = none

pub read-guards : (r : Read) → guards_of (reading r) ≡ session_route false (read_permission r)
unfolding guards_of
read-guards get_me = refl
read-guards get_overview = refl
read-guards get_runtime = refl
read-guards get_runtime_history = refl
read-guards get_runtime_consumers = refl
read-guards get_usage = refl
read-guards get_usage_employees = refl
read-guards get_trace = refl
read-guards get_contexts = refl
read-guards get_audit_logs = refl
read-guards get_traces = refl
read-guards get_anomalies = refl
read-guards get_coverage_alerts = refl
read-guards get_token_identities = refl
read-guards get_reviews = refl
read-guards get_settings = refl

pub route_of-guards :
    (a : Action)
    → is_open a ≡ false
    → guards_of (route_of a) ≡ session_route (needs_token a) (needed_permission a)
unfolding guards_of route_of
route_of-guards (logging_in i sid token) h = absurd (cc)
route_of-guards logging_out h = absurd (cc)
route_of-guards (password_change i) h = refl
route_of-guards (context_creation i) h = refl
route_of-guards (review_creation i) h = refl
route_of-guards (key_lookup i answers) h = refl
route_of-guards (evidence_reading i) h = refl
route_of-guards (data_reading r data_) h = read-guards r
