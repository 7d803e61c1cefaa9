-- ===== src/Admin/Handlers/Routing.antt =====
-- internal/admin/handlers.go: the guards of every route, and a request from its guards to its handler.
use new_api_gateway.Prelude.{
  ℕ, String, Bool, true, false, Option, none, some, if◌then◌else◌, ◌⊎◌, inl, inr,
}
use new_api_gateway.Admin.Limits.{Counters}
use new_api_gateway.Admin.Permissions.{
  Permission, view_aggregates, view_normalized_traces, review, raw_evidence, api_key_lookup,
  manage_users,
}
use new_api_gateway.Admin.Auth.{Verdict, status, pass, require, middleware, require_csrf}
use new_api_gateway.Admin.Repository.{Principal, Store, Db, principal_by_session, see_session_row}
use new_api_gateway.Admin.Handlers.{
  Services, Reply, reply, error, data_body, login, logout, PasswordInput, change_password,
}
use new_api_gateway.Admin.Repository.Lookup.{LookupAnswers}
use new_api_gateway.Admin.Handlers.Lookup.{create_api_key_lookup}
use new_api_gateway.Admin.Handlers.Records.{
  ReviewInput, ContextInput, EvidenceInput, create_review, create_context_catalog_entry,
  get_raw_evidence,
}

-- The routes of the admin interface: the ones whose handlers only read, and the others.
pub data Read : Type 0 where
  get_me get_overview get_runtime get_runtime_history get_runtime_consumers get_usage : Read
  get_usage_employees get_trace get_contexts get_audit_logs get_traces get_anomalies : Read
  get_coverage_alerts get_token_identities get_reviews get_settings : Read

pub data Route : Type 0 where
  post_login post_logout post_password post_context post_review post_key_lookup : Route
  get_evidence : Route
  reading : Read → Route

-- What stands before a route's handler, from the outside in.
pub data Guards : Type 0 where
  open_route : Guards
  session_route : Bool → Option Permission → Guards

-- `routes`: the Boolean says whether the route has the CSRF guard.
unfoldable pub guards_of : Route → Guards
guards_of post_login = open_route
guards_of (reading get_me) = session_route false none
guards_of post_password = session_route true none
guards_of (reading get_overview) = session_route false (some view_aggregates)
guards_of (reading get_runtime) = session_route false (some view_aggregates)
guards_of (reading get_runtime_history) = session_route false (some view_aggregates)
guards_of (reading get_runtime_consumers) = session_route false (some view_aggregates)
guards_of (reading get_usage) = session_route false (some view_aggregates)
guards_of (reading get_usage_employees) = session_route false (some view_aggregates)
guards_of (reading get_trace) = session_route false (some view_normalized_traces)
guards_of (reading get_contexts) = session_route false (some view_aggregates)
guards_of post_context = session_route true (some review)
guards_of (reading get_audit_logs) = session_route false (some manage_users)
guards_of post_logout = open_route
guards_of (reading get_traces) = session_route false (some view_normalized_traces)
guards_of (reading get_anomalies) = session_route false (some view_aggregates)
guards_of (reading get_coverage_alerts) = session_route false (some view_aggregates)
guards_of post_review = session_route true (some review)
guards_of post_key_lookup = session_route true (some api_key_lookup)
guards_of get_evidence = session_route false (some raw_evidence)
guards_of (reading get_token_identities) = session_route false (some view_aggregates)
guards_of (reading get_reviews) = session_route false (some review)
guards_of (reading get_settings) = session_route false (some manage_users)

abbrev pub method_of : Route → String
method_of post_login = "POST"
method_of post_logout = "POST"
method_of post_password = "POST"
method_of post_context = "POST"
method_of post_review = "POST"
method_of post_key_lookup = "POST"
method_of _ = "GET"

-- A request to one of the routes, with its decoded body; a login comes with what the random generator gives,
-- a lookup with what the database answers, and a handler that only reads with what it makes of the database's
-- answers: an error's code or a document.
pub data Action : Type 0 where
  logging_in : Option (String × String) → Option String → Option String → Action
  logging_out : Action
  password_change : Option PasswordInput → Action
  context_creation : Option ContextInput → Action
  review_creation : Option ReviewInput → Action
  key_lookup : Option String → LookupAnswers → Action
  evidence_reading : EvidenceInput → Action
  data_reading : Read → ℕ ⊎ String → Action

unfoldable pub route_of : Action → Route
route_of (logging_in i session_id token) = post_login
route_of logging_out = post_logout
route_of (password_change i) = post_password
route_of (context_creation i) = post_context
route_of (review_creation i) = post_review
route_of (key_lookup i answers) = post_key_lookup
route_of (evidence_reading i) = get_evidence
route_of (data_reading r data_) = reading r

-- A request with its cookies and its CSRF header, at a time.
pub record Request : Type 0 where
  pub action : Action
  pub session_cookie : Option String
  pub csrf_cookie : Option String
  pub csrf_header : String
  pub now : ℕ

-- The tables, and the counters of `rawLimiter` and `lookupLimiter`.
pub record Panel : Type 0 where
  pub store : Store
  pub raw_counters : Counters
  pub lookup_counters : Counters

-- The handlers, behind their guards.
abbrev pub on_store : Panel → Reply × Store → Reply × Panel
on_store t (r, s) = (r, record t { store = s })

abbrev pub on_evidence : Panel → Reply × Store × Counters → Reply × Panel
on_evidence t (r, s, counters) = (r, record t { store = s; raw_counters = counters })

abbrev pub on_lookup : Panel → Reply × Store × Counters → Reply × Panel
on_lookup t (r, s, counters) = (r, record t { store = s; lookup_counters = counters })

abbrev pub data_reply : ℕ ⊎ String → Reply
data_reply (inl code) = error code
data_reply (inr document) = reply 200 (data_body document)

unfoldable pub perform :
    Services → Db → ℕ → Option String → Option Principal → Action → Panel → Reply × Panel
perform x db now cookie p (logging_in i session_id token) t =
    on_store t (login x db now i session_id token t.store)
perform x db now cookie p logging_out t = on_store t (logout x db now cookie t.store)
perform x db now cookie p (password_change i) t = on_store t (change_password x db now i p t.store)
perform x db now cookie none _ t = (error 401, t)
perform x db now cookie (some p) (context_creation i) t =
    on_store t (create_context_catalog_entry db now i p t.store)
perform x db now cookie (some p) (review_creation i) t =
    on_store t (create_review x db now i p t.store)
perform x db now cookie (some p) (key_lookup i answers) t =
    on_lookup t (create_api_key_lookup x db now i answers p t.store t.lookup_counters)
perform x db now cookie (some p) (evidence_reading i) t =
    on_evidence t (get_raw_evidence x db now i p t.store t.raw_counters)
perform x db now cookie (some p) (data_reading r data_) t = (data_reply data_, t)

-- The CSRF guard comes before the permission.
abbrev pub require_some : Option Permission → Principal → Verdict
require_some none p = pass
require_some (some permission) p = require permission (some p.role)

abbrev pub and_then : Verdict → Verdict → Verdict
and_then (status n) v = status n
and_then pass v = v

unfoldable pub verdict_of : Bool → Option Permission → Request → Principal → Verdict
verdict_of csrf permission q p =
    and_then
      (if csrf
        then require_csrf (method_of (route_of q.action)) (some p.csrf_token) q.csrf_cookie
            q.csrf_header
        else pass)
      (require_some permission p)

unfoldable pub decide : Services → Db → Request → Principal → Panel → Verdict → Reply × Panel
decide x db q p t (status n) = (error n, t)
decide x db q p t pass = perform x db q.now q.session_cookie (some p) q.action t

-- `Middleware`, and the guards inside it.
unfoldable pub behind_session :
    Services
    → Db
    → Request
    → Bool
    → Option Permission
    → Panel
    → Option (Principal × String)
    → Reply × Panel
behind_session x db q csrf permission t none = (error 401, t)
behind_session x db q csrf permission t (some (p, session_id)) =
    decide x db q p (record t { store = see_session_row db session_id q.now t.store })
      (verdict_of csrf permission q p)

unfoldable pub authenticate :
    Services → Db → ℕ → Option String → Store → Option (Principal × String)
authenticate x db now cookie s =
    middleware x.codec (λ session_id. principal_by_session db now s session_id) cookie

unfoldable pub behind : Services → Db → Request → Panel → Guards → Reply × Panel
behind x db q t open_route = perform x db q.now q.session_cookie none q.action t
behind x db q t (session_route csrf permission) =
    behind_session x db q csrf permission t (authenticate x db q.now q.session_cookie t.store)

unfoldable pub serve : Services → Db → Request → Panel → Reply × Panel
serve x db q t = behind x db q t (guards_of (route_of q.action))

-- What the panel may become, by requests whose statements may fail, in any order.
pub data Reach (x : Services) (t : Panel) : Panel → Type 0 where
  unmoved : Reach x t t
  served : {t' : Panel} (db : Db) (q : Request) → Reach x t t' → Reach x t (serve x db q t').1
