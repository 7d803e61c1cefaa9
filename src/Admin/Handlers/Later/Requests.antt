-- ===== src/Admin/Handlers/Later/Requests.antt =====
-- internal/admin/handlers.go: what no request undoes, and no sequence of requests.
use new_api_gateway.Prelude.{ℕ, String, Bool, List, ◌++◌, Option, none, some, ◌≡◌}
use new_api_gateway.Admin.Auth.{Verdict, status, pass}
use new_api_gateway.Admin.Permissions.{Permission}
use new_api_gateway.Admin.Repository.{ActionLog, Principal, Db, see_session_row}
use new_api_gateway.Admin.Repository.Later.{Later, Later-refl, Later-trans, see_session_row-Later}
use new_api_gateway.Admin.Handlers.{Services}
use new_api_gateway.Admin.Handlers.Routing.{
  Guards, open_route, session_route, guards_of, route_of, Action, logging_in, logging_out,
  password_change, context_creation, review_creation, key_lookup, evidence_reading, data_reading,
  Request, Panel, perform, verdict_of, decide, behind_session, behind, serve, Reach, unmoved,
  served,
}
use new_api_gateway.Admin.Handlers.Later.{login-Later, logout-Later, change_password-Later}
use new_api_gateway.Admin.Handlers.Later.Records.{
  create_review-Later, create_context_catalog_entry-Later, get_raw_evidence-Later,
  create_api_key_lookup-Later,
}

-- A panel whose tables may be another's later.
abbrev pub After : Panel → Panel → Type 0
After t t' = Later t.store t'.store

module _ (x : Services) (db : Db) where
  perform-Later :
      (now : ℕ) (cookie : Option String) (p : Option Principal) (a : Action) (t : Panel)
      → After t (perform x db now cookie p a t).1
  unfolding perform
  perform-Later now cookie p (logging_in i sid token) t = login-Later x db now i sid token t.store
  perform-Later now cookie p logging_out t = logout-Later x db now cookie t.store
  perform-Later now cookie p (password_change i) t = change_password-Later x db now i p t.store
  perform-Later now cookie none (context_creation i) t = Later-refl t.store
  perform-Later now cookie none (review_creation i) t = Later-refl t.store
  perform-Later now cookie none (key_lookup i answers) t = Later-refl t.store
  perform-Later now cookie none (evidence_reading i) t = Later-refl t.store
  perform-Later now cookie none (data_reading r data_) t = Later-refl t.store
  perform-Later now cookie (some p) (key_lookup i answers) t =
      create_api_key_lookup-Later x db now i answers p t.store t.lookup_counters
  perform-Later now cookie (some p) (data_reading r data_) t = Later-refl t.store
  perform-Later now cookie (some p) (context_creation i) t =
      create_context_catalog_entry-Later x db now i p t.store
  perform-Later now cookie (some p) (review_creation i) t = create_review-Later x db now i p t.store
  perform-Later now cookie (some p) (evidence_reading i) t =
      get_raw_evidence-Later x db now i p t.store t.raw_counters

  decide-Later :
      (q : Request) (p : Principal) (t : Panel) (v : Verdict) → After t (decide x db q p t v).1
  unfolding decide
  decide-Later q p t (status n) = Later-refl t.store
  decide-Later q p t pass = perform-Later q.now q.session_cookie (some p) q.action t

  behind_session-Later :
      (q : Request) (csrf : Bool) (permission : Option Permission) (t : Panel)
      (o : Option (Principal × String))
      → After t (behind_session x db q csrf permission t o).1
  unfolding behind_session
  behind_session-Later q csrf permission t none = Later-refl t.store
  behind_session-Later q csrf permission t (some (p, sid)) =
      Later-trans t.store (see_session_row db sid q.now t.store) _
        (see_session_row-Later db sid q.now t.store)
        (decide-Later q p (record t { store = see_session_row db sid q.now t.store })
          (verdict_of csrf permission q p))

  behind-Later : (q : Request) (t : Panel) (g : Guards) → After t (behind x db q t g).1
  unfolding behind
  behind-Later q t open_route = perform-Later q.now q.session_cookie none q.action t
  behind-Later q t (session_route csrf permission) = behind_session-Later q csrf permission t _

  pub serve-Later : (q : Request) (t : Panel) → After t (serve x db q t).1
  unfolding serve
  serve-Later q t = behind-Later q t (guards_of (route_of q.action))

pub Reach-Later : (x : Services) (t t' : Panel) → Reach x t t' → After t t'
Reach-Later x t _ unmoved = Later-refl t.store
Reach-Later x t _ (served {t' = t'} db q r) =
    Later-trans t.store t'.store (serve x db q t').1.store (Reach-Later x t t' r)
      (serve-Later x db q t')

-- The log of actions only grows: whatever requests come to whichever of the routes, and whichever statements
-- fail, no entry is changed, moved or removed.
pub Reach-logs :
    (x : Services) (t t' : Panel)
    → Reach x t t'
    → (new : List ActionLog) × (t'.store.logs ≡ t.store.logs ++ new)
Reach-logs x t t' r = let l = Reach-Later x t t' r in (l.new_logs, l.grown)
