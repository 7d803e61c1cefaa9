-- ===== src/Admin/Handlers/Authorized.antt =====
-- internal/admin/handlers.go: who may change the tables.
use new_api_gateway.Prelude.{
  ℕ, String, Bool, true, false, Option, none, some, ◌≡◌, refl, ◌⊎◌, inl, inr, if◌then◌else◌,
  Bool-cases, Option-cases,
}
use new_api_gateway.Admin.Permissions.{Role, Permission, allows}
use new_api_gateway.Admin.Auth.{Verdict, status, pass, require, require_csrf, is_safe_method}
use new_api_gateway.Admin.Auth.Csrf.{HasToken, require_csrf-HasToken}
use new_api_gateway.Admin.Repository.{Principal, Db, see_session_row, see_session}
use new_api_gateway.Admin.Handlers.{Services, Reply, no_body}
use new_api_gateway.Admin.Handlers.Routing.{
  session_route, guards_of, route_of, method_of, Action, logging_in, logging_out, password_change,
  context_creation, review_creation, key_lookup, evidence_reading, data_reading, Request, Panel,
  verdict_of, require_some, and_then, decide, behind_session, authenticate, behind, serve,
}
use new_api_gateway.Admin.Handlers.Guards.{noted, serve-decide}
use new_api_gateway.Admin.Handlers.Needs.{
  is_open, needs_token, needed_permission, read-guards, route_of-guards,
}

-- Who makes the request: the principal of its session, with the session's CSRF token where the route asks
-- for it, and with the permission of the route.
pub record IsAuthorized (x : Services) (db : Db) (q : Request) (t : Panel) (csrf : Bool)
    (permission : Option Permission) : Type 0 where
  pub principal : Principal
  pub session_id : String
  pub session : authenticate x db q.now q.session_cookie t.store ≡ some (principal, session_id)
  pub token : csrf ≡ true → HasToken (some principal.csrf_token) q.csrf_cookie q.csrf_header
  pub allowed :
      (wanted : Permission) → permission ≡ some wanted → allows principal.role wanted ≡ true

-- An answer without data, from tables that keep all but the times when sessions were seen.
pub record IsUntouched (t : Panel) (o : Reply × Panel) : Type 0 where
  pub users : o.1.store.users ≡ t.store.users
  pub logs : o.1.store.logs ≡ t.store.logs
  pub reviews : o.1.store.reviews ≡ t.store.reviews
  pub contexts : o.1.store.contexts ≡ t.store.contexts
  pub no_data : o.0.body ≡ no_body

pub see_session_row-IsUntouched :
    (x : Services) (db : Db) (q : Request) (p : Principal) (session_id : String) (t : Panel) (n : ℕ)
    → IsUntouched t (decide x db q p (noted db q session_id t) (status n))
unfolding see_session_row decide
see_session_row-IsUntouched x db q p session_id t n = elim (Bool-cases (db see_session)) [
  | inl up ↦
      rw up (record { users = refl; logs = refl; reviews = refl; contexts = refl; no_data = refl })
  | inr down ↦
      rw down
        (record { users = refl; logs = refl; reviews = refl; contexts = refl; no_data = refl })
]

-- The routes with the CSRF guard are for the method POST.
guarded_method :
    (a : Action) (permission : Option Permission)
    → guards_of (route_of a) ≡ session_route true permission
    → is_safe_method (method_of (route_of a)) ≡ false
unfolding guards_of route_of is_safe_method
guarded_method (logging_in i sid token) permission h = absurd (cc)
guarded_method logging_out permission h = absurd (cc)
guarded_method (password_change i) permission h = refl
guarded_method (context_creation i) permission h = refl
guarded_method (review_creation i) permission h = refl
guarded_method (key_lookup i answers) permission h = refl
guarded_method (evidence_reading i) permission h = absurd (cc)
guarded_method (data_reading r data_) permission h = let plain = read-guards r in absurd (cc)

pub Verdict-cases : (v : Verdict) → ((n : ℕ) × (v ≡ status n)) ⊎ (v ≡ pass)
Verdict-cases (status n) = inl (n, refl)
Verdict-cases pass = inr refl

and_then-pass : (v w : Verdict) → and_then v w ≡ pass → (v ≡ pass) × (w ≡ pass)
and_then-pass (status n) w h = absurd (cc)
and_then-pass pass w h = (refl, h)

require-pass :
    (permission : Permission) (r : Role)
    → require permission (some r) ≡ pass
    → allows r permission ≡ true
unfolding require
require-pass permission r h = elim (Bool-cases (allows r permission)) [
  | inl granted ↦ granted
  | inr denied ↦ absurd (cc)
]

require_some-pass :
    (permission : Option Permission) (p : Principal)
    → require_some permission p ≡ pass
    → (wanted : Permission) → permission ≡ some wanted
    → allows p.role wanted ≡ true
require_some-pass permission p h wanted e = require-pass wanted p.role (rw e at h)

csrf-pass :
    (q : Request) (p : Principal) (permission : Option Permission)
    → guards_of (route_of q.action) ≡ session_route true permission
    → require_csrf (method_of (route_of q.action)) (some p.csrf_token) q.csrf_cookie q.csrf_header
      ≡ pass
    → HasToken (some p.csrf_token) q.csrf_cookie q.csrf_header
csrf-pass q p permission g h =
    elim (require_csrf-HasToken (method_of (route_of q.action)) (some p.csrf_token) q.csrf_cookie
      q.csrf_header h) [
        | inl safe ↦ let post = guarded_method q.action permission g in absurd (cc)
        | inr token ↦ token
      ]

pub verdict_of-allowed :
    (q : Request) (wanted : Permission) (p : Principal)
    → verdict_of false (some wanted) q p ≡ pass
    → allows p.role wanted ≡ true
unfolding verdict_of
verdict_of-allowed q wanted p h =
    require_some-pass (some wanted) p (and_then-pass pass (require_some (some wanted) p) h).1 wanted
      refl

pub verdict_of-pass :
    (x : Services) (db : Db) (q : Request) (t : Panel) (csrf : Bool)
    (permission : Option Permission) (p : Principal) (session_id : String)
    → guards_of (route_of q.action) ≡ session_route csrf permission
    → authenticate x db q.now q.session_cookie t.store ≡ some (p, session_id)
    → verdict_of csrf permission q p ≡ pass
    → IsAuthorized x db q t csrf permission
unfolding verdict_of
verdict_of-pass x db q t csrf permission p session_id g a h =
    let guard =
      require_csrf (method_of (route_of q.action)) (some p.csrf_token) q.csrf_cookie
        q.csrf_header in
    let (c, r) = and_then-pass (if csrf then guard else pass) (require_some permission p) h in
    record {
      principal = p;
      session_id = session_id;
      session = a;
      token = λ on. csrf-pass q p permission (rw on at g) (rw on at c);
      allowed = require_some-pass permission p r;
    }

pub serve-IsUntouched :
    (x : Services) (db : Db) (q : Request) (t : Panel) (csrf : Bool)
    (permission : Option Permission)
    → guards_of (route_of q.action) ≡ session_route csrf permission
    → authenticate x db q.now q.session_cookie t.store ≡ none
    → IsUntouched t (serve x db q t)
unfolding serve behind behind_session
serve-IsUntouched x db q t csrf permission g h =
    rw (g, h)
      (record { users = refl; logs = refl; reviews = refl; contexts = refl; no_data = refl })

pub serve-IsGuarded :
    (x : Services) (db : Db) (q : Request) (t : Panel) (csrf : Bool)
    (permission : Option Permission)
    → guards_of (route_of q.action) ≡ session_route csrf permission
    → IsUntouched t (serve x db q t) ⊎ IsAuthorized x db q t csrf permission
serve-IsGuarded x db q t csrf permission g =
    elim (Option-cases (authenticate x db q.now q.session_cookie t.store)) [
      | inl out ↦ inl (serve-IsUntouched x db q t csrf permission g out)
      | inr ((p, session_id), a) ↦ elim (Verdict-cases (verdict_of csrf permission q p)) [
        | inr ok ↦ inr (verdict_of-pass x db q t csrf permission p session_id g a ok)
        | inl (n, refused) ↦ inl (
            let e = serve-decide x db q csrf permission p session_id t g a in
            rw (e, refused) (see_session_row-IsUntouched x db q p session_id t n))
      ]
    ]

-- A request to any route but those to sign in and out changes no user, log, review or context and gets no
-- data, or its session has a principal with the permission that such a request needs, and it has the
-- session's CSRF token if it is a POST.
pub serve-IsAuthorized :
    (x : Services) (db : Db) (q : Request) (t : Panel)
    → is_open q.action ≡ false
    → IsUntouched t (serve x db q t)
      ⊎ IsAuthorized x db q t (needs_token q.action) (needed_permission q.action)
serve-IsAuthorized x db q t h =
    serve-IsGuarded x db q t (needs_token q.action) (needed_permission q.action)
      (route_of-guards q.action h)
