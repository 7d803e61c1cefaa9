-- ===== src/Admin/Handlers/Guards.antt =====
-- internal/admin/handlers.go: what a request that passes the guards has shown.
use new_api_gateway.Prelude.{
  String, Bool, true, false, ◌||◌, Option, none, some, ◌≡◌, refl, arith, ◌==◌, nat_eq, string_eq,
  if◌then◌else◌,
}
use new_api_gateway.Text.{is_empty}
use new_api_gateway.Admin.Permissions.{Role, Permission, allows}
use new_api_gateway.Admin.Auth.{
  Verdict, status, pass, require, require_csrf, require_csrf_token, is_safe_method,
}
use new_api_gateway.Admin.Repository.{Principal, Db, see_session_row}
use new_api_gateway.Admin.Handlers.{Services}
use new_api_gateway.Admin.Handlers.Routing.{
  Request, Panel, session_route, guards_of, authenticate, serve, behind, behind_session, decide,
  perform, verdict_of, require_some, and_then, method_of, route_of,
}

-- A guard refuses with 401 or 403 only.
abbrev pub is_refusal : Verdict → Bool
is_refusal (status n) = n == 401 || n == 403
is_refusal pass = true

if-is_refusal :
    (b : Bool) (v w : Verdict)
    → is_refusal v ≡ true
    → is_refusal w ≡ true
    → is_refusal (if b then v else w) ≡ true
if-is_refusal true v w h k = h
if-is_refusal false v w h k = k

require-is_refusal :
    (permission : Permission) (r : Option Role) → is_refusal (require permission r) ≡ true
unfolding require
require-is_refusal permission none = refl
require-is_refusal permission (some r) =
    if-is_refusal (allows r permission) pass (status 403) refl refl

require_csrf_token-is_refusal :
    (token cookie : Option String) (header : String)
    → is_refusal (require_csrf_token token cookie header) ≡ true
unfolding require_csrf_token
require_csrf_token-is_refusal none cookie header = refl
require_csrf_token-is_refusal (some token) none header = refl
require_csrf_token-is_refusal (some token) (some cookie) header =
    let inner = if header == token then pass else status 403 in
    if-is_refusal (is_empty token || is_empty cookie || is_empty header) (status 403)
      (if cookie == header then inner else status 403) refl
      (if-is_refusal (cookie == header) inner (status 403)
        (if-is_refusal (header == token) pass (status 403) refl refl) refl)

require_csrf-is_refusal :
    (method : String) (token cookie : Option String) (header : String)
    → is_refusal (require_csrf method token cookie header) ≡ true
unfolding require_csrf
require_csrf-is_refusal method token cookie header =
    if-is_refusal (is_safe_method method) pass (require_csrf_token token cookie header) refl
      (require_csrf_token-is_refusal token cookie header)

and_then-is_refusal :
    (v w : Verdict) → is_refusal v ≡ true → is_refusal w ≡ true → is_refusal (and_then v w) ≡ true
and_then-is_refusal (status n) w h k = h
and_then-is_refusal pass w h k = k

require_some-is_refusal :
    (permission : Option Permission) (p : Principal) → is_refusal (require_some permission p) ≡ true
require_some-is_refusal none p = refl
require_some-is_refusal (some permission) p = require-is_refusal permission (some p.role)

pub verdict_of-is_refusal :
    (csrf : Bool) (permission : Option Permission) (q : Request) (p : Principal)
    → is_refusal (verdict_of csrf permission q p) ≡ true
unfolding verdict_of
verdict_of-is_refusal csrf permission q p =
    let guard =
      require_csrf (method_of (route_of q.action)) (some p.csrf_token) q.csrf_cookie
        q.csrf_header in
    and_then-is_refusal (if csrf then guard else pass) (require_some permission p)
      (if-is_refusal csrf guard pass
        (require_csrf-is_refusal (method_of (route_of q.action)) (some p.csrf_token) q.csrf_cookie
          q.csrf_header)
        refl)
      (require_some-is_refusal permission p)

-- A request behind its guards, once its session has a principal.
abbrev pub noted : Db → Request → String → Panel → Panel
noted db q session_id t = record t { store = see_session_row db session_id q.now t.store }

pub serve-decide :
    (x : Services) (db : Db) (q : Request) (csrf : Bool) (permission : Option Permission)
    (p : Principal) (session_id : String) (t : Panel)
    → guards_of (route_of q.action) ≡ session_route csrf permission
    → authenticate x db q.now q.session_cookie t.store ≡ some (p, session_id)
    → serve x db q t ≡ decide x db q p (noted db q session_id t) (verdict_of csrf permission q p)
unfolding serve behind behind_session
serve-decide x db q csrf permission p session_id t g h = rw (g, h) refl

pub decide-pass :
    (x : Services) (db : Db) (q : Request) (p : Principal) (t : Panel) (v : Verdict)
    → is_refusal v ≡ true
    → (decide x db q p t v).0.code ≡ 204
    → v ≡ pass
unfolding decide
decide-pass x db q p t (status n) h k = absurd (ground arith)
decide-pass x db q p t pass h k = refl

pub decide-perform :
    (x : Services) (db : Db) (q : Request) (p : Principal) (t : Panel) (v : Verdict)
    → v ≡ pass
    → decide x db q p t v ≡ perform x db q.now q.session_cookie (some p) q.action t
unfolding decide
decide-perform x db q p t v h = rw h refl
