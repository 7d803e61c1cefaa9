-- ===== src/Admin/Auth.antt =====
-- internal/admin/auth.go and handlers.go: session cookies, the permission guard and the CSRF guard.
pub mod Cookies
pub mod Csrf
use new_api_gateway.Prelude.{
  ℕ, String, Bool, true, false, ◌&&◌, ◌||◌, not, List, [], ◌∷◌, Option, none, some, ◌≡◌, refl, sym,
  ap, ◌∙◌, inl, inr, arith, ◌==◌, string_eq, if◌then◌else◌, Bool-cases, Option-cases,
}
use new_api_gateway.Text.{◌<>◌, is_empty, is_char, lacks, cut}
use new_api_gateway.Admin.Permissions.{Role, Permission, allows}

-- What the standard library does for the cookies: base64 for URLs, and HMAC-SHA256 with the secret.
pub record Codec : Type 0 where
  pub encode : String → String
  pub decode : String → Option String
  pub mac : String → String

-- `verifyCookie`: the session of a cookie that the gateway has signed.
module _ (x : Codec) where
  -- `signSessionID`
  unfoldable pub sign_session_id : String → String
  sign_session_id session_id = x.encode (session_id <> ("." <> x.encode (x.mac session_id)))

  -- The comparison of the signatures.
  unfoldable pub check_signature : String → Option String → Option String
  check_signature session_id none = none
  check_signature session_id (some signature) =
      if signature == x.mac session_id then some session_id else none

  -- The payload, cut at its first dot.
  unfoldable pub check_parts : Option (String × String) → Option String
  check_parts none = none
  check_parts (some (session_id, signature)) =
      if is_empty session_id
      then none
      else if is_empty signature
      then none
      else check_signature session_id (x.decode signature)

  unfoldable pub check_payload : Option String → Option String
  check_payload none = none
  check_payload (some payload) = check_parts (cut b'.' payload)

  unfoldable pub verify_cookie : String → Option String
  verify_cookie value = check_payload (x.decode value)

-- What a guard does with a request: it answers with a status, or lets the handler run.
pub data Verdict : Type 0 where
  status : ℕ → Verdict
  pass : Verdict

-- `Auth.Require`, for the role of the principal that there may be.
unfoldable pub require : Permission → Option Role → Verdict
require permission none = status 401
require permission (some role) = if allows role permission then pass else status 403

-- `Auth.Middleware`: the cookie, and the principal that the repository has for its session.
module _ {P : Type 0} where
  unfoldable pub with_principal : String → Option P → Option (P × String)
  with_principal session_id none = none
  with_principal session_id (some principal) = some (principal, session_id)

  unfoldable pub with_session : (String → Option P) → Option String → Option (P × String)
  with_session principal_of none = none
  with_session principal_of (some session_id) = with_principal session_id (principal_of session_id)

  unfoldable pub middleware : Codec → (String → Option P) → Option String → Option (P × String)
  middleware x principal_of none = none
  middleware x principal_of (some cookie) = with_session principal_of (verify_cookie x cookie)

-- `requireCSRF`: the method, the token of the principal that there may be, the cookie and the header.
unfoldable pub is_safe_method : String → Bool
is_safe_method method =
    if method == "GET" then true else if method == "HEAD" then true else method == "OPTIONS"

unfoldable pub require_csrf_token : Option String → Option String → String → Verdict
require_csrf_token none cookie header = status 403
require_csrf_token (some token) none header = status 403
require_csrf_token (some token) (some cookie) header =
    if is_empty token || is_empty cookie || is_empty header
    then status 403
    else if cookie == header
    then (if header == token then pass else status 403)
    else status 403

unfoldable pub require_csrf : String → Option String → Option String → String → Verdict
require_csrf method token cookie header =
    if is_safe_method method then pass else require_csrf_token token cookie header
