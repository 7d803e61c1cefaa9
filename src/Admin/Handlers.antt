-- ===== src/Admin/Handlers.antt =====
-- internal/admin/handlers.go: the handlers that change the tables or hand out raw evidence. Times are in
-- seconds.

pub mod Records
pub mod Lookup
pub mod Routing
pub mod Later
pub mod Revoked
pub mod Guards
pub mod Passwords
pub mod Needs
pub mod Authorized
pub mod Evidence
pub mod Login
mod Tests
use new_api_gateway.Prelude.{
  ℕ, suc, ◌+◌, String, Bool, true, false, ◌&&◌, ◌||◌, not, List, [], ◌∷◌, Option, none, some, ltb,
  ◌==◌, string_eq, if◌then◌else◌,
}
use new_api_gateway.Text.{◌<>◌, is_empty, trim_space}
use new_api_gateway.Admin.Limits.{Limiter, Counters, allow}
use new_api_gateway.Admin.Auth.{Codec, sign_session_id, verify_cookie}
use new_api_gateway.Admin.Repository.Lookup.{LookupSummary}
use new_api_gateway.Admin.Repository.{
  User, Session, Principal, ActionLog, ReviewDecision, ContextEntry, EvidenceObject, Store, Db,
  Answer, row, no_rows, failed, find_active_user_by_username, find_active_user_by_id,
  create_session_row, principal_by_session, see_session_row, revoke_session_row,
  insert_audit_action_log, change_user_password, insert_review_decision,
  insert_context_catalog_entry, find_raw_evidence_object,
}

-- What the handlers take from outside: the cookies' codec, bcrypt, `json.Marshal`,
-- `fingerprint.Compute` with its secret, and the store of the
-- evidence, which there may not be.
pub record Services : Type 0 where
  pub codec : Codec
  pub hash_password : String → Option String
  pub check_password : String → String → Bool
  pub marshal : List (String × String) → String
  pub fingerprint : String → String × String
  pub evidence : Option (String → Option String)

pub data Body : Type 0 where
  no_body : Body
  user_body : Principal → Body
  review_body : ReviewDecision → Body
  context_body : ContextEntry → Body
  evidence_body : EvidenceObject → String → Body
  lookup_body : LookupSummary → Body
  data_body : String → Body

-- An answer; the cookies are the ones it sets, and an empty one clears the client's.
pub record Reply : Type 0 where
  pub code : ℕ
  pub session_cookie : Option String
  pub csrf_cookie : Option String
  pub body : Body

-- `http.Error`, and an answer without cookies.
abbrev pub reply : ℕ → Body → Reply
reply code body = record { code = code; session_cookie = none; csrf_cookie = none; body = body }

abbrev pub error : ℕ → Reply
error code = reply code no_body

-- An entry of the log on what a user does, with the fields that most entries leave empty.
abbrev pub entry : ℕ → String → String → String → String → String → ℕ → ActionLog
entry user_id username action target_type target_id metadata now = record {
  actor_user_id = user_id;
  actor_username = username;
  action = action;
  target_type = target_type;
  target_id = target_id;
  token_fingerprint = "";
  fingerprint_display = "";
  trace_id = "";
  metadata_json = metadata;
  created_at = now;
}

-- `login`, from its end: the cookies and the entry once the session is in the table.
unfoldable pub welcome : Services → Db → ℕ → User → String → String → Bool × Store → Reply × Store
welcome x db now u session_id token (false, s) = (error 500, s)
welcome x db now u session_id token (true, s) = (
  record {
    code = 200;
    session_cookie = some (sign_session_id x.codec session_id);
    csrf_cookie = some token;
    body = user_body (record {
      user_id = u.id;
      username = u.username;
      display_name = u.display_name;
      role = u.role;
      csrf_token = "";
      session_id = "";
    });
  },
  (insert_audit_action_log db now
      (entry u.id u.username "login" "audit_user" u.username "{\"auth_provider\":\"local\"}" now)
      s).1,
)

-- The new session: `NewSessionID` and `NewCSRFToken` may fail.
unfoldable pub open_session :
    Services → Db → ℕ → User → Option String → Option String → Store → Reply × Store
open_session x db now u none token s = (error 500, s)
open_session x db now u (some session_id) none s = (error 500, s)
open_session x db now u (some session_id) (some token) s = welcome x db now u session_id token (
    create_session_row db
      (record {
        session_id = session_id;
        user_id = u.id;
        expires_at = now + 43200;
        csrf_token = token;
        revoked_at = none;
        last_seen_at = none;
      })
      s)

unfoldable pub login_as :
    Services → Db → ℕ → String → Option String → Option String → Store → Answer User → Reply × Store
login_as x db now password session_id token s no_rows = (error 401, s)
login_as x db now password session_id token s failed = (error 500, s)
login_as x db now password session_id token s (row u) =
    if x.check_password u.password_hash password
    then open_session x db now u session_id token s
    else (error 401, s)

-- `login`: the decoded body, if it is JSON, and what the random generator gives.
unfoldable pub login :
    Services
    → Db
    → ℕ
    → Option (String × String)
    → Option String
    → Option String
    → Store
    → Reply × Store
login x db now none session_id token s = (error 400, s)
login x db now (some (username, password)) session_id token s =
    login_as x db now password session_id token s (find_active_user_by_username db username s)

-- `logout`: both cookies are cleared, whatever happens.
abbrev pub cleared : ℕ → Reply
cleared code = record {
  code = code;
  session_cookie = some "";
  csrf_cookie = some "";
  body = no_body;
}

unfoldable pub note_logout : Db → ℕ → Option Principal → Bool × Store → Reply × Store
note_logout db now p (false, s) = (cleared 500, s)
note_logout db now none (true, s) = (cleared 204, s)
note_logout db now (some p) (true, s) = (
  cleared 204,
  (insert_audit_action_log db now
      (entry p.user_id p.username "logout" "audit_user" p.username "" now) s).1,
)

-- The principal that the session has, with the note of when it was seen.
abbrev pub seen : Db → ℕ → String → Option Principal → Store → Store
seen db now session_id none s = s
seen db now session_id (some p) s = see_session_row db session_id now s

unfoldable pub end_session : Db → ℕ → Option String → Store → Reply × Store
end_session db now none s = (cleared 204, s)
end_session db now (some session_id) s =
    let p = principal_by_session db now s session_id in
    note_logout db now p (revoke_session_row db session_id now (seen db now session_id p s))

unfoldable pub logout : Services → Db → ℕ → Option String → Store → Reply × Store
logout x db now none s = (cleared 204, s)
logout x db now (some cookie) s = end_session db now (verify_cookie x.codec cookie) s

-- `changePassword`
pub record PasswordInput : Type 0 where
  pub current_password : String
  pub new_password : String
  pub confirm_password : String

-- `utf8.RuneCountInString`
abbrev pub rune_count : String → ℕ
rune_count String.[] = 0
rune_count (String.◌∷◌ c s) = suc (rune_count s)

abbrev pub no_content : Bool × Store → Reply × Store
no_content (false, s) = (error 500, s)
no_content (true, s) = (error 204, s)

unfoldable pub store_password : Db → ℕ → Principal → User → Option String → Store → Reply × Store
store_password db now p u none s = (error 500, s)
store_password db now p u (some hash) s = no_content (
    change_user_password db u.id hash p.session_id
      (entry u.id u.username "password_changed" "audit_user" u.username
        "{\"revoked_other_sessions\":true}" now)
      now s)

unfoldable pub replace_password :
    Services → Db → ℕ → PasswordInput → Principal → Store → Answer User → Reply × Store
replace_password x db now i p s no_rows = (error 401, s)
replace_password x db now i p s failed = (error 500, s)
replace_password x db now i p s (row u) =
    if not (x.check_password u.password_hash i.current_password)
    then (error 401, s)
    else if x.check_password u.password_hash i.new_password
    then (error 400, s)
    else store_password db now p u (x.hash_password i.new_password) s

unfoldable pub is_bad_password : PasswordInput → Bool
is_bad_password i =
    is_empty i.current_password
    || is_empty i.new_password
    || is_empty i.confirm_password
    || ltb (rune_count i.new_password) 12
    || not (i.new_password == i.confirm_password)

unfoldable pub change_password_of :
    Services → Db → ℕ → PasswordInput → Option Principal → Store → Reply × Store
change_password_of x db now i none s = (error 401, s)
change_password_of x db now i (some p) s =
    replace_password x db now i p s (find_active_user_by_id db p.user_id s)

unfoldable pub change_password :
    Services → Db → ℕ → Option PasswordInput → Option Principal → Store → Reply × Store
change_password x db now none p s = (error 400, s)
change_password x db now (some i) p s =
    if is_bad_password i then (error 400, s) else change_password_of x db now i p s
