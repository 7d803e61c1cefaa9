-- ===== src/Admin/Repository.antt =====
-- internal/admin/repository.go and models.go: the tables of the admin interface and the statements on them.
-- Each statement runs whole or not at all; the times are natural numbers, and the zero time is 0.
pub mod Ended
pub mod Later
pub mod Lookup
use new_api_gateway.Prelude.{
  ℕ, String, Bool, true, false, ◌&&◌, not, List, [], ◌∷◌, ◌++◌, map, Option, none, some, ltb, ◌==◌,
  nat_eq, string_eq, if◌then◌else◌, any,
}
use new_api_gateway.Text.{is_empty, trim_space}
use new_api_gateway.Admin.Permissions.{Role}

-- `User`; `active` says that the status is 'active'.
pub record User : Type 0 where
  pub id : ℕ
  pub username : String
  pub password_hash : String
  pub display_name : String
  pub email : String
  pub role : Role
  pub active : Bool
  pub updated_at : ℕ

-- `Session`, with the columns that the statements set later.
pub record Session : Type 0 where
  pub session_id : String
  pub user_id : ℕ
  pub expires_at : ℕ
  pub csrf_token : String
  pub revoked_at : Option ℕ
  pub last_seen_at : Option ℕ

-- `Principal`
pub record Principal : Type 0 where
  pub user_id : ℕ
  pub username : String
  pub display_name : String
  pub role : Role
  pub csrf_token : String
  pub session_id : String

-- `AuditActionLog`, without the columns that no handler sets.
pub record ActionLog : Type 0 where
  pub actor_user_id : ℕ
  pub actor_username : String
  pub action : String
  pub target_type : String
  pub target_id : String
  pub token_fingerprint : String
  pub fingerprint_display : String
  pub trace_id : String
  pub metadata_json : String
  pub created_at : ℕ

-- `ReviewDecision`
pub record ReviewDecision : Type 0 where
  pub target_type : String
  pub target_id : String
  pub decision : String
  pub reviewer_id : ℕ
  pub reviewer_username : String
  pub note : String
  pub created_at : ℕ

-- `ContextCatalogEntry`, without the columns that the database fills.
pub record ContextEntry : Type 0 where
  pub context_type : String
  pub name : String
  pub description : String
  pub keywords : List String
  pub aliases : List String
  pub owner : String
  pub expected_task_categories : List String
  pub expected_models : List String
  pub expected_usage_level : String
  pub active : Bool
  pub created_by : String
  pub updated_by : String

-- `EvidenceObjectSummary`
pub record EvidenceObject : Type 0 where
  pub trace_id : String
  pub object_type : String
  pub object_ref : String
  pub content_type : String
  pub size_bytes : ℕ
  pub sha256 : String

-- The tables; the evidence objects are listed with the newest first.
pub record Store : Type 0 where
  pub users : List User
  pub sessions : List Session
  pub logs : List ActionLog
  pub reviews : List ReviewDecision
  pub contexts : List ContextEntry
  pub objects : List EvidenceObject

-- The statements, so that any of them may fail: `Db` says of each whether it reaches the database.
pub data Call : Type 0 where
  find_user find_principal see_session create_session revoke_session change_password : Call
  insert_log insert_review upsert_context find_object : Call

abbrev pub Db : Type 0
Db = Call → Bool

-- What a query for one row answers.
pub data Answer (A : Type 0) : Type 0 where
  row : A → Answer A
  no_rows : Answer A
  failed : Answer A

abbrev pub answer : {A : Type 0} → Option A → Answer A
answer none = no_rows
answer (some a) = row a

abbrev pub or_else : {A : Type 0} → Option A → Option A → Option A
or_else none o = o
or_else (some a) o = some a

abbrev pub is_some : {A : Type 0} → Option A → Bool
is_some none = false
is_some (some a) = true

-- The first row that passes the test.
abbrev pub first : {A : Type 0} → (A → Bool) → List A → Option A
first p [] = none
first p (x ∷ xs) = let rest = first p xs in if p x then some x else rest

-- `FindActiveUserByUsername` and `FindActiveUserByID`
unfoldable pub find_active_user_by_username : Db → String → Store → Answer User
find_active_user_by_username db username s =
    if db find_user
    then answer (first (λ u. u.username == username && u.active) s.users)
    else failed

unfoldable pub find_active_user_by_id : Db → ℕ → Store → Answer User
find_active_user_by_id db user_id s =
    if db find_user then answer (first (λ u. u.id == user_id && u.active) s.users) else failed

-- `CreateSession`, whose identifier is unique in the table. The answer says whether it is inserted.
unfoldable pub create_session_row : Db → Session → Store → Bool × Store
create_session_row db session s =
    if db create_session && not (any (λ r. r.session_id == session.session_id) s.sessions)
    then (true, record s { sessions = s.sessions ++ session ∷ [] })
    else (false, s)

-- The conditions of `PrincipalBySession` on a session, and the user that it is joined with.
unfoldable pub is_accepted : ℕ → String → Session → Bool
is_accepted now session_id r =
    r.session_id == session_id && not (is_some r.revoked_at) && ltb now r.expires_at

abbrev pub principal_of : Session → Option User → Option Principal
principal_of r none = none
principal_of r (some u) = some (record {
  user_id = u.id;
  username = u.username;
  display_name = u.display_name;
  role = u.role;
  csrf_token = r.csrf_token;
  session_id = r.session_id;
})

abbrev pub joined : List User → Session → Option Principal
joined users r = principal_of r (first (λ u. u.id == r.user_id && u.active) users)

unfoldable pub principal_in : List User → ℕ → String → List Session → Option Principal
principal_in users now session_id [] = none
principal_in users now session_id (r ∷ sessions) =
    let rest = principal_in users now session_id sessions in
    if is_accepted now session_id r then or_else (joined users r) rest else rest

-- `PrincipalBySession`: the query, and the statement after it that notes when the session was seen. The
-- principal has the session's identifier, which `Auth.Middleware` adds.
unfoldable pub principal_by_session : Db → ℕ → Store → String → Option Principal
principal_by_session db now s session_id =
    if db find_principal then principal_in s.users now session_id s.sessions else none

abbrev pub see : String → ℕ → Session → Session
see session_id now r =
    if r.session_id == session_id then record r { last_seen_at = some now } else r

unfoldable pub see_session_row : Db → String → ℕ → Store → Store
see_session_row db session_id now s =
    if db see_session then record s { sessions = map (see session_id now) s.sessions } else s

-- `RevokeSession`
abbrev pub revoke : String → ℕ → Session → Session
revoke session_id now r =
    if r.session_id == session_id then record r { revoked_at = some now } else r

unfoldable pub revoke_session_row : Db → String → ℕ → Store → Bool × Store
revoke_session_row db session_id now s =
    if db revoke_session
    then (true, record s { sessions = map (revoke session_id now) s.sessions })
    else (false, s)

-- `InsertAuditActionLog`: the entry with its defaults, which the table gets.
unfoldable pub with_defaults : ℕ → ActionLog → ActionLog
with_defaults now l = record l {
  created_at = if l.created_at == 0 then now else l.created_at;
  metadata_json = if is_empty (trim_space l.metadata_json) then "{}" else l.metadata_json;
}

unfoldable pub insert_audit_action_log : Db → ℕ → ActionLog → Store → Bool × Store
insert_audit_action_log db now l s =
    if db insert_log
    then (true, record s { logs = s.logs ++ with_defaults now l ∷ [] })
    else (false, s)

-- `ChangeUserPassword`: one statement with the new hash, the end of the user's other sessions, and an entry
-- in the log if there is such a user.
abbrev pub set_password : ℕ → String → ℕ → User → User
set_password user_id hash now u =
    if u.id == user_id then record u { password_hash = hash; updated_at = now } else u

unfoldable pub revoke_other : ℕ → String → ℕ → Session → Session
revoke_other user_id keep now r =
    if r.user_id == user_id
      && not (r.session_id == keep)
      && not (is_some r.revoked_at)
      && ltb now r.expires_at
    then record r { revoked_at = some now }
    else r

unfoldable pub change_user_password :
    Db → ℕ → String → String → ActionLog → ℕ → Store → Bool × Store
change_user_password db user_id hash keep l now s =
    if db change_password
    then (
      true,
      record s {
        users = map (set_password user_id hash now) s.users;
        sessions = map (revoke_other user_id keep now) s.sessions;
        logs =
            s.logs ++ (if any (λ u. u.id == user_id) s.users then with_defaults now l ∷ [] else []);
      },
    )
    else (false, s)

-- `InsertReviewDecision`
unfoldable pub insert_review_decision : Db → ReviewDecision → Store → Bool × Store
insert_review_decision db d s =
    if db insert_review then (true, record s { reviews = s.reviews ++ d ∷ [] }) else (false, s)

-- `InsertContextCatalogEntry`: a new row, or the new values for the row with the same type and name, which
-- keeps its `created_by`.
unfoldable pub same_context : ContextEntry → ContextEntry → Bool
same_context e r = r.context_type == e.context_type && r.name == e.name

abbrev pub update_context : ContextEntry → ContextEntry → ContextEntry
update_context e r = if same_context e r then record e { created_by = r.created_by } else r

unfoldable pub insert_context_catalog_entry : Db → ContextEntry → Store → Bool × Store
insert_context_catalog_entry db e s =
    if db upsert_context
    then (
      true,
      record s {
        contexts =
            if any (same_context e) s.contexts
            then map (update_context e) s.contexts
            else s.contexts ++ e ∷ [];
      },
    )
    else (false, s)

-- `FindRawEvidenceObject`: with a reference it must be the object's own.
unfoldable pub find_raw_evidence_object :
    Db → String → String → String → Store → Answer EvidenceObject
find_raw_evidence_object db trace_id object_type object_ref s =
    if db find_object
    then (if is_empty (trim_space object_ref)
        then answer (first (λ o. o.trace_id == trace_id && o.object_type == object_type) s.objects)
        else answer (
            first
              (λ o.
                o.trace_id == trace_id
                && o.object_type == object_type
                && o.object_ref == object_ref)
              s.objects))
    else failed
