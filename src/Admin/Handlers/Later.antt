-- ===== src/Admin/Handlers/Later.antt =====
-- internal/admin/handlers.go: what logins, logouts and new passwords do not undo.
pub mod Records
pub mod Requests
use new_api_gateway.Prelude.{
  ℕ, String, Bool, not, ◌||◌, true, false, List, [], ◌∷◌, Option, none, some, ◌≡◌, refl,
  if◌then◌else◌,
}
use new_api_gateway.Text.{◌<>◌, is_empty, trim_space}
use new_api_gateway.Admin.Limits.{Counters, allow}
use new_api_gateway.Admin.Auth.{Verdict, status, pass, verify_cookie}
use new_api_gateway.Admin.Permissions.{Permission}
use new_api_gateway.Admin.Repository.{
  User, Session, Principal, ActionLog, ReviewDecision, ContextEntry, EvidenceObject, Store, Db,
  Answer, row, no_rows, failed, find_active_user_by_username, find_active_user_by_id,
  create_session_row, principal_by_session, see_session_row, revoke_session_row,
  insert_audit_action_log, change_user_password, insert_review_decision,
  insert_context_catalog_entry, find_raw_evidence_object,
}
use new_api_gateway.Admin.Repository.Later.{
  Later, Later-refl, Later-trans, if-Later, create_session_row-Later, see_session_row-Later,
  revoke_session_row-Later, insert_audit_action_log-Later, change_user_password-Later,
  insert_review_decision-Later, insert_context_catalog_entry-Later,
}
use new_api_gateway.Admin.Handlers.{
  Services, Reply, error, is_bad_password, welcome, open_session, login_as, login, note_logout,
  seen, end_session, logout, PasswordInput, store_password, no_content, replace_password,
  change_password_of, change_password,
}
use new_api_gateway.Admin.Handlers.Records.{
  ReviewInput, ContextInput, EvidenceInput, review_created, create_review, context_logged,
  context_of, context_created, create_context_catalog_entry, send_evidence, access_entry,
  log_evidence, read_evidence, open_evidence, find_evidence, limited, get_raw_evidence, raw_limiter,
  review_of, is_bad_review, valid_context_catalog_entry, ref_of,
}
use new_api_gateway.Admin.Handlers.Routing.{
  Guards, open_route, session_route, guards_of, route_of, Action, logging_in, logging_out,
  password_change, context_creation, review_creation, evidence_reading, Request, Panel, on_store,
  perform, verdict_of, decide, behind_session, authenticate, behind, serve,
}

-- A test that answers at once, and one that goes on.
pub reject-Later :
    (s : Store) (b : Bool) (r : Reply) (y : Reply × Store)
    → Later s y.1
    → Later s (if b then (r, s) else y).1
reject-Later s true r y h = Later-refl s
reject-Later s false r y h = h

pub accept-Later :
    (s : Store) (b : Bool) (r : Reply) (y : Reply × Store)
    → Later s y.1
    → Later s (if b then y else (r, s)).1
accept-Later s true r y h = h
accept-Later s false r y h = Later-refl s

module _ (x : Services) (db : Db) (now : ℕ) where
  welcome-Later :
      (u : User) (sid token : String) (o : Bool × Store)
      → Later o.1 (welcome x db now u sid token o).1
  unfolding welcome
  welcome-Later u sid token (false, s) = Later-refl s
  welcome-Later u sid token (true, s) = insert_audit_action_log-Later db now _ s

  open_session-Later :
      (u : User) (sid token : Option String) (s : Store)
      → Later s (open_session x db now u sid token s).1
  unfolding open_session
  open_session-Later u none token s = Later-refl s
  open_session-Later u (some sid) none s = Later-refl s
  open_session-Later u (some sid) (some token) s =
      Later-trans s _ _ (create_session_row-Later db _ s) (welcome-Later u sid token _)

  login_as-Later :
      (password : String) (sid token : Option String) (s : Store) (a : Answer User)
      → Later s (login_as x db now password sid token s a).1
  unfolding login_as
  login_as-Later password sid token s no_rows = Later-refl s
  login_as-Later password sid token s failed = Later-refl s
  login_as-Later password sid token s (row u) =
      accept-Later s (x.check_password u.password_hash password) (error 401) _
        (open_session-Later u sid token s)

  pub login-Later :
      (i : Option (String × String)) (sid token : Option String) (s : Store)
      → Later s (login x db now i sid token s).1
  unfolding login
  login-Later none sid token s = Later-refl s
  login-Later (some (username, password)) sid token s =
      login_as-Later password sid token s (find_active_user_by_username db username s)

  pub note_logout-Later :
      (p : Option Principal) (o : Bool × Store) → Later o.1 (note_logout db now p o).1
  unfolding note_logout
  note_logout-Later p (false, s) = Later-refl s
  note_logout-Later none (true, s) = Later-refl s
  note_logout-Later (some p) (true, s) = insert_audit_action_log-Later db now _ s

  seen-Later : (sid : String) (p : Option Principal) (s : Store) → Later s (seen db now sid p s)
  seen-Later sid none s = Later-refl s
  seen-Later sid (some p) s = see_session_row-Later db sid now s

  end_session-Later : (o : Option String) (s : Store) → Later s (end_session db now o s).1
  unfolding end_session
  end_session-Later none s = Later-refl s
  end_session-Later (some sid) s =
      let p = principal_by_session db now s sid in
      Later-trans s (seen db now sid p s) _ (seen-Later sid p s) (
        Later-trans (seen db now sid p s) _ _
          (revoke_session_row-Later db sid now (seen db now sid p s)) (note_logout-Later p _))

  pub logout-Later : (cookie : Option String) (s : Store) → Later s (logout x db now cookie s).1
  unfolding logout
  logout-Later none s = Later-refl s
  logout-Later (some cookie) s = end_session-Later (verify_cookie x.codec cookie) s

  no_content-Later : (s : Store) (o : Bool × Store) → Later s o.1 → Later s (no_content o).1
  no_content-Later s (false, s') h = h
  no_content-Later s (true, s') h = h

  store_password-Later :
      (p : Principal) (u : User) (hash : Option String) (s : Store)
      → Later s (store_password db now p u hash s).1
  unfolding store_password
  store_password-Later p u none s = Later-refl s
  store_password-Later p u (some hash) s =
      no_content-Later s _ (change_user_password-Later db u.id hash p.session_id _ now s)

  replace_password-Later :
      (i : PasswordInput) (p : Principal) (s : Store) (a : Answer User)
      → Later s (replace_password x db now i p s a).1
  unfolding replace_password
  replace_password-Later i p s no_rows = Later-refl s
  replace_password-Later i p s failed = Later-refl s
  replace_password-Later i p s (row u) =
      reject-Later s (not (x.check_password u.password_hash i.current_password)) (error 401)
        (if x.check_password u.password_hash i.new_password
          then (error 400, s)
          else store_password db now p u (x.hash_password i.new_password) s)
        (reject-Later s (x.check_password u.password_hash i.new_password) (error 400)
          (store_password db now p u (x.hash_password i.new_password) s)
          (store_password-Later p u (x.hash_password i.new_password) s))

  change_password_of-Later :
      (i : PasswordInput) (p : Option Principal) (s : Store)
      → Later s (change_password_of x db now i p s).1
  unfolding change_password_of
  change_password_of-Later i none s = Later-refl s
  change_password_of-Later i (some p) s =
      replace_password-Later i p s (find_active_user_by_id db p.user_id s)

  pub change_password-Later :
      (i : Option PasswordInput) (p : Option Principal) (s : Store)
      → Later s (change_password x db now i p s).1
  unfolding change_password
  change_password-Later none p s = Later-refl s
  change_password-Later (some i) p s =
      reject-Later s (is_bad_password i) (error 400) _ (change_password_of-Later i p s)
