-- ===== src/Admin/Handlers/Login.antt =====
-- internal/admin/handlers.go and auth.go: the cookie of a login opens the session.
pub mod Sessions
use new_api_gateway.Prelude.{
  ℕ, ◌+◌, ◌<◌, String, Bool, true, false, ◌&&◌, ◌||◌, not, List, [], ◌∷◌, ◌++◌, Option, none, some,
  ◌≡◌, refl, ap, ◌∙◌, inl, inr, arith, ltb, any, ◌==◌, nat_eq, string_eq, if◌then◌else◌, Bool-cases,
}
use new_api_gateway.Text.{is_empty}
use new_api_gateway.Admin.Auth.{
  Codec, sign_session_id, verify_cookie, middleware, with_session, with_principal,
}
use new_api_gateway.Admin.Auth.Cookies.{IsSession, verify_cookie-sign_session_id}
use new_api_gateway.Admin.Repository.{
  User, Session, Principal, ActionLog, Store, Db, Answer, row, no_rows, failed, first, answer,
  or_else, is_some, joined, principal_of, is_accepted, principal_in, principal_by_session,
  find_principal, find_user, find_active_user_by_username, create_session_row, create_session,
  insert_audit_action_log, insert_log,
}
use new_api_gateway.Admin.Repository.Ended.{has_id}
use new_api_gateway.Admin.Handlers.{Services, Reply, welcome, open_session, login_as, login}
use new_api_gateway.Admin.Handlers.Routing.{
  logging_in, Request, Panel, authenticate, serve, route_of, guards_of, behind, perform, on_store,
}

-- The row that a login adds.
abbrev pub new_session : ℕ → User → String → String → Session
new_session now u session_id token = record {
  session_id = session_id;
  user_id = u.id;
  expires_at = now + 43200;
  csrf_token = token;
  revoked_at = none;
  last_seen_at = none;
}

-- What has happened when a login is answered with 200.
pub record IsOpened (x : Services) (db : Db) (now : ℕ) (username password session_id token : String)
    (s : Store) (o : Reply × Store) : Type 0 where
  pub user : User
  pub found : find_active_user_by_username db username s ≡ row user
  pub checked : x.check_password user.password_hash password ≡ true
  pub fresh : any (has_id session_id) s.sessions ≡ false
  pub users : o.1.users ≡ s.users
  pub sessions : o.1.sessions ≡ s.sessions ++ new_session now user session_id token ∷ []
  pub cookie : o.0.session_cookie ≡ some (sign_session_id x.codec session_id)

insert-kept :
    (db : Db) (now : ℕ) (l : ActionLog) (s : Store)
    → let s' = (insert_audit_action_log db now l s).1 in
      (s'.users ≡ s.users) × (s'.sessions ≡ s.sessions)
unfolding insert_audit_action_log
insert-kept db now l s = elim (Bool-cases (db insert_log)) [
  | inl up ↦ rw up (refl, refl)
  | inr down ↦ rw down (refl, refl)
]

-- What the statement for the row does.
fresh_row : (a b : Bool) → (a && not b) ≡ true → b ≡ false
fresh_row a b h = ground arith

created :
    (db : Db) (r : Session) (s : Store)
    → (create_session_row db r s).0 ≡ true
    → (any (has_id r.session_id) s.sessions ≡ false)
      × ((create_session_row db r s).1 ≡ record s { sessions = s.sessions ++ r ∷ [] })
unfolding create_session_row
created db r s h =
    elim (Bool-cases (db create_session && not (any (has_id r.session_id) s.sessions))) [
      | inl ok ↦
          (fresh_row (db create_session) (any (has_id r.session_id) s.sessions) ok, rw ok refl)
      | inr refused ↦ absurd (ground (arith, rw refused at h))
    ]

module _ (x : Services) (db : Db) (now : ℕ) (username password session_id token : String)
    (s : Store) where
  welcome-IsOpened :
      (u : User) (o : Bool × Store)
      → find_active_user_by_username db username s ≡ row u
      → x.check_password u.password_hash password ≡ true
      → (o.0 ≡ true
          → (any (has_id session_id) s.sessions ≡ false)
            × (o.1 ≡ record s { sessions = s.sessions ++ new_session now u session_id token ∷ [] }))
      → (welcome x db now u session_id token o).0.code ≡ 200
      → IsOpened x db now username password session_id token s
          (welcome x db now u session_id token o)
  unfolding welcome
  welcome-IsOpened u (false, s') f c h k = absurd (omega (arith, k))
  welcome-IsOpened u (true, s') f c h k =
      let (fresh, same) = h refl in
      let kept = insert-kept db now _ s' in
      record {
        user = u;
        found = f;
        checked = c;
        fresh = fresh;
        users = kept.0 ∙ ap (λ t. t.users) same;
        sessions = kept.1 ∙ ap (λ t. t.sessions) same;
        cookie = refl;
      }

  open_session-IsOpened :
      (u : User)
      → find_active_user_by_username db username s ≡ row u
      → x.check_password u.password_hash password ≡ true
      → (open_session x db now u (some session_id) (some token) s).0.code ≡ 200
      → IsOpened x db now username password session_id token s
          (open_session x db now u (some session_id) (some token) s)
  unfolding open_session
  open_session-IsOpened u f c k =
      welcome-IsOpened u (create_session_row db (new_session now u session_id token) s) f c
        (created db (new_session now u session_id token) s) k

  login_as-IsOpened :
      (a : Answer User)
      → find_active_user_by_username db username s ≡ a
      → (login_as x db now password (some session_id) (some token) s a).0.code ≡ 200
      → IsOpened x db now username password session_id token s
          (login_as x db now password (some session_id) (some token) s a)
  unfolding login_as
  login_as-IsOpened no_rows f k = absurd (omega (arith, k))
  login_as-IsOpened failed f k = absurd (omega (arith, k))
  login_as-IsOpened (row u) f k = elim (Bool-cases (x.check_password u.password_hash password)) [
    | inl ok ↦ rw ok (open_session-IsOpened u f ok (rw ok at k))
    | inr wrong ↦ absurd (omega (arith, rw wrong at k))
  ]

  pub login-IsOpened :
      (login x db now (some (username, password)) (some session_id) (some token) s).0.code ≡ 200
      → IsOpened x db now username password session_id token s
          (login x db now (some (username, password)) (some session_id) (some token) s)
  unfolding login
  login-IsOpened k = login_as-IsOpened (find_active_user_by_username db username s) refl k
