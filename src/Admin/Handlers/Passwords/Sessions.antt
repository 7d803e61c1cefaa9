-- ===== src/Admin/Handlers/Passwords/Sessions.antt =====
-- internal/admin/handlers.go: a new password ends the user's other sessions, for every later request.
use new_api_gateway.Prelude.{
  ℕ, ◌≤◌, String, true, List, [], ◌∷◌, map, none, some, ◌≡◌, refl, ap, ◌∙◌, inl, inr, all, ◌==◌,
  nat_eq, string_eq, Bool-cases,
}
use new_api_gateway.Admin.Auth.{verify_cookie}
use new_api_gateway.Admin.Repository.{
  Session, Principal, Store, Db, see, see_session_row, see_session, set_password,
  principal_by_session,
}
use new_api_gateway.Admin.Handlers.{Services, PasswordInput, change_password}
use new_api_gateway.Admin.Handlers.Routing.{
  Action, session_route, password_change, Request, Panel, authenticate, serve, Reach, route_of,
  guards_of, perform, verdict_of, on_store,
}
use new_api_gateway.Admin.Handlers.Guards.{
  noted, serve-decide, decide-pass, decide-perform, verdict_of-is_refusal,
}
use new_api_gateway.Admin.Handlers.Passwords.Own.{
  see_session_row-principal_by_session, change_user_password-own,
}
use new_api_gateway.Admin.Handlers.Revoked.{ended-authenticate, see_session_row-known}
use new_api_gateway.Admin.Handlers.Passwords.{
  IsOther, owned, change_user_password-IsEnded, IsChanged, change_password-Changes,
}

see-owned :
    (seen session_id : String) (user_id now : ℕ) (rows : List Session)
    → all (owned session_id user_id) (map (see seen now) rows) ≡ all (owned session_id user_id) rows
see-owned seen session_id user_id now [] = refl
see-owned seen session_id user_id now (r ∷ rows) = elim (Bool-cases (r.session_id == seen)) [
  | inl same ↦ rw (same, see-owned seen session_id user_id now rows) refl
  | inr other ↦ rw (other, see-owned seen session_id user_id now rows) refl
]

see_session_row-owned :
    (db : Db) (seen session_id : String) (user_id now : ℕ) (s : Store)
    → all (owned session_id user_id) (see_session_row db seen now s).sessions
      ≡ all (owned session_id user_id) s.sessions
unfolding see_session_row
see_session_row-owned db seen session_id user_id now s = elim (Bool-cases (db see_session)) [
  | inl up ↦ rw up (see-owned seen session_id user_id now s.sessions)
  | inr down ↦ rw down refl
]

post_password-guards :
    (a : Action) (i : PasswordInput)
    → a ≡ password_change (some i)
    → guards_of (route_of a) ≡ session_route true none
unfolding guards_of route_of
post_password-guards a i e = rw e refl

perform-password_change :
    (x : Services) (db : Db) (q : Request) (i : PasswordInput) (p : Principal) (t : Panel)
    → q.action ≡ password_change (some i)
    → perform x db q.now q.session_cookie (some p) q.action t
      ≡ on_store t (change_password x db q.now (some i) (some p) t.store)
unfolding perform
perform-password_change x db q i p t a = rw a refl

-- The request behind its guards.
serve-password_change :
    (x : Services) (db : Db) (q : Request) (i : PasswordInput) (p : Principal) (seen : String)
    (t : Panel)
    → q.action ≡ password_change (some i)
    → authenticate x db q.now q.session_cookie t.store ≡ some (p, seen)
    → (serve x db q t).0.code ≡ 204
    → serve x db q t
      ≡ on_store t
          (change_password x db q.now (some i) (some p) (see_session_row db seen q.now t.store))
serve-password_change x db q i p seen t a h k =
    let d = serve-decide x db q true none p seen t (post_password-guards q.action i a) h in
    let v =
      decide-pass x db q p (noted db q seen t) (verdict_of true none q p)
        (verdict_of-is_refusal true none q p) (rw d at k) in
    d
    ∙ decide-perform x db q p (noted db q seen t) (verdict_of true none q p) v
    ∙ perform-password_change x db q i p (noted db q seen t) a

see_session_row-users :
    (db : Db) (seen : String) (now : ℕ) (s : Store)
    → (see_session_row db seen now s).users ≡ s.users
unfolding see_session_row
see_session_row-users db seen now s = elim (Bool-cases (db see_session)) [
  | inl up ↦ rw up refl
  | inr down ↦ rw down refl
]

-- What a change of the password does, as a later request sees it: the new hash, no other session of the user,
-- and the user's own session as it has been.
pub record IsRenewed (x : Services) (db : Db) (q : Request) (i : PasswordInput) (p : Principal)
    (now : ℕ) (cookie : String) (t after t' : Panel) : Type 0 where
  pub hash : String
  pub hashed : x.hash_password i.new_password ≡ some hash
  pub users : after.store.users ≡ map (set_password p.user_id hash q.now) t.store.users
  pub own :
      principal_by_session db now after.store p.session_id
      ≡ principal_by_session db now t.store p.session_id
  pub others : authenticate x db now (some cookie) t'.store ≡ none

-- A new password that is answered with 204 gives the user, and no other one, the hash of that password, and
-- leaves the user's own session with the principal that it has had. It ends every other session of the user
-- that there is: no cookie of such a session is accepted at that time or later, whatever requests come between.
pub change_password-IsRenewed :
    (x : Services) (db db' : Db) (q : Request) (i : PasswordInput) (p : Principal)
    (seen cookie session_id : String) (now' : ℕ) (t t' : Panel)
    → q.action ≡ password_change (some i)
    → authenticate x db q.now q.session_cookie t.store ≡ some (p, seen)
    → IsOther session_id p.session_id p.user_id t.store.sessions
    → (serve x db q t).0.code ≡ 204
    → Reach x (serve x db q t).1 t'
    → q.now ≤ now'
    → verify_cookie x.codec cookie ≡ some session_id
    → IsRenewed x db' q i p now' cookie t (serve x db q t).1 t'
change_password-IsRenewed x db db' q i p seen cookie session_id now' t t' a h o k r le v =
    let e = serve-password_change x db q i p seen t a h k in
    let s = see_session_row db seen q.now t.store in
    let c : IsChanged x db q.now i p s (serve x db q t).1.store =
      rw e (change_password-Changes x db q.now i p s (rw e at k)) in
    let o' : IsOther session_id p.session_id p.user_id s.sessions = record {
      known = see_session_row-known db seen session_id q.now t.store ∙ o.known;
      of_user = see_session_row-owned db seen session_id p.user_id q.now t.store ∙ o.of_user;
      other = o.other;
    } in
    let (own, users) =
      change_user_password-own db db' p.user_id now' q.now c.hash p.session_id c.log s c.ran in
    record {
      hash = c.hash;
      hashed = c.hashed;
      users =
          ap (λ z. z.users) c.result
          ∙ users
          ∙ ap (map (set_password p.user_id c.hash q.now))
              (see_session_row-users db seen q.now t.store);
      own =
          ap (λ z. principal_by_session db' now' z p.session_id) c.result
          ∙ own
          ∙ see_session_row-principal_by_session db db' now' q.now p.session_id seen t.store;
      others =
          ended-authenticate x (serve x db q t).1 t' q.now now' cookie session_id db'
            (rw c.result (
              change_user_password-IsEnded db p.user_id c.hash p.session_id session_id c.log q.now s
                o' c.ran))
            r le v;
    }
