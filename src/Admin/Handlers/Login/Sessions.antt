-- ===== src/Admin/Handlers/Login/Sessions.antt =====
-- internal/admin/auth.go: a request with the cookie of a login is the user's.
use new_api_gateway.Prelude.{
  ℕ, ◌+◌, ◌<◌, String, Bool, true, false, ◌&&◌, ◌||◌, List, [], ◌∷◌, ◌++◌, Option, some, ◌≡◌, refl,
  ap, ◌∙◌, inl, inr, arith, ltb, any, ◌==◌, nat_eq, string_eq, Bool-cases,
}
use new_api_gateway.Text.{is_empty}
use new_api_gateway.Admin.Auth.{
  sign_session_id, verify_cookie, middleware, with_session, with_principal,
}
use new_api_gateway.Admin.Auth.Cookies.{IsSession, verify_cookie-sign_session_id}
use new_api_gateway.Admin.Repository.{
  User, Session, Principal, Store, Db, Answer, row, no_rows, failed, first, answer, joined,
  principal_of, is_accepted, principal_in, principal_by_session, find_principal, find_user,
  find_active_user_by_username,
}
use new_api_gateway.Admin.Repository.Ended.{has_id}
use new_api_gateway.Admin.Handlers.{Services, Reply, login}
use new_api_gateway.Admin.Handlers.Routing.{
  logging_in, Request, Panel, authenticate, serve, route_of, guards_of, behind, perform, on_store,
}
use new_api_gateway.Admin.Handlers.Login.{IsOpened, new_session, login-IsOpened}

-- The test that joins a session with its user.
abbrev is_user : ℕ → User → Bool
is_user user_id u = u.id == user_id && u.active

-- A user that a query has found can be found by its identifier.
abbrev Known : List User → Answer User → Type 0
Known users (row u) = any (is_user u.id) users ≡ true
Known users no_rows = Unit
Known users failed = Unit

or_right : (a b : Bool) → b ≡ true → (a || b) ≡ true
or_right a b h = ground arith

own : (a b c : Bool) → a ≡ true → b ≡ true → ((a && b) || c) ≡ true
own a b c h k = ground arith

and_left : (a b : Bool) → (a && b) ≡ true → a ≡ true
and_left a b h = ground arith

and_right : (a b : Bool) → (a && b) ≡ true → b ≡ true
and_right a b h = ground arith

cons-Known : (u : User) (users : List User) (a : Answer User) → Known users a → Known (u ∷ users) a
cons-Known u users (row v) h = or_right (is_user v.id u) (any (is_user v.id) users) h
cons-Known u users no_rows h = tt
cons-Known u users failed h = tt

first-Known :
    (username : String) (users : List User)
    → Known users (answer (first (λ u. u.username == username && u.active) users))
first-Known username [] = tt
first-Known username (u ∷ users) = elim (Bool-cases (u.username == username && u.active)) [
  | inl found ↦ rw found (
      own (u.id == u.id) u.active (any (is_user u.id) users) ((nat_eq.same_iff u.id u.id).1 refl)
        (and_right (u.username == username) u.active found))
  | inr other ↦ rw other (cons-Known u users _ (first-Known username users))
]

find-Known :
    (db : Db) (username : String) (s : Store)
    → Known s.users (find_active_user_by_username db username s)
unfolding find_active_user_by_username
find-Known db username s = elim (Bool-cases (db find_user)) [
  | inl up ↦ rw up (first-Known username s.users)
  | inr down ↦ rw down tt
]

first-some :
    (p : User → Bool) (users : List User)
    → any p users ≡ true
    → (u : User) × (first p users ≡ some u) × (p u ≡ true)
first-some p [] h = absurd (cc)
first-some p (u ∷ users) h = elim (Bool-cases (p u)) [
  | inl found ↦ (u, rw found refl, found)
  | inr other ↦ let (v, e, k) = first-some p users (rw other at h) in (v, rw (other, e) refl, k)
]

fresh_and : (a b : Bool) → (a || b) ≡ false → (a ≡ false) × (b ≡ false)
fresh_and a b h = (ground arith, ground arith)

-- Rows of other sessions do not matter.
principal_in-append :
    (users : List User) (now : ℕ) (session_id : String) (rows : List Session) (new : Session)
    (p : Principal)
    → any (has_id session_id) rows ≡ false
    → is_accepted now session_id new ≡ true
    → joined users new ≡ some p
    → principal_in users now session_id (rows ++ new ∷ []) ≡ some p
unfolding principal_in is_accepted
principal_in-append users now session_id [] new p h k j = rw (k, j) refl
principal_in-append users now session_id (r ∷ rows) new p h k j =
    let (other, rest) = fresh_and (has_id session_id r) (any (has_id session_id) rows) h in
    rw (other, principal_in-append users now session_id rows new p rest k j) refl

new_session-is_accepted :
    (now now' : ℕ) (u : User) (session_id token : String)
    → now' < now + 43200
    → is_accepted now' session_id (new_session now u session_id token) ≡ true
unfolding is_accepted
new_session-is_accepted now now' u session_id token h =
    let open_ : ltb now' (now + 43200) ≡ true = ground arith in
    rw ((string_eq.same_iff session_id session_id).1 refl, open_) refl

-- The principal of a user, with the session's identifier and its CSRF token.
pub record IsPrincipal (user_id : ℕ) (session_id token : String) (p : Principal) : Type 0 where
  pub same_user : p.user_id ≡ user_id
  pub same_session : p.session_id ≡ session_id
  pub same_token : p.csrf_token ≡ token

-- A request with the cookie has the user's principal.
pub record IsSignedIn (x : Services) (db : Db) (now : ℕ) (cookie : Option String) (s : Store)
    (user_id : ℕ) (session_id token : String) : Type 0 where
  pub principal : Principal
  pub accepted : authenticate x db now cookie s ≡ some (principal, session_id)
  pub identity : IsPrincipal user_id session_id token principal

by_session :
    (db : Db) (now : ℕ) (s : Store) (session_id : String)
    → db find_principal ≡ true
    → principal_by_session db now s session_id ≡ principal_in s.users now session_id s.sessions
unfolding principal_by_session
by_session db now s session_id h = rw h refl

authenticate-some :
    (x : Services) (db : Db) (now : ℕ) (cookie session_id : String) (s : Store) (p : Principal)
    → verify_cookie x.codec cookie ≡ some session_id
    → principal_by_session db now s session_id ≡ some p
    → authenticate x db now (some cookie) s ≡ some (p, session_id)
unfolding authenticate middleware with_session with_principal
authenticate-some x db now cookie session_id s p h k = rw (h, k) refl

serve-login :
    (x : Services) (db : Db) (q : Request) (i : Option (String × String)) (id token : Option String)
    (t : Panel)
    → q.action ≡ logging_in i id token
    → serve x db q t ≡ on_store t (login x db q.now i id token t.store)
unfolding serve behind perform guards_of route_of
serve-login x db q i id token t a = rw a refl

module _ (x : Services) (decode-encode : (s : String) → x.codec.decode (x.codec.encode s) ≡ some s)
    (session_id : String) (valid : IsSession session_id)
    (signed : is_empty (x.codec.encode (x.codec.mac session_id)) ≡ false) where
  opened-IsSignedIn :
      (db db' : Db) (now now' : ℕ) (username password token : String) (s : Store)
      (r : Reply × Store) (o : IsOpened x db now username password session_id token s r)
      → now' < now + 43200
      → db' find_principal ≡ true
      → IsSignedIn x db' now' r.0.session_cookie r.1 o.user.id session_id token
  opened-IsSignedIn db db' now now' username password token s r o h up =
      let (v, joined', found) =
        first-some (is_user o.user.id) s.users (rw o.found at (find-Known db username s)) in
      let new = new_session now o.user session_id token in
      let p : Principal = record {
        user_id = v.id;
        username = v.username;
        display_name = v.display_name;
        role = v.role;
        csrf_token = token;
        session_id = session_id;
      } in
      record {
        principal = p;
        accepted = rw o.cookie (
            authenticate-some x db' now' (sign_session_id x.codec session_id) session_id r.1 p
              (verify_cookie-sign_session_id x.codec decode-encode session_id valid signed)
              (by_session db' now' r.1 session_id up
                ∙ rw (o.users, o.sessions)
                    (principal_in-append s.users now' session_id s.sessions new p o.fresh
                      (new_session-is_accepted now now' o.user session_id token h)
                      (ap (principal_of new) joined'))));
        identity = record {
          same_user =
              (nat_eq.same_iff v.id o.user.id).0 (and_left (v.id == o.user.id) v.active found);
          same_session = refl;
          same_token = refl;
        };
      }

  -- A login that is answered with 200 has found an active user of the name with that password, and the cookie
  -- that it sets signs the user in for 12 hours: a request with it, while the database answers and before
  -- any other request, has the user's principal with the session's CSRF token. The encoding decodes back, and
  -- the new session identifier is one that a cookie can hold.
  pub login-IsSignedIn :
      (db db' : Db) (q : Request) (now' : ℕ) (username password token : String) (t : Panel)
      → q.action ≡ logging_in (some (username, password)) (some session_id) (some token)
      → (serve x db q t).0.code ≡ 200
      → now' < q.now + 43200
      → db' find_principal ≡ true
      → (u : User) × (find_active_user_by_username db username t.store ≡ row u)
        × (x.check_password u.password_hash password ≡ true)
        × (let o = serve x db q t in
            IsSignedIn x db' now' o.0.session_cookie o.1.store u.id session_id token)
  login-IsSignedIn db db' q now' username password token t a k h up =
      let e = serve-login x db q (some (username, password)) (some session_id) (some token) t a in
      let o = login-IsOpened x db q.now username password session_id token t.store (rw e at k) in
      (
        o.user,
        o.found,
        o.checked,
        rw e (
            opened-IsSignedIn db db' q.now now' username password token t.store
              (login x db q.now (some (username, password)) (some session_id) (some token) t.store)
              o h up),
      )
