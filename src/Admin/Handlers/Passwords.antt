-- ===== src/Admin/Handlers/Passwords.antt =====
-- internal/admin/handlers.go: what a new password does to the user's sessions.
pub mod Own
pub mod Sessions
use new_api_gateway.Prelude.{
  ℕ, ◌≤◌, String, Bool, true, false, ◌&&◌, ◌||◌, not, List, [], ◌∷◌, map, Option, none, some, ◌≡◌,
  ◌≢◌, refl, sym, ap, ◌∙◌, inl, inr, arith, ltb, leb, any, all, ◌==◌, nat_eq, string_eq, Bool-cases,
  if◌then◌else◌,
}
use new_api_gateway.Admin.Auth.{Verdict, status, pass, verify_cookie}
use new_api_gateway.Admin.Repository.{
  User, Session, ActionLog, Principal, Store, Db, Answer, row, no_rows, failed, first, answer,
  is_some, find_user, find_active_user_by_id, see, see_session_row, see_session, revoke_other,
  change_password, change_user_password,
}
use new_api_gateway.Admin.Repository.Ended.{
  IsEnded, has_id, shut_row, see-Keeps, revoke_other-Keeps, map-known,
}
use new_api_gateway.Admin.Handlers.{
  Services, Reply, error, entry, PasswordInput, is_bad_password, no_content, store_password,
  replace_password, change_password_of,
}
use new_api_gateway.Admin.Handlers as Handlers
use new_api_gateway.Admin.Handlers.Routing.{
  password_change, Request, Panel, authenticate, serve, Reach, route_of, guards_of, behind,
  behind_session, perform, decide, verdict_of,
}
use new_api_gateway.Admin.Handlers.Guards.{is_refusal, verdict_of-is_refusal}
use new_api_gateway.Admin.Handlers.Revoked.{ended-authenticate, see_session_row-known}

-- The row is not of the session, or it is the user's.
abbrev pub owned : String → ℕ → Session → Bool
owned session_id user_id r = not (r.session_id == session_id) || r.user_id == user_id

if-shut :
    (b : Bool) (now t : ℕ) (session_id : String) (r : Session)
    → (b ≡ false → shut_row t session_id r ≡ true)
    → shut_row t session_id (if b then record r { revoked_at = some now } else r) ≡ true
if-shut true now t session_id r h = ground arith
if-shut false now t session_id r h = h refl

-- The session of a row `a` says whether it is the one, `u` whether the user's, and `k` whether it is kept.
ended_row :
    (a u k rv : Bool) (e n : ℕ)
    → (a ≡ true → k ≡ false)
    → (not a || u) ≡ true
    → (u && not k && not rv && ltb n e) ≡ false
    → (not a || rv || leb e n) ≡ true
ended_row false u k rv e n h o c = refl
ended_row true u k rv e n h o c = let kept = h refl in ground arith

revoke_other-shut :
    (session_id keep : String) (user_id now : ℕ) (r : Session)
    → session_id == keep ≡ false
    → owned session_id user_id r ≡ true
    → shut_row now session_id (revoke_other user_id keep now r) ≡ true
unfolding revoke_other
revoke_other-shut session_id keep user_id now r other o =
    if-shut
      (r.user_id == user_id
        && not (r.session_id == keep)
        && not (is_some r.revoked_at)
        && ltb now r.expires_at)
      now now session_id r
      (ended_row (r.session_id == session_id) (r.user_id == user_id) (r.session_id == keep)
        (is_some r.revoked_at) r.expires_at now
        (λ same. ap (λ i. i == keep) ((string_eq.same_iff r.session_id session_id).0 same) ∙ other)
        o)

and_true : (a b : Bool) → (a && b) ≡ true → (a ≡ true) × (b ≡ true)
and_true a b h = (ground arith, ground arith)

revoke_other-all :
    (session_id keep : String) (user_id now : ℕ) (rows : List Session)
    → session_id == keep ≡ false
    → all (owned session_id user_id) rows ≡ true
    → all (shut_row now session_id) (map (revoke_other user_id keep now) rows) ≡ true
revoke_other-all session_id keep user_id now [] other o = refl
revoke_other-all session_id keep user_id now (r ∷ rows) other o =
    let (h, k) = and_true (owned session_id user_id r) (all (owned session_id user_id) rows) o in
    rw (
      revoke_other-shut session_id keep user_id now r other h,
      revoke_other-all session_id keep user_id now rows other k,
    )

-- Another session of the user, among those of the table.
pub record IsOther (session_id keep : String) (user_id : ℕ) (rows : List Session) : Type 0 where
  pub known : any (has_id session_id) rows ≡ true
  pub of_user : all (owned session_id user_id) rows ≡ true
  pub other : session_id == keep ≡ false

pub change_user_password-IsEnded :
    (db : Db) (user_id : ℕ) (hash keep session_id : String) (l : ActionLog) (now : ℕ) (s : Store)
    → IsOther session_id keep user_id s.sessions
    → (change_user_password db user_id hash keep l now s).0 ≡ true
    → IsEnded now session_id (change_user_password db user_id hash keep l now s).1.sessions
unfolding change_user_password
change_user_password-IsEnded db user_id hash keep session_id l now s o h =
    elim (Bool-cases (db change_password)) [
      | inl up ↦ rw up (record {
        known =
            map-known (revoke_other user_id keep now) (revoke_other-Keeps user_id keep now)
              session_id s.sessions
            ∙ o.known;
        shut = revoke_other-all session_id keep user_id now s.sessions o.other o.of_user;
      })
      | inr down ↦ absurd (ground (arith, rw down at h))
    ]

-- What has happened when a change of the password is answered with 204: the statement has run, for the user of
-- the principal and the hash of the new password, and has kept the principal's own session.
pub record IsChanged (x : Services) (db : Db) (now : ℕ) (i : PasswordInput) (p : Principal)
    (before after : Store) : Type 0 where
  pub hash : String
  pub log : ActionLog
  pub hashed : x.hash_password i.new_password ≡ some hash
  pub ran : (change_user_password db p.user_id hash p.session_id log now before).0 ≡ true
  pub result : after ≡ (change_user_password db p.user_id hash p.session_id log now before).1

-- A user that was asked for by the identifier.
abbrev Found : ℕ → Answer User → Type 0
Found user_id (row u) = u.id ≡ user_id
Found user_id no_rows = Unit
Found user_id failed = Unit

first-Found :
    (user_id : ℕ) (users : List User)
    → Found user_id (answer (first (λ u. u.id == user_id && u.active) users))
first-Found user_id [] = tt
first-Found user_id (u ∷ users) = elim (Bool-cases (u.id == user_id && u.active)) [
  | inl found ↦
      rw found ((nat_eq.same_iff u.id user_id).0 (and_true (u.id == user_id) u.active found).0)
  | inr other ↦ rw other (first-Found user_id users)
]

find_active_user_by_id-Found :
    (db : Db) (user_id : ℕ) (s : Store) → Found user_id (find_active_user_by_id db user_id s)
unfolding find_active_user_by_id
find_active_user_by_id-Found db user_id s = elim (Bool-cases (db find_user)) [
  | inl up ↦ rw up (first-Found user_id s.users)
  | inr down ↦ rw down tt
]

module _ (x : Services) (db : Db) (now : ℕ) (i : PasswordInput) (p : Principal) (s : Store) where
  -- What an answer of 204 says.
  abbrev pub Changes : Reply × Store → Type 0
  Changes (r, s') = r.code ≡ 204 → IsChanged x db now i p s s'

  no_content-Changes :
      (o : Bool × Store) → (o.0 ≡ true → IsChanged x db now i p s o.1) → Changes (no_content o)
  no_content-Changes (false, s') h = λ k. absurd (omega (arith, k))
  no_content-Changes (true, s') h = λ k. h refl

  reject-Changes :
      (b : Bool) (n : ℕ) (y : Reply × Store)
      → n ≢ 204
      → Changes y
      → Changes (if b then (error n, s) else y)
  reject-Changes true n y h k = λ e. absurd (h e)
  reject-Changes false n y h k = k

  store_password-Changes :
      (u : User) (hash : Option String)
      → u.id ≡ p.user_id
      → x.hash_password i.new_password ≡ hash
      → Changes (store_password db now p u hash s)
  unfolding store_password
  store_password-Changes u none e h = λ k. absurd (omega (arith, k))
  store_password-Changes u (some hash) e h =
      let log =
        entry u.id u.username "password_changed" "audit_user" u.username
          "{\"revoked_other_sessions\":true}" now in
      no_content-Changes (change_user_password db u.id hash p.session_id log now s) (λ ran. record {
        hash = hash;
        log = log;
        hashed = h;
        ran = rw (sym e) ran;
        result = rw (sym e) refl;
      })

  replace_password-Changes :
      (a : Answer User) → Found p.user_id a → Changes (replace_password x db now i p s a)
  unfolding replace_password
  replace_password-Changes no_rows f = λ k. absurd (omega (arith, k))
  replace_password-Changes failed f = λ k. absurd (omega (arith, k))
  replace_password-Changes (row u) e =
      let stored = store_password db now p u (x.hash_password i.new_password) s in
      reject-Changes (not (x.check_password u.password_hash i.current_password)) 401
        (if x.check_password u.password_hash i.new_password then (error 400, s) else stored)
        (λ k. omega (arith, k))
        (reject-Changes (x.check_password u.password_hash i.new_password) 400 stored
          (λ k. omega (arith, k))
          (store_password-Changes u (x.hash_password i.new_password) e refl))

  pub change_password-Changes : Changes (Handlers.change_password x db now (some i) (some p) s)
  unfolding Handlers.change_password change_password_of find_active_user_by_id
  change_password-Changes =
      reject-Changes (is_bad_password i) 400
        (replace_password x db now i p s (find_active_user_by_id db p.user_id s))
        (λ k. omega (arith, k))
        (replace_password-Changes (find_active_user_by_id db p.user_id s)
          (find_active_user_by_id-Found db p.user_id s))
