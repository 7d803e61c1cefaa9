-- ===== src/Admin/Handlers/Passwords/Own.antt =====
-- internal/admin/repository.go: a new password leaves the session that has set it.
use new_api_gateway.Prelude.{
  ℕ, String, Bool, true, false, ◌&&◌, not, List, [], ◌∷◌, map, Option, some, ◌≡◌, refl, ap, ◌∙◌,
  inl, inr, arith, ltb, ◌==◌, nat_eq, string_eq, if◌then◌else◌, Bool-cases,
}
use new_api_gateway.Admin.Repository.{
  User, Session, Principal, ActionLog, Store, Db, or_else, is_some, joined, principal_of,
  is_accepted, principal_in, principal_by_session, find_principal, see, see_session_row,
  see_session, set_password, revoke_other, change_user_password, change_password,
}

-- What a row gives to a query for a session.
abbrev row_in : List User → ℕ → String → Session → Option Principal → Option Principal
row_in users now session_id r rest =
    if is_accepted now session_id r then or_else (joined users r) rest else rest

-- A row that has been seen gives the same.
see-row_in :
    (users : List User) (now at' : ℕ) (session_id seen : String) (r : Session)
    (rest : Option Principal)
    → row_in users now session_id (see seen at' r) rest ≡ row_in users now session_id r rest
unfolding is_accepted
see-row_in users now at' session_id seen r rest = elim (Bool-cases (r.session_id == seen)) [
  | inl same ↦ rw same refl
  | inr other ↦ rw other refl
]

see-principal_in :
    (users : List User) (now at' : ℕ) (session_id seen : String) (rows : List Session)
    → principal_in users now session_id (map (see seen at') rows)
      ≡ principal_in users now session_id rows
unfolding principal_in
see-principal_in users now at' session_id seen [] = refl
see-principal_in users now at' session_id seen (r ∷ rows) =
    see-row_in users now at' session_id seen r
      (principal_in users now session_id (map (see seen at') rows))
    ∙ ap (row_in users now session_id r) (see-principal_in users now at' session_id seen rows)

pub see_session_row-principal_by_session :
    (db db' : Db) (now at' : ℕ) (session_id seen : String) (s : Store)
    → principal_by_session db' now (see_session_row db seen at' s) session_id
      ≡ principal_by_session db' now s session_id
unfolding principal_by_session see_session_row
see_session_row-principal_by_session db db' now at' session_id seen s =
    elim (Bool-cases (db see_session)) [
      | inr down ↦ rw down refl
      | inl up ↦ elim (Bool-cases (db' find_principal)) [
        | inr away ↦ rw (up, away) refl
        | inl there ↦ rw (up, there) (see-principal_in s.users now at' session_id seen s.sessions)
      ]
    ]

pick :
    (r : Session) (b : Bool) (v u : User) (o o' : Option User)
    → principal_of r (some v) ≡ principal_of r (some u)
    → principal_of r o ≡ principal_of r o'
    → principal_of r (if b then some v else o) ≡ principal_of r (if b then some u else o')
pick r true v u o o' h k = h
pick r false v u o o' h k = k

-- The users with the new hash are joined with the same rows, to the same principals.
set_password-joined :
    (user_id at' : ℕ) (hash : String) (r : Session) (users : List User)
    → joined (map (set_password user_id hash at') users) r ≡ joined users r
set_password-joined user_id at' hash r [] = refl
set_password-joined user_id at' hash r (u ∷ users) = elim (Bool-cases (u.id == user_id)) [
  | inl same ↦ rw same (
      pick r (u.id == r.user_id && u.active) (record u { password_hash = hash; updated_at = at' }) u
        _ _ refl (set_password-joined user_id at' hash r users))
  | inr other ↦ rw other (
      pick r (u.id == r.user_id && u.active) u u _ _ refl
        (set_password-joined user_id at' hash r users))
]

-- A row of the session that is kept stays as it is, and the other rows are not asked.
kept_test : (u k rv e : Bool) → k ≡ true → (u && not k && not rv && e) ≡ false
kept_test u k rv e h = ground arith

other_row :
    (b : Bool) (at' now : ℕ) (keep : String) (r : Session)
    → r.session_id == keep ≡ false
    → is_accepted now keep (if b then record r { revoked_at = some at' } else r) ≡ false
unfolding is_accepted
other_row true at' now keep r h = rw h refl
other_row false at' now keep r h = rw h refl

revoke_other-row_in :
    (users : List User) (user_id now at' : ℕ) (keep hash : String) (r : Session)
    (rest : Option Principal)
    → row_in
        (map (set_password user_id hash at') users)
        now
        keep
        (revoke_other user_id keep at' r)
        rest
      ≡ row_in users now keep r rest
unfolding revoke_other
revoke_other-row_in users user_id now at' keep hash r rest =
    elim (Bool-cases (r.session_id == keep)) [
      | inl same ↦
          rw
            (
              kept_test (r.user_id == user_id) (r.session_id == keep) (is_some r.revoked_at)
                  (ltb at' r.expires_at) same,
              set_password-joined user_id at' hash r users,
            )
            refl
      | inr other ↦
          rw
            (
              other_row
                  (r.user_id == user_id
                    && not (r.session_id == keep)
                    && not (is_some r.revoked_at)
                    && ltb at' r.expires_at)
                  at' now keep r other,
              other_row false at' now keep r other,
            )
            refl
    ]

revoke_other-principal_in :
    (users : List User) (user_id now at' : ℕ) (keep hash : String) (rows : List Session)
    → principal_in
        (map (set_password user_id hash at') users)
        now
        keep
        (map (revoke_other user_id keep at') rows)
      ≡ principal_in users now keep rows
unfolding principal_in
revoke_other-principal_in users user_id now at' keep hash [] = refl
revoke_other-principal_in users user_id now at' keep hash (r ∷ rows) =
    revoke_other-row_in users user_id now at' keep hash r (
      principal_in (map (set_password user_id hash at') users) now keep
        (map (revoke_other user_id keep at') rows))
    ∙ ap (row_in users now keep r) (revoke_other-principal_in users user_id now at' keep hash rows)

-- The statement leaves the session that it keeps to its principal, and sets the hash.
pub change_user_password-own :
    (db db' : Db) (user_id now at' : ℕ) (hash keep : String) (l : ActionLog) (s : Store)
    → (change_user_password db user_id hash keep l at' s).0 ≡ true
    → let s' = (change_user_password db user_id hash keep l at' s).1 in
      (principal_by_session db' now s' keep ≡ principal_by_session db' now s keep)
      × (s'.users ≡ map (set_password user_id hash at') s.users)
unfolding change_user_password principal_by_session
change_user_password-own db db' user_id now at' hash keep l s h =
    elim (Bool-cases (db change_password)) [
      | inr down ↦ absurd (ground (arith, rw down at h))
      | inl up ↦ elim (Bool-cases (db' find_principal)) [
        | inr away ↦ rw (up, away) (refl, refl)
        | inl there ↦
            rw (up, there)
              (revoke_other-principal_in s.users user_id now at' keep hash s.sessions, refl)
      ]
    ]
