-- ===== src/Admin/Repository/Ended.antt =====
-- internal/admin/repository.go: the end of a session, which no statement undoes.
use new_api_gateway.Prelude.{
  ℕ, ◌≤◌, String, Bool, true, false, ◌&&◌, ◌||◌, not, List, [], ◌∷◌, ◌++◌, map, none, some, ltb,
  leb, ◌≡◌, refl, sym, ap, ◌∙◌, inl, inr, arith, ◌==◌, nat_eq, string_eq, if◌then◌else◌, Bool-cases,
  any, all,
}
use new_api_gateway.Admin.Repository.{
  Session, User, is_some, is_accepted, principal_in, see, revoke, revoke_other,
}

-- A row of another session, or of one that has ended by the time.
abbrev pub shut_row : ℕ → String → Session → Bool
shut_row t session_id r =
    not (r.session_id == session_id) || is_some r.revoked_at || leb r.expires_at t

abbrev pub has_id : String → Session → Bool
has_id session_id r = r.session_id == session_id

-- The session is in the table, and has ended by the time.
pub record IsEnded (t : ℕ) (session_id : String) (sessions : List Session) : Type 0 where
  pub known : any (has_id session_id) sessions ≡ true
  pub shut : all (shut_row t session_id) sessions ≡ true

-- A change of the rows that keeps their identifiers, and the end of those that have ended.
abbrev pub Keeps : (Session → Session) → Type 0
Keeps f =
    (t : ℕ) (session_id : String) (r : Session)
    → (has_id session_id (f r) ≡ has_id session_id r)
      × (shut_row t session_id r ≡ true → shut_row t session_id (f r) ≡ true)

pub map-known :
    (f : Session → Session)
    → Keeps f
    → (session_id : String) (rows : List Session)
    → any (has_id session_id) (map f rows) ≡ any (has_id session_id) rows
map-known f k session_id [] = refl
map-known f k session_id (r ∷ rows) = rw ((k 0 session_id r).0, map-known f k session_id rows)

and_true : (a b : Bool) → (a && b) ≡ true → (a ≡ true) × (b ≡ true)
and_true a b h = (ground arith, ground arith)

map-shut :
    (f : Session → Session)
    → Keeps f
    → (t : ℕ) (session_id : String) (rows : List Session) → all (shut_row t session_id) rows ≡ true
    → all (shut_row t session_id) (map f rows) ≡ true
map-shut f k t session_id [] h = refl
map-shut f k t session_id (r ∷ rows) h =
    let (hr, hrows) = and_true (shut_row t session_id r) (all (shut_row t session_id) rows) h in
    rw ((k t session_id r).1 hr, map-shut f k t session_id rows hrows)

pub map-IsEnded :
    (f : Session → Session)
    → Keeps f
    → (t : ℕ) (session_id : String) (rows : List Session) → IsEnded t session_id rows
    → IsEnded t session_id (map f rows)
map-IsEnded f k t session_id rows h = record {
  known = map-known f k session_id rows ∙ h.known;
  shut = map-shut f k t session_id rows h.shut;
}

pub see-Keeps : (session_id : String) (now : ℕ) → Keeps (see session_id now)
see-Keeps sid now t session_id r = elim (Bool-cases (r.session_id == sid)) [
  | inl same ↦ rw same (refl, λ h. h)
  | inr other ↦ rw other (refl, λ h. h)
]

or_revoked : (a b : Bool) → (a || true || b) ≡ true
or_revoked a b = ground arith

pub revoke-Keeps : (session_id : String) (now : ℕ) → Keeps (revoke session_id now)
revoke-Keeps sid now t session_id r = elim (Bool-cases (r.session_id == sid)) [
  | inl same ↦
      rw same (refl, λ h. or_revoked (not (r.session_id == session_id)) (leb r.expires_at t))
  | inr other ↦ rw other (refl, λ h. h)
]

if-Keeps :
    (b : Bool) (now t : ℕ) (session_id : String) (r : Session)
    → (has_id session_id (if b then record r { revoked_at = some now } else r)
        ≡ has_id session_id r)
      × (shut_row t session_id r ≡ true
          → shut_row t session_id (if b then record r { revoked_at = some now } else r) ≡ true)
if-Keeps true now t session_id r =
    (refl, λ h. or_revoked (not (r.session_id == session_id)) (leb r.expires_at t))
if-Keeps false now t session_id r = (refl, λ h. h)

pub revoke_other-Keeps :
    (user_id : ℕ) (keep : String) (now : ℕ) → Keeps (revoke_other user_id keep now)
unfolding revoke_other
revoke_other-Keeps user_id keep now t session_id r =
    if-Keeps
      (r.user_id == user_id
        && not (r.session_id == keep)
        && not (is_some r.revoked_at)
        && ltb now r.expires_at)
      now t session_id r

any_append :
    (p : Session → Bool) (rows new : List Session) → any p (rows ++ new) ≡ (any p rows || any p new)
any_append p [] new = refl
any_append p (r ∷ rows) new = let ih = any_append p rows new in rw ih (ground arith)

all_append :
    (p : Session → Bool) (rows new : List Session) → all p (rows ++ new) ≡ (all p rows && all p new)
all_append p [] new = refl
all_append p (r ∷ rows) new = let ih = all_append p rows new in rw ih (ground arith)

-- A row with another identifier.
pub add-IsEnded :
    (new : Session) (t : ℕ) (session_id : String) (rows : List Session)
    → any (has_id new.session_id) rows ≡ false
    → IsEnded t session_id rows
    → IsEnded t session_id (rows ++ new ∷ [])
add-IsEnded new t session_id rows fresh h = elim (Bool-cases (new.session_id == session_id)) [
  | inl same ↦
      let e : any (has_id new.session_id) rows ≡ any (has_id session_id) rows =
        ap (λ i. any (has_id i) rows) ((string_eq.same_iff new.session_id session_id).0 same) in
      absurd (ground (arith, sym e ∙ fresh, h.known))
  | inr other ↦ record {
    known = any_append (has_id session_id) rows (new ∷ []) ∙ rw h.known refl;
    shut = all_append (shut_row t session_id) rows (new ∷ []) ∙ rw (h.shut, other) refl;
  }
]

shut-is_accepted :
    (a b : Bool) (e t n : ℕ)
    → t ≤ n
    → (not a || b || leb e t) ≡ true
    → (a && not b && ltb n e) ≡ false
shut-is_accepted a b e t n h k = ground arith

-- An ended session has no principal any more.
pub principal_in-IsEnded :
    (users : List User) (t now : ℕ) (session_id : String) (rows : List Session)
    → t ≤ now
    → all (shut_row t session_id) rows ≡ true
    → principal_in users now session_id rows ≡ none
unfolding principal_in is_accepted
principal_in-IsEnded users t now session_id [] h k = refl
principal_in-IsEnded users t now session_id (r ∷ rows) h k =
    let (kr, krows) = and_true (shut_row t session_id r) (all (shut_row t session_id) rows) k in
    rw (
      shut-is_accepted (r.session_id == session_id) (is_some r.revoked_at) r.expires_at t now h kr,
      principal_in-IsEnded users t now session_id rows h krows,
    )

revoked-shut :
    (session_id : String) (now t : ℕ) (r : Session)
    → shut_row t session_id (revoke session_id now r) ≡ true
revoked-shut session_id now t r = elim (Bool-cases (r.session_id == session_id)) [
  | inl same ↦ rw same (or_revoked (not (r.session_id == session_id)) (leb r.expires_at t))
  | inr other ↦ rw (other, other) refl
]

-- A session is ended, at any time, when it is revoked.
pub revoke-shut :
    (session_id : String) (now t : ℕ) (rows : List Session)
    → all (shut_row t session_id) (map (revoke session_id now) rows) ≡ true
revoke-shut session_id now t [] = refl
revoke-shut session_id now t (r ∷ rows) =
    rw (revoked-shut session_id now t r, revoke-shut session_id now t rows)
