-- ===== src/Admin/Handlers/Revoked.antt =====
-- internal/admin/handlers.go: sessions that a logout or a new password ends.
use new_api_gateway.Prelude.{
  ℕ, ◌≤◌, String, Bool, true, false, Option, none, some, ◌≡◌, refl, ◌∙◌, inl, inr, arith, any,
  Bool-cases,
}
use new_api_gateway.Admin.Auth.{verify_cookie, middleware, with_session, with_principal}
use new_api_gateway.Admin.Repository.{
  Principal, Store, Db, principal_by_session, see, see_session_row, see_session, revoke,
  revoke_session_row, revoke_session, find_principal,
}
use new_api_gateway.Admin.Repository.Ended.{
  IsEnded, has_id, see-Keeps, revoke-Keeps, map-known, revoke-shut, principal_in-IsEnded,
}
use new_api_gateway.Admin.Handlers.{Services, note_logout, seen, end_session, logout}
use new_api_gateway.Admin.Handlers.Routing.{
  logging_out, Request, Panel, authenticate, serve, Reach, route_of, guards_of, behind, perform,
  on_store,
}
use new_api_gateway.Admin.Handlers.Later.{note_logout-Later}
use new_api_gateway.Admin.Handlers.Later.Requests.{Reach-Later}

authenticate-none :
    (x : Services) (db : Db) (now : ℕ) (cookie session_id : String) (s : Store)
    → verify_cookie x.codec cookie ≡ some session_id
    → principal_by_session db now s session_id ≡ none
    → authenticate x db now (some cookie) s ≡ none
unfolding authenticate middleware with_session with_principal
authenticate-none x db now cookie session_id s h k = rw (h, k) refl

principal_by_session-none :
    (db : Db) (t now : ℕ) (session_id : String) (s : Store)
    → t ≤ now
    → IsEnded t session_id s.sessions
    → principal_by_session db now s session_id ≡ none
unfolding principal_by_session
principal_by_session-none db t now session_id s h e = elim (Bool-cases (db find_principal)) [
  | inl up ↦ rw up (principal_in-IsEnded s.users t now session_id s.sessions h e.shut)
  | inr down ↦ rw down refl
]

-- A session that has ended by a time is not accepted at that time or later, whatever requests come between.
pub ended-authenticate :
    (x : Services) (t t' : Panel) (at' now : ℕ) (cookie session_id : String) (db : Db)
    → IsEnded at' session_id t.store.sessions
    → Reach x t t'
    → at' ≤ now
    → verify_cookie x.codec cookie ≡ some session_id
    → authenticate x db now (some cookie) t'.store ≡ none
ended-authenticate x t t' at' now cookie session_id db h r le v =
    authenticate-none x db now cookie session_id t'.store v (
      principal_by_session-none db at' now session_id t'.store le
        ((Reach-Later x t t' r).ended at' session_id h))

pub see_session_row-known :
    (db : Db) (sid session_id : String) (now : ℕ) (s : Store)
    → any (has_id session_id) (see_session_row db sid now s).sessions
      ≡ any (has_id session_id) s.sessions
unfolding see_session_row
see_session_row-known db sid session_id now s = elim (Bool-cases (db see_session)) [
  | inl up ↦ rw up (map-known (see sid now) (see-Keeps sid now) session_id s.sessions)
  | inr down ↦ rw down refl
]

seen-known :
    (db : Db) (sid session_id : String) (now : ℕ) (p : Option Principal) (s : Store)
    → any (has_id session_id) (seen db now sid p s).sessions ≡ any (has_id session_id) s.sessions
seen-known db sid session_id now none s = refl
seen-known db sid session_id now (some p) s = see_session_row-known db sid session_id now s

note_logout-done :
    (db : Db) (now : ℕ) (p : Option Principal) (o : Bool × Store)
    → (note_logout db now p o).0.code ≡ 204
    → o.0 ≡ true
unfolding note_logout
note_logout-done db now p (false, s) h = absurd (omega (arith, h))
note_logout-done db now p (true, s) h = refl

revoke_session_row-IsEnded :
    (db : Db) (session_id : String) (now t : ℕ) (s : Store)
    → (revoke_session_row db session_id now s).0 ≡ true
    → any (has_id session_id) s.sessions ≡ true
    → IsEnded t session_id (revoke_session_row db session_id now s).1.sessions
unfolding revoke_session_row
revoke_session_row-IsEnded db session_id now t s h k = elim (Bool-cases (db revoke_session)) [
  | inl up ↦ rw up (record {
    known =
        map-known (revoke session_id now) (revoke-Keeps session_id now) session_id s.sessions ∙ k;
    shut = revoke-shut session_id now t s.sessions;
  })
  | inr down ↦ absurd (ground (arith, rw down at h))
]

end_session-IsEnded :
    (x : Services) (db : Db) (now t : ℕ) (session_id : String) (s : Store)
    → any (has_id session_id) s.sessions ≡ true
    → (end_session db now (some session_id) s).0.code ≡ 204
    → IsEnded t session_id (end_session db now (some session_id) s).1.sessions
unfolding end_session
end_session-IsEnded x db now t session_id s k h =
    let p = principal_by_session db now s session_id in
    let s' = seen db now session_id p s in
    let o = revoke_session_row db session_id now s' in
    (note_logout-Later x db now p o).ended t session_id (
      revoke_session_row-IsEnded db session_id now t s' (note_logout-done db now p o h)
        (seen-known db session_id session_id now p s ∙ k))

logout-IsEnded :
    (x : Services) (db : Db) (now t : ℕ) (cookie session_id : String) (s : Store)
    → verify_cookie x.codec cookie ≡ some session_id
    → any (has_id session_id) s.sessions ≡ true
    → (logout x db now (some cookie) s).0.code ≡ 204
    → IsEnded t session_id (logout x db now (some cookie) s).1.sessions
unfolding logout
logout-IsEnded x db now t cookie session_id s v k h =
    rw v (end_session-IsEnded x db now t session_id s k (rw v at h))

serve-logout :
    (x : Services) (db : Db) (q : Request) (cookie : String) (t : Panel)
    → q.action ≡ logging_out
    → q.session_cookie ≡ some cookie
    → serve x db q t ≡ on_store t (logout x db q.now (some cookie) t.store)
unfolding serve behind perform guards_of route_of
serve-logout x db q cookie t a c = rw (a, c) refl

-- After a logout that answers 204, no cookie of its session is accepted any more, at any time and whatever
-- requests come between. The session is one of the table, and the statements may fail or not.
pub logout-authenticate :
    (x : Services) (db db' : Db) (q : Request) (now' : ℕ) (cookie cookie' session_id : String)
    (t t' : Panel)
    → q.action ≡ logging_out
    → q.session_cookie ≡ some cookie
    → verify_cookie x.codec cookie ≡ some session_id
    → verify_cookie x.codec cookie' ≡ some session_id
    → any (has_id session_id) t.store.sessions ≡ true
    → (serve x db q t).0.code ≡ 204
    → Reach x (serve x db q t).1 t'
    → authenticate x db' now' (some cookie') t'.store ≡ none
logout-authenticate x db db' q now' cookie cookie' session_id t t' a c v v' k h r =
    let e = serve-logout x db q cookie t a c in
    ended-authenticate x (serve x db q t).1 t' 0 now' cookie' session_id db'
      (rw e (logout-IsEnded x db q.now 0 cookie session_id t.store v k (rw e at h))) r (omega arith)
      v'
