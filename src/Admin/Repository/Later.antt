-- ===== src/Admin/Repository/Later.antt =====
-- internal/admin/repository.go: what no statement undoes. Ended sessions stay ended, and the log only grows.
use new_api_gateway.Prelude.{
  ℕ, String, Bool, true, false, ◌&&◌, not, List, [], ◌∷◌, ◌++◌, map, ◌≡◌, refl, sym, ap, ◌∙◌, arith,
  ◌==◌, string_eq, nat_eq, if◌then◌else◌, any, append-nil, append_assoc,
}
use new_api_gateway.Admin.Repository.{
  Session, ActionLog, ReviewDecision, ContextEntry, Store, Db, create_session_row, create_session,
  see, see_session_row, revoke, revoke_session_row, insert_audit_action_log, with_defaults,
  revoke_other, change_user_password, insert_review_decision, insert_context_catalog_entry,
  set_password, change_password, insert_review, same_context, update_context, upsert_context,
}
use new_api_gateway.Admin.Repository.Ended.{
  IsEnded, has_id, see-Keeps, revoke-Keeps, revoke_other-Keeps, map-IsEnded, add-IsEnded,
}

-- The tables as they may be later.
pub record Later (s s' : Store) : Type 0 where
  pub ended :
      (t : ℕ) (session_id : String)
      → IsEnded t session_id s.sessions
      → IsEnded t session_id s'.sessions
  pub new_logs : List ActionLog
  pub grown : s'.logs ≡ s.logs ++ new_logs

pub Later-refl : (s : Store) → Later s s
Later-refl s = record {
  ended = λ t session_id h. h;
  new_logs = [];
  grown = sym (append-nil s.logs);
}

pub Later-trans : (a b c : Store) → Later a b → Later b c → Later a c
Later-trans a b c p q = record {
  ended = λ t session_id h. q.ended t session_id (p.ended t session_id h);
  new_logs = p.new_logs ++ q.new_logs;
  grown = q.grown ∙ ap (λ l. l ++ q.new_logs) p.grown ∙ append_assoc a.logs p.new_logs q.new_logs;
}

-- A change of the sessions alone.
sessions-Later :
    (s : Store) (f : List Session → List Session)
    → ((t : ℕ) (session_id : String)
        → IsEnded t session_id s.sessions
        → IsEnded t session_id (f s.sessions))
    → Later s (record s { sessions = f s.sessions })
sessions-Later s f h = record { ended = h; new_logs = []; grown = sym (append-nil s.logs) }

logs-Later : (s : Store) (new : List ActionLog) → Later s (record s { logs = s.logs ++ new })
logs-Later s new = record { ended = λ t session_id h. h; new_logs = new; grown = refl }

module _ {A : Type 0} where
  pub if-Later :
      (s : Store) (b : Bool) (x y : A × Store)
      → (b ≡ true → Later s x.1)
      → (b ≡ false → Later s y.1)
      → Later s (if b then x else y).1
  if-Later s true x y p q = p refl
  if-Later s false x y p q = q refl

if_store-Later :
    (s : Store) (b : Bool) (x y : Store) → Later s x → Later s y → Later s (if b then x else y)
if_store-Later s true x y p q = p
if_store-Later s false x y p q = q

fresh : (a b : Bool) → (a && not b) ≡ true → b ≡ false
fresh a b h = ground arith

pub create_session_row-Later :
    (db : Db) (r : Session) (s : Store) → Later s (create_session_row db r s).1
unfolding create_session_row
create_session_row-Later db r s =
    if-Later s _ _ _
      (λ h.
        sessions-Later s (λ rows. rows ++ r ∷ [])
          (λ t sid.
            add-IsEnded r t sid s.sessions
              (fresh (db create_session) (any (has_id r.session_id) s.sessions) h)))
      (λ h. Later-refl s)

pub see_session_row-Later :
    (db : Db) (session_id : String) (now : ℕ) (s : Store)
    → Later s (see_session_row db session_id now s)
unfolding see_session_row
see_session_row-Later db session_id now s =
    if_store-Later s _ _ _
      (sessions-Later s (map (see session_id now))
        (λ t sid. map-IsEnded (see session_id now) (see-Keeps session_id now) t sid s.sessions))
      (Later-refl s)

pub revoke_session_row-Later :
    (db : Db) (session_id : String) (now : ℕ) (s : Store)
    → Later s (revoke_session_row db session_id now s).1
unfolding revoke_session_row
revoke_session_row-Later db session_id now s =
    if-Later s _ _ _
      (λ h. sessions-Later s (map (revoke session_id now)) (λ t sid.
        map-IsEnded (revoke session_id now) (revoke-Keeps session_id now) t sid s.sessions))
      (λ h. Later-refl s)

pub insert_audit_action_log-Later :
    (db : Db) (now : ℕ) (l : ActionLog) (s : Store) → Later s (insert_audit_action_log db now l s).1
unfolding insert_audit_action_log
insert_audit_action_log-Later db now l s =
    if-Later s _ _ _ (λ h. logs-Later s (with_defaults now l ∷ [])) (λ h. Later-refl s)

-- A change that keeps the sessions and the log.
same-Later : (s s' : Store) → s'.sessions ≡ s.sessions → s'.logs ≡ s.logs → Later s s'
same-Later s s' h k = record {
  ended = λ t sid e. rw h e;
  new_logs = [];
  grown = k ∙ sym (append-nil s.logs);
}

if_done-Later :
    (s s' : Store) (b : Bool)
    → Later s s'
    → Later s (if◌then◌else◌ {A = Bool × Store} b (true, s') (false, s)).1
if_done-Later s s' true h = h
if_done-Later s s' false h = Later-refl s

pub change_user_password-Later :
    (db : Db) (user_id : ℕ) (hash keep : String) (l : ActionLog) (now : ℕ) (s : Store)
    → Later s (change_user_password db user_id hash keep l now s).1
unfolding change_user_password
change_user_password-Later db user_id hash keep l now s =
    if_done-Later s
      (record s {
        users = map (set_password user_id hash now) s.users;
        sessions = map (revoke_other user_id keep now) s.sessions;
        logs =
            s.logs ++ (if any (λ u. u.id == user_id) s.users then with_defaults now l ∷ [] else []);
      })
      (db change_password)
      (record {
        ended = λ t sid.
            map-IsEnded (revoke_other user_id keep now) (revoke_other-Keeps user_id keep now) t sid
              s.sessions;
        new_logs = if any (λ u. u.id == user_id) s.users then with_defaults now l ∷ [] else [];
        grown = refl;
      })

pub insert_review_decision-Later :
    (db : Db) (d : ReviewDecision) (s : Store) → Later s (insert_review_decision db d s).1
unfolding insert_review_decision
insert_review_decision-Later db d s =
    if_done-Later s (record s { reviews = s.reviews ++ d ∷ [] }) (db insert_review)
      (same-Later s (record s { reviews = s.reviews ++ d ∷ [] }) refl refl)

pub insert_context_catalog_entry-Later :
    (db : Db) (e : ContextEntry) (s : Store) → Later s (insert_context_catalog_entry db e s).1
unfolding insert_context_catalog_entry
insert_context_catalog_entry-Later db e s =
    let contexts' =
      if any (same_context e) s.contexts
      then map (update_context e) s.contexts
      else s.contexts ++ e ∷ [] in
    if_done-Later s (record s { contexts = contexts' }) (db upsert_context)
      (same-Later s (record s { contexts = contexts' }) refl refl)
