-- ===== src/Admin/Handlers/Evidence/Requests.antt =====
-- internal/admin/handlers.go: a request that gets raw evidence, from its cookie to the log.
use new_api_gateway.Prelude.{
  ℕ, String, true, false, some, ◌≡◌, refl, ap, ◌∙◌, List, [], ◌∷◌, ◌++◌, inl, inr, Bool-cases,
  Option-cases,
}
use new_api_gateway.Admin.Permissions.{raw_evidence, allows}
use new_api_gateway.Admin.Repository.{
  Principal, EvidenceObject, Store, Db, see_session_row, see_session, ActionLog, with_defaults,
}
use new_api_gateway.Admin.Handlers.{Services, evidence_body}
use new_api_gateway.Admin.Handlers.Records.{EvidenceInput, access_entry}
use new_api_gateway.Admin.Handlers.Routing.{
  Action, session_route, evidence_reading, Request, Panel, authenticate, serve, route_of, guards_of,
  perform, verdict_of,
}
use new_api_gateway.Admin.Handlers.Guards.{noted, serve-decide, decide-perform}
use new_api_gateway.Admin.Handlers.Authorized.{
  IsUntouched, Verdict-cases, verdict_of-allowed, serve-IsUntouched, see_session_row-IsUntouched,
}
use new_api_gateway.Admin.Handlers.Evidence.{IsAccounted, get_raw_evidence-IsAccounted}

see_session_row-logs :
    (db : Db) (session_id : String) (now : ℕ) (s : Store)
    → (see_session_row db session_id now s).logs ≡ s.logs
unfolding see_session_row
see_session_row-logs db session_id now s = elim (Bool-cases (db see_session)) [
  | inl up ↦ rw up refl
  | inr down ↦ rw down refl
]

before-noted :
    (x : Services) (db : Db) (q : Request) (i : EvidenceInput) (p : Principal) (session_id : String)
    (t : Panel) (o : EvidenceObject) (content : String) (after : List ActionLog)
    → IsAccounted x q.now i p o content (noted db q session_id t).store.logs after
    → IsAccounted x q.now i p o content t.store.logs after
before-noted x db q i p session_id t o content after a = record {
  asked = a.asked;
  get = a.get;
  store = a.store;
  stored = a.stored;
  logged =
      a.logged
      ∙ ap (λ l. l ++ with_defaults q.now (access_entry x q.now p o) ∷ [])
          (see_session_row-logs db session_id q.now t.store);
}

-- The evidence is the reader's business, and it is in the log.
pub record IsSupervised (x : Services) (db : Db) (q : Request) (i : EvidenceInput) (t : Panel)
    (o : EvidenceObject) (content : String) : Type 0 where
  pub reader : Principal
  pub session_id : String
  pub session : authenticate x db q.now q.session_cookie t.store ≡ some (reader, session_id)
  pub allowed : allows reader.role raw_evidence ≡ true
  pub account : IsAccounted x q.now i reader o content t.store.logs (serve x db q t).1.store.logs

evidence-guards :
    (a : Action) (i : EvidenceInput)
    → a ≡ evidence_reading i
    → guards_of (route_of a) ≡ session_route false (some raw_evidence)
unfolding guards_of route_of
evidence-guards a i e = rw e refl

no_evidence :
    (x : Services) (db : Db) (q : Request) (i : EvidenceInput) (t : Panel) (o : EvidenceObject)
    (content : String)
    → IsUntouched t (serve x db q t)
    → (serve x db q t).0.body ≡ evidence_body o content
    → IsSupervised x db q i t o content
no_evidence x db q i t o content u h = let none' = u.no_data in absurd (cc)

perform-IsAccounted :
    (x : Services) (db : Db) (q : Request) (i : EvidenceInput) (p : Principal) (t : Panel)
    (o : EvidenceObject) (content : String)
    → q.action ≡ evidence_reading i
    → (perform x db q.now q.session_cookie (some p) q.action t).0.body ≡ evidence_body o content
    → IsAccounted x q.now i p o content t.store.logs
        (perform x db q.now q.session_cookie (some p) q.action t).1.store.logs
unfolding perform
perform-IsAccounted x db q i p t o content a h =
    rw a (get_raw_evidence-IsAccounted x db q.now i p t.store t.raw_counters o content (rw a at h))

-- A request that gets raw evidence has a session whose principal may see it. The object is of the trace and
-- of the type that the request names, with its reference if it names one, and the content is what the
-- evidence store has for it; the log of actions has got one entry more, on this principal and this object.
pub serve-IsSupervised :
    (x : Services) (db : Db) (q : Request) (i : EvidenceInput) (t : Panel) (o : EvidenceObject)
    (content : String)
    → q.action ≡ evidence_reading i
    → (serve x db q t).0.body ≡ evidence_body o content
    → IsSupervised x db q i t o content
serve-IsSupervised x db q i t o content a h =
    let g = evidence-guards q.action i a in
    elim (Option-cases (authenticate x db q.now q.session_cookie t.store)) [
      | inl out ↦
          no_evidence x db q i t o content
            (serve-IsUntouched x db q t false (some raw_evidence) g out) h
      | inr ((p, session_id), known) ↦
          let e = serve-decide x db q false (some raw_evidence) p session_id t g known in
          elim (Verdict-cases (verdict_of false (some raw_evidence) q p)) [
            | inl (n, refused) ↦
                no_evidence x db q i t o content
                  (rw (e, refused) (see_session_row-IsUntouched x db q p session_id t n)) h
            | inr ok ↦
                let t' = noted db q session_id t in
                let d = decide-perform x db q p t' (verdict_of false (some raw_evidence) q p) ok in
                record {
                  reader = p;
                  session_id = session_id;
                  session = known;
                  allowed = verdict_of-allowed q raw_evidence p ok;
                  account =
                      rw (e, d)
                        (before-noted x db q i p session_id t o content _
                          (perform-IsAccounted x db q i p t' o content a (rw (e, d) at h)));
                }
          ]
    ]
