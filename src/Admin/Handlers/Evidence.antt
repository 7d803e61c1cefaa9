-- ===== src/Admin/Handlers/Evidence.antt =====
-- internal/admin/handlers.go: raw evidence is handed out behind an entry in the log.
pub mod Requests
use new_api_gateway.Prelude.{
  ℕ, String, Bool, true, false, ◌&&◌, ◌||◌, List, [], ◌∷◌, ◌++◌, Option, none, some, ◌≡◌, refl, inl,
  inr, arith, ◌==◌, string_eq, if◌then◌else◌, Bool-cases,
}
use new_api_gateway.Text.{◌<>◌, is_empty, trim_space}
use new_api_gateway.Admin.Limits.{Counters, allow}
use new_api_gateway.Admin.Repository.{
  Principal, ActionLog, EvidenceObject, Store, Db, Answer, row, no_rows, failed, first, answer,
  insert_audit_action_log, insert_log, with_defaults, find_raw_evidence_object, find_object,
}
use new_api_gateway.Admin.Handlers.{
  Services, Reply, Body, no_body, user_body, review_body, context_body, evidence_body, lookup_body,
  data_body, error,
}
use new_api_gateway.Admin.Handlers.Records.{
  EvidenceInput, send_evidence, access_entry, log_evidence, read_evidence, open_evidence,
  find_evidence, limited, get_raw_evidence, raw_limiter, ref_of,
}

-- The object that a request asks for: of its trace and its type, and with its reference if it has one.
abbrev pub is_asked : EvidenceInput → EvidenceObject → Bool
is_asked i o =
    o.trace_id == trim_space i.trace_id
    && o.object_type == trim_space i.object_type
    && (is_empty (trim_space (ref_of i)) || o.object_ref == ref_of i)

-- What stands behind evidence that is handed out: the object is the one asked for, its content is the evidence
-- store's, and the log has got the entry on the reader as its last.
pub record IsAccounted (x : Services) (now : ℕ) (i : EvidenceInput) (p : Principal)
    (o : EvidenceObject) (content : String) (before after : List ActionLog) : Type 0 where
  pub asked : is_asked i o ≡ true
  pub get : String → Option String
  pub store : x.evidence ≡ some get
  pub stored : get o.object_ref ≡ some content
  pub logged : after ≡ before ++ with_defaults now (access_entry x now p o) ∷ []

asked_blank : (a b e c : Bool) → e ≡ true → (a && b) ≡ true → (a && b && (e || c)) ≡ true
asked_blank a b e c h k = ground arith

asked_given : (a b e c : Bool) → (a && b && c) ≡ true → (a && b && (e || c)) ≡ true
asked_given a b e c h = ground arith

module _ (x : Services) (db : Db) (now : ℕ) (i : EvidenceInput) (p : Principal) (s : Store) where
  abbrev BodyAccounted : List ActionLog → Body → Type 0
  BodyAccounted after no_body = Unit
  BodyAccounted after (user_body q) = Unit
  BodyAccounted after (review_body d) = Unit
  BodyAccounted after (context_body e) = Unit
  BodyAccounted after (lookup_body summary) = Unit
  BodyAccounted after (data_body document) = Unit
  BodyAccounted after (evidence_body o content) = IsAccounted x now i p o content s.logs after

  abbrev Accounted : Reply × Store → Type 0
  Accounted (r, s') = BodyAccounted s'.logs r.body

  send_evidence-Accounted :
      (o : EvidenceObject) (content : String) (d : Bool × Store)
      → (d.0 ≡ true → IsAccounted x now i p o content s.logs d.1.logs)
      → Accounted (send_evidence o content d)
  unfolding send_evidence
  send_evidence-Accounted o content (false, s') h = tt
  send_evidence-Accounted o content (true, s') h = h refl

  inserted :
      (l : ActionLog)
      → (insert_audit_action_log db now l s).0 ≡ true
      → (insert_audit_action_log db now l s).1.logs ≡ s.logs ++ with_defaults now l ∷ []
  unfolding insert_audit_action_log
  inserted l h = elim (Bool-cases (db insert_log)) [
    | inl up ↦ rw up refl
    | inr down ↦ absurd (ground (arith, rw down at h))
  ]

  log_evidence-Accounted :
      (o : EvidenceObject) (get : String → Option String) (content : Option String)
      → is_asked i o ≡ true
      → x.evidence ≡ some get
      → get o.object_ref ≡ content
      → Accounted (log_evidence x db now p o s content)
  unfolding log_evidence
  log_evidence-Accounted o get none a e c = tt
  log_evidence-Accounted o get (some content) a e c =
      send_evidence-Accounted o content (insert_audit_action_log db now (access_entry x now p o) s)
        (λ h. record {
          asked = a;
          get = get;
          store = e;
          stored = c;
          logged = inserted (access_entry x now p o) h;
        })

  read_evidence-Accounted :
      (o : EvidenceObject) (g : Option (String → Option String))
      → is_asked i o ≡ true
      → x.evidence ≡ g
      → Accounted (read_evidence x db now p o s g)
  unfolding read_evidence
  read_evidence-Accounted o none a e = tt
  read_evidence-Accounted o (some get) a e =
      log_evidence-Accounted o get (get o.object_ref) a e refl

  abbrev Asked : Answer EvidenceObject → Type 0
  Asked (row o) = is_asked i o ≡ true
  Asked no_rows = Unit
  Asked failed = Unit

  first-Asked :
      (q : EvidenceObject → Bool) (rows : List EvidenceObject)
      → ((o : EvidenceObject) → q o ≡ true → is_asked i o ≡ true)
      → Asked (answer (first q rows))
  first-Asked q [] h = tt
  first-Asked q (o ∷ rows) h = elim (Bool-cases (q o)) [
    | inl found ↦ rw found (h o found)
    | inr other ↦ rw other (first-Asked q rows h)
  ]

  find-Asked :
      Asked (
        find_raw_evidence_object db (trim_space i.trace_id) (trim_space i.object_type) (ref_of i) s)
  unfolding find_raw_evidence_object
  find-Asked = elim (Bool-cases (db find_object)) [
    | inr down ↦ rw down tt
    | inl up ↦ elim (Bool-cases (is_empty (trim_space (ref_of i)))) [
      | inl blank ↦
          rw (up, blank)
            (first-Asked
              (λ o.
                o.trace_id == trim_space i.trace_id && o.object_type == trim_space i.object_type)
              s.objects
              (λ o.
                asked_blank (o.trace_id == trim_space i.trace_id)
                  (o.object_type == trim_space i.object_type) (is_empty (trim_space (ref_of i)))
                  (o.object_ref == ref_of i) blank))
      | inr given ↦
          rw (up, given)
            (first-Asked
              (λ o.
                o.trace_id == trim_space i.trace_id
                && o.object_type == trim_space i.object_type
                && o.object_ref == ref_of i)
              s.objects
              (λ o.
                asked_given (o.trace_id == trim_space i.trace_id)
                  (o.object_type == trim_space i.object_type) (is_empty (trim_space (ref_of i)))
                  (o.object_ref == ref_of i)))
    ]
  ]

  open_evidence-Accounted :
      (a : Answer EvidenceObject) → Asked a → Accounted (open_evidence x db now p s a)
  unfolding open_evidence
  open_evidence-Accounted no_rows h = tt
  open_evidence-Accounted failed h = tt
  open_evidence-Accounted (row o) h = read_evidence-Accounted o x.evidence h refl

  if-Accounted :
      (b : Bool) (n : ℕ) (y : Reply × Store)
      → Accounted y
      → Accounted (if b then (error n, s) else y)
  if-Accounted true n y h = tt
  if-Accounted false n y h = h

  find_evidence-Accounted : Accounted (find_evidence x db now i p s)
  unfolding find_evidence
  find_evidence-Accounted =
      if-Accounted (is_empty (trim_space i.trace_id) || is_empty (trim_space i.object_type)) 400
        (open_evidence x db now p s (
          find_raw_evidence_object db (trim_space i.trace_id) (trim_space i.object_type) (ref_of i)
            s))
        (open_evidence-Accounted _ find-Asked)

  limited-Accounted :
      (counters : Counters) (o : Reply × Store) (ok : Bool)
      → Accounted o
      → let r = limited counters o s ok in Accounted (r.0, r.1)
  limited-Accounted counters (r, s') true h = h
  limited-Accounted counters (r, s') false h = tt

  get_raw_evidence-Accounted :
      (counters : Counters)
      → let r = get_raw_evidence x db now i p s counters in Accounted (r.0, r.1)
  unfolding get_raw_evidence
  get_raw_evidence-Accounted counters =
      limited-Accounted _ (find_evidence x db now i p s)
        (allow raw_limiter (p.username <> ":raw_evidence") now counters).0 find_evidence-Accounted

  pub get_raw_evidence-IsAccounted :
      (counters : Counters) (o : EvidenceObject) (content : String)
      → (get_raw_evidence x db now i p s counters).0.body ≡ evidence_body o content
      → IsAccounted x now i p o content s.logs (get_raw_evidence x db now i p s counters).1.logs
  get_raw_evidence-IsAccounted counters o content h = rw h at (get_raw_evidence-Accounted counters)
