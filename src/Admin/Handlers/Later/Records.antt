-- ===== src/Admin/Handlers/Later/Records.antt =====
-- internal/admin/handlers.go: what the handlers of reviews, contexts and evidence do not undo.
use new_api_gateway.Prelude.{ℕ, String, Bool, ◌||◌, true, false, Option, none, some}
use new_api_gateway.Text.{◌<>◌, is_empty, trim_space}
use new_api_gateway.Admin.Limits.{Counters, allow}
use new_api_gateway.Admin.Repository.{
  Principal, ReviewDecision, ContextEntry, EvidenceObject, Store, Db, Answer, row, no_rows, failed,
  insert_review_decision, insert_context_catalog_entry, find_raw_evidence_object,
}
use new_api_gateway.Admin.Repository.Later.{
  Later, Later-refl, Later-trans, insert_audit_action_log-Later, insert_review_decision-Later,
  insert_context_catalog_entry-Later,
}
use new_api_gateway.Admin.Handlers.{Services, Reply, error}
use new_api_gateway.Admin.Handlers.Records.{
  ReviewInput, ContextInput, EvidenceInput, review_created, create_review, context_logged,
  context_of, context_created, create_context_catalog_entry, send_evidence, access_entry,
  log_evidence, read_evidence, open_evidence, find_evidence, limited, get_raw_evidence, raw_limiter,
  review_of, is_bad_review, valid_context_catalog_entry, ref_of,
}
use new_api_gateway.Admin.Repository.Lookup.{LookupAnswers, LookupSummary, lookup_token_summary}
use new_api_gateway.Admin.Handlers.Lookup.{
  lookup_limiter, canonicalize_lookup_key, lookup_entry, send_lookup, lookup_fingerprint,
  lookup_key, create_api_key_lookup,
}
use new_api_gateway.Admin.Handlers.Later.{reject-Later, accept-Later}

module _ (x : Services) (db : Db) (now : ℕ) where
  review_created-Later :
      (p : Principal) (d : ReviewDecision) (o : Bool × Store)
      → Later o.1 (review_created x db now p d o).1
  unfolding review_created
  review_created-Later p d (false, s) = Later-refl s
  review_created-Later p d (true, s) = insert_audit_action_log-Later db now _ s

  pub create_review-Later :
      (i : Option ReviewInput) (p : Principal) (s : Store)
      → Later s (create_review x db now i p s).1
  unfolding create_review
  create_review-Later none p s = Later-refl s
  create_review-Later (some i) p s =
      let d = review_of now p i in
      reject-Later s (is_bad_review d) (error 400)
        (review_created x db now p d (insert_review_decision db d s))
        (Later-trans s _ _ (insert_review_decision-Later db d s) (review_created-Later p d _))

  context_logged-Later : (e : ContextEntry) (o : Bool × Store) → Later o.1 (context_logged e o).1
  unfolding context_logged
  context_logged-Later e (false, s) = Later-refl s
  context_logged-Later e (true, s) = Later-refl s

  context_created-Later :
      (p : Principal) (e : ContextEntry) (o : Bool × Store)
      → Later o.1 (context_created db now p e o).1
  unfolding context_created
  context_created-Later p e (false, s) = Later-refl s
  context_created-Later p e (true, s) =
      Later-trans s _ _ (insert_audit_action_log-Later db now _ s) (context_logged-Later e _)

  pub create_context_catalog_entry-Later :
      (i : Option ContextInput) (p : Principal) (s : Store)
      → Later s (create_context_catalog_entry db now i p s).1
  unfolding create_context_catalog_entry
  create_context_catalog_entry-Later none p s = Later-refl s
  create_context_catalog_entry-Later (some i) p s =
      let e = context_of p i in
      accept-Later s (valid_context_catalog_entry e) (error 400)
        (context_created db now p e (insert_context_catalog_entry db e s))
        (Later-trans s _ _ (insert_context_catalog_entry-Later db e s)
          (context_created-Later p e _))

  send_evidence-Later :
      (e : EvidenceObject) (content : String) (o : Bool × Store)
      → Later o.1 (send_evidence e content o).1
  unfolding send_evidence
  send_evidence-Later e content (false, s) = Later-refl s
  send_evidence-Later e content (true, s) = Later-refl s

  log_evidence-Later :
      (p : Principal) (e : EvidenceObject) (s : Store) (content : Option String)
      → Later s (log_evidence x db now p e s content).1
  unfolding log_evidence
  log_evidence-Later p e s none = Later-refl s
  log_evidence-Later p e s (some content) =
      Later-trans s _ _ (insert_audit_action_log-Later db now (access_entry x now p e) s)
        (send_evidence-Later e content _)

  read_evidence-Later :
      (p : Principal) (e : EvidenceObject) (s : Store) (get : Option (String → Option String))
      → Later s (read_evidence x db now p e s get).1
  unfolding read_evidence
  read_evidence-Later p e s none = Later-refl s
  read_evidence-Later p e s (some get) = log_evidence-Later p e s (get e.object_ref)

  open_evidence-Later :
      (p : Principal) (s : Store) (a : Answer EvidenceObject)
      → Later s (open_evidence x db now p s a).1
  unfolding open_evidence
  open_evidence-Later p s no_rows = Later-refl s
  open_evidence-Later p s failed = Later-refl s
  open_evidence-Later p s (row e) = read_evidence-Later p e s x.evidence

  find_evidence-Later :
      (i : EvidenceInput) (p : Principal) (s : Store) → Later s (find_evidence x db now i p s).1
  unfolding find_evidence
  find_evidence-Later i p s =
      reject-Later s (is_empty (trim_space i.trace_id) || is_empty (trim_space i.object_type))
        (error 400) _
        (open_evidence-Later p s (
          find_raw_evidence_object db (trim_space i.trace_id) (trim_space i.object_type) (ref_of i)
            s))

  limited-Later :
      (counters : Counters) (o : Reply × Store) (s : Store) (ok : Bool)
      → Later s o.1
      → Later s (limited counters o s ok).1
  limited-Later counters (r, s') s true h = h
  limited-Later counters (r, s') s false h = Later-refl s

  pub get_raw_evidence-Later :
      (i : EvidenceInput) (p : Principal) (s : Store) (counters : Counters)
      → Later s (get_raw_evidence x db now i p s counters).1
  unfolding get_raw_evidence
  get_raw_evidence-Later i p s counters =
      limited-Later _ _ s (allow raw_limiter (p.username <> ":raw_evidence") now counters).0
        (find_evidence-Later i p s)

  send_lookup-Later :
      (p : Principal) (fp : String × String) (summary : Option LookupSummary) (s : Store)
      → Later s (send_lookup db now p fp summary s).1
  unfolding send_lookup
  send_lookup-Later p fp none s = Later-refl s
  send_lookup-Later p fp (some summary) s =
      insert_audit_action_log-Later db now (lookup_entry now p fp) s

  lookup_key-Later :
      (api_key : Option String) (a : LookupAnswers) (p : Principal) (s : Store)
      → Later s (lookup_key x db now api_key a p s).1
  unfolding lookup_key lookup_fingerprint
  lookup_key-Later none a p s = Later-refl s
  lookup_key-Later (some api_key) a p s =
      let canonical = canonicalize_lookup_key api_key in
      let (value, display) = x.fingerprint canonical in
      reject-Later s (is_empty canonical) (error 400) _
        (send_lookup-Later p (value, display) (lookup_token_summary value display a) s)

  pub create_api_key_lookup-Later :
      (api_key : Option String) (a : LookupAnswers) (p : Principal) (s : Store)
      (counters : Counters)
      → Later s (create_api_key_lookup x db now api_key a p s counters).1
  unfolding create_api_key_lookup
  create_api_key_lookup-Later api_key a p s counters =
      limited-Later _ _ s (allow lookup_limiter (p.username <> ":api_key_lookup") now counters).0
        (lookup_key-Later api_key a p s)
