-- ===== src/Proxy/Persist.antt =====
-- internal/gateway/proxy.go: `insertTrace` and what it calls.
use new_api_gateway.Prelude.{
  ℕ, ◌+◌, String, Bool, true, List, [], ◌∷◌, Option, none, some, ◌==◌, string_eq, if◌then◌else◌,
}
use new_api_gateway.Text.{is_empty, trim_space, before, contains_lower}
use new_api_gateway.Routes.{CaptureMode, raw_and_normalized, raw_and_minimal, raw_only}
use new_api_gateway.Proxy.{
  Object, Part, Incoming, TraceRecord, Trace, Event, reported, stored, inserted_trace, inserted_raw,
  alerted, published, queued, Log, Put, put_failed, put_object, Audit, no_object,
}

-- `routeSupportLevel`
unfoldable pub route_support_level : CaptureMode → String
route_support_level raw_and_normalized = "deep_normalized"
route_support_level raw_and_minimal = "raw_minimal"
route_support_level raw_only = "unsupported"

-- `firstNonEmpty`
unfoldable pub first_non_empty : List String → String
first_non_empty [] = ""
first_non_empty (value ∷ values) =
    let later = first_non_empty values in
    let trimmed = trim_space value in if is_empty trimmed then later else trimmed

-- `redactAuditMessage`, behind the two patterns.
unfoldable pub redact_audit_message : (String → String) → String → String
redact_audit_message replace_patterns message =
    let value = replace_patterns message in
    if contains_lower "sk-" value
    then "[REDACTED]"
    else if contains_lower "x-api-key" value
    then "[REDACTED]"
    else if contains_lower "x-goog-api-key" value
    then "[REDACTED]"
    else if contains_lower "mj-api-secret" value
    then "[REDACTED]"
    else value

-- `clientIP`
unfoldable pub client_ip : (String → Option String) → Incoming → String
client_ip split_host req =
    let forwarded = trim_space (req.auth.header "x-forwarded-for") in
    if is_empty forwarded
    then elim (split_host req.remote_address) [ none ↦ req.remote_address | some host ↦ host ]
    else trim_space (before b',' forwarded)

-- `isIgnoredCoveragePath`
abbrev pub is_ignored_coverage_path : String → Bool
is_ignored_coverage_path path = if path == "/favicon.ico" then true else path == "/robots.txt"

-- What the evidence store has answered, and its event.
unfoldable pub put_answer : String → Log → Put → Put × Log
put_answer object_type log (put_failed e) = (put_failed e, log)
put_answer object_type log (put_object o) = (put_object o, stored object_type ∷ log)

-- The errors so far (the last one first) and the history.
abbrev pub Steps : Type 0
Steps = List String × Log

-- A call with its answer: its own event, or the report of its error.
unfoldable pub note : Event → Steps → Option String → Steps
note event (errs, log) none = (errs, event ∷ log)
note event (errs, log) (some e) = (e ∷ errs, reported e ∷ log)

unfoldable pub call : (Log → Option String) → Event → Steps → Steps
call f event steps = note event steps (f steps.1)

-- A put into the store that there may be; without one the object is empty.
unfoldable pub put_with :
    Option (Log → String → String → List ℕ → Put) → String → String → List ℕ → Log → Put × Log
put_with none object_type content_type body log = (put_object no_object, log)
put_with (some store) object_type content_type body log =
    put_answer object_type log (store log object_type content_type body)

-- `emitCoverageAlert`, with the emitter that there may be.
unfoldable pub emit_with : TraceRecord → Option (Log → Option String) → Steps → Steps
emit_with r none steps = steps
emit_with r (some emit) steps =
    if is_ignored_coverage_path r.request.path
    then steps
    else if r.entry.unsupported_alert_code == "known_route_raw_first"
    then call emit (alerted r.trace_id) steps
    else steps

module _ (a : Audit) where
  -- `hashAuditValue`, with the secret in `hash_value`.
  unfoldable pub hash_audit_value : Bool → String → String
  hash_audit_value has_secret value =
      let trimmed = trim_space value in
      if is_empty trimmed then "" else if has_secret then a.hash_value trimmed else ""

  -- The trace that is written.
  unfoldable pub trace_of : Bool → TraceRecord → Trace
  trace_of has_secret r = record {
    trace_id = r.trace_id;
    method = r.request.method;
    path = r.request.path;
    entry = r.entry;
    route_support_level = route_support_level r.entry.capture_mode;
    status_code = r.status_code;
    upstream_status_code = r.upstream_code;
    stream = r.stream;
    client_ip_hash = hash_audit_value has_secret (client_ip a.split_host r.request);
    user_agent_hash = hash_audit_value has_secret (r.request.auth.header "User-Agent");
    request_body_size = r.request_size;
    response_body_size = r.response_size;
    request_body_sha256 = r.request_object.sha256;
    response_body_sha256 = r.response_object.sha256;
    request_raw_ref = r.request_object.object_ref;
    request_headers_ref = r.request_headers_object.object_ref;
    response_raw_ref = r.response_object.object_ref;
    response_headers_ref = r.response_headers_object.object_ref;
    snapshot = r.snapshot;
    request_id_from_client =
        first_non_empty
          (r.request.auth.header "x-request-id" ∷ r.request.auth.header "request-id" ∷ []);
    new_api_request_id =
        first_non_empty
          (r.response_header "x-request-id" ∷ r.response_header "openai-request-id" ∷ []);
    model_requested = r.model_requested;
    model_upstream = r.model_upstream;
    usage = r.usage;
    error_type = r.error_type;
    error_message_redacted = redact_audit_message a.replace_patterns r.error_message;
  }

  -- `putEvidence`
  unfoldable pub put_evidence : String → String → List ℕ → Log → Put × Log
  put_evidence object_type content_type body log =
      put_with a.store object_type content_type body log

  -- `TraceRepo.InsertRawEvidence` and the report of its error.
  unfoldable pub insert_raw : String → Object → Steps → Steps
  insert_raw object_type o steps =
      call (λ log. a.insert_raw log object_type o) (inserted_raw object_type o.object_ref) steps

  -- `insertEvidenceObject`
  unfoldable pub insert_evidence_object : String → Object → Steps → Steps
  insert_evidence_object object_type o steps =
      if o.created then insert_raw object_type o steps else steps

  -- The same, under the test that the object has a reference.
  unfoldable pub insert_with_ref : String → Object → Steps → Steps
  insert_with_ref object_type o steps =
      if is_empty o.object_ref then steps else insert_evidence_object object_type o steps

  -- One part of a multipart body.
  unfoldable pub insert_part : Put × Log → List String → Steps
  insert_part (put_failed e, log) errs = (e ∷ errs, reported e ∷ log)
  insert_part (put_object o, log) errs =
      if o.created
      then (if is_empty o.object_ref
          then (errs, log)
          else insert_raw "multipart_part" o (errs, log))
      else (errs, log)

  -- The loop over the parts, by the name that `part_name` gives to a part's number.
  unfoldable pub insert_parts : (ℕ → String) → ℕ → List Part → Steps → Steps
  insert_parts part_name index [] steps = steps
  insert_parts part_name index (part ∷ parts) (errs, log) =
      insert_parts part_name (index + 1) parts
        (insert_part (put_evidence (part_name (index + 1)) part.content_type part.data_ log) errs)

  -- The rows of all objects of a record.
  unfoldable pub insert_objects : (ℕ → String) → TraceRecord → Steps → Steps
  insert_objects part_name r steps = insert_with_ref "websocket_log" r.websocket_log_object (
      insert_with_ref "response_headers" r.response_headers_object (
        insert_with_ref "response_body" r.response_object (
          insert_parts part_name 0 r.multipart_parts (
            insert_with_ref "request_headers" r.request_headers_object
              (insert_evidence_object "request_body" r.request_object steps)))))

  -- The mark on the trace, when the job has been published.
  unfoldable pub mark_published : TraceRecord → Steps → Option String → Steps
  mark_published r (errs, log) (some e) = (e ∷ errs, reported e ∷ log)
  mark_published r (errs, log) none =
      call a.mark_queued (queued r.trace_id) (errs, published r.trace_id ∷ log)

  -- The publication of the job, with the publisher that there may be.
  unfoldable pub publish_with : TraceRecord → Option (Log → Option String) → Steps → Steps
  publish_with r none steps = steps
  publish_with r (some publish) steps = mark_published r steps (publish steps.1)

  -- The part of `insertTrace` behind the evidence rows.
  unfoldable pub after_objects : TraceRecord → Steps → Steps
  after_objects r (e ∷ errs, log) = (e ∷ errs, log)
  after_objects r ([], log) =
      if r.skip_post_persistence
      then ([], log)
      else publish_with r a.publish (emit_with r a.emit_alert ([], log))

  -- The part of `insertTrace` behind the insertion of the trace, by its error.
  unfoldable pub after_trace : (ℕ → String) → Trace → TraceRecord → Log → Option String → Steps
  after_trace part_name trace r log (some e) = (e ∷ [], reported e ∷ log)
  after_trace part_name trace r log none =
      after_objects r (insert_objects part_name r ([], inserted_trace trace ∷ log))

  -- `insertTrace`; the secret is that of the hashes.
  unfoldable pub insert_trace : (ℕ → String) → Bool → TraceRecord → Log → Steps
  insert_trace part_name has_secret r log =
      let trace = trace_of has_secret r in
      if a.has_repo then after_trace part_name trace r log (a.insert_trace log trace) else ([], log)
