-- ===== src/Proxy/Serve.antt =====
-- internal/gateway/proxy.go: `ServeHTTP`, from the request to its evidence and the question to the
-- upstream.
pub mod Responses
use new_api_gateway.Prelude.{
  ℕ, ◌+◌, String, Bool, true, false, ◌&&◌, not, List, [], ◌∷◌, Option, none, some, ltb, ◌==◌,
  nat_eq, string_eq, if◌then◌else◌, length, any, inl, inr, ◌⊎◌,
}
use new_api_gateway.Prelude.Int.{pos}
use new_api_gateway.Text.{Bytes, is_empty, trim_space, split, equal_fold, ◌<>◌}
use new_api_gateway.Routes.{Entry, match}
use new_api_gateway.AuthKeys.{Source, extract}
use new_api_gateway.Identity.{Snapshot, no_token}
use new_api_gateway.Gateway.Usage.{no_usage, extractor_for, extract_request, extract_request_model}
use new_api_gateway.Proxy.{
  Object, no_object, Part, Body, no_body, body_bytes, body_error, Incoming, TraceRecord, Event,
  reported, spooled, Log, Put, put_failed, put_object, Audit, Front, Reply, Response, refused,
}
use new_api_gateway.Proxy.Persist.{put_evidence}

-- `CapturedRequest`, or the errors of `captureRequestBody`.
pub record Captured : Type 0 where
  pub body_bytes : Bytes
  pub content_type : String
  pub size_bytes : ℕ

pub data Capture : Type 0 where
  captured : Captured → Capture
  too_large : Capture
  unreadable : Capture

-- `captureRequestBody`, at most 32 MiB where no limit is set.
unfoldable pub capture_request_body : ℕ → Incoming → Body → Capture
capture_request_body max_bytes req no_body =
    captured (record { body_bytes = []; content_type = ""; size_bytes = 0 })
capture_request_body max_bytes req body_error = unreadable
capture_request_body max_bytes req (body_bytes body) =
    let limit = if max_bytes == 0 then 33554432 else max_bytes in
    if ltb limit (length body)
    then too_large
    else captured (record {
      body_bytes = body;
      content_type = req.auth.header "Content-Type";
      size_bytes = length body;
    })

-- `headerContainsToken`, on the values of the header.
unfoldable pub header_contains_token : List String → String → Bool
header_contains_token values token =
    any (λ value. any (λ part. equal_fold (trim_space part) token) (split b',' value)) values

-- The names that `stripHopByHopHeaders` always deletes.
abbrev pub hop_by_hop_names : List String
hop_by_hop_names =
    "Connection" ∷ "Proxy-Connection" ∷ "Keep-Alive" ∷ "TE" ∷ "Trailer" ∷ "Transfer-Encoding"
    ∷ "Upgrade" ∷ []

-- `stripHopByHopHeaders`, by the values of the header `Connection`; a deleted header reads empty.
unfoldable pub strip_hop_by_hop_headers : List String → (String → String) → String → String
strip_hop_by_hop_headers connection header name =
    if header_contains_token connection name
    then ""
    else if any (λ hop. equal_fold hop name) hop_by_hop_names
    then ""
    else header name

-- `copyHeaders` into the reply.
unfoldable pub copy_headers : Response → String → String
copy_headers resp = strip_hop_by_hop_headers resp.connection resp.header

-- `isWebSocketUpgrade`
unfoldable pub is_websocket_upgrade : Incoming → Bool
is_websocket_upgrade req =
    header_contains_token req.connection "Upgrade"
    && equal_fold (req.auth.header "Upgrade") "websocket"

-- `mergeTraceErrorType` and `mergeTraceErrorMessage`
unfoldable pub merge_trace_error_type : String → String → String
merge_trace_error_type primary secondary = if is_empty primary then secondary else primary

unfoldable pub merge_trace_error_message : String → String → String
merge_trace_error_message primary secondary =
    if is_empty primary
    then secondary
    else if is_empty secondary
    then primary
    else primary <> ("; " <> secondary)

-- A snapshot without a token.
unfoldable pub unresolved : String × String → String → Snapshot
unresolved (value, display) status = record {
  token_fingerprint = value;
  fingerprint_display = display;
  token = no_token;
  resolution_status = status;
  identity_cache_status = "";
}

-- `resolveIdentity`, by what the resolver answers and by the resolver that there may be.
unfoldable pub resolved_or : String × String → Option Snapshot → Snapshot
resolved_or fp none = unresolved fp "resolve_failed"
resolved_or fp (some s) = s

unfoldable pub resolve_with :
    String → String × String → Option (String → String → String → Option Snapshot) → Snapshot
resolve_with key fp none = unresolved fp "resolve_failed"
resolve_with key fp (some resolve) = resolved_or fp (resolve key fp.0 fp.1)

unfoldable pub resolve_identity : Audit → Option (String × Source) → Snapshot
resolve_identity a none = unresolved ("", "") "extract_failed"
resolve_identity a (some (key, source)) = resolve_with key (a.fingerprint key) a.resolve_identity

-- `writeSpool`, by the error of the spool that there may be.
unfoldable pub spool_answer : String → Log → Option String → Log
spool_answer reason log none = spooled reason ∷ log
spool_answer reason log (some e) = reported e ∷ log

unfoldable pub write_spool : Option (Log → Option String) → String → Log → Log
write_spool none reason log = log
write_spool (some write) reason log = spool_answer reason log (write log)

-- An object of the request, or the error that is reported and written to the spool.
unfoldable pub object_or_spool : Audit → String → Put × Log → Object × Option String × Log
object_or_spool a reason (put_object o, log) = (o, none, log)
object_or_spool a reason (put_failed e, log) =
    (no_object, some e, write_spool a.write_spool reason (reported e ∷ log))

-- `putHeaderEvidence`, by the JSON of the headers; the text "json" stands for that of the encoder's error.
unfoldable pub put_header_json : Audit → String → Option Bytes → Log → Put × Log
put_header_json a object_type none log = (put_failed "json", log)
put_header_json a object_type (some data_) log =
    put_evidence a object_type "application/json" data_ log

unfoldable pub put_header_evidence : Audit → String → (String → String) → Log → Put × Log
put_header_evidence a object_type header log =
    put_header_json a object_type (a.header_json header) log

-- The parts of a multipart body; the text "multipart" stands for that of the parser's error.
unfoldable pub capture_parts : Option (Option (List Part)) → Log → List Part × Log
capture_parts none log = ([], log)
capture_parts (some none) log = ([], reported "multipart" ∷ log)
capture_parts (some (some parts)) log = (parts, log)

-- What is kept of a request.
pub record RequestEvidence : Type 0 where
  pub request_object : Object
  pub request_headers_object : Object
  pub parts : List Part
  pub body_degraded : Bool
  pub error_type : String
  pub error_message : String
  pub log : Log

abbrev pub is_some : Option String → Bool
is_some none = false
is_some (some e) = true

-- `firstNonNil` of the two errors, as the message of the trace.
abbrev pub first_message : Option String → Option String → String
first_message (some e) other = e
first_message none (some e) = e
first_message none none = ""

unfoldable pub request_evidence : Audit → Incoming → Captured → Log → RequestEvidence
request_evidence a req c log =
    let (o, e, log1) =
      object_or_spool a "request_body_evidence_failed"
        (put_evidence a "request_body" c.content_type c.body_bytes log) in
    let (parts, log2) = capture_parts req.multipart log1 in
    let (h, f, log3) =
      object_or_spool a "request_header_evidence_failed"
        (put_header_evidence a "request_headers" req.auth.header log2) in
    record {
      request_object = o;
      request_headers_object = h;
      parts = parts;
      body_degraded = is_some e;
      error_type =
          if is_some e then "capture_degraded" else if is_some f then "capture_degraded" else "";
      error_message = first_message e f;
      log = log3;
    }

-- The model of the request.
unfoldable pub model_requested : Audit → Entry → Incoming → Captured → String
model_requested a entry req c =
    let model =
      extract_request (extractor_for entry.protocol_family) a.decode_model req.path c.body_bytes in
    if is_empty model then extract_request_model a.decode_model req.path c.body_bytes else model

-- The fields of a trace record that are known before the upstream is asked.
unfoldable pub request_record :
    Audit → String → Incoming → Entry → Captured → RequestEvidence → Snapshot → TraceRecord
request_record a trace_id req entry c ev snapshot = record {
  trace_id = trace_id;
  request = req;
  entry = entry;
  status_code = 0;
  upstream_code = 0;
  request_object = ev.request_object;
  response_object = no_object;
  request_headers_object = ev.request_headers_object;
  response_headers_object = no_object;
  websocket_log_object = no_object;
  multipart_parts = ev.parts;
  request_content_type = c.content_type;
  response_content_type = "";
  model_requested = model_requested a entry req c;
  model_upstream = "";
  response_header = λ name. "";
  error_type = ev.error_type;
  error_message = ev.error_message;
  usage = no_usage;
  request_size = c.size_bytes;
  response_size = 0;
  snapshot = snapshot;
  stream = false;
  skip_post_persistence = ev.body_degraded;
}
