-- ===== src/Proxy/Requests.antt =====
-- What the evidence of a request and of a response adds to the history.
pub mod Whole
pub mod Degraded
use new_api_gateway.Prelude.{
  ℕ, String, Bool, true, false, List, [], ◌∷◌, Option, none, some, ltb, ◌==◌, nat_eq, string_eq,
  if◌then◌else◌, ◌≡◌, refl, inl, inr, ◌⊎◌,
}
use new_api_gateway.Text.{Bytes}
use new_api_gateway.Routes.{Entry, match}
use new_api_gateway.AuthKeys.{extract}
use new_api_gateway.Gateway.Stream.{Error, copy_stream_to_client_and_capture, write_buffer}
use new_api_gateway.Gateway.Sse.{Sse, write}
use new_api_gateway.Gateway.Usage.{extractor_for}
use new_api_gateway.Proxy.{
  Object, Part, Incoming, TraceRecord, Event, reported, spooled, Log, Put, put_failed, put_object,
  Audit, Front, Response, Tunnel, dial_failed, handshake_failed, handshaken, Hijack, not_hijacker,
  hijack_failed, write_failed, tunneled,
}
use new_api_gateway.Proxy.Persist.{put_evidence}
use new_api_gateway.Proxy.Grows.{Grows, grows_same, grows_by, Grows-trans, put_evidence-Grows}
use new_api_gateway.Proxy.Order.{
  Published, Grows-Published, Published-after, insert_trace-Published,
}
use new_api_gateway.Proxy.Serve.{
  Captured, Capture, captured, too_large, unreadable, capture_request_body, is_websocket_upgrade,
  spool_answer, write_spool, object_or_spool, put_header_json, put_header_evidence, capture_parts,
  request_evidence, request_record, resolve_identity,
}
use new_api_gateway.Proxy.Serve.Responses.{
  read_all, is_streaming_response, report, object_or_skip, put_stream, stream_object, error_of,
  serve_upstream_error, serve_body, serve_read_error, serve_read, serve_whole, serve_stream,
}
use new_api_gateway.Proxy.Handler.{
  record_websocket_trace, put_websocket_log, serve_hijacked, serve_tunnel, serve_websocket,
  serve_answer, serve_proxied, serve_record, serve_captured, serve_capture, serve_route, serve_http,
  has_key,
}

pub if-Published :
    {R : Type 0} {log : Log} (b : Bool) (x y : R × Log)
    → Published log x.1
    → Published log y.1
    → Published log (if b then x else y).1
if-Published true x y p q = p
if-Published false x y p q = q

spool_answer-Grows :
    (reason : String) (log : Log) (o : Option String) → Grows log (spool_answer reason log o)
unfolding spool_answer
spool_answer-Grows reason log none = grows_by (spooled reason) refl grows_same
spool_answer-Grows reason log (some e) = grows_by (reported e) refl grows_same

write_spool-Grows :
    (spool : Option (Log → Option String)) (reason : String) (log : Log)
    → Grows log (write_spool spool reason log)
unfolding write_spool
write_spool-Grows none reason log = grows_same
write_spool-Grows (some write') reason log = spool_answer-Grows reason log (write' log)

pub report-Grows : (o : Option String) (log : Log) → Grows log (report o log)
unfolding report
report-Grows none log = grows_same
report-Grows (some e) log = grows_by (reported e) refl grows_same

pub object_or_skip-Grows : (p : Put × Log) (skip : Bool) → Grows p.1 (object_or_skip p skip).2
unfolding object_or_skip
object_or_skip-Grows (put_object o, log) skip = grows_same
object_or_skip-Grows (put_failed e, log) skip = grows_by (reported e) refl grows_same

capture_parts-Grows :
    (o : Option (Option (List Part))) (log : Log) → Grows log (capture_parts o log).1
unfolding capture_parts
capture_parts-Grows none log = grows_same
capture_parts-Grows (some none) log = grows_by (reported "multipart") refl grows_same
capture_parts-Grows (some (some parts)) log = grows_same

module _ (a : Audit) where
  object_or_spool-Grows :
      (reason : String) (p : Put × Log) → Grows p.1 (object_or_spool a reason p).2
  unfolding object_or_spool
  object_or_spool-Grows reason (put_object o, log) = grows_same
  object_or_spool-Grows reason (put_failed e, log) =
      Grows-trans (grows_by (reported e) refl grows_same)
        (write_spool-Grows a.write_spool reason (reported e ∷ log))

  put_header_json-Grows :
      (object_type : String) (json : Option Bytes) (log : Log)
      → Grows log (put_header_json a object_type json log).1
  unfolding put_header_json
  put_header_json-Grows object_type none log = grows_same
  put_header_json-Grows object_type (some data_) log =
      put_evidence-Grows a object_type "application/json" data_ log

  put_header_evidence-Grows :
      (object_type : String) (header : String → String) (log : Log)
      → Grows log (put_header_evidence a object_type header log).1
  unfolding put_header_evidence
  put_header_evidence-Grows object_type header log =
      put_header_json-Grows object_type (a.header_json header) log

  pub request_evidence-Grows :
      (req : Incoming) (c : Captured) (log : Log) → Grows log (request_evidence a req c log).log
  unfolding request_evidence
  request_evidence-Grows req c log =
      let put = put_evidence a "request_body" c.content_type c.body_bytes log in
      let body = object_or_spool a "request_body_evidence_failed" put in
      let parts = capture_parts req.multipart body.2 in
      let header = put_header_evidence a "request_headers" req.auth.header parts.1 in
      Grows-trans (put_evidence-Grows a "request_body" c.content_type c.body_bytes log) (
        Grows-trans (object_or_spool-Grows "request_body_evidence_failed" put) (
          Grows-trans (capture_parts-Grows req.multipart body.2) (
            Grows-trans (put_header_evidence-Grows "request_headers" req.auth.header parts.1)
              (object_or_spool-Grows "request_header_evidence_failed" header))))

  -- The headers of a response, as both kinds of responses and the tunnel keep them.
  pub header_or_skip-Grows :
      (header : String → String) (skip : Bool) (log : Log)
      → Grows log (object_or_skip (put_header_evidence a "response_headers" header log) skip).2
  header_or_skip-Grows header skip log =
      Grows-trans (put_header_evidence-Grows "response_headers" header log)
        (object_or_skip-Grows (put_header_evidence a "response_headers" header log) skip)
