-- ===== src/Proxy/Handler.antt =====
-- internal/gateway/proxy.go: the websocket tunnel, and `ServeHTTP` from its start.
use new_api_gateway.Prelude.{
  ℕ, String, Bool, true, false, [], ◌∷◌, Option, none, some, ltb, ◌==◌, nat_eq, string_eq,
  if◌then◌else◌, inl, inr, ◌⊎◌,
}
use new_api_gateway.Text.{Bytes}
use new_api_gateway.Routes.{Entry, match}
use new_api_gateway.AuthKeys.{Source, extract}
use new_api_gateway.Proxy.{
  Object, no_object, Incoming, TraceRecord, reported, Log, Audit, Front, Reply, refused, upgraded,
  dropped, Response, Tunnel, dial_failed, handshake_failed, handshaken, Hijack, not_hijacker,
  hijack_failed, write_failed, tunneled,
}
use new_api_gateway.Proxy.Persist.{put_evidence}
use new_api_gateway.Proxy.Serve.{
  Captured, Capture, captured, too_large, unreadable, capture_request_body, is_websocket_upgrade,
  resolve_identity, put_header_evidence, request_evidence, request_record,
}
use new_api_gateway.Proxy.Serve.Responses.{
  persist, is_streaming_response, object_or_skip, serve_upstream_error, serve_whole, serve_stream,
}

abbrev pub has_key : Option (String × Source) → Bool
has_key none = false
has_key (some key) = true

module _ (a : Audit) (part_name : ℕ → String) (has_secret : Bool) where
  -- `recordWebSocketTrace`
  unfoldable pub record_websocket_trace : TraceRecord → ℕ → ℕ → Log → Log
  record_websocket_trace r status upstream log =
      persist a part_name has_secret (record r { status_code = status; upstream_code = upstream })
        log

  -- The log of the frames, where there are any.
  unfoldable pub put_websocket_log : Bytes → Bool → Log → Object × Bool × Log
  put_websocket_log [] skip log = (no_object, skip, log)
  put_websocket_log (b ∷ bs) skip log =
      object_or_skip (put_evidence a "websocket_log" "text/plain" (b ∷ bs) log) skip

  -- The client's side, with the record of the handshake.
  unfoldable pub serve_hijacked : {S : Type 0} → TraceRecord → ℕ → Hijack → Log → Reply S × Log
  serve_hijacked r status not_hijacker log =
      (refused 500 "websocket tunnel unsupported", record_websocket_trace r 500 status log)
  serve_hijacked r status (hijack_failed e) log =
      (dropped, record_websocket_trace r 500 status (reported e ∷ log))
  serve_hijacked r status (write_failed e) log =
      (dropped, record_websocket_trace r 502 status (reported e ∷ log))
  serve_hijacked r status (tunneled frames) log =
      if status == 101
      then (let (o, skip, log') = put_websocket_log frames r.skip_post_persistence log in
          (
            upgraded status,
            record_websocket_trace
                (record r { websocket_log_object = o; skip_post_persistence = skip }) status status
                log',
          ))
      else (upgraded status, record_websocket_trace r status status log)

  -- `serveWebSocketTunnel` behind the upstream's URL.
  unfoldable pub serve_tunnel : {S : Type 0} → TraceRecord → Tunnel → Log → Reply S × Log
  serve_tunnel r dial_failed log =
      (refused 502 "upstream request failed", record_websocket_trace r 502 0 log)
  serve_tunnel r handshake_failed log =
      (refused 502 "upstream request failed", record_websocket_trace r 502 0 log)
  serve_tunnel r (handshaken resp hijack) log =
      let (h, skip, log') =
        object_or_skip (put_header_evidence a "response_headers" resp.header log)
          r.skip_post_persistence in
      serve_hijacked
        (record r {
          response_headers_object = h;
          response_content_type = resp.header "Content-Type";
          response_header = resp.header;
          skip_post_persistence = skip;
        })
        resp.status hijack log'

  unfoldable pub serve_websocket : (f : Front) → TraceRecord → Log → Reply f.Client × Log
  serve_websocket f r log =
      if f.target_ok
      then serve_tunnel r (f.tunnel r.request) log
      else (refused 502 "failed to create upstream request", record_websocket_trace r 502 0 log)

  -- What is done with the upstream's answer.
  unfoldable pub serve_answer :
      (f : Front) → TraceRecord → Response ⊎ String → Log → Reply f.Client × Log
  serve_answer f r (inr e) log = serve_upstream_error a part_name has_secret r e log
  serve_answer f r (inl resp) log =
      if is_streaming_response resp
      then serve_stream a part_name has_secret f r resp log
      else serve_whole a part_name has_secret r resp log

  unfoldable pub serve_proxied : (f : Front) → TraceRecord → Bytes → Log → Reply f.Client × Log
  serve_proxied f r body log =
      if f.target_ok
      then serve_answer f r (f.ask r.request body) log
      else (refused 502 "failed to create upstream request", log)

  -- The route's way, by its kind.
  unfoldable pub serve_record : (f : Front) → TraceRecord → Bytes → Log → Reply f.Client × Log
  serve_record f r body log =
      if r.entry.body_kind == "websocket"
      then (if is_websocket_upgrade r.request
          then serve_websocket f (record r { stream = true }) log
          else serve_proxied f r body log)
      else serve_proxied f r body log

  -- The request with its body, under the test for the secret.
  unfoldable pub serve_captured :
      (f : Front) → String → Incoming → Entry → Captured → Log → Reply f.Client × Log
  serve_captured f trace_id req entry c log =
      let key = extract req.auth in
      let weak = if has_key key then ltb f.audit_secret_length 32 else false in
      let ev = request_evidence a req c log in
      let r = request_record a trace_id req entry c ev (resolve_identity a key) in
      if weak
      then (refused 500 "audit secret is not configured", log)
      else serve_record f r c.body_bytes ev.log

  unfoldable pub serve_capture :
      (f : Front) → String → Incoming → Entry → Capture → Log → Reply f.Client × Log
  serve_capture f trace_id req entry too_large log = (refused 413 "request body too large", log)
  serve_capture f trace_id req entry unreadable log =
      (refused 400 "failed to read request body", log)
  serve_capture f trace_id req entry (captured c) log = serve_captured f trace_id req entry c log

  unfoldable pub serve_route :
      (f : Front) → String → Incoming → Option Entry → Log → Reply f.Client × Log
  serve_route f trace_id req none log = (refused 404 "unknown route", log)
  serve_route f trace_id req (some entry) log =
      serve_capture f trace_id req entry
        (capture_request_body f.max_request_body_bytes req req.body) log

  -- `ServeHTTP`
  unfoldable pub serve_http : (f : Front) → String → Incoming → Log → Reply f.Client × Log
  serve_http f trace_id req log =
      serve_route f trace_id req (match f.registry req.method req.path) log
