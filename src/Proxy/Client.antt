-- ===== src/Proxy/Client.antt =====
-- What the client gets, as a function of the request, the routes and the upstream alone.
use new_api_gateway.Prelude.{
  ℕ, String, Bool, true, false, [], Option, none, some, ltb, ◌==◌, nat_eq, string_eq, if◌then◌else◌,
  inl, inr, ◌⊎◌, ◌≡◌, refl, ap, ◌∙◌,
}
use new_api_gateway.Text.{Bytes}
use new_api_gateway.Routes.{Entry, match}
use new_api_gateway.AuthKeys.{extract}
use new_api_gateway.Gateway.Stream.{write_buffer, Error, Copied}
use new_api_gateway.Gateway.Stream.Laws.{deliver, copy_stream-deliver}
use new_api_gateway.Gateway.Sse.{Sse, write}
use new_api_gateway.Gateway.Usage.{MinimalUsage, extractor_for}
use new_api_gateway.Proxy.{
  Incoming, TraceRecord, Log, Audit, Front, Reply, refused, answered, streamed, upgraded, dropped,
  Response, Tunnel, dial_failed, handshake_failed, handshaken, Hijack, not_hijacker, hijack_failed,
  write_failed, tunneled, aborted, Assembly, assembled, panicked,
}
use new_api_gateway.Proxy.Serve.{
  copy_headers, Capture, captured, too_large, unreadable, capture_request_body,
  is_websocket_upgrade, request_record,
}
use new_api_gateway.Proxy.Serve.Responses.{
  read_all, is_streaming_response, serve_upstream_error, serve_body, serve_read_error, serve_read,
  serve_whole, serve_stream, end_stream, has_store,
}
use new_api_gateway.Proxy.Handler.{
  serve_hijacked, serve_tunnel, serve_websocket, serve_answer, serve_proxied, serve_record,
  serve_captured, serve_capture, serve_route, serve_http, has_key,
}

-- The client's side of a tunnel.
abbrev pub hijack_reply : {S : Type 0} → ℕ → Hijack → Reply S
hijack_reply status not_hijacker = refused 500 "websocket tunnel unsupported"
hijack_reply status (hijack_failed e) = dropped
hijack_reply status (write_failed e) = dropped
hijack_reply status (tunneled frames) = upgraded status

abbrev pub tunnel_reply : {S : Type 0} → Tunnel → Reply S
tunnel_reply dial_failed = refused 502 "upstream request failed"
tunnel_reply handshake_failed = refused 502 "upstream request failed"
tunnel_reply (handshaken resp hijack) = hijack_reply resp.status hijack

-- A whole body, or the error that it broke off.
abbrev pub body_reply : {S : Type 0} → String → Response → Bytes ⊎ Error → Reply S
body_reply trace_id resp (inl body) = answered resp.status (copy_headers resp) trace_id body
body_reply trace_id resp (inr e) = refused 502 "failed to read upstream response"

-- A stream, which a panic behind it cuts off.
abbrev pub stream_reply : {S : Type 0} → String → Response → S → Assembly → Reply S
stream_reply trace_id resp w (assembled document) =
    streamed resp.status (copy_headers resp) trace_id w
stream_reply trace_id resp w panicked = aborted resp.status (copy_headers resp) trace_id w

-- The front without any audit, but for whether there is a store (`storing`), and so a document to put
-- together. A stream goes to the client as the copy with no capture delivers it.
module _ (f : Front) (storing : Bool) (trace_id : String) (req : Incoming) (entry : Entry) where
  unfoldable pub answer_reply : Response ⊎ String → Reply f.Client
  answer_reply (inr e) = refused 502 "upstream request failed"
  answer_reply (inl resp) =
      let x = f.extractor (extractor_for entry.protocol_family) in
      let start : Sse x.ext f.Client = record { w = f.client; ext = x.new; buf = [] } in
      if is_streaming_response resp
      then (let client = (deliver (write x.ext f.write_client) start 0 resp.body).client in
          stream_reply trace_id resp client.w
            (if storing then x.assemble_sse client.ext else assembled none))
      else body_reply trace_id resp (read_all resp.body)

  unfoldable pub proxied_reply : Bytes → Reply f.Client
  proxied_reply body =
      if f.target_ok
      then answer_reply (f.ask req body)
      else refused 502 "failed to create upstream request"

  abbrev pub websocket_reply : Reply f.Client
  websocket_reply =
      if f.target_ok
      then tunnel_reply (f.tunnel req)
      else refused 502 "failed to create upstream request"

  unfoldable pub record_reply : Bytes → Reply f.Client
  record_reply body =
      if entry.body_kind == "websocket"
      then (if is_websocket_upgrade req then websocket_reply else proxied_reply body)
      else proxied_reply body

  unfoldable pub captured_reply : Capture → Reply f.Client
  captured_reply too_large = refused 413 "request body too large"
  captured_reply unreadable = refused 400 "failed to read request body"
  captured_reply (captured c) =
      if (if has_key (extract req.auth) then ltb f.audit_secret_length 32 else false)
      then refused 500 "audit secret is not configured"
      else record_reply c.body_bytes

abbrev pub route_reply : (f : Front) → Bool → String → Incoming → Option Entry → Reply f.Client
route_reply f storing trace_id req none = refused 404 "unknown route"
route_reply f storing trace_id req (some entry) =
    captured_reply f storing trace_id req entry
      (capture_request_body f.max_request_body_bytes req req.body)

unfoldable pub respond : (f : Front) → Bool → String → Incoming → Reply f.Client
respond f storing trace_id req =
    route_reply f storing trace_id req (match f.registry req.method req.path)

if_same : {R : Type 0} {x : R} (b : Bool) → (if b then x else x) ≡ x
if_same true = refl
if_same false = refl

if-reply :
    {R : Type 0} (b : Bool) (x y : R × Log) {u v : R}
    → x.0 ≡ u
    → y.0 ≡ v
    → (if b then x else y).0 ≡ (if b then u else v)
if-reply true x y h k = h
if-reply false x y h k = k

module _ (a : Audit) (part_name : ℕ → String) (has_secret : Bool) (f : Front) where
  abbrev store_on : Bool
  store_on = has_store a part_name has_secret

  serve_read-reply :
      (r : TraceRecord) (resp : Response) (got : Bytes ⊎ Error) (log : Log)
      → (serve_read a part_name has_secret {S = f.Client} r resp got log).0
        ≡ body_reply r.trace_id resp got
  unfolding serve_read serve_body serve_read_error
  serve_read-reply r resp (inl body) log = refl
  serve_read-reply r resp (inr e) log = refl

  end_stream-reply :
      {S T : Type 0} (r : TraceRecord) (resp : Response) (client : S) (copied : Copied T Bytes)
      (result : MinimalUsage × String) (assembly : Assembly) (log : Log)
      → (end_stream a part_name has_secret r resp client copied result assembly log).0
        ≡ stream_reply r.trace_id resp client assembly
  unfolding end_stream
  end_stream-reply r resp client copied result panicked log = refl
  end_stream-reply r resp client copied (usage, model) (assembled document) log = refl

  serve_stream-reply :
      (r : TraceRecord) (resp : Response) (log : Log)
      → let x = f.extractor (extractor_for r.entry.protocol_family) in
        let start : Sse x.ext f.Client = record { w = f.client; ext = x.new; buf = [] } in
        let client = (deliver (write x.ext f.write_client) start 0 resp.body).client in
        (serve_stream a part_name has_secret f r resp log).0
        ≡ stream_reply r.trace_id resp client.w
            (if store_on then x.assemble_sse client.ext else assembled none)
  unfolding serve_stream
  serve_stream-reply r resp log =
      let x = f.extractor (extractor_for r.entry.protocol_family) in
      let start : Sse x.ext f.Client = record { w = f.client; ext = x.new; buf = [] } in
      end_stream-reply _ resp _ _ _ _ _
      ∙ ap
          (λ d.
            stream_reply r.trace_id resp d.client.w
              (if store_on then x.assemble_sse d.client.ext else assembled none))
          (copy_stream-deliver (write x.ext f.write_client) write_buffer start [] store_on
            resp.body)

  serve_answer-reply :
      (r : TraceRecord) (answer : Response ⊎ String) (log : Log)
      → (serve_answer a part_name has_secret f r answer log).0
        ≡ answer_reply f store_on r.trace_id r.request r.entry answer
  unfolding serve_answer answer_reply serve_upstream_error serve_whole
  serve_answer-reply r (inr e) log = refl
  serve_answer-reply r (inl resp) log =
      if-reply (is_streaming_response resp) _ _ (serve_stream-reply r resp log)
        (serve_read-reply r resp (read_all resp.body) log)

  serve_proxied-reply :
      (r : TraceRecord) (body : Bytes) (log : Log)
      → (serve_proxied a part_name has_secret f r body log).0
        ≡ proxied_reply f store_on r.trace_id r.request r.entry body
  unfolding serve_proxied proxied_reply
  serve_proxied-reply r body log =
      if-reply f.target_ok _ _ (serve_answer-reply r (f.ask r.request body) log) refl

  serve_hijacked-reply :
      (r : TraceRecord) (status : ℕ) (hijack : Hijack) (log : Log)
      → (serve_hijacked a part_name has_secret {S = f.Client} r status hijack log).0
        ≡ hijack_reply status hijack
  unfolding serve_hijacked
  serve_hijacked-reply r status not_hijacker log = refl
  serve_hijacked-reply r status (hijack_failed e) log = refl
  serve_hijacked-reply r status (write_failed e) log = refl
  serve_hijacked-reply r status (tunneled frames) log =
      if-reply (status == 101) _ _ refl refl ∙ if_same (status == 101)

  serve_tunnel-reply :
      (r : TraceRecord) (t : Tunnel) (log : Log)
      → (serve_tunnel a part_name has_secret {S = f.Client} r t log).0 ≡ tunnel_reply t
  unfolding serve_tunnel
  serve_tunnel-reply r dial_failed log = refl
  serve_tunnel-reply r handshake_failed log = refl
  serve_tunnel-reply r (handshaken resp hijack) log = serve_hijacked-reply _ resp.status hijack _

  serve_websocket-reply :
      (r : TraceRecord) (log : Log)
      → (serve_websocket a part_name has_secret f r log).0
        ≡ websocket_reply f store_on r.trace_id r.request r.entry
  unfolding serve_websocket
  serve_websocket-reply r log =
      if-reply f.target_ok _ _ (serve_tunnel-reply r (f.tunnel r.request) log) refl

  serve_record-reply :
      (r : TraceRecord) (body : Bytes) (log : Log)
      → (serve_record a part_name has_secret f r body log).0
        ≡ record_reply f store_on r.trace_id r.request r.entry body
  unfolding serve_record record_reply
  serve_record-reply r body log =
      let proxied = serve_proxied-reply r body log in
      if-reply (r.entry.body_kind == "websocket") _ _
        (if-reply (is_websocket_upgrade r.request) _ _
          (serve_websocket-reply (record r { stream = true }) log) proxied)
        proxied

  serve_capture-reply :
      (trace_id : String) (req : Incoming) (entry : Entry) (c : Capture) (log : Log)
      → (serve_capture a part_name has_secret f trace_id req entry c log).0
        ≡ captured_reply f store_on trace_id req entry c
  unfolding serve_capture serve_captured captured_reply request_record
  serve_capture-reply trace_id req entry too_large log = refl
  serve_capture-reply trace_id req entry unreadable log = refl
  serve_capture-reply trace_id req entry (captured c) log =
      if-reply (if has_key (extract req.auth) then ltb f.audit_secret_length 32 else false) _ _ refl
        (serve_record-reply _ c.body_bytes _)

  serve_route-reply :
      (trace_id : String) (req : Incoming) (entry : Option Entry) (log : Log)
      → (serve_route a part_name has_secret f trace_id req entry log).0
        ≡ route_reply f store_on trace_id req entry
  unfolding serve_route
  serve_route-reply trace_id req none log = refl
  serve_route-reply trace_id req (some entry) log =
      serve_capture-reply trace_id req entry
        (capture_request_body f.max_request_body_bytes req req.body) log

  -- Auditing shows to the client in one way only: whatever the evidence store, the repository, the spool,
  -- the alerts, the job queue and the identity resolution answer, and whatever has happened before, the
  -- client gets what the routes, the limits, the secret's length, the upstream, and whether there is a
  -- store at all determine. A stream reaches it as the copy with no capture delivers it; with a store its
  -- connection is aborted behind that if putting the document together panics.
  pub serve_http-respond :
      (trace_id : String) (req : Incoming) (log : Log)
      → (serve_http a part_name has_secret f trace_id req log).0 ≡ respond f store_on trace_id req
  unfolding serve_http respond
  serve_http-respond trace_id req log =
      serve_route-reply trace_id req (match f.registry req.method req.path) log
