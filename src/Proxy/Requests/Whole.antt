-- ===== src/Proxy/Requests/Whole.antt =====
-- What a whole request adds to the history.
use new_api_gateway.Prelude.{
  ℕ, String, Bool, true, false, [], ◌∷◌, Option, none, some, ltb, ◌==◌, nat_eq, string_eq,
  if◌then◌else◌, refl, inl, inr, ◌⊎◌,
}
use new_api_gateway.Text.{Bytes}
use new_api_gateway.Routes.{Entry, match}
use new_api_gateway.AuthKeys.{extract}
use new_api_gateway.Gateway.Stream.{Error, Copied}
use new_api_gateway.Gateway.Usage.{MinimalUsage}
use new_api_gateway.Proxy.{
  Incoming, TraceRecord, reported, Log, Put, put_failed, put_object, Audit, Front, Response, Tunnel,
  dial_failed, handshake_failed, handshaken, Hijack, not_hijacker, hijack_failed, write_failed,
  tunneled, Assembly, assembled, panicked,
}
use new_api_gateway.Proxy.Persist.{put_evidence}
use new_api_gateway.Proxy.Grows.{Grows, grows_same, grows_by, Grows-trans, put_evidence-Grows}
use new_api_gateway.Proxy.Order.{
  Published, Grows-Published, Published-after, insert_trace-Published,
}
use new_api_gateway.Proxy.Serve.{
  Capture, captured, too_large, unreadable, capture_request_body, is_websocket_upgrade,
  request_evidence,
}
use new_api_gateway.Proxy.Serve.Responses.{
  read_all, is_streaming_response, object_or_skip, put_stream, stream_object, error_of, end_stream,
  serve_upstream_error, serve_body, serve_read_error, serve_read, serve_whole, serve_stream,
}
use new_api_gateway.Proxy.Handler.{
  record_websocket_trace, put_websocket_log, serve_hijacked, serve_tunnel, serve_websocket,
  serve_answer, serve_proxied, serve_record, serve_captured, serve_capture, serve_route, serve_http,
  has_key,
}
use new_api_gateway.Proxy.Requests.{
  if-Published, report-Grows, object_or_skip-Grows, request_evidence-Grows, header_or_skip-Grows,
}

module _ (a : Audit) (part_name : ℕ → String) (has_secret : Bool) (f : Front) where
  serve_read-Published :
      (r : TraceRecord) (resp : Response) (got : Bytes ⊎ Error) (log : Log)
      → Published log (serve_read a part_name has_secret {S = f.Client} r resp got log).1
  unfolding serve_read serve_body serve_read_error
  serve_read-Published r resp (inl body) log =
      let put = put_evidence a "response_body" (resp.header "Content-Type") body log in
      let kept = object_or_skip put r.skip_post_persistence in
      Published-after
        (Grows-trans (put_evidence-Grows a "response_body" (resp.header "Content-Type") body log) (
          Grows-trans (object_or_skip-Grows put r.skip_post_persistence)
            (header_or_skip-Grows a resp.header kept.1 kept.2)))
        (insert_trace-Published a part_name has_secret _ _)
  serve_read-Published r resp (inr e) log =
      Published-after
        (Grows-trans (grows_by (reported (a.describe e)) refl grows_same)
          (header_or_skip-Grows a resp.header true (reported (a.describe e) ∷ log)))
        (insert_trace-Published a part_name has_secret _ _)

  pub stream_object-Grows :
      (p : Put × Log) (capture_err : Option String) (skip : Bool)
      → Grows p.1 (stream_object a part_name has_secret p capture_err skip).2
  unfolding stream_object
  stream_object-Grows (put_object o, log) capture_err skip = report-Grows capture_err log
  stream_object-Grows (put_failed e, log) capture_err skip = grows_by (reported e) refl grows_same

  pub put_stream-Grows :
      (resp : Response) (document : Option Bytes) (capture : Bytes) (log : Log)
      → Grows log (put_stream a part_name has_secret resp document capture log).1
  unfolding put_stream
  put_stream-Grows resp none capture log =
      put_evidence-Grows a "response_body" (resp.header "Content-Type") capture log
  put_stream-Grows resp (some document) capture log =
      put_evidence-Grows a "response_body" "application/json" document log

  end_stream-Published :
      {S T : Type 0} (r : TraceRecord) (resp : Response) (client : S) (copied : Copied T Bytes)
      (result : MinimalUsage × String) (assembly : Assembly) (log : Log)
      → Published log (end_stream a part_name has_secret r resp client copied result assembly log).1
  unfolding end_stream
  end_stream-Published r resp client copied result panicked log = Grows-Published grows_same
  end_stream-Published r resp client copied (usage, model) (assembled document) log =
      let put = put_stream a part_name has_secret resp document copied.capture log in
      let err = error_of a part_name has_secret copied.capture_err in
      let done = stream_object a part_name has_secret put err r.skip_post_persistence in
      Published-after
        (Grows-trans (put_stream-Grows resp document copied.capture log) (
          Grows-trans (stream_object-Grows put err r.skip_post_persistence)
            (report-Grows (error_of a part_name has_secret copied.response_err) done.2)))
        (insert_trace-Published a part_name has_secret _ _)

  serve_stream-Published :
      (r : TraceRecord) (resp : Response) (log : Log)
      → Published log (serve_stream a part_name has_secret f r resp log).1
  unfolding serve_stream
  serve_stream-Published r resp log =
      Published-after (header_or_skip-Grows a resp.header r.skip_post_persistence log)
        (end_stream-Published _ resp _ _ _ _ _)

  serve_answer-Published :
      (r : TraceRecord) (answer : Response ⊎ String) (log : Log)
      → Published log (serve_answer a part_name has_secret f r answer log).1
  unfolding serve_answer serve_upstream_error serve_whole
  serve_answer-Published r (inr e) log = insert_trace-Published a part_name has_secret _ log
  serve_answer-Published r (inl resp) log =
      if-Published (is_streaming_response resp) _ _ (serve_stream-Published r resp log)
        (serve_read-Published r resp (read_all resp.body) log)

  serve_proxied-Published :
      (r : TraceRecord) (body : Bytes) (log : Log)
      → Published log (serve_proxied a part_name has_secret f r body log).1
  unfolding serve_proxied
  serve_proxied-Published r body log =
      if-Published f.target_ok _ _ (serve_answer-Published r (f.ask r.request body) log)
        (Grows-Published grows_same)

  record_websocket_trace-Published :
      (r : TraceRecord) (status upstream : ℕ) (log : Log)
      → Published log (record_websocket_trace a part_name has_secret r status upstream log)
  unfolding record_websocket_trace
  record_websocket_trace-Published r status upstream log =
      insert_trace-Published a part_name has_secret _ log

  pub put_websocket_log-Grows :
      (frames : Bytes) (skip : Bool) (log : Log)
      → Grows log (put_websocket_log a part_name has_secret frames skip log).2
  unfolding put_websocket_log
  put_websocket_log-Grows [] skip log = grows_same
  put_websocket_log-Grows (b ∷ bs) skip log =
      Grows-trans (put_evidence-Grows a "websocket_log" "text/plain" (b ∷ bs) log)
        (object_or_skip-Grows (put_evidence a "websocket_log" "text/plain" (b ∷ bs) log) skip)

  serve_hijacked-Published :
      (r : TraceRecord) (status : ℕ) (hijack : Hijack) (log : Log)
      → Published log (serve_hijacked a part_name has_secret {S = f.Client} r status hijack log).1
  unfolding serve_hijacked
  serve_hijacked-Published r status not_hijacker log =
      record_websocket_trace-Published r 500 status log
  serve_hijacked-Published r status (hijack_failed e) log =
      Published-after (grows_by (reported e) refl grows_same)
        (record_websocket_trace-Published r 500 status (reported e ∷ log))
  serve_hijacked-Published r status (write_failed e) log =
      Published-after (grows_by (reported e) refl grows_same)
        (record_websocket_trace-Published r 502 status (reported e ∷ log))
  serve_hijacked-Published r status (tunneled frames) log =
      if-Published (status == 101) _ _
        (Published-after (put_websocket_log-Grows frames r.skip_post_persistence log)
          (record_websocket_trace-Published _ status status _))
        (record_websocket_trace-Published r status status log)

  serve_tunnel-Published :
      (r : TraceRecord) (t : Tunnel) (log : Log)
      → Published log (serve_tunnel a part_name has_secret {S = f.Client} r t log).1
  unfolding serve_tunnel
  serve_tunnel-Published r dial_failed log = record_websocket_trace-Published r 502 0 log
  serve_tunnel-Published r handshake_failed log = record_websocket_trace-Published r 502 0 log
  serve_tunnel-Published r (handshaken resp hijack) log =
      Published-after (header_or_skip-Grows a resp.header r.skip_post_persistence log)
        (serve_hijacked-Published _ resp.status hijack _)

  serve_record-Published :
      (r : TraceRecord) (body : Bytes) (log : Log)
      → Published log (serve_record a part_name has_secret f r body log).1
  unfolding serve_record serve_websocket
  serve_record-Published r body log =
      let proxied = serve_proxied-Published r body log in
      if-Published (r.entry.body_kind == "websocket") _ _
        (if-Published (is_websocket_upgrade r.request) _ _
          (if-Published f.target_ok _ _
            (serve_tunnel-Published (record r { stream = true }) (f.tunnel r.request) log)
            (record_websocket_trace-Published (record r { stream = true }) 502 0 log))
          proxied)
        proxied

  serve_capture-Published :
      (trace_id : String) (req : Incoming) (entry : Entry) (c : Capture) (log : Log)
      → Published log (serve_capture a part_name has_secret f trace_id req entry c log).1
  unfolding serve_capture serve_captured
  serve_capture-Published trace_id req entry too_large log = Grows-Published grows_same
  serve_capture-Published trace_id req entry unreadable log = Grows-Published grows_same
  serve_capture-Published trace_id req entry (captured c) log =
      if-Published (if has_key (extract req.auth) then ltb f.audit_secret_length 32 else false) _ _
        (Grows-Published grows_same)
        (Published-after (request_evidence-Grows a req c log)
          (serve_record-Published _ c.body_bytes (request_evidence a req c log).log))

  serve_route-Published :
      (trace_id : String) (req : Incoming) (entry : Option Entry) (log : Log)
      → Published log (serve_route a part_name has_secret f trace_id req entry log).1
  unfolding serve_route
  serve_route-Published trace_id req none log = Grows-Published grows_same
  serve_route-Published trace_id req (some entry) log =
      serve_capture-Published trace_id req entry
        (capture_request_body f.max_request_body_bytes req req.body) log

  -- One request, whatever way it takes and whatever the audit side answers, publishes at most one
  -- analysis job, behind the insertion of its trace, and marks it as queued only behind that.
  pub serve_http-Published :
      (trace_id : String) (req : Incoming) (log : Log)
      → Published log (serve_http a part_name has_secret f trace_id req log).1
  unfolding serve_http
  serve_http-Published trace_id req log =
      serve_route-Published trace_id req (match f.registry req.method req.path) log
