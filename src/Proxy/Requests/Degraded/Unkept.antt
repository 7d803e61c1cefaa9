-- ===== src/Proxy/Requests/Degraded/Unkept.antt =====
-- What a whole request without its evidence leads to.
use new_api_gateway.Prelude.{
  ℕ, String, Bool, true, false, Option, none, some, ltb, ◌==◌, nat_eq, string_eq, if◌then◌else◌,
  refl, ◌≡◌, ◌∙◌,
}
use new_api_gateway.Text.{Bytes}
use new_api_gateway.Routes.{Entry, match}
use new_api_gateway.AuthKeys.{extract}
use new_api_gateway.Proxy.{
  Incoming, TraceRecord, reported, Log, Put, put_failed, put_object, Audit, Front, Tunnel,
  dial_failed, handshake_failed, handshaken, Hijack, not_hijacker, hijack_failed, write_failed,
  tunneled,
}
use new_api_gateway.Proxy.Persist.{put_evidence}
use new_api_gateway.Proxy.Grows.{grows_same, grows_by, Grows-jobs, jobs}
use new_api_gateway.Proxy.Serve.{
  Capture, captured, too_large, unreadable, capture_request_body, is_websocket_upgrade,
  request_evidence, object_or_spool, request_record,
}
use new_api_gateway.Proxy.Handler.{
  record_websocket_trace, serve_hijacked, serve_tunnel, serve_websocket, serve_record,
  serve_captured, serve_capture, serve_route, serve_http, has_key,
}
use new_api_gateway.Proxy.Requests.{request_evidence-Grows, header_or_skip-Grows}
use new_api_gateway.Proxy.Requests.Whole.{put_websocket_log-Grows}
use new_api_gateway.Proxy.Requests.Degraded.{
  object_or_skip-skip, if-quiet, persist-jobs, put_websocket_log-skip, serve_proxied-jobs,
}

module _ (a : Audit) (part_name : ℕ → String) (has_secret : Bool) (f : Front) where
  serve_hijacked-jobs :
      (r : TraceRecord) (status : ℕ) (hijack : Hijack) (log : Log)
      → r.skip_post_persistence ≡ true
      → jobs (serve_hijacked a part_name has_secret {S = f.Client} r status hijack log).1 ≡ jobs log
  unfolding serve_hijacked record_websocket_trace
  serve_hijacked-jobs r status not_hijacker log skip =
      persist-jobs a part_name has_secret _ grows_same skip
  serve_hijacked-jobs r status (hijack_failed e) log skip =
      persist-jobs a part_name has_secret _ (grows_by (reported e) refl grows_same) skip
  serve_hijacked-jobs r status (write_failed e) log skip =
      persist-jobs a part_name has_secret _ (grows_by (reported e) refl grows_same) skip
  serve_hijacked-jobs r status (tunneled frames) log skip =
      if-quiet (status == 101) _ _
        (persist-jobs a part_name has_secret _
          (put_websocket_log-Grows a part_name has_secret f frames r.skip_post_persistence log)
          (put_websocket_log-skip a part_name has_secret frames r.skip_post_persistence log skip))
        (persist-jobs a part_name has_secret _ grows_same skip)

  serve_tunnel-jobs :
      (r : TraceRecord) (t : Tunnel) (log : Log)
      → r.skip_post_persistence ≡ true
      → jobs (serve_tunnel a part_name has_secret {S = f.Client} r t log).1 ≡ jobs log
  unfolding serve_tunnel record_websocket_trace
  serve_tunnel-jobs r dial_failed log skip = persist-jobs a part_name has_secret _ grows_same skip
  serve_tunnel-jobs r handshake_failed log skip =
      persist-jobs a part_name has_secret _ grows_same skip
  serve_tunnel-jobs r (handshaken resp hijack) log skip =
      serve_hijacked-jobs _ resp.status hijack _
        (object_or_skip-skip _ r.skip_post_persistence skip)
      ∙ Grows-jobs (header_or_skip-Grows a resp.header r.skip_post_persistence log)

  serve_record-jobs :
      (r : TraceRecord) (body : Bytes) (log : Log)
      → r.skip_post_persistence ≡ true
      → jobs (serve_record a part_name has_secret f r body log).1 ≡ jobs log
  unfolding serve_record serve_websocket record_websocket_trace
  serve_record-jobs r body log skip =
      let proxied = serve_proxied-jobs a part_name has_secret f r body log skip in
      let r' : TraceRecord = record r { stream = true } in
      if-quiet (r.entry.body_kind == "websocket") _ _
        (if-quiet (is_websocket_upgrade r.request) _ _
          (if-quiet f.target_ok _ _ (serve_tunnel-jobs r' (f.tunnel r.request) log skip)
            (persist-jobs a part_name has_secret _ grows_same skip))
          proxied)
        proxied

  object_or_spool-failed :
      (reason : String) (p : Put × Log)
      → (e : String) × (p.0 ≡ put_failed e)
      → (e : String) × ((object_or_spool a reason p).1 ≡ some e)
  unfolding object_or_spool
  object_or_spool-failed reason (put_object o, log) (e, h) = absurd (cc)
  object_or_spool-failed reason (put_failed d, log) (e, h) = (d, refl)

  serve_capture-jobs :
      (trace_id : String) (req : Incoming) (entry : Entry) (c : Capture) (log : Log)
      → ((content_type : String) (body : Bytes)
          → (e : String) × ((put_evidence a "request_body" content_type body log).0 ≡ put_failed e))
      → jobs (serve_capture a part_name has_secret f trace_id req entry c log).1 ≡ jobs log
  unfolding serve_capture serve_captured request_record request_evidence
  serve_capture-jobs trace_id req entry too_large log refuses = refl
  serve_capture-jobs trace_id req entry unreadable log refuses = refl
  serve_capture-jobs trace_id req entry (captured c) log refuses =
      let (e, h) =
        object_or_spool-failed "request_body_evidence_failed"
          (put_evidence a "request_body" c.content_type c.body_bytes log)
          (refuses c.content_type c.body_bytes) in
      if-quiet (if has_key (extract req.auth) then ltb f.audit_secret_length 32 else false) _ _ refl
        (serve_record-jobs _ c.body_bytes _ (rw h refl)
          ∙ Grows-jobs (request_evidence-Grows a req c log))

  serve_route-jobs :
      (trace_id : String) (req : Incoming) (entry : Option Entry) (log : Log)
      → ((content_type : String) (body : Bytes)
          → (e : String) × ((put_evidence a "request_body" content_type body log).0 ≡ put_failed e))
      → jobs (serve_route a part_name has_secret f trace_id req entry log).1 ≡ jobs log
  unfolding serve_route
  serve_route-jobs trace_id req none log refuses = refl
  serve_route-jobs trace_id req (some entry) log refuses =
      serve_capture-jobs trace_id req entry
        (capture_request_body f.max_request_body_bytes req req.body) log refuses

  -- A request whose body the evidence store refuses leads to no analysis job, by whatever route it goes, and
  -- whatever the upstream and the rest of the audit side answer.
  pub serve_http-jobs :
      (trace_id : String) (req : Incoming) (log : Log)
      → ((content_type : String) (body : Bytes)
          → (e : String) × ((put_evidence a "request_body" content_type body log).0 ≡ put_failed e))
      → jobs (serve_http a part_name has_secret f trace_id req log).1 ≡ jobs log
  unfolding serve_http
  serve_http-jobs trace_id req log refuses =
      serve_route-jobs trace_id req (match f.registry req.method req.path) log refuses
