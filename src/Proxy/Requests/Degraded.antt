-- ===== src/Proxy/Requests/Degraded.antt =====
-- What a request without its evidence leads to.
pub mod Unkept
pub mod Unstored
use new_api_gateway.Prelude.{
  ℕ, String, Bool, true, false, [], ◌∷◌, Option, none, some, ltb, ◌==◌, nat_eq, string_eq,
  if◌then◌else◌, refl, inl, inr, ◌⊎◌, ◌≡◌, ◌∙◌,
}
use new_api_gateway.Text.{Bytes}
use new_api_gateway.Routes.{Entry, match}
use new_api_gateway.AuthKeys.{extract}
use new_api_gateway.Gateway.Stream.{Error, Copied}
use new_api_gateway.Gateway.Usage.{MinimalUsage}
use new_api_gateway.Proxy.{
  Incoming, TraceRecord, reported, Log, Put, put_failed, put_object, Audit, Front, Response, Tunnel,
  dial_failed, handshake_failed, handshaken, Hijack, not_hijacker, hijack_failed, write_failed,
  tunneled, Assembly, assembled, panicked,
}
use new_api_gateway.Proxy.Persist.{put_evidence}
use new_api_gateway.Proxy.Grows.{
  Grows, grows_same, grows_by, Grows-trans, Grows-jobs, jobs, put_evidence-Grows,
}
use new_api_gateway.Proxy.Order.{insert_trace-jobs}
use new_api_gateway.Proxy.Serve.{
  Capture, captured, too_large, unreadable, capture_request_body, is_websocket_upgrade,
  request_evidence, object_or_spool, request_record,
}
use new_api_gateway.Proxy.Serve.Responses.{
  read_all, is_streaming_response, object_or_skip, put_stream, stream_object, error_of, report,
  serve_upstream_error, serve_body, serve_read_error, serve_read, serve_whole, serve_stream,
  end_stream, persist,
}
use new_api_gateway.Proxy.Handler.{
  record_websocket_trace, put_websocket_log, serve_hijacked, serve_tunnel, serve_websocket,
  serve_answer, serve_proxied, serve_record, serve_captured, serve_capture, serve_route, serve_http,
  has_key,
}
use new_api_gateway.Proxy.Requests.{
  report-Grows, object_or_skip-Grows, request_evidence-Grows, header_or_skip-Grows,
}
use new_api_gateway.Proxy.Requests.Whole.{
  stream_object-Grows, put_stream-Grows, put_websocket_log-Grows,
}

-- A flag that is set stays set, whatever is stored, and a store that fails sets it.
pub object_or_skip-skip :
    (p : Put × Log) (skip : Bool) → skip ≡ true → (object_or_skip p skip).1 ≡ true
unfolding object_or_skip
object_or_skip-skip (put_object o, log) skip h = h
object_or_skip-skip (put_failed e, log) skip h = refl

pub object_or_skip-failed :
    (p : Put × Log) (skip : Bool) (e : String)
    → p.0 ≡ put_failed e
    → (object_or_skip p skip).1 ≡ true
unfolding object_or_skip
object_or_skip-failed (put_object o, log) skip e h = absurd (cc)
object_or_skip-failed (put_failed f, log) skip e h = refl

pub if-quiet :
    {R : Type 0} {n : ℕ} (b : Bool) (x y : R × Log)
    → jobs x.1 ≡ n
    → jobs y.1 ≡ n
    → jobs (if b then x else y).1 ≡ n
if-quiet true x y h k = h
if-quiet false x y h k = k

module _ (a : Audit) (part_name : ℕ → String) (has_secret : Bool) where
  -- Events that are neither jobs nor marks, and a record with the flag behind them.
  pub persist-jobs :
      {log log' : Log} (r : TraceRecord)
      → Grows log log'
      → r.skip_post_persistence ≡ true
      → jobs (persist a part_name has_secret r log') ≡ jobs log
  persist-jobs {log' = log'} r g skip =
      insert_trace-jobs a part_name has_secret r log' skip ∙ Grows-jobs g

  stream_object-skip :
      (p : Put × Log) (err : Option String) (skip : Bool)
      → skip ≡ true
      → (stream_object a part_name has_secret p err skip).1 ≡ true
  unfolding stream_object
  stream_object-skip (put_failed e, log) err skip h = refl
  stream_object-skip (put_object o, log) none skip h = h
  stream_object-skip (put_object o, log) (some e) skip h = refl

  pub put_websocket_log-skip :
      (frames : Bytes) (skip : Bool) (log : Log)
      → skip ≡ true
      → (put_websocket_log a part_name has_secret frames skip log).1 ≡ true
  unfolding put_websocket_log
  put_websocket_log-skip [] skip log h = h
  put_websocket_log-skip (b ∷ bs) skip log h = object_or_skip-skip _ skip h

module _ (a : Audit) (part_name : ℕ → String) (has_secret : Bool) (f : Front) where
  -- The whole response: its own evidence may set the flag too.
  pub serve_body-jobs :
      (r : TraceRecord) (resp : Response) (body : Bytes) (log : Log)
      → let put = put_evidence a "response_body" (resp.header "Content-Type") body log in
        (object_or_skip put r.skip_post_persistence).1 ≡ true
        → jobs (serve_body a part_name has_secret {S = f.Client} r resp body log).1 ≡ jobs log
  unfolding serve_body
  serve_body-jobs r resp body log skip =
      let put = put_evidence a "response_body" (resp.header "Content-Type") body log in
      let kept = object_or_skip put r.skip_post_persistence in
      persist-jobs a part_name has_secret _
        (Grows-trans (put_evidence-Grows a "response_body" (resp.header "Content-Type") body log) (
          Grows-trans (object_or_skip-Grows put r.skip_post_persistence)
            (header_or_skip-Grows a resp.header kept.1 kept.2)))
        (object_or_skip-skip _ kept.1 skip)

  pub serve_read_error-jobs :
      (r : TraceRecord) (resp : Response) (e : String) (log : Log)
      → jobs (serve_read_error a part_name has_secret {S = f.Client} r resp e log).1 ≡ jobs log
  unfolding serve_read_error
  serve_read_error-jobs r resp e log =
      persist-jobs a part_name has_secret _
        (Grows-trans (grows_by (reported e) refl grows_same)
          (header_or_skip-Grows a resp.header true (reported e ∷ log)))
        refl

  serve_read-jobs :
      (r : TraceRecord) (resp : Response) (got : Bytes ⊎ Error) (log : Log)
      → r.skip_post_persistence ≡ true
      → jobs (serve_read a part_name has_secret {S = f.Client} r resp got log).1 ≡ jobs log
  unfolding serve_read
  serve_read-jobs r resp (inl body) log skip =
      serve_body-jobs r resp body log (object_or_skip-skip _ r.skip_post_persistence skip)
  serve_read-jobs r resp (inr e) log skip = serve_read_error-jobs r resp (a.describe e) log

  -- What `end_stream` keeps, once the flag is set by the object or before it.
  pub end_stream-quiet :
      {T : Type 0} (r : TraceRecord) (resp : Response) (copied : Copied T Bytes)
      (document : Option Bytes) (log : Log) (r' : TraceRecord)
      → let put = put_stream a part_name has_secret resp document copied.capture log in
        let err = error_of a part_name has_secret copied.capture_err in
        let done = stream_object a part_name has_secret put err r.skip_post_persistence in
        r'.skip_post_persistence ≡ true
        → jobs (
            persist a part_name has_secret r'
              (report (error_of a part_name has_secret copied.response_err) done.2))
          ≡ jobs log
  end_stream-quiet r resp copied document log r' skip =
      let put = put_stream a part_name has_secret resp document copied.capture log in
      let err = error_of a part_name has_secret copied.capture_err in
      let done = stream_object a part_name has_secret put err r.skip_post_persistence in
      persist-jobs a part_name has_secret r'
        (Grows-trans (put_stream-Grows a part_name has_secret f resp document copied.capture log) (
          Grows-trans (stream_object-Grows a part_name has_secret f put err r.skip_post_persistence)
            (report-Grows (error_of a part_name has_secret copied.response_err) done.2)))
        skip

  end_stream-jobs :
      {S T : Type 0} (r : TraceRecord) (resp : Response) (client : S) (copied : Copied T Bytes)
      (result : MinimalUsage × String) (assembly : Assembly) (log : Log)
      → r.skip_post_persistence ≡ true
      → jobs (end_stream a part_name has_secret r resp client copied result assembly log).1
        ≡ jobs log
  unfolding end_stream
  end_stream-jobs r resp client copied result panicked log skip = refl
  end_stream-jobs r resp client copied (usage, model) (assembled document) log skip =
      end_stream-quiet r resp copied document log _ (
        stream_object-skip a part_name has_secret
          (put_stream a part_name has_secret resp document copied.capture log)
          (error_of a part_name has_secret copied.capture_err) r.skip_post_persistence skip)

  serve_stream-jobs :
      (r : TraceRecord) (resp : Response) (log : Log)
      → r.skip_post_persistence ≡ true
      → jobs (serve_stream a part_name has_secret f r resp log).1 ≡ jobs log
  unfolding serve_stream
  serve_stream-jobs r resp log skip =
      end_stream-jobs _ resp _ _ _ _ _ (object_or_skip-skip _ r.skip_post_persistence skip)
      ∙ Grows-jobs (header_or_skip-Grows a resp.header r.skip_post_persistence log)

  serve_answer-jobs :
      (r : TraceRecord) (answer : Response ⊎ String) (log : Log)
      → r.skip_post_persistence ≡ true
      → jobs (serve_answer a part_name has_secret f r answer log).1 ≡ jobs log
  unfolding serve_answer serve_upstream_error serve_whole
  serve_answer-jobs r (inr e) log skip = persist-jobs a part_name has_secret _ grows_same skip
  serve_answer-jobs r (inl resp) log skip =
      if-quiet (is_streaming_response resp) _ _ (serve_stream-jobs r resp log skip)
        (serve_read-jobs r resp (read_all resp.body) log skip)

  pub serve_proxied-jobs :
      (r : TraceRecord) (body : Bytes) (log : Log)
      → r.skip_post_persistence ≡ true
      → jobs (serve_proxied a part_name has_secret f r body log).1 ≡ jobs log
  unfolding serve_proxied
  serve_proxied-jobs r body log skip =
      if-quiet f.target_ok _ _ (serve_answer-jobs r (f.ask r.request body) log skip) refl
