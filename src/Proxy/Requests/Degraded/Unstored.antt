-- ===== src/Proxy/Requests/Degraded/Unstored.antt =====
-- What a response leads to whose body is not stored.
use new_api_gateway.Prelude.{
  ℕ, String, Bool, true, Option, none, some, nat_eq, string_eq, refl, inl, inr, ◌⊎◌, ◌≡◌, ◌∙◌,
}
use new_api_gateway.Text.{Bytes}
use new_api_gateway.Gateway.Stream.{Error, Copied}
use new_api_gateway.Gateway.Usage.{MinimalUsage}
use new_api_gateway.Proxy.{
  TraceRecord, Log, Put, put_failed, put_object, Audit, Front, Response, Assembly, assembled,
  panicked,
}
use new_api_gateway.Proxy.Persist.{put_evidence}
use new_api_gateway.Proxy.Grows.{Grows-jobs, jobs}
use new_api_gateway.Proxy.Serve.Responses.{
  read_all, is_streaming_response, put_stream, stream_object, error_of, serve_read, serve_whole,
  serve_stream, end_stream,
}
use new_api_gateway.Proxy.Handler.{serve_answer}
use new_api_gateway.Proxy.Requests.{header_or_skip-Grows}
use new_api_gateway.Proxy.Requests.Degraded.{
  object_or_skip-failed, if-quiet, serve_body-jobs, serve_read_error-jobs, end_stream-quiet,
}

module _ (a : Audit) (part_name : ℕ → String) (has_secret : Bool) (f : Front) where
  -- The response of the upstream, when its body breaks off or is not stored.
  serve_read-unkept :
      (r : TraceRecord) (resp : Response) (got : Bytes ⊎ Error) (log : Log)
      → ((content_type : String) (body : Bytes) (log' : Log)
          → (e : String) × ((put_evidence a "response_body" content_type body log').0
              ≡ put_failed e))
      → jobs (serve_read a part_name has_secret {S = f.Client} r resp got log).1 ≡ jobs log
  unfolding serve_read
  serve_read-unkept r resp (inr e) log refuses =
      serve_read_error-jobs a part_name has_secret f r resp (a.describe e) log
  serve_read-unkept r resp (inl body) log refuses =
      let (e, h) = refuses (resp.header "Content-Type") body log in
      serve_body-jobs a part_name has_secret f r resp body log (
        object_or_skip-failed (put_evidence a "response_body" (resp.header "Content-Type") body log)
          r.skip_post_persistence e h)

  stream_object-failed :
      (p : Put × Log) (err : Option String) (skip : Bool) (e : String)
      → p.0 ≡ put_failed e
      → (stream_object a part_name has_secret p err skip).1 ≡ true
  unfolding stream_object
  stream_object-failed (put_failed d, log) err skip e h = refl
  stream_object-failed (put_object o, log) err skip e h = absurd (cc)

  put_stream-failed :
      (resp : Response) (document : Option Bytes) (capture : Bytes) (log : Log)
      → ((content_type : String) (body : Bytes) (log' : Log)
          → (e : String) × ((put_evidence a "response_body" content_type body log').0
              ≡ put_failed e))
      → (e : String) × ((put_stream a part_name has_secret resp document capture log).0
          ≡ put_failed e)
  unfolding put_stream
  put_stream-failed resp none capture log refuses = refuses (resp.header "Content-Type") capture log
  put_stream-failed resp (some document) capture log refuses =
      refuses "application/json" document log

  end_stream-unkept :
      {S T : Type 0} (r : TraceRecord) (resp : Response) (client : S) (copied : Copied T Bytes)
      (result : MinimalUsage × String) (assembly : Assembly) (log : Log)
      → ((content_type : String) (body : Bytes) (log' : Log)
          → (e : String) × ((put_evidence a "response_body" content_type body log').0
              ≡ put_failed e))
      → jobs (end_stream a part_name has_secret r resp client copied result assembly log).1
        ≡ jobs log
  unfolding end_stream
  end_stream-unkept r resp client copied result panicked log refuses = refl
  end_stream-unkept r resp client copied (usage, model) (assembled document) log refuses =
      let (e, h) = put_stream-failed resp document copied.capture log refuses in
      end_stream-quiet a part_name has_secret f r resp copied document log _ (
        stream_object-failed (put_stream a part_name has_secret resp document copied.capture log)
          (error_of a part_name has_secret copied.capture_err) r.skip_post_persistence e h)

  serve_stream-unkept :
      (r : TraceRecord) (resp : Response) (log : Log)
      → ((content_type : String) (body : Bytes) (log' : Log)
          → (e : String) × ((put_evidence a "response_body" content_type body log').0
              ≡ put_failed e))
      → jobs (serve_stream a part_name has_secret f r resp log).1 ≡ jobs log
  unfolding serve_stream
  serve_stream-unkept r resp log refuses =
      end_stream-unkept _ resp _ _ _ _ _ refuses
      ∙ Grows-jobs (header_or_skip-Grows a resp.header r.skip_post_persistence log)

  -- An answer of the upstream, streamed or whole, leads to no analysis job if the evidence store refuses
  -- every body of a response, whatever the rest of the audit side answers and whatever the record says.
  pub serve_answer-unkept :
      (r : TraceRecord) (resp : Response) (log : Log)
      → ((content_type : String) (body : Bytes) (log' : Log)
          → (e : String) × ((put_evidence a "response_body" content_type body log').0
              ≡ put_failed e))
      → jobs (serve_answer a part_name has_secret f r (inl resp) log).1 ≡ jobs log
  unfolding serve_answer serve_whole
  serve_answer-unkept r resp log refuses =
      if-quiet (is_streaming_response resp) _ _ (serve_stream-unkept r resp log refuses)
        (serve_read-unkept r resp (read_all resp.body) log refuses)
