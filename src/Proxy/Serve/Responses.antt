-- ===== src/Proxy/Serve/Responses.antt =====
-- internal/gateway/proxy.go: `ServeHTTP` behind the question to the upstream: whole responses, streams,
-- websocket tunnels and the upstream's errors.
use new_api_gateway.Prelude.{
  ℕ, String, Bool, true, false, ◌++◌, [], ◌∷◌, Option, none, some, nat_eq, string_eq, if◌then◌else◌,
  length, inl, inr, ◌⊎◌,
}
use new_api_gateway.Text.{Bytes, is_empty, contains_lower}
use new_api_gateway.Gateway.Stream.{
  Source, last, more, eof, broken, Error, Copied, copy_stream_to_client_and_capture, write_buffer,
}
use new_api_gateway.Gateway.Sse.{Sse, write}
use new_api_gateway.Gateway.Usage.{MinimalUsage, extractor_for}
use new_api_gateway.Proxy.{
  Object, no_object, TraceRecord, reported, Log, Put, put_failed, put_object, Audit, Front, Reply,
  refused, answered, streamed, aborted, Response, Assembly, assembled, panicked,
}
use new_api_gateway.Proxy.Persist.{put_evidence, insert_trace}
use new_api_gateway.Proxy.Serve.{
  copy_headers, merge_trace_error_type, merge_trace_error_message, put_header_evidence,
}

-- `io.ReadAll`: the bytes, or the error of the connection.
unfoldable pub read_all : Source → Bytes ⊎ Error
read_all (last chunk eof) = inl chunk
read_all (last chunk (broken e)) = inr e
read_all (more chunk src) = elim (read_all src) [ inl rest ↦ inl (chunk ++ rest) | inr e ↦ inr e ]

-- `isStreamingResponse`
unfoldable pub is_streaming_response : Response → Bool
is_streaming_response resp = contains_lower "text/event-stream" (resp.header "Content-Type")

-- An error that is reported, if there is one, and what it makes of the flag that skips the job.
unfoldable pub report : Option String → Log → Log
report none log = log
report (some e) log = reported e ∷ log

abbrev pub degraded : Option String → Bool → Bool
degraded none skip = skip
degraded (some e) skip = true

-- An object, or the error that is reported and that skips the job.
unfoldable pub object_or_skip : Put × Log → Bool → Object × Bool × Log
object_or_skip (put_object o, log) skip = (o, skip, log)
object_or_skip (put_failed e, log) skip = (no_object, true, reported e ∷ log)

-- How names of parts and hashes are made, and whether a secret is set.
module _ (a : Audit) (part_name : ℕ → String) (has_secret : Bool) where
  -- `insertTrace`, whose errors no caller reads.
  abbrev pub persist : TraceRecord → Log → Log
  persist r log = (insert_trace a part_name has_secret r log).1

  -- The upstream could not be asked.
  unfoldable pub serve_upstream_error : {S : Type 0} → TraceRecord → String → Log → Reply S × Log
  serve_upstream_error r e log = (
    refused 502 "upstream request failed",
    persist
        (record r {
          status_code = 502;
          upstream_code = 0;
          error_type = merge_trace_error_type r.error_type "upstream_request_error";
          error_message = merge_trace_error_message r.error_message e;
        })
        log,
  )

  -- The body of the response broke off.
  unfoldable pub serve_read_error :
      {S : Type 0} → TraceRecord → Response → String → Log → Reply S × Log
  serve_read_error r resp e log =
      let (h, skip, log1) =
        object_or_skip (put_header_evidence a "response_headers" resp.header (reported e ∷ log))
          true in
      (
        refused 502 "failed to read upstream response",
        persist
            (record r {
              status_code = 502;
              upstream_code = resp.status;
              response_headers_object = h;
              response_content_type = resp.header "Content-Type";
              response_header = resp.header;
              skip_post_persistence = true;
              error_type = merge_trace_error_type r.error_type "upstream_response_read_error";
              error_message = merge_trace_error_message r.error_message e;
            })
            log1,
      )

  -- A whole response.
  unfoldable pub serve_body : {S : Type 0} → TraceRecord → Response → Bytes → Log → Reply S × Log
  serve_body r resp body log =
      let content_type = resp.header "Content-Type" in
      let (o, skip, log1) =
        object_or_skip (put_evidence a "response_body" content_type body log)
          r.skip_post_persistence in
      let (h, skip', log2) =
        object_or_skip (put_header_evidence a "response_headers" resp.header log1) skip in
      let (usage, model) = a.extract_response (extractor_for r.entry.protocol_family) body in
      (
        answered resp.status (copy_headers resp) r.trace_id body,
        persist
            (record r {
              status_code = resp.status;
              upstream_code = resp.status;
              response_object = o;
              response_headers_object = h;
              response_content_type = content_type;
              response_header = resp.header;
              model_upstream = model;
              usage = usage;
              response_size = length body;
              skip_post_persistence = skip';
            })
            log2,
      )

  -- A response that is read to its end first.
  unfoldable pub serve_read :
      {S : Type 0} → TraceRecord → Response → Bytes ⊎ Error → Log → Reply S × Log
  serve_read r resp (inl body) log = serve_body r resp body log
  serve_read r resp (inr e) log = serve_read_error r resp (a.describe e) log

  unfoldable pub serve_whole : {S : Type 0} → TraceRecord → Response → Log → Reply S × Log
  serve_whole r resp log = serve_read r resp (read_all resp.body) log

  abbrev pub error_of : Option Error → Option String
  error_of none = none
  error_of (some e) = some (a.describe e)

  -- The object of a stream: the assembled document if there is one, else the bytes as they came.
  unfoldable pub put_stream : Response → Option Bytes → Bytes → Log → Put × Log
  put_stream resp none capture log =
      put_evidence a "response_body" (resp.header "Content-Type") capture log
  put_stream resp (some document) capture log =
      put_evidence a "response_body" "application/json" document log

  -- The errors of the store and of the capture: the first of them is reported and skips the job.
  unfoldable pub stream_object : Put × Log → Option String → Bool → Object × Bool × Log
  stream_object (put_failed e, log) capture_err skip = (no_object, true, reported e ∷ log)
  stream_object (put_object o, log) capture_err skip =
      (o, degraded capture_err skip, report capture_err log)

  -- What follows the copy of a stream: the object, and the trace. A panic leaves neither.
  unfoldable pub end_stream :
      {S T : Type 0}
      → TraceRecord
      → Response
      → S
      → Copied T Bytes
      → MinimalUsage × String
      → Assembly
      → Log
      → Reply S × Log
  end_stream r resp client copied result panicked log =
      (aborted resp.status (copy_headers resp) r.trace_id client, log)
  end_stream r resp client copied (usage, model) (assembled document) log =
      let put = put_stream resp document copied.capture log in
      let (o, skip, log1) =
        stream_object put (error_of copied.capture_err) r.skip_post_persistence in
      (
        streamed resp.status (copy_headers resp) r.trace_id client,
        persist
            (record r {
              status_code = resp.status;
              upstream_code = resp.status;
              response_object = o;
              response_header = resp.header;
              model_upstream = if is_empty r.model_upstream then model else r.model_upstream;
              usage = usage;
              response_size = copied.written;
              stream = true;
              skip_post_persistence = skip;
            })
            (report (error_of copied.response_err) log1),
      )

  -- `h.EvidenceStore != nil`
  abbrev pub has_store : Bool
  has_store = elim a.store [ none ↦ false | some store ↦ true ]

  -- `serveStreamingResponse`
  unfoldable pub serve_stream : (f : Front) → TraceRecord → Response → Log → Reply f.Client × Log
  serve_stream f r resp log =
      let (h, skip, log1) =
        object_or_skip (put_header_evidence a "response_headers" resp.header log)
          r.skip_post_persistence in
      let x = f.extractor (extractor_for r.entry.protocol_family) in
      let start : Sse x.ext f.Client = record { w = f.client; ext = x.new; buf = [] } in
      let copied =
        copy_stream_to_client_and_capture (write x.ext f.write_client) write_buffer start []
          has_store resp.body in
      end_stream
        (record r {
          response_headers_object = h;
          response_content_type = resp.header "Content-Type";
          skip_post_persistence = skip;
        })
        resp copied.client.w copied (x.sse_result copied.client.ext)
        (if has_store then x.assemble_sse copied.client.ext else assembled none) log1
