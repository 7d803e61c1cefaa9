-- ===== src/Proxy/Tests.antt =====
-- Tests of the proxy, and its theorems at concrete requests.
use new_api_gateway.Prelude.{ℕ, String, true, [], ◌∷◌, none, some, ◌≡◌, refl, string_eq, inl}
use new_api_gateway.Text.{Bytes}
use new_api_gateway.Routes.{Entry, raw_and_minimal}
use new_api_gateway.Gateway.Stream.{last, eof, write_buffer}
use new_api_gateway.Gateway.Usage.{no_usage}
use new_api_gateway.Proxy.{
  body_bytes, Incoming, TraceRecord, assembled, put_failed, put_object, Audit, Front, Response,
  dial_failed,
}
use new_api_gateway.Proxy.Persist.{insert_trace, put_evidence, put_with, put_answer}
use new_api_gateway.Proxy.Serve.{Captured, request_evidence, request_record, resolve_identity}
use new_api_gateway.Proxy.Order.{Published, insert_trace-Published}
use new_api_gateway.Proxy.Grows.{jobs}
use new_api_gateway.Proxy.Handler.{serve_http, serve_answer}
use new_api_gateway.Proxy.Requests.Whole.{serve_http-Published}
use new_api_gateway.Proxy.Requests.Degraded.Unstored.{serve_answer-unkept}
use new_api_gateway.Proxy.Requests.Degraded.Unkept.{serve_http-jobs}
use new_api_gateway.Proxy.Client.{respond, serve_http-respond}

-- Every part of the audit side works, and an object is kept under its type.
abbrev working : Audit
working = record {
  store = some (λ log object_type content_type body.
      put_object (record { object_ref = object_type; sha256 = ""; created = true }));
  has_repo = true;
  insert_trace = λ log trace. none;
  insert_raw = λ log object_type o. none;
  mark_queued = λ log. none;
  emit_alert = some (λ log. none);
  publish = some (λ log. none);
  write_spool = none;
  header_json = λ header. some [];
  replace_patterns = λ value. value;
  hash_value = λ value. value;
  split_host = λ address. none;
  resolve_identity = none;
  fingerprint = λ key. (key, key);
  decode_model = λ body. none;
  extract_response = λ family body. (no_usage, "");
  describe = λ e. "broken";
}

-- The evidence store refuses everything.
abbrev full_disk : Audit
full_disk = record working {
  store = some (λ log object_type content_type body. put_failed "no space");
}

abbrev entry : Entry
entry = record {
  method = "POST";
  path_pattern = "/v1/audio/speech";
  protocol_family = "openai_audio";
  body_kind = "json";
  capture_mode = raw_and_minimal;
  normalizer = "";
  minimal_extractor = "audio";
  unsupported_alert_code = "known_route_raw_first";
}

abbrev request : Incoming
request = record {
  method = "POST";
  path = "/v1/audio/speech";
  remote_address = "10.0.0.1:9";
  auth = record { header = λ name. ""; query = λ name. "" };
  connection = [];
  body = body_bytes (1 ∷ 2 ∷ []);
  multipart = none;
}

abbrev response : Response
response = record { status = 200; header = λ name. ""; connection = []; body = last (7 ∷ []) eof }

abbrev front : Front
front = record {
  registry = record { entries = entry ∷ [] };
  audit_secret_length = 32;
  max_request_body_bytes = 0;
  target_ok = true;
  ask = λ req body. inl response;
  tunnel = λ req. dial_failed;
  Client = Bytes;
  client = [];
  write_client = write_buffer;
  extractor = λ family. record {
    ext = record { State = Unit; process_sse = λ s payload. s };
    new = tt;
    sse_result = λ s. (no_usage, "");
    assemble_sse = λ s. assembled none;
  };
}

abbrev part_name : ℕ → String
part_name n = "multipart_part"

abbrev captured_request : Captured
captured_request = record { body_bytes = 1 ∷ 2 ∷ []; content_type = ""; size_bytes = 2 }

abbrev trace_record : Audit → TraceRecord
trace_record a =
    request_record a "t1" request entry captured_request
      (request_evidence a request captured_request []) (resolve_identity a none)

insert_trace-Published_example :
    Published [] (insert_trace working part_name true (trace_record working) []).1
insert_trace-Published_example =
    insert_trace-Published working part_name true (trace_record working) []

serve_http-respond_example :
    (serve_http full_disk part_name true front "t1" request []).0 ≡ respond front true "t1" request
serve_http-respond_example = serve_http-respond full_disk part_name true front "t1" request []

serve_http-jobs_example :
    jobs (serve_http full_disk part_name true front "t1" request []).1 ≡ jobs []
unfolding put_evidence put_with put_answer
serve_http-jobs_example =
    serve_http-jobs full_disk part_name true front "t1" request []
      (λ content_type body. ("no space", refl))

serve_answer-unkept_example :
    jobs (serve_answer full_disk part_name true front (trace_record working) (inl response) []).1
    ≡ jobs []
unfolding put_evidence put_with put_answer
serve_answer-unkept_example =
    serve_answer-unkept full_disk part_name true front (trace_record working) response []
      (λ content_type body log. ("no space", refl))

serve_http-Published_example :
    Published [] (serve_http working part_name true front "t1" request []).1
serve_http-Published_example = serve_http-Published working part_name true front "t1" request []
