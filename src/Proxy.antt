-- ===== src/Proxy.antt =====
-- internal/gateway/proxy.go: the data of the proxy. The audit side (evidence store, trace repository,
-- spool, alerts, job queue) is a record of functions of the history so far, so that each call may answer
-- as it likes; what the proxy does to it is the history of its events.
pub mod Persist
pub mod Grows
pub mod Serve
pub mod Handler
pub mod Order
pub mod Client
pub mod Requests
mod Tests
use new_api_gateway.Prelude.{ℕ, String, Bool, true, false, List, [], ◌∷◌, Option, none, some, ◌⊎◌}
use new_api_gateway.Prelude.Int.{ℤ}
use new_api_gateway.Text.{Bytes}
use new_api_gateway.Routes.{Entry, Registry}
use new_api_gateway.AuthKeys.{Request}
use new_api_gateway.Identity.{Snapshot}
use new_api_gateway.Gateway.Stream.{Source, Writer, Error}
use new_api_gateway.Gateway.Sse.{Extractor}
use new_api_gateway.Gateway.Usage.{MinimalUsage, Family}

-- `evidence.Object`; a zero `CreatedAt` is `false`.
pub record Object : Type 0 where
  pub object_ref : String
  pub sha256 : String
  pub created : Bool

abbrev pub no_object : Object
no_object = record { object_ref = ""; sha256 = ""; created = false }

-- `MultipartPartEvidence`
pub record Part : Type 0 where
  pub content_type : String
  pub filename : String
  pub data_ : Bytes

-- How the read of a request body ends.
pub data Body : Type 0 where
  no_body : Body
  body_bytes : Bytes → Body
  body_error : Body

-- An incoming request; `multipart` is what `captureMultipartParts` makes of it, where it is one.
pub record Incoming : Type 0 where
  pub method : String
  pub path : String
  pub remote_address : String
  pub auth : Request
  pub connection : List String
  pub body : Body
  pub multipart : Option (Option (List Part))

-- `traceRecord`, without its times.
pub record TraceRecord : Type 0 where
  pub trace_id : String
  pub request : Incoming
  pub entry : Entry
  pub status_code : ℕ
  pub upstream_code : ℕ
  pub request_object : Object
  pub response_object : Object
  pub request_headers_object : Object
  pub response_headers_object : Object
  pub websocket_log_object : Object
  pub multipart_parts : List Part
  pub request_content_type : String
  pub response_content_type : String
  pub model_requested : String
  pub model_upstream : String
  pub response_header : String → String
  pub error_type : String
  pub error_message : String
  pub usage : MinimalUsage
  pub request_size : ℕ
  pub response_size : ℕ
  pub snapshot : Snapshot
  pub stream : Bool
  pub skip_post_persistence : Bool

-- `traces.Trace`, without its times and the fields of the entry and of the snapshot, which it copies.
pub record Trace : Type 0 where
  pub trace_id : String
  pub method : String
  pub path : String
  pub entry : Entry
  pub route_support_level : String
  pub status_code : ℕ
  pub upstream_status_code : ℕ
  pub stream : Bool
  pub client_ip_hash : String
  pub user_agent_hash : String
  pub request_body_size : ℕ
  pub response_body_size : ℕ
  pub request_body_sha256 : String
  pub response_body_sha256 : String
  pub request_raw_ref : String
  pub request_headers_ref : String
  pub response_raw_ref : String
  pub response_headers_ref : String
  pub snapshot : Snapshot
  pub request_id_from_client : String
  pub new_api_request_id : String
  pub model_requested : String
  pub model_upstream : String
  pub usage : MinimalUsage
  pub error_type : String
  pub error_message_redacted : String

-- What the proxy has done to the audit side.
pub data Event : Type 0 where
  -- `AuditError` was called.
  reported : String → Event
  -- A spool envelope was written, for a reason.
  spooled : String → Event
  -- The evidence store took an object of a type.
  stored : String → Event
  inserted_trace : Trace → Event
  -- A raw evidence row, with its object type and its reference.
  inserted_raw : String → String → Event
  alerted : String → Event
  -- The analysis job of a trace.
  published : String → Event
  queued : String → Event

-- The events so far, the last one first.
abbrev pub Log : Type 0
Log = List Event

-- What the evidence store returns.
pub data Put : Type 0 where
  put_failed : String → Put
  put_object : Object → Put

-- The audit side of `Handler`. A missing part is `none`; a call returns its error, if it has one.
pub record Audit : Type 0 where
  pub store : Option (Log → String → String → Bytes → Put)
  pub has_repo : Bool
  pub insert_trace : Log → Trace → Option String
  pub insert_raw : Log → String → Object → Option String
  pub mark_queued : Log → Option String
  pub emit_alert : Option (Log → Option String)
  pub publish : Option (Log → Option String)
  pub write_spool : Option (Log → Option String)
  pub header_json : (String → String) → Option Bytes
  -- `regexp.ReplaceAllString` for the two patterns of `redactAuditMessage`, HMAC-SHA256 in hexadecimal, and
  -- the host of `net.SplitHostPort`.
  pub replace_patterns : String → String
  pub hash_value : String → String
  pub split_host : String → Option String
  pub resolve_identity : Option (String → String → String → Option Snapshot)
  pub fingerprint : String → String × String
  -- The field `model` of a request in JSON, and what an extractor makes of a whole response.
  pub decode_model : Bytes → Option String
  pub extract_response : Family → Bytes → MinimalUsage × String
  -- The text of an error of a connection.
  pub describe : Error → String

-- What `assembleSSE` gives: a document or none, or a panic, which nothing recovers.
pub data Assembly : Type 0 where
  assembled : Option Bytes → Assembly
  panicked : Assembly

-- The extractor of a family for streams.
pub record StreamExtractor : Type 1 where
  pub ext : Extractor
  pub new : ext.State
  pub sse_result : ext.State → MinimalUsage × String
  pub assemble_sse : ext.State → Assembly

-- A response of the upstream; `connection` has the values of the header `Connection`.
pub record Response : Type 0 where
  pub status : ℕ
  pub header : String → String
  pub connection : List String
  pub body : Source

-- The client's side of the tunnel, and the log of the frames.
pub data Hijack : Type 0 where
  not_hijacker : Hijack
  hijack_failed : String → Hijack
  write_failed : String → Hijack
  tunneled : Bytes → Hijack

-- What a websocket upstream does: the point up to which the tunnel gets.
pub data Tunnel : Type 0 where
  dial_failed : Tunnel
  handshake_failed : Tunnel
  handshaken : Response → Hijack → Tunnel

-- The other side of `Handler`: routes, limits, the upstream, and the client that a stream is written to.
pub record Front : Type 1 where
  pub registry : Registry
  pub audit_secret_length : ℕ
  pub max_request_body_bytes : ℕ
  -- Whether the upstream's URL parses.
  pub target_ok : Bool
  pub ask : Incoming → Bytes → Response ⊎ String
  pub tunnel : Incoming → Tunnel
  pub Client : Type 0
  pub client : Client
  pub write_client : Writer Client
  pub extractor : Family → StreamExtractor

-- What the client gets: an error, a whole response, a stream as the client's writer has seen it, the same
-- with the connection cut off by a panic behind it, or a tunnel.
pub data Reply (S : Type 0) : Type 0 where
  refused : ℕ → String → Reply S
  answered : ℕ → (String → String) → String → Bytes → Reply S
  streamed : ℕ → (String → String) → String → S → Reply S
  aborted : ℕ → (String → String) → String → S → Reply S
  upgraded : ℕ → Reply S
  dropped : Reply S
