-- ===== src/Gateway/WebsocketLog.antt =====
-- internal/gateway/websocket_log.go: the bounded log of a tunnel's frames, before its redaction.
pub mod Prefix
mod Tests
use new_api_gateway.Prelude.{
  ℕ, ◌-◌, String, Bool, List, [], ◌∷◌, ◌++◌, leb, ltb, ◌==◌, nat_eq, if◌then◌else◌, length, take,
}
use new_api_gateway.Text.{Bytes, codes}

-- `boundedWebSocketLog`; the lock lets one write run at a time.
pub record BoundedLog : Type 0 where
  pub limit : ℕ
  pub buf : Bytes

-- `newBoundedWebSocketLog`, at most 1 MiB where no limit is set.
unfoldable pub new_bounded_websocket_log : ℕ → BoundedLog
new_bounded_websocket_log limit = record { limit = if limit == 0 then 1048576 else limit; buf = [] }

-- The line of a frame: its direction, a space, its data and a newline.
abbrev pub line_of : String × Bytes → Bytes
line_of (direction, data_) = codes direction ++ (32 ∷ data_ ++ (10 ∷ []))

-- The buffer of `boundedWebSocketLog.write` behind a line.
unfoldable pub append_line : ℕ → Bytes → Bytes → Bytes
append_line limit buf line =
    let remaining = limit - length buf in
    if leb limit (length buf)
    then buf
    else buf ++ (if ltb remaining (length line) then take remaining line else line)

-- `boundedWebSocketLog.write`
unfoldable pub write : BoundedLog → String × Bytes → BoundedLog
write l frame = record l { buf = append_line l.limit l.buf (line_of frame) }

-- The writes of both directions, in the order in which they come to the log.
unfoldable pub write_all : BoundedLog → List (String × Bytes) → BoundedLog
write_all l [] = l
write_all l (frame ∷ frames) = write_all (write l frame) frames
