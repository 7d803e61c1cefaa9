-- ===== src/Gateway/Sse/Tests.antt =====
-- Tests of the line buffer, and its theorems at concrete streams.
use mathlib.Core.List.{flatten}
use new_api_gateway.Prelude.{true, List, [], ◌∷◌, ◌++◌, none, some, ◌≡◌, refl, arith}
use new_api_gateway.Text.{Bytes, codes}
use new_api_gateway.Gateway.Stream.{write_buffer}
use new_api_gateway.Gateway.Sse.{Extractor, Sse, payload_of, process_line, drain}
use new_api_gateway.Gateway.Sse.Chunks.{write_all, parsed, write_all-flatten}
use new_api_gateway.Gateway.Sse.Events.{process_line-tight_colon, drain-event, line_end}

-- An extractor that keeps all payloads.
abbrev keep_all : Extractor
keep_all = record { State = List Bytes; process_sse = λ s payload. s ++ payload ∷ [] }

abbrev fresh : Sse keep_all Bytes
fresh = record { w = []; ext = []; buf = [] }

abbrev chunks : List Bytes
chunks = codes "dat" ∷ codes "a: {}\r" ∷ codes "\n\ndata: [DONE]\nda" ∷ []

payloads :
    (payload_of (codes "data:   x\r\r") ≡ some (codes "x"))
    × (payload_of (codes "data: [DONE]") ≡ none)
    × (payload_of (codes "event: x") ≡ none)
unfolding payload_of
payloads = (refl, refl, refl)

process_line-tight_colon_example : process_line keep_all [] (codes "data:" ++ codes "{}") ≡ []
process_line-tight_colon_example = process_line-tight_colon keep_all [] (codes "{}") (omega arith)

drain-event_example :
    drain keep_all [] (codes "data: " ++ (codes "{}" ++ line_end true)) ≡ (codes "{}" ∷ [], [])
drain-event_example = drain-event keep_all [] (codes "{}") true (omega arith) (omega arith) refl

write_all-flatten_example :
    parsed keep_all write_buffer (write_all keep_all write_buffer fresh chunks)
    ≡ drain keep_all [] (flatten chunks)
write_all-flatten_example =
    write_all-flatten keep_all write_buffer (λ w p. unfold write_buffer in refl) fresh chunks refl
