-- ===== src/Gateway/Stream/Tests.antt =====
-- Tests of the stream copy, and its theorems at concrete streams.
use new_api_gateway.Prelude.{true, [], ◌∷◌, none, some, ◌≡◌, refl, length}
use new_api_gateway.Gateway.Stream.{
  Source, last, more, eof, short_write, Writer, copy_stream_to_client_and_capture, write_buffer,
}
use new_api_gateway.Gateway.Stream.Laws.{
  client_view, content, deliver, copy_stream-deliver, copy_stream-capture_complete,
}

abbrev two_reads : Source
two_reads = more (1 ∷ 2 ∷ []) (more [] (last (3 ∷ []) eof))

-- A writer that takes nothing.
abbrev write_nothing : Writer (Unit {0})
write_nothing s chunk = record { count = 0; err = none; state = s }

copies :
    let r = copy_stream_to_client_and_capture write_buffer write_buffer [] [] true two_reads in
    (r.client ≡ 1 ∷ 2 ∷ 3 ∷ []) × (r.capture ≡ 1 ∷ 2 ∷ 3 ∷ []) × (r.written ≡ 3)
unfolding copy_stream_to_client_and_capture write_buffer
copies = (refl, refl, refl)

short_capture :
    let r = copy_stream_to_client_and_capture write_buffer write_nothing [] tt true two_reads in
    (r.client ≡ 1 ∷ 2 ∷ 3 ∷ []) × (r.capture_err ≡ some short_write) × (r.response_err ≡ none)
unfolding copy_stream_to_client_and_capture write_buffer
short_capture = (refl, refl, refl)

short_client :
    let r = copy_stream_to_client_and_capture write_nothing write_buffer tt [] true two_reads in
    (r.capture ≡ []) × (r.response_err ≡ some short_write)
unfolding copy_stream_to_client_and_capture write_buffer
short_client = (refl, refl)

copy_stream-deliver_example :
    client_view (copy_stream_to_client_and_capture write_buffer write_nothing [] tt true two_reads)
    ≡ deliver write_buffer [] 0 two_reads
copy_stream-deliver_example = copy_stream-deliver write_buffer write_nothing [] tt true two_reads

copy_stream-capture_complete_example :
    let r = copy_stream_to_client_and_capture write_buffer write_buffer [] [] true two_reads in
    (r.capture_err ≡ none)
    × (r.response_err ≡ none
        → (r.capture ≡ content two_reads) × (r.written ≡ length (content two_reads)))
copy_stream-capture_complete_example = copy_stream-capture_complete write_buffer [] two_reads
