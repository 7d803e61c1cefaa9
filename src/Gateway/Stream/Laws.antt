-- ===== src/Gateway/Stream/Laws.antt =====
-- What the copy delivers, and that the capture cannot disturb it.
use new_api_gateway.Prelude.{
  ℕ, ◌+◌, Bool, true, [], ◌∷◌, ◌++◌, Option, none, some, ◌≡◌, refl, sym, ◌∙◌, ap, arith, length,
  length-append, ◌==◌, nat_eq, if◌then◌else◌, append_assoc, append-nil, Option-cases, inl, inr,
}
use new_api_gateway.Text.{Bytes}
use new_api_gateway.Gateway.Stream.{
  Error, eof, broken, Source, last, more, Writer, Copy, Copied, to_capture, round, short_write,
  copy_stream, copy_stream_to_client_and_capture, write_buffer,
}

-- All that the source delivers.
abbrev pub content : Source → Bytes
content (last chunk end) = chunk
content (more chunk src) = chunk ++ content src

-- What the client sees of a copy.
pub record Delivered (S : Type 0) : Type 0 where
  pub client : S
  pub written : ℕ
  pub response_err : Option Error

abbrev pub client_view : {S C : Type 0} → Copied S C → Delivered S
client_view r = record { client = r.client; written = r.written; response_err = r.response_err }

-- The same copy with no capture at all, as a description of what the client must get.
module _ {S : Type 0} (write_client : Writer S) where
  unfoldable pub send : S → ℕ → Bytes → Delivered S
  send client written [] = record { client = client; written = written; response_err = none }
  send client written (b ∷ bs) =
      let w = write_client client (b ∷ bs) in
      record {
        client = w.state;
        written = written + w.count;
        response_err = elim w.err [
          | some e ↦ some e
          | none ↦ if w.count == length (b ∷ bs) then none else some short_write
        ];
      }

  unfoldable pub deliver : S → ℕ → Source → Delivered S
  deliver client written (last chunk end) =
      let d = send client written chunk in
      elim d.response_err [
        | some e ↦ d
        | none ↦ elim end [ eof ↦ d | broken e ↦ record d { response_err = some e } ]
      ]
  deliver client written (more chunk src) =
      let d = send client written chunk in
      elim d.response_err [ some e ↦ d | none ↦ deliver d.client d.written src ]

module _ {S C : Type 0} (write_client : Writer S) (write_capture : Writer C) where
  to_capture-client :
      (v : Copy S C) (chunk : Bytes)
      → ((to_capture write_capture v chunk).client ≡ v.client)
        × ((to_capture write_capture v chunk).written ≡ v.written)
  unfolding to_capture
  to_capture-client v chunk = ground arith

  round-send :
      (v : Copy S C) (chunk : Bytes)
      → client_view (round write_client write_capture v chunk)
        ≡ send write_client v.client v.written chunk
  unfolding round send
  round-send v [] = refl
  round-send v (b ∷ bs) =
      let w = write_client v.client (b ∷ bs) in
      let v' : Copy S C = record v { client = w.state; written = v.written + w.count } in
      ground (arith, to_capture-client v' (b ∷ bs))

  stream-deliver :
      (v : Copy S C) (src : Source)
      → client_view (copy_stream write_client write_capture v src)
        ≡ deliver write_client v.client v.written src
  unfolding copy_stream deliver
  stream-deliver v (last chunk end) = ground (arith, round-send v chunk)
  stream-deliver v (more chunk src) =
      let r = round write_client write_capture v chunk in
      ground (arith, round-send v chunk, stream-deliver r.copy src)

  -- The client's state, the count of bytes written and the error of the response are those of the
  -- copy with no capture, whatever the capture does: it may be absent, fail or be short.
  pub copy_stream-deliver :
      (client : S) (capture : C) (capturing : Bool) (src : Source)
      → client_view (
          copy_stream_to_client_and_capture write_client write_capture client capture capturing src)
        ≡ deliver write_client client 0 src
  copy_stream-deliver client capture capturing src =
      unfold copy_stream_to_client_and_capture in
      stream-deliver
        (record {
          client = client;
          capture = capture;
          capturing = capturing;
          written = 0;
          capture_err = none;
        })
        src

-- What a copy that ran through has done: all that came is written and stands in the buffer.
record Full {S : Type 0} (v : Copy S Bytes) (r : Copied S Bytes) (sent : Bytes) : Type 0 where
  capturing : r.capturing ≡ true
  capture_err : r.capture_err ≡ none
  complete :
      r.response_err ≡ none
      → (r.capture ≡ v.capture ++ sent) × (r.written ≡ v.written + length sent)

module _ {S : Type 0} (v : Copy S Bytes) (r s : Copied S Bytes) (a b : Bytes) where
  Full-append : Full v r a → r.response_err ≡ none → Full r.copy s b → Full v s (a ++ b)
  Full-append f going g = record {
    capturing = g.capturing;
    capture_err = g.capture_err;
    complete = λ h.
        let (kept, counted) = f.complete going in
        let (kept', counted') = g.complete h in
        (
          kept' ∙ ap (λ x. x ++ b) kept ∙ append_assoc v.capture a b,
          omega (arith, counted, counted', length-append a b),
        );
  }

module _ {S : Type 0} (v : Copy S Bytes) (r : Copied S Bytes) (a b : Bytes) where
  Full-failed : Full v r a → {err : Error} → r.response_err ≡ some err → Full v r b
  Full-failed f bad = record {
    capturing = f.capturing;
    capture_err = f.capture_err;
    complete = λ h. absurd (ground arith);
  }

module _ {S : Type 0} (write_client : Writer S) where
  round-Full :
      (v : Copy S Bytes) (chunk : Bytes)
      → v.capturing ≡ true
      → v.capture_err ≡ none
      → Full v (round write_client write_buffer v chunk) chunk
  round-Full v [] c e =
      unfold round in
      record {
        capturing = c;
        capture_err = e;
        complete = λ h. (sym (append-nil v.capture), omega arith);
      }
  round-Full v (b ∷ bs) c e =
      unfold round to_capture write_buffer in
      record {
        capturing = ground arith;
        capture_err = ground arith;
        complete = λ h. (ground arith, ground arith);
      }

  stream-Full :
      (v : Copy S Bytes) (src : Source)
      → v.capturing ≡ true
      → v.capture_err ≡ none
      → Full v (copy_stream write_client write_buffer v src) (content src)
  unfolding copy_stream
  stream-Full v (last chunk eof) c e =
      let f = round-Full v chunk c e in
      record {
        capturing = ground (arith, f.capturing);
        capture_err = ground (arith, f.capture_err);
        complete = λ h. ground (arith, f.complete);
      }
  stream-Full v (last chunk (broken err)) c e =
      let f = round-Full v chunk c e in
      record {
        capturing = ground (arith, f.capturing);
        capture_err = ground (arith, f.capture_err);
        complete = λ h. absurd (ground arith);
      }
  stream-Full v (more chunk src) c e =
      let r = round write_client write_buffer v chunk in
      let f = round-Full v chunk c e in
      elim (Option-cases r.response_err) [
        | inl going ↦
            rw (going, copy_stream)
              (Full-append v r _ chunk (content src) f going
                (stream-Full r.copy src f.capturing f.capture_err))
        | inr (err, bad) ↦ rw (bad, copy_stream) (Full-failed v r chunk _ f bad)
      ]

-- With a `bytes.Buffer` as the capture, no capture error is ever reported, and a copy that returns
-- without an error has captured exactly the bytes of the response, and counted them.
pub copy_stream-capture_complete :
    {S : Type 0} (write_client : Writer S) (client : S) (src : Source)
    → let r = copy_stream_to_client_and_capture write_client write_buffer client [] true src in
      (r.capture_err ≡ none)
      × (r.response_err ≡ none → (r.capture ≡ content src) × (r.written ≡ length (content src)))
copy_stream-capture_complete write_client client src =
    let start : Copy _ Bytes = record {
      client = client;
      capture = [];
      capturing = true;
      written = 0;
      capture_err = none;
    } in
    let f = stream-Full write_client start src refl refl in
    unfold copy_stream_to_client_and_capture in
    (f.capture_err, λ h. ((f.complete h).0, omega (arith, (f.complete h).1)))
