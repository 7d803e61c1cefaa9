-- ===== src/Gateway/Stream.antt =====
-- internal/gateway/stream.go: copying a streamed response to the client and to the capture.
pub mod Laws
mod Tests
use new_api_gateway.Prelude.{
  ℕ, ◌+◌, Bool, true, false, List, [], ◌∷◌, ◌++◌, Option, none, some, ltb, ◌==◌, nat_eq,
  if◌then◌else◌, length,
}
use new_api_gateway.Text.{Bytes}

-- The errors of readers and writers; `failed` carries an error of the connection.
pub data Error : Type 0 where
  short_write : Error
  failed : ℕ → Error

-- How a reader ends: with `io.EOF` or another error.
pub data End : Type 0 where
  eof : End
  broken : Error → End

-- What the reads of a response body return, one after the other. The last one comes with its end.
pub data Source : Type 0 where
  last : Bytes → End → Source
  more : Bytes → Source → Source

-- An `io.Writer` with its state: the count that it returns, its error and its next state.
pub record Write (S : Type 0) : Type 0 where
  pub count : ℕ
  pub err : Option Error
  pub state : S

abbrev pub Writer : Type 0 → Type 0
Writer S = S → Bytes → Write S

-- The variables of `copyStreamToClientAndCapture`. `capturing` is `capture != nil`.
pub record Copy (S C : Type 0) : Type 0 where
  pub client : S
  pub capture : C
  pub capturing : Bool
  pub written : ℕ
  pub capture_err : Option Error

pub record Copied (S C : Type 0) : Type 0 where
  pub copy : Copy S C
  pub open copy use *
  pub response_err : Option Error

module _ {S C : Type 0} (write_capture : Writer C) where
  -- The part of a round under `if capture != nil`.
  unfoldable pub to_capture : Copy S C → Bytes → Copy S C
  to_capture v chunk =
      if v.capturing
      then (let w = write_capture v.capture chunk in
          elim w.err [
            | some e ↦ record v { capture = w.state; capturing = false; capture_err = some e }
            | none ↦ if w.count == length chunk then record v { capture = w.state } else record v {
              capture = w.state;
              capturing = false;
              capture_err = some short_write;
            }
          ])
      else v

module _ {S C : Type 0} (write_client : Writer S) (write_capture : Writer C) where
  -- The part of a round under `if nr > 0`: `err` holds what the loop returns at once.
  unfoldable pub round : Copy S C → Bytes → Copied S C
  round v [] = record { copy = v; response_err = none }
  round v (b ∷ bs) =
      let w = write_client v.client (b ∷ bs) in
      let v' : Copy S C = record v { client = w.state; written = v.written + w.count } in
      elim w.err [
        | some e ↦ record { copy = v'; response_err = some e }
        | none ↦
            if w.count == length (b ∷ bs)
            then record { copy = to_capture write_capture v' (b ∷ bs); response_err = none }
            else record { copy = v'; response_err = some short_write }
      ]

  unfoldable pub copy_stream : Copy S C → Source → Copied S C
  unfolding round
  copy_stream v (last chunk end) =
      let r = round v chunk in
      elim r.response_err [
        | some e ↦ r
        | none ↦ elim end [ eof ↦ r | broken e ↦ record r { response_err = some e } ]
      ]
  copy_stream v (more chunk src) =
      let r = round v chunk in elim r.response_err [ some e ↦ r | none ↦ copy_stream r.copy src ]

-- `copyStreamToClientAndCapture` from its start; `capturing` says whether there is a capture.
unfoldable pub copy_stream_to_client_and_capture :
    {S C : Type 0} → Writer S → Writer C → S → C → Bool → Source → Copied S C
unfolding copy_stream round to_capture
copy_stream_to_client_and_capture write_client write_capture client capture capturing src =
    copy_stream write_client write_capture
      (record {
        client = client;
        capture = capture;
        capturing = capturing;
        written = 0;
        capture_err = none;
      })
      src

-- `bytes.Buffer`, which takes all that it is given.
unfoldable pub write_buffer : Writer Bytes
write_buffer buf chunk = record { count = length chunk; err = none; state = buf ++ chunk }
