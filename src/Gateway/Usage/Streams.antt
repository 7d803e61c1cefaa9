-- ===== src/Gateway/Usage/Streams.antt =====
-- What whole streams come to: text, usage and totals.
use text.Mathlib.TextLemmas.{append_assoc as text_assoc, append-nil as text_nil}
use new_api_gateway.Prelude.{
  String, true, false, List, [], ◌∷◌, ◌++◌, Option, some, ◌≡◌, refl, sym, ◌∙◌, ap, arith,
  if◌then◌else◌, All,
}
use new_api_gateway.Prelude.Int.{pos, positive, add64}
use new_api_gateway.Text.{Bytes, ◌<>◌, is_empty}
use new_api_gateway.Gateway.Usage.{MinimalUsage}
use new_api_gateway.Gateway.Usage.Chat.{
  Chat, Chunk, Choice, add_choice, add_choices, add_header, add_chunk, concat_parts,
}
use new_api_gateway.Gateway.Usage.Claude
use new_api_gateway.Gateway.Usage.Claude.{
  Claude, Event, Tokens, new_claude, add_event, add_message_usage, add_delta_usage,
}

-- The extractor after the chunks of a stream.
unfoldable pub run_chat : Chat → List Chunk → Chat
run_chat e [] = e
run_chat e (v ∷ vs) = run_chat (add_chunk e v) vs

abbrev pub content_of : Chat → String
content_of e = concat_parts "" e.sse_parts

unfoldable pub choices_content : List Choice → String
choices_content [] = ""
choices_content (ch ∷ chs) = ch.content <> choices_content chs

unfoldable pub chunks_content : List Chunk → String
chunks_content [] = ""
chunks_content (v ∷ vs) = choices_content v.choices <> chunks_content vs

concat_parts-append :
    (content : String) (ps : List String) (p : String)
    → concat_parts content (ps ++ p ∷ []) ≡ concat_parts content ps <> p
unfolding concat_parts
concat_parts-append content [] p = refl
concat_parts-append content (q ∷ ps) p = concat_parts-append (content <> q) ps p

add_choice-content :
    (e : Chat) (ch : Choice) → content_of (add_choice e ch) ≡ content_of e <> ch.content
unfolding add_choice
add_choice-content e ch = go ch.content
  where
    go :
        (c : String)
        → concat_parts "" (if is_empty c then e.sse_parts else e.sse_parts ++ c ∷ [])
          ≡ content_of e <> c
    go String.[] = sym (text_nil _)
    go (String.◌∷◌ c s) = concat_parts-append "" e.sse_parts (String.◌∷◌ c s)

add_choices-content :
    (e : Chat) (chs : List Choice)
    → content_of (add_choices e chs) ≡ content_of e <> choices_content chs
unfolding add_choices choices_content
add_choices-content e [] = sym (text_nil _)
add_choices-content e (ch ∷ chs) =
    rw (add_choices-content (add_choice e ch) chs, add_choice-content e ch) (text_assoc _ _ _)

add_header-parts : (e : Chat) (v : Chunk) → (add_header e v).sse_parts ≡ e.sse_parts
unfolding add_header
add_header-parts e v = ground arith

-- The content that is put together after a stream is what stood there before it and, behind that,
-- the content of all choices of all chunks in order.
pub run_chat-content :
    (e : Chat) (vs : List Chunk) → content_of (run_chat e vs) ≡ content_of e <> chunks_content vs
unfolding run_chat chunks_content
run_chat-content e [] = sym (text_nil _)
run_chat-content e (v ∷ vs) = rw (run_chat-content (add_chunk e v) vs) (
    unfold add_chunk in
    rw (add_choices-content (add_header e v) v.choices, add_header-parts e v) (text_assoc _ _ _))

-- The extractor after the events of a message.
unfoldable pub run_claude : Claude → List Event → Claude
run_claude e [] = e
run_claude e (v ∷ vs) = run_claude (add_event e v) vs

-- The two events of a message stream that carry usage.
abbrev pub no_tokens : Tokens
no_tokens = record {
  input_tokens = pos 0;
  output_tokens = pos 0;
  cache_read_tokens = pos 0;
  cache_create_tokens = pos 0;
}

abbrev pub message_start : Tokens → String → String → Event
message_start u id model = record {
  kind = "message_start";
  usage = no_tokens;
  message_id = id;
  message_model = model;
  message_usage = u;
  stop_reason = "";
  delta_text = "";
  block_type = "";
}

abbrev pub message_delta : Tokens → String → Event
message_delta u reason = record {
  kind = "message_delta";
  usage = u;
  message_id = "";
  message_model = "";
  message_usage = no_tokens;
  stop_reason = reason;
  delta_text = "";
  block_type = "";
}

-- An event that carries no usage that counts.
pub record IsQuiet (v : Event) : Type 0 where
  pub no_message : positive v.message_usage.input_tokens ≡ false
  pub no_input : positive v.usage.input_tokens ≡ false
  pub no_output : positive v.usage.output_tokens ≡ false

-- Usage and model, without the total, which every event computes again.
abbrev untotalled : Claude → MinimalUsage × String
untotalled e = (record (e.acc) { total_tokens = pos 0 }, e.mdl)

quiet_event : (e : Claude) (v : Event) → IsQuiet v → untotalled (add_event e v) ≡ untotalled e
unfolding add_event add_message_usage add_delta_usage
quiet_event e v q = rw (q.no_message, q.no_input, q.no_output)

quiet_events :
    (e : Claude) (vs : List Event) → All IsQuiet vs → untotalled (run_claude e vs) ≡ untotalled e
unfolding run_claude
quiet_events e [] q = refl
quiet_events e (v ∷ vs) (q, qs) = quiet_events (add_event e v) vs qs ∙ quiet_event e v q

run_claude-append :
    (e : Claude) (vs ws : List Event) → run_claude e (vs ++ ws) ≡ run_claude (run_claude e vs) ws
unfolding run_claude
run_claude-append e [] ws = refl
run_claude-append e (v ∷ vs) ws = run_claude-append (add_event e v) vs ws

start_event :
    (u : Tokens) (id model : String)
    → positive u.input_tokens ≡ true
    → untotalled (add_event new_claude (message_start u id model)) ≡ (
      record {
        prompt_tokens = u.input_tokens;
        completion_tokens = pos 0;
        total_tokens = pos 0;
        reasoning_tokens = pos 0;
        cached_tokens = add64 u.cache_read_tokens u.cache_create_tokens;
      },
      model,
    )
unfolding add_event add_message_usage add_delta_usage
start_event u id String.[] h = rw h
start_event u id (String.◌∷◌ c s) h = rw h

delta_event :
    (e : Claude) (u : Tokens) (reason : String)
    → positive u.input_tokens ≡ false
    → positive u.output_tokens ≡ true
    → Claude.sse_result (add_event e (message_delta u reason)) ≡ (
      record (e.acc) {
        completion_tokens = u.output_tokens;
        total_tokens = add64 e.acc.prompt_tokens u.output_tokens;
      },
      e.mdl,
    )
unfolding add_event add_message_usage add_delta_usage Claude.sse_result
delta_event e u reason no_input output = rw (no_input, output)

-- A streamed message and a whole message give the same usage and model: a `message_start` with the
-- prompt's tokens, any events without usage, and a `message_delta` with the output's tokens come to
-- what the decoded whole message with those tokens comes to.
pub run_claude-eq-extract_response :
    (u d : Tokens) (id model reason : String) (quiet : List Event)
    (decode : Bytes → Option (Tokens × String)) (body : Bytes)
    → positive u.input_tokens ≡ true
    → positive d.input_tokens ≡ false
    → positive d.output_tokens ≡ true
    → All IsQuiet quiet
    → decode body ≡ some (record u { output_tokens = d.output_tokens }, model)
    → Claude.sse_result
        (run_claude new_claude (message_start u id model ∷ quiet ++ message_delta d reason ∷ []))
      ≡ Claude.extract_response decode body
unfolding run_claude Claude.extract_response
run_claude-eq-extract_response u d id model reason quiet decode body prompt no_input output q
      decoded =
    let start = add_event new_claude (message_start u id model) in
    let e = run_claude start quiet in
    let finish : MinimalUsage × String → MinimalUsage × String = λ t. (
      record (t.0) {
        completion_tokens = d.output_tokens;
        total_tokens = add64 (t.0.prompt_tokens) d.output_tokens;
      },
      t.1,
    ) in
    rw (decoded, Claude.extract_response)
      (ap Claude.sse_result (run_claude-append start quiet (message_delta d reason ∷ []))
        ∙ delta_event e d reason no_input output
        ∙ ap finish (quiet_events start quiet q ∙ start_event u id model prompt))
