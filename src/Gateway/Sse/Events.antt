-- ===== src/Gateway/Sse/Events.antt =====
-- Which lines of a stream reach the extractor.
use new_api_gateway.Prelude.{Bool, true, false, [], ◌∷◌, ◌++◌, some, ◌≡◌, ◌≢◌, refl, arith, ap}
use new_api_gateway.Text.{Bytes, codes, eq_codes}
use new_api_gateway.Gateway.Sse.{
  Extractor, payload_of, process_line, process_lines, trim_right_byte, trim_left_byte, add_byte,
  drain, split_lines,
}

-- The text does not begin with a space.
abbrev pub NoSpaceFirst : Bytes → Type 0
NoSpaceFirst [] = Unit
NoSpaceFirst (c ∷ s) = c ≢ 32

-- A data line whose colon is not followed by a space changes nothing, whatever it carries.
pub process_line-tight_colon :
    (x : Extractor) (s : x.State) (body : Bytes)
    → NoSpaceFirst body
    → process_line x s (codes "data:" ++ body) ≡ s
unfolding process_line payload_of
process_line-tight_colon x s [] h = refl
process_line-tight_colon x s (c ∷ body) h = ground arith

-- No byte ends a line: neither a newline nor a carriage return.
abbrev pub OneLine : Bytes → Type 0
OneLine [] = Unit
OneLine (c ∷ s) = (c ≢ 10) × (c ≢ 13) × OneLine s

-- A newline, behind a carriage return or not.
abbrev pub line_end : Bool → Bytes
line_end true = 13 ∷ 10 ∷ []
line_end false = 10 ∷ []

abbrev returns : Bool → Bytes
returns true = 13 ∷ []
returns false = []

split_lines-event :
    (body : Bytes) (cr : Bool)
    → OneLine body
    → split_lines (body ++ line_end cr) ≡ ((body ++ returns cr) ∷ [], [])
unfolding split_lines
split_lines-event [] true h = refl
split_lines-event [] false h = refl
split_lines-event (c ∷ body) cr (newline, _, h) =
    rw (split_lines-event body cr h, add_byte) (ground arith)

trim_right_byte-event :
    (body : Bytes) (cr : Bool) → OneLine body → trim_right_byte 13 (body ++ returns cr) ≡ body
unfolding trim_right_byte
trim_right_byte-event [] true h = refl
trim_right_byte-event [] false h = refl
trim_right_byte-event (c ∷ body) cr (_, return, h) =
    rw (trim_right_byte-event body cr h) (ground arith)

trim_left_byte-NoSpaceFirst : (body : Bytes) → NoSpaceFirst body → trim_left_byte 32 body ≡ body
unfolding trim_left_byte
trim_left_byte-NoSpaceFirst [] h = refl
trim_left_byte-NoSpaceFirst (c ∷ body) h = ground arith

OneLine-prefix : (body : Bytes) → OneLine body → OneLine (codes "data: " ++ body)
OneLine-prefix body h = grind arith

payload_of-event :
    (body : Bytes) (cr : Bool)
    → OneLine body
    → NoSpaceFirst body
    → eq_codes body (codes "[DONE]") ≡ false
    → payload_of (codes "data: " ++ (body ++ returns cr)) ≡ some body
unfolding payload_of
payload_of-event body cr line first open_ =
    rw (trim_right_byte-event body cr line, trim_left_byte-NoSpaceFirst body first, open_)

process_line-payload :
    (x : Extractor) (s : x.State) (line : Bytes) {body : Bytes}
    → payload_of line ≡ some body
    → process_line x s line ≡ x.process_sse s body
unfolding process_line
process_line-payload x s line h = rw (h, process_line)

-- One event of a stream, its payload on one line that does not begin with a space and is not
-- `DONE` in brackets: the extractor is given exactly the payload, and the buffer is empty afterwards. The line
-- may end in a newline or in a carriage return and a newline.
pub drain-event :
    (x : Extractor) (s : x.State) (body : Bytes) (cr : Bool)
    → OneLine body
    → NoSpaceFirst body
    → eq_codes body (codes "[DONE]") ≡ false
    → drain x s (codes "data: " ++ (body ++ line_end cr)) ≡ (x.process_sse s body, [])
unfolding drain process_lines
drain-event x s body cr line first open_ =
    rw (split_lines-event (codes "data: " ++ body) cr (OneLine-prefix body line))
      (ap (λ t. (t, [])) (process_line-payload x s _ (payload_of-event body cr line first open_)))
