-- ===== src/Gateway/Sse.antt =====
-- The `sseUsageExtractor` of internal/gateway/stream.go: the lines of a server-sent event stream, as
-- they pass to the client in chunks.
pub mod Chunks
pub mod Events
mod Tests
use new_api_gateway.Prelude.{
  ℕ, ◌+◌, Bool, true, false, List, [], ◌∷◌, ◌++◌, Option, none, some, ◌==◌, ◌&&◌, nat_eq,
  if◌then◌else◌,
}
use new_api_gateway.Text.{Bytes, codes, eq_codes}
use new_api_gateway.Gateway.Stream.{Write, Writer}

-- The part of the `usageExtractor` interface that the stream uses: a state and how a payload changes
-- it.
pub record Extractor : Type 1 where
  pub State : Type 0
  pub process_sse : State → Bytes → State

unfoldable pub trim_left_byte : ℕ → Bytes → Bytes
trim_left_byte b [] = []
trim_left_byte b (c ∷ s) = let rest = trim_left_byte b s in if c == b then rest else c ∷ s

abbrev pub no_bytes : Bytes → Bool
no_bytes [] = true
no_bytes (c ∷ s) = false

unfoldable pub trim_right_byte : ℕ → Bytes → Bytes
trim_right_byte b [] = []
trim_right_byte b (c ∷ s) =
    let rest = trim_right_byte b s in if c == b && no_bytes rest then [] else c ∷ rest

-- What follows a prefix.
unfoldable pub after_prefix : Bytes → Bytes → Option Bytes
after_prefix [] s = some s
after_prefix (b ∷ p) [] = none
after_prefix (b ∷ p) (c ∷ s) = let rest = after_prefix p s in if b == c then rest else none

-- One more byte in front of the lines found and the rest.
unfoldable pub add_byte : ℕ → List Bytes × Bytes → List Bytes × Bytes
add_byte c ([], rest) = if c == 10 then ([] ∷ [], rest) else ([], c ∷ rest)
add_byte c (line ∷ lines, rest) =
    if c == 10 then ([] ∷ line ∷ lines, rest) else ((c ∷ line) ∷ lines, rest)

-- The lines that a newline ends, and what is left in `e.buf`.
unfoldable pub split_lines : Bytes → List Bytes × Bytes
unfolding add_byte
split_lines [] = ([], [])
split_lines (c ∷ s) = add_byte c (split_lines s)

-- The payload of a line, `none` where the loop goes on to the next line.
unfoldable pub payload_of : Bytes → Option Bytes
unfolding trim_left_byte trim_right_byte after_prefix
payload_of line = elim (after_prefix (codes "data: ") (trim_right_byte 13 line)) [
  | none ↦ none
  | some behind ↦
      let payload = trim_left_byte 32 behind in
      if eq_codes payload (codes "[DONE]") then none else some payload
]

module _ (x : Extractor) where
  open x use {State, process_sse}

  unfoldable pub process_line : State → Bytes → State
  process_line s line = elim (payload_of line) [ none ↦ s | some payload ↦ process_sse s payload ]

  unfoldable pub process_lines : State → List Bytes → State
  process_lines s [] = s
  process_lines s (line ∷ lines) = process_lines (process_line s line) lines

  -- The fields of the extractor that change, with the writer that it wraps.
  pub record Sse (W : Type 0) : Type 0 where
    pub w : W
    pub ext : State
    pub buf : Bytes

-- The loop of `sseUsageExtractor.Write`, on the state of the extractor and the buffer.
unfoldable pub drain : (x : Extractor) → x.State → Bytes → x.State × Bytes
unfolding process_lines split_lines
drain x s buf = let (lines, rest) = split_lines buf in (process_lines x s lines, rest)

unfoldable pub write : (x : Extractor) {W : Type 0} → Writer W → Writer (Sse x W)
write x write_inner e p =
    let r = write_inner e.w p in
    elim r.err [
      | some err ↦ record { count = r.count; err = some err; state = record e { w = r.state } }
      | none ↦
          let (ext, buf) = drain x e.ext (e.buf ++ p) in
          record {
            count = r.count;
            err = none;
            state = record { w = r.state; ext = ext; buf = buf };
          }
    ]
