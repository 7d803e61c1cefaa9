-- ===== src/Gateway/Sse/Chunks.antt =====
-- How a stream is cut into chunks does not matter.
use new_api_gateway.Prelude.{
  ℕ, List, [], ◌∷◌, ◌++◌, none, ◌≡◌, refl, sym, ◌∙◌, ap, arith, append_assoc, append-nil, ◌==◌,
  nat_eq, Bool-cases, inl, inr,
}
use mathlib.Core.List.{flatten}
use new_api_gateway.Text.{Bytes}
use new_api_gateway.Gateway.Stream.{Writer}
use new_api_gateway.Gateway.Sse.{
  Extractor, Sse, add_byte, split_lines, process_line, process_lines, drain, write,
}

-- The lines of `a ++ b`, from those of `a` and the rest of `a` with `b`.
abbrev after : List Bytes × Bytes → Bytes → List Bytes × Bytes
after (lines, rest) b = (lines ++ (split_lines (rest ++ b)).0, (split_lines (rest ++ b)).1)

add_byte-after_empty :
    (c : ℕ) (r : List Bytes × Bytes) (rest b : Bytes)
    → split_lines (rest ++ b) ≡ r
    → add_byte c r ≡ after (add_byte c ([], rest)) b
unfolding add_byte split_lines
add_byte-after_empty c ([], end) rest b e = elim (Bool-cases (c == 10)) [
  | inl newline ↦ rw (newline, e)
  | inr other ↦ rw (other, split_lines, e, other)
]
add_byte-after_empty c (line ∷ lines, end) rest b e = elim (Bool-cases (c == 10)) [
  | inl newline ↦ rw (newline, e)
  | inr other ↦ rw (other, split_lines, e, other)
]

add_byte-after :
    (c : ℕ) (r : List Bytes × Bytes) (b : Bytes) → add_byte c (after r b) ≡ after (add_byte c r) b
add_byte-after c ([], rest) b = add_byte-after_empty c (split_lines (rest ++ b)) rest b refl
add_byte-after c (line ∷ lines, rest) b = unfold add_byte in ground arith

split_lines-append : (a b : Bytes) → split_lines (a ++ b) ≡ after (split_lines a) b
unfolding split_lines
split_lines-append [] b = refl
split_lines-append (c ∷ a) b =
    rw (split_lines-append a b, split_lines) (add_byte-after c (split_lines a) b)

process_lines-append :
    (x : Extractor) (s : x.State) (ls ms : List Bytes)
    → process_lines x s (ls ++ ms) ≡ process_lines x (process_lines x s ls) ms
unfolding process_lines
process_lines-append x s [] ms = refl
process_lines-append x s (l ∷ ls) ms = process_lines-append x (process_line x s l) ls ms

-- Draining what was left with more bytes behind it ends as draining all at once.
drain-append :
    (x : Extractor) (s : x.State) (a b : Bytes)
    → drain x (drain x s a).0 ((drain x s a).1 ++ b) ≡ drain x s (a ++ b)
unfolding drain
drain-append x s a b = rw (split_lines-append a b) (
    ap (λ t. (t, (split_lines ((split_lines a).1 ++ b)).1))
      (sym (process_lines-append x s (split_lines a).0 (split_lines ((split_lines a).1 ++ b)).0)))

module _ (x : Extractor) {W : Type 0} (write_inner : Writer W) where
  -- The state after each of the chunks has been written in turn.
  pub write_all : Sse x W → List Bytes → Sse x W
  write_all e [] = e
  write_all e (p ∷ ps) = write_all (write x write_inner e p).state ps

  abbrev pub parsed : Sse x W → x.State × Bytes
  parsed e = (e.ext, e.buf)

  module _ (never_fails : (w : W) (p : Bytes) → (write_inner w p).err ≡ none) where
    parsed-write :
        (e : Sse x W) (p : Bytes)
        → parsed (write x write_inner e p).state ≡ drain x e.ext (e.buf ++ p)
    unfolding write
    parsed-write e p = ground (arith, never_fails e.w p)

    parsed-write_all :
        (e : Sse x W) (p : Bytes) (ps : List Bytes)
        → parsed (write_all e (p ∷ ps)) ≡ drain x e.ext (e.buf ++ (p ++ flatten ps))
    unfolding write_all flatten
    parsed-write_all e p [] = rw (append-nil p) (parsed-write e p)
    parsed-write_all e p (q ∷ ps) =
        let e' = (write x write_inner e p).state in
        parsed-write_all e' q ps
        ∙ ap (λ (t : x.State × Bytes). drain x t.0 (t.1 ++ flatten (q ∷ ps))) (parsed-write e p)
        ∙ drain-append x e.ext (e.buf ++ p) (flatten (q ∷ ps))
        ∙ ap (λ b. drain x e.ext b) (append_assoc e.buf p (flatten (q ∷ ps)))

    -- From an empty buffer, and with a client that takes what it is given, the extractor's state and
    -- buffer after any chunks are those of one pass over all the bytes: where the stream was cut
    -- changes nothing.
    pub write_all-flatten :
        (e : Sse x W) (ps : List Bytes)
        → e.buf ≡ []
        → parsed (write_all e ps) ≡ drain x e.ext (flatten ps)
    unfolding write_all flatten drain
    write_all-flatten e [] empty = ground arith
    write_all-flatten e (p ∷ ps) empty =
        parsed-write_all e p ps ∙ ap (λ b. drain x e.ext (b ++ flatten (p ∷ ps))) empty
