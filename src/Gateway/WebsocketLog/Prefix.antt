-- ===== src/Gateway/WebsocketLog/Prefix.antt =====
-- What the bounded log holds of the frames.
use new_api_gateway.Prelude.{
  ℕ, zero, suc, ◌-◌, ◌≤◌, ◌<◌, String, List, [], ◌∷◌, ◌++◌, append_assoc, append-nil, ◌≡◌, refl,
  sym, ap, ◌∙◌, inl, inr, arith, leb, ltb, if◌then◌else◌, Bool-cases, length, take, leb→le,
}
use new_api_gateway.Text.{Bytes}
use new_api_gateway.Gateway.WebsocketLog.{
  BoundedLog, new_bounded_websocket_log, line_of, append_line, write, write_all,
}

-- All lines, one behind the other.
unfoldable pub lines_of : List (String × Bytes) → Bytes
lines_of [] = []
lines_of (frame ∷ frames) = line_of frame ++ lines_of frames

module _ {A : Type 0} where
  take-all : (n : ℕ) (xs : List A) → length xs ≤ n → take n xs ≡ xs
  take-all zero [] h = refl
  take-all zero (x ∷ xs) h = absurd (omega arith)
  take-all (suc n) [] h = refl
  take-all (suc n) (x ∷ xs) h = ap (λ t. x ∷ t) (take-all n xs (omega arith))

  take-short : (n : ℕ) (xs : List A) → length (take n xs) < n → take n xs ≡ xs
  take-short zero xs h = absurd (omega arith)
  take-short (suc n) [] h = refl
  take-short (suc n) (x ∷ xs) h = ap (λ t. x ∷ t) (take-short n xs (omega arith))

  length-take_le : (n : ℕ) (xs : List A) → length (take n xs) ≤ length xs
  length-take_le zero xs = omega arith
  length-take_le (suc n) [] = omega arith
  length-take_le (suc n) (x ∷ xs) = omega (arith, length-take_le n xs)

  take-within : (n : ℕ) (xs ys : List A) → n ≤ length xs → take n (xs ++ ys) ≡ take n xs
  take-within zero xs ys h = refl
  take-within (suc n) [] ys h = absurd (omega arith)
  take-within (suc n) (x ∷ xs) ys h = ap (λ t. x ∷ t) (take-within n xs ys (omega arith))

  take-beyond :
      (n : ℕ) (xs ys : List A) → length xs ≤ n → take n (xs ++ ys) ≡ xs ++ take (n - length xs) ys
  take-beyond n [] ys h = ap (λ m. take m ys) (omega arith)
  take-beyond zero (x ∷ xs) ys h = absurd (omega arith)
  take-beyond (suc n) (x ∷ xs) ys h =
      ap (λ t. x ∷ t) (take-beyond n xs ys (omega arith))
      ∙ ap (λ m. x ∷ (xs ++ take m ys)) (omega arith)

  take-guarded : (n : ℕ) (xs : List A) → (if ltb n (length xs) then take n xs else xs) ≡ take n xs
  take-guarded n xs = elim (Bool-cases (ltb n (length xs))) [
    | inl long ↦ rw long
    | inr short ↦ rw short (sym (take-all n xs (ground arith)))
  ]

append_line-take :
    (limit : ℕ) (text line : Bytes)
    → append_line limit (take limit text) line ≡ take limit (text ++ line)
unfolding append_line
append_line-take limit text line =
    let buf = take limit text in
    elim (Bool-cases (leb limit (length buf))) [
      | inl full ↦
          let long : limit ≤ length text =
            omega (arith, leb→le limit (length buf) full, length-take_le limit text) in
          rw full (sym (take-within limit text line long))
      | inr free ↦
          let short : length buf < limit = ground arith in
          let whole = take-short limit text short in
          let room : length text ≤ limit = omega (arith, short, ap (λ xs. length xs) whole) in
          rw (free, whole, take-guarded (limit - length text) line)
            (sym (take-beyond limit text line room))
    ]

-- The log after any writes to a log that holds the first bytes of a text.
write_all-take :
    (l : BoundedLog) (text : Bytes) (frames : List (String × Bytes))
    → l.buf ≡ take l.limit text
    → (write_all l frames).buf ≡ take l.limit (text ++ lines_of frames)
unfolding write_all write lines_of
write_all-take l text [] held = held ∙ ap (take l.limit) (sym (append-nil text))
write_all-take l text (frame ∷ frames) held =
    write_all-take (write l frame) (text ++ line_of frame) frames (
      ap (λ b. append_line l.limit b (line_of frame)) held
      ∙ append_line-take l.limit text (line_of frame))
    ∙ ap (take l.limit) (append_assoc text (line_of frame) (lines_of frames))

-- Whatever frames come, and in whatever order the two directions write them, the log holds exactly the
-- first bytes of their lines, as many as its limit allows.
pub new_bounded_websocket_log-take :
    (limit : ℕ) (frames : List (String × Bytes))
    → let l = new_bounded_websocket_log limit in
      (write_all l frames).buf ≡ take l.limit (lines_of frames)
unfolding new_bounded_websocket_log
new_bounded_websocket_log-take limit frames =
    let l = new_bounded_websocket_log limit in
    write_all-take l [] frames (sym (take-all l.limit [] (omega arith)))
