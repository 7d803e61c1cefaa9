-- ===== src/Admin/Auth/Cookies.antt =====
-- internal/admin/auth.go: which session cookies are accepted.
use text.Mathlib.TextLemmas.{nil-append, cons-append}
use new_api_gateway.Prelude.{
  String, true, false, Option, none, some, ◌≡◌, refl, ap, inl, inr, arith, ◌==◌, string_eq,
  Bool-cases,
}
use new_api_gateway.Text.{◌<>◌, is_empty, is_char, lacks, cut}
use new_api_gateway.Admin.Auth.{
  Codec, sign_session_id, check_signature, check_parts, check_payload, verify_cookie,
}

cut-append :
    (s t : String) → lacks (is_char b'.') s ≡ true → cut b'.' (s <> ("." <> t)) ≡ some (s, t)
unfolding cut
cut-append String.[] t h = rw (nil-append ("." <> t), cons-append _ "" t, nil-append t)
cut-append (String.◌∷◌ c s) t h = elim (Bool-cases (is_char b'.' c)) [
  | inl dot ↦ absurd (ground arith)
  | inr other ↦ rw (cons-append c s ("." <> t), other, cut-append s t (ground arith))
]

-- A session identifier that the payload of a cookie can hold.
pub record IsSession (session_id : String) : Type 0 where
  pub present : is_empty session_id ≡ false
  pub no_dot : lacks (is_char b'.') session_id ≡ true

module _ (x : Codec) (decode-encode : (s : String) → x.decode (x.encode s) ≡ some s) where
  -- With an encoding that decodes back, a signed session identifier is verified as itself, if it is not
  -- empty, has no dot, and its signature does not encode to the empty text.
  pub verify_cookie-sign_session_id :
      (session_id : String)
      → IsSession session_id
      → is_empty (x.encode (x.mac session_id)) ≡ false
      → verify_cookie x (sign_session_id x session_id) ≡ some session_id
  unfolding verify_cookie sign_session_id check_payload check_parts check_signature
  verify_cookie-sign_session_id session_id h k = rw (
    decode-encode (session_id <> ("." <> x.encode (x.mac session_id))),
    cut-append session_id (x.encode (x.mac session_id)) h.no_dot,
    h.present,
    k,
    decode-encode (x.mac session_id),
    (string_eq.same_iff (x.mac session_id) (x.mac session_id)).1 refl,
  )

-- A cookie that was made with the secret: its payload has a signature that decodes to the session's.
pub record IsSigned (x : Codec) (value session_id : String) : Type 0 where
  pub payload : String
  pub signature : String
  pub decoded : x.decode value ≡ some payload
  pub parts : cut b'.' payload ≡ some (session_id, signature)
  pub signed : x.decode signature ≡ some (x.mac session_id)
  pub present : is_empty session_id ≡ false

-- The outcome of the comparison, with what it says of a session that comes out of it.
abbrev SignedBy : Codec → String → Option String → Option String → Type 0
SignedBy x session_id decoded none = Unit
SignedBy x session_id decoded (some out) = (out ≡ session_id) × (decoded ≡ some (x.mac session_id))

check_signature-SignedBy :
    (x : Codec) (session_id : String) (decoded : Option String)
    → SignedBy x session_id decoded (check_signature x session_id decoded)
unfolding check_signature
check_signature-SignedBy x session_id none = tt
check_signature-SignedBy x session_id (some s) = elim (Bool-cases (s == x.mac session_id)) [
  | inl same ↦ rw same (refl, ap some ((string_eq.same_iff s (x.mac session_id)).0 same))
  | inr other ↦ rw other tt
]

abbrev SignedSession : Codec → String → Option String → Type 0
SignedSession x value none = Unit
SignedSession x value (some session_id) = IsSigned x value session_id

module _ (x : Codec) (value payload : String) (decoded : x.decode value ≡ some payload) where
  check_signature-SignedSession :
      (session_id signature : String) (out : Option String)
      → cut b'.' payload ≡ some (session_id, signature)
      → is_empty session_id ≡ false
      → SignedBy x session_id (x.decode signature) out
      → SignedSession x value out
  check_signature-SignedSession session_id signature none parts present s = tt
  check_signature-SignedSession session_id signature (some out) parts present (same, signed) =
      rw same (record {
        payload = payload;
        signature = signature;
        decoded = decoded;
        parts = parts;
        signed = signed;
        present = present;
      })

  check_parts-SignedSession :
      (p : Option (String × String))
      → cut b'.' payload ≡ p
      → SignedSession x value (check_parts x p)
  unfolding check_parts
  check_parts-SignedSession none parts = tt
  check_parts-SignedSession (some (session_id, signature)) parts =
      elim (Bool-cases (is_empty session_id)) [
        | inl empty ↦ rw empty tt
        | inr present ↦ elim (Bool-cases (is_empty signature)) [
          | inl empty ↦ rw (present, empty) tt
          | inr full ↦
              rw (present, full)
                (check_signature-SignedSession session_id signature
                  (check_signature x session_id (x.decode signature)) parts present
                  (check_signature-SignedBy x session_id (x.decode signature)))
        ]
      ]

check_payload-SignedSession :
    (x : Codec) (value : String) (o : Option String)
    → x.decode value ≡ o
    → SignedSession x value (check_payload x o)
unfolding check_payload
check_payload-SignedSession x value none e = tt
check_payload-SignedSession x value (some payload) e =
    check_parts-SignedSession x value payload e (cut b'.' payload) refl

verify_cookie-SignedSession :
    (x : Codec) (value : String) → SignedSession x value (verify_cookie x value)
unfolding verify_cookie
verify_cookie-SignedSession x value = check_payload-SignedSession x value (x.decode value) refl

-- No cookie is accepted that was not made with the secret: the session that comes out of it stands in its
-- payload before the first dot, and the rest of the payload decodes to the session's own signature.
pub verify_cookie-IsSigned :
    (x : Codec) (value : String) {session_id : String}
    → verify_cookie x value ≡ some session_id
    → IsSigned x value session_id
verify_cookie-IsSigned x value h = rw h at (verify_cookie-SignedSession x value)
