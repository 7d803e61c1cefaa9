-- ===== src/Admin/Auth/Csrf.antt =====
-- internal/admin/handlers.go: which requests pass the CSRF guard.
use new_api_gateway.Prelude.{
  String, Bool, true, false, ◌||◌, Option, none, some, ◌≡◌, sym, ap, ◌⊎◌, inl, inr, arith, ◌==◌,
  string_eq, Bool-cases,
}
use new_api_gateway.Text.{is_empty}
use new_api_gateway.Admin.Auth.{
  Verdict, status, pass, is_safe_method, require_csrf_token, require_csrf,
}

-- What lets a request pass the CSRF guard: a safe method, or one token that is not empty in the session, the
-- cookie and the header.
pub record HasToken (token cookie : Option String) (header : String) : Type 0 where
  pub in_session : token ≡ some header
  pub in_cookie : cookie ≡ some header
  pub present : is_empty header ≡ false

last_false : (a b c : Bool) → (a || b || c) ≡ false → c ≡ false
last_false a b c h = ground arith

abbrev Guarded : String → Option String → Option String → String → Verdict → Type 0
Guarded method token cookie header (status n) = Unit
Guarded method token cookie header pass =
    (is_safe_method method ≡ true) ⊎ HasToken token cookie header

require_csrf_token-Guarded :
    (method : String) (token cookie : Option String) (header : String)
    → Guarded method token cookie header (require_csrf_token token cookie header)
unfolding require_csrf_token
require_csrf_token-Guarded method none cookie header = tt
require_csrf_token-Guarded method (some token) none header = tt
require_csrf_token-Guarded method (some token) (some cookie) header =
    elim (Bool-cases (is_empty token || is_empty cookie || is_empty header)) [
      | inl missing ↦ rw missing tt
      | inr given ↦ elim (Bool-cases (cookie == header)) [
        | inr other ↦ rw (given, other) tt
        | inl same ↦ elim (Bool-cases (header == token)) [
          | inr other ↦ rw (given, same, other) tt
          | inl own ↦
              rw (given, same, own)
                (inr (record {
                  in_session = ap some (sym ((string_eq.same_iff header token).0 own));
                  in_cookie = ap some ((string_eq.same_iff cookie header).0 same);
                  present = last_false (is_empty token) (is_empty cookie) (is_empty header) given;
                }))
        ]
      ]
    ]

require_csrf-Guarded :
    (method : String) (token cookie : Option String) (header : String)
    → Guarded method token cookie header (require_csrf method token cookie header)
unfolding require_csrf
require_csrf-Guarded method token cookie header = elim (Bool-cases (is_safe_method method)) [
  | inl safe ↦ rw safe (inl safe)
  | inr other ↦ rw other (require_csrf_token-Guarded method token cookie header)
]

-- A request that passes the CSRF guard has a safe method, or carries the session's own token, not empty, both
-- in its header and in its cookie.
pub require_csrf-HasToken :
    (method : String) (token cookie : Option String) (header : String)
    → require_csrf method token cookie header ≡ pass
    → (is_safe_method method ≡ true) ⊎ HasToken token cookie header
require_csrf-HasToken method token cookie header h =
    rw h at (require_csrf-Guarded method token cookie header)
