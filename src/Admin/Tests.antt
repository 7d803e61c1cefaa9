-- ===== src/Admin/Tests.antt =====
-- Tests of the admin interface's guards, and their theorems at concrete requests.
use new_api_gateway.Prelude.{
  ◌+◌, ◌≤◌, true, [], ◌∷◌, none, some, ◌≡◌, refl, arith, ◌⊎◌, ◌==◌, string_eq, if◌then◌else◌,
}
use new_api_gateway.Text.{◌<>◌, cut}
use new_api_gateway.Admin.Limits.{
  Limiter, Counters, allowed, allow, current, count_request, allowed-le-limit,
}
use new_api_gateway.Admin.Auth.{
  Codec, sign_session_id, verify_cookie, check_payload, check_parts, check_signature, require_csrf,
  require_csrf_token, is_safe_method,
}
use new_api_gateway.Admin.Auth.Cookies.{
  verify_cookie-sign_session_id, verify_cookie-IsSigned, IsSigned,
}
use new_api_gateway.Admin.Auth.Csrf.{require_csrf-HasToken, HasToken}

abbrev limiter : Limiter
limiter = record { limit = 2; window = 60 }

abbrev no_counters : Counters
no_counters = λ key. record { count = 0; window_end = 0 }

-- One request of "a" has been counted at 10.
abbrev one_counted : Counters
one_counted = λ key.
    if key == "a"
    then record { count = 1; window_end = 70 }
    else record { count = 0; window_end = 0 }

three_requests :
    allowed limiter "a" (("a", 10) ∷ ("b", 11) ∷ ("a", 12) ∷ ("a", 13) ∷ ("a", 70) ∷ []) no_counters
    ≡ 3
unfolding allowed allow current count_request
three_requests = refl

allowed-le-limit_example :
    allowed limiter "a" (("a", 12) ∷ ("b", 13) ∷ ("a", 14) ∷ []) one_counted + 1 ≤ 2
allowed-le-limit_example =
    allowed-le-limit limiter "a" (("a", 12) ∷ ("b", 13) ∷ ("a", 14) ∷ []) one_counted
      (record { count = 1; window_end = 70 }) refl refl (omega arith)
      (omega arith, (omega arith, (omega arith, tt)))

-- An encoding that is the identity, and a mark for the signature.
abbrev plain : Codec
plain = record { encode = λ s. s; decode = λ s. some s; mac = λ s. "k" <> s }

verify_cookie-sign_session_id_example :
    verify_cookie plain (sign_session_id plain "sess_1") ≡ some "sess_1"
verify_cookie-sign_session_id_example =
    verify_cookie-sign_session_id plain (λ s. refl) "sess_1"
      (record { present = refl; no_dot = refl }) refl

forged : verify_cookie plain "sess_1.ksess_2" ≡ none
unfolding verify_cookie check_payload check_parts check_signature cut
forged = refl

verify_cookie-IsSigned_example : IsSigned plain "sess_1.ksess_1" "sess_1"
unfolding verify_cookie check_payload check_parts check_signature cut
verify_cookie-IsSigned_example =
    verify_cookie-IsSigned plain "sess_1.ksess_1" {session_id = "sess_1"} refl

require_csrf-HasToken_example :
    (is_safe_method "POST" ≡ true) ⊎ HasToken (some "csrf_1") (some "csrf_1") "csrf_1"
unfolding require_csrf require_csrf_token is_safe_method
require_csrf-HasToken_example =
    require_csrf-HasToken "POST" (some "csrf_1") (some "csrf_1") "csrf_1" refl
