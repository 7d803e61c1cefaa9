-- ===== src/Admin/Handlers/Tests.antt =====
-- Tests of the admin handlers, and their theorems at concrete requests.
use new_api_gateway.Prelude.{
  String, true, List, [], ◌∷◌, ◌++◌, none, some, ◌≡◌, refl, ◌⊎◌, arith, ◌==◌, nat_eq, string_eq,
}
use new_api_gateway.Text.{◌<>◌, trim_space, trim, trim_left, trim_right, is_space, cut}
use new_api_gateway.Admin.Limits.{allow, current, count_request}
use new_api_gateway.Admin.Permissions.{admin, review, allows}
use new_api_gateway.Admin.Auth.{
  verify_cookie, check_payload, check_parts, check_signature, middleware, with_session,
  with_principal, require, require_csrf, require_csrf_token, is_safe_method,
}
use new_api_gateway.Admin.Repository.{
  User, Session, ActionLog, Db, row, find_active_user_by_username, find_active_user_by_id,
  create_session_row, is_accepted, principal_in, principal_by_session, see_session_row,
  revoke_session_row, with_defaults, insert_audit_action_log, revoke_other, change_user_password,
  insert_review_decision, find_raw_evidence_object,
}
use new_api_gateway.Admin.Handlers as Handlers
use new_api_gateway.Admin.Handlers.{
  Services, PasswordInput, welcome, open_session, login_as, login, note_logout, end_session, logout,
  store_password, replace_password, is_bad_password, change_password_of, change_password,
}
use new_api_gateway.Admin.Handlers.Records.{
  EvidenceInput, valid_review_target_type, valid_review_decision, review_created, review_of,
  is_bad_review, create_review, send_evidence, log_evidence, read_evidence, open_evidence,
  find_evidence, get_raw_evidence,
}
use new_api_gateway.Text.{before, trim_prefix, cut_prefix_lower, cut_prefix}
use new_api_gateway.AuthKeys.{canonical_key, canonicalize, after_bearer}
use new_api_gateway.Admin.Repository.{no_rows}
use new_api_gateway.Admin.Repository.Lookup.{
  LookupAnswers, lookup_token_summary, summary_with, summary_of,
}
use new_api_gateway.Admin.Handlers.Lookup.{
  create_api_key_lookup, lookup_key, lookup_fingerprint, send_lookup, canonicalize_lookup_key,
}
use new_api_gateway.Admin.Handlers.Lookup.Private.{key_lookup-same}
use new_api_gateway.Admin.Handlers.Routing.{
  key_lookup, guards_of, route_of, logging_in, logging_out, password_change, review_creation,
  evidence_reading, Request, Panel, perform, verdict_of, decide, behind_session, authenticate,
  behind, serve, unmoved, served,
}
use new_api_gateway.Admin.Handlers.Later.Requests.{Reach-logs}
use new_api_gateway.Admin.Handlers.Revoked.{logout-authenticate}
use new_api_gateway.Admin.Handlers.Passwords.Sessions.{IsRenewed, change_password-IsRenewed}
use new_api_gateway.Admin.Handlers.Authorized.{IsAuthorized, IsUntouched, serve-IsAuthorized}
use new_api_gateway.Admin.Handlers.Evidence.Requests.{IsSupervised, serve-IsSupervised}
use new_api_gateway.Admin.Handlers.Login.Sessions.{IsSignedIn, login-IsSignedIn}

-- Codes that are the texts themselves, with a mark before them.
abbrev services : Services
services = record {
  codec = record { encode = λ s. s; decode = λ s. some s; mac = λ s. "k" <> s };
  hash_password = λ s. some ("h" <> s);
  check_password = λ h s. h == "h" <> s;
  marshal = λ l. "{}";
  fingerprint = λ key. ("hmac", "tkfp");
  evidence = some (λ ref. some "bytes");
}

abbrev up : Db
up = λ c. true

abbrev session : String → Session
session id = record {
  session_id = id;
  user_id = 7;
  expires_at = 1000;
  csrf_token = "token";
  revoked_at = none;
  last_seen_at = none;
}

abbrev panel : Panel
panel = record {
  store = record {
    users =
        record {
          id = 7;
          username = "ada";
          password_hash = "hold";
          display_name = "Ada";
          email = "";
          role = admin;
          active = true;
          updated_at = 0;
        }
        ∷ [];
    sessions = session "s1" ∷ session "s2" ∷ [];
    logs = [];
    reviews = [];
    contexts = [];
    objects =
        record {
          trace_id = "t1";
          object_type = "request";
          object_ref = "r1";
          content_type = "";
          size_bytes = 5;
          sha256 = "";
        }
        ∷ [];
  };
  raw_counters = λ key. record { count = 0; window_end = 0 };
  lookup_counters = λ key. record { count = 0; window_end = 0 };
}

abbrev logout_request : Request
logout_request = record {
  action = logging_out;
  session_cookie = some "s1.ks1";
  csrf_cookie = none;
  csrf_header = "";
  now = 10;
}

abbrev password_input : PasswordInput
password_input = record {
  current_password = "old";
  new_password = "twelve runes";
  confirm_password = "twelve runes";
}

abbrev password_request : Request
password_request = record {
  action = password_change (some password_input);
  session_cookie = some "s1.ks1";
  csrf_cookie = some "token";
  csrf_header = "token";
  now = 10;
}

abbrev review_request : Request
review_request = record {
  action =
      review_creation (
        some
          (record { target_type = " trace"; target_id = "t1"; decision = "dismiss"; note = "" }));
  session_cookie = some "s1.ks1";
  csrf_cookie = some "token";
  csrf_header = "token";
  now = 10;
}

abbrev evidence_input : EvidenceInput
evidence_input = record { trace_id = "t1"; object_type = "request"; object_ref = ""; ref = "" }

abbrev evidence_request : Request
evidence_request = record {
  action = evidence_reading evidence_input;
  session_cookie = some "s1.ks1";
  csrf_cookie = none;
  csrf_header = "";
  now = 10;
}

abbrev login_request : Request
login_request = record {
  action = logging_in (some ("ada", "old")) (some "s3") (some "token");
  session_cookie = none;
  csrf_cookie = none;
  csrf_header = "";
  now = 10;
}

logout-authenticate_example :
    authenticate services up 20 (some "s1.ks1") (serve services up logout_request panel).1.store
    ≡ none
unfolding serve behind guards_of route_of perform logout end_session note_logout verify_cookie
    check_payload check_parts check_signature cut principal_by_session principal_in is_accepted
    see_session_row revoke_session_row insert_audit_action_log
logout-authenticate_example =
    logout-authenticate services up up logout_request 20 "s1.ks1" "s1.ks1" "s1" panel
      (serve services up logout_request panel).1 refl refl refl refl refl refl unmoved

-- The same session is still accepted before the logout.
accepted_before :
    authenticate services up 20 (some "s1.ks1") panel.store
    ≡ some (
      record {
        user_id = 7;
        username = "ada";
        display_name = "Ada";
        role = admin;
        csrf_token = "token";
        session_id = "s1";
      },
      "s1",
    )
unfolding authenticate middleware with_session with_principal verify_cookie check_payload
    check_parts check_signature cut principal_by_session principal_in is_accepted
accepted_before = refl

Reach-logs_example :
    (new : List ActionLog) × ((serve services up review_request
        (serve services up logout_request panel).1).1.store.logs
      ≡ (serve services up logout_request panel).1.store.logs ++ new)
Reach-logs_example =
    Reach-logs services (serve services up logout_request panel).1 _
      (served up review_request unmoved)

change_password-IsRenewed_example :
    IsRenewed services up password_request password_input
      (record {
        user_id = 7;
        username = "ada";
        display_name = "Ada";
        role = admin;
        csrf_token = "token";
        session_id = "s1";
      })
      20
      "s2.ks2"
      panel
      (serve services up password_request panel).1
      (serve services up password_request panel).1
unfolding serve behind behind_session decide guards_of route_of perform verdict_of require_csrf
    require_csrf_token is_safe_method authenticate middleware with_session with_principal
    verify_cookie check_payload check_parts check_signature cut principal_by_session principal_in
    is_accepted see_session_row Handlers.change_password is_bad_password change_password_of
    replace_password store_password find_active_user_by_id change_user_password revoke_other
    with_defaults
change_password-IsRenewed_example =
    change_password-IsRenewed services up up password_request password_input
      (record {
        user_id = 7;
        username = "ada";
        display_name = "Ada";
        role = admin;
        csrf_token = "token";
        session_id = "s1";
      })
      "s1" "s2.ks2" "s2" 20 panel (serve services up password_request panel).1 refl refl
      (record { known = refl; of_user = refl; other = refl }) refl unmoved (omega arith) refl

serve-IsAuthorized_example :
    IsUntouched panel (serve services up review_request panel)
    ⊎ IsAuthorized services up review_request panel true (some review)
serve-IsAuthorized_example = serve-IsAuthorized services up review_request panel refl

-- Two spellings of a key, for a fingerprint that does not tell them apart.
abbrev answers : LookupAnswers
answers = record { identity = no_rows; traces = some []; open_anomalies = some 0 }

key_lookup-same_example :
    serve services up (record review_request { action = key_lookup (some "sk-abc") answers }) panel
    ≡ serve services up
        (record review_request { action = key_lookup (some "sk-xyz-1") answers })
        panel
unfolding canonicalize_lookup_key canonical_key canonicalize after_bearer trim_space trim trim_left
    trim_right is_space before trim_prefix cut_prefix_lower cut_prefix
key_lookup-same_example =
    key_lookup-same services up "sk-abc" "sk-xyz-1" (record { present = refl; same = refl }) answers
      review_request panel

-- The lookup is answered.
key_lookup_test :
    (serve services up
      (record review_request { action = key_lookup (some "sk-abc") answers })
      panel).0.code
    ≡ 200
unfolding serve behind behind_session decide guards_of route_of perform verdict_of require_csrf
    require_csrf_token is_safe_method require allows authenticate middleware with_session
    with_principal verify_cookie check_payload check_parts check_signature cut principal_by_session
    principal_in is_accepted see_session_row create_api_key_lookup allow current count_request
    lookup_key lookup_fingerprint send_lookup lookup_token_summary summary_with summary_of
    canonicalize_lookup_key canonical_key canonicalize after_bearer trim_space trim trim_left
    trim_right is_space before trim_prefix cut_prefix_lower cut_prefix
key_lookup_test = refl

-- The review is created.
review_created_test : (serve services up review_request panel).0.code ≡ 201
unfolding serve behind behind_session decide guards_of route_of perform verdict_of require_csrf
    require_csrf_token is_safe_method require allows authenticate middleware with_session
    with_principal verify_cookie check_payload check_parts check_signature cut principal_by_session
    principal_in is_accepted see_session_row create_review review_of is_bad_review
    valid_review_target_type valid_review_decision review_created insert_review_decision trim_space
    trim trim_left trim_right is_space
review_created_test = refl

serve-IsSupervised_example :
    IsSupervised services up evidence_request evidence_input panel
      (record {
        trace_id = "t1";
        object_type = "request";
        object_ref = "r1";
        content_type = "";
        size_bytes = 5;
        sha256 = "";
      })
      "bytes"
unfolding serve behind behind_session decide guards_of route_of perform verdict_of require allows
    authenticate middleware with_session with_principal verify_cookie check_payload check_parts
    check_signature cut principal_by_session principal_in is_accepted see_session_row
    get_raw_evidence allow current count_request find_evidence open_evidence read_evidence
    log_evidence send_evidence find_raw_evidence_object insert_audit_action_log trim_space trim
    trim_left trim_right is_space
serve-IsSupervised_example =
    serve-IsSupervised services up evidence_request evidence_input panel
      (record {
        trace_id = "t1";
        object_type = "request";
        object_ref = "r1";
        content_type = "";
        size_bytes = 5;
        sha256 = "";
      })
      "bytes" refl refl

login-IsSignedIn_example :
    (u : User) × (find_active_user_by_username up "ada" panel.store ≡ row u)
    × (services.check_password u.password_hash "old" ≡ true)
    × (IsSignedIn services up 20
        (serve services up login_request panel).0.session_cookie
        (serve services up login_request panel).1.store
        u.id
        "s3"
        "token")
unfolding serve behind guards_of route_of perform login login_as open_session welcome
    find_active_user_by_username create_session_row
login-IsSignedIn_example =
    login-IsSignedIn services (λ s. refl) "s3" (record { present = refl; no_dot = refl }) refl up up
      login_request 20 "ada" "old" "token" panel refl refl (omega arith) refl
