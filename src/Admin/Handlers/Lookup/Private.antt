-- ===== src/Admin/Handlers/Lookup/Private.antt =====
-- internal/admin/handlers.go: what a lookup of an API key keeps of the key.
use new_api_gateway.Prelude.{ℕ, String, true, Option, none, some, ◌≡◌, refl, ap}
use new_api_gateway.Text.{◌<>◌, is_empty}
use new_api_gateway.Admin.Limits.{Counters, allow}
use new_api_gateway.Admin.Permissions.{Permission, api_key_lookup}
use new_api_gateway.Admin.Auth.{Verdict, status, pass}
use new_api_gateway.Admin.Repository.{Principal, Store, Db}
use new_api_gateway.Admin.Repository.Lookup.{LookupAnswers}
use new_api_gateway.Admin.Handlers.{Services}
use new_api_gateway.Admin.Handlers.Records.{limited}
use new_api_gateway.Admin.Handlers.Lookup.{
  canonicalize_lookup_key, lookup_key, lookup_limiter, create_api_key_lookup,
}
use new_api_gateway.Admin.Handlers.Routing.{
  key_lookup, Request, Panel, on_lookup, perform, verdict_of, decide, behind_session, authenticate,
  behind, serve, guards_of, route_of,
}

-- Two keys that are both empty or both present in their canonical form, with the same fingerprint.
pub record SameFingerprint (x : Services) (k k' : String) : Type 0 where
  pub present : is_empty (canonicalize_lookup_key k) ≡ is_empty (canonicalize_lookup_key k')
  pub same : x.fingerprint (canonicalize_lookup_key k) ≡ x.fingerprint (canonicalize_lookup_key k')

module _ (x : Services) (db : Db) (k k' : String) (h : SameFingerprint x k k')
    (a : LookupAnswers) where
  lookup_key-same :
      (now : ℕ) (p : Principal) (s : Store)
      → lookup_key x db now (some k) a p s ≡ lookup_key x db now (some k') a p s
  unfolding lookup_key
  lookup_key-same now p s = rw (h.present, h.same) refl

  create_api_key_lookup-same :
      (now : ℕ) (p : Principal) (s : Store) (counters : Counters)
      → create_api_key_lookup x db now (some k) a p s counters
        ≡ create_api_key_lookup x db now (some k') a p s counters
  unfolding create_api_key_lookup
  create_api_key_lookup-same now p s counters =
      let (ok, counters') = allow lookup_limiter (p.username <> ":api_key_lookup") now counters in
      ap (λ o. limited counters' o s ok) (lookup_key-same now p s)

  module _ (q : Request) where
    decide-same :
        (p : Principal) (t : Panel) (v : Verdict)
        → decide x db (record q { action = key_lookup (some k) a }) p t v
          ≡ decide x db (record q { action = key_lookup (some k') a }) p t v
    unfolding decide perform
    decide-same p t (status n) = refl
    decide-same p t pass =
        ap (on_lookup t) (create_api_key_lookup-same q.now p t.store t.lookup_counters)

    behind_session-same :
        (permission : Option Permission) (t : Panel) (o : Option (Principal × String))
        → behind_session x db (record q { action = key_lookup (some k) a }) true permission t o
          ≡ behind_session x db (record q { action = key_lookup (some k') a }) true permission t o
    unfolding behind_session verdict_of route_of
    behind_session-same permission t none = refl
    behind_session-same permission t (some (p, session_id)) = decide-same p _ _

    -- A lookup keeps nothing of an API key but its fingerprint: the answer, the tables with the log of
    -- actions, and the counters are the same for two keys with the same fingerprint, if their canonical
    -- forms are both empty or both not, whoever asks.
    pub key_lookup-same :
        (t : Panel)
        → serve x db (record q { action = key_lookup (some k) a }) t
          ≡ serve x db (record q { action = key_lookup (some k') a }) t
    unfolding serve behind guards_of route_of
    key_lookup-same t =
        behind_session-same (some api_key_lookup) t
          (authenticate x db q.now q.session_cookie t.store)
