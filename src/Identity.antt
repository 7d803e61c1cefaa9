-- ===== src/Identity.antt =====
-- internal/identity/resolver.go and stores.go: who an API key belongs to, by a chain of caches before
-- the lookup in the database of new-api. A cache owns its state, so the order in which a chain's
-- caches are filled does not show; Redis is a cache that the theorems take as a parameter.
pub mod Postgres
pub mod Honest
mod Tests
use new_api_gateway.Prelude.{
  ℕ, String, Bool, true, false, List, [], ◌∷◌, Option, none, some, ◌==◌, string_eq, if◌then◌else◌,
}
use new_api_gateway.Prelude.Int.{ℤ, pos}

-- `NewAPIToken`
pub record Token : Type 0 where
  pub token_id : ℤ
  pub token_name : String
  pub username : String
  pub token_status : ℤ
  pub token_group : String
  pub expired_time : ℤ
  pub accessed_time : ℤ
  pub remain_quota : ℤ
  pub used_quota : ℤ
  pub unlimited_quota : Bool
  pub model_limits_enabled : Bool
  pub model_limits : String

-- `Snapshot`; the fields that are copied from the token are one field here.
pub record Snapshot : Type 0 where
  pub token_fingerprint : String
  pub fingerprint_display : String
  pub token : Token
  pub resolution_status : String
  pub identity_cache_status : String

abbrev pub no_token : Token
no_token = record {
  token_id = pos 0;
  token_name = "";
  username = "";
  token_status = pos 0;
  token_group = "";
  expired_time = pos 0;
  accessed_time = pos 0;
  remain_quota = pos 0;
  used_quota = pos 0;
  unlimited_quota = false;
  model_limits_enabled = false;
  model_limits = "";
}

-- What `Get` returns: an error, `false`, or a snapshot with `true`.
pub data Got : Type 0 where
  failed : String → Got
  missing : Got
  found : Snapshot → Got

-- `Cache`; `set` returns the error that there may be.
pub record Cache : Type 1 where
  pub State : Type 0
  pub get : String → State → Got × State
  pub set : Snapshot → State → Option String × State

-- The states of a chain's caches; `none` is a nil interface, which the loops skip.
abbrev pub ChainState : List (Option Cache) → Type 0
ChainState [] = Unit
ChainState (none ∷ caches) = ChainState caches
ChainState (some c ∷ caches) = c.State × ChainState caches

-- `ChainCache.Set`, and the error of the first cache that has one.
unfoldable pub chain_set :
    (caches : List (Option Cache))
    → Snapshot
    → ChainState caches
    → Option String × ChainState caches
chain_set [] s states = (none, tt)
chain_set (none ∷ caches) s states = chain_set caches s states
chain_set (some c ∷ caches) s (state, states) =
    let (err, state') = c.set s state in
    let (later, states') = chain_set caches s states in
    (elim err [ none ↦ later | some e ↦ some e ], (state', states'))

-- What the chain returns when a cache has failed and a later one has answered `later`: the snapshot
-- that was found, or the first error.
abbrev pub first_error : String → Got → Got
first_error e (found s) = found s
first_error e (failed later) = failed e
first_error e missing = failed e

-- An earlier cache is filled with the snapshot that a later one has found.
abbrev pub backfill : (c : Cache) → Got → c.State → c.State
backfill c (found s) state = (c.set s state).1
backfill c (failed e) state = state
backfill c missing state = state

-- One cache of the loop of `ChainCache.Get`: what it has answered, what the later caches answer when it
-- has no snapshot, and their states before that.
unfoldable pub chain_answer :
    (c : Cache) (caches : List (Option Cache))
    → Got × c.State
    → Got × ChainState caches
    → ChainState caches
    → Got × (c.State × ChainState caches)
chain_answer c caches (failed e, state) (later, states') states =
    (first_error e later, (backfill c later state, states'))
chain_answer c caches (missing, state) (later, states') states =
    (later, (backfill c later state, states'))
chain_answer c caches (found s, state) later states =
    (found s, (state, (chain_set caches s states).1))

-- `ChainCache.Get`
unfoldable pub chain_get :
    (caches : List (Option Cache)) → String → ChainState caches → Got × ChainState caches
chain_get [] fingerprint states = (missing, tt)
chain_get (none ∷ caches) fingerprint states = chain_get caches fingerprint states
chain_get (some c ∷ caches) fingerprint (state, states) =
    chain_answer c caches (c.get fingerprint state) (chain_get caches fingerprint states) states

unfoldable pub chain_cache : List (Option Cache) → Cache
chain_cache caches = record {
  State = ChainState caches;
  get = chain_get caches;
  set = chain_set caches;
}

-- What the lookup returns: a token, `ErrTokenNotFound`, or another error.
pub data Looked : Type 0 where
  token_found : Token → Looked
  token_not_found : Looked
  lookup_failed : Looked

-- The snapshot that is returned, and the states of the cache and of the database.
pub record Resolved (S L : Type 0) : Type 0 where
  pub result : Snapshot
  pub cache_state : S
  pub lookup_state : L

-- What the code makes of a lookup.
unfoldable pub snapshot_of : String → String → String → Looked → Snapshot
snapshot_of fingerprint display cache_status (token_found token) = record {
  token_fingerprint = fingerprint;
  fingerprint_display = display;
  token = token;
  resolution_status = "resolved";
  identity_cache_status = cache_status;
}
snapshot_of fingerprint display cache_status token_not_found = record {
  token_fingerprint = fingerprint;
  fingerprint_display = display;
  token = no_token;
  resolution_status = "not_found";
  identity_cache_status = cache_status;
}
snapshot_of fingerprint display cache_status lookup_failed = record {
  token_fingerprint = fingerprint;
  fingerprint_display = display;
  token = no_token;
  resolution_status = "db_error";
  identity_cache_status = cache_status;
}

-- What is done with the answer of the lookup: a token's snapshot is kept in the cache.
unfoldable pub settle :
    (cache : Cache) {L : Type 0}
    → String
    → String
    → String
    → cache.State
    → Looked × L
    → Resolved cache.State L
settle cache fingerprint display cache_status state (token_found token, l) =
    let s = snapshot_of fingerprint display cache_status (token_found token) in
    record { result = s; cache_state = (cache.set s state).1; lookup_state = l }
settle cache fingerprint display cache_status state (looked, l) = record {
  result = snapshot_of fingerprint display cache_status looked;
  cache_state = state;
  lookup_state = l;
}

-- What is done with the answer of the cache.
unfoldable pub resolve_from :
    (cache : Cache) {L : Type 0}
    → (String → L → Looked × L)
    → String
    → String
    → String
    → L
    → Got × cache.State
    → Resolved cache.State L
resolve_from cache lookup key fingerprint display l (failed e, state) =
    settle cache fingerprint display "cache_error" state (lookup key l)
resolve_from cache lookup key fingerprint display l (missing, state) =
    settle cache fingerprint display "miss_db_lookup" state (lookup key l)
resolve_from cache lookup key fingerprint display l (found s, state) = record {
  result = record s { identity_cache_status = "cache_hit" };
  cache_state = state;
  lookup_state = l;
}

-- `Resolver.Resolve`, behind the test for a missing lookup. A missing cache behaves as the chain of no
-- caches.
unfoldable pub resolve :
    (cache : Cache) {L : Type 0}
    → (String → L → Looked × L)
    → String
    → String
    → String
    → cache.State
    → L
    → Resolved cache.State L
resolve cache lookup key fingerprint display state l =
    resolve_from cache lookup key fingerprint display l (cache.get fingerprint state)

-- `Resolver.Resolve`; `none` is the error that the lookup is missing.
unfoldable pub resolve_checked :
    (cache : Cache) {L : Type 0}
    → Option (String → L → Looked × L)
    → String
    → String
    → String
    → cache.State
    → L
    → Option (Resolved cache.State L)
resolve_checked cache none key fingerprint display state l = none
resolve_checked cache (some lookup) key fingerprint display state l =
    some (resolve cache lookup key fingerprint display state l)
