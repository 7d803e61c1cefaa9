-- ===== src/Identity/Honest.antt =====
-- Caches that answer only for the fingerprint that they are asked for, and what resolution promises
-- with them.
use new_api_gateway.Prelude.{String, List, [], ◌∷◌, Option, none, some, ◌≡◌, refl, ◌⊎◌, inl, inr}
use new_api_gateway.Identity.{
  Snapshot, Got, failed, missing, found, Cache, ChainState, chain_set, chain_get, chain_cache,
  chain_answer, first_error, backfill, Looked, token_found, token_not_found, lookup_failed,
  Resolved, snapshot_of, settle, resolve_from, resolve,
}

-- The snapshot is a resolved one of the fingerprint.
pub record IsOwn (fingerprint : String) (s : Snapshot) : Type 0 where
  pub own : s.token_fingerprint ≡ fingerprint
  pub resolved : s.resolution_status ≡ "resolved"

abbrev pub Answers : String → Got → Type 0
Answers fingerprint (found s) = IsOwn fingerprint s
Answers fingerprint (failed e) = Unit
Answers fingerprint missing = Unit

-- What a cache promises: in a good state it answers with resolved snapshots of the fingerprint that it
-- is asked for, and it stays good when it is read, and when a resolved snapshot is stored.
pub record Honest (c : Cache) : Type 1 where
  pub Good : c.State → Type 0
  pub get_answers :
      (fingerprint : String) (state : c.State)
      → Good state
      → Answers fingerprint (c.get fingerprint state).0
  pub get_good :
      (fingerprint : String) (state : c.State) → Good state → Good (c.get fingerprint state).1
  pub set_good :
      (s : Snapshot) (state : c.State)
      → s.resolution_status ≡ "resolved"
      → Good state
      → Good (c.set s state).1

pub data AllHonest : List (Option Cache) → Type 1 where
  honest_none : AllHonest []
  honest_skip : {caches : List (Option Cache)} → AllHonest caches → AllHonest (none ∷ caches)
  honest_more :
      {c : Cache} {caches : List (Option Cache)}
      → Honest c
      → AllHonest caches
      → AllHonest (some c ∷ caches)

-- Every cache of the chain is in a good state.
unfoldable pub ChainGood :
    {caches : List (Option Cache)} → AllHonest caches → ChainState caches → Type 0
ChainGood honest_none states = Unit
ChainGood (honest_skip hs) states = ChainGood hs states
ChainGood (honest_more h hs) (state, states) = h.Good state × ChainGood hs states

chain_set_good :
    {caches : List (Option Cache)} (hs : AllHonest caches) (s : Snapshot)
    (states : ChainState caches)
    → s.resolution_status ≡ "resolved"
    → ChainGood hs states
    → ChainGood hs (chain_set caches s states).1
unfolding ChainGood chain_set
chain_set_good honest_none s states e g = tt
chain_set_good (honest_skip hs) s states e g = chain_set_good hs s states e g
chain_set_good (honest_more h hs) s (state, states) e (g, gs) =
    (h.set_good s state e g, chain_set_good hs s states e gs)

backfill_good :
    {c : Cache} (h : Honest c) (fingerprint : String) (got : Got) (state : c.State)
    → Answers fingerprint got
    → h.Good state
    → h.Good (backfill c got state)
backfill_good h fingerprint (found s) state a g = h.set_good s state a.resolved g
backfill_good h fingerprint (failed e) state a g = g
backfill_good h fingerprint missing state a g = g

first_error-Answers :
    (fingerprint e : String) (got : Got)
    → Answers fingerprint got
    → Answers fingerprint (first_error e got)
first_error-Answers fingerprint e (found s) a = a
first_error-Answers fingerprint e (failed later) a = tt
first_error-Answers fingerprint e missing a = tt

-- What `Get` of a chain owes: an answer for the fingerprint, and good states.
abbrev pub Owes :
    {caches : List (Option Cache)} → AllHonest caches → String → Got × ChainState caches → Type 0
Owes hs fingerprint (got, states) = Answers fingerprint got × ChainGood hs states

chain_answer-Owes :
    {c : Cache} {caches : List (Option Cache)} (h : Honest c) (hs : AllHonest caches)
    (fingerprint : String) (first : Got × c.State) (later : Got × ChainState caches)
    (states : ChainState caches)
    → Answers fingerprint first.0
    → h.Good first.1
    → Owes hs fingerprint later
    → ChainGood hs states
    → Owes (honest_more h hs) fingerprint (chain_answer c caches first later states)
unfolding chain_answer ChainGood
chain_answer-Owes h hs fingerprint (failed e, state) (later, states') states a g (b, gs') gs =
    (first_error-Answers fingerprint e later b, (backfill_good h fingerprint later state b g, gs'))
chain_answer-Owes h hs fingerprint (missing, state) (later, states') states a g (b, gs') gs =
    (b, (backfill_good h fingerprint later state b g, gs'))
chain_answer-Owes h hs fingerprint (found s, state) (later, states') states a g (b, gs') gs =
    (a, (g, chain_set_good hs s states a.resolved gs))

-- A chain of caches that are in good states and answer only for the fingerprint that they are asked
-- for answers so itself, and leaves all its caches in good states, those included that it fills with
-- what another has found.
pub chain_get-Owes :
    {caches : List (Option Cache)} (hs : AllHonest caches) (fingerprint : String)
    (states : ChainState caches)
    → ChainGood hs states
    → Owes hs fingerprint (chain_get caches fingerprint states)
unfolding ChainGood chain_get
chain_get-Owes honest_none fingerprint states g = (tt, tt)
chain_get-Owes (honest_skip hs) fingerprint states g = chain_get-Owes hs fingerprint states g
chain_get-Owes (honest_more {c = c} {caches = caches} h hs) fingerprint (state, states) (g, gs) =
    chain_answer-Owes h hs fingerprint (c.get fingerprint state)
      (chain_get caches fingerprint states) states (h.get_answers fingerprint state g)
      (h.get_good fingerprint state g) (chain_get-Owes hs fingerprint states gs) gs

-- A chain of honest caches is an honest cache.
pub chain_cache-Honest :
    {caches : List (Option Cache)} → AllHonest caches → Honest (chain_cache caches)
unfolding chain_cache
chain_cache-Honest hs = record {
  Good = ChainGood hs;
  get_answers = λ fingerprint states g. (chain_get-Owes hs fingerprint states g).0;
  get_good = λ fingerprint states g. (chain_get-Owes hs fingerprint states g).1;
  set_good = chain_set_good hs;
}

-- What resolution promises: the caches stay good, and the snapshot has the fingerprint of the request
-- and one of the three outcomes of a resolution.
pub record Sound {c : Cache} (h : Honest c) {L : Type 0} (fingerprint : String)
    (r : Resolved c.State L) : Type 0 where
  pub cache_good : h.Good r.cache_state
  pub own_fingerprint : r.result.token_fingerprint ≡ fingerprint
  pub known_status :
      (r.result.resolution_status ≡ "resolved")
      ⊎ (r.result.resolution_status ≡ "not_found")
      ⊎ (r.result.resolution_status ≡ "db_error")

module _ {c : Cache} (h : Honest c) {L : Type 0} where
  settle-Sound :
      (fingerprint display status : String) (state : c.State) (answer : Looked × L)
      → h.Good state
      → Sound h fingerprint (settle c fingerprint display status state answer)
  unfolding settle snapshot_of
  settle-Sound fingerprint display status state (token_found token, l) g = record {
    cache_good =
        h.set_good (snapshot_of fingerprint display status (token_found token)) state refl g;
    own_fingerprint = refl;
    known_status = inl refl;
  }
  settle-Sound fingerprint display status state (token_not_found, l) g = record {
    cache_good = g;
    own_fingerprint = refl;
    known_status = inr (inl refl);
  }
  settle-Sound fingerprint display status state (lookup_failed, l) g = record {
    cache_good = g;
    own_fingerprint = refl;
    known_status = inr (inr refl);
  }

  resolve_from-Sound :
      (lookup : String → L → Looked × L) (key fingerprint display : String) (l : L)
      (got : Got × c.State)
      → Answers fingerprint got.0
      → h.Good got.1
      → Sound h fingerprint (resolve_from c lookup key fingerprint display l got)
  unfolding resolve_from
  resolve_from-Sound lookup key fingerprint display l (failed e, state) a g =
      settle-Sound fingerprint display "cache_error" state (lookup key l) g
  resolve_from-Sound lookup key fingerprint display l (missing, state) a g =
      settle-Sound fingerprint display "miss_db_lookup" state (lookup key l) g
  resolve_from-Sound lookup key fingerprint display l (found s, state) a g = record {
    cache_good = g;
    own_fingerprint = a.own;
    known_status = inl a.resolved;
  }

  -- With a cache that answers only with resolved snapshots of the fingerprint that it is asked for,
  -- resolution returns a snapshot of the request's own fingerprint, resolved, not found or with a
  -- database error, whatever the database answers, and the cache stays such a cache.
  pub resolve-Sound :
      (lookup : String → L → Looked × L) (key fingerprint display : String) (state : c.State)
      (l : L)
      → h.Good state
      → Sound h fingerprint (resolve c lookup key fingerprint display state l)
  unfolding resolve
  resolve-Sound lookup key fingerprint display state l g =
      resolve_from-Sound lookup key fingerprint display l (c.get fingerprint state)
        (h.get_answers fingerprint state g) (h.get_good fingerprint state g)
