-- ===== src/Gateway/Tunnel/Ends.antt =====
-- A websocket tunnel comes to its end once one of its sides ends.
use new_api_gateway.Prelude.{
  ℕ, zero, ◌+◌, ◌*◌, ◌≤◌, String, Bool, true, List, [], ◌∷◌, ◌++◌, ◌≡◌, refl, ◌∙◌, ◌⊎◌, inl, inr,
  arith, length,
}
use new_api_gateway.Text.{Bytes}
use new_api_gateway.Gateway.WebsocketLog.{BoundedLog}
use new_api_gateway.Gateway.Tunnel.{
  Phase, reading, writing, closing_peer, closing_own, done, Tunnel, View, Move, read, read_end,
  read_closed, write_failed, close_peer, close_own, client_view, upstream_view, with_client,
  with_upstream, Step, client_step, upstream_step, Steps, at_start, and_step, pipe_of, start,
  IsOver,
}
use new_api_gateway.Gateway.Tunnel.Kept.{Kept, Step-Kept, Delivered-prefix}

-- The goroutine is past its last call, or it can take a step.
abbrev Goes : String → View → Type 0
Goes direction v = (v.pipe.phase ≡ done) ⊎ ((w : View) × Move direction v w)

-- A reader moves on if its connection is closed, or its source ends.
reading-Goes :
    (direction : String) (v : View) (input : List Bytes)
    → v.pipe.phase ≡ reading
    → v.pipe.input ≡ input
    → (v.own ≡ true) ⊎ (v.pipe.ends ≡ true)
    → Goes direction v
reading-Goes direction v input e i (inl closed) = inr (_, read_closed e closed)
reading-Goes direction v [] e i (inr ends) = inr (_, read_end e i ends)
reading-Goes direction v (chunk ∷ rest) e i (inr ends) = inr (_, read chunk rest e i)

phase-Goes :
    (direction : String) (v : View) (phase : Phase)
    → v.pipe.phase ≡ phase
    → (v.own ≡ true) ⊎ (v.pipe.ends ≡ true)
    → (v.peer ≡ true) ⊎ (v.pipe.taken ≡ true)
    → Goes direction v
phase-Goes direction v reading e h k = reading-Goes direction v v.pipe.input e refl h
phase-Goes direction v (writing chunk) e h k = inr (_, write_failed chunk e k)
phase-Goes direction v closing_peer e h k = inr (_, close_peer e)
phase-Goes direction v closing_own e h k = inr (_, close_own e)
phase-Goes direction v done e h k = inl e

-- The other goroutine, once one has closed both connections.
abbrev Continues : Tunnel → Type 0
Continues t = IsOver t ⊎ ((u : Tunnel) × Step t u)

client-Continues :
    (t : Tunnel)
    → (t.client_closed ≡ true) × (t.upstream_closed ≡ true)
    → t.from_upstream.phase ≡ done
    → Goes "client" (client_view t)
    → Continues t
client-Continues t (c, u) e (inr (w, m)) = inr (with_client t w, client_step m)
client-Continues t (c, u) e (inl d) =
    inl (record { client_done = d; upstream_done = e; client_closed = c; upstream_closed = u })

upstream-Continues :
    (t : Tunnel)
    → (t.client_closed ≡ true) × (t.upstream_closed ≡ true)
    → t.from_client.phase ≡ done
    → Goes "upstream" (upstream_view t)
    → Continues t
upstream-Continues t (c, u) e (inr (w, m)) = inr (with_upstream t w, upstream_step m)
upstream-Continues t (c, u) e (inl d) =
    inl (record { client_done = e; upstream_done = d; client_closed = c; upstream_closed = u })

module _ (client upstream : List Bytes)
    (client_ends upstream_ends client_taken upstream_taken : Bool) where
  Kept-Continues :
      (n : ℕ) (t : Tunnel)
      → Kept client upstream client_ends upstream_ends client_taken upstream_taken n t
      → ((client_ends ≡ true) × (client_taken ≡ true))
        ⊎ ((upstream_ends ≡ true) × (upstream_taken ≡ true))
      → Continues t
  Kept-Continues n t k (inl (ends, taken)) =
      elim (phase-Goes "client" (client_view t) t.from_client.phase refl
        (inr (k.same_client ∙ ends)) (inr (k.still_client ∙ taken))) [
          | inr (w, m) ↦ inr (with_client t w, client_step m)
          | inl d ↦
              let closed : (t.client_closed ≡ true) × (t.upstream_closed ≡ true) =
                rw d at k.client_closes in
              upstream-Continues t closed d (
                phase-Goes "upstream" (upstream_view t) t.from_upstream.phase refl (inl closed.1)
                  (inl closed.0))
        ]
  Kept-Continues n t k (inr (ends, taken)) =
      elim (phase-Goes "upstream" (upstream_view t) t.from_upstream.phase refl
        (inr (k.same_upstream ∙ ends)) (inr (k.still_upstream ∙ taken))) [
          | inr (w, m) ↦ inr (with_upstream t w, upstream_step m)
          | inl d ↦
              let closed : (t.upstream_closed ≡ true) × (t.client_closed ≡ true) =
                rw d at k.upstream_closes in
              client-Continues t (closed.1, closed.0) d
                (phase-Goes "client" (client_view t) t.from_client.phase refl (inl closed.1)
                  (inl closed.0))
        ]

  Steps-Kept :
      (log : BoundedLog) (n : ℕ) (t : Tunnel)
      → Steps
          (start
            (pipe_of client client_ends client_taken)
            (pipe_of upstream upstream_ends upstream_taken)
            log)
          n
          t
      → Kept client upstream client_ends upstream_ends client_taken upstream_taken n t
  Steps-Kept log zero _ at_start = record {
    bounded = omega arith;
    client_closes = tt;
    upstream_closes = tt;
    to_upstream = refl;
    to_client = refl;
    same_client = refl;
    same_upstream = refl;
    still_client = refl;
    still_upstream = refl;
  }
  Steps-Kept log _ _ (and_step {n = n} {u = u} {w = w} s m) =
      Step-Kept client upstream client_ends upstream_ends client_taken upstream_taken n u w
        (Steps-Kept log n u s) m

-- How a tunnel behaves after `n` steps.
pub record Conduct (client upstream : List Bytes)
    (client_ends upstream_ends client_taken upstream_taken : Bool) (n : ℕ) (t : Tunnel)
    : Type 0 where
  pub bounded : n ≤ 2 * length client + 2 * length upstream + 6
  pub to_upstream : (rest : List Bytes) × (client ≡ t.from_client.output ++ rest)
  pub to_client : (rest : List Bytes) × (upstream ≡ t.from_upstream.output ++ rest)
  pub continues :
      ((client_ends ≡ true) × (client_taken ≡ true))
        ⊎ ((upstream_ends ≡ true) × (upstream_taken ≡ true))
      → IsOver t ⊎ ((u : Tunnel) × Step t u)

-- A tunnel takes at most two steps for each chunk that its sides send, and six more, in whatever order the
-- two goroutines run. What each side has got by then is a beginning of what the other has sent, in order. If
-- one of the sides ends, be it after its last chunk, and the writes to the other side return, the tunnel does
-- not stop before both goroutines are done and both connections are closed, even if the other side stays
-- silent and the writes to the side that ends do not return before it is closed.
pub Steps-Conduct :
    (client upstream : List Bytes) (client_ends upstream_ends client_taken upstream_taken : Bool)
    (log : BoundedLog) (n : ℕ) (t : Tunnel)
    → Steps
        (start
          (pipe_of client client_ends client_taken)
          (pipe_of upstream upstream_ends upstream_taken)
          log)
        n
        t
    → Conduct client upstream client_ends upstream_ends client_taken upstream_taken n t
Steps-Conduct client upstream client_ends upstream_ends client_taken upstream_taken log n t s =
    let k =
      Steps-Kept client upstream client_ends upstream_ends client_taken upstream_taken log n t s in
    record {
      bounded = omega (arith, k.bounded);
      to_upstream =
          Delivered-prefix client t.from_client.output t.from_client.input t.from_client.phase
            k.to_upstream;
      to_client =
          Delivered-prefix upstream t.from_upstream.output t.from_upstream.input
            t.from_upstream.phase k.to_client;
      continues =
          Kept-Continues client upstream client_ends upstream_ends client_taken upstream_taken n t
            k;
    }
