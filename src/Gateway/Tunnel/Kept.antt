-- ===== src/Gateway/Tunnel/Kept.antt =====
-- What every step of a websocket tunnel keeps, and how far it brings the tunnel.
use new_api_gateway.Prelude.{
  ℕ, suc, ◌+◌, ◌*◌, ◌≤◌, String, Bool, true, List, [], ◌∷◌, ◌++◌, ◌≡◌, refl, sym, ◌∙◌, arith,
  length, append_assoc,
}
use new_api_gateway.Text.{Bytes}
use new_api_gateway.Gateway.Tunnel.{
  Phase, reading, writing, closing_peer, closing_own, done, Pipe, Tunnel, View, Move, read,
  read_end, read_closed, written, write_failed, close_peer, close_own, client_view, upstream_view,
  Step, client_step, upstream_step,
}

-- The steps that a goroutine has left, at most.
abbrev pub weight : Phase → ℕ
weight reading = 3
weight (writing chunk) = 4
weight closing_peer = 2
weight closing_own = 1
weight done = 0

abbrev pub left : Pipe → ℕ
left p = 2 * length p.input + weight p.phase

Move-left : (direction : String) (v w : View) → Move direction v w → left w.pipe + 1 ≤ left v.pipe
Move-left direction v _ (read chunk rest e i) = rw (e, i) (omega arith)
Move-left direction v _ (read_end e i h) = rw e (omega arith)
Move-left direction v _ (read_closed e h) = rw e (omega arith)
Move-left direction v _ (written chunk e h k) = rw e (omega arith)
Move-left direction v _ (write_failed chunk e h) = rw e (omega arith)
Move-left direction v _ (close_peer e) = rw e (omega arith)
Move-left direction v _ (close_own e) = rw e (omega arith)

-- Which connections a goroutine has closed by its phase.
abbrev pub Closed : Bool → Bool → Phase → Type 0
Closed own peer reading = Unit
Closed own peer (writing chunk) = Unit
Closed own peer closing_peer = Unit
Closed own peer closing_own = peer ≡ true
Closed own peer done = (own ≡ true) × (peer ≡ true)

Closed-mono :
    (own peer own' peer' : Bool) (phase : Phase)
    → (own ≡ true → own' ≡ true)
    → (peer ≡ true → peer' ≡ true)
    → Closed own peer phase
    → Closed own' peer' phase
Closed-mono own peer own' peer' reading f g h = tt
Closed-mono own peer own' peer' (writing chunk) f g h = tt
Closed-mono own peer own' peer' closing_peer f g h = tt
Closed-mono own peer own' peer' closing_own f g h = g h
Closed-mono own peer own' peer' done f g (h, k) = (f h, g k)

-- What a step does to the connections: none is opened again, and the goroutine has closed its own.
record Closes (v w : View) : Type 0 where
  own : v.own ≡ true → w.own ≡ true
  peer : v.peer ≡ true → w.peer ≡ true
  mine : Closed v.own v.peer v.pipe.phase → Closed w.own w.peer w.pipe.phase

Move-Closes : (direction : String) (v w : View) → Move direction v w → Closes v w
Move-Closes direction v _ (read chunk rest e i) = record {
  own = λ h. h;
  peer = λ h. h;
  mine = λ h. tt;
}
Move-Closes direction v _ (read_end e i h) = record { own = λ h. h; peer = λ h. h; mine = λ h. tt }
Move-Closes direction v _ (read_closed e h) = record { own = λ h. h; peer = λ h. h; mine = λ h. tt }
Move-Closes direction v _ (written chunk e h k) = record {
  own = λ h. h;
  peer = λ h. h;
  mine = λ h. tt;
}
Move-Closes direction v _ (write_failed chunk e h) = record {
  own = λ h. h;
  peer = λ h. h;
  mine = λ h. tt;
}
Move-Closes direction v _ (close_peer e) = record {
  own = λ h. h;
  peer = λ h. refl;
  mine = λ h. refl;
}
Move-Closes direction v _ (close_own e) = record {
  own = λ h. refl;
  peer = λ h. h;
  mine = λ h. (refl, rw e at h);
}

-- How far the chunks of the source have come, by the phase.
abbrev pub Delivered : List Bytes → List Bytes → List Bytes → Phase → Type 0
Delivered sent output input reading = sent ≡ output ++ input
Delivered sent output input (writing chunk) = sent ≡ output ++ chunk ∷ input
Delivered sent output input _ = (rest : List Bytes) × (sent ≡ output ++ rest)

abbrev pub DeliveredBy : List Bytes → Pipe → Type 0
DeliveredBy sent p = Delivered sent p.output p.input p.phase

pub Delivered-prefix :
    (sent output input : List Bytes) (phase : Phase)
    → Delivered sent output input phase
    → (rest : List Bytes) × (sent ≡ output ++ rest)
Delivered-prefix sent output input reading h = (input, h)
Delivered-prefix sent output input (writing chunk) h = (chunk ∷ input, h)
Delivered-prefix sent output input closing_peer h = h
Delivered-prefix sent output input closing_own h = h
Delivered-prefix sent output input done h = h

Move-Delivered :
    (direction : String) (sent : List Bytes) (v w : View)
    → Move direction v w
    → DeliveredBy sent v.pipe
    → DeliveredBy sent w.pipe
Move-Delivered direction sent v _ (read chunk rest e i) d = rw (e, i) at d
Move-Delivered direction sent v _ (read_end e i h) d =
    Delivered-prefix sent v.pipe.output v.pipe.input v.pipe.phase d
Move-Delivered direction sent v _ (read_closed e h) d =
    Delivered-prefix sent v.pipe.output v.pipe.input v.pipe.phase d
Move-Delivered direction sent v _ (written chunk e h k) d =
    (rw e at d) ∙ sym (append_assoc v.pipe.output (chunk ∷ []) v.pipe.input)
Move-Delivered direction sent v _ (write_failed chunk e h) d =
    Delivered-prefix sent v.pipe.output v.pipe.input v.pipe.phase d
Move-Delivered direction sent v _ (close_peer e) d =
    Delivered-prefix sent v.pipe.output v.pipe.input v.pipe.phase d
Move-Delivered direction sent v _ (close_own e) d =
    Delivered-prefix sent v.pipe.output v.pipe.input v.pipe.phase d

Move-ends : (direction : String) (v w : View) → Move direction v w → w.pipe.ends ≡ v.pipe.ends
Move-ends direction v _ (read chunk rest e i) = refl
Move-ends direction v _ (read_end e i h) = refl
Move-ends direction v _ (read_closed e h) = refl
Move-ends direction v _ (written chunk e h k) = refl
Move-ends direction v _ (write_failed chunk e h) = refl
Move-ends direction v _ (close_peer e) = refl
Move-ends direction v _ (close_own e) = refl

Move-taken : (direction : String) (v w : View) → Move direction v w → w.pipe.taken ≡ v.pipe.taken
Move-taken direction v _ (read chunk rest e i) = refl
Move-taken direction v _ (read_end e i h) = refl
Move-taken direction v _ (read_closed e h) = refl
Move-taken direction v _ (written chunk e h k) = refl
Move-taken direction v _ (write_failed chunk e h) = refl
Move-taken direction v _ (close_peer e) = refl
Move-taken direction v _ (close_own e) = refl

-- The invariant of a tunnel between sides that send these chunks and end or not, with so many steps done.
pub record Kept (client upstream : List Bytes)
    (client_ends upstream_ends client_taken upstream_taken : Bool) (n : ℕ) (t : Tunnel)
    : Type 0 where
  pub bounded :
      n + left t.from_client + left t.from_upstream ≤ 2 * length client + 2 * length upstream + 6
  pub client_closes : Closed t.client_closed t.upstream_closed t.from_client.phase
  pub upstream_closes : Closed t.upstream_closed t.client_closed t.from_upstream.phase
  pub to_upstream : DeliveredBy client t.from_client
  pub to_client : DeliveredBy upstream t.from_upstream
  pub same_client : t.from_client.ends ≡ client_ends
  pub same_upstream : t.from_upstream.ends ≡ upstream_ends
  pub still_client : t.from_client.taken ≡ client_taken
  pub still_upstream : t.from_upstream.taken ≡ upstream_taken

module _ (client upstream : List Bytes)
    (client_ends upstream_ends client_taken upstream_taken : Bool) where
  pub Step-Kept :
      (n : ℕ) (t u : Tunnel)
      → Kept client upstream client_ends upstream_ends client_taken upstream_taken n t
      → Step t u
      → Kept client upstream client_ends upstream_ends client_taken upstream_taken (suc n) u
  Step-Kept n t _ k (client_step {v = v} m) =
      let c = Move-Closes "client" (client_view t) v m in
      record {
        bounded = omega (arith, k.bounded, Move-left "client" (client_view t) v m);
        client_closes = c.mine k.client_closes;
        upstream_closes =
            Closed-mono t.upstream_closed t.client_closed v.peer v.own t.from_upstream.phase c.peer
              c.own k.upstream_closes;
        to_upstream = Move-Delivered "client" client (client_view t) v m k.to_upstream;
        to_client = k.to_client;
        same_client = Move-ends "client" (client_view t) v m ∙ k.same_client;
        same_upstream = k.same_upstream;
        still_client = Move-taken "client" (client_view t) v m ∙ k.still_client;
        still_upstream = k.still_upstream;
      }
  Step-Kept n t _ k (upstream_step {v = v} m) =
      let c = Move-Closes "upstream" (upstream_view t) v m in
      record {
        bounded = omega (arith, k.bounded, Move-left "upstream" (upstream_view t) v m);
        client_closes =
            Closed-mono t.client_closed t.upstream_closed v.peer v.own t.from_client.phase c.peer
              c.own k.client_closes;
        upstream_closes = c.mine k.upstream_closes;
        to_upstream = k.to_upstream;
        to_client = Move-Delivered "upstream" upstream (upstream_view t) v m k.to_client;
        same_client = k.same_client;
        same_upstream = Move-ends "upstream" (upstream_view t) v m ∙ k.same_upstream;
        still_client = k.still_client;
        still_upstream = Move-taken "upstream" (upstream_view t) v m ∙ k.still_upstream;
      }
