-- ===== src/Gateway/Tunnel.antt =====
-- internal/gateway/proxy.go: `copyBidirectional`, the two goroutines of a websocket tunnel, whose steps come in
-- any order. A read waits until there is data, the end of the data, or the end of its connection. A write has
-- no deadline: it returns, with or without an error, unless the other side takes nothing, and then it waits
-- until its connection is closed.

pub mod Kept
pub mod Ends
mod Tests
use new_api_gateway.Prelude.{ℕ, suc, String, Bool, true, false, List, [], ◌∷◌, ◌++◌, ◌≡◌, ◌⊎◌}
use new_api_gateway.Text.{Bytes}
use new_api_gateway.Gateway.WebsocketLog.{BoundedLog, write}

-- Where a goroutine is: in `io.Copy`, which reads a chunk and then writes it, behind it at one of the two calls
-- of `Close`, or past `wg.Done`.
pub data Phase : Type 0 where
  reading : Phase
  writing : Bytes → Phase
  closing_peer : Phase
  closing_own : Phase
  done : Phase

-- A goroutine: what is to come from its source in chunks, whether the source ends behind these or stays
-- silent, whether writes to its destination return, and what it has written there.
pub record Pipe : Type 0 where
  pub input : List Bytes
  pub ends : Bool
  pub taken : Bool
  pub phase : Phase
  pub output : List Bytes

-- The two goroutines, with the two connections and the log that they share.
pub record Tunnel : Type 0 where
  pub from_client : Pipe
  pub from_upstream : Pipe
  pub client_closed : Bool
  pub upstream_closed : Bool
  pub log : BoundedLog

-- A goroutine as it finds the tunnel: `own` says whether its source is closed, `peer` whether its destination.
pub record View : Type 0 where
  pub pipe : Pipe
  pub own : Bool
  pub peer : Bool
  pub log : BoundedLog

abbrev pub at_phase : View → Phase → View
at_phase v phase = record v { pipe = record v.pipe { phase = phase } }

-- One step of a goroutine, whose chunks have the direction's name in the log. A closed source can still give
-- what has been buffered.
pub data Move (direction : String) (v : View) : View → Type 0 where
  read :
      (chunk : Bytes) (rest : List Bytes)
      → v.pipe.phase ≡ reading
      → v.pipe.input ≡ chunk ∷ rest
      → Move direction v (record v {
        pipe = record v.pipe { input = rest; phase = writing chunk };
        log = write v.log (direction, chunk);
      })
  read_end :
      v.pipe.phase ≡ reading
      → v.pipe.input ≡ []
      → v.pipe.ends ≡ true
      → Move direction v (at_phase v closing_peer)
  read_closed : v.pipe.phase ≡ reading → v.own ≡ true → Move direction v (at_phase v closing_peer)
  written :
      (chunk : Bytes)
      → v.pipe.phase ≡ writing chunk
      → v.peer ≡ false
      → v.pipe.taken ≡ true
      → Move direction v (record v {
        pipe = record v.pipe { output = v.pipe.output ++ chunk ∷ []; phase = reading };
      })
  write_failed :
      (chunk : Bytes)
      → v.pipe.phase ≡ writing chunk
      → (v.peer ≡ true) ⊎ (v.pipe.taken ≡ true)
      → Move direction v (at_phase v closing_peer)
  close_peer :
      v.pipe.phase ≡ closing_peer
      → Move direction v (record (at_phase v closing_own) { peer = true })
  close_own :
      v.pipe.phase ≡ closing_own → Move direction v (record (at_phase v done) { own = true })

-- The views of the two goroutines, and the tunnel behind a step of either.
abbrev pub client_view : Tunnel → View
client_view t = record {
  pipe = t.from_client;
  own = t.client_closed;
  peer = t.upstream_closed;
  log = t.log;
}

abbrev pub upstream_view : Tunnel → View
upstream_view t = record {
  pipe = t.from_upstream;
  own = t.upstream_closed;
  peer = t.client_closed;
  log = t.log;
}

abbrev pub with_client : Tunnel → View → Tunnel
with_client t v = record {
  from_client = v.pipe;
  from_upstream = t.from_upstream;
  client_closed = v.own;
  upstream_closed = v.peer;
  log = v.log;
}

abbrev pub with_upstream : Tunnel → View → Tunnel
with_upstream t v = record {
  from_client = t.from_client;
  from_upstream = v.pipe;
  client_closed = v.peer;
  upstream_closed = v.own;
  log = v.log;
}

pub data Step (t : Tunnel) : Tunnel → Type 0 where
  client_step : {v : View} → Move "client" (client_view t) v → Step t (with_client t v)
  upstream_step : {v : View} → Move "upstream" (upstream_view t) v → Step t (with_upstream t v)

-- So many steps, one after the other.
pub data Steps (t : Tunnel) : ℕ → Tunnel → Type 0 where
  at_start : Steps t 0 t
  and_step : {n : ℕ} {u w : Tunnel} → Steps t n u → Step u w → Steps t (suc n) w

-- The tunnel as `copyBidirectional` begins, with what the two sides will send and take.
abbrev pub pipe_of : List Bytes → Bool → Bool → Pipe
pipe_of input ends taken = record {
  input = input;
  ends = ends;
  taken = taken;
  phase = reading;
  output = [];
}

abbrev pub start : Pipe → Pipe → BoundedLog → Tunnel
start client upstream log = record {
  from_client = client;
  from_upstream = upstream;
  client_closed = false;
  upstream_closed = false;
  log = log;
}

-- `wg.Wait` returns, and both connections are closed.
pub record IsOver (t : Tunnel) : Type 0 where
  pub client_done : t.from_client.phase ≡ done
  pub upstream_done : t.from_upstream.phase ≡ done
  pub client_closed : t.client_closed ≡ true
  pub upstream_closed : t.upstream_closed ≡ true
