-- ===== src/Gateway/Tunnel/Tests.antt =====
-- A tunnel whose client sends one chunk and ends, while the upstream stays silent.
use new_api_gateway.Prelude.{true, false, [], ◌∷◌, refl}
use new_api_gateway.Gateway.WebsocketLog.{BoundedLog, new_bounded_websocket_log, write}
use new_api_gateway.Gateway.Tunnel.{
  Tunnel, done, closing_peer, read, read_end, written, close_peer, close_own, read_closed,
  client_step, upstream_step, Steps, at_start, and_step, pipe_of, start,
}
use new_api_gateway.Gateway.Tunnel.Ends.{Conduct, Steps-Conduct}

abbrev log : BoundedLog
log = new_bounded_websocket_log 100

abbrev begun : Tunnel
begun = start (pipe_of ((1 ∷ []) ∷ []) true true) (pipe_of [] false false) log

-- The client's chunk is written, its end is read, both connections are closed, and the other reader sees it.
abbrev ended : Tunnel
ended = record {
  from_client = record {
    input = [];
    ends = true;
    taken = true;
    phase = done;
    output = (1 ∷ []) ∷ [];
  };
  from_upstream = record {
    input = [];
    ends = false;
    taken = false;
    phase = closing_peer;
    output = [];
  };
  client_closed = true;
  upstream_closed = true;
  log = write log ("client", 1 ∷ []);
}

run : Steps begun 6 ended
run =
    and_step
      (and_step
        (and_step
          (and_step
            (and_step (and_step at_start (client_step (read (1 ∷ []) [] refl refl)))
              (client_step (written (1 ∷ []) refl refl refl)))
            (client_step (read_end refl refl refl)))
          (client_step (close_peer refl)))
        (client_step (close_own refl)))
      (upstream_step (read_closed refl refl))

Steps-Conduct_example : Conduct ((1 ∷ []) ∷ []) [] true false true false 6 ended
Steps-Conduct_example = Steps-Conduct ((1 ∷ []) ∷ []) [] true false true false log 6 ended run
