-- ===== src/Gateway/WebsocketLog/Tests.antt =====
-- Tests of the bounded log, and its theorem at concrete frames.
use new_api_gateway.Prelude.{[], ◌∷◌, ◌≡◌, refl, take}
use new_api_gateway.Gateway.WebsocketLog.{new_bounded_websocket_log, write_all, write, append_line}
use new_api_gateway.Gateway.WebsocketLog.Prefix.{lines_of, new_bounded_websocket_log-take}

two_frames :
    (write_all
      (new_bounded_websocket_log 10)
      (("client", 120 ∷ []) ∷ ("upstream", 121 ∷ []) ∷ [])).buf
    ≡ 99 ∷ 108 ∷ 105 ∷ 101 ∷ 110 ∷ 116 ∷ 32 ∷ 120 ∷ 10 ∷ 117 ∷ []
unfolding write_all write append_line new_bounded_websocket_log
two_frames = refl

new_bounded_websocket_log-take_example :
    (write_all (new_bounded_websocket_log 10) (("client", 120 ∷ []) ∷ [])).buf
    ≡ take (new_bounded_websocket_log 10).limit (lines_of (("client", 120 ∷ []) ∷ []))
new_bounded_websocket_log-take_example =
    new_bounded_websocket_log-take 10 (("client", 120 ∷ []) ∷ [])
