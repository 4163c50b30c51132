-- ===== src/Blog/Transport/Tests.antt =====
-- A transport that comes up and subscribes, and one whose TLS handshake fails.
use boost_beast_websocket_ec.Prelude.{
  ◌≡◌, refl, true, none, some, [], ◌∷◌, success, closed, Returns,
}
use boost_beast_websocket_ec.Prelude.Text.{Text, codes}
use boost_beast_websocket_ec.Blog.Transport.{
  Fmex, sending, ping_wait, connecting, connected, finished, ssl_handshaking, websocket_handshaking,
  Parsed, hello, fmex_connection, start, connect_op, handle_read,
}
use boost_beast_websocket_ec.Blog.Transport.Steps.{
  starts, connect_done, received, step, Reach, fresh, next,
}
use boost_beast_websocket_ec.Blog.Transport.Laws.{
  IsValid, step_keeps, transport-IsValid, finished_comes_up,
}

-- every frame reads as the greeting
abbrev parse : Text → Parsed
parse frame = hello

abbrev subscribe : Text
subscribe = codes "sub"

handshaking : Fmex
unfolding fmex_connection
handshaking = record fmex_connection { state = connecting; stage = some ssl_handshaking }

handshaking-Reach : Reach parse subscribe handshaking
unfolding handshaking step start connect_op
handshaking-Reach =
    next (connect_done none success) _
      (next (connect_done none success) _ (next starts _ fresh refl refl) refl refl) refl refl

finished_comes_up_example :
    Returns
      (λ c'.
        (c'.state ≡ finished)
        × (c'.errors ≡ 1)
        × (c'.stage ≡ some websocket_handshaking)
        × Returns
            (λ d. (d.state ≡ connected) × (d.errors ≡ 1) × (d.reads ≡ 1))
            (step parse subscribe c' (connect_done none success)))
      (step parse subscribe handshaking (connect_done none closed))
unfolding handshaking
finished_comes_up_example =
    finished_comes_up parse subscribe none handshaking closed
      (transport-IsValid _ _ handshaking-Reach) refl refl refl

-- The greeting has arrived, and the subscription is being written.
subscribed : Fmex
unfolding fmex_connection
subscribed = record fmex_connection {
  state = connected;
  send_state = sending;
  send_queue = subscribe ∷ [];
  ping_state = ping_wait;
  reads = 1;
  writes = subscribe ∷ [];
  waits = 1;
}

subscribed-Reach : Reach parse subscribe subscribed
unfolding subscribed handshaking step connect_op handle_read
subscribed-Reach =
    next (received success (codes "{}") true) _
      (next (connect_done none success) _
        (next (connect_done none success) _ handshaking-Reach refl refl) refl refl)
      refl refl

transport-IsValid_case : IsValid subscribed
transport-IsValid_case = transport-IsValid parse subscribe subscribed-Reach

step_keeps_example : Returns IsValid (step parse subscribe handshaking (connect_done none closed))
unfolding handshaking
step_keeps_example =
    step_keeps parse subscribe handshaking (connect_done none closed)
      (transport-IsValid _ _ handshaking-Reach) refl (λ e. cc)
