-- ===== src/EchoServer/System/Told.antt =====
-- A stop that is pending for a connection closes it.
use boost_beast_websocket_ec.Prelude.{is_error, true, ◌≡◌, ◌⊎◌, inl, inr, List, ◌∷◌, done, arith}
use boost_beast_websocket_ec.EchoServer.Connection.{
  Connection, closing, connection_impl, handle_accept, handle_send, handle_rx, handle_tx,
  handle_stop, handle_timer,
}
use boost_beast_websocket_ec.EchoServer.Connection.Steps as ConnectionSteps
use boost_beast_websocket_ec.EchoServer.Connection.Invariant.{IsValid}
use boost_beast_websocket_ec.EchoServer.Connection.Safety.{Reach-IsValid}
use boost_beast_websocket_ec.EchoServer.Server.{Call, runs, stops, sends}
use boost_beast_websocket_ec.EchoServer.Server.Laws as ServerLaws
use boost_beast_websocket_ec.EchoServer.System.Calls.{Stops}
use boost_beast_websocket_ec.EchoServer.System.Peers.{Ran, Peer}

-- A connection that closes does so for good.
step-closing :
    (c : Connection) (e : ConnectionSteps.Event) (c' : Connection)
    → IsValid c
    → ConnectionSteps.step c e ≡ done c'
    → c.state ≡ closing
    → c'.state ≡ closing
unfolding ConnectionSteps.step handle_stop handle_send handle_accept handle_rx handle_tx
    handle_timer
step-closing c (ConnectionSteps.sends m) c' v st h = ground arith
step-closing c ConnectionSteps.stops c' v st h = ground arith
step-closing c (ConnectionSteps.accepted ec) c' v st h = ground arith
step-closing c (ConnectionSteps.received ec bytes) c' v st h = ground arith
step-closing c (ConnectionSteps.wrote ec) c' v st h = ground arith
step-closing c (ConnectionSteps.timed ec) c' v st h = ground arith

Ran-IsValid : (c : Connection) → Ran c → IsValid c
Ran-IsValid c (qs, (ws, (n, r))) = Reach-IsValid r

new_not_closing : (c : Connection) → c ≡ connection_impl → c.state ≡ closing → ⊥
unfolding connection_impl
new_not_closing c e h = ground arith

-- A connection is closing, or a stop is pending for it.
abbrev pub Told : Connection → List Call → Type 0
Told c cs = (c.state ≡ closing) ⊎ Stops cs

pub Told-performs :
    (c : Connection) (call : Call) (cs : List Call) (c' : Connection)
    → Peer c (call ∷ cs)
    → ServerLaws.perform c call ≡ done c'
    → Told c (call ∷ cs)
    → Told c' cs
unfolding ServerLaws.perform ConnectionSteps.step handle_stop
Told-performs c runs cs c' (inl (e, h)) st (inl k) = absurd (new_not_closing c e k)
Told-performs c runs cs c' (inl (e, h)) st (inr k) = inr k
Told-performs c runs cs c' (inr (r, h)) st k = absurd h
Told-performs c stops cs c' peer st k = inl (ground arith)
Told-performs c (sends m) cs c' (inl (e, h)) st k = absurd h
Told-performs c (sends m) cs c' (inr (r, h)) st (inl k) =
    inl (step-closing c (ConnectionSteps.sends m) c' (Ran-IsValid c r) st k)
Told-performs c (sends m) cs c' (inr (r, h)) st (inr k) = inr k

pub Told-goes :
    (c : Connection) (e : ConnectionSteps.Event) (cs : List Call) (c' : Connection)
    → Peer c cs
    → ConnectionSteps.step c e ≡ done c'
    → Told c cs
    → Told c' cs
Told-goes c e cs c' peer st (inr k) = inr k
Told-goes c e cs c' (inl (q, h)) st (inl k) = absurd (new_not_closing c q k)
Told-goes c e cs c' (inr (r, h)) st (inl k) = inl (step-closing c e c' (Ran-IsValid c r) st k)

-- A connection that closes has its error set.
pub Peer-closing :
    (c : Connection) (cs : List Call) → Peer c cs → c.state ≡ closing → is_error c.ec ≡ true
Peer-closing c cs (inl (e, h)) k = absurd (new_not_closing c e k)
Peer-closing c cs (inr (r, h)) k = ground (arith, (Ran-IsValid c r).stopped)
