-- ===== src/EchoServer/System/Stops.antt =====
-- A stop of the server comes to every connection in its table that is alive.
use boost_beast_websocket_ec.Prelude.{
  is_error, ℕ, zero, suc, ◌≤◌, ◌<◌, ◌≡◌, refl, ap, sym, subst, inl, inr, Bool, true, some, List, [],
  ◌∷◌, length, arith,
}
use boost_beast_websocket_ec.Prelude.Table.{occurrences}
use boost_beast_websocket_ec.EchoServer.Connection.{Connection, closing, connection_impl}
use boost_beast_websocket_ec.EchoServer.Server.{handle_stop as server_stop, stop_all, Call}
use boost_beast_websocket_ec.EchoServer.Server.Laws as ServerLaws
use boost_beast_websocket_ec.EchoServer.System.{
  System, peer_at, server_goes, serve, step, Leads, stays, goes, started,
}
use boost_beast_websocket_ec.EchoServer.System.Calls.{
  calls_of, Stops, Stops-append_right, stop_all-Stops,
}
use boost_beast_websocket_ec.EchoServer.System.Embeds.{Embeds, serve-calls}
use boost_beast_websocket_ec.EchoServer.System.Reached.{step-Embeds, system-Embeds, Leads-Embeds}
use boost_beast_websocket_ec.EchoServer.System.Told.{Told, Peer-closing}
use boost_beast_websocket_ec.EchoServer.System.Stopping.{IsTold, either_peers, step-IsTold}

Leads-IsTold : (p : ℕ) (x z : System) → Leads x z → Embeds x → IsTold p x → IsTold p z
Leads-IsTold p x z stays v t = t
Leads-IsTold p x z (goes {y = y} e z' path en st) v t =
    step-IsTold p y e z' (Leads-Embeds x y path v) st (Leads-IsTold p x y path v t)

peer_at-some :
    (p : ℕ) (cs : List Connection) → p < length cs → (c : Connection) × (peer_at p cs ≡ some c)
peer_at-some p [] h = absurd (omega arith)
peer_at-some zero (c ∷ cs) h = (c, refl)
peer_at-some (suc p) (c ∷ cs) h = peer_at-some p cs (omega arith)

-- A connection of the table that is alive is told of a stop.
stop-IsTold :
    (p : ℕ) (x : System) (alive : ℕ → Bool)
    → Embeds x
    → alive p ≡ true
    → 1 ≤ occurrences p x.server.connections
    → IsTold p (serve x (ServerLaws.stopped alive))
unfolding serve ServerLaws.step server_stop
stop-IsTold p x alive v a h =
    let made = (ServerLaws.server-IsValid v.reached).distinct p in
    let (c, stands) = peer_at-some p x.peers (ground (arith, v.numbered)) in
    record {
      peer = c;
      stands = either_peers _ p x.peers (connection_impl ∷ []) stands;
      told =
          subst (Told c)
            (sym (
              serve-calls x (ServerLaws.stopped alive) (stop_all alive x.server.connections) p
                refl))
            (inr (
              Stops-append_right (calls_of p x.pending) _
                (stop_all-Stops alive p x.server.connections a h)));
    }

Told-closes : (c : Connection) (cs : List Call) → cs ≡ [] → Told c cs → c.state ≡ closing
Told-closes c cs e (inl h) = h
Told-closes c cs e (inr h) = absurd (subst Stops e h)

-- In every state that the server and its connections reach together, after a stop of the server, and
-- with whatever order of further events and no failed assertion: once no call is pending, every
-- connection that stood in the table at the stop and was alive is closing, with its error set.
pub stop_closes :
    {x z : System} (p : ℕ) (alive : ℕ → Bool)
    → Leads started x
    → alive p ≡ true
    → 1 ≤ occurrences p x.server.connections
    → Leads (serve x (ServerLaws.stopped alive)) z
    → z.pending ≡ []
    → (c : Connection) × ((peer_at p z.peers ≡ some c)
        × (c.state ≡ closing)
        × (is_error c.ec ≡ true))
unfolding step calls_of
stop_closes {x} {z} p alive path a h after none_left =
    let v = system-Embeds path in
    let stopped = serve x (ServerLaws.stopped alive) in
    let stopped_v = step-Embeds x (server_goes (ServerLaws.stopped alive)) stopped v refl refl in
    let t = Leads-IsTold p stopped z after stopped_v (stop-IsTold p x alive v a h) in
    let shut = Told-closes t.peer (calls_of p z.pending) (ap (calls_of p) none_left) t.told in
    let v' = Leads-Embeds stopped z after stopped_v in
    let failed = Peer-closing t.peer (calls_of p z.pending) (v'.each p t.peer t.stands) shut in
    (t.peer, (t.stands, shut, failed))
