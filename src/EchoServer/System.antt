-- ===== src/EchoServer/System.antt =====
-- The server with its connections. What the server calls on a connection is dispatched to the executor
-- that they share: it is performed at once or later, in the order of the calls.
pub mod Calls
pub mod Peers
pub mod Embeds
pub mod Reached
pub mod Performs
pub mod Told
pub mod Stopping
pub mod Stops
mod Tests
use boost_beast_websocket_ec.Prelude.{
  ℕ, zero, suc, ◌≡◌, Bool, true, false, ◌&&◌, Option, none, some, List, [], ◌∷◌, ◌++◌, Outcome,
  done, ◌>>=◌, if◌then◌else◌, length, drop, ltb,
}
use boost_beast_websocket_ec.EchoServer.Connection.{Connection, connection_impl}
use boost_beast_websocket_ec.EchoServer.Connection.Steps as ConnectionSteps
use boost_beast_websocket_ec.EchoServer.Server.{Server, Call, server, handle_run}
use boost_beast_websocket_ec.EchoServer.Server.Laws as ServerLaws

-- `peers` are the connections made, by their numbers; `pending` the calls not yet performed.
pub record System : Type 0 where
  pub server : Server
  pub peers : List Connection
  pub pending : List (ℕ × Call)

abbrev pub peer_at : ℕ → List Connection → Option Connection
peer_at p [] = none
peer_at zero (c ∷ cs) = some c
peer_at (suc p) (c ∷ cs) = peer_at p cs

abbrev pub set_peer : ℕ → Connection → List Connection → List Connection
set_peer p c [] = []
set_peer zero c (d ∷ ds) = c ∷ ds
set_peer (suc p) c (d ∷ ds) = d ∷ set_peer p c ds

pub data Event : Type 0 where
  server_goes : ServerLaws.Event → Event
  -- the first pending call is performed
  performs : Event
  -- an operation of a connection completes
  peer_goes : ℕ → ConnectionSteps.Event → Event

-- The calls of a connection's functions come from the server only.
abbrev pub is_own : ConnectionSteps.Event → Bool
is_own (ConnectionSteps.sends m) = false
is_own ConnectionSteps.stops = false
is_own (ConnectionSteps.accepted ec) = true
is_own (ConnectionSteps.received ec bytes) = true
is_own (ConnectionSteps.wrote ec) = true
is_own (ConnectionSteps.timed ec) = true

abbrev pub peer_enabled : ConnectionSteps.Event → Option Connection → Bool
peer_enabled e none = false
peer_enabled e (some c) = is_own e && ConnectionSteps.enabled c e

abbrev pub enabled : System → Event → Bool
enabled x (server_goes e) = ServerLaws.enabled x.server e
enabled x performs = true
enabled x (peer_goes p e) = peer_enabled e (peer_at p x.peers)

-- A connection is made where the server's counter goes up.
unfoldable pub serve : System → ServerLaws.Event → System
unfolding ServerLaws.step
serve x e =
    let s = ServerLaws.step x.server e in
    record {
      server = s;
      peers = if ltb x.server.created s.created then x.peers ++ connection_impl ∷ [] else x.peers;
      pending = x.pending ++ drop (length x.server.calls) s.calls;
    }

abbrev pub change_found :
    (Connection → Outcome Connection) → ℕ → System → Option Connection → Outcome System
change_found f p x none = done x
change_found f p x (some c) = do c' ← f c; done (record x { peers = set_peer p c' x.peers })

abbrev pub change_peer : (Connection → Outcome Connection) → ℕ → System → Outcome System
change_peer f p x = change_found f p x (peer_at p x.peers)

unfoldable pub perform_first : List (ℕ × Call) → System → Outcome System
unfolding ServerLaws.perform
perform_first [] x = done x
perform_first ((p, call) ∷ cs) x =
    change_peer (λ c. ServerLaws.perform c call) p (record x { pending = cs })

unfoldable pub step : System → Event → Outcome System
unfolding serve perform_first ConnectionSteps.step
step x (server_goes e) = done (serve x e)
step x performs = perform_first x.pending x
step x (peer_goes p e) = change_peer (λ c. ConnectionSteps.step c e) p x

-- The states that any order of events leads to from a state with no failed assertion.
pub data Leads : System → System → Type 0 where
  stays : {x : System} → Leads x x
  goes :
      {x y : System} (e : Event) (z : System)
      → Leads x y
      → enabled y e ≡ true
      → step y e ≡ done z
      → Leads x z

unfoldable pub started : System
unfolding handle_run server
started = record { server = handle_run server; peers = []; pending = [] }
