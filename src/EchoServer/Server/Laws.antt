-- ===== src/EchoServer/Server/Laws.antt =====
-- What holds of the server over every sequence of completions and stops, and what a new connection
-- gets from it.
use boost_beast_websocket_ec.Prelude.{
  ℕ, ◌+◌, ◌-◌, ◌≤◌, ◌<◌, ◌≡◌, refl, Bool, true, false, List, [], ◌∷◌, ◌++◌, ErrorCode, success,
  is_error, if◌then◌else◌, length, ltb, ◌==◌, arith, Outcome, done, Returns, ◌>>=◌, some, ==_iff,
}
use boost_beast_websocket_ec.Prelude.Endpoint.{Endpoint, same_endpoint}
use boost_beast_websocket_ec.Prelude.Table.{
  Table, lookup, lookup-assign, occurrences, occurrences-assign,
}
use boost_beast_websocket_ec.EchoServer.Connection
use boost_beast_websocket_ec.EchoServer.Connection.{Connection, CloseReason, going_away}
use boost_beast_websocket_ec.EchoServer.Server.{
  Server, Call, runs, stops, sends, server, handle_run, handle_accept, handle_stop, greetings,
  send_all, stop_all,
}

pub data Event : Type 0 where
  accepted : ErrorCode → Endpoint → Event
  stopped : (ℕ → Bool) → Event

abbrev pub enabled : Server → Event → Bool
enabled s (accepted ec ep) = ltb 0 s.accepts
enabled s (stopped alive) = true

unfoldable pub step : Server → Event → Server
step s (accepted ec ep) = handle_accept (record s { accepts = s.accepts - 1 }) ec ep
step s (stopped alive) = handle_stop alive s

-- The servers that a run reaches.
pub data Reach : Server → Type 0 where
  start : Reach (handle_run server)
  next : {s : Server} (e : Event) → Reach s → enabled s e ≡ true → Reach (step s e)

pub record IsValid (s : Server) : Type 0 where
  pub one_accept : s.accepts ≤ 1
  pub stopped_empty : is_error s.ec ≡ true → s.connections ≡ []
  -- no connection stands in the table twice, and those not yet made do not stand in it
  pub distinct : (p : ℕ) → occurrences p s.connections ≤ (if ltb p s.created then 1 else 0)

handle_accept-IsValid :
    (s : Server) (ec : ErrorCode) (ep : Endpoint)
    → 0 < s.accepts
    → IsValid s
    → IsValid (step s (accepted ec ep))
unfolding step handle_accept
handle_accept-IsValid s ec ep a v = record {
  one_accept = ground (arith, v.one_accept);
  stopped_empty = λ h. ground (arith, v.stopped_empty);
  distinct = λ p. ground (arith, v.distinct p, occurrences-assign p ep s.created s.connections);
}

step-IsValid : (s : Server) (e : Event) → IsValid s → enabled s e ≡ true → IsValid (step s e)
unfolding step handle_stop
step-IsValid s (accepted ec ep) v en = handle_accept-IsValid s ec ep (ground arith) v
step-IsValid s (stopped alive) v en = record {
  one_accept = v.one_accept;
  stopped_empty = λ h. refl;
  distinct = λ p. ground arith;
}

-- Whatever completes and whenever the server is stopped: one accept at most is going on, a stopped
-- server keeps no connection, and no connection stands in the table twice.
pub server-IsValid : {s : Server} → Reach s → IsValid s
unfolding handle_run server
server-IsValid start = record {
  one_accept = omega arith;
  stopped_empty = λ h. refl;
  distinct = λ p. omega arith;
}
server-IsValid (next {s = s} e reach en) = step-IsValid s e (server-IsValid reach) en

-- The accept that completes with a socket is followed by another one, and the new connection is
-- found under its endpoint, every other one where it was; it is run, and then greeted.
pub accepted_serves :
    (s : Server) (ep other : Endpoint)
    → is_error s.ec ≡ false
    → 0 < s.accepts
    → let s' = step s (accepted success ep) in
      (s'.accepts ≡ s.accepts)
      × (lookup other s'.connections
          ≡ (if same_endpoint ep other then some s.created else lookup other s.connections))
      × (s'.calls
          ≡ s.calls
            ++ (s.created, runs) ∷ send_all s.created (greetings ep (length s'.connections)))
unfolding step handle_accept
accepted_serves s ep other up a = ground (arith, lookup-assign ep other s.created s.connections)

-- How often `p` is stopped in a list of calls.
abbrev pub stops_of : ℕ → List (ℕ × Call) → ℕ
stops_of p [] = 0
stops_of p ((q, runs) ∷ cs) = stops_of p cs
stops_of p ((q, stops) ∷ cs) = (if p == q then 1 else 0) + stops_of p cs
stops_of p ((q, sends m) ∷ cs) = stops_of p cs

stops_of-append :
    (p : ℕ) (cs ds : List (ℕ × Call)) → stops_of p (cs ++ ds) ≡ stops_of p cs + stops_of p ds
stops_of-append p [] ds = omega arith
stops_of-append p ((q, runs) ∷ cs) ds = stops_of-append p cs ds
stops_of-append p ((q, stops) ∷ cs) ds = omega (arith, stops_of-append p cs ds)
stops_of-append p ((q, sends m) ∷ cs) ds = stops_of-append p cs ds

stops_of-stop_all :
    (alive : ℕ → Bool) (p : ℕ) (t : Table)
    → stops_of p (stop_all alive t) ≡ (if alive p then occurrences p t else 0)
stops_of-stop_all alive p [] = ground arith
stops_of-stop_all alive p ((ep, q) ∷ t) = ground (arith, stops_of-stop_all alive p t, ==_iff p q)

-- A stop reaches every connection of the table that is still alive, each exactly once, and no
-- other; afterwards the server takes no notice of what its acceptor completes.
pub stop_reaches_all :
    (alive : ℕ → Bool) (s : Server) (p : ℕ) (ec : ErrorCode) (ep : Endpoint)
    → Reach s
    → let s' = step s (stopped alive) in
      (stops_of p s'.calls
        ≡ stops_of p s.calls + (if alive p then occurrences p s.connections else 0))
      × (occurrences p s.connections ≤ 1)
      × (step s' (accepted ec ep) ≡ record s' { accepts = s'.accepts - 1 })
unfolding step handle_stop handle_accept
stop_reaches_all alive s p ec ep reach = ground (
  arith,
  stops_of-append p s.calls (stop_all alive s.connections),
  stops_of-stop_all alive p s.connections,
  (server-IsValid reach).distinct p,
)

-- What the connection does when the server calls it on its own executor.
unfoldable pub perform : Connection → Call → Outcome Connection
perform c runs = Connection.handle_run c
perform c stops = done (Connection.handle_stop c (going_away []))
perform c (sends m) = Connection.handle_send c m

pub perform_all : Connection → List (ℕ × Call) → Outcome Connection
unfolding perform
perform_all c [] = done c
perform_all c ((p, call) ∷ cs) = perform c call >>= λ c'. perform_all c' cs

-- The calls for a new connection leave it in its handshake, with the timer started and the four
-- greetings queued in order, none of them being written yet.
pub greeting_waits :
    (p n : ℕ) (ep : Endpoint)
    → Returns
        (λ c.
          (c.tx_queue ≡ greetings ep n)
          × (c.writes ≡ [])
          × (c.accepts ≡ 1)
          × (c.waits ≡ 1)
          × (c.state ≡ Connection.handshaking))
        (perform_all Connection.connection_impl ((p, runs) ∷ send_all p (greetings ep n)))
unfolding perform_all Connection.connection_impl Connection.handle_run Connection.handle_send
greeting_waits p n ep = ground arith
