-- ===== src/Cxx20/Server/Laws.antt =====
-- How the accept loop ends, and how it compares with the callbacks of pre-cxx20/echo_server.
use boost_beast_websocket_ec.Prelude.{
  ℕ, ◌-◌, ◌≤◌, ◌≡◌, refl, ap, ◌∙◌, Bool, true, false, ◌&&◌, List, [], ◌∷◌, ◌++◌, ErrorCode, success,
  is_error, is_connection_aborted, length, ltb, arith, some, All,
}
use boost_beast_websocket_ec.Prelude.Endpoint.{Endpoint, same_endpoint_iff}
use boost_beast_websocket_ec.Prelude.Table.{lookup, lookup-assign}
use boost_beast_websocket_ec.EchoServer.Server as Echo
use boost_beast_websocket_ec.EchoServer.Server.{Call, runs, greetings, send_all, stop_all}
use boost_beast_websocket_ec.EchoServer.Server.Laws as EchoLaws
use boost_beast_websocket_ec.Cxx20.Server.{
  Server, server, Accepted, failed, lost, connected, handle_run, accepted, handle_stop,
}

pub data Event : Type 0 where
  accepts : Accepted → Event
  stopped : (ℕ → Bool) → Event

abbrev pub is_failure : Accepted → Bool
is_failure (failed ec) = is_error ec
is_failure (lost ec) = is_error ec
is_failure (connected ep) = true

-- An accept completes only if one has begun, and an exception carries an error.
abbrev pub enabled : Server → Event → Bool
enabled s (accepts r) = ltb 0 s.accepts && is_failure r
enabled s (stopped alive) = true

unfoldable pub step : Server → Event → Server
step s (accepts r) = accepted (record s { accepts = s.accepts - 1 }) r
step s (stopped alive) = handle_stop alive s

-- The servers that a run reaches.
pub data Reach : Server → Type 0 where
  start : Reach (handle_run server)
  next : {s : Server} (e : Event) → Reach s → enabled s e ≡ true → Reach (step s e)

one_accept : {s : Server} → Reach s → s.accepts ≤ 1
unfolding handle_run server step handle_stop accepted
one_accept start = omega arith
one_accept (next (accepts (failed ec)) reach en) = ground (arith, one_accept reach)
one_accept (next (accepts (lost ec)) reach en) = ground (arith, one_accept reach)
one_accept (next (accepts (connected ep)) reach en) = ground (arith, one_accept reach)
one_accept (next (stopped alive) reach en) = one_accept reach

-- The servers that further events lead to.
pub data Continues (s : Server) : Server → Type 0 where
  here : Continues s s
  onward : {t : Server} (e : Event) → Continues s t → enabled t e ≡ true → Continues s (step t e)

no_accept : {s t : Server} → s.accepts ≡ 0 → Continues s t → t.accepts ≡ 0
unfolding step handle_stop
no_accept z here = z
no_accept z (onward (accepts r) more en) = absurd (ground (arith, no_accept z more))
no_accept z (onward (stopped alive) more en) = no_accept z more

-- If the remote endpoint of an accepted socket cannot be read in a reached server, with any error but
-- connection_aborted, the server is not stopped by it and its table stays as it is, yet whatever
-- happens from then on, no accept is ever going on.
pub lost_client_ends :
    {s t : Server} (ec : ErrorCode)
    → Reach s
    → enabled s (accepts (lost ec)) ≡ true
    → is_connection_aborted ec ≡ false
    → Continues (step s (accepts (lost ec))) t
    → let s' = step s (accepts (lost ec)) in
      (s'.ec ≡ s.ec) × (s'.connections ≡ s.connections) × (t.accepts ≡ 0)
unfolding step accepted
lost_client_ends {s = s} ec reach en k more =
    (ground arith, ground arith, no_accept (ground (arith, one_accept reach)) more)

-- An accept that completes with a socket after the server has been stopped still makes a connection,
-- which is run and greeted, stands in the table, and is not told to stop; no accept follows.
pub late_accept_serves :
    {s : Server} (ep : Endpoint)
    → Reach s
    → is_error s.ec ≡ true
    → enabled s (accepts (connected ep)) ≡ true
    → let s' = step s (accepts (connected ep)) in
      (lookup ep s'.connections ≡ some s.created)
      × (s'.calls
          ≡ s.calls
            ++ (s.created, runs) ∷ send_all s.created (greetings ep (length s'.connections)))
      × (s'.accepts ≡ 0)
unfolding step accepted
late_accept_serves {s = s} ep reach stop en =
    ground (
      arith,
      one_accept reach,
      lookup-assign ep ep s.created s.connections,
      same_endpoint_iff ep ep,
    )

-- The members that both servers have.
abbrev pub as_callbacks : Server → Echo.Server
as_callbacks s = record {
  connections = s.connections;
  ec = s.ec;
  accepts = s.accepts;
  cancels = s.cancels;
  created = s.created;
  calls = s.calls;
}

-- An accept that does not lose its client, as the handler of the other server is given it.
pub data Result : Type 0 where
  error : ErrorCode → Result
  socket : Endpoint → Result

abbrev pub resumes : Result → Event
resumes (error ec) = accepts (failed ec)
resumes (socket ep) = accepts (connected ep)

abbrev pub is_result : Result → Bool
is_result (error ec) = is_error ec
is_result (socket ep) = true

pub coroutine_run : Server → List Result → Server
coroutine_run s [] = s
coroutine_run s (r ∷ rs) = coroutine_run (step s (resumes r)) rs

-- `nowhere` stands for the endpoint of a socket that there is not.
pub callback_event : Endpoint → Result → EchoLaws.Event
callback_event nowhere (error ec) = EchoLaws.accepted ec nowhere
callback_event nowhere (socket ep) = EchoLaws.accepted success ep

pub callback_run : Endpoint → Echo.Server → List Result → Echo.Server
callback_run nowhere s [] = s
callback_run nowhere s (r ∷ rs) =
    callback_run nowhere (EchoLaws.step s (callback_event nowhere r)) rs

step-callbacks :
    (nowhere : Endpoint) (s : Server) (r : Result)
    → is_error s.ec ≡ false
    → is_result r ≡ true
    → (as_callbacks (step s (resumes r))
        ≡ EchoLaws.step (as_callbacks s) (callback_event nowhere r))
      × (is_error (step s (resumes r)).ec ≡ false)
unfolding step accepted callback_event EchoLaws.step Echo.handle_accept
step-callbacks nowhere s (error ec) up k = ground arith
step-callbacks nowhere s (socket ep) up k = ground arith

run-callbacks :
    (nowhere : Endpoint) (s : Server) (rs : List Result)
    → is_error s.ec ≡ false
    → All (λ r. is_result r ≡ true) rs
    → as_callbacks (coroutine_run s rs) ≡ callback_run nowhere (as_callbacks s) rs
unfolding coroutine_run callback_run
run-callbacks nowhere s [] up k = refl
run-callbacks nowhere s (r ∷ rs) up k =
    let (e, up') = step-callbacks nowhere s r up k.0 in
    run-callbacks nowhere (step s (resumes r)) rs up' k.1 ∙ ap (λ t. callback_run nowhere t rs) e

-- For every sequence of completed accepts, each an error or a socket whose remote endpoint can be
-- read, and a stop after them, the coroutine leaves the same table, error, counts and calls on
-- connections as the callbacks of pre-cxx20/echo_server/server.cpp.
pub same_as_callbacks :
    (nowhere : Endpoint) (alive : ℕ → Bool) (rs : List Result)
    → All (λ r. is_result r ≡ true) rs
    → (as_callbacks (coroutine_run (handle_run server) rs)
        ≡ callback_run nowhere (Echo.handle_run Echo.server) rs)
      × (as_callbacks (handle_stop alive (coroutine_run (handle_run server) rs))
          ≡ Echo.handle_stop alive (callback_run nowhere (Echo.handle_run Echo.server) rs))
unfolding handle_run server handle_stop Echo.handle_run Echo.server Echo.handle_stop
same_as_callbacks nowhere alive rs k =
    let e = run-callbacks nowhere (handle_run server) rs refl k in
    (e, ap (Echo.handle_stop alive) e)
