-- ===== src/FmexClient/App/Tests.antt =====
-- An interrupt stops the connection.
use boost_beast_websocket_ec.Prelude.{◌+◌, ◌≤◌, ◌≡◌, refl, true, [], ◌∷◌, success}
use boost_beast_websocket_ec.FmexClient.App.{App, starts, stops, app, start, on_signal}
use boost_beast_websocket_ec.FmexClient.App.Laws.{
  Reach, started, signalled, stop_count, stopped_at_most_once,
}

interrupted : App
unfolding start app on_signal
interrupted = on_signal (record (start app) { signal_waits = 0 }) success true

interrupted-Reach : Reach interrupted
unfolding interrupted
interrupted-Reach = signalled success true started refl refl

interrupted_calls : interrupted.calls ≡ (0, starts) ∷ (0, stops) ∷ []
unfolding interrupted
interrupted_calls = refl

interrupted_once :
    (interrupted.connections ≡ 0 ∷ [])
    × (interrupted.signal_waits + stop_count interrupted.calls ≤ 1)
interrupted_once = stopped_at_most_once interrupted-Reach
