-- ===== src/Chatterbox/Pool/Tests.antt =====
-- A pool that is run once, with one connection from port 40000.
use boost_beast_websocket_ec.Prelude.{
  ◌+◌, ◌≤◌, ◌≡◌, refl, true, false, is_error, [], ◌∷◌, ◌++◌, success, length, some,
}
use boost_beast_websocket_ec.Prelude.Text.{codes}
use boost_beast_websocket_ec.Prelude.Endpoint.{Endpoint, same_endpoint, text_eq}
use boost_beast_websocket_ec.Prelude.Table.{lookup, occurrences}
use boost_beast_websocket_ec.Chatterbox.Pool.{Pool, runs, connection_pool, handle_run, handle_timer}
use boost_beast_websocket_ec.Chatterbox.Pool.Laws.{
  Reach, fresh, next, started, stopped, step, stops_of, one_per_run, pool_stop_reaches,
  run_connects,
}

abbrev local : Endpoint
local = record { address = codes "0.0.0.0"; port = 40000 }

running : Pool
unfolding step
running = step connection_pool (started local)

running-Reach : Reach 1 running
unfolding running
running-Reach = next (started local) fresh refl

one_per_run_example : (running.waits ≡ 0) × (running.created ≡ 1) × (length running.connections ≤ 1)
one_per_run_example = one_per_run running-Reach

pool_stop_reaches_case :
    let s' = step running (stopped (λ p. true)) in
    (stops_of 0 s'.calls ≡ stops_of 0 running.calls + occurrences 0 running.connections)
    × (occurrences 0 running.connections ≤ 1)
    × (s'.connections ≡ [])
    × (handle_timer s' success local ≡ s')
pool_stop_reaches_case = pool_stop_reaches (λ p. true) 0 success local running-Reach

second_run :
    let s' = step running (started local) in
    (s'.calls ≡ running.calls ++ (1, runs) ∷ [])
    × (is_error s'.ec ≡ false)
    × (lookup local s'.connections ≡ some 1)
unfolding running connection_pool handle_run same_endpoint text_eq
second_run = run_connects running local local
