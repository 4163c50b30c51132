-- ===== src/Chatterbox/Console/Tests.antt =====
-- An application that runs, reads a line that it does not know, and then the word quit.
use boost_beast_websocket_ec.Prelude.{
  ℕ, ◌≡◌, refl, Bool, true, [], success, operation_aborted, is_error, done, assert_failed,
}
use boost_beast_websocket_ec.Prelude.Text.{codes}
use boost_beast_websocket_ec.Prelude.Endpoint.{Endpoint, text_eq}
use boost_beast_websocket_ec.Chatterbox.Pool
use boost_beast_websocket_ec.Chatterbox.Pool.{connection_pool}
use boost_beast_websocket_ec.Chatterbox.Console.{console, is_quit, trim, async_run}
use boost_beast_websocket_ec.Chatterbox.Console.App.{
  App, app, handle_run, signalled, typed, step, Reach, start,
}
use boost_beast_websocket_ec.Chatterbox.Console.Laws.{IsValid, app-IsValid, signal_ends, line_typed}

quit_trimmed : is_quit (trim (codes "  Quit \n")) ≡ true
unfolding is_quit trim text_eq
quit_trimmed = refl

abbrev all_alive : ℕ → Bool
all_alive p = true

abbrev local : Endpoint
local = record { address = codes "0.0.0.0"; port = 40000 }

running : App
unfolding handle_run app async_run console
running = elim (handle_run app local) [ assert_failed ↦ app | done a ↦ a ]

running-Reach : Reach all_alive running
unfolding running
running-Reach = start local running refl

app-IsValid_case : IsValid running
app-IsValid_case = app-IsValid all_alive running-Reach

signal_ends_example :
    let b =
      step all_alive (step all_alive running (signalled success)) (typed operation_aborted [] 0) in
    (b.signal_waits ≡ 0)
    × (b.console.reads ≡ 0)
    × (b.clients.waits ≡ 0)
    × (is_error b.clients.ec ≡ true)
    × (b.clients.connections ≡ [])
unfolding running
signal_ends_example = signal_ends all_alive operation_aborted [] 0 running-Reach refl refl

line_typed_case :
    let b = step all_alive running (typed success (codes "quit\n") 5) in
    (b.console.rxstore ≡ [])
    × (b.console.reads ≡ 0)
    × (b.clients ≡ Pool.handle_stop all_alive running.clients)
    × (b.signal_cancels ≡ 1)
unfolding running is_quit trim text_eq
line_typed_case = line_typed all_alive (codes "quit\n") 5 running-Reach refl refl
