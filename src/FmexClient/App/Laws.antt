-- ===== src/FmexClient/App/Laws.antt =====
-- How often the application stops a connection on an interrupt.
use boost_beast_websocket_ec.Prelude.{
  ℕ, ◌+◌, ◌-◌, ◌≤◌, ◌≡◌, Bool, true, List, [], ◌∷◌, ◌++◌, ErrorCode, none, ltb, arith,
}
use boost_beast_websocket_ec.FmexClient.App.{App, Call, starts, stops, app, start, on_signal}

-- The states reached after `start` by signals, while the process lives.
pub data Reach : App → Type 0 where
  started : Reach (start app)
  signalled :
      {a : App} (ec : ErrorCode) (is_sigint : Bool)
      → Reach a
      → a.exit_code ≡ none
      → ltb 0 a.signal_waits ≡ true
      → Reach (on_signal (record a { signal_waits = a.signal_waits - 1 }) ec is_sigint)

-- How often a connection is stopped in a list of calls.
abbrev pub stop_count : List (ℕ × Call) → ℕ
stop_count [] = 0
stop_count ((p, starts) ∷ cs) = stop_count cs
stop_count ((p, stops) ∷ cs) = 1 + stop_count cs

stop_count-append :
    (cs ds : List (ℕ × Call)) → stop_count (cs ++ ds) ≡ stop_count cs + stop_count ds
stop_count-append [] ds = omega arith
stop_count-append ((p, starts) ∷ cs) ds = stop_count-append cs ds
stop_count-append ((p, stops) ∷ cs) ds = omega (arith, stop_count-append cs ds)

-- The application waits for one signal only: its one connection is stopped once at most, however many
-- interrupts there are.
pub stopped_at_most_once :
    {a : App} → Reach a → (a.connections ≡ 0 ∷ []) × (a.signal_waits + stop_count a.calls ≤ 1)
unfolding start app on_signal
stopped_at_most_once started = ground arith
stopped_at_most_once (signalled {a = a} ec is_sigint reach alive en) =
    ground (arith, stopped_at_most_once reach, stop_count-append a.calls ((0, stops) ∷ []))
