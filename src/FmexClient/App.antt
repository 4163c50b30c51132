-- ===== src/FmexClient/App.antt =====
-- pre-cxx20/fmex_client/main.cpp: the application that starts a connection and stops it on an interrupt.
-- Connections are numbered in the order of their creation; what the application calls on them stands
-- in `calls`, in order.
pub mod Laws
mod Tests
use boost_beast_websocket_ec.Prelude.{
  ℕ, suc, ◌+◌, ◌-◌, Bool, Option, none, some, List, [], ◌∷◌, ◌++◌, ErrorCode, is_error,
  is_operation_aborted, if◌then◌else◌,
}

-- The functions of ConnectionBase that the application calls.
pub data Call : Type 0 where
  starts stops : Call

-- app: `signal_waits` counts the waits on signals_ that have not completed, `signal_cancels` the calls
-- of its cancel, and `created` the connections made; `exit_code` is the argument of std::exit.
pub record App : Type 0 where
  pub connections : List ℕ
  pub created : ℕ
  pub calls : List (ℕ × Call)
  pub signal_waits : ℕ
  pub signal_cancels : ℕ
  pub exit_code : Option ℕ

-- app::app
unfoldable pub app : App
app = record {
  connections = [];
  created = 0;
  calls = [];
  signal_waits = 0;
  signal_cancels = 0;
  exit_code = none;
}

unfoldable pub start_connections : App → App
start_connections a = record a {
  connections = a.connections ++ a.created ∷ [];
  created = suc a.created;
  calls = a.calls ++ (a.created, starts) ∷ [];
}

-- The loop of stop_connections.
abbrev pub stop_all : List ℕ → List (ℕ × Call)
stop_all [] = []
stop_all (p ∷ ps) = (p, stops) ∷ stop_all ps

unfoldable pub stop_connections : App → App
stop_connections a = record a { calls = a.calls ++ stop_all a.connections }

unfoldable pub start : App → App
unfolding start_connections
start a = start_connections (record a { signal_waits = a.signal_waits + 1 })

unfoldable pub stop : App → App
unfolding stop_connections
stop a = stop_connections (record a { signal_cancels = a.signal_cancels + 1 })

-- `is_sigint` is sig == SIGINT
unfoldable pub on_signal : App → ErrorCode → Bool → App
unfolding stop_connections
on_signal a ec is_sigint =
    if is_error ec
    then (if is_operation_aborted ec then a else record a { exit_code = some 100 })
    else if is_sigint
    then stop_connections a
    else a
