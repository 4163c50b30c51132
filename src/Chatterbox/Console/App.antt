-- ===== src/Chatterbox/Console/App.antt =====
-- pre-cxx20/chatterbox/app.hpp and app.cpp: the pool of connections, the console and the signals, all
-- on one executor, so that what a handler dispatches runs at once.
use boost_beast_websocket_ec.Prelude.{
  ℕ, ◌+◌, ◌-◌, ◌≡◌, Bool, true, not, none, some, ◌++◌, ErrorCode, is_error, Outcome, done, ◌>>=◌,
  if◌then◌else◌, ltb,
}
use boost_beast_websocket_ec.Prelude.Text.{Text}
use boost_beast_websocket_ec.Prelude.Endpoint.{Endpoint}
use boost_beast_websocket_ec.Chatterbox.Pool
use boost_beast_websocket_ec.Chatterbox.Pool.{Pool, connection_pool}
use boost_beast_websocket_ec.Chatterbox.Console.{
  Console, quit, console, Called, async_run, resume, cancel,
}

-- app: `signal_waits` counts the waits on signals_ that have not completed, and `signal_cancels` the
-- calls of its cancel.
pub record App : Type 0 where
  pub clients : Pool
  pub console : Console
  pub signal_waits : ℕ
  pub signal_cancels : ℕ

-- app::app
unfoldable pub app : App
app = record { clients = connection_pool; console = console; signal_waits = 0; signal_cancels = 0 }

-- `alive` says which connections of the pool can still be locked.
unfoldable pub handle_console : (ℕ → Bool) → App → Called → App
handle_console alive a none = a
handle_console alive a (some (ec, quit)) =
    if not (is_error ec)
    then record a {
      clients = Pool.handle_stop alive a.clients;
      signal_cancels = a.signal_cancels + 1;
    }
    else a

-- `ep` is the local endpoint of the first connection. The first call of an operation never calls its
-- handler, so that what async_run returns as called is dropped.
unfoldable pub handle_run : App → Endpoint → Outcome App
handle_run a ep = do
  (c, called) ← async_run a.console
  done (record a {
    signal_waits = a.signal_waits + 1;
    clients = Pool.handle_run a.clients ep;
    console = c;
  })

-- The function passed to signals_.async_wait.
unfoldable pub handle_signal : (ℕ → Bool) → App → ErrorCode → App
handle_signal alive a ec =
    if not (is_error ec)
    then record a { clients = Pool.handle_stop alive a.clients; console = cancel a.console }
    else a

pub data Event : Type 0 where
  signalled : ErrorCode → Event
  -- a read of the console completes, with the bytes that it has added and those up to the newline
  typed : ErrorCode → Text → ℕ → Event

abbrev pub enabled : App → Event → Bool
enabled a (signalled ec) = ltb 0 a.signal_waits
enabled a (typed ec bytes n) = ltb 0 a.console.reads

unfoldable pub step : (ℕ → Bool) → App → Event → App
unfolding handle_signal handle_console
step alive a (signalled ec) =
    handle_signal alive (record a { signal_waits = a.signal_waits - 1 }) ec
step alive a (typed ec bytes n) =
    let c : Console = record a.console {
      reads = a.console.reads - 1;
      rxstore = a.console.rxstore ++ bytes;
    } in
    let (c', called) = resume c ec n in handle_console alive (record a { console = c' }) called

-- The applications that a run reaches.
pub data Reach (alive : ℕ → Bool) : App → Type 0 where
  start : (ep : Endpoint) (a : App) → handle_run app ep ≡ done a → Reach alive a
  next : {a : App} (e : Event) → Reach alive a → enabled a e ≡ true → Reach alive (step alive a e)
