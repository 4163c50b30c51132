-- ===== src/Chatterbox/Console/Laws.antt =====
-- How the application ends after a signal or the word quit.
use boost_beast_websocket_ec.Prelude.{
  ℕ, ◌+◌, ◌≤◌, ◌≡◌, Bool, true, false, [], ◌++◌, ErrorCode, success, is_error, ltb, ◌||◌,
  if◌then◌else◌, take, drop, arith,
}
use boost_beast_websocket_ec.Prelude.Text.{Text}
use boost_beast_websocket_ec.Chatterbox.Pool
use boost_beast_websocket_ec.Chatterbox.Pool.{connection_pool}
use boost_beast_websocket_ec.Chatterbox.Console.{console, is_quit, trim, resume, async_run, cancel}
use boost_beast_websocket_ec.Chatterbox.Console.App.{
  App, app, handle_run, handle_console, handle_signal, Event, signalled, typed, enabled, step,
  Reach, start, next,
}

pub record IsValid (a : App) : Type 0 where
  pub one_signal_wait : a.signal_waits ≤ 1
  pub one_read : a.console.reads ≤ 1
  pub running : a.console.run_op ≡ ltb 0 a.console.reads
  pub no_timer : a.clients.waits ≡ 0
  pub no_post : a.console.posts ≡ 0
  pub over : a.console.run_op ≡ false → (is_error a.console.ec || is_error a.clients.ec) ≡ true
  pub stopped_empty : is_error a.clients.ec ≡ true → a.clients.connections ≡ []

module _ (alive : ℕ → Bool) where
  step-IsValid : (a : App) (e : Event) → IsValid a → enabled a e ≡ true → IsValid (step alive a e)
  unfolding step handle_signal handle_console resume cancel Pool.handle_stop
  step-IsValid a (signalled ec) v en = ground arith
  step-IsValid a (typed ec bytes n) v en = ground arith

  -- In every state of the application that a run reaches one wait for a signal and one read of the
  -- console at most are going on, the operation of the console is set exactly while it reads, no
  -- wait for the pool's timer is going on, the console's operation is over only if it has failed or
  -- the pool has been stopped, and a stopped pool is empty.
  pub app-IsValid : {a : App} → Reach alive a → IsValid a
  unfolding handle_run app async_run console connection_pool Pool.handle_run
  app-IsValid (start ep a e) = ground arith
  app-IsValid (next {a = a} e reach en) = step-IsValid a e (app-IsValid reach) en

  -- In a reached application that waits for a signal and reads the console, a signal without error
  -- stops the pool, and when the read then completes, in whatever way, no wait and no read of the
  -- application is left and the pool is still stopped and empty.
  pub signal_ends :
      {a : App} (ec : ErrorCode) (bytes : Text) (n : ℕ)
      → Reach alive a
      → enabled a (signalled success) ≡ true
      → enabled a (typed ec bytes n) ≡ true
      → let b = step alive (step alive a (signalled success)) (typed ec bytes n) in
        (b.signal_waits ≡ 0)
        × (b.console.reads ≡ 0)
        × (b.clients.waits ≡ 0)
        × (is_error b.clients.ec ≡ true)
        × (b.clients.connections ≡ [])
  unfolding step handle_signal handle_console resume cancel Pool.handle_stop
  signal_ends ec bytes n reach en en' = ground (arith, app-IsValid reach)

  -- In a reached application whose console reads and has not failed, a read that completes without
  -- error takes its bytes from the store. If they say to quit, the pool is stopped, the signals are
  -- cancelled and the console reads no more; otherwise it reads again and the pool stays as it is.
  pub line_typed :
      {a : App} (bytes : Text) (n : ℕ)
      → Reach alive a
      → enabled a (typed success bytes n) ≡ true
      → is_error a.console.ec ≡ false
      → let b = step alive a (typed success bytes n) in
        let store = a.console.rxstore ++ bytes in
        let quits = is_quit (trim (take n store)) in
        (b.console.rxstore ≡ drop n store)
        × (b.console.reads ≡ (if quits then 0 else 1))
        × (b.clients ≡ (if quits then Pool.handle_stop alive a.clients else a.clients))
        × (b.signal_cancels ≡ (if quits then a.signal_cancels + 1 else a.signal_cancels))
  unfolding step handle_console resume
  line_typed bytes n reach en up = ground (arith, app-IsValid reach)
