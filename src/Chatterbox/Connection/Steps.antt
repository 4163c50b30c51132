-- ===== src/Chatterbox/Connection/Steps.antt =====
-- What may happen to a client's connection once it runs.
use boost_beast_websocket_ec.Prelude.{
  ℕ, ◌+◌, ◌-◌, ◌≡◌, Bool, true, false, ◌&&◌, not, List, [], ◌∷◌, ◌++◌, ErrorCode, is_error, Outcome,
  done, ltb, empty, pop_front, if◌then◌else◌,
}
use boost_beast_websocket_ec.Prelude.Text.{Text}
use boost_beast_websocket_ec.Chatterbox.Connection.{
  Connection, connection_impl, handle_run, handle_connect, handle_handshake, handle_stop, send,
  handle_rx, handle_tx,
}

pub data Event : Type 0 where
  sends : Text → Event
  stops : Event
  connected : ErrorCode → Event
  shaken : ErrorCode → Event
  -- a read completes; its bytes are in the buffer
  received : ErrorCode → Text → Event
  wrote : ErrorCode → Event

-- An operation completes only if one has begun.
abbrev pub enabled : Connection → Event → Bool
enabled c (sends m) = true
enabled c stops = true
enabled c (connected ec) = ltb 0 c.connects
enabled c (shaken ec) = ltb 0 c.handshakes
enabled c (received ec bytes) = ltb 0 c.reads
enabled c (wrote ec) = not (empty c.writes)

unfoldable pub step : Connection → Event → Outcome Connection
step c (sends m) = send c m
step c stops = done (handle_stop c)
step c (connected ec) = done (handle_connect (record c { connects = c.connects - 1 }) ec)
step c (shaken ec) = handle_handshake (record c { handshakes = c.handshakes - 1 }) ec
step c (received ec bytes) =
    handle_rx (record c { reads = c.reads - 1; rxbuffer = c.rxbuffer ++ bytes }) ec
step c (wrote ec) = handle_tx (record c { writes = pop_front c.writes }) ec

-- The messages that an event adds to those to be sent.
abbrev pub queued : Connection → Event → List Text
queued c (sends m) = m ∷ []
queued c stops = []
queued c (connected ec) = []
queued c (shaken ec) = []
queued c (received ec bytes) = if is_error ec then [] else (c.rxbuffer ++ bytes) ∷ []
queued c (wrote ec) = []

-- The messages whose write an event reports as complete.
abbrev pub written : Connection → Event → List Text
written c (sends m) = []
written c stops = []
written c (connected ec) = []
written c (shaken ec) = []
written c (received ec bytes) = []
written c (wrote ec) = if is_error ec then [] else c.writes

abbrev pub stop_count : Event → ℕ
stop_count (sends m) = 0
stop_count stops = 1
stop_count (connected ec) = 0
stop_count (shaken ec) = 0
stop_count (received ec bytes) = 0
stop_count (wrote ec) = 0

-- The connections that a run reaches with no failed assertion. Its indices: all messages queued,
-- all messages written, and how often the connection has been stopped.
pub data Reach : List Text → List Text → ℕ → Connection → Type 0 where
  start : Reach [] [] 0 (handle_run connection_impl)
  next :
      {qs ws : List Text} {n : ℕ} {c : Connection} (e : Event) (c' : Connection)
      → Reach qs ws n c
      → enabled c e ≡ true
      → step c e ≡ done c'
      → Reach (qs ++ queued c e) (ws ++ written c e) (n + stop_count e) c'

-- A read completes with a message although the connection has been stopped.
abbrev pub is_late_read : Connection → Event → Bool
is_late_read c (sends m) = false
is_late_read c stops = false
is_late_read c (connected ec) = false
is_late_read c (shaken ec) = false
is_late_read c (received ec bytes) = not (is_error ec) && is_error c.ec
is_late_read c (wrote ec) = false
