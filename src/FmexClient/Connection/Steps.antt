-- ===== src/FmexClient/Connection/Steps.antt =====
-- What may happen to the connection once it has been started.
use boost_beast_websocket_ec.Prelude.{
  ℕ, ◌-◌, ◌≡◌, Bool, true, not, Option, none, some, List, [], ◌∷◌, ◌++◌, ErrorCode, is_error,
  Outcome, done, ltb, empty, pop_front, if◌then◌else◌, is_some,
}
use boost_beast_websocket_ec.Prelude.Text.{Text}
use boost_beast_websocket_ec.FmexClient.Connection.{
  Connection, Stop, Parsed, hello, other_type, other_exception, system_error, exchange_connection,
  notify_connect, connect_transport_op, on_read, on_write, on_close, stop, ping_on_timer,
}

pub data Event : Type 0 where
  stops : Event
  -- an operation of connect_transport_op completes; the option is the error of
  -- SSL_set_tlsext_host_name
  connect_done : Option ErrorCode → ErrorCode → Event
  -- a read completes with bytes in the buffer
  received : ErrorCode → Text → Event
  wrote : ErrorCode → Event
  closed : ErrorCode → Event
  -- the wait for the ping timer completes; the text is the ping to be sent
  timed : ErrorCode → Text → Event

-- An operation completes only if one has begun.
abbrev pub enabled : Connection → Event → Bool
enabled c stops = true
enabled c (connect_done sni ec) = is_some c.stage
enabled c (received ec bytes) = ltb 0 c.reads
enabled c (wrote ec) = not (empty c.writes)
enabled c (closed ec) = ltb 0 c.closes
enabled c (timed ec frame) = ltb 0 c.waits

-- The JSON library, the frame that subscribes, and the order in which a map is iterated.
module _ (parse : Text → Parsed) (subscribe : Text)
    (order : List (ℕ × Stop) → List (ℕ × Stop)) where
  unfoldable pub step : Connection → Event → Outcome Connection
  step c stops = done (stop order c)
  step c (connect_done sni ec) = elim c.stage [
    | none ↦ done c
    | some stage ↦ connect_transport_op sni stage c ec
  ]
  step c (received ec bytes) =
      on_read parse subscribe (record c { reads = c.reads - 1; buffer = c.buffer ++ bytes }) ec
  step c (wrote ec) = on_write (record c { writes = pop_front c.writes }) ec
  step c (closed ec) = done (on_close (record c { closes = c.closes - 1 }) ec)
  step c (timed ec frame) = ping_on_timer (record c { waits = c.waits - 1 }) ec frame

  -- The frame that a message read adds to those to be sent.
  abbrev pub answer : Parsed → List Text
  answer hello = subscribe ∷ []
  answer other_type = []
  answer other_exception = []
  answer (system_error e) = []

  -- The frames that an event adds to those to be sent.
  abbrev pub queued : Connection → Event → List Text
  queued c stops = []
  queued c (connect_done sni ec) = []
  queued c (received ec bytes) = if is_error ec then [] else answer (parse (c.buffer ++ bytes))
  queued c (wrote ec) = []
  queued c (closed ec) = []
  queued c (timed ec frame) = if is_error ec then [] else frame ∷ []

  -- The frames whose write completes, with an error or without.
  abbrev pub written : Connection → Event → List Text
  written c stops = []
  written c (connect_done sni ec) = []
  written c (received ec bytes) = []
  written c (wrote ec) = c.writes
  written c (closed ec) = []
  written c (timed ec frame) = []

  -- The connections that a run reaches with no failed assertion. Its indices: all frames queued, and
  -- all frames whose write has completed.
  pub data Reach : List Text → List Text → Connection → Type 0 where
    start : Reach [] [] (notify_connect exchange_connection)
    next :
        {qs ws : List Text} {c : Connection} (e : Event) (c' : Connection)
        → Reach qs ws c
        → enabled c e ≡ true
        → step c e ≡ done c'
        → Reach (qs ++ queued c e) (ws ++ written c e) c'
