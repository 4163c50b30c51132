-- ===== src/Blog/Transport/Steps.antt =====
-- What may happen to the transport: it is started, or an operation completes and its handler runs.
use boost_beast_websocket_ec.Prelude.{
  ◌-◌, ◌≡◌, Bool, true, not, Option, none, some, ◌++◌, ErrorCode, is_error, Outcome, done, ltb,
  empty, pop_front, length, if◌then◌else◌, is_some,
}
use boost_beast_websocket_ec.Prelude.Text.{Text}
use boost_beast_websocket_ec.Blog.Transport.{
  Fmex, Parsed, fmex_connection, start, connect_op, handle_send, handle_read, ping_event_timeout,
}

pub data Event : Type 0 where
  starts : Event
  -- an operation of connect_op completes; the option is the error of SSL_set_tlsext_host_name
  connect_done : Option ErrorCode → ErrorCode → Event
  sent : ErrorCode → Event
  -- a read completes with bytes in the buffer, which are of text or not
  received : ErrorCode → Text → Bool → Event
  -- the wait for the ping timer completes; the text is the ping to be sent
  timed : ErrorCode → Text → Event

abbrev pub enabled : Fmex → Event → Bool
enabled c starts = true
enabled c (connect_done sni ec) = is_some c.stage
enabled c (sent ec) = not (empty c.writes)
enabled c (received ec bytes is_text) = ltb 0 c.reads
enabled c (timed ec frame) = ltb 0 c.waits

unfoldable pub step : (Text → Parsed) → Text → Fmex → Event → Outcome Fmex
step parse subscribe c starts = start c
step parse subscribe c (connect_done sni ec) = elim c.stage [
  | none ↦ done c
  | some stage ↦ connect_op sni stage c ec
]
step parse subscribe c (sent ec) = done (handle_send (record c { writes = pop_front c.writes }) ec)
step parse subscribe c (received ec bytes is_text) = done (
    handle_read parse subscribe (record c { reads = c.reads - 1; rx_buffer = c.rx_buffer ++ bytes })
      ec (length bytes) is_text)
step parse subscribe c (timed ec frame) =
    let c' : Fmex = record c { waits = c.waits - 1 } in
    done (if is_error ec then c' else ping_event_timeout c' frame)

-- The transports that a run reaches with no failed assertion.
pub data Reach (parse : Text → Parsed) (subscribe : Text) : Fmex → Type 0 where
  fresh : Reach parse subscribe fmex_connection
  next :
      {c : Fmex} (e : Event) (c' : Fmex)
      → Reach parse subscribe c
      → enabled c e ≡ true
      → step parse subscribe c e ≡ done c'
      → Reach parse subscribe c'
