-- ===== src/MemoryTest/Session.antt =====
-- The class session: it accepts the handshake, then reads and writes in turn.
pub mod Laws
use boost_beast_websocket_ec.Prelude.{
  ℕ, ◌≡◌, ◌⊎◌, Bool, true, false, List, [], ◌∷◌, ◌++◌, length, drop, if◌then◌else◌, ErrorCode,
  is_error, is_closed,
}
use boost_beast_websocket_ec.Prelude.Text.{Text}

-- An asynchronous operation on ws_, and what fail prints of it.
pub data Operation : Type 0 where
  accept read write : Operation

pub record Session : Type 0 where
  -- buffer_
  pub buffer : Text
  -- ws_.text(), which is true of a new stream
  pub text : Bool
  -- the operations that have begun and not completed: each keeps the session alive
  pub pending : List Operation
  -- what fail has printed
  pub failed : List Operation
  -- the messages whose write has begun, with the kind that they are written as
  pub writes : List (Bool × Text)

unfoldable pub session : Session
session = record { buffer = []; text = true; pending = []; failed = []; writes = [] }

abbrev pub begin : Operation → Session → Session
begin o s = record s { pending = s.pending ++ (o ∷ []) }

abbrev pub fail : Operation → Session → Session
fail o s = record s { failed = s.failed ++ (o ∷ []) }

unfoldable pub run : Session → Session
run s = begin accept s

abbrev pub do_read : Session → Session
do_read s = begin read s

unfoldable pub on_accept : ErrorCode → Session → Session
on_accept ec s = if is_error ec then fail accept s else do_read s

-- ws_.text(ws_.got_text()) and ws_.async_write(buffer_.data(), ...)
abbrev pub echo : Bool → Session → Session
echo got_text s =
    begin write (record s { text = got_text; writes = s.writes ++ ((got_text, s.buffer) ∷ []) })

unfoldable pub on_read : ErrorCode → Bool → Session → Session
on_read ec got_text s =
    if is_closed ec then s else echo got_text (if is_error ec then fail read s else s)

unfoldable pub on_write : ErrorCode → Session → Session
on_write ec s =
    if is_error ec
    then fail write s
    else do_read (record s { buffer = drop (length s.buffer) s.buffer })

-- The completion of an operation. A read puts the octets that it delivers behind those in the buffer,
-- also when it fails.
pub data Event : Type 0 where
  accepted : ErrorCode → Event
  received : ErrorCode → Bool → Text → Event
  wrote : ErrorCode → Event

-- The operation that an event completes.
abbrev pub completes : Event → Operation
completes (accepted ec) = accept
completes (received ec got_text bytes) = read
completes (wrote ec) = write

abbrev pub same : Operation → Operation → Bool
same accept accept = true
same read read = true
same write write = true
same _ _ = false

abbrev pub Pending : Operation → List Operation → Type 0
Pending o [] = ⊥
Pending o (p ∷ ps) = (p ≡ o) ⊎ Pending o ps

abbrev pub completed : Operation → List Operation → List Operation
completed o [] = []
completed o (p ∷ ps) = let rest = completed o ps in if same p o then ps else p ∷ rest

unfoldable pub handle : Event → Session → Session
unfolding on_accept on_read on_write
handle (accepted ec) s = on_accept ec s
handle (received ec got_text bytes) s =
    on_read ec got_text (record s { buffer = s.buffer ++ bytes })
handle (wrote ec) s = on_write ec s

unfoldable pub step : Event → Session → Session
unfolding handle
step e s = handle e (record s { pending = completed (completes e) s.pending })

abbrev pub Enabled : Event → Session → Type 0
Enabled e s = Pending (completes e) s.pending

-- The sessions reached once run was called, with the events so far.
pub data Reach : List Event → Session → Type 0 where
  start : Reach [] (run session)
  next :
      {es : List Event} {s : Session} (e : Event)
      → Enabled e s
      → Reach es s
      → Reach (es ++ (e ∷ [])) (step e s)
