-- ===== src/MemoryTest/Tests.antt =====
-- A session that echoes a message and what a failed read has delivered, and a listener without a port.
use boost_beast_websocket_ec.Prelude.{◌≡◌, refl, inl, true, false, [], ◌∷◌, ◌++◌, success, fault}
use boost_beast_websocket_ec.Prelude.Text.{codes}
use boost_beast_websocket_ec.MemoryTest.Session
use boost_beast_websocket_ec.MemoryTest.Session.{
  Session, session, step, Event, received, wrote, Reach, start, next,
}
use boost_beast_websocket_ec.MemoryTest.Session.Laws.{IsValid, session_echoes}
use boost_beast_websocket_ec.MemoryTest.Listener
use boost_beast_websocket_ec.MemoryTest.Listener.{Setup, Listener, listener}
use boost_beast_websocket_ec.MemoryTest.Listener.Laws.{Serving, listener_goes_on}

abbrev handshaken : Session
handshaken = step (Session.accepted success) (Session.run session)

abbrev broken : Session
broken =
    step (received fault false (codes "b"))
      (step (wrote success) (step (received success true (codes "a")) handshaken))

broken-Reach :
    Reach
      ((([] ++ (Session.accepted success ∷ []))
          ++ (received success true (codes "a") ∷ [])
          ++ (wrote success ∷ []))
        ++ (received fault false (codes "b") ∷ []))
      broken
unfolding step Session.run session
broken-Reach = next (received fault false (codes "b")) (inl refl) (
    next (wrote success) (inl refl) (
      next (received success true (codes "a")) (inl refl)
        (next (Session.accepted success) (inl refl) start)))

-- a failed read is echoed
broken_writes : broken.writes ≡ (true, codes "a") ∷ ((false, codes "b") ∷ [])
unfolding step Session.run session
broken_writes = refl

session_echoes_example :
    IsValid
      ((([] ++ (Session.accepted success ∷ []))
          ++ (received success true (codes "a") ∷ [])
          ++ (wrote success ∷ []))
        ++ (received fault false (codes "b") ∷ []))
      broken
session_echoes_example = session_echoes _ broken broken-Reach

abbrev no_port : Setup
no_port = record {
  open_ec = success;
  set_option_ec = success;
  bind_ec = fault;
  listen_ec = success;
}

listener_goes_on_example :
    Serving no_port
      ((fault, tt) ∷ ((success, tt) ∷ []))
      (Listener.accepted ((fault, tt) ∷ ((success, tt) ∷ [])) (Listener.run (listener no_port)))
listener_goes_on_example = listener_goes_on no_port ((fault, tt) ∷ ((success, tt) ∷ []))
