-- ===== src/MemoryTest/Listener.antt =====
-- The class listener: it sets the acceptor up, and accepts.
pub mod Laws
use boost_beast_websocket_ec.Prelude.{
  ℕ, zero, suc, ◌+◌, ◌-◌, List, [], ◌∷◌, ◌++◌, if◌then◌else◌, ErrorCode, is_error,
}

-- A call on the acceptor, and what fail prints of it.
pub data Operation : Type 0 where
  open_acceptor set_option bind listen accept : Operation

-- The codes that the calls of the constructor give.
pub record Setup : Type 0 where
  pub open_ec : ErrorCode
  pub set_option_ec : ErrorCode
  pub bind_ec : ErrorCode
  pub listen_ec : ErrorCode

pub record Listener (Socket : Type 0) : Type 0 where
  -- the calls of the constructor that were made
  pub setup : List Operation
  -- the accepts that are going on
  pub accepts : ℕ
  -- the sockets whose session was run
  pub sessions : List Socket
  -- what fail has printed
  pub failed : List Operation

module _ {Socket : Type 0} where
  abbrev pub failed_at : List Operation → Operation → Listener Socket
  failed_at calls o = record { setup = calls; accepts = 0; sessions = []; failed = o ∷ [] }

  unfoldable pub listener : Setup → Listener Socket
  listener codes =
      if is_error codes.open_ec
      then failed_at (open_acceptor ∷ []) open_acceptor
      else if is_error codes.set_option_ec
      then failed_at (open_acceptor ∷ (set_option ∷ [])) set_option
      else if is_error codes.bind_ec
      then failed_at (open_acceptor ∷ (set_option ∷ (bind ∷ []))) bind
      else if is_error codes.listen_ec
      then failed_at (open_acceptor ∷ (set_option ∷ (bind ∷ (listen ∷ [])))) listen
      else record {
        setup = open_acceptor ∷ (set_option ∷ (bind ∷ (listen ∷ [])));
        accepts = 0;
        sessions = [];
        failed = [];
      }

  abbrev pub do_accept : Listener Socket → Listener Socket
  do_accept l = record l { accepts = l.accepts + 1 }

  unfoldable pub run : Listener Socket → Listener Socket
  run l = do_accept l

  unfoldable pub on_accept : ErrorCode → Socket → Listener Socket → Listener Socket
  on_accept ec socket l = do_accept (
      if is_error ec
      then record l { failed = l.failed ++ (accept ∷ []) }
      else record l { sessions = l.sessions ++ (socket ∷ []) })

  -- The completions of accepts, one after the other.
  pub accepted : List (ErrorCode × Socket) → Listener Socket → Listener Socket
  unfolding on_accept
  accepted [] l = l
  accepted ((ec, socket) ∷ cs) l =
      accepted cs (on_accept ec socket (record l { accepts = l.accepts - 1 }))
