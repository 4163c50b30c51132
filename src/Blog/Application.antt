-- ===== src/Blog/Application.antt =====
-- pre-cxx20/blog-2020-09/application.hpp and application.cpp: the signals and the connection on one
-- executor, so that what start dispatches to them runs at once.
pub mod Laws
mod Tests
use boost_beast_websocket_ec.Prelude.{
  ◌≡◌, Bool, true, false, ◌&&◌, not, List, [], ◌∷◌, length, drop, Outcome, done, ◌>>=◌, is_some,
}
use boost_beast_websocket_ec.Prelude.Text.{Text}
use boost_beast_websocket_ec.Blog.Transport
use boost_beast_websocket_ec.Blog.Transport.{Fmex, Parsed, fmex_connection}
use boost_beast_websocket_ec.Blog.Transport.Steps
use boost_beast_websocket_ec.Blog.Sigint
use boost_beast_websocket_ec.Blog.Sigint.{Sigint, sigint_state, add_slot}

-- The one slot that is added calls fmex_connection_.stop().
pub data Slot : Type 0 where
  stop_fmex : Slot

pub record Application : Type 0 where
  pub sigint : Sigint Slot
  pub fmex : Fmex

unfoldable pub application : Application
application = record { sigint = sigint_state; fmex = fmex_connection }

unfoldable pub start : Application → Outcome Application
unfolding Transport.start
start a = do
  f ← Transport.start a.fmex
  done (record { sigint = add_slot (Sigint.start a.sigint) stop_fmex; fmex = f })

pub call_slots : List Slot → Fmex → Fmex
unfolding Transport.stop
call_slots [] f = f
call_slots (stop_fmex ∷ slots) f = call_slots slots (Transport.stop f)

-- The application neither stops the signals nor adds another slot, and starts the connection once.
pub data Event : Type 0 where
  interrupted : Sigint.Event Slot → Event
  connection : Steps.Event → Event

abbrev pub is_completion : Sigint.Event Slot → Bool
is_completion Sigint.stops = false
is_completion (Sigint.adds a) = false
is_completion (Sigint.signalled ec is_sigint) = true
is_completion (Sigint.timed ec) = true

abbrev pub is_start : Steps.Event → Bool
is_start Steps.starts = true
is_start _ = false

abbrev pub enabled : Application → Event → Bool
enabled a (interrupted e) =
    is_completion e && (Sigint.enabled a.sigint e && not (is_some a.sigint.exit_code))
enabled a (connection e) =
    not (is_start e) && (Steps.enabled a.fmex e && not (is_some a.sigint.exit_code))

module _ (parse : Text → Parsed) (subscribe : Text) where
  unfoldable pub step : Application → Event → Outcome Application
  unfolding Sigint.step Steps.step call_slots
  step a (interrupted e) = do
    s ← Sigint.step a.sigint e
    done
        (record { sigint = s; fmex = call_slots (drop (length a.sigint.emitted) s.emitted) a.fmex })
  step a (connection e) = do f ← Steps.step parse subscribe a.fmex e; done (record a { fmex = f })

  -- The applications reached after start, while the process lives.
  pub data Reach : Application → Type 0 where
    started : {a : Application} → start application ≡ done a → Reach a
    next :
        {a : Application} (e : Event) (a' : Application)
        → Reach a
        → enabled a e ≡ true
        → step a e ≡ done a'
        → Reach a'
