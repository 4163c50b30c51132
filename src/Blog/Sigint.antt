-- ===== src/Blog/Sigint.antt =====
-- pre-cxx20/blog-2020-09/sigint_state.hpp and sigint_state.cpp: an interrupt counts only if it is
-- confirmed by a second one before the timer expires. Functions given to net::dispatch run as steps
-- of their own.
pub mod Laws
mod Tests
use boost_beast_websocket_ec.Prelude.{
  ℕ, suc, ◌+◌, ◌-◌, ◌≡◌, Bool, true, false, not, Option, none, some, List, [], ◌∷◌, ◌++◌, ErrorCode,
  is_error, is_operation_aborted, Outcome, done, assert_failed, require, ◌>>=◌, ◌>>◌, ltb,
  if◌then◌else◌,
}

pub data State : Type 0 where
  inactive waiting confirming exit_state : State

abbrev pub is_exit : State → Bool
is_exit exit_state = true
is_exit _ = false

-- sigint_state; `emitted` holds the slots that have been called, in order
pub record Sigint (A : Type 0) : Type 0 where
  pub signals : List A
  pub state : State
  -- the waits on sigs_ and timer_ that have not completed, and the calls of sigs_.cancel and
  -- timer_.cancel
  pub signal_waits : ℕ
  pub timer_waits : ℕ
  pub signal_cancels : ℕ
  pub timer_cancels : ℕ
  pub emitted : List A
  -- the argument of std::exit, once it has been called
  pub exit_code : Option ℕ

module _ {A : Type 0} where
  unfoldable pub sigint_state : Sigint A
  sigint_state = record {
    signals = [];
    state = inactive;
    signal_waits = 0;
    timer_waits = 0;
    signal_cancels = 0;
    timer_cancels = 0;
    emitted = [];
    exit_code = none;
  }

  abbrev await_signal : Sigint A → Sigint A
  await_signal s = record s { signal_waits = s.signal_waits + 1 }

  abbrev await_timer : Sigint A → Sigint A
  await_timer s = record s { timer_waits = s.timer_waits + 1 }

  unfoldable pub start : Sigint A → Sigint A
  start s = record (await_signal s) { state = waiting }

  unfoldable pub stop : Sigint A → Sigint A
  stop s = record s { signal_cancels = s.signal_cancels + 1 }

  unfoldable pub emit_signals : Sigint A → Outcome (Sigint A)
  emit_signals s = do
    require (is_exit s.state)
    done (record s { signals = []; emitted = s.emitted ++ s.signals })

  -- the `switch` of event_sigint
  sigint_in : State → Sigint A → Outcome (Sigint A)
  unfolding emit_signals
  sigint_in waiting s = done (await_signal (await_timer (record s { state = confirming })))
  sigint_in confirming s =
      emit_signals (record s { timer_cancels = s.timer_cancels + 1; state = exit_state })
  sigint_in inactive s = done s
  sigint_in exit_state s = done s

  unfoldable pub event_sigint : Sigint A → Outcome (Sigint A)
  unfolding sigint_in
  event_sigint s = sigint_in s.state s

  -- `is_sigint` is sig == SIGINT
  unfoldable pub handle_signal : Sigint A → ErrorCode → Bool → Outcome (Sigint A)
  unfolding event_sigint
  handle_signal s ec is_sigint =
      if is_error ec
      then (if not (is_operation_aborted ec)
          then done (record s { exit_code = some 100 })
          else done s)
      else do require is_sigint; event_sigint s

  -- the `switch` of handle_timer
  timer_in : State → Sigint A → Sigint A
  timer_in waiting s = s
  timer_in inactive s = s
  timer_in exit_state s = s
  timer_in confirming s = record s { state = waiting }

  unfoldable pub handle_timer : Sigint A → ErrorCode → Sigint A
  unfolding timer_in
  handle_timer s ec = if is_error ec then s else timer_in s.state s

  -- the `switch` of add_slot
  slot_in : State → Sigint A → A → Sigint A
  slot_in exit_state s slot = record s { emitted = s.emitted ++ slot ∷ [] }
  slot_in inactive s slot = record s { signals = s.signals ++ slot ∷ [] }
  slot_in confirming s slot = record s { signals = s.signals ++ slot ∷ [] }
  slot_in waiting s slot = record s { signals = s.signals ++ slot ∷ [] }

  unfoldable pub add_slot : Sigint A → A → Sigint A
  unfolding slot_in
  add_slot s slot = slot_in s.state s slot

pub data Event (A : Type 0) : Type 0 where
  stops : Event A
  adds : A → Event A
  signalled : ErrorCode → Bool → Event A
  timed : ErrorCode → Event A

module _ {A : Type 0} where
  abbrev pub enabled : Sigint A → Event A → Bool
  enabled s stops = true
  enabled s (adds a) = true
  enabled s (signalled ec is_sigint) = ltb 0 s.signal_waits
  enabled s (timed ec) = ltb 0 s.timer_waits

  unfoldable pub step : Sigint A → Event A → Outcome (Sigint A)
  step s stops = done (stop s)
  step s (adds a) = done (add_slot s a)
  step s (signalled ec is_sigint) =
      handle_signal (record s { signal_waits = s.signal_waits - 1 }) ec is_sigint
  step s (timed ec) = done (handle_timer (record s { timer_waits = s.timer_waits - 1 }) ec)

  abbrev pub added : Event A → List A
  added stops = []
  added (adds a) = a ∷ []
  added (signalled ec is_sigint) = []
  added (timed ec) = []

-- The states reached after `start` while the process lives. Its index: the slots added.
pub data Reach {A : Type 0} : List A → Sigint A → Type 0 where
  started : Reach [] (start sigint_state)
  next :
      {as' : List A} {s : Sigint A} (e : Event A) (s' : Sigint A)
      → Reach as' s
      → s.exit_code ≡ none
      → enabled s e ≡ true
      → step s e ≡ done s'
      → Reach (as' ++ added e) s'
