-- ===== src/Blog/Sigint/Laws.antt =====
-- When the interrupt takes effect, and which slots are called.
use mathlib.Core.List.{append-nil, append_assoc}
use boost_beast_websocket_ec.Prelude.{
  ◌≤◌, ◌≡◌, ◌≢◌, refl, ap, ◌∙◌, true, false, List, [], ◌∷◌, ◌++◌, success, done, Returns, arith,
}
use boost_beast_websocket_ec.Blog.Sigint.{
  inactive, waiting, confirming, is_exit, Sigint, sigint_state, start, stop, handle_signal,
  handle_timer, add_slot, Event, stops, adds, signalled, timed, enabled, step, added, Reach,
  started, next,
}

module _ {A : Type 0} where
  pub record IsValid (s : Sigint A) : Type 0 where
    pub running : s.state ≢ inactive
    pub one_wait : s.signal_waits ≤ 1
    pub one_timer : s.timer_waits ≤ 1
    pub timer_off : s.state ≡ waiting → s.timer_waits ≡ 0
    pub exit_quiet : is_exit s.state ≡ true → s.signal_waits ≡ 0
    pub emitted_last : is_exit s.state ≡ false → s.emitted ≡ []
    pub emitted_all : is_exit s.state ≡ true → s.signals ≡ []

  step-IsValid :
      (s : Sigint A) (e : Event A) (s' : Sigint A)
      → IsValid s
      → enabled s e ≡ true
      → step s e ≡ done s'
      → IsValid s'
  unfolding step stop add_slot handle_signal handle_timer
  step-IsValid s stops s' v en st = ground arith
  step-IsValid s (adds a) s' v en st = ground arith
  step-IsValid s (signalled ec is_sigint) s' v en st = ground arith
  step-IsValid s (timed ec) s' v en st = ground arith

  step-slots :
      (s : Sigint A) (e : Event A) (s' : Sigint A)
      → IsValid s
      → step s e ≡ done s'
      → s'.emitted ++ s'.signals ≡ (s.emitted ++ s.signals) ++ added e
  unfolding step stop add_slot handle_signal handle_timer
  step-slots s stops s' v st = ground (arith, append-nil (s.emitted ++ s.signals))
  step-slots s (adds a) s' v st = ground (
    arith,
    append-nil s.emitted,
    append-nil (s.emitted ++ a ∷ []),
    append_assoc s.emitted s.signals (a ∷ []),
  )
  step-slots s (signalled ec is_sigint) s' v st =
      ground
        (arith, append-nil s.emitted, append-nil (s.emitted ++ s.signals), append-nil s.signals)
  step-slots s (timed ec) s' v st = ground (arith, append-nil (s.emitted ++ s.signals))

  -- In every reached state one wait for a signal and one for the timer at most are going on, no slot
  -- is called before the exit state, and in the exit state none is left to be called.
  pub sigint-IsValid : {as' : List A} {s : Sigint A} → Reach as' s → IsValid s
  unfolding start sigint_state
  sigint-IsValid started = ground arith
  sigint-IsValid (next {s = s} e s' reach alive en st) =
      step-IsValid s e s' (sigint-IsValid reach) en st

  -- Every slot is called once, in the order in which the slots were added: those called, followed by
  -- those still held, are all that were added.
  pub emitted-added : {as' : List A} {s : Sigint A} → Reach as' s → s.emitted ++ s.signals ≡ as'
  unfolding start sigint_state
  emitted-added started = refl
  emitted-added (next {s = s} e s' reach alive en st) =
      step-slots s e s' (sigint-IsValid reach) st ∙ ap (λ xs. xs ++ added e) (emitted-added reach)

  -- The exit state is entered by a signal without error only, and only while a first interrupt
  -- waits for its confirmation; the expiry of the timer takes that confirmation back.
  pub exit_confirmed :
      (s : Sigint A) (e : Event A) (s' : Sigint A)
      → step s e ≡ done s'
      → is_exit s.state ≡ false
      → is_exit s'.state ≡ true
      → (s.state ≡ confirming)
        × (e ≡ signalled success true)
        × (Returns (λ t. t.state ≡ waiting) (step s (timed success)))
  unfolding step stop add_slot handle_signal handle_timer
  exit_confirmed s stops s' st b a = ground arith
  exit_confirmed s (adds x) s' st b a = ground arith
  exit_confirmed s (signalled ec is_sigint) s' st b a = ground arith
  exit_confirmed s (timed ec) s' st b a = ground arith
