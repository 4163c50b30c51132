-- ===== src/Blog/Sigint/Tests.antt =====
-- Two interrupts in a row, with a slot added before and one after.
use boost_beast_websocket_ec.Prelude.{ℕ, ◌≡◌, refl, true, [], ◌∷◌, ◌++◌, success, Returns}
use boost_beast_websocket_ec.Blog.Sigint.{
  Sigint, waiting, confirming, exit_state, sigint_state, start, handle_signal, add_slot, Event,
  adds, signalled, timed, step, Reach, started, next,
}
use boost_beast_websocket_ec.Blog.Sigint.Laws.{
  IsValid, sigint-IsValid, emitted-added, exit_confirmed,
}

abbrev interrupt : Event ℕ
interrupt = signalled success true

-- The slot 10 is added, and an interrupt waits for its confirmation.
unconfirmed : Sigint ℕ
unfolding start sigint_state
unconfirmed = record (start sigint_state) { signals = 10 ∷ []; state = confirming; timer_waits = 1 }

shut_down : Sigint ℕ
unfolding unconfirmed
shut_down = record unconfirmed {
  signals = [];
  state = exit_state;
  signal_waits = 0;
  timer_cancels = 1;
  emitted = 10 ∷ 20 ∷ [];
}

unconfirmed-Reach : Reach (10 ∷ []) unconfirmed
unfolding unconfirmed step add_slot handle_signal
unconfirmed-Reach = next interrupt _ (next (adds 10) _ started refl refl refl) refl refl refl

shut_down-Reach : Reach (10 ∷ 20 ∷ []) shut_down
unfolding shut_down step add_slot handle_signal
shut_down-Reach =
    next (adds 20) _ (next interrupt _ unconfirmed-Reach refl refl refl) refl refl refl

sigint-IsValid_case : IsValid shut_down
sigint-IsValid_case = sigint-IsValid shut_down-Reach

emitted-added_case : shut_down.emitted ++ shut_down.signals ≡ 10 ∷ 20 ∷ []
emitted-added_case = emitted-added shut_down-Reach

exit_confirmed_case :
    (unconfirmed.state ≡ confirming)
    × (interrupt ≡ signalled success true)
    × (Returns (λ t. t.state ≡ waiting) (step unconfirmed (timed success)))
unfolding unconfirmed shut_down step handle_signal
exit_confirmed_case =
    exit_confirmed unconfirmed interrupt (record shut_down { emitted = 10 ∷ [] }) refl refl refl
