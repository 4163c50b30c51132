-- ===== src/Blog/Application/Tests.antt =====
-- An application that is interrupted twice while its connection resolves a name.
use boost_beast_websocket_ec.Prelude.{
  ◌≡◌, refl, Bool, true, false, some, [], ◌∷◌, success, ErrorCode,
}
use boost_beast_websocket_ec.Prelude.Text.{Text, codes}
use boost_beast_websocket_ec.Blog.Transport
use boost_beast_websocket_ec.Blog.Transport.{Parsed, hello}
use boost_beast_websocket_ec.Blog.Sigint
use boost_beast_websocket_ec.Blog.Sigint.{Sigint}
use boost_beast_websocket_ec.Blog.Application.{
  stop_fmex, Application, application, start, call_slots, interrupted, enabled, step, Reach,
  started, next,
}
use boost_beast_websocket_ec.Blog.Application.Laws.{Embeds, application-Embeds, interrupt_lost}

-- every frame reads as the greeting
abbrev parse : Text → Parsed
parse frame = hello

abbrev subscribe : Text
subscribe = codes "sub"

running : Application
unfolding application Sigint.sigint_state Transport.fmex_connection
running = record {
  sigint = record (application.sigint) {
    signals = stop_fmex ∷ [];
    state = Sigint.waiting;
    signal_waits = 1;
  };
  fmex = record (application.fmex) {
    state = Transport.connecting;
    stage = some Transport.resolving;
  };
}

confirming : Application
unfolding running
confirming = record running {
  sigint = record (running.sigint) { state = Sigint.confirming; timer_waits = 1 };
}

ended : Application
unfolding confirming
ended = record confirming {
  sigint = record (confirming.sigint) {
    signals = [];
    state = Sigint.exit_state;
    signal_waits = 0;
    timer_cancels = 1;
    emitted = stop_fmex ∷ [];
  };
}

confirming-Reach : Reach parse subscribe confirming
unfolding confirming start application Sigint.start Sigint.sigint_state Sigint.add_slot
    Transport.start step Sigint.step Sigint.handle_signal
confirming-Reach =
    next (interrupted (Sigint.signalled success true)) _ (started {a = running} refl) refl refl

application-Embeds_example : Embeds parse subscribe confirming
application-Embeds_example = application-Embeds parse subscribe confirming-Reach

interrupt_lost_example :
    (ended.fmex ≡ confirming.fmex)
    × (ended.sigint.emitted ≡ stop_fmex ∷ [])
    × ((ec : ErrorCode) (is_sigint : Bool)
        → enabled ended (interrupted (Sigint.signalled ec is_sigint)) ≡ false)
unfolding ended step Sigint.step Sigint.handle_signal call_slots Transport.stop
interrupt_lost_example =
    interrupt_lost parse subscribe (Sigint.signalled success true) ended confirming-Reach refl refl
      refl
