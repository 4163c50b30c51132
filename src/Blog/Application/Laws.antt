-- ===== src/Blog/Application/Laws.antt =====
-- The application's parts are as they are reached on their own, and what a confirmed interrupt does.
use mathlib.Core.List.{append-nil}
use boost_beast_websocket_ec.Prelude.{
  first_done, done_injective, ◌≡◌, refl, ap, sym, subst, ◌∙◌, Bool, true, false, not, ◌&&◌, none,
  some, Option, is_some, List, [], ◌∷◌, ◌++◌, ErrorCode, done, arith, length, drop,
}
use boost_beast_websocket_ec.Prelude.Text.{Text}
use boost_beast_websocket_ec.Blog.Transport
use boost_beast_websocket_ec.Blog.Transport.{Fmex, Parsed, fmex_connection}
use boost_beast_websocket_ec.Blog.Transport.Steps
use boost_beast_websocket_ec.Blog.Sigint
use boost_beast_websocket_ec.Blog.Sigint.{Sigint, sigint_state, add_slot, is_exit}
use boost_beast_websocket_ec.Blog.Sigint.Laws.{sigint-IsValid, emitted-added}
use boost_beast_websocket_ec.Blog.Application.{
  Slot, stop_fmex, Application, application, start, call_slots, interrupted, connection,
  is_completion, is_start, enabled, step, Reach, started, next,
}

call_slots_same : (slots : List Slot) (f : Fmex) → call_slots slots f ≡ f
unfolding call_slots Transport.stop
call_slots_same [] f = refl
call_slots_same (stop_fmex ∷ slots) f = call_slots_same slots f

-- A conjunction of two tests, the second of which is a conjunction with `not (is_some o)`.
all_true :
    {A : Type 0} (x y : Bool) (o : Option A)
    → (x && (y && not (is_some o))) ≡ true
    → (x ≡ true) × (y ≡ true) × (o ≡ none)
all_true true true none h = (refl, refl, refl)
all_true true true (some a) h = absurd (ground arith)
all_true true false o h = absurd (ground arith)
all_true false y o h = absurd (ground arith)

added_none : (e : Sigint.Event Slot) → is_completion e ≡ true → Sigint.added e ≡ []
added_none Sigint.stops h = refl
added_none (Sigint.adds a) h = absurd (ground arith)
added_none (Sigint.signalled ec is_sigint) h = refl
added_none (Sigint.timed ec) h = refl

module _ (parse : Text → Parsed) (subscribe : Text) where
  -- The signals with the one slot added, and the connection, as each is reached on its own.
  pub record Embeds (a : Application) : Type 0 where
    pub signals : Sigint.Reach (stop_fmex ∷ []) a.sigint
    pub transport : Steps.Reach parse subscribe a.fmex

  interrupted-step :
      (a : Application) (e : Sigint.Event Slot) (a' : Application)
      → step parse subscribe a (interrupted e) ≡ done a'
      → (Sigint.step a.sigint e ≡ done a'.sigint) × (a'.fmex ≡ a.fmex)
  unfolding step
  interrupted-step a e a' h =
      let (s, p, q) = first_done (Sigint.step a.sigint e) _ h in
      let r = done_injective q in
      (
        p ∙ ap (λ b. done b.sigint) r,
        ap (λ b. b.fmex) (sym r)
            ∙ call_slots_same (drop (length a.sigint.emitted) s.emitted) a.fmex,
      )

  connection-step :
      (a : Application) (e : Steps.Event) (a' : Application)
      → step parse subscribe a (connection e) ≡ done a'
      → (Steps.step parse subscribe a.fmex e ≡ done a'.fmex) × (a'.sigint ≡ a.sigint)
  unfolding step
  connection-step a e a' h =
      let (f, p, q) = first_done (Steps.step parse subscribe a.fmex e) _ h in
      let r = done_injective q in (p ∙ ap (λ b. done b.fmex) r, ap (λ b. b.sigint) (sym r))

  started-Embeds : (a : Application) → start application ≡ done a → Embeds a
  unfolding start application Sigint.start sigint_state add_slot Transport.start fmex_connection
      Sigint.step Steps.step
  started-Embeds a h = subst Embeds (done_injective h) (record {
    signals = Sigint.next (Sigint.adds stop_fmex) _ Sigint.started refl refl refl;
    transport = Steps.next Steps.starts _ Steps.fresh refl refl;
  })

  pub application-Embeds : {a : Application} → Reach parse subscribe a → Embeds a
  application-Embeds (started {a = a} h) = started-Embeds a h
  application-Embeds (next {a = a} (interrupted e) a' r en h) =
      let old = application-Embeds r in
      let (p, q) = interrupted-step a e a' h in
      let (c, n, x) =
        all_true (is_completion e) (Sigint.enabled a.sigint e) a.sigint.exit_code en in
      record {
        signals =
            subst (λ xs. Sigint.Reach xs a'.sigint) (ap (stop_fmex ∷◌) (added_none e c))
              (Sigint.next e a'.sigint old.signals x n p);
        transport = subst (Steps.Reach parse subscribe) (sym q) old.transport;
      }
  application-Embeds (next {a = a} (connection e) a' r en h) =
      let old = application-Embeds r in
      let (p, q) = connection-step a e a' h in
      let (c, n, x) = all_true (not (is_start e)) (Steps.enabled a.fmex e) a.sigint.exit_code en in
      record {
        signals = subst (Sigint.Reach (stop_fmex ∷ [])) (sym q) old.signals;
        transport = Steps.next e a'.fmex old.transport n p;
      }

  -- For every event of the signals that brings a reached application into the exit state, or finds it
  -- there: the one slot has been called, once; the connection is as it was before the event, with all
  -- that it waits for; and no further signal is waited for.
  pub interrupt_lost :
      {a : Application} (e : Sigint.Event Slot) (a' : Application)
      → Reach parse subscribe a
      → enabled a (interrupted e) ≡ true
      → step parse subscribe a (interrupted e) ≡ done a'
      → is_exit a'.sigint.state ≡ true
      → (a'.fmex ≡ a.fmex)
        × (a'.sigint.emitted ≡ stop_fmex ∷ [])
        × ((ec : ErrorCode) (is_sigint : Bool)
            → enabled a' (interrupted (Sigint.signalled ec is_sigint)) ≡ false)
  interrupt_lost {a} e a' r en h x =
      let signals = (application-Embeds (next (interrupted e) a' r en h)).signals in
      let v = sigint-IsValid signals in
      (
        (interrupted-step a e a' h).1,
        sym (append-nil a'.sigint.emitted)
            ∙ ap (a'.sigint.emitted ++◌) (sym (v.emitted_all x))
            ∙ emitted-added signals,
        λ ec is_sigint. ground (arith, v.exit_quiet x),
      )
