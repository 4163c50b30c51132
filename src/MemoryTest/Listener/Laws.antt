-- ===== src/MemoryTest/Listener/Laws.antt =====
-- What a listener does with the codes of its acceptor.
use mathlib.Core.List.{append-nil, append_assoc}
use boost_beast_websocket_ec.Prelude.{
  ◌+◌, ◌-◌, ◌≡◌, refl, ap, sym, ◌∙◌, inl, inr, List, [], ◌∷◌, ◌++◌, if◌then◌else◌, Bool-cases,
  ErrorCode, is_error, arith,
}
use boost_beast_websocket_ec.MemoryTest.Listener.{
  Operation, open_acceptor, set_option, bind, listen, accept, Setup, Listener, listener, run,
  on_accept, accepted,
}

-- The calls of the constructor with their codes, in order.
abbrev pub setup_calls : Setup → List (Operation × ErrorCode)
setup_calls codes =
    (open_acceptor, codes.open_ec)
    ∷ ((set_option, codes.set_option_ec)
        ∷ ((bind, codes.bind_ec) ∷ ((listen, codes.listen_ec) ∷ [])))

-- Those up to the first that fails, and that one.
abbrev pub made : List (Operation × ErrorCode) → List Operation
made [] = []
made ((o, ec) ∷ cs) = let rest = made cs in if is_error ec then o ∷ [] else o ∷ rest

abbrev pub first_failed : List (Operation × ErrorCode) → List Operation
first_failed [] = []
first_failed ((o, ec) ∷ cs) = let rest = first_failed cs in if is_error ec then o ∷ [] else rest

module _ {Socket : Type 0} where
  abbrev pub sockets : List (ErrorCode × Socket) → List Socket
  sockets [] = []
  sockets ((ec, socket) ∷ cs) = let rest = sockets cs in if is_error ec then rest else socket ∷ rest

  abbrev pub accept_failures : List (ErrorCode × Socket) → List Operation
  accept_failures [] = []
  accept_failures ((ec, socket) ∷ cs) =
      let rest = accept_failures cs in if is_error ec then accept ∷ rest else rest

  -- What one listener and another differ by after some completions.
  pub record Accepted (l : Listener Socket) (cs : List (ErrorCode × Socket)) (r : Listener Socket)
      : Type 0 where
    pub same_setup : r.setup ≡ l.setup
    pub one_accept : r.accepts ≡ 1
    pub all_sessions : r.sessions ≡ l.sessions ++ sockets cs
    pub all_failures : r.failed ≡ l.failed ++ accept_failures cs

  -- one completion, before others
  Accepted-one :
      (ec : ErrorCode) (socket : Socket) (cs : List (ErrorCode × Socket)) (l : Listener Socket)
      → (l.setup ≡ (on_accept ec socket l).setup)
        × ((on_accept ec socket l).accepts ≡ l.accepts + 1)
        × ((on_accept ec socket l).sessions ++ sockets cs
            ≡ l.sessions ++ sockets ((ec, socket) ∷ cs))
        × ((on_accept ec socket l).failed ++ accept_failures cs
            ≡ l.failed ++ accept_failures ((ec, socket) ∷ cs))
  unfolding on_accept
  Accepted-one ec socket cs l = elim (Bool-cases (is_error ec)) [
    | inl e ↦ rw (e) (refl, refl, refl, append_assoc l.failed (accept ∷ []) (accept_failures cs))
    | inr e ↦ rw (e) (refl, refl, append_assoc l.sessions (socket ∷ []) (sockets cs), refl)
  ]

  accepted-Accepted :
      (cs : List (ErrorCode × Socket)) (l : Listener Socket)
      → l.accepts ≡ 1
      → Accepted l cs (accepted cs l)
  unfolding accepted
  accepted-Accepted [] l h = record {
    same_setup = refl;
    one_accept = h;
    all_sessions = sym (append-nil l.sessions);
    all_failures = sym (append-nil l.failed);
  }
  accepted-Accepted ((ec, socket) ∷ cs) l h =
      let idle = record l { accepts = l.accepts - 1 } in
      let one = Accepted-one ec socket cs idle in
      let r = accepted-Accepted cs (on_accept ec socket idle) (omega (arith, h, one.1)) in
      record {
        same_setup = r.same_setup ∙ sym one.0;
        one_accept = r.one_accept;
        all_sessions = r.all_sessions ∙ one.2;
        all_failures = r.all_failures ∙ one.3;
      }

  listener_setup :
      (codes : Setup)
      → ((listener {Socket = Socket} codes).setup ≡ made (setup_calls codes))
        × ((listener {Socket = Socket} codes).failed ≡ first_failed (setup_calls codes))
        × ((listener {Socket = Socket} codes).sessions ≡ [])
        × ((listener {Socket = Socket} codes).accepts ≡ 0)
  unfolding listener
  listener_setup codes = elim (Bool-cases (is_error codes.open_ec)) [
    | inl a ↦ rw (a) (refl, refl, refl, refl)
    | inr a ↦ (elim (Bool-cases (is_error codes.set_option_ec)) [
      | inl b ↦ rw (a, b) (refl, refl, refl, refl)
      | inr b ↦ (elim (Bool-cases (is_error codes.bind_ec)) [
        | inl c ↦ rw (a, b, c) (refl, refl, refl, refl)
        | inr c ↦ (elim (Bool-cases (is_error codes.listen_ec)) [
          | inl d ↦ rw (a, b, c, d) (refl, refl, refl, refl)
          | inr d ↦ rw (a, b, c, d) (refl, refl, refl, refl)
        ])
      ])
    ])
  ]

  -- What a listener has come to after the codes of its constructor and some completions.
  pub record Serving (codes : Setup) (cs : List (ErrorCode × Socket)) (l : Listener Socket)
      : Type 0 where
    pub calls_made : l.setup ≡ made (setup_calls codes)
    pub accepting : l.accepts ≡ 1
    pub sessions_run : l.sessions ≡ sockets cs
    pub all_printed : l.failed ≡ first_failed (setup_calls codes) ++ accept_failures cs

  -- For every code that a call of the constructor gives, and every sequence of completed accepts after
  -- run, the constructor has made the calls up to the first that failed, one accept is going on, the
  -- sessions run are those of the sockets accepted, in order, and what is printed is that failed call
  -- and each failed accept: the listener goes on after any failure, of its set-up as well.
  pub listener_goes_on :
      (codes : Setup) (cs : List (ErrorCode × Socket))
      → Serving codes cs (accepted cs (run (listener codes)))
  unfolding run
  listener_goes_on codes cs =
      let s = listener_setup codes in
      let a = accepted-Accepted cs (run (listener codes)) (omega (arith, s.3)) in
      record {
        calls_made = a.same_setup ∙ s.0;
        accepting = a.one_accept;
        sessions_run = a.all_sessions ∙ ap (◌++ sockets cs) s.2;
        all_printed = a.all_failures ∙ ap (◌++ accept_failures cs) s.1;
      }
