-- ===== src/EchoServer/System/Calls.antt =====
-- The calls for one connection among all that are pending.
use mathlib.Core.List.{append-nil}
use boost_beast_websocket_ec.Prelude.{
  ◌⊎◌, ℕ, suc, ◌≤◌, ◌≡◌, refl, sym, ◌∙◌, Bool, true, false, ◌==◌, ==_iff, List, [], ◌∷◌, ◌++◌,
  length, if◌then◌else◌, arith, inl, inr, ErrorCode,
}
use boost_beast_websocket_ec.Prelude.Text.{Text}
use boost_beast_websocket_ec.Prelude.Endpoint.{Endpoint}
use boost_beast_websocket_ec.Prelude.Table.{Table, occurrences, assign}
use boost_beast_websocket_ec.EchoServer.Server.{
  Server, Call, runs, stops, sends, send_all, stop_all, greetings, handle_accept, handle_stop,
}
use boost_beast_websocket_ec.EchoServer.Server.Laws as ServerLaws

unfoldable pub calls_of : ℕ → List (ℕ × Call) → List Call
calls_of p [] = []
calls_of p ((q, call) ∷ cs) = let rest = calls_of p cs in if p == q then call ∷ rest else rest

pub calls_of-append :
    (p : ℕ) (cs ds : List (ℕ × Call)) → calls_of p (cs ++ ds) ≡ calls_of p cs ++ calls_of p ds
unfolding calls_of
calls_of-append p [] ds = refl
calls_of-append p ((q, call) ∷ cs) ds = ground (arith, calls_of-append p cs ds)

-- A connection that has run is not run again.
abbrev pub NoRuns : List Call → Type 0
NoRuns [] = Unit {0}
NoRuns (runs ∷ cs) = ⊥
NoRuns (stops ∷ cs) = NoRuns cs
NoRuns (sends m ∷ cs) = NoRuns cs

-- It is run first.
abbrev pub RunsFirst : List Call → Type 0
RunsFirst [] = ⊥
RunsFirst (runs ∷ cs) = NoRuns cs
RunsFirst (stops ∷ cs) = ⊥
RunsFirst (sends m ∷ cs) = ⊥

abbrev pub Stops : List Call → Type 0
Stops [] = ⊥
Stops (stops ∷ cs) = Unit {0}
Stops (runs ∷ cs) = Stops cs
Stops (sends m ∷ cs) = Stops cs

pub NoRuns-append : (cs ds : List Call) → NoRuns cs → NoRuns ds → NoRuns (cs ++ ds)
NoRuns-append [] ds h k = k
NoRuns-append (runs ∷ cs) ds h k = absurd h
NoRuns-append (stops ∷ cs) ds h k = NoRuns-append cs ds h k
NoRuns-append (sends m ∷ cs) ds h k = NoRuns-append cs ds h k

pub RunsFirst-append : (cs ds : List Call) → RunsFirst cs → NoRuns ds → RunsFirst (cs ++ ds)
RunsFirst-append [] ds h k = absurd h
RunsFirst-append (runs ∷ cs) ds h k = NoRuns-append cs ds h k
RunsFirst-append (stops ∷ cs) ds h k = absurd h
RunsFirst-append (sends m ∷ cs) ds h k = absurd h

pub Stops-append : (cs ds : List Call) → Stops cs → Stops (cs ++ ds)
Stops-append [] ds h = absurd h
Stops-append (stops ∷ cs) ds h = tt
Stops-append (runs ∷ cs) ds h = Stops-append cs ds h
Stops-append (sends m ∷ cs) ds h = Stops-append cs ds h

pub Stops-append_right : (cs ds : List Call) → Stops ds → Stops (cs ++ ds)
Stops-append_right [] ds h = h
Stops-append_right (stops ∷ cs) ds h = tt
Stops-append_right (runs ∷ cs) ds h = Stops-append_right cs ds h
Stops-append_right (sends m ∷ cs) ds h = Stops-append_right cs ds h

-- What a stop of the server calls.
stop_all-NoRuns : (alive : ℕ → Bool) (p : ℕ) (t : Table) → NoRuns (calls_of p (stop_all alive t))
unfolding calls_of
stop_all-NoRuns alive p [] = tt
stop_all-NoRuns alive p ((ep, q) ∷ t) = ground (arith, stop_all-NoRuns alive p t)

stop_all-absent :
    (alive : ℕ → Bool) (p : ℕ) (t : Table)
    → occurrences p t ≡ 0
    → calls_of p (stop_all alive t) ≡ []
unfolding calls_of
stop_all-absent alive p [] h = refl
stop_all-absent alive p ((ep, q) ∷ t) h = ground (arith, stop_all-absent alive p t)

pub stop_all-Stops :
    (alive : ℕ → Bool) (p : ℕ) (t : Table)
    → alive p ≡ true
    → 1 ≤ occurrences p t
    → Stops (calls_of p (stop_all alive t))
unfolding calls_of
stop_all-Stops alive p [] a h = absurd (omega arith)
stop_all-Stops alive p ((ep, q) ∷ t) a h = ground (arith, stop_all-Stops alive p t, ==_iff p q)

pub send_all-absent :
    (p q : ℕ) (ms : List Text) → (p == q) ≡ false → calls_of p (send_all q ms) ≡ []
unfolding calls_of
send_all-absent p q [] h = refl
send_all-absent p q (m ∷ ms) h = ground (arith, send_all-absent p q ms)

pub send_all-NoRuns : (p q : ℕ) (ms : List Text) → NoRuns (calls_of p (send_all q ms))
unfolding calls_of
send_all-NoRuns p q [] = tt
send_all-NoRuns p q (m ∷ ms) = ground (arith, send_all-NoRuns p q ms)

-- What a step of the server makes and calls: at most one connection, which it runs first, and the
-- connections of its table at most.
pub data Serves (s s' : Server) : Type 0 where
  keeps :
      (cs : List (ℕ × Call))
      → s'.created ≡ s.created
      → s'.calls ≡ s.calls ++ cs
      → ((p : ℕ) → NoRuns (calls_of p cs))
      → ((p : ℕ) → s.created ≤ p → calls_of p cs ≡ [])
      → Serves s s'
  greets :
      (ms : List Text)
      → s'.created ≡ suc s.created
      → s'.calls ≡ s.calls ++ (s.created, runs) ∷ send_all s.created ms
      → Serves s s'

-- An accept calls nothing, or runs and greets the connection that it makes.
accept_calls :
    (s : Server) (ec : ErrorCode) (ep : Endpoint)
    → let s' = ServerLaws.step s (ServerLaws.accepted ec ep) in
      ((s'.created ≡ s.created) × (s'.calls ≡ s.calls))
      ⊎ ((s'.created ≡ suc s.created)
          × (s'.calls
              ≡ s.calls
                ++ (s.created, runs)
                  ∷ send_all s.created (greetings ep (length (assign ep s.created s.connections)))))
unfolding ServerLaws.step handle_accept
accept_calls s ec ep = ground arith

handle_accept-Serves :
    (s : Server) (ec : ErrorCode) (ep : Endpoint)
    → Serves s (ServerLaws.step s (ServerLaws.accepted ec ep))
unfolding calls_of
handle_accept-Serves s ec ep = elim (accept_calls s ec ep) [
  | inl h ↦ keeps [] h.0 (h.1 ∙ sym (append-nil s.calls)) (λ p. tt) (λ p k. refl)
  | inr h ↦ greets (greetings ep (length (assign ep s.created s.connections))) h.0 h.1
]

pub step-Serves :
    (s : Server) (e : ServerLaws.Event) → ServerLaws.IsValid s → Serves s (ServerLaws.step s e)
unfolding ServerLaws.step handle_stop
step-Serves s (ServerLaws.accepted ec ep) v = handle_accept-Serves s ec ep
step-Serves s (ServerLaws.stopped alive) v =
    keeps (stop_all alive s.connections) refl refl (λ p. stop_all-NoRuns alive p s.connections)
      (λ p h. stop_all-absent alive p s.connections (ground (arith, v.distinct p)))
