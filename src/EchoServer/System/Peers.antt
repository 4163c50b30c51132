-- ===== src/EchoServer/System/Peers.antt =====
-- A connection of the server among the others, and the calls that are pending for it.
use boost_beast_websocket_ec.Prelude.{
  ℕ, zero, suc, ◌<◌, ◌≡◌, refl, ap, sym, subst, ◌∙◌, ◌⊎◌, inl, inr, true, false, ◌==◌, ==_iff,
  Option-cases, none, some, List, [], ◌∷◌, ◌++◌, length, drop, Outcome, done, first_done,
  done_injective, arith,
}
use boost_beast_websocket_ec.Prelude.Text.{Text}
use boost_beast_websocket_ec.EchoServer.Connection.{Connection, connection_impl}
use boost_beast_websocket_ec.EchoServer.Connection.Steps as ConnectionSteps
use boost_beast_websocket_ec.EchoServer.Server.{Call, runs, stops, sends}
use boost_beast_websocket_ec.EchoServer.Server.Laws as ServerLaws
use boost_beast_websocket_ec.EchoServer.System.{
  System, peer_at, set_peer, is_own, change_peer, change_found,
}
use boost_beast_websocket_ec.EchoServer.System.Calls.{
  calls_of, NoRuns, RunsFirst, NoRuns-append, RunsFirst-append,
}

-- A connection that a run of its own reaches.
abbrev pub Ran : Connection → Type 0
Ran c = (qs : List Text) × ((ws : List Text) × ((n : ℕ) × ConnectionSteps.Reach qs ws n c))

-- A connection and the calls that are pending for it: it is as it was constructed and is run first, or
-- it has been run and is not run again.
abbrev pub Peer : Connection → List Call → Type 0
Peer c cs = ((c ≡ connection_impl) × RunsFirst cs) ⊎ (Ran c × NoRuns cs)

pub Peer-append : (c : Connection) (cs ds : List Call) → Peer c cs → NoRuns ds → Peer c (cs ++ ds)
Peer-append c cs ds (inl (e, h)) k = inl (e, RunsFirst-append cs ds h k)
Peer-append c cs ds (inr (r, h)) k = inr (r, NoRuns-append cs ds h k)

Ran-next :
    (c : Connection) (e : ConnectionSteps.Event) (c' : Connection)
    → Ran c
    → ConnectionSteps.enabled c e ≡ true
    → ConnectionSteps.step c e ≡ done c'
    → Ran c'
Ran-next c e c' (qs, (ws, (n, r))) en st = (_, (_, (_, ConnectionSteps.next e c' r en st)))

-- The first of its calls is performed.
pub Peer-performs :
    (c : Connection) (call : Call) (cs : List Call) (c' : Connection)
    → Peer c (call ∷ cs)
    → ServerLaws.perform c call ≡ done c'
    → Peer c' cs
unfolding ServerLaws.perform ConnectionSteps.step
Peer-performs c runs cs c' (inl (e, h)) st = inr (
  ([], ([], (0, ConnectionSteps.start c' (subst (λ d. ServerLaws.perform d runs ≡ done c') e st)))),
  h,
)
Peer-performs c stops cs c' (inl (e, h)) st = absurd h
Peer-performs c (sends m) cs c' (inl (e, h)) st = absurd h
Peer-performs c runs cs c' (inr (r, h)) st = absurd h
Peer-performs c stops cs c' (inr (r, h)) st = inr (Ran-next c ConnectionSteps.stops c' r refl st, h)
Peer-performs c (sends m) cs c' (inr (r, h)) st =
    inr (Ran-next c (ConnectionSteps.sends m) c' r refl st, h)

-- Nothing of a connection that has not been run completes.
idle :
    (e : ConnectionSteps.Event)
    → is_own e ≡ true
    → ConnectionSteps.enabled connection_impl e ≡ true
    → ⊥
unfolding connection_impl
idle (ConnectionSteps.sends m) o en = ground arith
idle ConnectionSteps.stops o en = ground arith
idle (ConnectionSteps.accepted ec) o en = ground arith
idle (ConnectionSteps.received ec bytes) o en = ground arith
idle (ConnectionSteps.wrote ec) o en = ground arith
idle (ConnectionSteps.timed ec) o en = ground arith

pub Peer-goes :
    (c : Connection) (e : ConnectionSteps.Event) (cs : List Call) (c' : Connection)
    → Peer c cs
    → is_own e ≡ true
    → ConnectionSteps.enabled c e ≡ true
    → ConnectionSteps.step c e ≡ done c'
    → Peer c' cs
Peer-goes c e cs c' (inl (q, h)) o en st =
    absurd (idle e o (subst (λ d. ConnectionSteps.enabled d e ≡ true) q en))
Peer-goes c e cs c' (inr (r, h)) o en st = inr (Ran-next c e c' r en st, h)

pub drop-prefix : (xs ys : List (ℕ × Call)) → drop (length xs) (xs ++ ys) ≡ ys
drop-prefix [] ys = refl
drop-prefix (x ∷ xs) ys = drop-prefix xs ys

pub peer_at-less :
    (p : ℕ) (cs : List Connection) {c : Connection} → peer_at p cs ≡ some c → p < length cs
peer_at-less p [] h = absurd (ground arith)
peer_at-less zero (d ∷ cs) h = omega arith
peer_at-less (suc p) (d ∷ cs) h = omega (arith, peer_at-less p cs h)

-- A connection is the new one, or one of those before it.
pub peer_at-append :
    (p : ℕ) (cs : List Connection) (d : Connection) {c : Connection}
    → peer_at p (cs ++ d ∷ []) ≡ some c
    → (peer_at p cs ≡ some c) ⊎ ((p ≡ length cs) × (c ≡ d))
peer_at-append zero [] d h = inr (refl, cc)
peer_at-append (suc p) [] d h = absurd (ground arith)
peer_at-append zero (x ∷ cs) d h = inl h
peer_at-append (suc p) (x ∷ cs) d h = elim (peer_at-append p cs d h) [
  | inl e ↦ inl e
  | inr (e, k) ↦ inr (ap suc e, k)
]

pub length-set_peer :
    (p : ℕ) (c : Connection) (cs : List Connection) → length (set_peer p c cs) ≡ length cs
length-set_peer p c [] = refl
length-set_peer zero c (d ∷ ds) = refl
length-set_peer (suc p) c (d ∷ ds) = ap suc (length-set_peer p c ds)

-- Only the connection that is set changes.
pub peer_at-set_peer :
    (p q : ℕ) (c : Connection) (cs : List Connection) {d : Connection}
    → peer_at q (set_peer p c cs) ≡ some d
    → ((q ≡ p) × (d ≡ c)) ⊎ (((q == p) ≡ false) × (peer_at q cs ≡ some d))
peer_at-set_peer p q c [] h = absurd (ground arith)
peer_at-set_peer zero zero c (x ∷ xs) h = inl (refl, cc)
peer_at-set_peer zero (suc q) c (x ∷ xs) h = inr (ground arith, h)
peer_at-set_peer (suc p) zero c (x ∷ xs) h = inr (ground arith, h)
peer_at-set_peer (suc p) (suc q) c (x ∷ xs) h = elim (peer_at-set_peer p q c xs h) [
  | inl (e, k) ↦ inl (ap suc e, k)
  | inr (e, k) ↦ inr (ground (arith, ==_iff p q, ==_iff q p), k)
]

pub peer_at-set_self :
    (p : ℕ) (c : Connection) (cs : List Connection) {d : Connection}
    → peer_at p cs ≡ some d
    → peer_at p (set_peer p c cs) ≡ some c
peer_at-set_self p c [] h = absurd (ground arith)
peer_at-set_self zero c (x ∷ xs) h = refl
peer_at-set_self (suc p) c (x ∷ xs) h = peer_at-set_self p c xs h

pub peer_at-set_other :
    (p q : ℕ) (c : Connection) (cs : List Connection)
    → (q == p) ≡ false
    → peer_at q (set_peer p c cs) ≡ peer_at q cs
peer_at-set_other p q c [] h = refl
peer_at-set_other zero zero c (x ∷ xs) h = absurd (ground arith)
peer_at-set_other zero (suc q) c (x ∷ xs) h = refl
peer_at-set_other (suc p) zero c (x ∷ xs) h = refl
peer_at-set_other (suc p) (suc q) c (x ∷ xs) h =
    peer_at-set_other p q c xs (ground (arith, ==_iff p q, ==_iff q p))

-- The outcome of a handler of one connection.
pub change_peer-cases :
    (f : Connection → Outcome Connection) (p : ℕ) (x z : System)
    → change_peer f p x ≡ done z
    → ((peer_at p x.peers ≡ none) × (z ≡ x))
      ⊎ ((c : Connection) × ((c' : Connection) × ((peer_at p x.peers ≡ some c)
              × (f c ≡ done c')
              × (z ≡ record x { peers = set_peer p c' x.peers }))))
change_peer-cases f p x z h = elim (Option-cases (peer_at p x.peers)) [
  | inl e ↦ inl (e, done_injective (sym h ∙ ap (change_found f p x) e))
  | inr (c, e) ↦
      let (c', k, r) =
        first_done (f c) (λ c'. done (record x { peers = set_peer p c' x.peers }))
          (sym (ap (change_found f p x) e) ∙ h) in
      inr (c, (c', (e, k, done_injective (sym r))))
]

pub calls_of-first :
    (p : ℕ) (call : Call) (cs : List (ℕ × Call))
    → calls_of p ((p, call) ∷ cs) ≡ call ∷ calls_of p cs
unfolding calls_of
calls_of-first p call cs = ground arith

pub calls_of-other :
    (q p : ℕ) (call : Call) (cs : List (ℕ × Call))
    → (q == p) ≡ false
    → calls_of q ((p, call) ∷ cs) ≡ calls_of q cs
unfolding calls_of
calls_of-other q p call cs h = ground arith

pub calls_of-none :
    (q p : ℕ) (call : Call) (cs : List (ℕ × Call))
    → calls_of q ((p, call) ∷ cs) ≡ []
    → calls_of q cs ≡ []
unfolding calls_of
calls_of-none q p call cs h = ground arith
