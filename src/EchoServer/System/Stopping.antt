-- ===== src/EchoServer/System/Stopping.antt =====
-- A connection that has been told of a stop stays so.
use boost_beast_websocket_ec.Prelude.{
  ℕ, zero, suc, ◌≡◌, refl, ap, sym, subst, ◌∙◌, inl, inr, Bool, true, false, Bool-cases, ◌==◌,
  ==_iff, none, some, List, [], ◌∷◌, ◌++◌, done, done_injective, some_injective, if◌then◌else◌,
  arith,
}
use boost_beast_websocket_ec.EchoServer.Connection.{Connection, connection_impl}
use boost_beast_websocket_ec.EchoServer.Connection.Steps as ConnectionSteps
use boost_beast_websocket_ec.EchoServer.Server.{Call}
use boost_beast_websocket_ec.EchoServer.Server.Laws as ServerLaws
use boost_beast_websocket_ec.EchoServer.System.{
  System, peer_at, set_peer, Event, server_goes, performs, peer_goes, serve, perform_first, step,
}
use boost_beast_websocket_ec.EchoServer.System.Calls.{
  calls_of, Stops-append, keeps, greets, step-Serves,
}
use boost_beast_websocket_ec.EchoServer.System.Embeds.{Embeds, serve-calls}
use boost_beast_websocket_ec.EchoServer.System.Peers.{
  Peer, change_peer-cases, calls_of-first, calls_of-other, peer_at-set_self, peer_at-set_other,
}
use boost_beast_websocket_ec.EchoServer.System.Told.{Told, Told-performs, Told-goes}

-- It stands at its number.
pub record IsTold (p : ℕ) (x : System) : Type 0 where
  pub peer : Connection
  pub stands : peer_at p x.peers ≡ some peer
  pub told : Told peer (calls_of p x.pending)

peer_at-more :
    (p : ℕ) (cs ds : List Connection) {c : Connection}
    → peer_at p cs ≡ some c
    → peer_at p (cs ++ ds) ≡ some c
peer_at-more p [] ds h = absurd (ground arith)
peer_at-more zero (x ∷ cs) ds h = h
peer_at-more (suc p) (x ∷ cs) ds h = peer_at-more p cs ds h

pub either_peers :
    (b : Bool) (p : ℕ) (cs ds : List Connection) {c : Connection}
    → peer_at p cs ≡ some c
    → peer_at p (if b then cs ++ ds else cs) ≡ some c
either_peers true p cs ds h = peer_at-more p cs ds h
either_peers false p cs ds h = h

Told-append : (c : Connection) (cs ds : List Call) → Told c cs → Told c (cs ++ ds)
Told-append c cs ds (inl h) = inl h
Told-append c cs ds (inr h) = inr (Stops-append cs ds h)

serve-IsTold :
    (p : ℕ) (x : System) (e : ServerLaws.Event) (cs : List (ℕ × Call))
    → (ServerLaws.step x.server e).calls ≡ x.server.calls ++ cs
    → IsTold p x
    → IsTold p (serve x e)
unfolding serve
serve-IsTold p x e cs called t = record {
  peer = t.peer;
  stands = either_peers _ p x.peers (connection_impl ∷ []) t.stands;
  told =
      subst (Told t.peer) (sym (serve-calls x e cs p called))
        (Told-append t.peer (calls_of p x.pending) (calls_of p cs) t.told);
}

performs-IsTold :
    (p q : ℕ) (x : System) (call : Call) (cs : List (ℕ × Call)) (c c' : Connection)
    → x.pending ≡ (q, call) ∷ cs
    → peer_at q x.peers ≡ some c
    → ServerLaws.perform c call ≡ done c'
    → Embeds x
    → IsTold p x
    → IsTold p (record x { pending = cs; peers = set_peer q c' x.peers })
performs-IsTold p q x call cs c c' first here st v t = elim (Bool-cases (p == q)) [
  | inr other ↦ record {
    peer = t.peer;
    stands = peer_at-set_other q p c' x.peers other ∙ t.stands;
    told = subst (Told t.peer) (ap (calls_of p) first ∙ calls_of-other p q call cs other) t.told;
  }
  | inl same ↦
      let e : p ≡ q = ground (arith, ==_iff p q) in
      let found : t.peer ≡ c =
        some_injective (sym t.stands ∙ ap (λ r. peer_at r x.peers) e ∙ here) in
      let calls : calls_of p x.pending ≡ call ∷ calls_of q cs =
        ap (λ r. calls_of r x.pending) e ∙ ap (calls_of q) first ∙ calls_of-first q call cs in
      let old = subst (λ ds. Told t.peer ds) calls t.told in
      let peer =
        subst (Peer c) (ap (calls_of q) first ∙ calls_of-first q call cs) (v.each q c here) in
      record {
        peer = c';
        stands = ap (λ r. peer_at r (set_peer q c' x.peers)) e ∙ peer_at-set_self q c' x.peers here;
        told =
            subst (λ r. Told c' (calls_of r cs)) (sym e)
              (Told-performs c call (calls_of q cs) c' peer st
                (subst (λ d. Told d (call ∷ calls_of q cs)) found old));
      }
]

goes-IsTold :
    (p q : ℕ) (x : System) (e : ConnectionSteps.Event) (c c' : Connection)
    → peer_at q x.peers ≡ some c
    → ConnectionSteps.step c e ≡ done c'
    → Embeds x
    → IsTold p x
    → IsTold p (record x { peers = set_peer q c' x.peers })
goes-IsTold p q x e c c' here st v t = elim (Bool-cases (p == q)) [
  | inr other ↦ record {
    peer = t.peer;
    stands = peer_at-set_other q p c' x.peers other ∙ t.stands;
    told = t.told;
  }
  | inl same ↦
      let r : p ≡ q = ground (arith, ==_iff p q) in
      let found : t.peer ≡ c =
        some_injective (sym t.stands ∙ ap (λ r. peer_at r x.peers) r ∙ here) in
      let now = Told-goes c e (calls_of q x.pending) c' (v.each q c here) st (
        subst (λ d. Told d (calls_of q x.pending)) found
          (subst (λ i. Told t.peer (calls_of i x.pending)) r t.told)) in
      record {
        peer = c';
        stands = ap (λ i. peer_at i (set_peer q c' x.peers)) r ∙ peer_at-set_self q c' x.peers here;
        told = subst (λ i. Told c' (calls_of i x.pending)) (sym r) now;
      }
]

-- The call that is performed was for a connection that is not there.
absent-IsTold :
    (p q : ℕ) (x : System) (call : Call) (cs : List (ℕ × Call))
    → x.pending ≡ (q, call) ∷ cs
    → peer_at q x.peers ≡ none
    → IsTold p x
    → IsTold p (record x { pending = cs })
absent-IsTold p q x call cs first absent t = elim (Bool-cases (p == q)) [
  | inl same ↦ absurd (ground (arith, ==_iff p q, t.stands))
  | inr other ↦ record {
    peer = t.peer;
    stands = t.stands;
    told = subst (Told t.peer) (ap (calls_of p) first ∙ calls_of-other p q call cs other) t.told;
  }
]

perform_first-IsTold :
    (p : ℕ) (x z : System) (cs : List (ℕ × Call))
    → x.pending ≡ cs
    → perform_first cs x ≡ done z
    → Embeds x
    → IsTold p x
    → IsTold p z
unfolding perform_first
perform_first-IsTold p x z [] first st v t = subst (IsTold p) (done_injective st) t
perform_first-IsTold p x z ((q, call) ∷ cs) first st v t =
    elim (change_peer-cases (λ c. ServerLaws.perform c call) q (record x { pending = cs }) z st) [
      | inl (e, k) ↦ subst (IsTold p) (sym k) (absent-IsTold p q x call cs first e t)
      | inr (c, (c', (e, k, r))) ↦
          subst (IsTold p) (sym r) (performs-IsTold p q x call cs c c' first e k v t)
    ]

pub step-IsTold :
    (p : ℕ) (x : System) (e : Event) (z : System)
    → Embeds x
    → step x e ≡ done z
    → IsTold p x
    → IsTold p z
unfolding step
step-IsTold p x (server_goes e) z v st t =
    subst (IsTold p) (done_injective st)
      (elim (step-Serves x.server e (ServerLaws.server-IsValid v.reached)) [
        | keeps cs made called few none_new ↦ serve-IsTold p x e cs called t
        | greets ms made called ↦ serve-IsTold p x e _ called t
      ])
step-IsTold p x performs z v st t = perform_first-IsTold p x z x.pending refl st v t
step-IsTold p x (peer_goes q e) z v st t =
    elim (change_peer-cases (λ c. ConnectionSteps.step c e) q x z st) [
      | inl (h, k) ↦ subst (IsTold p) (sym k) t
      | inr (c, (c', (h, k, r))) ↦ subst (IsTold p) (sym r) (goes-IsTold p q x e c c' h k v t)
    ]
