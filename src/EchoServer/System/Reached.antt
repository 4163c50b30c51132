-- ===== src/EchoServer/System/Reached.antt =====
-- Every connection of the server is one that a run of it alone reaches.
use boost_beast_websocket_ec.Prelude.{
  ℕ, ◌≡◌, refl, ap, sym, subst, ◌∙◌, inl, inr, true, Bool-cases, ◌==◌, ==_iff, none, some, List, [],
  ◌∷◌, done, done_injective, arith,
}
use boost_beast_websocket_ec.EchoServer.Connection.{Connection}
use boost_beast_websocket_ec.EchoServer.Connection.Steps as ConnectionSteps
use boost_beast_websocket_ec.EchoServer.Server.{Call, server, handle_run}
use boost_beast_websocket_ec.EchoServer.Server.Laws as ServerLaws
use boost_beast_websocket_ec.EchoServer.System.{
  System, peer_at, set_peer, Event, server_goes, performs, peer_goes, peer_enabled, enabled,
  perform_first, step, Leads, stays, goes, started,
}
use boost_beast_websocket_ec.EchoServer.System.Calls.{calls_of, keeps, greets, step-Serves}
use boost_beast_websocket_ec.EchoServer.System.Peers.{
  Peer, Peer-performs, Peer-goes, length-set_peer, peer_at-set_peer, change_peer-cases,
  calls_of-first, calls_of-other, calls_of-none,
}
use boost_beast_websocket_ec.EchoServer.System.Embeds.{Embeds, serve_keeps, serve_greets}

-- The first call is performed, and nothing stands at its number.
performs-none :
    (x : System) (p : ℕ) (call : Call) (cs : List (ℕ × Call))
    → x.pending ≡ (p, call) ∷ cs
    → peer_at p x.peers ≡ none
    → Embeds x
    → Embeds (record x { pending = cs })
performs-none x p call cs first absent v = record {
  reached = v.reached;
  numbered = v.numbered;
  unmade = λ q h. calls_of-none q p call cs (ap (calls_of q) (sym first) ∙ v.unmade q h);
  each = λ q c h. elim (Bool-cases (q == p)) [
    | inl e ↦ absurd (ground (arith, ==_iff q p))
    | inr e ↦ subst (Peer c) (ap (calls_of q) first ∙ calls_of-other q p call cs e) (v.each q c h)
  ];
}

-- The first call is performed on its connection.
performs-some :
    (x : System) (p : ℕ) (call : Call) (cs : List (ℕ × Call)) (c c' : Connection)
    → x.pending ≡ (p, call) ∷ cs
    → peer_at p x.peers ≡ some c
    → ServerLaws.perform c call ≡ done c'
    → Embeds x
    → Embeds (record x { pending = cs; peers = set_peer p c' x.peers })
performs-some x p call cs c c' first here st v = record {
  reached = v.reached;
  numbered = length-set_peer p c' x.peers ∙ v.numbered;
  unmade = λ q h. calls_of-none q p call cs (ap (calls_of q) (sym first) ∙ v.unmade q h);
  each = λ q d h. elim (peer_at-set_peer p q c' x.peers h) [
    | inl (e, k) ↦
        let now =
          Peer-performs c call (calls_of p cs) c'
            (subst (Peer c) (ap (calls_of p) first ∙ calls_of-first p call cs) (v.each p c here))
            st in
        subst (λ r. Peer d (calls_of r cs)) (sym e)
          (subst (λ b. Peer b (calls_of p cs)) (sym k) now)
    | inr (e, k) ↦
        subst (Peer d) (ap (calls_of q) first ∙ calls_of-other q p call cs e) (v.each q d k)
  ];
}

goes-some :
    (x : System) (p : ℕ) (e : ConnectionSteps.Event) (c c' : Connection)
    → peer_at p x.peers ≡ some c
    → peer_enabled e (some c) ≡ true
    → ConnectionSteps.step c e ≡ done c'
    → Embeds x
    → Embeds (record x { peers = set_peer p c' x.peers })
goes-some x p e c c' here en st v = record {
  reached = v.reached;
  numbered = length-set_peer p c' x.peers ∙ v.numbered;
  unmade = v.unmade;
  each = λ q d h. elim (peer_at-set_peer p q c' x.peers h) [
    | inl (r, k) ↦
        let now =
          Peer-goes c e (calls_of p x.pending) c' (v.each p c here) (ground arith) (ground arith)
            st in
        subst (λ r. Peer d (calls_of r x.pending)) (sym r)
          (subst (λ b. Peer b (calls_of p x.pending)) (sym k) now)
    | inr (r, k) ↦ v.each q d k
  ];
}

perform_first-Embeds :
    (x z : System) (cs : List (ℕ × Call))
    → x.pending ≡ cs
    → Embeds x
    → perform_first cs x ≡ done z
    → Embeds z
unfolding perform_first
perform_first-Embeds x z [] first v st = subst Embeds (done_injective st) v
perform_first-Embeds x z ((p, call) ∷ cs) first v st =
    elim (change_peer-cases (λ c. ServerLaws.perform c call) p (record x { pending = cs }) z st) [
      | inl (e, k) ↦ subst Embeds (sym k) (performs-none x p call cs first e v)
      | inr (c, (c', (e, k, r))) ↦ subst Embeds (sym r) (performs-some x p call cs c c' first e k v)
    ]

pub step-Embeds :
    (x : System) (e : Event) (z : System)
    → Embeds x
    → enabled x e ≡ true
    → step x e ≡ done z
    → Embeds z
unfolding step
step-Embeds x (server_goes e) z v en st =
    subst Embeds (done_injective st)
      (elim (step-Serves x.server e (ServerLaws.server-IsValid v.reached)) [
        | keeps cs made called few none_new ↦ serve_keeps x e cs v en made called few none_new
        | greets ms made called ↦ serve_greets x e ms v en made called
      ])
step-Embeds x performs z v en st = perform_first-Embeds x z x.pending refl v st
step-Embeds x (peer_goes p e) z v en st =
    elim (change_peer-cases (λ c. ConnectionSteps.step c e) p x z st) [
      | inl (h, k) ↦ subst Embeds (sym k) v
      | inr (c, (c', (h, k, r))) ↦
          subst Embeds (sym r) (goes-some x p e c c' h (ap (peer_enabled e) (sym h) ∙ en) k v)
    ]

start-Embeds : Embeds started
unfolding started calls_of server handle_run
start-Embeds = record {
  reached = ServerLaws.start;
  numbered = refl;
  unmade = λ p h. refl;
  each = λ p c h. absurd (ground arith);
}

pub Leads-Embeds : (x z : System) → Leads x z → Embeds x → Embeds z
Leads-Embeds x z stays v = v
Leads-Embeds x z (goes {y = y} e z' path en st) v =
    step-Embeds y e z' (Leads-Embeds x y path v) en st

-- What the server and its connections reach together.
pub system-Embeds : {x : System} → Leads started x → Embeds x
system-Embeds {x} path = Leads-Embeds started x path start-Embeds
