-- ===== src/EchoServer/System/Embeds.antt =====
-- A step of the server keeps every connection one that a run of it alone reaches.
use boost_beast_websocket_ec.Prelude.{
  ℕ, suc, ◌≤◌, ◌≡◌, ap, sym, subst, ◌∙◌, inl, inr, true, false, ◌==◌, some, List, [], ◌∷◌, ◌++◌,
  length, length-append, drop, if◌then◌else◌, ltb, arith,
}
use boost_beast_websocket_ec.Prelude.Text.{Text}
use boost_beast_websocket_ec.EchoServer.Connection.{Connection, connection_impl}
use boost_beast_websocket_ec.EchoServer.Server.{Call, runs, send_all}
use boost_beast_websocket_ec.EchoServer.Server.Laws as ServerLaws
use boost_beast_websocket_ec.EchoServer.System.{System, peer_at, serve}
use boost_beast_websocket_ec.EchoServer.System.Calls.{
  calls_of, calls_of-append, NoRuns, RunsFirst, send_all-absent, send_all-NoRuns,
}
use boost_beast_websocket_ec.EchoServer.System.Peers.{
  Peer, Peer-append, drop-prefix, peer_at-less, peer_at-append,
}

pub record Embeds (x : System) : Type 0 where
  pub reached : ServerLaws.Reach x.server
  pub numbered : length x.peers ≡ x.server.created
  pub unmade : (p : ℕ) → x.server.created ≤ p → calls_of p x.pending ≡ []
  pub each : (p : ℕ) (c : Connection) → peer_at p x.peers ≡ some c → Peer c (calls_of p x.pending)

same_peers : (n k : ℕ) (more cs : List Connection) → k ≡ n → (if ltb n k then more else cs) ≡ cs
same_peers n k more cs h = ground arith

more_peers :
    (n k : ℕ) (more cs : List Connection) → k ≡ suc n → (if ltb n k then more else cs) ≡ more
more_peers n k more cs h = ground arith

-- The calls that a step of the server adds stand behind those that are pending.
pub serve-calls :
    (x : System) (e : ServerLaws.Event) (cs : List (ℕ × Call)) (p : ℕ)
    → (ServerLaws.step x.server e).calls ≡ x.server.calls ++ cs
    → calls_of p (serve x e).pending ≡ calls_of p x.pending ++ calls_of p cs
unfolding serve
serve-calls x e cs p called =
    ap (λ ds. calls_of p (x.pending ++ drop (length x.server.calls) ds)) called
    ∙ ap (λ ds. calls_of p (x.pending ++ ds)) (drop-prefix x.server.calls cs)
    ∙ calls_of-append p x.pending cs

pub serve_keeps :
    (x : System) (e : ServerLaws.Event) (cs : List (ℕ × Call))
    → Embeds x
    → ServerLaws.enabled x.server e ≡ true
    → (ServerLaws.step x.server e).created ≡ x.server.created
    → (ServerLaws.step x.server e).calls ≡ x.server.calls ++ cs
    → ((p : ℕ) → NoRuns (calls_of p cs))
    → ((p : ℕ) → x.server.created ≤ p → calls_of p cs ≡ [])
    → Embeds (serve x e)
unfolding serve
serve_keeps x e cs v en made called few none_new =
    let peers = same_peers x.server.created _ (x.peers ++ connection_impl ∷ []) x.peers made in
    record {
      reached = ServerLaws.next e v.reached en;
      numbered = ap length peers ∙ v.numbered ∙ sym made;
      unmade = λ p h.
          let old = subst (λ n. n ≤ p) made h in
          serve-calls x e cs p called
          ∙ ap (λ ds. ds ++ calls_of p cs) (v.unmade p old)
          ∙ none_new p old;
      each = λ p c h. subst (Peer c) (sym (serve-calls x e cs p called)) (
          Peer-append c (calls_of p x.pending) (calls_of p cs)
            (v.each p c (ap (peer_at p) (sym peers) ∙ h)) (few p));
    }

-- The calls for the connection that is made, and for another.
greeting-calls : (q : ℕ) (ms : List Text) → RunsFirst (calls_of q ((q, runs) ∷ send_all q ms))
unfolding calls_of
greeting-calls q ms = ground (arith, send_all-NoRuns q q ms)

other-calls :
    (p q : ℕ) (ms : List Text) → (p == q) ≡ false → calls_of p ((q, runs) ∷ send_all q ms) ≡ []
unfolding calls_of
other-calls p q ms h = ground (arith, send_all-absent p q ms)

pub serve_greets :
    (x : System) (e : ServerLaws.Event) (ms : List Text)
    → Embeds x
    → ServerLaws.enabled x.server e ≡ true
    → (ServerLaws.step x.server e).created ≡ suc x.server.created
    → (ServerLaws.step x.server e).calls
      ≡ x.server.calls ++ (x.server.created, runs) ∷ send_all x.server.created ms
    → Embeds (serve x e)
unfolding serve
serve_greets x e ms v en made called =
    let q = x.server.created in
    let cs = (q, runs) ∷ send_all q ms in
    let peers = more_peers q _ (x.peers ++ connection_impl ∷ []) x.peers made in
    let others : (p : ℕ)
        → (p == q) ≡ false
        → calls_of p (serve x e).pending ≡ calls_of p x.pending ++ [] =
      λ p h. serve-calls x e cs p called ∙ ap (calls_of p x.pending ++◌) (other-calls p q ms h) in
    record {
      reached = ServerLaws.next e v.reached en;
      numbered =
          ap length peers
          ∙ length-append x.peers (connection_impl ∷ [])
          ∙ omega (arith, v.numbered, made);
      unmade = λ p h.
          let new = subst (λ n. n ≤ p) made h in
          others p (ground arith) ∙ ap (λ ds. ds ++ []) (v.unmade p (omega arith));
      each = λ p c h.
          elim (peer_at-append p x.peers connection_impl (ap (peer_at p) (sym peers) ∙ h)) [
            | inl old ↦
                let less = peer_at-less p x.peers old in
                subst (Peer c) (sym (others p (ground (arith, v.numbered))))
                  (Peer-append c (calls_of p x.pending) [] (v.each p c old) tt)
            | inr (last, fresh) ↦
                let first = v.unmade q (omega arith) in
                inl (
                  fresh,
                  subst (λ r. RunsFirst (calls_of r (serve x e).pending)) (sym (last ∙ v.numbered))
                      (subst RunsFirst
                        (sym (serve-calls x e cs q called ∙ ap (λ ds. ds ++ calls_of q cs) first))
                        (greeting-calls q ms)),
                )
          ];
    }
