-- ===== src/EchoServer/System/Performs.antt =====
-- A call that is pending is performed without a failed assertion.
use boost_beast_websocket_ec.Prelude.{
  ℕ, suc, ◌-◌, ◌≡◌, refl, ap, sym, subst, ◌∙◌, inl, inr, Option, none, some, List, [], ◌∷◌, length,
  Outcome, done, Returns, ◌>>=◌, assert_failed, arith,
}
use boost_beast_websocket_ec.EchoServer.Connection.{Connection, connection_impl, handle_run}
use boost_beast_websocket_ec.EchoServer.Connection.Invariant.{
  IsValid, handle_run-IsValid, handle_send-IsValid,
}
use boost_beast_websocket_ec.EchoServer.Connection.Safety.{Reach-IsValid}
use boost_beast_websocket_ec.EchoServer.Server.{Call, runs, stops, sends}
use boost_beast_websocket_ec.EchoServer.Server.Laws as ServerLaws
use boost_beast_websocket_ec.EchoServer.System.{
  System, peer_at, set_peer, performs, change_found, perform_first, step, Leads, started,
}
use boost_beast_websocket_ec.EchoServer.System.Calls.{calls_of}
use boost_beast_websocket_ec.EchoServer.System.Peers.{Peer, calls_of-first}
use boost_beast_websocket_ec.EchoServer.System.Embeds.{Embeds}
use boost_beast_websocket_ec.EchoServer.System.Reached.{system-Embeds}

some_Returns :
    (P : Connection → Type 0) (m : Outcome Connection)
    → Returns P m
    → (c : Connection) × (m ≡ done c)
some_Returns P (done c) r = (c, refl)
some_Returns P assert_failed r = absurd r

Peer-returns :
    (c : Connection) (call : Call) (cs : List Call)
    → Peer c (call ∷ cs)
    → (c' : Connection) × (ServerLaws.perform c call ≡ done c')
unfolding ServerLaws.perform
Peer-returns c runs cs (inl (e, h)) =
    let (c', k) = some_Returns IsValid (handle_run connection_impl) handle_run-IsValid in
    (c', ap handle_run e ∙ k)
Peer-returns c stops cs (inl (e, h)) = absurd h
Peer-returns c (sends m) cs (inl (e, h)) = absurd h
Peer-returns c runs cs (inr (r, h)) = absurd h
Peer-returns c stops cs (inr (r, h)) = (_, refl)
Peer-returns c (sends m) cs (inr ((qs, (ws, (n, r))), h)) =
    some_Returns IsValid _ (handle_send-IsValid c m (Reach-IsValid r))

found-Returns :
    (f : Connection → Outcome Connection) (p n : ℕ) (x : System) (o : Option Connection)
    → length x.pending ≡ n
    → ((c : Connection) → o ≡ some c → (c' : Connection) × (f c ≡ done c'))
    → Returns (λ z. length z.pending ≡ n) (change_found f p x o)
found-Returns f p n x none e h = e
found-Returns f p n x (some c) e h =
    let (c', k) = h c refl in
    subst
      (λ m.
        Returns (λ z. length z.pending ≡ n)
          (m >>= λ c'. done (record x { peers = set_peer p c' x.peers })))
      (sym k) e

perform_first-Returns :
    (x : System) (cs : List (ℕ × Call))
    → x.pending ≡ cs
    → Embeds x
    → Returns (λ z. length z.pending ≡ length cs - 1) (perform_first cs x)
unfolding perform_first
perform_first-Returns x [] first v = ap length first
perform_first-Returns x ((p, call) ∷ cs) first v =
    found-Returns (λ c. ServerLaws.perform c call) p (suc (length cs) - 1)
      (record x { pending = cs }) (peer_at p x.peers) (omega arith)
      (λ c h.
        Peer-returns c call (calls_of p cs)
          (subst (Peer c) (ap (calls_of p) first ∙ calls_of-first p call cs) (v.each p c h)))

-- In every state that the server and its connections reach together with no failed assertion: the
-- server is one that its own steps reach; a connection has been made for each number up to the
-- server's counter, and no call is pending for another; every connection either is as it was
-- constructed, and of the calls that are pending for it the first, and no other, is run, or is one that
-- a run of it alone reaches, and is not run again; and to perform the first call that is pending fails
-- no assertion and takes it off the list.
pub system_safe :
    {x : System}
    → Leads started x
    → Embeds x × Returns (λ z. length z.pending ≡ length x.pending - 1) (step x performs)
unfolding step
system_safe {x} path = let v = system-Embeds path in (v, perform_first-Returns x x.pending refl v)
