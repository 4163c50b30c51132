-- ===== src/EchoLoop/Conserves.antt =====
-- The order of the messages on their way round: those that are back, under way, or held by an end.
use mathlib.Core.List.{append-nil, append_assoc}
use boost_beast_websocket_ec.Prelude.{
  ◌≡◌, refl, ap, sym, subst, ◌∙◌, true, List, [], ◌∷◌, ◌++◌, success, done, done_injective, take,
  arith,
}
use boost_beast_websocket_ec.Prelude.Text.{Text}
use boost_beast_websocket_ec.EchoServer.Connection as Server
use boost_beast_websocket_ec.EchoServer.Connection.Steps as ServerSteps
use boost_beast_websocket_ec.EchoServer.Connection.Sending as ServerSending
use boost_beast_websocket_ec.Chatterbox.Connection as Client
use boost_beast_websocket_ec.Chatterbox.Connection.Sending as ClientSending
use boost_beast_websocket_ec.EchoLoop.{
  Loop, Event, at_server, at_client, arrives_down, arrives_up, goes_down, goes_up, arrive_up, step,
  enabled, sent, returned, Reach, start, next,
}
use boost_beast_websocket_ec.EchoLoop.Ends.{
  Ends, outstanding, serve-Ends, arrive_down-Ends, visit_own, without_up, goes_down-Ends,
  goes_up-Ends, start-Ends,
}

record Conserves (qs bs : List Text) (l : Loop) : Type 0 where
  ends : Ends l
  in_order : qs ≡ bs ++ outstanding l

arrive_up-Conserves :
    (ms : List Text) (qs bs : List Text) (l : Loop) (l' : Loop)
    → l.up ≡ ms
    → Conserves qs bs l
    → enabled l arrives_up ≡ true
    → arrive_up ms l ≡ done l'
    → Conserves (qs ++ take 1 ms) (bs ++ take 1 ms) l'
unfolding arrive_up
arrive_up-Conserves [] qs bs l l' d v en h = absurd (ground arith)
arrive_up-Conserves (m ∷ ms) qs bs l l' d v en h =
    let l0 = record l { up = ms } in
    let can : ServerSteps.enabled l.server (ServerSteps.received success m) ≡ true = ground arith in
    let (v', o) =
      serve-Ends l0 (ServerSteps.received success m) l' (without_up l ms v.ends) can refl h in
    let queued = ServerSending.received-queued l.server m v.ends.server_valid can in
    let rest =
      ClientSending.held l.client_gone l.client
      ++ (l.down ++ ServerSending.held l.server_gone l.server) in
    let back = bs ++ m ∷ [] in
    record {
      ends = v';
      in_order =
          ap (λ q. q ++ m ∷ [])
            (v.in_order
              ∙ ap (λ u. bs ++ (u ++ rest)) d
              ∙ sym (append_assoc bs (m ∷ []) (outstanding l0)))
          ∙ append_assoc back (outstanding l0) (m ∷ [])
          ∙ ap (back ++◌) (sym (o ∙ ap (outstanding l0 ++◌) queued));
    }

unmoved :
    (qs bs : List Text) (l l' : Loop)
    → Conserves qs bs l
    → Ends l'
    → outstanding l' ≡ outstanding l
    → Conserves (qs ++ []) (bs ++ []) l'
unmoved qs bs l l' v v' o = record {
  ends = v';
  in_order =
      append-nil qs
      ∙ v.in_order
      ∙ ap (bs ++◌) (sym o)
      ∙ ap (λ b. b ++ outstanding l') (sym (append-nil bs));
}

step-Conserves :
    (qs bs : List Text) (l : Loop) (e : Event) (l' : Loop)
    → Conserves qs bs l
    → enabled l e ≡ true
    → step l e ≡ done l'
    → Conserves (qs ++ sent l e) (bs ++ returned l e) l'
unfolding step
step-Conserves qs bs l (at_server e) l' v en h =
    let (v', o) = serve-Ends l e l' v.ends (ground arith) (ground arith) h in
    record {
      ends = v';
      in_order =
          ap (λ q. q ++ ServerSteps.queued l.server e) v.in_order
          ∙ append_assoc bs (outstanding l) (ServerSteps.queued l.server e)
          ∙ ap (bs ++◌) (sym o)
          ∙ ap (λ b. b ++ outstanding l') (sym (append-nil bs));
    }
step-Conserves qs bs l (at_client e) l' v en h =
    let (v', o) = visit_own l e l' v.ends (ground arith) (ground arith) (ground arith) h in
    unmoved qs bs l l' v v' o
step-Conserves qs bs l arrives_down l' v en h =
    let (v', o) = arrive_down-Ends l.down l l' refl v.ends en h in unmoved qs bs l l' v v' o
step-Conserves qs bs l arrives_up l' v en h = arrive_up-Conserves l.up qs bs l l' refl v en h
step-Conserves qs bs l goes_down l' v en h =
    let (v', o) = goes_down-Ends l v.ends (ground arith) (ground arith) in
    unmoved qs bs l l' v (subst Ends (done_injective h) v')
      (ap outstanding (sym (done_injective h)) ∙ o)
step-Conserves qs bs l goes_up l' v en h =
    let (v', o) = goes_up-Ends l v.ends (ground arith) (ground arith) in
    unmoved qs bs l l' v (subst Ends (done_injective h) v')
      (ap outstanding (sym (done_injective h)) ∙ o)

reach-Conserves : {qs bs : List Text} {l : Loop} → Reach qs bs l → Conserves qs bs l
unfolding Server.handle_run Server.connection_impl Client.handle_run Client.connection_impl
reach-Conserves (start s h) = record { ends = start-Ends s h; in_order = ground arith }
reach-Conserves (next {qs = qs} {bs = bs} {l = l} e l' r en h) =
    step-Conserves qs bs l e l' (reach-Conserves r) en h

-- The two ends are joined by a websocket that delivers in order, and on which a write succeeds after its
-- message has gone out whole and fails only before. In every state reached with no failed assertion, the
-- messages that came back to the server, those that have gone out to it, those that the client holds,
-- those that have gone out to the client and those that the server holds are together, in this order, all
-- messages ever queued at the server. An end holds a message until it has gone out, so that a write that
-- fails leaves its message, and those behind it, where they are.
pub loop_in_order : {qs bs : List Text} {l : Loop} → Reach qs bs l → qs ≡ bs ++ outstanding l
loop_in_order r = (reach-Conserves r).in_order
