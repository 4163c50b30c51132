-- ===== src/EchoLoop/Ends.antt =====
-- Each event keeps both ends in good order, and the messages that are not back yet.
use mathlib.Core.List.{append_assoc}
use boost_beast_websocket_ec.Prelude.{
  false, ◌≡◌, refl, ap, sym, subst, ◌∙◌, true, List, [], ◌∷◌, ◌++◌, success, done, first_done,
  Returns-done, done_injective, empty, arith,
}
use boost_beast_websocket_ec.Prelude.Text.{Text}
use boost_beast_websocket_ec.EchoServer.Connection as Server
use boost_beast_websocket_ec.EchoServer.Connection.Steps as ServerSteps
use boost_beast_websocket_ec.EchoServer.Connection.Sending as ServerSending
use boost_beast_websocket_ec.EchoServer.Connection.Invariant as ServerInvariant
use boost_beast_websocket_ec.EchoServer.Connection.Safety as ServerSafety
use boost_beast_websocket_ec.Chatterbox.Connection as Client
use boost_beast_websocket_ec.Chatterbox.Connection.Steps as ClientSteps
use boost_beast_websocket_ec.Chatterbox.Connection.Sending as ClientSending
use boost_beast_websocket_ec.Chatterbox.Connection.Invariant as ClientInvariant
use boost_beast_websocket_ec.Chatterbox.Connection.Safety as ClientSafety
use boost_beast_websocket_ec.EchoLoop.{
  Loop, arrives_down, is_own_client, serve, visit, arrive_down, enabled,
}

-- Both ends are in good order.
pub record Ends (l : Loop) : Type 0 where
  pub server_valid : ServerInvariant.IsValid l.server
  pub server_goes : ServerSending.Goes l.server_gone l.server
  pub client_valid : ClientInvariant.IsValid l.client
  pub client_goes : ClientSending.Goes l.client_gone l.client

-- The messages that are not back yet, the oldest first.
abbrev pub outstanding : Loop → List Text
outstanding l =
    l.up
    ++ (ClientSending.held l.client_gone l.client
        ++ (l.down ++ ServerSending.held l.server_gone l.server))

pub serve-Ends :
    (l : Loop) (e : ServerSteps.Event) (l' : Loop)
    → Ends l
    → ServerSteps.enabled l.server e ≡ true
    → ServerSending.tells l.server_gone e ≡ true
    → serve l e ≡ done l'
    → Ends l' × (outstanding l' ≡ outstanding l ++ ServerSteps.queued l.server e)
unfolding serve
serve-Ends l e l' v en tell h =
    let (s, p, q) = first_done (ServerSteps.step l.server e) _ h in
    let law =
      ServerSending.step-held l.server_gone l.server e s v.server_valid v.server_goes en tell p in
    subst (λ k. Ends k × (outstanding k ≡ outstanding l ++ ServerSteps.queued l.server e))
      (done_injective q)
      (
        record {
          server_valid = ServerSafety.done-IsValid l.server e s v.server_valid en p;
          server_goes =
              ServerSending.step-Goes l.server_gone l.server e s v.server_valid v.server_goes en p;
          client_valid = v.client_valid;
          client_goes = v.client_goes;
        },
        simp (append_assoc, law),
      )

visit-Ends :
    (l : Loop) (e : ClientSteps.Event) (l' : Loop)
    → Ends l
    → ClientSteps.enabled l.client e ≡ true
    → ClientSending.tells l.client_gone e ≡ true
    → visit l e ≡ done l'
    → Ends l'
      × (outstanding l'
          ≡ l.up
            ++ (ClientSending.held l.client_gone l.client
                ++ (ClientSteps.queued l.client e
                    ++ (l.down ++ ServerSending.held l.server_gone l.server))))
unfolding visit
visit-Ends l e l' v en tell h =
    let (c, p, q) = first_done (ClientSteps.step l.client e) _ h in
    let law =
      ClientSending.step-held l.client_gone l.client e c v.client_valid v.client_goes en tell p in
    let rest = l.down ++ ServerSending.held l.server_gone l.server in
    let now =
      ClientSending.held l.client_gone l.client ++ (ClientSteps.queued l.client e ++ rest) in
    subst (λ k. Ends k × (outstanding k ≡ l.up ++ now)) (done_injective q)
      (
        record {
          server_valid = v.server_valid;
          server_goes = v.server_goes;
          client_valid = ClientSafety.done-IsValid l.client e c v.client_valid en p;
          client_goes =
              ClientSending.step-Goes l.client_gone l.client e c v.client_valid v.client_goes en p;
        },
        ap (λ w. l.up ++ (w ++ rest)) law
            ∙ ap (l.up ++◌) (
                append_assoc (ClientSending.held l.client_gone l.client)
                  (ClientSteps.queued l.client e) rest),
      )

-- What the client's own events queue: nothing.
own-queued :
    (c : Client.Connection) (e : ClientSteps.Event)
    → is_own_client e ≡ true
    → ClientSteps.queued c e ≡ []
own-queued c (ClientSteps.sends m) h = cc
own-queued c ClientSteps.stops h = refl
own-queued c (ClientSteps.connected ec) h = refl
own-queued c (ClientSteps.shaken ec) h = refl
own-queued c (ClientSteps.received ec bytes) h = rw (h) refl
own-queued c (ClientSteps.wrote ec) h = refl

pub visit_own :
    (l : Loop) (e : ClientSteps.Event) (l' : Loop)
    → Ends l
    → is_own_client e ≡ true
    → ClientSteps.enabled l.client e ≡ true
    → ClientSending.tells l.client_gone e ≡ true
    → visit l e ≡ done l'
    → Ends l' × (outstanding l' ≡ outstanding l)
visit_own l e l' v own en tell h =
    let (v', o) = visit-Ends l e l' v en tell h in
    let rest = l.down ++ ServerSending.held l.server_gone l.server in
    (
      v',
      o
          ∙ ap (λ q. l.up ++ (ClientSending.held l.client_gone l.client ++ (q ++ rest)))
              (own-queued l.client e own),
    )

without_down : (l : Loop) (ms : List Text) → Ends l → Ends (record l { down = ms })
without_down l ms v = record {
  server_valid = v.server_valid;
  server_goes = v.server_goes;
  client_valid = v.client_valid;
  client_goes = v.client_goes;
}

pub without_up : (l : Loop) (ms : List Text) → Ends l → Ends (record l { up = ms })
without_up l ms v = record {
  server_valid = v.server_valid;
  server_goes = v.server_goes;
  client_valid = v.client_valid;
  client_goes = v.client_goes;
}

pub arrive_down-Ends :
    (ms : List Text) (l : Loop) (l' : Loop)
    → l.down ≡ ms
    → Ends l
    → enabled l arrives_down ≡ true
    → arrive_down ms l ≡ done l'
    → Ends l' × (outstanding l' ≡ outstanding l)
unfolding arrive_down
arrive_down-Ends [] l l' d v en h = absurd (ground arith)
arrive_down-Ends (m ∷ ms) l l' d v en h =
    let l0 = record l { down = ms } in
    let can : ClientSteps.enabled l.client (ClientSteps.received success m) ≡ true = ground arith in
    let (v', o) =
      visit-Ends l0 (ClientSteps.received success m) l' (without_down l ms v) can refl h in
    let queued = ClientSending.received-queued l.client m v.client_valid can in
    let wait = ClientSending.held l.client_gone l.client in
    let rest = ServerSending.held l.server_gone l.server in
    (
      v',
      o
          ∙ ap (λ q. l.up ++ (wait ++ (q ++ (ms ++ rest)))) queued
          ∙ ap (λ q. l.up ++ (wait ++ (q ++ rest))) (sym d),
    )

-- A message goes out.
pub goes_down-Ends :
    (l : Loop)
    → Ends l
    → empty l.server.writes ≡ false
    → l.server_gone ≡ false
    → let l' = record l { down = l.down ++ l.server.writes; server_gone = true } in
      Ends l' × (outstanding l' ≡ outstanding l)
goes_down-Ends l v h g =
    let front = ServerSending.writes-held l.server v.server_valid h in
    let wait = ClientSending.held l.client_gone l.client in
    (
      record {
        server_valid = v.server_valid;
        server_goes = λ e. h;
        client_valid = v.client_valid;
        client_goes = v.client_goes;
      },
      ap (λ r. l.up ++ (wait ++ r))
          (append_assoc l.down l.server.writes (ServerSending.held true l.server)
            ∙ ap (l.down ++◌) front
            ∙ ap (λ b. l.down ++ ServerSending.held b l.server) (sym g)),
    )

pub goes_up-Ends :
    (l : Loop)
    → Ends l
    → empty l.client.writes ≡ false
    → l.client_gone ≡ false
    → let l' = record l { up = l.up ++ l.client.writes; client_gone = true } in
      Ends l' × (outstanding l' ≡ outstanding l)
goes_up-Ends l v h g =
    let front = ClientSending.writes-held l.client v.client_valid h in
    let gone = ClientSending.held true l.client in
    let rest = l.down ++ ServerSending.held l.server_gone l.server in
    (
      record {
        server_valid = v.server_valid;
        server_goes = v.server_goes;
        client_valid = v.client_valid;
        client_goes = λ e. h;
      },
      append_assoc l.up l.client.writes (gone ++ rest)
          ∙ ap (l.up ++◌) (
              sym (append_assoc l.client.writes gone rest)
              ∙ ap (λ w. w ++ rest) (front ∙ ap (λ b. ClientSending.held b l.client) (sym g))),
    )

pub start-Ends :
    (s : Server.Connection)
    → Server.handle_run Server.connection_impl ≡ done s
    → Ends (record {
      server = s;
      client = Client.handle_run Client.connection_impl;
      down = [];
      up = [];
      server_gone = false;
      client_gone = false;
    })
unfolding Server.handle_run Server.connection_impl Client.handle_run Client.connection_impl
start-Ends s h = record {
  server_valid = Returns-done ServerInvariant.IsValid _ h ServerInvariant.handle_run-IsValid;
  server_goes = ground arith;
  client_valid = ClientInvariant.handle_run-IsValid;
  client_goes = ground arith;
}
