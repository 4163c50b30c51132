-- ===== src/Cxx20/Chat/Composition.antt =====
-- The queue inside a connection is one that the queue's own steps reach: its laws hold here.
use mathlib.Core.List.{append-nil, append_assoc}
use boost_beast_websocket_ec.Prelude.{
  ℕ, suc, ◌+◌, ◌≡◌, refl, ap, subst, true, false, List, [], ◌∷◌, ◌++◌, operation_aborted, is_error,
  done, arith, inl, inr, Bool-cases, List-cases, some, ◌&&◌, not, if◌then◌else◌,
}
use boost_beast_websocket_ec.Prelude.Text.{Text}
use boost_beast_websocket_ec.AsyncQueue
use boost_beast_websocket_ec.AsyncQueue.{
  Impl, Completion, Task, waiting, not_waiting, completes, pushes, construct, push, stop, perform,
}
use boost_beast_websocket_ec.AsyncQueue.Reach
use boost_beast_websocket_ec.AsyncQueue.Reach.{delivered, performs, calls_push, calls_stop, pops}
use boost_beast_websocket_ec.Cxx20.Chat.{
  Chat, Queue, State, initial_state, handshaking, chatting, exit_state, notify_in, at_once,
  stop_queue, send, dequeue_next, dequeue_wrote, stop_connection, run_state, run_accepted,
  rx_received,
}
use boost_beast_websocket_ec.Cxx20.Chat.Steps.{
  Event, sends, stops, runs, accepted, tx_starts, popped, wrote, received, closed, enabled, step,
  sent, active, queue_stops,
}
use boost_beast_websocket_ec.Cxx20.Chat.Invariant.{IsValid}

-- The queue with the completions that have run.
abbrev pub history : List (Completion Text (Unit {0}) (Unit {0})) → Queue → Queue
history xs q = record q { posted = xs ++ q.posted }

perform-history :
    (xs : List (Completion Text (Unit {0}) (Unit {0}))) (q : Queue) (t : Task Text)
    → perform [] (history xs q) t ≡ history xs (perform [] q t)
unfolding perform
perform-history xs q completes = grind (arith, append_assoc)
perform-history xs q (pushes v) = grind (arith, append_assoc)
perform-history xs q Task.stops = grind (arith, append_assoc)

-- The queue inside a connection is one that the queue's own steps reach.
abbrev pub QueueReach : List (Unit {0}) → List Text → ℕ → Queue → Type 0
QueueReach = AsyncQueue.Reach.Reach (λ h e. e) []

module _ (xs : List (Completion Text (Unit {0}) (Unit {0}))) (q : Queue) (idle : q.tasks ≡ []) where
  push-QueueReach :
      {hs : List (Unit {0})} {ms : List Text} {n : ℕ} (m : Text)
      → QueueReach hs ms n (history xs q)
      → QueueReach hs (ms ++ m ∷ []) n (history xs (at_once (push q m)))
  unfolding at_once push
  push-QueueReach {hs} {ms} {n} m r =
      subst (QueueReach hs (ms ++ m ∷ []) n)
        (ground (arith, perform-history xs (record q { tasks = [] }) (pushes m)))
        (performs [] [] (pushes m) (calls_push m r) (ground arith))

  stop-QueueReach :
      {hs : List (Unit {0})} {ms : List Text} {n : ℕ}
      → QueueReach hs ms n (history xs q)
      → QueueReach hs ms (suc n) (history xs (at_once (stop q)))
  unfolding at_once stop
  stop-QueueReach {hs} {ms} {n} r =
      subst (QueueReach hs ms (suc n))
        (ground (arith, perform-history xs (record q { tasks = [] }) Task.stops))
        (performs [] [] Task.stops (calls_stop r) (ground arith))

  pop-QueueReach :
      {hs : List (Unit {0})} {ms : List Text} {n : ℕ} (r : Queue)
      → AsyncQueue.async_pop (λ h e. e) q tt ≡ done r
      → QueueReach hs ms n (history xs q)
      → QueueReach (hs ++ tt ∷ []) ms n (history xs (at_once r))
  unfolding at_once AsyncQueue.async_pop
  pop-QueueReach {hs} {ms} {n} r e reach =
      subst (QueueReach (hs ++ tt ∷ []) ms n)
        (ground (arith, perform-history xs (record r { tasks = [] }) completes))
        (performs [] [] completes (pops tt (history xs r) reach (ground arith)) (ground arith))

-- The same queue, with indices that are equal.
keep :
    {hs : List (Unit {0})} {ms ms' : List Text} {n n' : ℕ} {q q' : Queue}
    → QueueReach hs ms n q
    → ms ≡ ms'
    → n ≡ n'
    → q ≡ q'
    → QueueReach hs ms' n' q'
keep {hs} {ms' = ms'} {n} {n'} {q} {q'} r e f g =
    subst (λ k. QueueReach hs ms' k q') f
      (subst (λ k. QueueReach hs ms' n k) g (subst (λ k. QueueReach hs k n q) e r))

-- A connection whose queue, with the completions that have run, is reached by the queue's own steps.
abbrev pub Embeds : List Text → ℕ → Chat → Type 0
Embeds ms n c = (hs : List (Unit {0})) × QueueReach hs ms n (history c.taken c.queue)

notify-Embeds :
    {ms : List Text} {n : ℕ} (s : State) (c : Chat)
    → c.queue.tasks ≡ []
    → Embeds ms n c
    → Embeds ms (n + (if active s then 1 else 0)) (notify_in s c)
unfolding notify_in stop_queue
notify-Embeds initial_state c idle (hs, r) = (hs, keep r refl (omega arith) refl)
notify-Embeds exit_state c idle (hs, r) = (hs, keep r refl (omega arith) refl)
notify-Embeds handshaking c idle (hs, r) =
    (hs, keep (stop-QueueReach c.taken c.queue idle r) refl (omega arith) refl)
notify-Embeds chatting c idle (hs, r) =
    (hs, keep (stop-QueueReach c.taken c.queue idle r) refl (omega arith) refl)

-- A step that leaves the queue alone.
same-Embeds :
    {ms ms' : List Text} {n k : ℕ} (c c' : Chat)
    → c'.queue ≡ c.queue
    → c'.taken ≡ c.taken
    → ms' ≡ []
    → k ≡ 0
    → Embeds ms n c
    → Embeds (ms ++ ms') (n + k) c'
same-Embeds {ms} c c' e f g h (hs, r) =
    (hs, keep r (ground (arith, append-nil ms)) (omega arith) (cc))

dequeue_next-Embeds :
    {ms : List Text} {n : ℕ} (c c' : Chat)
    → IsValid c
    → c.queue.state ≡ not_waiting
    → dequeue_next c ≡ done c'
    → Embeds ms n c
    → Embeds (ms ++ []) (n + 0) c'
unfolding dequeue_next
dequeue_next-Embeds {ms} c c' v free st (hs, r) =
    let q : Queue = record c.queue {
      handler_executor = some c.queue.default_executor;
      handler = some tt;
      state = waiting;
      tasks = c.queue.tasks ++ completes ∷ [];
    } in
    (
      hs ++ tt ∷ [],
      keep (pop-QueueReach c.taken c.queue v.no_tasks q (ground arith) r)
          (ground (arith, append-nil ms)) (omega arith) (ground arith),
    )

stopped-Embeds :
    {ms : List Text} {n : ℕ} (c c' : Chat)
    → IsValid c
    → is_error c.ec ≡ false
    → stop_connection c ≡ done c'
    → Embeds ms n c
    → Embeds (ms ++ []) (n + (if not (is_error c.ec) && active c.state then 1 else 0)) c'
unfolding stop_connection
stopped-Embeds {ms} c c' v up st h =
    let stopping : Chat = record c { ec = operation_aborted } in
    let (hs, r) = notify-Embeds c.state stopping v.no_tasks h in
    let e : notify_in c.state stopping ≡ c' = cc (rw up at st) in
    (
      hs,
      keep r (ground (arith, append-nil ms)) (ground arith) (ap (λ d. history d.taken d.queue) e),
    )

pub step-Embeds :
    {ms : List Text} {n : ℕ} (c : Chat) (e : Event) (c' : Chat)
    → IsValid c
    → enabled c e ≡ true
    → step c e ≡ done c'
    → Embeds ms n c
    → Embeds (ms ++ sent c e) (n + queue_stops c e) c'
unfolding step send stop_connection run_state run_accepted dequeue_wrote rx_received
step-Embeds c (sends m) c' v en st (hs, r) =
    (hs, keep (push-QueueReach c.taken c.queue v.no_tasks m r) refl (omega arith) (ground arith))
step-Embeds {ms} {n} c stops c' v en st (hs, r) = elim (Bool-cases (is_error c.ec)) [
  | inl e ↦ same-Embeds c c' (ground arith) (ground arith) refl (ground arith) (hs, r)
  | inr e ↦ stopped-Embeds c c' v e st (hs, r)
]
step-Embeds c runs c' v en st h = same-Embeds c c' (ground arith) (ground arith) refl refl h
step-Embeds c (accepted ec) c' v en st h =
    same-Embeds c c' (ground arith) (ground arith) refl refl h
step-Embeds c tx_starts c' v en st h = dequeue_next-Embeds c c' v (ground arith) st h
step-Embeds {ms} c popped c' v en st (hs, r) = elim (List-cases c.queue.posted) [
  | inl e ↦ absurd (ground arith)
  | inr (k, ks, e) ↦ (
    hs,
    keep r (ground (arith, append-nil ms)) (omega arith)
        (ground (arith, append_assoc c.taken (k ∷ []) ks)),
  )
]
step-Embeds c (wrote ec) c' v en st h = elim (Bool-cases (is_error ec)) [
  | inl e ↦ same-Embeds c c' (ground arith) (ground arith) refl refl h
  | inr e ↦ dequeue_next-Embeds c c' v (ground arith) (ground arith) h
]
step-Embeds c (received ec bytes) c' v en st (hs, r) = elim (Bool-cases (is_error ec)) [
  | inl e ↦ same-Embeds c c' (ground arith) (ground arith) (ground arith) refl (hs, r)
  | inr e ↦ (
    hs,
    keep (push-QueueReach c.taken c.queue v.no_tasks (c.rxbuffer ++ bytes) r) (ground arith)
        (omega arith) (ground arith),
  )
]
step-Embeds c (closed ec) c' v en st h = same-Embeds c c' (ground arith) (ground arith) refl refl h

pub delivered-append :
    (cs ds : List (Completion Text (Unit {0}) (Unit {0})))
    → delivered (cs ++ ds) ≡ delivered cs ++ delivered ds
delivered-append [] ds = refl
delivered-append (c ∷ cs) ds = ground (arith, delivered-append cs ds)
