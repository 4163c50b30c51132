-- ===== src/Cxx20/Chat/Safety.antt =====
-- What holds of every connection that a run reaches, with the laws of the queue inside it.
use mathlib.Core.List.{append-nil, append_assoc}
use boost_beast_websocket_ec.Prelude.{
  ℕ, ◌+◌, ◌≤◌, ◌≡◌, ◌≢◌, refl, sym, ap, ◌∙◌, Bool, true, false, List, [], ◌∷◌, ◌++◌, ErrorCode,
  is_error, not, Returns, Returns-done, Outcome, done, assert_failed, ◌>>=◌, arith, inl, inr,
  Bool-cases, List-cases, ◌&&◌, if◌then◌else◌,
}
use boost_beast_websocket_ec.Prelude.Text.{Text}
use boost_beast_websocket_ec.AsyncQueue.{Completion, construct}
use boost_beast_websocket_ec.AsyncQueue
use boost_beast_websocket_ec.AsyncQueue.Reach.{delivered}
use boost_beast_websocket_ec.AsyncQueue.Laws.{delivered_all}
use boost_beast_websocket_ec.Cxx20.Chat.{
  Chat, exit_state, Tx, not_spawned, spawned, popping, tx_done, writing, connection_impl, send,
  dequeue_next, dequeue_wrote, stop_connection, run_state, run_accepted, rx_received,
}
use boost_beast_websocket_ec.Cxx20.Chat.Steps.{
  Event, sends, stops, runs, accepted, tx_starts, popped, wrote, received, closed, enabled, step,
  active, queue_stops, Reach, start, next,
}
use boost_beast_websocket_ec.Cxx20.Chat.Invariant.{
  IsValid, step-IsValid, Stopping, step-Stopping, stops-Stopping,
}
use boost_beast_websocket_ec.Cxx20.Chat.Composition.{
  history, QueueReach, step-Embeds, delivered-append,
}

start-IsValid : IsValid connection_impl
unfolding connection_impl
start-IsValid = ground arith

pub Reach-IsValid : {ms : List Text} {n : ℕ} {c : Chat} → Reach ms n c → IsValid c
Reach-IsValid start = start-IsValid
Reach-IsValid (next {c = c} e c' reach en st) =
    Returns-done IsValid _ st (step-IsValid c e (Reach-IsValid reach) en)

-- In a reached connection dequeue_send pops, writes or waits for nothing in step with the queue, one
-- accept, or else one read, at most is going on, and one close at most; every event that can happen
-- fails no assertion and leaves it so.
pub chat_safe :
    {ms : List Text} {n : ℕ} {c : Chat} (e : Event)
    → Reach ms n c
    → enabled c e ≡ true
    → IsValid c × Returns IsValid (step c e)
chat_safe {c = c} e reach en = let v = Reach-IsValid reach in (v, step-IsValid c e v en)

-- In a reached connection the queue, with the completions that have run put back, is one that the steps
-- of async_queue_impl reach, with the messages sent pushed and the stops performed.
pub chat_embeds :
    {ms : List Text} {n : ℕ} {c : Chat}
    → Reach ms n c
    → (hs : List (Unit {0})) × QueueReach hs ms n (history c.taken c.queue)
unfolding connection_impl
chat_embeds start = ([], AsyncQueue.Reach.start tt)
chat_embeds (next {c = c} e c' reach en st) =
    step-Embeds c e c' (Reach-IsValid reach) en st (chat_embeds reach)

step-taken :
    (c : Chat) (e : Event) (c' : Chat)
    → IsValid c
    → enabled c e ≡ true
    → step c e ≡ done c'
    → delivered c.taken ≡ c.written
    → delivered c'.taken ≡ c'.written
unfolding step send stop_connection run_state run_accepted dequeue_next dequeue_wrote rx_received
step-taken c (sends m) c' v en st h = ground arith
step-taken c stops c' v en st h = ground arith
step-taken c runs c' v en st h = ground arith
step-taken c (accepted ec) c' v en st h = ground arith
step-taken c tx_starts c' v en st h = ground arith
step-taken c popped c' v en st h = elim (List-cases c.queue.posted) [
  | inl e ↦ absurd (ground arith)
  | inr (k, ks, e) ↦ ground (arith, delivered-append c.taken (k ∷ []), append-nil c.written)
]
step-taken c (wrote ec) c' v en st h = ground arith
step-taken c (received ec bytes) c' v en st h = ground arith
step-taken c (closed ec) c' v en st h = ground arith

Reach-taken : {ms : List Text} {n : ℕ} {c : Chat} → Reach ms n c → delivered c.taken ≡ c.written
unfolding connection_impl
Reach-taken start = refl
Reach-taken (next {c = c} e c' reach en st) =
    step-taken c e c' (Reach-IsValid reach) en st (Reach-taken reach)

-- In a connection that a run reaches before a stop has reached its queue, the messages whose write has
-- begun, then the one on its way to dequeue_send, then those queued, are all that were sent, in order.
pub chat_written :
    {ms : List Text} {n : ℕ} {c : Chat}
    → Reach ms n c
    → n ≡ 0
    → c.written ++ (delivered c.queue.posted ++ c.queue.values) ≡ ms
chat_written {ms} {n} {c} reach e =
    let (hs, r) = chat_embeds reach in
    ap (λ ws. ws ++ (delivered c.queue.posted ++ c.queue.values)) (sym (Reach-taken reach))
    ∙ sym (append_assoc (delivered c.taken) (delivered c.queue.posted) c.queue.values)
    ∙ ap (λ ws. ws ++ c.queue.values) (sym (delivered-append c.taken c.queue.posted))
    ∙ delivered_all (λ h k. k) [] r e

next-Stopping :
    (n : ℕ) (c : Chat) (e : Event) (c' : Chat)
    → IsValid c
    → enabled c e ≡ true
    → step c e ≡ done c'
    → (1 ≤ n → Stopping c.tx c.ec c.queue)
    → 1 ≤ n + queue_stops c e
    → Stopping c'.tx c'.ec c'.queue
next-Stopping n c stops c' v en st told h =
    elim (Bool-cases (not (is_error c.ec) && active c.state)) [
      | inl e ↦ stops-Stopping c c' v (ground arith) (ground arith) st
      | inr e ↦ step-Stopping c stops c' v en st (told (ground arith))
    ]
next-Stopping n c (sends m) c' v en st told h =
    step-Stopping c (sends m) c' v en st (told (omega arith))
next-Stopping n c runs c' v en st told h = step-Stopping c runs c' v en st (told (omega arith))
next-Stopping n c (accepted ec) c' v en st told h =
    step-Stopping c (accepted ec) c' v en st (told (omega arith))
next-Stopping n c tx_starts c' v en st told h =
    step-Stopping c tx_starts c' v en st (told (omega arith))
next-Stopping n c popped c' v en st told h = step-Stopping c popped c' v en st (told (omega arith))
next-Stopping n c (wrote ec) c' v en st told h =
    step-Stopping c (wrote ec) c' v en st (told (omega arith))
next-Stopping n c (received ec bytes) c' v en st told h =
    step-Stopping c (received ec bytes) c' v en st (told (omega arith))
next-Stopping n c (closed ec) c' v en st told h =
    step-Stopping c (closed ec) c' v en st (told (omega arith))

Reach-Stopping :
    {ms : List Text} {n : ℕ} {c : Chat} → Reach ms n c → 1 ≤ n → Stopping c.tx c.ec c.queue
Reach-Stopping start h = absurd (omega arith)
Reach-Stopping (next {n = n} {c = c} e c' reach en st) h =
    next-Stopping n c e c' (Reach-IsValid reach) en st (Reach-Stopping reach) h

-- dequeue_send goes on by itself: it starts, its completion runs, or its write completes with `ec`.
pub tx_goes_on : ErrorCode → Chat → Outcome Chat
tx_goes_on ec c = elim c.tx [
  | not_spawned ↦ done c
  | spawned ↦ step c tx_starts
  | popping ↦ step c popped
  | writing m ↦ step c (wrote ec)
  | tx_done ↦ done c
]

-- How many steps of its own dequeue_send is from its end, after a stop.
abbrev steps_left : Tx → List (Completion Text (Unit {0}) (Unit {0})) → ℕ
steps_left not_spawned ks = 4
steps_left spawned ks = 2
steps_left tx_done ks = 0
steps_left (writing m) ks = 2
steps_left popping [] = 4
steps_left popping (k ∷ ks) = if is_error k.ec then 1 else 3

record Ends (n : ℕ) (c : Chat) : Type 0 where
  valid : IsValid c
  stopping : Stopping c.tx c.ec c.queue
  was_spawned : c.tx ≢ not_spawned
  near : steps_left c.tx c.queue.posted ≤ n

goes_on-Ends :
    (ec : ErrorCode) (n : ℕ) (c : Chat) (t : Tx)
    → c.tx ≡ t
    → Ends (n + 1) c
    → Returns (Ends n) (tx_goes_on ec c)
unfolding tx_goes_on step dequeue_next dequeue_wrote
goes_on-Ends ec n c not_spawned e h = absurd (h.was_spawned e)
goes_on-Ends ec n c spawned e h = ground arith
goes_on-Ends ec n c popping e h = ground arith
goes_on-Ends ec n c (writing m) e h = ground arith
goes_on-Ends ec n c tx_done e h = ground arith

Ends-zero : (c : Chat) → Ends 0 c → c.tx ≡ tx_done
Ends-zero c h = ground arith

Returns-imp :
    (P Q : Chat → Type 0) (m : Outcome Chat) → Returns P m → ((c : Chat) → P c → Q c) → Returns Q m
Returns-imp P Q (done c) r g = g c r
Returns-imp P Q assert_failed r g = absurd r

Returns-bind :
    (P Q : Chat → Type 0) (m : Outcome Chat) (f : Chat → Outcome Chat)
    → Returns P m
    → ((c : Chat) → P c → Returns Q (f c))
    → Returns Q (m >>= f)
Returns-bind P Q (done c) f r g = g c r
Returns-bind P Q assert_failed f r g = absurd r

-- In a reached connection whose queue a stop has reached, dequeue_send, if it was spawned, ends within
-- three steps of its own, with whatever code its write completes.
pub stopped_tx_ends :
    {ms : List Text} {n : ℕ} {c : Chat} (ec : ErrorCode)
    → Reach ms n c
    → 1 ≤ n
    → c.tx ≢ not_spawned
    → Returns (λ d. d.tx ≡ tx_done) (tx_goes_on ec c >>= tx_goes_on ec >>= tx_goes_on ec)
stopped_tx_ends {c = c} ec reach h t =
    let go : (n : ℕ) (d : Chat) → Ends (n + 1) d → Returns (Ends n) (tx_goes_on ec d) =
      λ n d. goes_on-Ends ec n d d.tx refl in
    let near_end : Ends 3 c = record {
      valid = Reach-IsValid reach;
      stopping = Reach-Stopping reach h;
      was_spawned = t;
      near = ground (arith, Reach-IsValid reach, Reach-Stopping reach h);
    } in
    Returns-bind (Ends 1) (λ d. d.tx ≡ tx_done) (tx_goes_on ec c >>= tx_goes_on ec) (tx_goes_on ec)
      (Returns-bind (Ends 2) (Ends 1) (tx_goes_on ec c) (tx_goes_on ec) (go 2 c near_end) (go 1))
      (λ d k. Returns-imp (Ends 0) (λ d'. d'.tx ≡ tx_done) (tx_goes_on ec d) (go 0 d k) Ends-zero)

abbrev pub is_send : Event → Bool
is_send (sends m) = true
is_send stops = false
is_send runs = false
is_send (accepted ec) = false
is_send tx_starts = false
is_send popped = false
is_send (wrote ec) = false
is_send (received ec bytes) = false
is_send (closed ec) = false

-- In a reached connection that has left the chat while dequeue_send waits for a message with no
-- completion posted, no event but a send changes that, a stop included.
pub peer_close_strands :
    {ms : List Text} {n : ℕ} {c : Chat} (e : Event)
    → Reach ms n c
    → c.state ≡ exit_state
    → c.tx ≡ popping
    → c.queue.posted ≡ []
    → enabled c e ≡ true
    → is_send e ≡ false
    → Returns (λ d. (d.state ≡ exit_state) × (d.tx ≡ popping) × (d.queue.posted ≡ [])) (step c e)
unfolding step stop_connection run_state run_accepted dequeue_wrote rx_received
peer_close_strands (sends m) reach s t p en k = cc
peer_close_strands stops reach s t p en k = ground arith
peer_close_strands runs reach s t p en k = ground arith
peer_close_strands (accepted ec) reach s t p en k = ground (arith, Reach-IsValid reach)
peer_close_strands tx_starts reach s t p en k = ground arith
peer_close_strands popped reach s t p en k = ground arith
peer_close_strands (wrote ec) reach s t p en k = ground arith
peer_close_strands (received ec bytes) reach s t p en k = ground (arith, Reach-IsValid reach)
peer_close_strands (closed ec) reach s t p en k = ground arith
