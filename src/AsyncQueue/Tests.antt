-- ===== src/AsyncQueue/Tests.antt =====
-- The two sections of lib/util/async_queue.spec.cpp, and the queue's theorems at such runs.
use mathlib.Core.List.{Sublist}
use boost_beast_websocket_ec.Prelude.{
  ℕ, ◌≡◌, refl, none, some, List, [], ◌∷◌, ◌++◌, ErrorCode, success, operation_aborted, is_error,
  done, Returns, true, false, ◌==◌, if◌then◌else◌,
}
use boost_beast_websocket_ec.AsyncQueue.{
  Impl, Completion, Task, completes, pushes, stops, waiting, not_waiting, construct, async_pop,
  push, stop, perform,
}
use boost_beast_websocket_ec.AsyncQueue.Reach.{
  Reach, start, pops, calls_push, performs, served, delivered, has_completes,
}
use boost_beast_websocket_ec.AsyncQueue.Laws.{
  pops-served, stalled-completes, waiting_idle, delivered-sublist, delivered_all, stop_aborts_one,
}
use boost_beast_websocket_ec.AsyncQueue.Handle.{Store, assign, assign_stops_old}

abbrev Queue : Type 0
Queue = Impl ℕ ℕ ℕ

-- make_handler binds the handlers to the second executor, 2
abbrev second : ℕ → ℕ → ℕ
second h e = 2

perform_all : Queue → List (Task ℕ) → Queue
perform_all q [] = q
perform_all q (t ∷ ts) = perform_all (perform 0 q t) ts

-- ioc.poll()
poll : Queue → Queue
unfolding perform_all
poll q = perform_all (record q { tasks = [] }) q.tasks

popped : Queue → ℕ → Queue
popped q h = elim (async_pop second q h) [ done r ↦ r | _ ↦ q ]

abbrev completion : ℕ → ErrorCode → ℕ → Completion ℕ ℕ ℕ
completion h ec v = record { executor = some 2; handler = some h; ec = ec; value = v }

stop_section : (poll (stop (popped (construct 1) 7))).posted ≡ completion 7 operation_aborted 0 ∷ []
unfolding poll popped perform_all perform stop async_pop construct
stop_section = refl

-- Three values; two pops get the first two; after a stop the next pop fails.
three_values_section :
    let q = poll (push (push (push (construct 1) 10) 20) 30) in
    let r = poll (popped (poll (popped q 7)) 8) in
    (poll (popped (poll (stop r)) 9)).posted
    ≡ completion 7 success 10 ∷ completion 8 success 20 ∷ completion 9 operation_aborted 0 ∷ []
unfolding poll popped perform_all perform push stop async_pop construct
three_values_section = refl

abbrev one_waits : Queue
one_waits = record {
  state = waiting;
  handler = some 7;
  handler_executor = some 2;
  values = [];
  ec = success;
  default_executor = 1;
  tasks = completes ∷ [];
  posted = [];
}

abbrev pushed_too : Queue
pushed_too = record one_waits { tasks = completes ∷ pushes 10 ∷ [] }

one_waits-Reach : Reach second 0 (7 ∷ []) [] 0 one_waits
unfolding construct async_pop
one_waits-Reach = pops 7 one_waits (start 1) refl

pushed_too-Reach : Reach second 0 (7 ∷ []) [] 0 pushed_too
unfolding push
pushed_too-Reach = calls_push 10 one_waits-Reach

-- The push is performed before the completion that async_pop dispatched.
abbrev overtaken : Queue
overtaken = record one_waits {
  state = not_waiting;
  handler = none;
  posted = completion 7 success 10 ∷ [];
}

overtaken-Reach : Reach second 0 (7 ∷ []) (10 ∷ []) 0 overtaken
unfolding perform
overtaken-Reach = performs (completes ∷ []) [] (pushes 10) pushed_too-Reach refl

pops-served_example : served overtaken.posted ++ [] ≡ some 7 ∷ []
pops-served_example = pops-served second 0 overtaken-Reach

delivered-sublist_case : Sublist (delivered overtaken.posted ++ []) (10 ∷ [])
delivered-sublist_case = delivered-sublist second 0 overtaken-Reach

delivered_all_example : delivered overtaken.posted ++ overtaken.values ≡ 10 ∷ []
delivered_all_example = delivered_all second 0 overtaken-Reach refl

-- A value stands in the queue when a pop begins.
abbrev stocked : Queue
stocked = record {
  state = not_waiting;
  handler = none;
  handler_executor = none;
  values = 10 ∷ [];
  ec = success;
  default_executor = 1;
  tasks = [];
  posted = [];
}

stocked-Reach : Reach second 0 [] (10 ∷ []) 0 stocked
unfolding construct push perform
stocked-Reach = performs [] [] (pushes 10) (calls_push 10 (start 1)) refl

abbrev due : Queue
due = record stocked {
  state = waiting;
  handler = some 7;
  handler_executor = some 2;
  tasks = completes ∷ [];
}

due-Reach : Reach second 0 (7 ∷ []) (10 ∷ []) 0 due
unfolding async_pop
due-Reach = pops 7 due stocked-Reach refl

stalled-completes_example : has_completes due.tasks ≡ true
stalled-completes_example = stalled-completes second 0 due-Reach refl

idle-Reach : Reach second 0 (7 ∷ []) [] 0 (record one_waits { tasks = [] })
unfolding perform
idle-Reach = performs [] [] completes one_waits-Reach refl

idle_waits :
    let q : Queue = record one_waits { tasks = [] } in (q.values ≡ []) × (is_error q.ec ≡ false)
idle_waits = waiting_idle second 0 idle-Reach refl refl

stop_aborts_one_case :
    let r = perform 0 one_waits stops in
    (r.posted ≡ completion 7 operation_aborted 0 ∷ [])
    × (r.values ≡ [])
    × (r.ec ≡ success)
    × Returns
        (λ s.
          ((perform 0 s completes).state ≡ waiting) × ((perform 0 s completes).posted ≡ r.posted))
        (async_pop second r 8)
stop_aborts_one_case = stop_aborts_one second 0 one_waits 7 8 refl refl

abbrev two_queues : Store ℕ ℕ ℕ
two_queues = record { cell = λ j. if j == 0 then one_waits else stocked; next = 2 }

assign_stops_old_case :
    let (this, other, m) =
      assign two_queues (record { impl = some 0 }) (record { impl = some 1 }) in
    (this.impl ≡ some 1) × (other.impl ≡ none) × (m.cell 0 ≡ stop one_waits)
assign_stops_old_case =
    assign_stops_old two_queues (record { impl = some 0 }) (record { impl = some 1 }) 0 0 refl
