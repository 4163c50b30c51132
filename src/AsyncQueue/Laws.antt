-- ===== src/AsyncQueue/Laws.antt =====
-- What holds of every queue that callers and the executor reach.
use mathlib.Core.List.{Sublist, append-nil, append_assoc, map-append, sublist-append_left}
use mathlib.Core.List.Sublist
use boost_beast_websocket_ec.Prelude.{
  Returns, ℕ, ◌≡◌, refl, sym, ap, ◌∙◌, true, false, ◌||◌, some, List, [], ◌∷◌, ◌++◌, map, success,
  operation_aborted, is_error, done, arith,
}
use boost_beast_websocket_ec.AsyncQueue.{
  Impl, Completion, Task, completes, pushes, stops, waiting, construct, async_pop, push, stop,
  perform, maybe_complete, drain,
}
use boost_beast_websocket_ec.AsyncQueue.Reach.{
  Reach, start, pops, calls_push, calls_stop, performs, accepted, waiter, served, delivered,
  is_stalled, has_completes,
}

drain-nil : {A : Type 0} (vs : List A) → drain vs ≡ []
unfolding drain
drain-nil [] = refl
drain-nil (v ∷ vs) = drain-nil vs

has_completes-append :
    {A : Type 0} (xs ys : List (Task A))
    → has_completes (xs ++ ys) ≡ (has_completes xs || has_completes ys)
has_completes-append [] ys = refl
has_completes-append (completes ∷ xs) ys = refl
has_completes-append (pushes v ∷ xs) ys = has_completes-append xs ys
has_completes-append (stops ∷ xs) ys = has_completes-append xs ys

module _ {A H E : Type 0} where
  delivered-append :
      (cs : List (Completion A H E)) (c : Completion A H E)
      → delivered (cs ++ c ∷ []) ≡ delivered cs ++ delivered (c ∷ [])
  delivered-append [] c = refl
  delivered-append (x ∷ cs) c = ground (arith, delivered-append cs c)

  served-append :
      (cs : List (Completion A H E)) (c : Completion A H E)
      → served (cs ++ c ∷ []) ≡ served cs ++ c.handler ∷ []
  served-append cs c = map-append _ cs (c ∷ [])

  -- The waiting handler moves to the posted ones, or stays.
  served-maybe_complete :
      (d : A) (q : Impl A H E)
      → let r = maybe_complete d q in
        served r.posted ++ waiter r.state r.handler ≡ served q.posted ++ waiter q.state q.handler
  unfolding maybe_complete
  served-maybe_complete d q = grind (arith, served-append, append-nil, append_assoc)

  delivered-maybe_complete :
      (d : A) (q : Impl A H E)
      → let r = maybe_complete d q in
        delivered r.posted ++ r.values ≡ delivered q.posted ++ q.values
  unfolding maybe_complete
  delivered-maybe_complete d q = grind (arith, delivered-append, append-nil, append_assoc)

  maybe_complete_not_stalled : (d : A) (q : Impl A H E) → is_stalled (maybe_complete d q) ≡ false
  unfolding maybe_complete
  maybe_complete_not_stalled d q = ground arith

  -- the queue as `push` and `stop` leave it for maybe_complete
  abbrev pushed : Impl A H E → A → Impl A H E
  pushed q v = record q { values = q.values ++ v ∷ [] }

  abbrev aborted : Impl A H E → Impl A H E
  aborted q = record q { ec = operation_aborted; values = drain q.values }

  served-perform :
      (d : A) (q : Impl A H E) (t : Task A)
      → let r = perform d q t in
        served r.posted ++ waiter r.state r.handler ≡ served q.posted ++ waiter q.state q.handler
  unfolding perform
  served-perform d q completes = served-maybe_complete d q
  served-perform d q (pushes v) = served-maybe_complete d (pushed q v)
  served-perform d q stops = served-maybe_complete d (aborted q)

  perform_not_stalled : (d : A) (q : Impl A H E) (t : Task A) → is_stalled (perform d q t) ≡ false
  unfolding perform
  perform_not_stalled d q completes = maybe_complete_not_stalled d q
  perform_not_stalled d q (pushes v) = maybe_complete_not_stalled d (pushed q v)
  perform_not_stalled d q stops = maybe_complete_not_stalled d (aborted q)

module _ {A H E : Type 0} (associated : H → E → E) (d : A) where
  -- Every handler given to async_pop is posted once, in the order of the calls, or is the one that
  -- still waits: none is lost, none is called twice, and no moved-out handler is called.
  pub pops-served :
      {hs : List H} {vs : List A} {n : ℕ} {q : Impl A H E}
      → Reach associated d hs vs n q
      → served q.posted ++ waiter q.state q.handler ≡ map some hs
  unfolding construct async_pop push stop
  pops-served (start exec) = refl
  pops-served (pops {hs = hs} {q = q} h r reach e) =
      grind (arith, pops-served reach, map-append some hs (h ∷ []), append-nil)
  pops-served (calls_push v reach) = pops-served reach
  pops-served (calls_stop reach) = pops-served reach
  pops-served (performs {q = q} xs ys t reach e) =
      served-perform d (record q { tasks = xs ++ ys }) t ∙ pops-served reach

  -- No lost wakeup: if a value or an error is there for the handler that waits, a task that
  -- completes it is on its way.
  pub stalled-completes :
      {hs : List H} {vs : List A} {n : ℕ} {q : Impl A H E}
      → Reach associated d hs vs n q
      → is_stalled q ≡ true
      → has_completes q.tasks ≡ true
  unfolding construct async_pop push stop
  stalled-completes (start exec) h = cc
  stalled-completes (pops {q = q} h r reach e) s =
      ground (arith, has_completes-append q.tasks (completes ∷ []))
  stalled-completes (calls_push {q = q} v reach) s =
      ground (arith, has_completes-append q.tasks (pushes v ∷ []), stalled-completes reach s)
  stalled-completes (calls_stop {q = q} reach) s =
      ground (arith, has_completes-append q.tasks (stops ∷ []), stalled-completes reach s)
  stalled-completes (performs {q = q} xs ys t reach e) s =
      cc (perform_not_stalled d (record q { tasks = xs ++ ys }) t)

  -- Once the executor has performed every task, a handler waits only on an empty queue with no error.
  pub waiting_idle :
      {hs : List H} {vs : List A} {n : ℕ} {q : Impl A H E}
      → Reach associated d hs vs n q
      → q.tasks ≡ []
      → q.state ≡ waiting
      → (q.values ≡ []) × (is_error q.ec ≡ false)
  waiting_idle {q = q} reach quiet w = ground (arith, stalled-completes reach)

  delivered-perform :
      (q : Impl A H E) (t : Task A)
      → let r = perform d q t in
        delivered r.posted ++ r.values
        ≡ delivered q.posted
          ++ (elim t [ completes ↦ q.values | pushes v ↦ q.values ++ v ∷ [] | stops ↦ [] ])
  unfolding perform
  delivered-perform q completes = delivered-maybe_complete d q
  delivered-perform q (pushes v) = delivered-maybe_complete d (pushed q v)
  delivered-perform q stops =
      delivered-maybe_complete d (aborted q) ∙ ap (◌++◌ (delivered q.posted)) (drain-nil q.values)

  sublist-perform :
      (q : Impl A H E) (t : Task A) {vs : List A}
      → Sublist (delivered q.posted ++ q.values) vs
      → let r = perform d q t in Sublist (delivered r.posted ++ r.values) (accepted vs t)
  sublist-perform q completes s = rw (delivered-perform q completes) s
  sublist-perform q (pushes v) s = rw (delivered-perform q (pushes v)) (
      rw (← append_assoc (delivered q.posted) q.values (v ∷ []))
        (Sublist.append s (Sublist.refl (v ∷ []))))
  sublist-perform q stops s =
      rw (delivered-perform q stops, append-nil (delivered q.posted))
        (Sublist.trans (sublist-append_left (delivered q.posted) q.values) s)

  async_pop_keeps :
      (q r : Impl A H E) (h : H)
      → async_pop associated q h ≡ done r
      → delivered r.posted ++ r.values ≡ delivered q.posted ++ q.values
  unfolding async_pop
  async_pop_keeps q r h e = ground arith

  -- Handlers get values in the order in which they were pushed, each at most once, and what is
  -- still queued comes after them.
  pub delivered-sublist :
      {hs : List H} {vs : List A} {n : ℕ} {q : Impl A H E}
      → Reach associated d hs vs n q
      → Sublist (delivered q.posted ++ q.values) vs
  unfolding construct push stop
  delivered-sublist (start exec) = Sublist.refl []
  delivered-sublist (pops {q = q} h r reach e) =
      rw (async_pop_keeps q r h e) (delivered-sublist reach)
  delivered-sublist (calls_push v reach) = delivered-sublist reach
  delivered-sublist (calls_stop reach) = delivered-sublist reach
  delivered-sublist (performs {q = q} xs ys t reach e) =
      sublist-perform (record q { tasks = xs ++ ys }) t (delivered-sublist reach)

  -- While no stop has been performed, nothing is dropped: what handlers got, followed by what is
  -- queued, is what was pushed.
  pub delivered_all :
      {hs : List H} {vs : List A} {n : ℕ} {q : Impl A H E}
      → Reach associated d hs vs n q
      → n ≡ 0
      → delivered q.posted ++ q.values ≡ vs
  unfolding construct push stop
  delivered_all (start exec) z = refl
  delivered_all (pops {q = q} h r reach e) z = async_pop_keeps q r h e ∙ delivered_all reach z
  delivered_all (calls_push v reach) z = delivered_all reach z
  delivered_all (calls_stop reach) z = delivered_all reach z
  delivered_all (performs {q = q} xs ys completes reach e) z =
      delivered-perform (record q { tasks = xs ++ ys }) completes ∙ delivered_all reach z
  delivered_all (performs {q = q} xs ys (pushes v) reach e) z =
      delivered-perform (record q { tasks = xs ++ ys }) (pushes v)
      ∙ sym (append_assoc (delivered q.posted) q.values (v ∷ []))
      ∙ ap (λ us. us ++ v ∷ []) (delivered_all reach z)
  delivered_all (performs xs ys stops reach e) z = absurd (omega arith)

  -- `stop` fails one pop only: the handler that waits is posted with operation_aborted and the
  -- default value, the values are gone, and then the queue is clean again, so that the next pop
  -- waits as on a new queue.
  pub stop_aborts_one :
      (q : Impl A H E) (h next : H)
      → q.state ≡ waiting
      → q.handler ≡ some h
      → let r = perform d q stops in
        (r.posted
          ≡ q.posted
            ++ record {
              executor = q.handler_executor;
              handler = some h;
              ec = operation_aborted;
              value = d;
            }
              ∷ [])
        × (r.values ≡ [])
        × (r.ec ≡ success)
        × Returns
            (λ s.
              ((perform d s completes).state ≡ waiting)
              × ((perform d s completes).posted ≡ r.posted))
            (async_pop associated r next)
  unfolding perform async_pop
  stop_aborts_one q h next w e = ground (arith, drain-nil q.values)
