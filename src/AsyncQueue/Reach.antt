-- ===== src/AsyncQueue/Reach.antt =====
-- The states that a queue reaches: callers start operations, and the executor performs the tasks
-- that they dispatched, in any order.
use boost_beast_websocket_ec.Prelude.{
  ℕ, suc, ◌≡◌, Bool, true, false, ◌&&◌, ◌||◌, not, Option, List, [], ◌∷◌, ◌++◌, map, is_error, done,
  empty, if◌then◌else◌,
}
use boost_beast_websocket_ec.AsyncQueue.{
  Impl, Completion, Task, completes, pushes, stops, WaitingState, waiting, not_waiting, is_waiting,
  construct, async_pop, push, stop, perform,
}

-- The values that the executor has pushed onto the queue, after one more task.
abbrev pub accepted : {A : Type 0} → List A → Task A → List A
accepted vs completes = vs
accepted vs (pushes v) = vs ++ v ∷ []
accepted vs stops = vs

abbrev pub halted : {A : Type 0} → ℕ → Task A → ℕ
halted n completes = n
halted n (pushes v) = n
halted n stops = suc n

-- Its indices: the handlers given to async_pop, the values pushed, and how many stops were performed.
pub data Reach {A H E : Type 0} (associated : H → E → E) (default_value : A)
    : List H → List A → ℕ → Impl A H E → Type 0 where
  start : (exec : E) → Reach associated default_value [] [] 0 (construct exec)
  pops :
      {hs : List H} {vs : List A} {n : ℕ} {q : Impl A H E} (h : H) (r : Impl A H E)
      → Reach associated default_value hs vs n q
      → async_pop associated q h ≡ done r
      → Reach associated default_value (hs ++ h ∷ []) vs n r
  calls_push :
      {hs : List H} {vs : List A} {n : ℕ} {q : Impl A H E} (v : A)
      → Reach associated default_value hs vs n q
      → Reach associated default_value hs vs n (push q v)
  calls_stop :
      {hs : List H} {vs : List A} {n : ℕ} {q : Impl A H E}
      → Reach associated default_value hs vs n q
      → Reach associated default_value hs vs n (stop q)
  performs :
      {hs : List H} {vs : List A} {n : ℕ} {q : Impl A H E} (xs ys : List (Task A)) (t : Task A)
      → Reach associated default_value hs vs n q
      → q.tasks ≡ xs ++ t ∷ ys
      → Reach associated default_value hs
          (accepted vs t)
          (halted n t)
          (perform default_value (record q { tasks = xs ++ ys }) t)

-- The handler that waits, if one does.
abbrev pub waiter : {H : Type 0} → WaitingState → Option H → List (Option H)
waiter not_waiting h = []
waiter waiting h = h ∷ []

module _ {A H E : Type 0} where
  -- The handlers whose completion is posted.
  abbrev pub served : List (Completion A H E) → List (Option H)
  served = map λ c. c.handler

  -- The values handed to handlers without an error.
  abbrev pub delivered : List (Completion A H E) → List A
  delivered [] = []
  delivered (c ∷ cs) = let rest = delivered cs in if is_error c.ec then rest else c.value ∷ rest

  -- A handler waits although its completion is due.
  abbrev pub is_stalled : Impl A H E → Bool
  is_stalled q = is_waiting q.state && (not (empty q.values) || is_error q.ec)

abbrev pub has_completes : {A : Type 0} → List (Task A) → Bool
has_completes [] = false
has_completes (completes ∷ ts) = true
has_completes (pushes v ∷ ts) = has_completes ts
has_completes (stops ∷ ts) = has_completes ts
