-- ===== src/AsyncQueue.antt =====
-- lib/util/detail/async_queue_impl.hpp and lib/util/async_queue.hpp: a queue of values with one
-- waiting handler. The part that runs on the default executor is a list of tasks: `dispatch` adds
-- one, and the executor performs it. What is posted to the handler's executor stands in `posted`.
pub mod Reach
pub mod Laws
pub mod Handle
mod Tests
use boost_beast_websocket_ec.Prelude.{
  Bool, true, false, ◌&&◌, not, Option, none, some, List, [], ◌∷◌, ◌++◌, ErrorCode, success,
  operation_aborted, is_error, Outcome, done, require, ◌>>◌, if◌then◌else◌, empty,
}

-- waiting_state
pub data WaitingState : Type 0 where
  not_waiting waiting : WaitingState

abbrev pub is_waiting : WaitingState → Bool
is_waiting not_waiting = false
is_waiting waiting = true

-- A function object posted to an executor: a handler and its arguments.
pub record Completion (A H E : Type 0) : Type 0 where
  pub executor : Option E
  pub handler : Option H
  pub ec : ErrorCode
  pub value : A

-- The function objects dispatched to the default executor.
pub data Task (A : Type 0) : Type 0 where
  completes : Task A
  pushes : A → Task A
  stops : Task A

-- async_queue_impl, with the work that it has handed to executors
pub record Impl (A H E : Type 0) : Type 0 where
  pub state : WaitingState
  pub handler : Option H
  pub handler_executor : Option E
  pub values : List A
  pub ec : ErrorCode
  pub default_executor : E
  pub tasks : List (Task A)
  pub posted : List (Completion A H E)

-- while (not values_.empty()) values_.pop();
pub drain {ℓ} : {A : Type ℓ} → List A → List A
drain [] = []
drain (v ∷ vs) = drain vs

-- `associated` is get_associated_executor(handler, default), `default_value` is value_type().
module _ {A H E : Type 0} where
  -- construct
  unfoldable pub construct : E → Impl A H E
  construct exec = record {
    state = not_waiting;
    handler = none;
    handler_executor = none;
    values = [];
    ec = success;
    default_executor = exec;
    tasks = [];
    posted = [];
  }

  dispatch : Impl A H E → Task A → Impl A H E
  dispatch q t = record q { tasks = q.tasks ++ t ∷ [] }

  -- net::post(net::bind_executor(handler_executor_, …)); the handler is moved out
  post : Impl A H E → ErrorCode → A → Impl A H E
  post q ec v = record q {
    handler = none;
    posted =
        q.posted
        ++ record { executor = q.handler_executor; handler = q.handler; ec = ec; value = v } ∷ [];
  }

  -- the initiation of async_pop, behind its assertion
  unfoldable pub async_pop : (H → E → E) → Impl A H E → H → Outcome (Impl A H E)
  unfolding dispatch
  async_pop associated q h = do
    require (not (is_waiting q.state))
    done (
        dispatch
          (record q {
            handler_executor = some (associated h q.default_executor);
            handler = some h;
            state = waiting;
          })
          completes)

  unfoldable pub push : Impl A H E → A → Impl A H E
  unfolding dispatch
  push q v = dispatch q (pushes v)

  unfoldable pub stop : Impl A H E → Impl A H E
  unfolding dispatch
  stop q = dispatch q stops

  -- the else branch of maybe_complete, where the queue holds a value
  deliver_front : Impl A H E → List A → Impl A H E
  unfolding post
  deliver_front q [] = q
  deliver_front q (v ∷ vs) = record (post q success v) { values = vs }

  unfoldable pub maybe_complete : A → Impl A H E → Impl A H E
  unfolding post deliver_front
  maybe_complete default_value q =
      if empty q.values && not (is_error q.ec)
      then q
      else if not (is_waiting q.state)
      then record q { state = not_waiting }
      else (let r = record q { state = not_waiting } in
          if is_error r.ec
          then record (post r r.ec default_value) { ec = success }
          else deliver_front r r.values)

  unfoldable pub perform : A → Impl A H E → Task A → Impl A H E
  unfolding maybe_complete drain
  perform d q completes = maybe_complete d q
  perform d q (pushes v) = maybe_complete d (record q { values = q.values ++ v ∷ [] })
  perform d q stops =
      maybe_complete d (record q { ec = operation_aborted; values = drain q.values })
