-- ===== src/Chatterbox/Pool.antt =====
-- pre-cxx20/chatterbox/connection_pool.hpp and connection_pool.cpp. Connections are numbered in the
-- order of their creation; what the pool calls on them stands in `calls`, in order.
pub mod Laws
mod Tests
use boost_beast_websocket_ec.Prelude.{
  ℕ, suc, ◌+◌, ◌-◌, Bool, true, false, ◌&&◌, not, List, [], ◌∷◌, ◌++◌, ErrorCode, success,
  operation_aborted, is_error, is_operation_aborted, if◌then◌else◌, length, ltb,
}
use boost_beast_websocket_ec.Prelude.Endpoint.{Endpoint}
use boost_beast_websocket_ec.Prelude.Table.{Table, assign}

-- The functions of connection_impl that the pool calls.
pub data Call : Type 0 where
  runs stops : Call

-- connection_pool: `waits` counts the waits on timer_ that have not completed, and `cancels` the
-- calls of its cancel; `created` counts the connections made.
pub record Pool : Type 0 where
  pub connections : Table
  pub ec : ErrorCode
  pub waits : ℕ
  pub cancels : ℕ
  pub created : ℕ
  pub calls : List (ℕ × Call)

-- connection_pool::connection_pool
unfoldable pub connection_pool : Pool
connection_pool = record {
  connections = [];
  ec = success;
  waits = 0;
  cancels = 0;
  created = 0;
  calls = [];
}

-- `ep` is the local endpoint that the new connection's socket is bound to.
unfoldable pub another_connection : Pool → Endpoint → Pool
another_connection s ep = record s {
  created = suc s.created;
  calls = s.calls ++ (s.created, runs) ∷ [];
  connections = assign ep s.created s.connections;
}

unfoldable pub handle_run : Pool → Endpoint → Pool
unfolding another_connection
handle_run s ep = another_connection (record s { ec = success }) ep

unfoldable pub handle_timer : Pool → ErrorCode → Endpoint → Pool
unfolding another_connection
handle_timer s ec ep =
    if is_error s.ec
    then s
    else if is_operation_aborted ec
    then s
    else if is_error ec
    then s
    else another_connection s ep

unfoldable pub initiate_timer : Pool → Pool
initiate_timer s =
    if not (is_error s.ec) && ltb (length s.connections) 100
    then record s { waits = s.waits + 1 }
    else s

-- The loop of handle_stop: `alive p` says whether the weak pointer to `p` can be locked.
abbrev pub stop_all : (ℕ → Bool) → Table → List (ℕ × Call)
stop_all alive [] = []
stop_all alive ((ep, p) ∷ t) =
    let rest = stop_all alive t in if alive p then (p, stops) ∷ rest else rest

unfoldable pub handle_stop : (ℕ → Bool) → Pool → Pool
handle_stop alive s = record s {
  ec = operation_aborted;
  cancels = s.cancels + 1;
  calls = s.calls ++ stop_all alive s.connections;
  connections = [];
}
