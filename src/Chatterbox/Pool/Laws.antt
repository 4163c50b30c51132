-- ===== src/Chatterbox/Pool/Laws.antt =====
-- How many connections the pool makes, and which of them a stop reaches.
use boost_beast_websocket_ec.Prelude.{
  ℕ, ◌+◌, ◌-◌, ◌≤◌, ◌≡◌, refl, Bool, true, false, List, [], ◌∷◌, ◌++◌, ErrorCode, is_error,
  if◌then◌else◌, length, ltb, ◌==◌, arith, some, ==_iff,
}
use boost_beast_websocket_ec.Prelude.Endpoint.{Endpoint, same_endpoint}
use boost_beast_websocket_ec.Prelude.Table.{
  Table, lookup, lookup-assign, occurrences, occurrences-assign, length-assign,
}
use boost_beast_websocket_ec.Chatterbox.Pool.{
  Pool, Call, runs, stops, connection_pool, handle_run, handle_timer, handle_stop, stop_all,
}

-- What reaches the pool on its executor: run and stop, and completions of its timer. The endpoint is
-- the one that a connection made by the handler is bound to.
pub data Event : Type 0 where
  started : Endpoint → Event
  stopped : (ℕ → Bool) → Event
  timed : ErrorCode → Endpoint → Event

abbrev pub enabled : Pool → Event → Bool
enabled s (started ep) = true
enabled s (stopped alive) = true
enabled s (timed ec ep) = ltb 0 s.waits

unfoldable pub step : Pool → Event → Pool
step s (started ep) = handle_run s ep
step s (stopped alive) = handle_stop alive s
step s (timed ec ep) = handle_timer (record s { waits = s.waits - 1 }) ec ep

abbrev pub run_count : Event → ℕ
run_count (started ep) = 1
run_count (stopped alive) = 0
run_count (timed ec ep) = 0

-- The pools that events reach, with the number of calls of run.
pub data Reach : ℕ → Pool → Type 0 where
  fresh : Reach 0 connection_pool
  next :
      {n : ℕ} {s : Pool} (e : Event)
      → Reach n s
      → enabled s e ≡ true
      → Reach (n + run_count e) (step s e)

-- No function of the pool starts its timer: in every reached pool no wait is going on, and exactly
-- one connection has been made for each call of run.
pub one_per_run :
    {n : ℕ} {s : Pool} → Reach n s → (s.waits ≡ 0) × (s.created ≡ n) × (length s.connections ≤ n)
unfolding step connection_pool handle_run handle_stop
one_per_run fresh = (refl, refl, omega arith)
one_per_run (next {s = s} (started ep) reach en) =
    ground (arith, one_per_run reach, length-assign ep s.created s.connections)
one_per_run (next (stopped alive) reach en) = ground (arith, one_per_run reach)
one_per_run (next (timed ec ep) reach en) = absurd (ground (arith, one_per_run reach))

-- How often `p` is stopped in a list of calls.
abbrev pub stops_of : ℕ → List (ℕ × Call) → ℕ
stops_of p [] = 0
stops_of p ((q, runs) ∷ cs) = stops_of p cs
stops_of p ((q, stops) ∷ cs) = (if p == q then 1 else 0) + stops_of p cs

stops_of-append :
    (p : ℕ) (cs ds : List (ℕ × Call)) → stops_of p (cs ++ ds) ≡ stops_of p cs + stops_of p ds
stops_of-append p [] ds = omega arith
stops_of-append p ((q, runs) ∷ cs) ds = stops_of-append p cs ds
stops_of-append p ((q, stops) ∷ cs) ds = omega (arith, stops_of-append p cs ds)

stops_of-stop_all :
    (alive : ℕ → Bool) (p : ℕ) (t : Table)
    → stops_of p (stop_all alive t) ≡ (if alive p then occurrences p t else 0)
stops_of-stop_all alive p [] = ground arith
stops_of-stop_all alive p ((ep, q) ∷ t) = ground (arith, stops_of-stop_all alive p t, ==_iff p q)

occurrences_bound :
    {n : ℕ} {s : Pool}
    → Reach n s
    → (p : ℕ) → occurrences p s.connections ≤ (if ltb p s.created then 1 else 0)
unfolding step connection_pool handle_run handle_stop
occurrences_bound fresh p = ground arith
occurrences_bound (next {s = s} (started ep) reach en) p =
    ground (arith, occurrences_bound reach p, occurrences-assign p ep s.created s.connections)
occurrences_bound (next (stopped alive) reach en) p = ground arith
occurrences_bound (next (timed ec ep) reach en) p = absurd (ground (arith, one_per_run reach))

-- A stop of a reached pool stops every connection in its table that is alive once and no other, and
-- empties the table; a timer that completes afterwards, with any code, makes no connection.
pub pool_stop_reaches :
    {n : ℕ} {s : Pool} (alive : ℕ → Bool) (p : ℕ) (ec : ErrorCode) (ep : Endpoint)
    → Reach n s
    → let s' = step s (stopped alive) in
      (stops_of p s'.calls
        ≡ stops_of p s.calls + (if alive p then occurrences p s.connections else 0))
      × (occurrences p s.connections ≤ 1)
      × (s'.connections ≡ [])
      × (handle_timer s' ec ep ≡ s')
unfolding step handle_stop handle_timer
pool_stop_reaches {s = s} alive p ec ep reach = ground (
  arith,
  stops_of-append p s.calls (stop_all alive s.connections),
  stops_of-stop_all alive p s.connections,
  occurrences_bound reach p,
)

-- A run makes one connection, which is run and stands in the table under its local endpoint, with
-- every other endpoint mapped as before.
pub run_connects :
    (s : Pool) (ep other : Endpoint)
    → let s' = step s (started ep) in
      (s'.calls ≡ s.calls ++ (s.created, runs) ∷ [])
      × (is_error s'.ec ≡ false)
      × (lookup other s'.connections
          ≡ (if same_endpoint ep other then some s.created else lookup other s.connections))
unfolding step handle_run
run_connects s ep other = ground (arith, lookup-assign ep other s.created s.connections)
