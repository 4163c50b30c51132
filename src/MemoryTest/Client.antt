-- ===== src/MemoryTest/Client.antt =====
-- pre-cxx20/memory-test/client.cpp: a load test of 30000 threads that each open a connection, write one
-- message and hold the connection open until the last has been spawned. The constructor of std::thread is
-- taken to succeed. The calls of a thread block; each completes with a code, and an error is thrown.
-- LARGE_SIMULTANEOUS_CONNECTIONS is defined there, and GRACEFUL_SHUTDOWN is not.
pub mod Laws
mod Tests
use boost_beast_websocket_ec.Prelude.{
  ℕ, zero, suc, ◌+◌, ◌%◌, Bool, true, false, List, [], ◌∷◌, ◌++◌, ErrorCode, is_error,
  if◌then◌else◌, ltb, ◌==◌, Option, none, some,
}
use boost_beast_websocket_ec.Prelude.Text.{Text, codes, to_string}

-- Where a thread stands: in a call, asleep, or over, by its return statement or by its handler.
pub data Stage : Type 0 where
  resolving connecting handshaking writing sleeping returned : Stage
  caught : ErrorCode → Stage

pub record Thread : Type 0 where
  pub stage : Stage
  pub host : Text
  -- the hosts of the handshakes and the messages whose write has begun
  pub handshakes : List Text
  pub written : List Text

abbrev pub text : Text
text =
    codes "a8aunpw39rvu0a9p8weufvpoaidsjfkav8w39unfvapwo9ep8UPAOISUND"
    ++ codes "PVIOUPN(*&"
    ++ codes "Np98unp938upoiuoivasdfliJNASDOIVp028upn9v8upsoinjun:"
    ++ codes "OIASJDVN"

-- A thread begins, up to its call of resolve.
unfoldable pub spawn_thread : Thread
spawn_thread = record {
  stage = resolving;
  host = codes "192.168.0.55";
  handshakes = [];
  written = [];
}

-- catch (std::exception const &e)
abbrev pub throws : ErrorCode → Thread → Thread
throws ec t = record t { stage = caught ec }

-- while (!finished)
abbrev pub hold : Bool → Thread → Thread
hold finished t = if finished then record t { stage = returned } else record t { stage = sleeping }

-- net::connect has returned an endpoint with this port.
unfoldable pub start_handshake : ℕ → Thread → Thread
start_handshake port t =
    let host = t.host ++ codes ":" ++ to_string port in
    record t { stage = handshaking; host = host; handshakes = t.handshakes ++ host ∷ [] }

-- The call that the thread is in completes; `port` is that of the endpoint, for connect.
unfoldable pub thread_step : Bool → ErrorCode → ℕ → Thread → Thread
unfolding start_handshake
thread_step finished ec port t = elim t.stage [
  | resolving ↦ if is_error ec then throws ec t else record t { stage = connecting }
  | connecting ↦ if is_error ec then throws ec t else start_handshake port t
  | handshaking ↦
      if is_error ec
      then throws ec t
      else record t { stage = writing; written = t.written ++ text ∷ [] }
  | writing ↦ if is_error ec then throws ec t else hold finished t
  | sleeping ↦ hold finished t
  | returned ↦ t
  | caught e ↦ t
]

-- What a thread returns: EXIT_FAILURE on both ways.
abbrev pub exit_code : Stage → Option ℕ
exit_code resolving = none
exit_code connecting = none
exit_code handshaking = none
exit_code writing = none
exit_code sleeping = none
exit_code returned = some 1
exit_code (caught ec) = some 1

-- `main`: its counter, the counters of the lines "Thread spawn", and the threads in the order of their
-- spawning. finished is set where "Finished" is printed.
pub record Client : Type 0 where
  pub i : ℕ
  pub printed : List ℕ
  pub finished : Bool
  pub threads : List Thread

unfoldable pub main : Client
main = record { i = 0; printed = []; finished = false; threads = [] }

-- A turn of the first loop, or what follows it: the assignment of finished, and the loop that sleeps.
unfoldable pub main_turn : Client → Client
unfolding spawn_thread
main_turn m =
    if ltb m.i 30000
    then record m {
      printed = if m.i % 1000 == 0 then m.printed ++ m.i ∷ [] else m.printed;
      threads = m.threads ++ spawn_thread ∷ [];
      i = m.i + 1;
    }
    else record m { finished = true }

pub data Event : Type 0 where
  main_goes : Event
  -- the call of a thread completes
  thread_goes : ℕ → ErrorCode → ℕ → Event

pub change_at : ℕ → (Thread → Thread) → List Thread → List Thread
change_at k f [] = []
change_at zero f (t ∷ ts) = f t ∷ ts
change_at (suc k) f (t ∷ ts) = t ∷ change_at k f ts

unfoldable pub step : Client → Event → Client
unfolding main_turn thread_step change_at
step m main_goes = main_turn m
step m (thread_goes k ec port) = record m {
  threads = change_at k (thread_step m.finished ec port) m.threads;
}

-- The states that an interleaving of `main` and its threads reaches.
pub data Reach : Client → Type 0 where
  start : Reach main
  next : {m : Client} (e : Event) → Reach m → Reach (step m e)
