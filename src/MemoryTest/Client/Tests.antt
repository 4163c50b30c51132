-- ===== src/MemoryTest/Client/Tests.antt =====
-- Two threads, of which one writes and goes to sleep and one is refused.
use boost_beast_websocket_ec.Prelude.{◌≡◌, refl, [], ◌∷◌, success, fault}
use boost_beast_websocket_ec.Prelude.Text.{codes, to_string}
use boost_beast_websocket_ec.MemoryTest.Client.{
  Client, sleeping, caught, text, main, main_turn, thread_step, start_handshake, main_goes,
  thread_goes, step, change_at, spawn_thread, Reach, start, next,
}
use boost_beast_websocket_ec.MemoryTest.Client.Laws.{IsValid, held_open}

two : Client
unfolding step main
two =
    step
      (step
        (step
          (step (step (step (step main main_goes) main_goes) (thread_goes 0 success 0))
            (thread_goes 0 success 6761))
          (thread_goes 0 success 0))
        (thread_goes 0 success 0))
      (thread_goes 1 fault 0)

two-Reach : Reach two
unfolding two
two-Reach = next (thread_goes 1 fault 0) (
    next (thread_goes 0 success 0) (
      next (thread_goes 0 success 0) (
        next (thread_goes 0 success 6761)
          (next (thread_goes 0 success 0) (next main_goes (next main_goes start))))))

two_threads :
    two.threads
    ≡ record {
      stage = sleeping;
      host = codes "192.168.0.55:6761";
      handshakes = codes "192.168.0.55:6761" ∷ [];
      written = text ∷ [];
    }
      ∷ (record { stage = caught fault; host = codes "192.168.0.55"; handshakes = []; written = [] }
          ∷ [])
unfolding two step main main_turn thread_step change_at spawn_thread start_handshake to_string
two_threads = refl

one_line : two.printed ≡ 0 ∷ []
unfolding two step main main_turn
one_line = refl

held_open_example : IsValid two
held_open_example = held_open two-Reach
