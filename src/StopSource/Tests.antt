-- ===== src/StopSource/Tests.antt =====
-- A source with three slots, of which one is disconnected before the stop.
use boost_beast_websocket_ec.Prelude.{
  ℕ, ◌+◌, ◌≡◌, refl, true, false, some, none, List, [], ◌∷◌, arith,
}
use boost_beast_websocket_ec.Prelude.Slots.{u64_max, total, erase, erased}
use boost_beast_websocket_ec.StopSource.{
  StopSource, stop_source, connect, disconnect, stop, stopped, make_token, token_stopped,
  connection_disconnect, source_stop,
}
use boost_beast_websocket_ec.StopSource.Laws.{
  Reach, start, connects, disconnects, stops, stopped_iff, slots_accounted,
}

abbrev in_order : List (ℕ × ℕ) → List (ℕ × ℕ)
in_order m = m

abbrev after_stop : StopSource ℕ
after_stop = record { next_id = u64_max; slots = [] }

-- A slot connected after the stop runs at once.
run : Reach in_order (10 ∷ 20 ∷ 30 ∷ 40 ∷ []) (10 ∷ 30 ∷ 40 ∷ []) (20 ∷ []) 4 true after_stop
unfolding stop_source connect disconnect stop erase erased
run = connects 40 (stops (disconnects 1 (connects 30 (connects 20 (connects 10 start)))))

stopped_iff_case : (stopped after_stop ≡ true) × (true ≡ true → after_stop.slots ≡ [])
stopped_iff_case = stopped_iff run (omega arith)

slots_accounted_example :
    total (λ n. n) (10 ∷ 20 ∷ 30 ∷ 40 ∷ [])
    ≡ total (λ n. n) (10 ∷ 30 ∷ 40 ∷ []) + 0 + total (λ n. n) (20 ∷ [])
slots_accounted_example = slots_accounted (λ w m. refl) run (omega arith) (λ n. n)

-- A token reads the source that it was made from, and a connection disconnects once.
token_runs :
    let m : ℕ → StopSource ℕ = λ p. stop_source in
    let (c, m') = connection_disconnect m (record { source = some 0; id = 5 }) in
    (token_stopped (source_stop in_order m 0).0 (make_token 0) ≡ true)
    × (token_stopped m' (record { source = none }) ≡ false)
    × (c.source ≡ none)
unfolding stop_source token_stopped source_stop make_token connection_disconnect
token_runs = (refl, refl, refl)
