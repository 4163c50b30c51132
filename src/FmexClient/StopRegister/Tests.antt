-- ===== src/FmexClient/StopRegister/Tests.antt =====
-- The two registrations that connect_transport_op makes with one token, and a stop after them.
use boost_beast_websocket_ec.Prelude.{ℕ, ◌+◌, ◌≡◌, refl, [], ◌∷◌, arith}
use boost_beast_websocket_ec.Prelude.Slots.{slots_of, total, erased}
use boost_beast_websocket_ec.FmexClient.StopRegister.{
  StopRegister, StopToken, register, notify_all, reset,
}
use boost_beast_websocket_ec.FmexClient.StopRegister.Laws.{
  IsValid, register_replaces, notify_all_once,
}

abbrev resolving : StopRegister ℕ
resolving = record { next_id = 1; map = (1, 10) ∷ [] }

abbrev token : StopToken
token = record { id = 1 }

register_replaces_case :
    let (t', r') = register resolving token 20 in
    (IsValid r' t') × (total (λ n. n) (slots_of r'.map) + 10 ≡ 10 + 20)
unfolding erased
register_replaces_case = register_replaces resolving token 20 (λ n. n) (omega arith) (omega arith)

stopped_registry :
    let (r', called) = notify_all (λ m. m) resolving in
    (total (λ n. n) called ≡ 10) × (r'.map ≡ []) × ((reset r' token).1 ≡ r')
stopped_registry = notify_all_once (λ m. m) (λ w m. refl) resolving token (λ n. n)
