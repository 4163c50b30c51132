-- ===== src/PolyHandler/Tests.antt =====
-- The test of lib/util/poly_handler.spec.cpp, and the theorems at its callables: `small` captures one
-- reference, `big` a reference and three strings.
use boost_beast_websocket_ec.Prelude.{ℕ, ◌+◌, ◌≡◌, refl, true, false}
use boost_beast_websocket_ec.PolyHandler.{
  PolyHandler, Memory, bad_function_call, invoked, empty_handler, from_actual, assign, call,
  has_value,
}
use boost_beast_websocket_ec.PolyHandler.Lifetimes.{
  relay, called_once, call_leaves, assign_replaces,
}

abbrev fresh : Memory
fresh = record { constructed = 0; destroyed = 0; allocated = 0; freed = 0 }

-- a handler made from the callable `f` of `size` bytes
abbrev made : ℕ → ℕ → Memory → PolyHandler ℕ × Memory
made size f m = from_actual 8 size f m

empty_call : (call (empty_handler {F = ℕ}) fresh).0 ≡ bad_function_call
unfolding call empty_handler
empty_call = refl

-- f = std::move(small); f("test"); f = std::move(big); f("test");
reassigned :
    let (o, m₁) = made 8 1 fresh in
    let (_, f, m₂) = assign empty_handler o m₁ in
    let (r, g, m₃) = call f m₂ in
    let (o', m₄) = made 104 2 m₃ in
    let (_, h, m₅) = assign g o' m₄ in
    (r ≡ invoked 1) × (has_value g ≡ false) × ((call h m₅).0 ≡ invoked 2)
unfolding from_actual assign call has_value empty_handler
reassigned = (refl, refl, refl)

called_once_example :
    let (h, m') = made 104 5 fresh in
    let (g, m'') = relay 3 h m' in
    let (r, g', m‴) = call g m'' in
    (has_value g ≡ true)
    × (r ≡ invoked 5)
    × (has_value g' ≡ false)
    × ((call g' m‴).0 ≡ bad_function_call)
called_once_example = called_once 8 104 3 5 fresh

-- A small callable that is moved three times leaves three objects that are not destroyed.
call_leaves_example :
    let (h, m') = made 8 5 fresh in
    let (g, m'') = relay 3 h m' in
    let (r, g', m‴) = call g m'' in
    (m‴.constructed + 0 ≡ 0 + m‴.destroyed + 3) × (m‴.allocated + 0 ≡ 0 + m‴.freed)
call_leaves_example = call_leaves 8 8 3 5 fresh

reassigned_call :
    let (h, m₁) = made 8 5 fresh in
    let (o, m₂) = made 104 6 m₁ in
    let (o', h', m₃) = assign h o m₂ in
    (has_value o' ≡ false) × (m₃.destroyed ≡ 0 + 1) × ((call h' m₃).0 ≡ invoked 6)
reassigned_call = assign_replaces 8 8 104 5 6 fresh
