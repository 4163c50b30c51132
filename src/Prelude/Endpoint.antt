-- ===== src/Prelude/Endpoint.antt =====
-- net::ip::tcp::endpoint as the key of the servers' tables: the printed address and the port.
use Prim.Native.Nat.{ℕ}
use mathlib.Core.Path.{◌≡◌}
use mathlib.Core.Logic.{◌↔◌}
use mathlib.Core.Bool.{Bool, true, false, ◌&&◌}
use mathlib.Core.List.{[], ◌∷◌}
use native.Mathlib.Omega.{arith}
use boost_beast_websocket_ec.Prelude.Tests.{◌==◌, ==_iff}
use boost_beast_websocket_ec.Prelude.Text.{Text}

pub record Endpoint : Type 0 where
  pub address : Text
  pub port : ℕ

unfoldable pub text_eq : Text → Text → Bool
text_eq [] [] = true
text_eq [] (b ∷ bs) = false
text_eq (a ∷ as') [] = false
text_eq (a ∷ as') (b ∷ bs) = (a == b) && text_eq as' bs

pub text_eq_iff : (a b : Text) → (text_eq a b ≡ true) ↔ (a ≡ b)
unfolding text_eq
text_eq_iff [] [] = ground arith
text_eq_iff [] (b ∷ bs) = ground arith
text_eq_iff (a ∷ as') [] = ground arith
text_eq_iff (a ∷ as') (b ∷ bs) = ground (arith, text_eq_iff as' bs, ==_iff a b)

-- std::equal_to<>
unfoldable pub same_endpoint : Endpoint → Endpoint → Bool
same_endpoint a b = text_eq a.address b.address && (a.port == b.port)

pub same_endpoint_iff : (a b : Endpoint) → (same_endpoint a b ≡ true) ↔ (a ≡ b)
unfolding same_endpoint
same_endpoint_iff a b = ground (arith, text_eq_iff a.address b.address, ==_iff a.port b.port)
