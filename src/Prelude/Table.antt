-- ===== src/Prelude/Table.antt =====
-- std::unordered_map from endpoints to weak pointers, in the order in which it is iterated. A new
-- entry stands where the iteration order is free to put it; the model puts it first.
use Prim.Native.Nat.{ℕ, suc, ◌+◌, ◌≤◌}
use mathlib.Core.Path.{◌≡◌, refl}
use mathlib.Core.Option.{Option, none, some}
use mathlib.Core.List.{List, [], ◌∷◌}
use mathlib.Core.Logic.{inl, inr}
use native.Mathlib.Omega.{arith}
use boost_beast_websocket_ec.Prelude.Tests.{◌==◌, is_some, Option-cases, if◌then◌else◌}
use boost_beast_websocket_ec.Prelude.Lists.{length}
use boost_beast_websocket_ec.Prelude.Endpoint.{Endpoint, same_endpoint, same_endpoint_iff}

abbrev pub Table : Type 0
Table = List (Endpoint × ℕ)

unfoldable pub lookup : Endpoint → Table → Option ℕ
lookup k [] = none
lookup k ((j, p) ∷ t) = if same_endpoint j k then some p else lookup k t

-- an entry of the table is given a new value
unfoldable pub replace : Endpoint → ℕ → Table → Table
replace k p [] = []
replace k p ((j, q) ∷ t) = if same_endpoint j k then (j, p) ∷ t else (j, q) ∷ replace k p t

-- t[k] = p
unfoldable pub assign : Endpoint → ℕ → Table → Table
assign k p t = elim (lookup k t) [ none ↦ (k, p) ∷ t | some q ↦ replace k p t ]

lookup-replace :
    (k j : Endpoint) (p q : ℕ) (t : Table)
    → lookup k t ≡ some q
    → lookup j (replace k p t) ≡ (if same_endpoint k j then some p else lookup j t)
unfolding lookup replace
lookup-replace k j p q [] h = ground arith
lookup-replace k j p q ((i, r) ∷ t) h = ground (
  arith,
  same_endpoint_iff k j,
  same_endpoint_iff i k,
  same_endpoint_iff i j,
  lookup-replace k j p q t,
)

lookup-cons :
    (k j : Endpoint) (p : ℕ) (t : Table)
    → lookup j ((k, p) ∷ t) ≡ (if same_endpoint k j then some p else lookup j t)
unfolding lookup
lookup-cons k j p t = refl

length-replace : (k : Endpoint) (p : ℕ) (t : Table) → length (replace k p t) ≡ length t
unfolding replace
length-replace k p [] = refl
length-replace k p ((j, q) ∷ t) = ground (arith, length-replace k p t)

pub lookup-assign :
    (k j : Endpoint) (p : ℕ) (t : Table)
    → lookup j (assign k p t) ≡ (if same_endpoint k j then some p else lookup j t)
unfolding assign
lookup-assign k j p t = elim (Option-cases (lookup k t)) [
  | inl e ↦ rw (e, assign) (lookup-cons k j p t)
  | inr (q, e) ↦ rw (e, assign) (lookup-replace k j p q t e)
]

-- A table grows by one entry at most.
pub length-assign :
    (k : Endpoint) (p : ℕ) (t : Table)
    → length (assign k p t) ≡ (if is_some (lookup k t) then length t else suc (length t))
unfolding assign
length-assign k p t = ground (arith, length-replace k p t)

-- How often a pointer stands in the table.
abbrev pub occurrences : ℕ → Table → ℕ
occurrences p [] = 0
occurrences p ((j, q) ∷ t) = (if p == q then 1 else 0) + occurrences p t

occurrences-replace :
    (p : ℕ) (k : Endpoint) (q : ℕ) (t : Table)
    → occurrences p (replace k q t) ≤ (if p == q then 1 else 0) + occurrences p t
unfolding replace
occurrences-replace p k q [] = ground arith
occurrences-replace p k q ((j, r) ∷ t) = ground (arith, occurrences-replace p k q t)

pub occurrences-assign :
    (p : ℕ) (k : Endpoint) (q : ℕ) (t : Table)
    → occurrences p (assign k q t) ≤ (if p == q then 1 else 0) + occurrences p t
unfolding assign
occurrences-assign p k q t = ground (arith, occurrences-replace p k q t)
