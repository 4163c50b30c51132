-- ===== src/FmexClient/StopRegister/Laws.antt =====
-- A token that is assigned again and again keeps one function in the register: the last.
use boost_beast_websocket_ec.Prelude.{
  ℕ, ◌+◌, ◌≤◌, ◌<◌, ◌≡◌, false, List, [], ◌∷◌, ◌++◌, ◌==◌, if◌then◌else◌, arith,
}
use boost_beast_websocket_ec.Prelude.Slots.{
  erase, erased, slots_of, u64_max, total, Below, Below-mono, contains-Below, Below-append,
  Below-erase, total-erase, total-slots_of,
}
use boost_beast_websocket_ec.FmexClient.StopRegister.{
  StopRegister, StopToken, add, remove, notify_all, reset, assign, register,
}

module _ {A : Type 0} where
  -- The register and a token that owns one of its entries, or none.
  pub record IsValid (r : StopRegister A) (t : StopToken) : Type 0 where
    pub below : Below (r.next_id + 1) r.map
    pub issued : t.id ≤ r.next_id

  erased-append :
      (k i : ℕ) (a : A) (m : List (ℕ × A))
      → (i == k) ≡ false
      → erased k (m ++ (i, a) ∷ []) ≡ erased k m
  unfolding erased
  erased-append k i a [] h = ground arith
  erased-append k i a ((j, c) ∷ m) h = ground (arith, erased-append k i a m)

  -- One token is assigned a new function: the register gains it and loses the one that the token
  -- had before, and the token can take out the new one later.
  pub register_replaces :
      (r : StopRegister A) (t : StopToken) (f : A) (w : A → ℕ)
      → r.next_id < u64_max
      → IsValid r t
      → let (t', r') = register r t f in
        (IsValid r' t')
        × (total w (slots_of r'.map) + (if t.id == 0 then 0 else total w (erased t.id r.map))
            ≡ total w (slots_of r.map) + w f)
  unfolding register add assign reset remove
  register_replaces r t f w h v = ground (
    arith,
    contains-Below (r.next_id + 1) (r.next_id + 1) r.map,
    Below-mono (r.next_id + 1) (r.next_id + 2) r.map,
    Below-append (r.next_id + 2) (r.next_id + 1) f r.map,
    Below-erase (r.next_id + 2) t.id (r.map ++ (r.next_id + 1, f) ∷ []),
    total-erase w t.id (r.map ++ (r.next_id + 1, f) ∷ []),
    erased-append t.id (r.next_id + 1) f r.map,
    total-slots_of w (r.next_id + 1) f r.map,
  )

  -- A stop calls every function in the register once, and the register is empty when the first of
  -- them runs; a token that is reset afterwards changes nothing.
  pub notify_all_once :
      (order : List (ℕ × A) → List (ℕ × A))
      (iterates : (w : A → ℕ) (m : List (ℕ × A))
        → total w (slots_of (order m)) ≡ total w (slots_of m))
      (r : StopRegister A) (t : StopToken) (w : A → ℕ)
      → let (r', called) = notify_all order r in
        (total w called ≡ total w (slots_of r.map)) × (r'.map ≡ []) × ((reset r' t).1 ≡ r')
  unfolding notify_all reset erase
  notify_all_once order iterates r t w = ground (arith, iterates w r.map)
