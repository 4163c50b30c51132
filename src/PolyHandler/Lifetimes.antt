-- ===== src/PolyHandler/Lifetimes.antt =====
-- What a handler calls, and what it constructs and destroys, over its whole life.
use boost_beast_websocket_ec.Prelude.{
  ℕ, zero, suc, ◌+◌, ◌≡◌, refl, true, false, some, if◌then◌else◌, ltb, arith,
}
use boost_beast_websocket_ec.PolyHandler.{
  PolyHandler, Memory, short, long, Kind, small, big, bad_function_call, invoked, storage_size,
  from_actual, move, destroy, assign, call, has_value,
}

module _ {F : Type 0} where
  -- A handler handed on `n` times; the handlers left behind are destroyed.
  pub relay : ℕ → PolyHandler F → Memory → PolyHandler F × Memory
  unfolding move destroy
  relay zero h m = (h, m)
  relay (suc n) h m = let (left, h', m') = move h m in relay n h' (destroy left m')

  -- What a handler holds while it can be called.
  abbrev holding : Kind → F → PolyHandler F
  holding small f = record { storage = short f; kind = some small }
  holding big f = record { storage = long (some f); kind = some big }

  relay_small :
      (n : ℕ) (f : F) (m : Memory)
      → relay n (holding small f) m
        ≡ (holding small f, record m { constructed = m.constructed + n })
  unfolding relay
  relay_small zero f m = ground arith
  relay_small (suc n) f m =
      ground (arith, relay_small n f (record m { constructed = suc m.constructed }))

  relay_big : (n : ℕ) (f : F) (m : Memory) → relay n (holding big f) m ≡ (holding big f, m)
  unfolding relay
  relay_big zero f m = refl
  relay_big (suc n) f m = relay_big n f m

  -- However large the callable and however often the handler is handed on: it holds a value, a
  -- call invokes the callable, then it holds none, and a second call throws.
  pub called_once :
      (pointer_size size n : ℕ) (f : F) (m : Memory)
      → let (h, m') = from_actual pointer_size size f m in
        let (g, m'') = relay n h m' in
        let (r, g', m‴) = call g m'' in
        (has_value g ≡ true)
        × (r ≡ invoked f)
        × (has_value g' ≡ false)
        × ((call g' m‴).0 ≡ bad_function_call)
  unfolding from_actual call has_value
  called_once pointer_size size n f m = ground (
    arith,
    relay_small n f (record m { constructed = suc m.constructed }),
    relay_big n f (record m { constructed = suc m.constructed; allocated = suc m.allocated }),
  )

  -- What a call leaves over: with `n` moves behind it, a small callable leaves `n` objects that are
  -- never destroyed, and a big one leaves the moved-from object in its buffer. Every buffer is freed.
  pub call_leaves :
      (pointer_size size n : ℕ) (f : F) (m : Memory)
      → let (h, m') = from_actual pointer_size size f m in
        let (g, m'') = relay n h m' in
        let (r, g', m‴) = call g m'' in
        (m‴.constructed + m.destroyed
          ≡ m.constructed + m‴.destroyed + (if ltb (storage_size pointer_size) size then 1 else n))
        × (m‴.allocated + m.freed ≡ m.allocated + m‴.freed)
  unfolding from_actual call
  call_leaves pointer_size size n f m = ground (
    arith,
    relay_small n f (record m { constructed = suc m.constructed }),
    relay_big n f (record m { constructed = suc m.constructed; allocated = suc m.allocated }),
  )

  -- Assigning over a handler destroys the callable that it held, takes over the other one, which a
  -- call then invokes, and leaves the other handler without a value.
  pub assign_replaces :
      (pointer_size size size' : ℕ) (f f' : F) (m : Memory)
      → let (h, m₁) = from_actual pointer_size size f m in
        let (o, m₂) = from_actual pointer_size size' f' m₁ in
        let (o', h', m₃) = assign h o m₂ in
        (has_value o' ≡ false) × (m₃.destroyed ≡ m.destroyed + 1) × ((call h' m₃).0 ≡ invoked f')
  unfolding from_actual assign call has_value
  assign_replaces pointer_size size size' f f' m = ground arith
