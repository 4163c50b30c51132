-- ===== src/StopSource/Laws.antt =====
-- What happens to every slot that is connected.
use boost_beast_websocket_ec.Prelude.{
  ℕ, ◌+◌, ◌<◌, ◌≡◌, refl, Bool, true, false, List, [], ◌∷◌, ◌++◌, arith,
}
use boost_beast_websocket_ec.Prelude.Slots.{
  erase, erased, slots_of, u64_max, total, total-append, Below, Below-mono, contains-Below,
  Below-append, Below-erase, total-erase, total-slots_of,
}
use boost_beast_websocket_ec.StopSource.{
  StopSource, stopped_value, stop_source, connect, disconnect, stop, stopped,
}

-- The sources that a run reaches. Its indices: the slots connected, invoked and disconnected, how
-- many calls of connect there were, and whether stop has been called.
pub data Reach {A : Type 0} (order : List (ℕ × A) → List (ℕ × A))
    : List A → List A → List A → ℕ → Bool → StopSource A → Type 0 where
  start : Reach order [] [] [] 0 false stop_source
  connects :
      {cs is rs : List A} {k : ℕ} {b : Bool} {s : StopSource A} (a : A)
      → Reach order cs is rs k b s
      → Reach order (cs ++ a ∷ []) (is ++ (connect s a).2) rs (k + 1) b (connect s a).1
  disconnects :
      {cs is rs : List A} {k : ℕ} {b : Bool} {s : StopSource A} (id : ℕ)
      → Reach order cs is rs k b s
      → Reach order cs is (rs ++ erased id s.slots) k b (disconnect s id)
  stops :
      {cs is rs : List A} {k : ℕ} {b : Bool} {s : StopSource A}
      → Reach order cs is rs k b s
      → Reach order cs (is ++ (stop order s).1) rs k true (stop order s).0

record IsValid {A : Type 0} (k : ℕ) (b : Bool) (s : StopSource A) : Type 0 where
  counted : b ≡ false → s.next_id ≡ k
  ended : b ≡ true → s.next_id ≡ stopped_value
  emptied : b ≡ true → s.slots ≡ []
  below : Below s.next_id s.slots

module _ {A : Type 0} where
  connect-IsValid :
      (k : ℕ) (b : Bool) (s : StopSource A) (a : A)
      → k + 1 < u64_max
      → IsValid k b s
      → IsValid (k + 1) b (connect s a).1
  unfolding connect
  connect-IsValid k b s a h v = ground (
    arith,
    contains-Below s.next_id s.next_id s.slots,
    Below-mono s.next_id (s.next_id + 1) s.slots,
    Below-append (s.next_id + 1) s.next_id a s.slots,
  )

  connect-total :
      (w : A → ℕ) (k : ℕ) (b : Bool) (s : StopSource A) (a : A)
      → IsValid k b s
      → total w (connect s a).2 + total w (slots_of (connect s a).1.slots)
        ≡ total w (slots_of s.slots) + w a
  unfolding connect
  connect-total w k b s a v =
      ground
        (arith, contains-Below s.next_id s.next_id s.slots, total-slots_of w s.next_id a s.slots)

module _ {A : Type 0} {order : List (ℕ × A) → List (ℕ × A)} where
  Reach-IsValid :
      {cs is rs : List A} {k : ℕ} {b : Bool} {s : StopSource A}
      → Reach order cs is rs k b s
      → k < u64_max
      → IsValid k b s
  unfolding stop_source disconnect erase stop
  Reach-IsValid start h = ground arith
  Reach-IsValid (connects {k = k} {b = b} {s = s} a reach) h =
      connect-IsValid k b s a h (Reach-IsValid reach (omega arith))
  Reach-IsValid (disconnects {s = s} id reach) h =
      ground (arith, Reach-IsValid reach h, Below-erase s.next_id id s.slots)
  Reach-IsValid (stops reach) h = ground arith

  -- While fewer than 2^64 - 1 slots have been connected, the source reads as stopped exactly if stop
  -- has been called, and then it holds no slot.
  pub stopped_iff :
      {cs is rs : List A} {k : ℕ} {b : Bool} {s : StopSource A}
      → Reach order cs is rs k b s
      → k < u64_max
      → (stopped s ≡ b) × (b ≡ true → s.slots ≡ [])
  unfolding stopped
  stopped_iff {b = b} reach h = ground (arith, Reach-IsValid reach h)

  -- Every slot ever connected is accounted for once: it has been invoked, or it has been
  -- disconnected, or it is still in the map. The map's iteration visits each entry once.
  pub slots_accounted :
      (iterates : (w : A → ℕ) (m : List (ℕ × A))
        → total w (slots_of (order m)) ≡ total w (slots_of m))
      {cs is rs : List A} {k : ℕ} {b : Bool} {s : StopSource A}
      → Reach order cs is rs k b s
      → k < u64_max
      → (w : A → ℕ) → total w cs ≡ total w is + total w (slots_of s.slots) + total w rs
  unfolding stop_source disconnect stop
  slots_accounted iterates start h w = refl
  slots_accounted iterates (connects {cs = cs} {is = is} {k = k} {b = b} {s = s} a reach) h w =
      omega (
        arith,
        slots_accounted iterates reach (omega arith) w,
        total-append w cs (a ∷ []),
        total-append w is (connect s a).2,
        connect-total w k b s a (Reach-IsValid reach (omega arith)),
      )
  slots_accounted iterates (disconnects {rs = rs} {s = s} id reach) h w = omega (
    arith,
    slots_accounted iterates reach h w,
    total-append w rs (erased id s.slots),
    total-erase w id s.slots,
  )
  slots_accounted iterates (stops {is = is} {s = s} reach) h w = omega (
    arith,
    slots_accounted iterates reach h w,
    total-append w is (slots_of (order s.slots)),
    iterates w s.slots,
  )
