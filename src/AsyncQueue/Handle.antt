-- ===== src/AsyncQueue/Handle.antt =====
-- basic_async_queue of lib/util/async_queue.hpp: a handle owns the implementation that it points
-- to, and stops it when it lets it go. The implementations stand in a store, by address.
use boost_beast_websocket_ec.Prelude.{
  ℕ, suc, ◌≡◌, Option, none, some, Outcome, done, ◌>>=◌, arith, ◌==◌, if◌then◌else◌, ==_iff,
}
use boost_beast_websocket_ec.AsyncQueue.{Impl, construct, async_pop, push, stop}

-- impl_, an address or null
pub record Handle : Type 0 where
  pub impl : Option ℕ

pub record Store (A H E : Type 0) : Type 0 where
  pub cell : ℕ → Impl A H E
  pub next : ℕ

-- basic_async_queue(basic_async_queue &&other): the new handle, and what is left of `other`
unfoldable pub move : Handle → Handle × Handle
move other = (record { impl = other.impl }, record { impl = none })

module _ {A H E : Type 0} where
  abbrev update : Store A H E → ℕ → Impl A H E → Store A H E
  update m p q = record m { cell = λ j. if j == p then q else m.cell j }

  -- basic_async_queue(exec)
  unfoldable pub create : Store A H E → E → Handle × Store A H E
  unfolding construct
  create m exec = (
    record { impl = some m.next },
    record (update m m.next (construct exec)) { next = suc m.next },
  )

  -- ~basic_async_queue()
  unfoldable pub destroy : Store A H E → Handle → Store A H E
  unfolding stop
  destroy m h = elim h.impl [ none ↦ m | some p ↦ update m p (stop (m.cell p)) ]

  -- operator=: a temporary takes `other`, is swapped with this handle and destroyed. The results
  -- are this handle, `other` and the store.
  unfoldable pub assign : Store A H E → Handle → Handle → Handle × Handle × Store A H E
  unfolding move destroy
  assign m this other =
      let (tmp, other') = move other in
      let this' : Handle = record { impl = tmp.impl } in
      let tmp' : Handle = record { impl = this.impl } in (this', other', destroy m tmp')

  -- impl_->async_pop, impl_->push and impl_->stop; through a null handle they are undefined
  unfoldable pub handle_async_pop :
      (H → E → E) → Store A H E → Handle → H → Option (Outcome (Store A H E))
  unfolding async_pop
  handle_async_pop associated m h handler = elim h.impl [
    | none ↦ none
    | some p ↦ some (do q ← async_pop associated (m.cell p) handler; done (update m p q))
  ]

  unfoldable pub handle_push : Store A H E → Handle → A → Option (Store A H E)
  unfolding push
  handle_push m h v = elim h.impl [ none ↦ none | some p ↦ some (update m p (push (m.cell p) v)) ]

  unfoldable pub handle_stop : Store A H E → Handle → Option (Store A H E)
  unfolding stop
  handle_stop m h = elim h.impl [ none ↦ none | some p ↦ some (update m p (stop (m.cell p))) ]

  -- Assigning moves the implementation over: this handle has that of `other`, `other` has none, and
  -- the implementation that this handle had before is told to stop. Every other one is untouched.
  pub assign_stops_old :
      (m : Store A H E) (this other : Handle) (p j : ℕ)
      → this.impl ≡ some p
      → let (this', other', m') = assign m this other in
        (this'.impl ≡ other.impl)
        × (other'.impl ≡ none)
        × (m'.cell j ≡ (if p == j then stop (m.cell p) else m.cell j))
  unfolding assign
  assign_stops_old m this other p j e = ground (arith, ==_iff j p, ==_iff p j)
