-- ===== src/StopSource.antt =====
-- lib/util/st/stop_token.hpp and lib/util/st/detail/stop_token.hpp: a one-time event with slots. A
-- function that invokes slots also returns them, in order. A slot that uses the source again finds
-- it as the function leaves it, since `stop` empties the map before the first slot runs.
pub mod Laws
mod Tests
use boost_beast_websocket_ec.Prelude.{
  ℕ, suc, ◌+◌, ◌%◌, Bool, true, false, Option, none, some, List, [], ◌∷◌, ◌++◌, ◌==◌, if◌then◌else◌,
  is_some, Outcome, done, require, ◌>>◌, ◌>>=◌,
}
use boost_beast_websocket_ec.Prelude.Slots.{emplace, erase, slots_of, u64, u64_max}

-- stop_source_impl
pub record StopSource (A : Type 0) : Type 0 where
  pub next_id : ℕ
  pub slots : List (ℕ × A)

abbrev pub stopped_value : ℕ
stopped_value = u64_max

module _ {A : Type 0} where
  unfoldable pub stop_source : StopSource A
  stop_source = record { next_id = 0; slots = [] }

  -- The identifier, the source, and the slots that are invoked.
  unfoldable pub connect : StopSource A → A → ℕ × StopSource A × List A
  unfolding emplace
  connect s slot =
      let id = s.next_id in
      if id == stopped_value
      then (id, s, slot ∷ [])
      else (id, record s { next_id = (s.next_id + 1) % u64; slots = emplace id slot s.slots }, [])

  unfoldable pub disconnect : StopSource A → ℕ → StopSource A
  disconnect s id = record s { slots = erase id s.slots }

  -- `order` is the order in which the map is iterated.
  unfoldable pub stop : (List (ℕ × A) → List (ℕ × A)) → StopSource A → StopSource A × List A
  stop order s = (record s { next_id = stopped_value; slots = [] }, slots_of (order s.slots))

  unfoldable pub stopped : StopSource A → Bool
  stopped s = s.next_id == stopped_value

-- stop_connection and stop_token, over a store of sources by address.
pub record StopConnection : Type 0 where
  pub source : Option ℕ
  pub id : ℕ

pub record StopToken : Type 0 where
  pub source : Option ℕ

-- stop_source::make_token
unfoldable pub make_token : ℕ → StopToken
make_token p = record { source = some p }

module _ {A : Type 0} where
  abbrev update : (ℕ → StopSource A) → ℕ → StopSource A → ℕ → StopSource A
  update m p s j = if j == p then s else m j

  -- stop_connection::disconnect; the second time it does nothing
  unfoldable pub connection_disconnect :
      (ℕ → StopSource A) → StopConnection → StopConnection × (ℕ → StopSource A)
  unfolding disconnect
  connection_disconnect m c = elim c.source [
    | none ↦ (c, m)
    | some p ↦ (record c { source = none }, update m p (disconnect (m p) c.id))
  ]

  -- stop_token::stopped
  unfoldable pub token_stopped : (ℕ → StopSource A) → StopToken → Bool
  unfolding stopped
  token_stopped m t = elim t.source [ none ↦ false | some p ↦ stopped (m p) ]

  -- stop_token::connect
  unfoldable pub token_connect :
      (ℕ → StopSource A) → StopToken → A → Outcome (StopConnection × (ℕ → StopSource A) × List A)
  unfolding connect
  token_connect m t slot = elim t.source [
    | none ↦ Outcome.assert_failed
    | some p ↦
        (let (id, s, ran) = connect (m p) slot in
          done (record { source = some p; id = id }, update m p s, ran))
  ]

  -- stop_source::stop of the source at `p`
  unfoldable pub source_stop :
      (List (ℕ × A) → List (ℕ × A)) → (ℕ → StopSource A) → ℕ → (ℕ → StopSource A) × List A
  unfolding stop
  source_stop order m p = let (s, ran) = stop order (m p) in (update m p s, ran)
