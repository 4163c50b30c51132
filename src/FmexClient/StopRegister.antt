-- ===== src/FmexClient/StopRegister.antt =====
-- pre-cxx20/fmex_client/stop_register.hpp and stop_register.cpp: functions to be called on a stop, and
-- tokens that take their function out of the register when they are let go.
pub mod Laws
mod Tests
use boost_beast_websocket_ec.Prelude.{
  ℕ, zero, suc, ◌+◌, ◌%◌, Bool, true, false, List, [], ◌∷◌, ◌++◌, ◌==◌, if◌then◌else◌,
}
use boost_beast_websocket_ec.Prelude.Slots.{emplace, erase, slots_of, u64}

-- stop_register
pub record StopRegister (A : Type 0) : Type 0 where
  pub next_id : ℕ
  pub map : List (ℕ × A)

-- stop_token, of the one register; the identifier 0 stands for none
pub record StopToken : Type 0 where
  pub id : ℕ

-- stop_token::stop_token()
abbrev pub no_token : StopToken
no_token = record { id = 0 }

-- stop_token::swap
unfoldable pub swap : StopToken → StopToken → StopToken × StopToken
swap this other = (record { id = other.id }, record { id = this.id })

module _ {A : Type 0} where
  unfoldable pub stop_register : StopRegister A
  stop_register = record { next_id = 0; map = [] }

  unfoldable pub add : StopRegister A → A → StopToken × StopRegister A
  unfolding emplace
  add r f =
      let id = (r.next_id + 1) % u64 in
      (record { id = id }, record { next_id = id; map = emplace id f r.map })

  unfoldable pub remove : StopRegister A → ℕ → StopRegister A
  remove r id = record r { map = erase id r.map }

  -- notify_all returns the functions that it calls, in the order in which the map is iterated.
  unfoldable pub notify_all :
      (List (ℕ × A) → List (ℕ × A)) → StopRegister A → StopRegister A × List A
  notify_all order r = (record r { map = [] }, slots_of (order r.map))

  -- stop_token::reset and ~stop_token
  unfoldable pub reset : StopRegister A → StopToken → StopToken × StopRegister A
  unfolding remove
  reset r t = (no_token, if t.id == 0 then r else remove r t.id)

  -- stop_token::operator=: a temporary takes `other`, is swapped with this token and destroyed. The
  -- results are this token, `other` and the register.
  unfoldable pub assign :
      StopRegister A → StopToken → StopToken → StopToken × StopToken × StopRegister A
  unfolding swap reset
  assign r this other =
      let tmp : StopToken = record { id = other.id } in
      let other' : StopToken = no_token in
      let (this', tmp') = swap this tmp in (this', other', (reset r tmp').1)

  -- token = register.add(f)
  unfoldable pub register : StopRegister A → StopToken → A → StopToken × StopRegister A
  unfolding add assign
  register r this f =
      let (other, r') = add r f in let (this', _, r'') = assign r' this other in (this', r'')
