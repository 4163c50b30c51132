-- ===== src/Prelude/Slots.antt =====
-- std::unordered_map from 64-bit identifiers to slots, as a list of entries with distinct keys.
use Prim.Native.Nat.{ℕ, ◌+◌, ◌≤◌, ◌<◌, ◌^◌, ◌-◌}
use mathlib.Core.Path.{◌≡◌, refl}
use mathlib.Core.Bool.{Bool, false, ◌||◌}
use mathlib.Core.List.{List, [], ◌∷◌, ◌++◌}
use native.Mathlib.Omega.{arith}
use boost_beast_websocket_ec.Prelude.Tests.{◌==◌, if◌then◌else◌}

module _ {A : Type 0} where
  unfoldable pub contains : ℕ → List (ℕ × A) → Bool
  contains k [] = false
  contains k ((i, a) ∷ m) = (i == k) || contains k m

  -- map.emplace(k, a): an entry that is there already stays
  unfoldable pub emplace : ℕ → A → List (ℕ × A) → List (ℕ × A)
  unfolding contains
  emplace k a m = if contains k m then m else m ++ (k, a) ∷ []

  -- map.erase(k)
  unfoldable pub erase : ℕ → List (ℕ × A) → List (ℕ × A)
  erase k [] = []
  erase k ((i, a) ∷ m) = let rest = erase k m in if i == k then rest else (i, a) ∷ rest

  -- the slots that erase takes out
  unfoldable pub erased : ℕ → List (ℕ × A) → List A
  erased k [] = []
  erased k ((i, a) ∷ m) = let rest = erased k m in if i == k then a ∷ rest else rest

  abbrev pub slots_of : List (ℕ × A) → List A
  slots_of [] = []
  slots_of ((i, a) ∷ m) = a ∷ slots_of m

  -- The sum of a weight over a list. Two lists with equal sums for every weight hold the same
  -- elements, each as often.
  abbrev pub total : (A → ℕ) → List A → ℕ
  total w [] = 0
  total w (a ∷ as') = w a + total w as'

  pub total-append : (w : A → ℕ) (xs ys : List A) → total w (xs ++ ys) ≡ total w xs + total w ys
  total-append w [] ys = omega arith
  total-append w (x ∷ xs) ys = omega (arith, total-append w xs ys)

  -- every key is below a bound
  abbrev pub Below : ℕ → List (ℕ × A) → Type 0
  Below n [] = Unit {0}
  Below n ((i, a) ∷ m) = (i < n) × Below n m

  pub Below-mono : (n k : ℕ) (m : List (ℕ × A)) → n ≤ k → Below n m → Below k m
  Below-mono n k [] h b = tt
  Below-mono n k ((i, a) ∷ m) h b = (omega arith, Below-mono n k m h b.1)

  pub contains-Below : (n k : ℕ) (m : List (ℕ × A)) → n ≤ k → Below n m → contains k m ≡ false
  unfolding contains
  contains-Below n k [] h b = refl
  contains-Below n k ((i, a) ∷ m) h b = ground (arith, contains-Below n k m h b.1)

  pub Below-append :
      (n k : ℕ) (a : A) (m : List (ℕ × A)) → Below n m → k < n → Below n (m ++ (k, a) ∷ [])
  Below-append n k a [] b h = (h, tt)
  Below-append n k a ((i, c) ∷ m) b h = (b.0, Below-append n k a m b.1 h)

  pub Below-erase : (n k : ℕ) (m : List (ℕ × A)) → Below n m → Below n (erase k m)
  unfolding erase
  Below-erase n k [] b = tt
  Below-erase n k ((i, a) ∷ m) b = ground (arith, Below-erase n k m b.1)

  pub total-erase :
      (w : A → ℕ) (k : ℕ) (m : List (ℕ × A))
      → total w (slots_of (erase k m)) + total w (erased k m) ≡ total w (slots_of m)
  unfolding erase erased
  total-erase w k [] = omega arith
  total-erase w k ((i, a) ∷ m) = ground (arith, total-erase w k m)

  pub total-slots_of :
      (w : A → ℕ) (k : ℕ) (a : A) (m : List (ℕ × A))
      → total w (slots_of (m ++ (k, a) ∷ [])) ≡ total w (slots_of m) + w a
  total-slots_of w k a [] = omega arith
  total-slots_of w k a ((i, c) ∷ m) = omega (arith, total-slots_of w k a m)

-- The range of std::uint64_t.
abbrev pub u64 : ℕ
u64 = 2 ^ 64

abbrev pub u64_max : ℕ
u64_max = 2 ^ 64 - 1
