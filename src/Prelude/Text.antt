-- ===== src/Prelude/Text.antt =====
-- std::string as a list of byte values, and the digits that std::to_string and a stream print.
use Prim.Native.Nat.{ℕ, zero, suc, ◌+◌, ◌/◌, ◌%◌, ◌≤◌}
use native.Mathlib.Omega.{arith}
use Prim.Native.Char.{code}
use Prim.Native.String.{String}
use mathlib.Core.List.{List, [], ◌∷◌}
use boost_beast_websocket_ec.Prelude.Tests.{if◌then◌else◌, ltb, if-both}
use boost_beast_websocket_ec.Prelude.Lists.{All}

abbrev pub Text : Type 0
Text = List ℕ

abbrev pub codes : String → Text
codes String.[] = []
codes (String.◌∷◌ c s) = code c ∷ codes s

abbrev pub digit : ℕ → ℕ
digit d = if ltb d 10 then 48 + d else 87 + d

-- The digits of `n` in front of `out`. A number has at most one digit more than its value.
unfoldable pub emit : ℕ → ℕ → ℕ → Text → Text
emit base zero n out = out
emit base (suc fuel) n out =
    let rest = emit base fuel (n / base) (digit (n % base) ∷ out) in
    if ltb n base then digit n ∷ out else rest

-- std::to_string(n), and `oss << n`
unfoldable pub to_string : ℕ → Text
unfolding emit
to_string n = emit 10 (suc n) n []

-- `oss << std::hex << n`
unfoldable pub to_hex : ℕ → Text
unfolding emit
to_hex n = emit 16 (suc n) n []

digit_least : (d : ℕ) → 48 ≤ digit d
digit_least d = ground arith

-- What is printed in base 10 or 16 are digits: no character is below '0'.
emit-All :
    (base fuel n : ℕ) (out : Text)
    → All (λ c. 48 ≤ c) out
    → All (λ c. 48 ≤ c) (emit base fuel n out)
unfolding emit
emit-All base zero n out h = h
emit-All base (suc fuel) n out h =
    if-both (λ cs. All (λ c. 48 ≤ c) cs) (ltb n base) (digit_least n, h)
      (emit-All base fuel (n / base) (digit (n % base) ∷ out) (digit_least (n % base), h))

pub to_string-All : (n : ℕ) → All (λ c. 48 ≤ c) (to_string n)
unfolding to_string
to_string-All n = emit-All 10 (suc n) n [] tt
