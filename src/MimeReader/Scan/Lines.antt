-- ===== src/MimeReader/Scan/Lines.antt =====
-- Which lines std::string::find finds in a body that mimeify has printed.
use mathlib.Core.List.{append-nil, append_assoc}
use boost_beast_websocket_ec.Prelude.{
  ℕ, zero, suc, ◌≤◌, ◌<◌, ◌≡◌, ◌≢◌, refl, ap, subst, ◌∙◌, true, false, none, some, [], ◌∷◌, ◌++◌,
  length, drop, All, arith,
}
use boost_beast_websocket_ec.Prelude.Text.{Text, codes}
use boost_beast_websocket_ec.MimeReader.{crlf}
use boost_beast_websocket_ec.MimeReader.Scan.{
  is_prefix, later, find, zeros, separator, closing, boundary_line,
}
use boost_beast_websocket_ec.MimeReader.Scan.Laws.{find-skip, find-front}

-- A text has no character `x`.
abbrev pub Lacks : ℕ → Text → Type 0
Lacks x cs = All (λ c. x ≢ c) cs

-- A boundary that is not empty and has no hyphen and no carriage return.
pub record IsBoundary (boundary : Text) : Type 0 where
  pub not_empty : 1 ≤ length boundary
  pub no_hyphen : Lacks 45 boundary
  pub no_return : Lacks 13 boundary

pub Lacks-zeros : (x n : ℕ) → Lacks (suc x) (zeros n)
Lacks-zeros x zero = tt
Lacks-zeros x (suc n) = (ground arith, Lacks-zeros x n)

pub Lacks-All : (x : ℕ) (cs : Text) → x < 48 → All (λ c. 48 ≤ c) cs → Lacks x cs
Lacks-All x [] h a = tt
Lacks-All x (c ∷ cs) h a = (ground (arith, a.0), Lacks-All x cs h a.1)

is_prefix-append : (xs ys : Text) → is_prefix xs (xs ++ ys) ≡ true
unfolding is_prefix
is_prefix-append [] ys = refl
is_prefix-append (x ∷ xs) ys = ground (arith, is_prefix-append xs ys)

is_prefix-both : (b : Text) → (xs ys : Text) → is_prefix (b ++ xs) (b ++ ys) ≡ is_prefix xs ys
unfolding is_prefix
is_prefix-both [] xs ys = refl
is_prefix-both (x ∷ b) xs ys = ground (arith, is_prefix-both b xs ys)

pub drop-append : (k : ℕ) (xs ys : Text) → k ≡ length xs → drop k (xs ++ ys) ≡ ys
drop-append zero [] ys h = refl
drop-append (suc k) [] ys h = absurd (omega arith)
drop-append zero (x ∷ xs) ys h = absurd (omega arith)
drop-append (suc k) (x ∷ xs) ys h = drop-append k xs ys (omega arith)

-- A line that stands behind a text without its first character is found there.
pub find-append :
    (x : ℕ) (line before rest : Text)
    → Lacks x before
    → find (before ++ ((x ∷ line) ++ rest)) (x ∷ line) ≡ some (length before)
find-append x line before rest h =
    find-skip x line before ((x ∷ line) ++ rest) h
    ∙ ap (later (length before)) (find-front x line _ (is_prefix-append (x ∷ line) rest))
    ∙ ap some (omega arith)

-- A line is not found in a text without its first character.
pub find-Lacks : (x : ℕ) (line cs : Text) → Lacks x cs → find cs (x ∷ line) ≡ none
unfolding find
find-Lacks x line cs h =
    subst (λ t. find t (x ∷ line) ≡ none) (append-nil cs) (find-skip x line cs [] h)

-- Nor is the line between two parts found in what follows the boundary in the line at the end.
find-end_none :
    (x n : ℕ) (line : Text)
    → 13 ≢ x
    → find (codes "--" ++ (crlf ++ zeros n)) (45 ∷ 45 ∷ x ∷ line) ≡ none
unfolding find is_prefix
find-end_none x n line h = ground (
  arith,
  find-Lacks 45 (45 ∷ x ∷ line) (crlf ++ zeros n) (ground arith, (ground arith, Lacks-zeros 44 n)),
)

separator-prefix :
    (boundary rest : Text) → is_prefix (boundary ++ crlf) (boundary ++ (codes "--" ++ rest)) ≡ false
unfolding is_prefix
separator-prefix boundary rest = is_prefix-both boundary crlf (codes "--" ++ rest)

find-closing_none :
    (x n : ℕ) (boundary : Text)
    → Lacks 45 (x ∷ boundary)
    → 13 ≢ x
    → find
        (codes "--" ++ ((x ∷ boundary) ++ (codes "--" ++ (crlf ++ zeros n))))
        (boundary_line (x ∷ boundary) separator)
      ≡ none
unfolding find is_prefix
find-closing_none x n boundary h k =
    let line = 45 ∷ x ∷ (boundary ++ crlf) in
    let end = codes "--" ++ (crlf ++ zeros n) in
    ground (
      arith,
      h.0,
      separator-prefix (x ∷ boundary) (crlf ++ zeros n),
      find-skip 45 line (x ∷ boundary) end h,
      find-end_none x n (boundary ++ crlf) k,
    )

closing_assoc :
    (boundary rest : Text)
    → boundary_line boundary closing ++ rest
      ≡ codes "--" ++ (boundary ++ (codes "--" ++ (crlf ++ rest)))
closing_assoc boundary rest = ap (codes "--" ++◌) (
    append_assoc (boundary ++ codes "--") crlf rest
    ∙ append_assoc boundary (codes "--") (crlf ++ rest))

-- The line between two parts is not found where only the one at the end stands.
pub find-separator_none :
    (boundary before : Text) (n : ℕ)
    → IsBoundary boundary
    → Lacks 45 before
    → find
        (before ++ (boundary_line boundary closing ++ zeros n))
        (boundary_line boundary separator)
      ≡ none
find-separator_none [] before n b h = absurd (omega (arith, b.not_empty))
find-separator_none (x ∷ boundary) before n b h =
    let line = 45 ∷ x ∷ (boundary ++ crlf) in
    find-skip 45 line before (boundary_line (x ∷ boundary) closing ++ zeros n) h
    ∙ ap (later (length before)) (
        ap (λ s. find s (45 ∷ line)) (closing_assoc (x ∷ boundary) (zeros n))
        ∙ find-closing_none x n boundary b.no_hyphen b.no_return.0)
