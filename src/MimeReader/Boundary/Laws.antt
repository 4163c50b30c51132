-- ===== src/MimeReader/Boundary/Laws.antt =====
-- Which boundaries deduce_boundary takes out of a content type.
use boost_beast_websocket_ec.Prelude.{
  ℕ, ◌≤◌, ◌≡◌, ◌≢◌, refl, ap, ◌∙◌, true, false, none, some, [], ◌∷◌, ◌++◌, length, All, arith,
}
use boost_beast_websocket_ec.Prelude.Text.{Text, codes}
use boost_beast_websocket_ec.MimeReader.Boundary.{
  is_space, skip_spaces, lower, literal, no_quote, token, before_quote, quoted, bind, or_else,
  after_type, after_semicolon, deduce_boundary,
}

-- What the expressions capture: at least one character, and no quote.
abbrev pub IsToken : Text → Type 0
IsToken b = (1 ≤ length b) × All (λ c. 34 ≢ c) b

literal-append : (ls cs : Text) → All (λ l. lower l ≡ l) ls → literal ls (ls ++ cs) ≡ some cs
unfolding literal
literal-append [] cs h = refl
literal-append (l ∷ ls) cs h = ground (arith, h.0, literal-append ls cs h.1)

skip_spaces-append :
    (spaces : Text) (c : ℕ) (cs : Text)
    → All (λ s. is_space s ≡ true) spaces
    → is_space c ≡ false
    → skip_spaces (spaces ++ (c ∷ cs)) ≡ c ∷ cs
unfolding skip_spaces
skip_spaces-append [] c cs h k = rw (k) refl
skip_spaces-append (s ∷ spaces) c cs h k = rw (h.0) (skip_spaces-append spaces c cs h.1 k)

no_quote-All : (b : Text) → All (λ c. 34 ≢ c) b → no_quote b ≡ true
unfolding no_quote
no_quote-All [] h = refl
no_quote-All (c ∷ cs) h = ground (arith, h.0, no_quote-All cs h.1)

token-IsToken : (b : Text) → IsToken b → token b ≡ some b
unfolding token
token-IsToken [] h = absurd (omega (arith, h.0))
token-IsToken (c ∷ cs) h = rw (no_quote-All (c ∷ cs) h.1) refl

before_quote-append : (b : Text) → All (λ c. 34 ≢ c) b → before_quote (b ++ (34 ∷ [])) ≡ some b
unfolding before_quote
before_quote-append [] h = refl
before_quote-append (c ∷ []) h = refl
before_quote-append (c ∷ (d ∷ cs)) h = rw (before_quote-append (d ∷ cs) h.1) refl

quoted-IsToken : (b : Text) → IsToken b → quoted (34 ∷ (b ++ (34 ∷ []))) ≡ some b
unfolding quoted
quoted-IsToken b h = rw (before_quote-append b h.1) (token-IsToken b h)

quoted-none : (b : Text) → IsToken b → quoted b ≡ none
unfolding quoted
quoted-none [] h = refl
quoted-none (c ∷ cs) h = ground (arith, h.1.0)

abbrev pub content_type : Text → Text → Text → Text
content_type spaces spaces' value =
    codes "multipart/x-mixed-replace"
    ++ (spaces ++ (codes ";" ++ (spaces' ++ (codes "boundary=" ++ value))))

type-content_type :
    (spaces spaces' value : Text)
    → All (λ s. is_space s ≡ true) spaces
    → All (λ s. is_space s ≡ true) spaces'
    → bind
        (literal (codes "multipart/x-mixed-replace") (content_type spaces spaces' value))
        after_type
      ≡ some value
type-content_type spaces spaces' value h h' =
    let named = codes "boundary=" ++ value in
    let rest = spaces' ++ named in
    ap (λ o. bind o after_type)
      (literal-append (codes "multipart/x-mixed-replace") (spaces ++ (codes ";" ++ rest))
        (ground arith))
    ∙ ap (λ t. bind (literal (codes ";") t) after_semicolon)
        (skip_spaces-append spaces 59 rest h refl)
    ∙ ap (λ o. bind o after_semicolon) (literal-append (codes ";") rest (ground arith))
    ∙ ap (literal (codes "boundary="))
        (skip_spaces-append spaces' 98 (codes "oundary=" ++ value) h' refl)
    ∙ literal-append (codes "boundary=") value (ground arith)

-- For any blanks around the semicolon, and a boundary with at least one character and no quote,
-- deduce_boundary takes the boundary out of the content type, between quotes and without them.
pub deduce_boundary-content_type :
    (spaces spaces' b : Text)
    → All (λ s. is_space s ≡ true) spaces
    → All (λ s. is_space s ≡ true) spaces'
    → IsToken b
    → (deduce_boundary (content_type spaces spaces' (34 ∷ (b ++ (34 ∷ [])))) ≡ some b)
      × (deduce_boundary (content_type spaces spaces' b) ≡ some b)
unfolding deduce_boundary
deduce_boundary-content_type spaces spaces' b h h' t =
    let captured = λ (value : Text). or_else (quoted value) (token value) in
    (
      ap (λ o. bind o captured) (type-content_type spaces spaces' (34 ∷ (b ++ (34 ∷ []))) h h')
          ∙ ap (λ o. or_else o (token (34 ∷ (b ++ (34 ∷ []))))) (quoted-IsToken b t),
      ap (λ o. bind o captured) (type-content_type spaces spaces' b h h')
          ∙ ap (λ o. or_else o (token b)) (quoted-none b t)
          ∙ token-IsToken b t,
    )
