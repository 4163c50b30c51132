-- ===== src/MimeReader/Boundary.antt =====
-- deduce_boundary: its two regular expressions as matchers on the value of Content-Type.
mod Laws
mod Tests
use boost_beast_websocket_ec.Prelude.{
  ℕ, Bool, true, false, ◌&&◌, ◌||◌, not, ◌==◌, ltb, leb, ◌+◌, Option, none, some, List, [], ◌∷◌,
  ◌++◌, empty, if◌then◌else◌,
}
use boost_beast_websocket_ec.Prelude.Text.{Text, codes}

-- \s: the blanks of the classic locale
abbrev pub is_space : ℕ → Bool
is_space c = (c == 32) || (leb 9 c && leb c 13)

-- \s* in front of a character that is not a blank
unfoldable pub skip_spaces : Text → Text
skip_spaces [] = []
skip_spaces (c ∷ cs) = let rest = skip_spaces cs in if is_space c then rest else c ∷ cs

-- std::regex_constants::icase
abbrev pub lower : ℕ → ℕ
lower c = if leb 65 c && leb c 90 then c + 32 else c

-- What follows a literal, which is given in lower case.
unfoldable pub literal : Text → Text → Option Text
literal [] cs = some cs
literal (l ∷ ls) [] = none
literal (l ∷ ls) (c ∷ cs) = let rest = literal ls cs in if lower c == l then rest else none

-- [^"]+ up to the end
unfoldable pub no_quote : Text → Bool
no_quote [] = true
no_quote (c ∷ cs) = not (c == 34) && no_quote cs

unfoldable pub token : Text → Option Text
unfolding no_quote
token cs = if empty cs || not (no_quote cs) then none else some cs

-- the text before a quote that ends it
unfoldable pub before_quote : Text → Option Text
before_quote [] = none
before_quote (c ∷ []) = if c == 34 then some [] else none
before_quote (c ∷ (d ∷ cs)) = elim (before_quote (d ∷ cs)) [
  | none ↦ none
  | some out ↦ some (c ∷ out)
]

-- "([^"]+)"$
unfoldable pub quoted : Text → Option Text
unfolding before_quote token
quoted [] = none
quoted (c ∷ cs) =
    if c == 34 then (elim (before_quote cs) [ none ↦ none | some b ↦ token b ]) else none

abbrev pub bind : Option Text → (Text → Option Text) → Option Text
bind none f = none
bind (some cs) f = f cs

abbrev pub or_else : Option Text → Option Text → Option Text
or_else none o = o
or_else (some b) o = some b

-- What both expressions ask for in front of the boundary.
abbrev pub after_semicolon : Text → Option Text
after_semicolon rest = literal (codes "boundary=") (skip_spaces rest)

abbrev pub after_type : Text → Option Text
after_type rest = bind (literal (codes ";") (skip_spaces rest)) after_semicolon

unfoldable pub deduce_boundary : Text → Option Text
unfolding literal skip_spaces quoted token
deduce_boundary content_type =
    bind (bind (literal (codes "multipart/x-mixed-replace") content_type) after_type)
      (λ value. or_else (quoted value) (token value))
