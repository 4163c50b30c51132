-- ===== src/MimeReader/Scan/Laws.antt =====
-- What std::string::find finds, what a read leaves in the store, and that the scan comes to an end.
use boost_beast_websocket_ec.Prelude.{
  ◌⊎◌, ErrorCode, is_error, Bool-cases, ℕ, zero, suc, ◌+◌, ◌-◌, ◌≤◌, ◌<◌, ◌≡◌, ◌≢◌, refl, ap, sym,
  subst, true, false, Option, none, some, List, [], ◌∷◌, ◌++◌, length, take, drop, All,
  Option-cases, arith, inl, inr,
}
use boost_beast_websocket_ec.Prelude.Text.{Text}
use boost_beast_websocket_ec.MimeReader.{crlf}
use boost_beast_websocket_ec.MimeReader.Boundary.{deduce_boundary}
use boost_beast_websocket_ec.MimeReader.Scan.{
  is_prefix, later, find, zeros, after_read, Line, separator, closing, boundary_line, find_boundary,
  Scan, Label, next_boundary, next_header, Turn, jumps, reads, returns, at_boundary, at_header,
  turn, scan, turns_left, settle, drive, test, scan_start, Result, returned, reading, overlaps,
}

-- A text without the first character of the line is passed over.
pub find-skip :
    (x : ℕ) (line before after : Text)
    → All (λ c. x ≢ c) before
    → find (before ++ after) (x ∷ line) ≡ later (length before) (find after (x ∷ line))
unfolding find is_prefix
find-skip x line [] after h = ground (arith, Option-cases (find after (x ∷ line)))
find-skip x line (c ∷ before) after h = ground (arith, find-skip x line before after h.1)

-- A line that stands at the front is found there.
pub find-front :
    (x : ℕ) (line s : Text) → is_prefix (x ∷ line) s ≡ true → find s (x ∷ line) ≡ some 0
unfolding find is_prefix
find-front x line [] h = absurd (ground arith)
find-front x line (c ∷ cs) h = rw (h) refl

-- What is found stands inside the text.
pub find-less : (x : ℕ) (line s : Text) (pos : ℕ) → find s (x ∷ line) ≡ some pos → pos < length s
unfolding find is_prefix
find-less x line [] pos h = absurd (ground arith)
find-less x line (c ∷ cs) pos h = elim (Option-cases (find cs (x ∷ line))) [
  | inl e ↦ ground arith
  | inr (k, e) ↦ let less = find-less x line cs k e in ground arith
]

pub length-drop : (n : ℕ) (xs : Text) → length (drop n xs) ≡ length xs - n
length-drop zero xs = omega arith
length-drop (suc n) [] = omega arith
length-drop (suc n) (x ∷ xs) = omega (arith, length-drop n xs)

pub length-zeros : (n : ℕ) → length (zeros n) ≡ n
length-zeros zero = refl
length-zeros (suc n) = ap suc (length-zeros n)

pub take-append : (xs ys : Text) → take (length xs) (xs ++ ys) ≡ xs
take-append [] ys = refl
take-append (x ∷ xs) ys = ap (◌∷◌ x) (take-append xs ys)

-- Nothing is found in an empty store.
find_boundary-not_empty :
    (boundary store : Text) → (find_boundary boundary store ≡ none) ⊎ (1 ≤ length store)
unfolding find_boundary find
find_boundary-not_empty boundary [] = inl refl
find_boundary-not_empty boundary (c ∷ cs) = inr (omega arith)

find-not_empty : (x : ℕ) (line store : Text) → (find store (x ∷ line) ≡ none) ⊎ (1 ≤ length store)
unfolding find
find-not_empty x line [] = inl refl
find-not_empty x line (c ∷ cs) = inr (omega arith)

at_boundary_less :
    (boundary : Text) (s : Scan) (o : Option (Line × ℕ))
    → (o ≡ none) ⊎ (1 ≤ length s.work_store)
    → turns_left (at_boundary boundary s o) < turns_left (jumps next_boundary s)
at_boundary_less boundary s none h = omega arith
at_boundary_less boundary s (some (closing, pos)) h = omega arith
at_boundary_less boundary s (some (separator, pos)) (inl e) = absurd (ground arith)
at_boundary_less boundary s (some (separator, pos)) (inr h) =
    omega (arith, length-drop (pos + length (boundary_line boundary separator)) s.work_store)

at_header_less :
    (s : Scan) (o : Option ℕ)
    → (o ≡ none) ⊎ (1 ≤ length s.work_store)
    → turns_left (at_header s o) < turns_left (jumps next_header s)
at_header_less s none h = omega arith
at_header_less s (some zero) h = omega arith
at_header_less s (some (suc n)) (inl e) = absurd (ground arith)
at_header_less s (some (suc n)) (inr h) = omega (arith, length-drop (suc n + 2) s.work_store)

-- The turns that are left decrease.
turn_less :
    (boundary : Text) (l : Label) (s : Scan)
    → turns_left (turn boundary l s) < turns_left (jumps l s)
unfolding turn
turn_less boundary next_boundary s =
    at_boundary_less boundary s (find_boundary boundary s.work_store)
      (find_boundary-not_empty boundary s.work_store)
turn_less boundary next_header s =
    at_header_less s (find s.work_store crlf) (find-not_empty 13 (10 ∷ []) s.work_store)

-- What settle gives is not a jump.
abbrev pub IsSettled : Option Turn → Type 0
IsSettled none = ⊥
IsSettled (some (jumps l s)) = ⊥
IsSettled (some (reads l s)) = Unit {0}
IsSettled (some (returns s)) = Unit {0}

pub scan-IsSettled :
    (boundary : Text) (t : Turn) (fuel : ℕ) → turns_left t ≤ fuel → IsSettled (scan boundary t fuel)
unfolding scan
scan-IsSettled boundary (reads l s) fuel h = tt
scan-IsSettled boundary (returns s) fuel h = tt
scan-IsSettled boundary (jumps next_boundary s) zero h = absurd (omega arith)
scan-IsSettled boundary (jumps next_header s) zero h = absurd (omega arith)
scan-IsSettled boundary (jumps l s) (suc fuel) h =
    scan-IsSettled boundary (turn boundary l s) fuel (omega (arith, turn_less boundary l s))

-- `test` has returned.
abbrev pub IsReturned : Option Result → Type 0
IsReturned none = ⊥
IsReturned (some (returned ec parts)) = Unit {0}
IsReturned (some (reading l s)) = ⊥
IsReturned (some (overlaps l s)) = ⊥

-- The reads that complete in their polls, of which the last one fails.
abbrev pub failing : List (ErrorCode × Text) → ErrorCode → Text → List (Option (ErrorCode × Text))
failing [] ec bytes = some (ec, bytes) ∷ []
failing (r ∷ rs) ec bytes = some r ∷ failing rs ec bytes

drive_failed :
    (boundary : Text) (ec : ErrorCode) (bytes : Text) (rs : List (Option (ErrorCode × Text)))
    (l : Label) (s : Scan)
    → is_error ec ≡ true
    → drive boundary (some (ec, bytes) ∷ rs) (some (reads l s)) ≡ some (returned ec s.parts)
unfolding drive
drive_failed boundary ec bytes rs l s f = rw (f, drive) refl

drive_read :
    (boundary : Text) (ec : ErrorCode) (bytes : Text) (rs : List (Option (ErrorCode × Text)))
    (l : Label) (s : Scan)
    → is_error ec ≡ false
    → drive boundary (some (ec, bytes) ∷ rs) (some (reads l s))
      ≡ drive boundary rs
          (settle boundary (jumps l (record s { work_store = after_read bytes s.work_store })))
unfolding drive
drive_read boundary ec bytes rs l s f =
    ap
      (λ b. elim b [
        | true ↦ some (returned ec s.parts)
        | false ↦
            drive boundary rs
              (settle boundary (jumps l (record s { work_store = after_read bytes s.work_store })))
      ])
      f

drive-IsReturned :
    (boundary : Text) (rs : List (ErrorCode × Text)) (ec : ErrorCode) (bytes : Text)
    (o : Option Turn)
    → is_error ec ≡ true
    → IsSettled o
    → IsReturned (drive boundary (failing rs ec bytes) o)
unfolding drive settle
drive-IsReturned boundary rs ec bytes none f h = absurd h
drive-IsReturned boundary rs ec bytes (some (jumps l s)) f h = absurd h
drive-IsReturned boundary [] ec bytes (some (returns s)) f h = tt
drive-IsReturned boundary (r ∷ rs) ec bytes (some (returns s)) f h = tt
drive-IsReturned boundary [] ec bytes (some (reads l s)) f h =
    subst IsReturned (sym (drive_failed boundary ec bytes [] l s f)) tt
drive-IsReturned boundary ((code, read) ∷ rs) ec bytes (some (reads l s)) f h =
    let t = jumps l (record s { work_store = after_read read s.work_store }) in
    elim (Bool-cases (is_error code)) [
      | inl e ↦
          subst IsReturned (sym (drive_failed boundary code read (failing rs ec bytes) l s e)) tt
      | inr e ↦ subst IsReturned (sym (drive_read boundary code read (failing rs ec bytes) l s e)) (
          drive-IsReturned boundary rs ec bytes (settle boundary t) f
            (scan-IsSettled boundary t (turns_left t) (omega arith)))
    ]

-- For every content type and header, and reads of the body that each complete in their poll, of which
-- the last one fails, as it does at the end of the stream: `test` returns. The turns that each store is
-- given are enough for its loops between the reads.
pub test_ends :
    (content_type : Text) (header : ErrorCode × ℕ) (rs : List (ErrorCode × Text)) (ec : ErrorCode)
    (bytes : Text)
    → is_error ec ≡ true
    → IsReturned (test content_type header (failing rs ec bytes))
unfolding test settle
test_ends content_type (code, h) rs ec bytes f = elim (Bool-cases (is_error code)) [
  | inl e ↦ rw (e, IsReturned) tt
  | inr e ↦ (elim (Option-cases (deduce_boundary content_type)) [
    | inl d ↦ rw (e, d, IsReturned) tt
    | inr (boundary, d) ↦
        rw (e, d, IsReturned)
          (drive-IsReturned boundary rs ec bytes _ f
            (scan-IsSettled boundary (scan_start h) (turns_left (scan_start h)) (omega arith)))
  ])
]
