-- ===== src/MimeReader/Scan/Turns.antt =====
-- The turns of the scan, one by one.
use mathlib.Core.List.{append-nil, append_assoc}
use boost_beast_websocket_ec.Prelude.{
  if◌then◌else◌, ℕ, zero, suc, ◌+◌, ◌-◌, ◌%◌, ◌≤◌, ◌<◌, ◌≡◌, ap, sym, ◌∙◌, Bool, true, false, none,
  some, List, [], ◌∷◌, ◌++◌, length, length-append, take, drop, arith,
}
use boost_beast_websocket_ec.Prelude.Text.{Text, codes}
use boost_beast_websocket_ec.Prelude.Slots.{u64}
use boost_beast_websocket_ec.MimeReader.{crlf}
use boost_beast_websocket_ec.MimeReader.Scan.{
  find, zeros, separator, closing, boundary_line, or_closing, find_boundary, Scan, Label,
  next_boundary, next_header, Turn, jumps, reads, returns, turn, scan, turns_left, settle,
  part_before, at_header, at_boundary, closing_at,
}
use boost_beast_websocket_ec.MimeReader.Scan.Laws.{IsSettled, scan-IsSettled}
use boost_beast_websocket_ec.MimeReader.Scan.Reads.{take-append_more}
use boost_beast_websocket_ec.MimeReader.Scan.Lines.{
  Lacks, IsBoundary, drop-append, find-append, find-Lacks, find-separator_none,
}

abbrev pub at_store : Text → Bool → List Text → Scan
at_store store first ps = record { work_store = store; first_part = first; parts = ps }

-- The scan returns, with the parts printed.
pub record Prints (boundary : Text) (t : Turn) (ps : List Text) : Type 0 where
  pub steps : ℕ
  pub end : Scan
  pub ends : scan boundary t steps ≡ some (returns end)
  pub printed : end.parts ≡ ps

pub Prints-step :
    {boundary : Text} {l : Label} {s : Scan} {t : Turn} {ps : List Text}
    → turn boundary l s ≡ t
    → Prints boundary t ps
    → Prints boundary (jumps l s) ps
unfolding scan
Prints-step {boundary} e p = record {
  steps = suc p.steps;
  end = p.end;
  ends = ap (λ t. scan boundary t p.steps) e ∙ p.ends;
  printed = p.printed;
}

-- With the turns that settle allows the scan comes to the same end.
pub scan-settle :
    (boundary : Text) (t r : Turn) (k fuel : ℕ)
    → scan boundary t k ≡ some r
    → IsSettled (scan boundary t fuel)
    → scan boundary t fuel ≡ some r
unfolding scan
scan-settle boundary (reads l s) r k fuel h i = h
scan-settle boundary (returns s) r k fuel h i = h
scan-settle boundary (jumps l s) r zero fuel h i = absurd (ground arith)
scan-settle boundary (jumps l s) r (suc k) zero h i = absurd i
scan-settle boundary (jumps l s) r (suc k) (suc fuel) h i =
    scan-settle boundary (turn boundary l s) r k fuel h i

-- A header line is taken off.
pub turn-header :
    (boundary line rest : Text) (first : Bool) (ps : List Text)
    → Lacks 13 line
    → 1 ≤ length line
    → turn boundary next_header (at_store ((line ++ crlf) ++ rest) first ps)
      ≡ jumps next_header (at_store rest first ps)
unfolding turn
turn-header boundary [] rest first ps h k = absurd (omega arith)
turn-header boundary (c ∷ cs) rest first ps h k =
    let line = c ∷ cs in
    let store = (line ++ crlf) ++ rest in
    let found =
      ap (λ s. find s crlf) (append_assoc line crlf rest) ∙ find-append 13 (10 ∷ []) line rest h in
    ap (at_header (at_store store first ps)) found
    ∙ ap (λ w. jumps next_header (at_store w first ps))
        (drop-append (suc (length cs) + 2) (line ++ crlf) rest
          (omega (arith, length-append line crlf)))

-- The blank line ends the headers, and stays in the store.
pub turn-blank :
    (boundary rest : Text) (first : Bool) (ps : List Text)
    → turn boundary next_header (at_store (crlf ++ rest) first ps)
      ≡ jumps next_boundary (at_store (crlf ++ rest) false ps)
unfolding turn
turn-blank boundary rest first ps =
    ap (at_header (at_store (crlf ++ rest) first ps)) (find-append 13 (10 ∷ []) [] rest tt)

abbrev pub printing : Bool → List Text → ℕ → Text → List Text
printing first ps pos store = if first then ps else ps ++ (part_before pos store ∷ [])

-- The line between two parts is taken off with what stands before it, which is printed.
pub turn-separator :
    (boundary before rest : Text) (first : Bool) (ps : List Text)
    → Lacks 45 before
    → turn boundary next_boundary
        (at_store (before ++ (boundary_line boundary separator ++ rest)) first ps)
      ≡ jumps next_header (
          at_store rest first (
            printing first ps
              (length before)
              (before ++ (boundary_line boundary separator ++ rest))))
unfolding turn find_boundary
turn-separator boundary before rest first ps h =
    let line = boundary_line boundary separator in
    let store = before ++ (line ++ rest) in
    let s = at_store store first ps in
    ap (λ o. at_boundary boundary s (or_closing o (find store (boundary_line boundary closing))))
      (find-append 45 (45 ∷ (boundary ++ crlf)) before rest h)
    ∙ ap (λ w. jumps next_header (at_store w first (printing first ps (length before) store)))
        (ap (drop (length before + length line)) (sym (append_assoc before line rest))
          ∙ drop-append (length before + length line) (before ++ line) rest
              (sym (length-append before line)))

-- At the line at the end the part before it is printed, and the scan returns.
pub turn-closing :
    (boundary before : Text) (n : ℕ) (first : Bool) (ps : List Text)
    → IsBoundary boundary
    → Lacks 45 before
    → let store = before ++ (boundary_line boundary closing ++ zeros n) in
      turn boundary next_boundary (at_store store first ps)
      ≡ returns (at_store store first (printing first ps (length before) store))
unfolding turn find_boundary
turn-closing boundary before n first ps b h =
    let store = before ++ (boundary_line boundary closing ++ zeros n) in
    ap (at_boundary boundary (at_store store first ps)) (
      ap (λ o. or_closing o (find store (boundary_line boundary closing)))
        (find-separator_none boundary before n b h)
      ∙ ap (or_closing none)
          (find-append 45 (45 ∷ (boundary ++ codes "--" ++ crlf)) before (zeros n) h))

-- The part before a boundary is the store up to the line break in front of it.
pub part_before-append :
    (before rest : Text)
    → length before < u64
    → part_before (length (before ++ crlf)) ((before ++ crlf) ++ rest) ≡ before
part_before-append before rest h =
    ap (take ((length (before ++ crlf) + u64 - 2) % u64)) (append_assoc before crlf rest)
    ∙ take-append_more ((length (before ++ crlf) + u64 - 2) % u64) 0 before (crlf ++ rest)
        (omega (arith, length-append before crlf))
    ∙ append-nil before

-- What the scan comes to is what settle gives.
pub settle-scan :
    (boundary : Text) (t r : Turn) (k : ℕ) → scan boundary t k ≡ some r → settle boundary t ≡ some r
unfolding settle
settle-scan boundary t r k h =
    scan-settle boundary t r k (turns_left t) h
      (scan-IsSettled boundary t (turns_left t) (omega arith))

-- While the store has no hyphen, the scan goes on to a read.
pub settle-reads :
    (boundary store : Text)
    → Lacks 45 store
    → settle boundary (jumps next_boundary (at_store store true []))
      ≡ some (reads next_boundary (at_store store true []))
unfolding scan turn find_boundary
settle-reads boundary store h = settle-scan boundary _ _ 1 (
    ap (λ o. scan boundary (at_boundary boundary (at_store store true []) o) 0)
      (ap (λ o. or_closing o (find store (boundary_line boundary closing)))
          (find-Lacks 45 (45 ∷ (boundary ++ crlf)) store h)
        ∙ ap closing_at (find-Lacks 45 (45 ∷ (boundary ++ codes "--" ++ crlf)) store h)))
