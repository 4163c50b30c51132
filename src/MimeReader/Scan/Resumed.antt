-- ===== src/MimeReader/Scan/Resumed.antt =====
-- To go on after a read is to have had its octets in the store from the beginning.
use boost_beast_websocket_ec.Prelude.{
  inl, inr, Option-cases, ℕ, zero, suc, ◌-◌, ◌≤◌, ◌≡◌, refl, ap, sym, subst, ◌∙◌, true, Option,
  none, some, List, [], ◌∷◌, ◌++◌, length, map, All, take, ErrorCode, success, arith,
}
use boost_beast_websocket_ec.Prelude.Text.{Text}
use boost_beast_websocket_ec.MimeReader.Boundary.{deduce_boundary}
use boost_beast_websocket_ec.MimeReader.Scan.{
  zeros, after_read, Scan, Label, next_boundary, next_header, Turn, jumps, reads, returns, turn,
  scan, turns_left, settle, drive, reading, test, header_store, scan_start,
}
use boost_beast_websocket_ec.MimeReader.Scan.Laws.{scan-IsSettled, IsSettled}
use boost_beast_websocket_ec.MimeReader.Scan.Reads.{after_read-take}
use boost_beast_websocket_ec.MimeReader.Scan.Turns.{at_store, settle-scan}
use boost_beast_websocket_ec.MimeReader.Scan.Longer.{
  longer, Blank, InPart, awaits, ends, advances, turn-longer,
}

-- The turn that a read leads to.
abbrev resumed : Text → Option Turn → Turn
resumed more (some (reads l s)) = jumps l (longer more s)
resumed more (some t) = t
resumed more none =
    jumps next_boundary (record { work_store = more; first_part = true; parts = [] })

-- Turns that come to a read, and go on from there with more octets, are turns of the longer store.
scan-longer :
    (boundary more : Text) (l l1 : Label) (s s1 : Scan) (r : Turn) (k j : ℕ)
    → InPart l s
    → scan boundary (jumps l s) k ≡ some (reads l1 s1)
    → scan boundary (jumps l1 (longer more s1)) j ≡ some r
    → (i : ℕ) × (scan boundary (jumps l (longer more s)) i ≡ some r)
unfolding scan
scan-longer boundary more l l1 s s1 r zero j inside h g = absurd (ground arith)
scan-longer boundary more l l1 s s1 r (suc k) j inside h g =
    let from =
      λ (t : Turn). λ (e : turn boundary l s ≡ t). ap (λ t. scan boundary t k) (sym e) ∙ h in
    elim (turn-longer boundary more l s inside) [
      | awaits e ↦ (j, ap (λ t. scan boundary t j) (ap (resumed more) (from (reads l s) e)) ∙ g)
      | ends s2 e ↦ let here = from (returns s2) e in absurd (ground arith)
      | advances l2 s2 e e' inside2 ↦
          let (i, f) =
            scan-longer boundary more l2 l1 s2 s1 r k j inside2 (from (jumps l2 s2) e) g in
          (suc i, ap (λ t. scan boundary t i) e' ∙ f)
    ]

settle-longer :
    (boundary more : Text) (l l1 : Label) (s s1 : Scan)
    → InPart l s
    → settle boundary (jumps l s) ≡ some (reads l1 s1)
    → settle boundary (jumps l (longer more s)) ≡ settle boundary (jumps l1 (longer more s1))
unfolding settle
settle-longer boundary more l l1 s s1 inside h =
    let t = jumps l1 (longer more s1) in
    elim (Option-cases (settle boundary t)) [
      | inl e ↦ absurd (subst IsSettled e (scan-IsSettled boundary t (turns_left t) (omega arith)))
      | inr (r, e) ↦
          let (i, f) =
            scan-longer boundary more l l1 s s1 r (turns_left (jumps l s)) (turns_left t) inside h
              e in
          settle-scan boundary (jumps l (longer more s)) r i f ∙ sym e
    ]

-- The scan after a read.
abbrev after : Text → Scan → Scan
after bytes s = record s { work_store = after_read bytes s.work_store }

settle-after :
    (boundary bytes : Text) (l l1 : Label) (s s1 : Scan)
    → length bytes ≤ 512
    → InPart l s
    → settle boundary (jumps l s) ≡ some (reads l1 s1)
    → settle boundary (jumps l (after bytes s)) ≡ settle boundary (jumps l1 (after bytes s1))
settle-after boundary bytes l l1 s s1 few inside h =
    let more = take (512 - length bytes) (bytes ++ zeros (512 - length bytes)) in
    let stored = λ (l : Label). λ (s : Scan).
      ap (λ w. settle boundary (jumps l (record s { work_store = w })))
        (after_read-take bytes s.work_store few) in
    stored l s ∙ settle-longer boundary more l l1 s s1 inside h ∙ sym (stored l1 s1)

-- A read that succeeds.
abbrev pub delivered : Text → Option (ErrorCode × Text)
delivered bytes = some (success, bytes)

-- What the reads leave in a store from which nothing is taken.
abbrev pub read_all : List Text → Text → Text
read_all [] store = store
read_all (bytes ∷ bs) store = read_all bs (after_read bytes store)

-- If after a read that has completed there is another one, the scan had come to that read.
drive-reading :
    (boundary bytes : Text) (rs : List (Option (ErrorCode × Text))) (o : Option Turn) (l1 : Label)
    (s1 : Scan)
    → drive boundary (delivered bytes ∷ rs) o ≡ some (reading l1 s1)
    → (l : Label) × ((s : Scan) × (o ≡ some (reads l s)))
unfolding drive
drive-reading boundary bytes rs none l1 s1 h = absurd (ground arith)
drive-reading boundary bytes rs (some (jumps l s)) l1 s1 h = absurd (ground arith)
drive-reading boundary bytes rs (some (returns s)) l1 s1 h = absurd (ground arith)
drive-reading boundary bytes rs (some (reads l s)) l1 s1 h = (l, (s, refl))

Blank-append : (store more : Text) → Blank store → Blank (store ++ more)
Blank-append [] more h = absurd h
Blank-append (c ∷ []) more h = absurd h
Blank-append (c ∷ (d ∷ cs)) more h = h

InPart-after :
    (bytes : Text) (l : Label) (s : Scan)
    → length bytes ≤ 512
    → InPart l s
    → InPart l (after bytes s)
InPart-after bytes next_header s few inside = tt
InPart-after bytes next_boundary s few inside = λ e.
    subst Blank (sym (after_read-take bytes s.work_store few))
      (Blank-append s.work_store _ (inside e))

drive-read_all :
    (boundary : Text) (bs : List Text) (rs : List (Option (ErrorCode × Text))) (l l1 : Label)
    (s s1 : Scan)
    → All (λ bytes. length bytes ≤ 512) bs
    → InPart l s
    → drive boundary (map delivered bs) (settle boundary (jumps l s)) ≡ some (reading l1 s1)
    → drive boundary (map delivered bs ++ rs) (settle boundary (jumps l s))
      ≡ drive boundary rs
          (settle boundary (jumps l (record s { work_store = read_all bs s.work_store })))
unfolding drive
drive-read_all boundary [] rs l l1 s s1 few inside h = refl
drive-read_all boundary (bytes ∷ bs) rs l l1 s s1 few inside h =
    let (l2, (s2, e)) =
      drive-reading boundary bytes (map delivered bs) (settle boundary (jumps l s)) l1 s1 h in
    let e' = settle-after boundary bytes l l2 s s2 few.0 inside e in
    ap (drive boundary (delivered bytes ∷ (map delivered bs ++ rs))) e
    ∙ ap (drive boundary (map delivered bs ++ rs)) (sym e')
    ∙ drive-read_all boundary bs rs l l1 (after bytes s) s1 few.1
        (InPart-after bytes l s few.0 inside)
        (ap (drive boundary (map delivered bs)) e'
          ∙ ap (drive boundary (delivered bytes ∷ map delivered bs)) (sym e)
          ∙ h)

test-drive :
    (content_type boundary : Text) (bytes_transferred : ℕ) (rs : List (Option (ErrorCode × Text)))
    → deduce_boundary content_type ≡ some boundary
    → test content_type (success, bytes_transferred) rs
      ≡ drive boundary rs (settle boundary (scan_start bytes_transferred))
unfolding test
test-drive content_type boundary n rs d = rw (d) refl

-- When reads of the body, each successful and of at most 512 octets, leave `test` at a further read, what
-- it does with any further reads is what the scan does that finds in its store from the start all that
-- those reads left there: to have stopped at the end of the store for each of them changes neither the
-- parts that are printed nor the code that is returned.
pub test-read_all :
    (content_type boundary : Text) (bytes_transferred : ℕ) (bs : List Text)
    (rs : List (Option (ErrorCode × Text))) (l : Label) (s : Scan)
    → deduce_boundary content_type ≡ some boundary
    → All (λ bytes. length bytes ≤ 512) bs
    → test content_type (success, bytes_transferred) (map delivered bs) ≡ some (reading l s)
    → test content_type (success, bytes_transferred) (map delivered bs ++ rs)
      ≡ drive boundary rs (
          settle boundary
            (jumps next_boundary (at_store (read_all bs (header_store bytes_transferred)) true [])))
test-read_all content_type boundary n bs rs l s d few h =
    test-drive content_type boundary n (map delivered bs ++ rs) d
    ∙ drive-read_all boundary bs rs next_boundary l (at_store (header_store n) true []) s few
        (λ e. absurd (ground arith))
        (sym (test-drive content_type boundary n (map delivered bs) d) ∙ h)
