-- ===== src/MimeReader/Scan/Longer.antt =====
-- The turns of the scan with more octets at the end of the store.
use boost_beast_websocket_ec.Prelude.{
  inl, inr, Option-cases, Bool-cases, ℕ, zero, suc, ◌+◌, ◌-◌, ◌%◌, ◌≤◌, ◌≡◌, refl, ap, ◌∙◌, true,
  false, some, [], ◌∷◌, ◌++◌, length, drop, arith,
}
use boost_beast_websocket_ec.Prelude.Text.{Text}
use boost_beast_websocket_ec.Prelude.Slots.{u64}
use boost_beast_websocket_ec.MimeReader.{crlf}
use boost_beast_websocket_ec.MimeReader.Scan.{
  is_prefix, find, separator, closing, boundary_line, or_closing, closing_at, find_boundary, Scan,
  Label, next_boundary, next_header, jumps, reads, returns, turn, print_part, erase_front,
  at_header, at_boundary,
}
use boost_beast_websocket_ec.MimeReader.Scan.Laws.{find-skip}
use boost_beast_websocket_ec.MimeReader.Scan.Reads.{take-append_less}

is_prefix-fits : (line s : Text) → is_prefix line s ≡ true → length line ≤ length s
unfolding is_prefix
is_prefix-fits [] s h = omega arith
is_prefix-fits (l ∷ line) [] h = absurd (ground arith)
is_prefix-fits (l ∷ line) (c ∷ s) h = ground (arith, is_prefix-fits line s)

-- A text that is long enough begins with a line, or not, whatever follows it.
is_prefix-longer :
    (line s more : Text) → length line ≤ length s → is_prefix line (s ++ more) ≡ is_prefix line s
unfolding is_prefix
is_prefix-longer [] s more h = refl
is_prefix-longer (l ∷ line) [] more h = absurd (omega arith)
is_prefix-longer (l ∷ line) (c ∷ s) more h = ground (arith, is_prefix-longer line s more)

-- A line that is found stands whole inside the text.
find-fits :
    (x : ℕ) (line s : Text) (pos : ℕ)
    → find s (x ∷ line) ≡ some pos
    → pos + length (x ∷ line) ≤ length s
unfolding find
find-fits x line [] pos h = absurd (ground arith)
find-fits x line (c ∷ cs) pos h = elim (Option-cases (find cs (x ∷ line))) [
  | inl e ↦ ground (arith, is_prefix-fits (x ∷ line) (c ∷ cs))
  | inr (k, e) ↦ ground (arith, is_prefix-fits (x ∷ line) (c ∷ cs), find-fits x line cs k e)
]

find-longer :
    (x : ℕ) (line s more : Text) (pos : ℕ)
    → find s (x ∷ line) ≡ some pos
    → find (s ++ more) (x ∷ line) ≡ some pos
unfolding find
find-longer x line [] more pos h = absurd (ground arith)
find-longer x line (c ∷ cs) more pos h =
    let fits = is_prefix-fits (x ∷ line) (c ∷ cs) in
    elim (Option-cases (find cs (x ∷ line))) [
      | inl e ↦ ground (arith, fits, is_prefix-longer (x ∷ line) (c ∷ cs) more)
      | inr (k, e) ↦ ground (
        arith,
        fits,
        find-fits x line cs k e,
        is_prefix-longer (x ∷ line) (c ∷ cs) more,
        find-longer x line cs more k e,
      )
    ]

drop-longer : (k : ℕ) (s more : Text) → k ≤ length s → drop k (s ++ more) ≡ drop k s ++ more
drop-longer zero s more h = refl
drop-longer (suc k) [] more h = absurd (omega arith)
drop-longer (suc k) (c ∷ s) more h = drop-longer k s more (omega arith)

-- The scan with more octets at the end of its store.
abbrev pub longer : Text → Scan → Scan
longer more s = record s { work_store = s.work_store ++ more }

-- Once a part has begun, the store begins with the blank line of its headers.
abbrev pub Blank : Text → Type 0
Blank [] = ⊥
Blank (c ∷ []) = ⊥
Blank (c ∷ (d ∷ cs)) = (c ≡ 13) × (d ≡ 10)

abbrev pub InPart : Label → Scan → Type 0
InPart next_boundary s = s.first_part ≡ false → Blank s.work_store
InPart next_header s = Unit {0}

-- No boundary stands in the blank line.
Blank-find : (line s : Text) (pos : ℕ) → Blank s → find s (45 ∷ line) ≡ some pos → 2 ≤ pos
Blank-find line [] pos b h = absurd b
Blank-find line (c ∷ []) pos b h = absurd b
Blank-find line (c ∷ (d ∷ cs)) pos b h =
    let skipped = find-skip 45 line (c ∷ (d ∷ [])) cs (ground arith) in
    elim (Option-cases (find cs (45 ∷ line))) [
      | inl e ↦ ground (arith, skipped)
      | inr (k, e) ↦ ground (arith, skipped)
    ]

-- A turn with more octets at the end of the store, where the turn without them did not return.
pub data Grows (boundary more : Text) (l : Label) (s : Scan) : Type 0 where
  awaits : turn boundary l s ≡ reads l s → Grows boundary more l s
  ends : (s1 : Scan) → turn boundary l s ≡ returns s1 → Grows boundary more l s
  advances :
      (l1 : Label) (s1 : Scan)
      → turn boundary l s ≡ jumps l1 s1
      → turn boundary l (longer more s) ≡ jumps l1 (longer more s1)
      → InPart l1 s1
      → Grows boundary more l s

erase_front-longer :
    (n : ℕ) (more : Text) (s : Scan)
    → n ≤ length s.work_store
    → erase_front n (longer more s) ≡ longer more (erase_front n s)
erase_front-longer n more s h =
    ap (λ w. record s { work_store = w }) (drop-longer n s.work_store more h)

-- The part before a boundary does not reach into the octets that follow.
print_part-longer :
    (pos : ℕ) (more : Text) (s : Scan)
    → pos ≤ length s.work_store
    → (s.first_part ≡ false → 2 ≤ pos)
    → print_part pos (longer more s) ≡ longer more (print_part pos s)
print_part-longer pos more s fits two =
    ap (λ ps. record s { work_store = s.work_store ++ more; parts = ps })
      (elim (Bool-cases s.first_part) [
        | inl e ↦ rw (e) refl
        | inr e ↦ rw (e) (
            ap (λ part. s.parts ++ (part ∷ []))
              (take-append_less ((pos + u64 - 2) % u64) s.work_store more
                (let p = two e in omega arith)))
      ])

turn_boundary-longer :
    (boundary more : Text) (s : Scan) → InPart next_boundary s → Grows boundary more next_boundary s
unfolding turn find_boundary
turn_boundary-longer boundary more s inside =
    let line = boundary_line boundary separator in
    let end = find s.work_store (boundary_line boundary closing) in
    elim (Option-cases (find s.work_store line)) [
      | inl none_here ↦ (elim (Option-cases end) [
        | inl no_end ↦ awaits (
            ap (λ o. at_boundary boundary s (or_closing o end)) none_here
            ∙ ap (λ o. at_boundary boundary s (closing_at o)) no_end)
        | inr (pos, found) ↦ ends _ (
            ap (λ o. at_boundary boundary s (or_closing o end)) none_here
            ∙ ap (λ o. at_boundary boundary s (closing_at o)) found)
      ])
      | inr (pos, found) ↦
          let fits = find-fits 45 (45 ∷ (boundary ++ crlf)) s.work_store pos found in
          advances next_header (erase_front (pos + length line) (print_part pos s))
            (ap (λ o. at_boundary boundary s (or_closing o end)) found)
            (ap
                (λ o.
                  at_boundary boundary (longer more s)
                    (or_closing o (find (s.work_store ++ more) (boundary_line boundary closing))))
                (find-longer 45 (45 ∷ (boundary ++ crlf)) s.work_store more pos found)
              ∙ ap (λ t. jumps next_header (erase_front (pos + length line) t))
                  (print_part-longer pos more s (omega arith)
                    (λ e. Blank-find (45 ∷ (boundary ++ crlf)) s.work_store pos (inside e) found))
              ∙ ap (jumps next_header)
                  (erase_front-longer (pos + length line) more (print_part pos s) fits))
            tt
    ]

-- The blank line is at the front of the store.
crlf-Blank : (s : Text) → find s crlf ≡ some 0 → Blank s
unfolding find is_prefix
crlf-Blank [] h = absurd (ground arith)
crlf-Blank (c ∷ []) h = absurd (ground arith)
crlf-Blank (c ∷ (d ∷ cs)) h =
    ground (arith, Option-cases (find (d ∷ cs) crlf), is_prefix crlf (c ∷ (d ∷ cs)))

turn_header-longer : (boundary more : Text) (s : Scan) → Grows boundary more next_header s
unfolding turn
turn_header-longer boundary more s = elim (Option-cases (find s.work_store crlf)) [
  | inl e ↦ awaits (ap (at_header s) e)
  | inr (zero, e) ↦
      advances next_boundary (record s { first_part = false }) (ap (at_header s) e)
        (ap (at_header (longer more s)) (find-longer 13 (10 ∷ []) s.work_store more 0 e))
        (λ _. crlf-Blank s.work_store e)
  | inr (suc n, e) ↦
      advances next_header (erase_front (suc n + 2) s) (ap (at_header s) e)
        (ap (at_header (longer more s)) (find-longer 13 (10 ∷ []) s.work_store more (suc n) e)
          ∙ ap (jumps next_header) (
              erase_front-longer (suc n + 2) more s
                (find-fits 13 (10 ∷ []) s.work_store (suc n) e)))
        tt
]

pub turn-longer :
    (boundary more : Text) (l : Label) (s : Scan) → InPart l s → Grows boundary more l s
turn-longer boundary more next_boundary s h = turn_boundary-longer boundary more s h
turn-longer boundary more next_header s h = turn_header-longer boundary more s
