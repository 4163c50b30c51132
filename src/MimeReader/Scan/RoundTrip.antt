-- ===== src/MimeReader/Scan/RoundTrip.antt =====
-- What the scan makes of a body that mimeify has printed.
use mathlib.Core.List.{append_assoc}
use boost_beast_websocket_ec.Prelude.{
  ℕ, zero, suc, ◌-◌, ◌*◌, ◌≤◌, ◌≡◌, ◌≢◌, refl, ap, sym, subst, ◌∙◌, Bool, true, false, Option, some,
  List, [], ◌∷◌, ◌++◌, map, length, length-append, take, All, All-append, ErrorCode, success, arith,
}
use boost_beast_websocket_ec.Prelude.Text.{Text, codes, to_string, to_string-All}
use boost_beast_websocket_ec.MimeReader.{crlf, part, mimeify}
use boost_beast_websocket_ec.MimeReader.Boundary.{deduce_boundary}
use boost_beast_websocket_ec.MimeReader.Scan.{
  zeros, separator, boundary_line, next_boundary, next_header, jumps, reads, scan, settle, drive,
  returned, test, part_before, header_store,
}
use boost_beast_websocket_ec.MimeReader.Scan.Reads.{after_read_bounds}
use boost_beast_websocket_ec.MimeReader.Scan.Lines.{Lacks, IsBoundary, Lacks-zeros, Lacks-All}
use boost_beast_websocket_ec.MimeReader.Scan.Turns.{
  at_store, Prints, Prints-step, turn-header, turn-blank, turn-separator, turn-closing,
  part_before-append, settle-scan, settle-reads,
}

-- The header lines that mimeify prints for a document.
abbrev content_type_line : Text
content_type_line = codes "Content-Type: image/jpeg"

abbrev content_length_line : Text → Text
content_length_line doc = codes "Content-Length: " ++ to_string (length doc)

-- a document with the blank line before it and the line break behind it
abbrev framed : Text → Text
framed doc = crlf ++ (doc ++ crlf)

abbrev with_headers : Text → Text → Text
with_headers doc rest =
    (content_type_line ++ crlf) ++ ((content_length_line doc ++ crlf) ++ (framed doc ++ rest))

part-append :
    (boundary doc rest : Text)
    → part boundary doc ++ rest ≡ boundary_line boundary separator ++ with_headers doc rest
part-append boundary doc rest =
    let lengths = content_length_line doc ++ crlf in
    let headers = (content_type_line ++ crlf) ++ (lengths ++ framed doc) in
    append_assoc (boundary_line boundary separator) headers rest
    ∙ ap (boundary_line boundary separator ++◌) (
        append_assoc (content_type_line ++ crlf) (lengths ++ framed doc) rest
        ∙ ap ((content_type_line ++ crlf) ++◌) (append_assoc lengths (framed doc) rest))

mimeify-append :
    (boundary doc : Text) (docs : List Text) (rest : Text)
    → mimeify boundary (doc ∷ docs) ++ rest
      ≡ boundary_line boundary separator ++ with_headers doc (mimeify boundary docs ++ rest)
unfolding mimeify
mimeify-append boundary doc docs rest =
    append_assoc (part boundary doc) (mimeify boundary docs) rest
    ∙ part-append boundary doc (mimeify boundary docs ++ rest)

-- The headers of a part are taken off.
Prints-headers :
    (boundary doc rest : Text) (first : Bool) (ps out : List Text)
    → Prints boundary (jumps next_boundary (at_store (framed doc ++ rest) false ps)) out
    → Prints boundary (jumps next_header (at_store (with_headers doc rest) first ps)) out
Prints-headers boundary doc rest first ps out p =
    let digits = Lacks-All 13 (to_string (length doc)) (omega arith) (to_string-All (length doc)) in
    Prints-step (turn-header boundary content_type_line _ first ps (ground arith) (omega arith)) (
      Prints-step
        (turn-header boundary (content_length_line doc) _ first ps
          (All-append (λ c. 13 ≢ c) (codes "Content-Length: ") (to_string (length doc))
            (ground arith) digits)
          (omega arith))
        (Prints-step (turn-blank boundary ((doc ++ crlf) ++ rest) first ps) p))

-- What the proofs ask of a document: no hyphen, and room for its size.
abbrev pub IsDocument : Text → Type 0
IsDocument doc = Lacks 45 doc × (length doc ≤ 256)

framed-Lacks : (doc : Text) → Lacks 45 doc → Lacks 45 (framed doc)
framed-Lacks doc h =
    (ground arith, (ground arith, All-append (λ c. 45 ≢ c) doc crlf h (ground arith)))

part_before-framed :
    (doc rest : Text)
    → IsDocument doc
    → part_before (length (framed doc)) (framed doc ++ rest) ≡ crlf ++ doc
part_before-framed doc rest d = part_before-append (crlf ++ doc) rest (omega (arith, d.1))

-- From the blank line of a part on, it and the documents that follow are printed.
Prints-parts :
    (boundary doc : Text) (docs : List Text) (n : ℕ) (ps : List Text)
    → IsBoundary boundary
    → All IsDocument (doc ∷ docs)
    → Prints boundary
        (jumps next_boundary (at_store (framed doc ++ (mimeify boundary docs ++ zeros n)) false ps))
        (ps ++ map (crlf ++◌) (doc ∷ docs))
unfolding mimeify scan
Prints-parts boundary doc [] n ps b d =
    Prints-step (turn-closing boundary (framed doc) n false ps b (framed-Lacks doc d.0.0)) (record {
      steps = 0;
      end = _;
      ends = refl;
      printed = ap (λ p. ps ++ (p ∷ [])) (part_before-framed doc _ d.0);
    })
Prints-parts boundary doc (next ∷ docs) n ps b d =
    let rest = with_headers next (mimeify boundary docs ++ zeros n) in
    let ih = Prints-parts boundary next docs n (ps ++ (crlf ++ doc) ∷ []) b d.1 in
    let out = append_assoc ps ((crlf ++ doc) ∷ []) (map (crlf ++◌) (next ∷ docs)) in
    let step =
      turn-separator boundary (framed doc) rest false ps (framed-Lacks doc d.0.0)
      ∙ ap (λ p. jumps next_header (at_store rest false (ps ++ (p ∷ []))))
          (part_before-framed doc (boundary_line boundary separator ++ rest) d.0) in
    let after = subst (Prints boundary _) out (Prints-headers boundary next _ false _ _ ih) in
    subst
      (λ w.
        Prints boundary (jumps next_boundary (at_store (framed doc ++ w) false ps))
          (ps ++ map (crlf ++◌) (doc ∷ next ∷ docs)))
      (sym (mimeify-append boundary next docs (zeros n))) (Prints-step step after)

-- From the first read on, all documents are printed.
Prints-body :
    (boundary before : Text) (docs : List Text) (n : ℕ)
    → IsBoundary boundary
    → Lacks 45 before
    → All IsDocument docs
    → Prints boundary
        (jumps next_boundary (at_store (before ++ (mimeify boundary docs ++ zeros n)) true []))
        (map (crlf ++◌) docs)
unfolding mimeify scan
Prints-body boundary before [] n b h d =
    Prints-step (turn-closing boundary before n true [] b h)
      (record { steps = 0; end = _; ends = refl; printed = refl })
Prints-body boundary before (doc ∷ docs) n b h d =
    let rest = mimeify boundary docs ++ zeros n in
    subst
      (λ w.
        Prints boundary (jumps next_boundary (at_store (before ++ w) true []))
          (map (crlf ++◌) (doc ∷ docs)))
      (sym (mimeify-append boundary doc docs (zeros n)))
      (Prints-step (turn-separator boundary before (with_headers doc rest) true [] h)
        (Prints-headers boundary doc rest true [] _ (Prints-parts boundary doc docs n [] b d)))

-- A document is no longer than the text that it is printed in.
mimeify-All :
    (boundary : Text) (docs : List Text) (n : ℕ)
    → length (mimeify boundary docs) ≤ n
    → All (λ doc. length doc ≤ n) docs
unfolding mimeify
mimeify-All boundary [] n h = tt
mimeify-All boundary (doc ∷ docs) n h =
    let rest = mimeify boundary docs in
    let lengths = content_length_line doc ++ crlf in
    let printed = length-append (part boundary doc) rest in
    let framed_length = length-append doc crlf in
    let headers = length-append lengths (framed doc) in
    let all =
      length-append (boundary_line boundary separator)
        ((content_type_line ++ crlf) ++ (lengths ++ framed doc)) in
    (
      omega (arith, printed, framed_length, headers, all),
      mimeify-All boundary docs n (omega (arith, printed)),
    )

IsDocument-All :
    (docs : List Text)
    → All (Lacks 45) docs
    → All (λ doc. length doc ≤ 256) docs
    → All IsDocument docs
IsDocument-All [] h k = tt
IsDocument-All (doc ∷ docs) h k = ((h.0, k.0), IsDocument-All docs h.1 k.1)

Lacks-take : (x n : ℕ) (cs : Text) → Lacks x cs → Lacks x (take n cs)
Lacks-take x zero cs h = tt
Lacks-take x (suc n) [] h = tt
Lacks-take x (suc n) (c ∷ cs) h = (h.0, Lacks-take x n cs h.1)

-- A read that delivers the whole body ends the scan.
drive-body :
    (boundary before : Text) (docs : List Text) (rs : List (Option (ErrorCode × Text)))
    → IsBoundary boundary
    → Lacks 45 before
    → All (Lacks 45) docs
    → length (mimeify boundary docs) ≤ 256
    → drive boundary
        (some (success, mimeify boundary docs) ∷ rs)
        (some (reads next_boundary (at_store before true [])))
      ≡ some (returned success (map (crlf ++◌) docs))
unfolding drive
drive-body boundary before docs rs b l d h =
    let body = mimeify boundary docs in
    let p =
      Prints-body boundary before docs (512 - 2 * length body) b l
        (IsDocument-All docs d (mimeify-All boundary docs 256 h)) in
    let t =
      jumps next_boundary (at_store (before ++ (body ++ zeros (512 - 2 * length body))) true []) in
    ap (λ w. drive boundary rs (settle boundary (jumps next_boundary (at_store w true []))))
      ((after_read_bounds body before (omega arith)).0 h)
    ∙ ap (drive boundary rs) (settle-scan boundary t _ p.steps p.ends)
    ∙ ap (λ ps. some (returned success ps)) p.printed

-- For a header that names a boundary that is not empty and has no hyphen and no carriage return, and for
-- documents without hyphens that mimeify prints in at most 256 octets: if the first read of the body
-- delivers what mimeify prints, whole, `test` returns no error and prints each document, in order, with
-- a line break in front.
pub test-mimeify :
    (content_type boundary : Text) (docs : List Text) (header_bytes : ℕ)
    (rs : List (Option (ErrorCode × Text)))
    → deduce_boundary content_type ≡ some boundary
    → IsBoundary boundary
    → All (Lacks 45) docs
    → length (mimeify boundary docs) ≤ 256
    → test content_type (success, header_bytes) (some (success, mimeify boundary docs) ∷ rs)
      ≡ some (returned success (map (crlf ++◌) docs))
unfolding test drive
test-mimeify content_type boundary docs header_bytes rs e b d h =
    let before = header_store header_bytes in
    let l = Lacks-take 45 _ (zeros 256) (Lacks-zeros 44 256) in
    rw (e, settle-reads boundary before l) (drive-body boundary before docs rs b l d h)
