-- ===== src/MimeReader/Scan/Tests.antt =====
-- The sample of the program in one read, and reads that are shorter and longer than 256 octets.
use boost_beast_websocket_ec.Prelude.{
  none, Option, Bool, false, drop, ◌≡◌, ◌≤◌, refl, true, some, List, [], ◌∷◌, ◌++◌, ◌-◌, ◌*◌, map,
  take, length, success, fault, ErrorCode, arith,
}
use boost_beast_websocket_ec.Prelude.Text.{Text, codes, to_string}
use boost_beast_websocket_ec.MimeReader.{crlf, mimeify}
use boost_beast_websocket_ec.MimeReader.Boundary.{deduce_boundary}
use boost_beast_websocket_ec.MimeReader.Scan.{
  overlaps, Result, zeros, after_read, returned, protocol_error, test, reading, next_boundary,
  jumps, settle, drive, header_store,
}
use boost_beast_websocket_ec.MimeReader.Scan.Laws.{IsReturned, failing, test_ends}
use boost_beast_websocket_ec.MimeReader.Scan.Reads.{after_read_bounds}
use boost_beast_websocket_ec.MimeReader.Scan.Lines.{IsBoundary}
use boost_beast_websocket_ec.MimeReader.Scan.Turns.{at_store}
use boost_beast_websocket_ec.MimeReader.Scan.Resumed.{delivered, read_all, test-read_all}
use boost_beast_websocket_ec.MimeReader.Scan.RoundTrip.{test-mimeify}

abbrev sample_type : Text
sample_type = codes "multipart/x-mixed-replace;boundary=\"FrameSeparator\""

abbrev frame : Text
frame = codes "FrameSeparator"

abbrev docs : List Text
docs = codes "abc" ∷ (codes "def" ∷ [])

-- the sample of the program: each part is printed with the blank line of its headers
sample_parts :
    test sample_type (success, 133) (some (success, mimeify frame docs) ∷ [])
    ≡ some (returned success ((crlf ++ codes "abc") ∷ ((crlf ++ codes "def") ∷ [])))
unfolding test mimeify to_string
sample_parts = refl

not_mime : test (codes "text/html") (success, 50) [] ≡ some (returned protocol_error [])
unfolding test
not_mime = refl

read_error : test sample_type (success, 133) (some (fault, []) ∷ []) ≡ some (returned fault [])
unfolding test
read_error = refl

frame-IsBoundary : IsBoundary frame
frame-IsBoundary = record {
  not_empty = omega arith;
  no_hyphen = ground arith;
  no_return = ground arith;
}

sample_size : length (mimeify frame docs) ≡ 160
unfolding mimeify to_string
sample_size = refl

sample_boundary : deduce_boundary sample_type ≡ some frame
unfolding deduce_boundary
sample_boundary = refl

test_ends_example :
    IsReturned (test sample_type (success, 133) (failing ((success, codes "--") ∷ []) fault []))
test_ends_example = test_ends sample_type (success, 133) ((success, codes "--") ∷ []) fault [] refl

-- A read that has not completed when it is polled is followed by another one.
unread :
    test sample_type (success, 0) (none ∷ [])
    ≡ some (overlaps next_boundary (at_store (zeros 512) true []))
unfolding test
unread = refl

after_read_bounds_example :
    (length (codes "--") ≤ 256
      → after_read (codes "--") [] ≡ [] ++ (codes "--" ++ zeros (512 - 2 * length (codes "--"))))
    × (256 ≤ length (codes "--")
        → after_read (codes "--") [] ≡ [] ++ take (512 - length (codes "--")) (codes "--"))
after_read_bounds_example = after_read_bounds (codes "--") [] (omega arith)

test-mimeify_example :
    test sample_type (success, 133) (some (success, mimeify frame docs) ∷ [])
    ≡ some (returned success (map (crlf ++◌) docs))
test-mimeify_example =
    test-mimeify sample_type frame docs 133 [] sample_boundary frame-IsBoundary (ground arith)
      (omega (arith, sample_size))

abbrev has_returned : Option Result → Bool
has_returned (some (returned ec parts)) = true
has_returned _ = false

-- the sample in two reads, the second of which begins in the last boundary: it is never found
split_boundary :
    has_returned (
      test sample_type
        (success, 133)
        (some (success, take 150 (mimeify frame docs))
          ∷ (some (success, drop 150 (mimeify frame docs)) ∷ [])))
    ≡ false
unfolding test mimeify to_string
split_boundary = refl

-- the sample in two reads, the second of which begins in the first document: zeros are printed with it
split_part :
    test sample_type
      (success, 133)
      (some (success, take 66 (mimeify frame docs))
        ∷ (some (success, drop 66 (mimeify frame docs)) ∷ []))
    ≡ some (
        returned success
          ((crlf ++ (codes "a" ++ (zeros 380 ++ codes "bc"))) ∷ ((crlf ++ codes "def") ∷ [])))
unfolding test mimeify to_string
split_part = refl

abbrev first_reads : List Text
first_reads = take 66 (mimeify frame docs) ∷ []

abbrev last_reads : List (Option (ErrorCode × Text))
last_reads = delivered (drop 66 (mimeify frame docs)) ∷ []

first_reads_size : length (take 66 (mimeify frame docs)) ≡ 66
unfolding mimeify to_string
first_reads_size = refl

first_reads_wait :
    test sample_type (success, 133) (map delivered first_reads)
    ≡ some (reading next_boundary (at_store (crlf ++ (codes "a" ++ zeros 380)) false []))
unfolding test mimeify to_string
first_reads_wait = refl

test-read_all_example :
    test sample_type (success, 133) (map delivered first_reads ++ last_reads)
    ≡ drive frame last_reads (
        settle frame
          (jumps next_boundary (at_store (read_all first_reads (header_store 133)) true [])))
test-read_all_example =
    test-read_all sample_type frame 133 first_reads last_reads next_boundary
      (at_store (crlf ++ (codes "a" ++ zeros 380)) false []) sample_boundary
      (omega (arith, first_reads_size), tt) first_reads_wait
