-- ===== src/MimeReader/Scan.antt =====
-- The scan of `test` for the parts of a multipart body. What the reads deliver is an argument. The
-- dynamic buffer and the body are taken as documented: grow appends zeros, shrink takes octets off the
-- end, and a read fills the body's area from the front and leaves in body().size the room behind it.
pub mod Laws
pub mod Reads
pub mod Lines
pub mod Turns
pub mod RoundTrip
pub mod Longer
pub mod Resumed
mod Tests
use boost_beast_websocket_ec.Prelude.{
  ℕ, zero, suc, ◌+◌, ◌-◌, ◌*◌, ◌%◌, Bool, true, false, ◌&&◌, ◌==◌, Option, none, some, List, [],
  ◌∷◌, ◌++◌, empty, length, take, drop, if◌then◌else◌, ErrorCode, success, other, is_error,
}
use boost_beast_websocket_ec.Prelude.Text.{Text, codes}
use boost_beast_websocket_ec.Prelude.Slots.{u64}
use boost_beast_websocket_ec.MimeReader.{crlf}
use boost_beast_websocket_ec.MimeReader.Boundary.{deduce_boundary}

unfoldable pub is_prefix : Text → Text → Bool
is_prefix [] cs = true
is_prefix (l ∷ ls) [] = false
is_prefix (l ∷ ls) (c ∷ cs) = (l == c) && is_prefix ls cs

abbrev pub later : ℕ → Option ℕ → Option ℕ
later n none = none
later n (some pos) = some (n + pos)

-- store.find(line); none is npos
unfoldable pub find : Text → Text → Option ℕ
unfolding is_prefix
find [] line = if empty line then some 0 else none
find (c ∷ cs) line =
    let rest = find cs line in if is_prefix line (c ∷ cs) then some 0 else later 1 rest

-- The octets that grow appends.
abbrev pub zeros : ℕ → Text
zeros zero = []
zeros (suc n) = 0 ∷ zeros n

-- outbuf.grow(n) and outbuf.shrink(n) of a dynamic_string_buffer: to shrink by more than there is
-- leaves nothing
abbrev pub grow : ℕ → Text → Text
grow n store = store ++ zeros n

abbrev pub shrink : ℕ → Text → Text
shrink n store = take (length store - n) store

-- The store after the header was read, of which `bytes_transferred` octets were taken.
abbrev pub header_store : ℕ → Text
header_store bytes_transferred = shrink ((256 + u64 - bytes_transferred) % u64) (grow 256 [])

-- A read of the body into the 512 octets that grow appends: the octets that it delivers stand first,
-- and body().size is then the room that is left.
unfoldable pub after_read : Text → Text → Text
after_read bytes store =
    let size = 512 - length bytes in shrink (512 - size) (store ++ (bytes ++ zeros size))

-- boundary_line: between two parts, and at the end
pub data Line : Type 0 where
  separator closing : Line

abbrev pub boundary_line : Text → Line → Text
boundary_line boundary separator = codes "--" ++ boundary ++ crlf
boundary_line boundary closing = codes "--" ++ boundary ++ codes "--" ++ crlf

abbrev pub closing_at : Option ℕ → Option (Line × ℕ)
closing_at none = none
closing_at (some pos) = some (closing, pos)

abbrev pub or_closing : Option ℕ → Option ℕ → Option (Line × ℕ)
or_closing (some pos) end = some (separator, pos)
or_closing none end = closing_at end

-- The line that ends the loop, and boundary_pos.
unfoldable pub find_boundary : Text → Text → Option (Line × ℕ)
unfolding find
find_boundary boundary store =
    or_closing (find store (boundary_line boundary separator))
      (find store (boundary_line boundary closing))

pub record Scan : Type 0 where
  pub work_store : Text
  pub first_part : Bool
  -- the parts that were printed
  pub parts : List Text

-- the labels of the goto statements
pub data Label : Type 0 where
  next_boundary next_header : Label

-- What comes next: a jump, a read after which the label is taken again, or the return.
pub data Turn : Type 0 where
  jumps reads : Label → Scan → Turn
  returns : Scan → Turn

-- work_store.substr(0, boundary_pos - 2)
abbrev pub part_before : ℕ → Text → Text
part_before boundary_pos store = take ((boundary_pos + u64 - 2) % u64) store

abbrev pub print_part : ℕ → Scan → Scan
print_part pos s = record s {
  parts = if s.first_part then s.parts else s.parts ++ (part_before pos s.work_store ∷ []);
}

abbrev pub erase_front : ℕ → Scan → Scan
erase_front n s = record s { work_store = drop n s.work_store }

abbrev pub at_boundary : Text → Scan → Option (Line × ℕ) → Turn
at_boundary boundary s none = reads next_boundary s
at_boundary boundary s (some (separator, pos)) =
    jumps next_header
      (erase_front (pos + length (boundary_line boundary separator)) (print_part pos s))
at_boundary boundary s (some (closing, pos)) = returns (print_part pos s)

abbrev pub at_header : Scan → Option ℕ → Turn
at_header s none = reads next_header s
at_header s (some zero) = jumps next_boundary (record s { first_part = false })
at_header s (some (suc n)) = jumps next_header (erase_front (suc n + 2) s)

unfoldable pub turn : Text → Label → Scan → Turn
unfolding find_boundary find
turn boundary next_boundary s = at_boundary boundary s (find_boundary boundary s.work_store)
turn boundary next_header s = at_header s (find s.work_store crlf)

-- The turns up to the next read or the return. Out of fuel it gives none.
pub scan : Text → Turn → ℕ → Option Turn
unfolding turn
scan boundary (reads l s) fuel = some (reads l s)
scan boundary (returns s) fuel = some (returns s)
scan boundary (jumps l s) zero = none
scan boundary (jumps l s) (suc fuel) = scan boundary (turn boundary l s) fuel

-- Two turns for every octet of the store, and one or two for the label.
abbrev pub turns_left : Turn → ℕ
turns_left (jumps next_boundary s) = 2 * length s.work_store + 1
turns_left (jumps next_header s) = 2 * length s.work_store + 2
turns_left (reads l s) = 0
turns_left (returns s) = 0

unfoldable pub settle : Text → Turn → Option Turn
unfolding scan
settle boundary t = scan boundary t (turns_left t)

-- How far `test` has come: it has returned a code, with the parts printed; or the reads that are given are
-- used up, and it has begun another one; or it has begun a read while the one before it has not
-- completed, for which neither the order of the completions nor the buffers are defined.
pub data Result : Type 0 where
  returned : ErrorCode → List Text → Result
  reading : Label → Scan → Result
  overlaps : Label → Scan → Result

-- What follows a read that has not completed.
abbrev pub goes_on_unread : Option Turn → Option Result
goes_on_unread none = none
goes_on_unread (some (jumps l s)) = none
goes_on_unread (some (returns s)) = some (returned success s.parts)
goes_on_unread (some (reads l s)) = some (overlaps l s)

-- `spin` polls, and does not wait. A read is what its poll comes to: the code of its completion and the
-- octets it delivers, or none if it has not completed. Then ec is as before, which is no error, and
-- body().size is still 512, as after a read of no octets: all that grow appended stays in the store.
pub drive : Text → List (Option (ErrorCode × Text)) → Option Turn → Option Result
unfolding settle after_read
drive boundary rs none = none
drive boundary rs (some (jumps l s)) = none
drive boundary rs (some (returns s)) = some (returned success s.parts)
drive boundary [] (some (reads l s)) = some (reading l s)
drive boundary (none ∷ rs) (some (reads l s)) =
    goes_on_unread
      (settle boundary (jumps l (record s { work_store = after_read [] s.work_store })))
drive boundary (some (ec, bytes) ∷ rs) (some (reads l s)) = elim (is_error ec) [
  | true ↦ some (returned ec s.parts)
  | false ↦
      drive boundary rs
        (settle boundary (jumps l (record s { work_store = after_read bytes s.work_store })))
]

-- errc::protocol_error
abbrev pub protocol_error : ErrorCode
protocol_error = other 71

abbrev pub scan_start : ℕ → Turn
scan_start bytes_transferred =
    jumps next_boundary
      (record { work_store = header_store bytes_transferred; first_part = true; parts = [] })

-- The first argument is the content type that the parser has after the poll of the header's read, and the
-- second the code and the size that its handler has stored: success and 0 if it has not been called.
unfoldable pub test : Text → ErrorCode × ℕ → List (Option (ErrorCode × Text)) → Option Result
unfolding deduce_boundary settle drive
test content_type (ec, bytes_transferred) rs = elim (is_error ec) [
  | true ↦ some (returned ec [])
  | false ↦ (elim (deduce_boundary content_type) [
    | none ↦ some (returned protocol_error [])
    | some boundary ↦ drive boundary rs (settle boundary (scan_start bytes_transferred))
  ])
]
