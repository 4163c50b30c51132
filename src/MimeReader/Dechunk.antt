-- ===== src/MimeReader/Dechunk.antt =====
-- A reader of the chunked coding of HTTP/1.1 (RFC 7230, 4.1), and what it makes of what chunkify prints.
use mathlib.Core.List.{append_assoc}
use boost_beast_websocket_ec.Prelude.{
  ◌&&◌, Bool-cases, inl, inr, ℕ, zero, suc, ◌+◌, ◌-◌, ◌*◌, ◌/◌, ◌%◌, ◌≤◌, ◌<◌, ◌≡◌, refl, ap, ◌∙◌,
  true, false, ◌==◌, ltb, Option, none, some, List, [], ◌∷◌, ◌++◌, empty, length, All, arith,
  if◌then◌else◌,
}
use boost_beast_websocket_ec.Prelude.Text.{Text, digit, emit, to_hex}
use boost_beast_websocket_ec.Prelude.Slots.{u64}
use boost_beast_websocket_ec.MimeReader.{crlf, chunk_text, chunkify}
use boost_beast_websocket_ec.MimeReader.Chunks.{encode, joined, chunkify_pieces}

-- What is to come: the first digit of a size, a further digit or the line break after it, the contents
-- of a chunk, the line break behind them, and the empty line that ends the body.
pub data Phase : Type 0 where
  size : Phase
  more_size after_size contents : ℕ → Phase
  end_feed last_return last_feed : Phase

-- The value of a hexadecimal digit.
abbrev pub hex_value : ℕ → Option ℕ
hex_value c =
    if ltb c 48
    then none
    else if ltb c 58
    then some (c - 48)
    else if ltb c 65
    then none
    else if ltb c 71
    then some (c - 55)
    else if ltb c 97
    then none
    else if ltb c 103
    then some (c - 87)
    else none

abbrev pub cons : ℕ → Option Text → Option Text
cons c none = none
cons c (some cs) = some (c ∷ cs)

-- The octets of the chunks. A chunk is a size, a line break, as many octets and a line break; the last
-- chunk has the size 0 and no octets, and behind it stands an empty line, which ends the body.
unfoldable pub read_chunks : Phase → Text → Option Text
read_chunks p [] = none
read_chunks size (c ∷ cs) = elim (hex_value c) [
  | none ↦ none
  | some d ↦ read_chunks (more_size d) cs
]
read_chunks (more_size n) (c ∷ cs) = elim (c == 13) [
  | true ↦ read_chunks (after_size n) cs
  | false ↦ (elim (hex_value c) [ none ↦ none | some d ↦ read_chunks (more_size (n * 16 + d)) cs ])
]
read_chunks (after_size zero) (c ∷ cs) =
    let rest = read_chunks last_return cs in if c == 10 then rest else none
read_chunks (after_size (suc n)) (c ∷ cs) =
    let rest = read_chunks (contents (suc n)) cs in if c == 10 then rest else none
read_chunks (contents zero) (c ∷ cs) =
    let rest = read_chunks end_feed cs in if c == 13 then rest else none
read_chunks (contents (suc n)) (c ∷ cs) = cons c (read_chunks (contents n) cs)
read_chunks end_feed (c ∷ cs) = let rest = read_chunks size cs in if c == 10 then rest else none
read_chunks last_return (c ∷ cs) =
    let rest = read_chunks last_feed cs in if c == 13 then rest else none
read_chunks last_feed (c ∷ cs) = if (c == 10) && empty cs then some [] else none

-- A body in the chunked coding, without chunk extensions and trailer fields.
unfoldable pub dechunk : Text → Option Text
unfolding read_chunks
dechunk text = read_chunks size text

hex_value-digit : (d : ℕ) → d < 16 → hex_value (digit d) ≡ some d
hex_value-digit d h = ground arith

digit_not_return : (d : ℕ) → (digit d == 13) ≡ false
digit_not_return d = ground arith

read_chunks-first_digit :
    (d : ℕ) (out : Text) → d < 16 → read_chunks size (digit d ∷ out) ≡ read_chunks (more_size d) out
unfolding read_chunks
read_chunks-first_digit d out h = rw (hex_value-digit d h, read_chunks) refl

read_chunks-digit :
    (k d : ℕ) (out : Text)
    → d < 16
    → read_chunks (more_size k) (digit d ∷ out) ≡ read_chunks (more_size (k * 16 + d)) out
unfolding read_chunks
read_chunks-digit k d out h = rw (digit_not_return d, hex_value-digit d h, read_chunks) refl

two_digits : (n : ℕ) → ltb n 16 ≡ false → 16 ≤ n
two_digits n h = ground arith

-- The digits printed for a number are read as that number.
read_chunks-emit :
    (fuel n : ℕ) (out : Text)
    → n < fuel
    → read_chunks size (emit 16 fuel n out) ≡ read_chunks (more_size n) out
unfolding emit
read_chunks-emit zero n out h = absurd (omega arith)
read_chunks-emit (suc fuel) n out h = elim (Bool-cases (ltb n 16)) [
  | inl e ↦ rw (e) (read_chunks-first_digit n out (ground arith))
  | inr e ↦ rw (e) (
      read_chunks-emit fuel (n / 16) (digit (n % 16) ∷ out) (omega (arith, two_digits n e))
      ∙ read_chunks-digit (n / 16) (n % 16) out (omega arith)
      ∙ ap (λ k. read_chunks (more_size k) out) (omega arith))
]

emit-append :
    (fuel n : ℕ) (out rest : Text) → emit 16 fuel n out ++ rest ≡ emit 16 fuel n (out ++ rest)
unfolding emit
emit-append zero n out rest = refl
emit-append (suc fuel) n out rest = elim (Bool-cases (ltb n 16)) [
  | inl e ↦ rw (e) refl
  | inr e ↦ rw (e) (emit-append fuel (n / 16) (digit (n % 16) ∷ out) rest)
]

prepend : Text → Option Text → Option Text
prepend [] o = o
prepend (c ∷ cs) o = cons c (prepend cs o)

prepend-some : (xs ys : Text) → prepend xs (some ys) ≡ some (xs ++ ys)
unfolding prepend
prepend-some [] ys = refl
prepend-some (x ∷ xs) ys = ap (cons x) (prepend-some xs ys)

read_chunks-contents :
    (chunk rest : Text)
    → read_chunks (contents (length chunk)) (chunk ++ rest)
      ≡ prepend chunk (read_chunks (contents 0) rest)
unfolding read_chunks prepend
read_chunks-contents [] rest = refl
read_chunks-contents (c ∷ chunk) rest = ap (cons c) (read_chunks-contents chunk rest)

chunk_text-append :
    (chunk rest : Text)
    → chunk_text chunk ++ rest
      ≡ emit 16 (suc (length chunk)) (length chunk) (crlf ++ (chunk ++ (crlf ++ rest)))
unfolding to_hex
chunk_text-append chunk rest =
    let digits = to_hex (length chunk) in
    append_assoc (digits ++ crlf ++ chunk) crlf rest
    ∙ append_assoc (digits ++ crlf) chunk (crlf ++ rest)
    ∙ append_assoc digits crlf (chunk ++ (crlf ++ rest))
    ∙ emit-append (suc (length chunk)) (length chunk) [] (crlf ++ (chunk ++ (crlf ++ rest)))

prepend-none : (xs : Text) → prepend xs none ≡ none
unfolding prepend
prepend-none [] = refl
prepend-none (x ∷ xs) = ap (cons x) (prepend-none xs)

-- A chunk that is not empty is read, and then what follows it.
read_chunks-chunk_text :
    (chunk rest : Text)
    → 1 ≤ length chunk
    → read_chunks size (chunk_text chunk ++ rest) ≡ prepend chunk (read_chunks size rest)
unfolding read_chunks
read_chunks-chunk_text [] rest h = absurd (omega arith)
read_chunks-chunk_text (c ∷ cs) rest h =
    let chunk = c ∷ cs in
    ap (read_chunks size) (chunk_text-append chunk rest)
    ∙ read_chunks-emit (suc (length chunk)) (length chunk) (crlf ++ (chunk ++ (crlf ++ rest)))
        (omega arith)
    ∙ read_chunks-contents chunk (crlf ++ rest)

-- With the empty line behind the last chunk the pieces are read, and without it nothing is.
read_chunks-encode :
    (len : ℕ) (pieces : List Text)
    → All (λ p. (1 ≤ length p) × (length p ≤ len)) pieces
    → read_chunks size (encode pieces ++ crlf) ≡ some (joined pieces)
unfolding read_chunks
read_chunks-encode len [] h = refl
read_chunks-encode len (p ∷ ps) h =
    ap (read_chunks size) (append_assoc (chunk_text p) (encode ps) crlf)
    ∙ read_chunks-chunk_text p (encode ps ++ crlf) h.0.0
    ∙ ap (prepend p) (read_chunks-encode len ps h.1)
    ∙ prepend-some p (joined ps)

read_chunks-encode_cut :
    (len : ℕ) (pieces : List Text)
    → All (λ p. (1 ≤ length p) × (length p ≤ len)) pieces
    → read_chunks size (encode pieces) ≡ none
unfolding read_chunks
read_chunks-encode_cut len [] h = refl
read_chunks-encode_cut len (p ∷ ps) h =
    read_chunks-chunk_text p (encode ps) h.0.0
    ∙ ap (prepend p) (read_chunks-encode_cut len ps h.1)
    ∙ prepend-none p

-- For at least one chunk and an input such that the two sizes together are at most 2^64, chunkify ends
-- within one turn more than the input is long. With an empty line behind it, what it prints is a body in
-- the chunked coding, without extensions and trailer fields, that carries the input; as it is, without
-- that line, it is none.
pub dechunk-chunkify :
    (chunks : ℕ) (input : Text)
    → 1 ≤ chunks
    → length input + chunks ≤ u64
    → (out : Text) × (chunkify (suc (length input)) chunks input ≡ some out)
      × (dechunk (out ++ crlf) ≡ some input)
      × (dechunk out ≡ none)
unfolding dechunk
dechunk-chunkify chunks input h b =
    let c = chunkify_pieces chunks input h b in
    (
      encode c.pieces,
      c.out_pieces,
      read_chunks-encode _ c.pieces c.not_empty ∙ ap some c.all_input,
      read_chunks-encode_cut _ c.pieces c.not_empty,
    )
