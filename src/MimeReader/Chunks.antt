-- ===== src/MimeReader/Chunks.antt =====
-- The loop of chunkify ends, and its chunks are the input.
use native.Mathlib.Nat.{mod-lt, mod-eq_of_lt, div-add-mod, suc-mul, mul-zero}
use boost_beast_websocket_ec.Prelude.{
  ℕ, zero, suc, ◌+◌, ◌-◌, ◌*◌, ◌/◌, ◌≤◌, ◌<◌, ◌≡◌, refl, ap, sym, subst, ◌∙◌, Option, some, List,
  [], ◌∷◌, ◌++◌, length, take, drop, All, arith,
}
use boost_beast_websocket_ec.Prelude.Text.{Text}
use boost_beast_websocket_ec.Prelude.Slots.{u64}
use boost_beast_websocket_ec.MimeReader.{chunk_len, chunk_text, last_chunk, chunk_loop, chunkify}

-- The text of a list of chunks.
abbrev pub encode : List Text → Text
encode [] = last_chunk
encode (p ∷ ps) = chunk_text p ++ encode ps

abbrev pub joined : List Text → Text
joined [] = []
joined (p ∷ ps) = p ++ joined ps

take-drop : (n : ℕ) (xs : Text) → take n xs ++ drop (length (take n xs)) xs ≡ xs
take-drop zero xs = refl
take-drop (suc n) [] = refl
take-drop (suc n) (x ∷ xs) = ground (arith, take-drop n xs)

length-take : (n : ℕ) (xs : Text) → length (take n xs) ≤ n
length-take zero xs = omega arith
length-take (suc n) [] = omega arith
length-take (suc n) (x ∷ xs) = omega (arith, length-take n xs)

-- What is left after a chunk: never more than before, and `n` less if there is as much.
length-drop : (n : ℕ) (xs : Text) → length (drop n xs) ≤ length xs
length-drop zero xs = omega arith
length-drop (suc n) [] = omega arith
length-drop (suc n) (x ∷ xs) = omega (arith, length-drop n xs)

length-drop-take :
    (n k : ℕ) (xs : Text) → length xs ≤ k + n → length (drop (length (take n xs)) xs) ≤ k
length-drop-take zero k xs h = omega arith
length-drop-take (suc n) k [] h = omega arith
length-drop-take (suc n) k (x ∷ xs) h = length-drop-take n k xs (omega arith)

-- A text cut into pieces that are not empty and not longer than `len`, `m` of them at most.
pub record Chunked (len m : ℕ) (input : Text) (out : Option Text) : Type 0 where
  pub pieces : List Text
  pub out_pieces : out ≡ some (encode pieces)
  pub all_input : joined pieces ≡ input
  pub few : length pieces ≤ m
  pub not_empty : All (λ p. (1 ≤ length p) × (length p ≤ len)) pieces

chunk_loop-Chunked :
    (fuel len m : ℕ) (rest : Text)
    → 1 ≤ len
    → length rest < fuel
    → length rest ≤ m * len
    → Chunked len m rest (chunk_loop fuel len rest)
unfolding chunk_loop
chunk_loop-Chunked (suc fuel) len m [] h f b = record {
  pieces = [];
  out_pieces = refl;
  all_input = refl;
  few = omega arith;
  not_empty = tt;
}
chunk_loop-Chunked (suc fuel) (suc len) (suc m) (x ∷ xs) h f b =
    let chunk = take (suc len) (x ∷ xs) in
    let left = drop (length chunk) (x ∷ xs) in
    let c =
      chunk_loop-Chunked fuel (suc len) m left h
        (omega (arith, length-drop (length (take len xs)) xs))
        (length-drop-take (suc len) (m * suc len) (x ∷ xs) (omega (arith, suc-mul m (suc len)))) in
    record {
      pieces = chunk ∷ c.pieces;
      out_pieces = rw (c.out_pieces) refl;
      all_input = ap (◌++◌ chunk) c.all_input ∙ take-drop (suc len) (x ∷ xs);
      few = omega (arith, c.few);
      not_empty = ((omega arith, length-take (suc len) (x ∷ xs)), c.not_empty);
    }
chunk_loop-Chunked (suc fuel) len zero (x ∷ xs) h f b = absurd (omega arith)
chunk_loop-Chunked (suc fuel) zero m (x ∷ xs) h f b = absurd (omega arith)
chunk_loop-Chunked zero len m rest h f b = absurd (omega arith)

chunk_len_enough :
    (chunks size : ℕ) → 1 ≤ chunks → size + chunks ≤ u64 → size ≤ chunks * chunk_len chunks size
chunk_len_enough chunks size h b =
    let s = size + (chunks - 1) in
    subst (λ n. size ≤ chunks * (n / chunks)) (sym (mod-eq_of_lt {n = s} {m = u64} (omega arith)))
      (omega (arith, div-add-mod s chunks, mod-lt s {m = chunks} (omega arith)))

positive_factor : (a b n : ℕ) → suc n ≤ a * b → 1 ≤ b
positive_factor a zero n h = absurd (omega (arith, mul-zero a))
positive_factor a (suc b) n h = omega arith

-- For at least one chunk and an input such that the two sizes together are at most 2^64, the loop ends
-- within one turn more than the input is long; what is printed are chunks that are not empty, at most
-- as many as were asked for, and joined are the input, followed by the last chunk.
pub chunkify_pieces :
    (chunks : ℕ) (input : Text)
    → 1 ≤ chunks
    → length input + chunks ≤ u64
    → Chunked
        (chunk_len chunks (length input))
        chunks
        input
        (chunkify (suc (length input)) chunks input)
unfolding chunkify chunk_loop
chunkify_pieces chunks [] h b = record {
  pieces = [];
  out_pieces = refl;
  all_input = refl;
  few = omega arith;
  not_empty = tt;
}
chunkify_pieces chunks (x ∷ xs) h b =
    let enough = chunk_len_enough chunks (length (x ∷ xs)) h b in
    chunk_loop-Chunked (suc (length (x ∷ xs))) (chunk_len chunks (length (x ∷ xs))) chunks (x ∷ xs)
      (positive_factor chunks _ (length xs) enough) (omega arith) enough
