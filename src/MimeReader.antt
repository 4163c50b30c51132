-- ===== src/MimeReader.antt =====
-- pre-cxx20/mime_reader/main.cpp: how its sample of a multipart body is made and cut into chunks. Its
-- reader is in Boundary and Scan.
pub mod Boundary
pub mod Chunks
pub mod Dechunk
pub mod Scan
mod Tests
use boost_beast_websocket_ec.Prelude.{
  ℕ, zero, suc, ◌+◌, ◌-◌, ◌/◌, ◌%◌, Option, none, some, List, [], ◌∷◌, ◌++◌, empty, length, take,
  drop, if◌then◌else◌,
}
use boost_beast_websocket_ec.Prelude.Text.{Text, codes, to_string, to_hex}
use boost_beast_websocket_ec.Prelude.Slots.{u64}

-- "\r\n"
abbrev pub crlf : Text
crlf = 13 ∷ 10 ∷ []

-- what mimeify prints for one document
abbrev pub part : Text → Text → Text
part boundary doc =
    (codes "--" ++ boundary ++ crlf)
    ++ ((codes "Content-Type: image/jpeg" ++ crlf)
        ++ ((codes "Content-Length: " ++ to_string (length doc) ++ crlf)
            ++ (crlf ++ (doc ++ crlf))))

unfoldable pub mimeify : Text → List Text → Text
mimeify boundary [] = codes "--" ++ boundary ++ codes "--" ++ crlf
mimeify boundary (doc ∷ docs) = part boundary doc ++ mimeify boundary docs

-- std::size_t chunk_len; a division by no chunks is undefined
abbrev pub chunk_len : ℕ → ℕ → ℕ
chunk_len chunks size = ((size + (chunks - 1)) % u64) / chunks

-- what chunkify prints for one chunk, and at the end
abbrev pub chunk_text : Text → Text
chunk_text chunk = to_hex (length chunk) ++ crlf ++ chunk ++ crlf

abbrev pub last_chunk : Text
last_chunk = codes "0" ++ crlf

-- The loop of chunkify: `rest` is the input from `pos` on. Out of fuel it gives none.
pub chunk_loop : ℕ → ℕ → Text → Option Text
chunk_loop zero len rest = none
chunk_loop (suc fuel) len rest =
    let chunk = take len rest in
    let more = chunk_loop fuel len (drop (length chunk) rest) in
    if empty rest
    then some last_chunk
    else elim more [ none ↦ none | some out ↦ some (chunk_text chunk ++ out) ]

unfoldable pub chunkify : ℕ → ℕ → Text → Option Text
unfolding chunk_loop
chunkify fuel chunks input = chunk_loop fuel (chunk_len chunks (length input)) input
