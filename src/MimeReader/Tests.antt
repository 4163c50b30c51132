-- ===== src/MimeReader/Tests.antt =====
-- The sample of the program: two documents, and a text in four chunks.
use boost_beast_websocket_ec.Prelude.{◌≡◌, refl, some, none, [], ◌++◌, arith}
use boost_beast_websocket_ec.Prelude.Text.{Text, codes, to_hex}
use boost_beast_websocket_ec.MimeReader.{crlf, mimeify, chunkify}
use boost_beast_websocket_ec.MimeReader.Dechunk.{dechunk, dechunk-chunkify}
use boost_beast_websocket_ec.MimeReader.Chunks.{Chunked, chunkify_pieces}

abbrev hello : Text
hello = codes "hello"

hello_chunks :
    chunkify 6 4 hello
    ≡ some (
        codes "2"
        ++ crlf
        ++ codes "he"
        ++ crlf
        ++ codes "2"
        ++ crlf
        ++ codes "ll"
        ++ crlf
        ++ codes "1"
        ++ crlf
        ++ codes "o"
        ++ crlf
        ++ codes "0"
        ++ crlf)
unfolding chunkify to_hex
hello_chunks = refl

no_documents : mimeify (codes "B") [] ≡ codes "--B--" ++ crlf
unfolding mimeify
no_documents = refl

chunkify_pieces_case : Chunked 2 4 hello (chunkify 6 4 hello)
chunkify_pieces_case = chunkify_pieces 4 hello (omega arith) (omega arith)

dechunk-chunkify_example :
    (out : Text) × (chunkify 6 4 hello ≡ some out)
    × (dechunk (out ++ crlf) ≡ some hello)
    × (dechunk out ≡ none)
dechunk-chunkify_example = dechunk-chunkify 4 hello (omega arith) (omega arith)

-- a chunk that is cut short is not read, and neither is a size without digits
cut_chunk : dechunk (codes "2" ++ crlf ++ codes "h") ≡ none
unfolding dechunk
cut_chunk = refl

no_digits : dechunk (crlf ++ crlf) ≡ none
unfolding dechunk
no_digits = refl

-- a size of two digits, with capital and small letters
two_chunks :
    dechunk (
      codes "0E"
      ++ crlf
      ++ codes "in two chunks,"
      ++ crlf
      ++ codes "a"
      ++ crlf
      ++ codes " of 14 and"
      ++ crlf
      ++ codes "0"
      ++ crlf
      ++ crlf)
    ≡ some (codes "in two chunks, of 14 and")
unfolding dechunk
two_chunks = refl
