-- ===== src/MimeReader/Boundary/Tests.antt =====
-- The content type of the program's sample, and others.
use boost_beast_websocket_ec.Prelude.{◌≡◌, refl, none, some, [], ◌∷◌, ◌++◌, arith}
use boost_beast_websocket_ec.Prelude.Text.{codes}
use boost_beast_websocket_ec.MimeReader.Boundary.{deduce_boundary}
use boost_beast_websocket_ec.MimeReader.Boundary.Laws.{content_type, deduce_boundary-content_type}

capitals : deduce_boundary (codes "Multipart/X-Mixed-Replace ;Boundary=ab") ≡ some (codes "ab")
unfolding deduce_boundary
capitals = refl

no_type : deduce_boundary [] ≡ none
unfolding deduce_boundary
no_type = refl

no_token : deduce_boundary (codes "multipart/x-mixed-replace;boundary=") ≡ none
unfolding deduce_boundary
no_token = refl

deduce_boundary-content_type_example :
    (deduce_boundary (content_type [] (codes " ") (34 ∷ (codes "Frame" ++ (34 ∷ []))))
      ≡ some (codes "Frame"))
    × (deduce_boundary (content_type [] (codes " ") (codes "Frame")) ≡ some (codes "Frame"))
deduce_boundary-content_type_example =
    deduce_boundary-content_type [] (codes " ") (codes "Frame") (ground arith) (ground arith)
      (ground arith)
