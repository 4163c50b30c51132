-- ===== src/EchoServer/Server/Hasher.antt =====
-- endpoint_hasher of pre-cxx20/echo_server/server.hpp, which chatterbox/connection_pool.hpp and
-- cxx20/server.hpp repeat. boost::hash_combine and the functions of net::ip::address are arguments; an
-- address is its printed text.
use boost_beast_websocket_ec.Prelude.{
  ℕ, ◌%◌, ◌≡◌, refl, ap, Bool, Bool-cases, inl, inr, List, [], ◌∷◌, if◌then◌else◌, ◌==◌, ==_iff,
  arith,
}
use boost_beast_websocket_ec.Prelude.Text.{Text}
use boost_beast_websocket_ec.Prelude.Endpoint.{Endpoint, same_endpoint, same_endpoint_iff}
use boost_beast_websocket_ec.Prelude.Table.{Table, lookup}

-- hash_combine at the types it is called with, and the functions of an address
pub record Hashing : Type 0 where
  pub combine_number : ℕ → ℕ → ℕ
  pub combine_bytes : ℕ → List ℕ → ℕ
  pub combine_text : ℕ → Text → ℕ
  pub is_v4 : Text → Bool
  pub is_v6 : Text → Bool
  pub is_unspecified : Text → Bool
  pub to_v4_bytes : Text → List ℕ
  pub to_v6_bytes : Text → List ℕ

unfoldable pub combine : Hashing → ℕ → Text → ℕ
combine h seed v =
    if h.is_v4 v
    then h.combine_bytes seed (h.to_v4_bytes v)
    else if h.is_v6 v
    then h.combine_bytes seed (h.to_v6_bytes v)
    else if h.is_unspecified v
    then h.combine_number seed 5138941501328658785
    else h.combine_text seed v

-- endpoint_hasher::operator()
unfoldable pub hash : Hashing → Endpoint → ℕ
unfolding combine
hash h ep = combine h (h.combine_number 0 ep.port) ep.address

-- The entries of one bucket of `n`.
pub bucket : Hashing → ℕ → ℕ → Table → Table
unfolding hash
bucket h n k [] = []
bucket h n k ((ep, p) ∷ t) =
    let rest = bucket h n k t in if (hash h ep % n) == k then (ep, p) ∷ rest else rest

-- To look an endpoint up in its bucket is to look it up in the table.
pub lookup-bucket :
    (h : Hashing) (n : ℕ) (ep : Endpoint) (t : Table)
    → lookup ep (bucket h n (hash h ep % n) t) ≡ lookup ep t
unfolding lookup bucket
lookup-bucket h n ep [] = refl
lookup-bucket h n ep ((j, p) ∷ t) =
    let rest = lookup-bucket h n ep t in
    elim (Bool-cases (same_endpoint j ep)) [
      | inl e ↦
          let same : hash h j % n ≡ hash h ep % n =
            ap (λ i. hash h i % n) ((same_endpoint_iff j ep).0 e) in
          ground (arith, ==_iff (hash h j % n) (hash h ep % n))
      | inr e ↦ ground (arith, Bool-cases ((hash h j % n) == (hash h ep % n)))
    ]
