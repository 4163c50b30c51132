-- ===== src/MimeReader/Scan/Reads.antt =====
-- What a read of the body leaves in the store.
use boost_beast_websocket_ec.Prelude.{
  ℕ, zero, suc, ◌+◌, ◌-◌, ◌*◌, ◌≤◌, ◌≡◌, refl, ap, ◌∙◌, [], ◌∷◌, ◌++◌, length, length-append, take,
  arith,
}
use boost_beast_websocket_ec.Prelude.Text.{Text}
use boost_beast_websocket_ec.MimeReader.Scan.{zeros, after_read}
use boost_beast_websocket_ec.MimeReader.Scan.Laws.{length-zeros}

pub take-append_more :
    (k n : ℕ) (xs ys : Text) → k ≡ length xs + n → take k (xs ++ ys) ≡ xs ++ take n ys
take-append_more k n [] ys h = ap (λ i. take i ys) (omega arith)
take-append_more zero n (x ∷ xs) ys h = absurd (omega arith)
take-append_more (suc k) n (x ∷ xs) ys h = ap (x ∷◌) (take-append_more k n xs ys (omega arith))

pub take-append_less : (n : ℕ) (xs ys : Text) → n ≤ length xs → take n (xs ++ ys) ≡ take n xs
take-append_less zero xs ys h = refl
take-append_less (suc n) [] ys h = absurd (omega arith)
take-append_less (suc n) (x ∷ xs) ys h = ap (◌∷◌ x) (take-append_less n xs ys (omega arith))

take-zeros : (n k : ℕ) → n ≤ k → take n (zeros k) ≡ zeros n
take-zeros zero k h = refl
take-zeros (suc n) zero h = absurd (omega arith)
take-zeros (suc n) (suc k) h = ap (◌∷◌ 0) (take-zeros n k (omega arith))

-- The store after a read, as a cut of the octets delivered and the zeros behind them.
pub after_read-take :
    (bytes store : Text)
    → length bytes ≤ 512
    → after_read bytes store
      ≡ store ++ take (512 - length bytes) (bytes ++ zeros (512 - length bytes))
unfolding after_read
after_read-take bytes store h =
    let k = 512 - length bytes in
    let all = bytes ++ zeros k in
    take-append_more (length (store ++ all) - (512 - k)) k store all
      (omega (arith, length-append store all, length-append bytes (zeros k), length-zeros k))

-- After a read of at most 512 octets: if they are at most 256, they stand behind what the store held,
-- followed by two zeros for each octet that is missing of 256; if they are 256 or more, only as many of
-- them are kept as there was room left for in the 512.
pub after_read_bounds :
    (bytes store : Text)
    → length bytes ≤ 512
    → (length bytes ≤ 256
        → after_read bytes store ≡ store ++ (bytes ++ zeros (512 - 2 * length bytes)))
      × (256 ≤ length bytes → after_read bytes store ≡ store ++ take (512 - length bytes) bytes)
after_read_bounds bytes store h =
    let k = 512 - length bytes in
    (
      λ few.
          after_read-take bytes store h
          ∙ ap (store ++◌) (
              take-append_more k (k - length bytes) bytes (zeros k) (omega arith)
              ∙ ap (bytes ++◌)
                  (take-zeros (k - length bytes) k (omega arith) ∙ ap zeros (omega arith))),
      λ many.
          after_read-take bytes store h
          ∙ ap (store ++◌) (take-append_less k bytes (zeros k) (omega arith)),
    )
