-- ===== src/Bundles/Chunks.antt =====
-- The chunks of a streamed download.
use dadi_runtime.Base.{
  ℕ, zero, suc, ◌≤◌, List, [], ◌∷◌, ◌++◌, ◌≡◌, refl, ap, ◌∙◌, arith, All, length, take, drop,
  take-append-drop, length-take-le,
}
use dadi_runtime.Bundles.{iter_bytes}

abbrev pub concat_all : List (List ℕ) → List ℕ
concat_all [] = []
concat_all (c ∷ cs) = c ++ concat_all cs

drop-length-le : (n : ℕ) (xs : List ℕ) → length (drop n xs) ≤ length xs
drop-length-le zero xs = omega arith
drop-length-le (suc n) [] = omega arith
drop-length-le (suc n) (x ∷ xs) = omega (arith, drop-length-le n xs)

-- The chunks are the bytes in their order: no byte is lost, repeated or moved, and as many steps as
-- there are bytes are enough.
pub concat_all-iter_bytes :
    (fuel n : ℕ) (bytes : List ℕ)
    → 1 ≤ n
    → length bytes ≤ fuel
    → concat_all (iter_bytes fuel n bytes) ≡ bytes
unfolding iter_bytes
concat_all-iter_bytes zero n [] h k = refl
concat_all-iter_bytes zero n (b ∷ bs) h k = absurd (omega (arith, k))
concat_all-iter_bytes (suc fuel) n [] h k = refl
concat_all-iter_bytes (suc fuel) zero (b ∷ bs) h k = absurd (omega (arith, h))
concat_all-iter_bytes (suc fuel) (suc n) (b ∷ bs) h k =
    ap (λ q. b ∷ take n bs ++ q)
      (concat_all-iter_bytes fuel (suc n) (drop n bs) h (omega (arith, k, drop-length-le n bs)))
    ∙ ap (λ q. b ∷ q) (take-append-drop n bs)

-- No chunk is longer than the chunk size.
pub iter_bytes-bounded :
    (fuel n : ℕ) (bytes : List ℕ) → All (λ c. length c ≤ n) (iter_bytes fuel n bytes)
unfolding iter_bytes
iter_bytes-bounded zero n bytes = tt
iter_bytes-bounded (suc fuel) n [] = tt
iter_bytes-bounded (suc fuel) n (b ∷ bs) =
    (length-take-le n (b ∷ bs), iter_bytes-bounded fuel n (drop n (b ∷ bs)))
