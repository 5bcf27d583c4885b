-- ===== src/Feeds/Slices.antt =====
-- Beginnings and ends of lists, for the pages of internal/database/storage.
use feed_flow.Base.{
  List, [], ap, arith, false, length, ltb, refl, suc, take, zero, ℕ, ◌++◌, ◌<◌, ◌∷◌, ◌≡◌,
}
use feed_flow.Feeds.Reading.{drop}

module _ {ℓ} {A : Type ℓ} where
  pub ltb-length-take : (n : ℕ) (xs : List A) → ltb n (length (take (suc n) xs)) ≡ ltb n (length xs)
  ltb-length-take n [] = refl
  ltb-length-take zero (x ∷ xs) = ground arith
  ltb-length-take (suc n) (x ∷ xs) = ground (arith, ltb-length-take n xs)

  pub take-take : (n : ℕ) (xs : List A) → take n (take (suc n) xs) ≡ take n xs
  take-take zero xs = refl
  take-take (suc n) [] = refl
  take-take (suc n) (x ∷ xs) = ap (λ ys. x ∷ ys) (take-take n xs)

  pub take_all : (n : ℕ) (xs : List A) → ltb n (length xs) ≡ false → take (suc n) xs ≡ xs
  take_all n [] h = refl
  take_all zero (x ∷ xs) h = absurd (ground arith)
  take_all (suc n) (x ∷ xs) h = ap (λ ys. x ∷ ys) (take_all n xs (ground arith))

  pub take-append-drop : (n : ℕ) (xs : List A) → take n xs ++ drop n xs ≡ xs
  take-append-drop zero xs = refl
  take-append-drop (suc n) [] = refl
  take-append-drop (suc n) (x ∷ xs) = ap (λ ys. x ∷ ys) (take-append-drop n xs)

  pub length-drop-lt :
      (n : ℕ) (xs : List A) → 0 < n → n < length xs → length (drop n xs) < length xs
  length-drop-lt zero xs positive h = absurd (omega arith)
  length-drop-lt (suc n) [] positive h = absurd (omega arith)
  length-drop-lt (suc zero) (x ∷ xs) positive h = omega arith
  length-drop-lt (suc (suc n)) (x ∷ xs) positive h =
      omega (arith, length-drop-lt (suc n) xs (omega arith) (omega arith))
