-- ===== src/SendQueue/Window.antt =====
-- The array `svbuf` as the entries in use see it.
use rfx.Prelude.{
  ℕ, zero, suc, ◌+◌, ◌<◌, ◌≡◌, some, List, [], ◌∷◌, ◌++◌, arith, length, get_elem?, set, take, drop,
}

module _ {ℓ} {A : Type ℓ} where
  -- A place in range holds the first element from there on.
  pub get_elem?-drop :
      (xs : List A) (i n : ℕ) (v : A) (vs : List A)
      → take (suc n) (drop i xs) ≡ v ∷ vs
      → (get_elem? xs i ≡ some v) × (take n (drop (i + 1) xs) ≡ vs)
  get_elem?-drop [] zero n v vs e = ground arith
  get_elem?-drop [] (suc i) n v vs e = ground arith
  get_elem?-drop (x ∷ xs) zero n v vs e = ground arith
  get_elem?-drop (x ∷ xs) (suc i) n v vs e = ground (arith, get_elem?-drop xs i n v vs e)

  -- A write at the first place in use shows as a new first entry.
  pub take-set_first :
      (xs : List A) (i n : ℕ) (v w : A) (vs : List A)
      → take (suc n) (drop i xs) ≡ v ∷ vs
      → take (suc n) (drop i (set xs i w)) ≡ w ∷ vs
  take-set_first [] zero n v w vs e = ground arith
  take-set_first [] (suc i) n v w vs e = ground arith
  take-set_first (x ∷ xs) zero n v w vs e = ground arith
  take-set_first (x ∷ xs) (suc i) n v w vs e = take-set_first xs i n v w vs e

  -- A write just past the places in use shows as a new last entry.
  pub take-set_last :
      (xs : List A) (n : ℕ) (w : A)
      → n < length xs
      → take (n + 1) (set xs n w) ≡ take n xs ++ w ∷ []
  take-set_last [] n w h = absurd (omega arith)
  take-set_last (x ∷ xs) zero w h = ground arith
  take-set_last (x ∷ xs) (suc n) w h = ground (arith, take-set_last xs n w (omega arith))
