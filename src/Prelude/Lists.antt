-- ===== src/Prelude/Lists.antt =====
-- Lists measured and indexed by native numbers, under the library's names.
use Prim.Native.Nat.{ℕ, zero, suc, ◌+◌, ◌-◌, ◌≤◌, min}
use mathlib.Core.Path.{◌≡◌, refl, sym, ap, ◌∙◌}
use mathlib.Core.Logic.{◌≢◌}
use mathlib.Core.List.{List, [], ◌∷◌, ◌++◌}
use mathlib.Core.Option.{Option, none, some}
use native.Mathlib.Omega.{arith}
use rfx.Prelude.Tests.{leb, if◌then◌else◌}

module _ {ℓ} {A : Type ℓ} where
  abbrev pub length : List A → ℕ
  length [] = 0
  length (x ∷ xs) = suc (length xs)

  abbrev pub get_elem? : List A → ℕ → Option A
  get_elem? [] i = none
  get_elem? (x ∷ xs) zero = some x
  get_elem? (x ∷ xs) (suc i) = get_elem? xs i

  abbrev pub get_or : List A → ℕ → A → A
  get_or [] i d = d
  get_or (x ∷ xs) zero d = x
  get_or (x ∷ xs) (suc i) d = get_or xs i d

  -- A write out of bounds changes nothing.
  abbrev pub set : List A → ℕ → A → List A
  set [] i v = []
  set (x ∷ xs) zero v = v ∷ xs
  set (x ∷ xs) (suc i) v = x ∷ set xs i v

  abbrev pub take : ℕ → List A → List A
  take zero xs = []
  take (suc n) [] = []
  take (suc n) (x ∷ xs) = x ∷ take n xs

  abbrev pub drop : ℕ → List A → List A
  drop zero xs = xs
  drop (suc n) [] = []
  drop (suc n) (x ∷ xs) = drop n xs

  -- The element at a place, and the others.
  abbrev pub take_nth : ℕ → List A → Option (A × List A)
  take_nth i [] = none
  take_nth zero (x ∷ xs) = some (x, xs)
  take_nth (suc i) (x ∷ xs) = elim (take_nth i xs) [ none ↦ none | some (y, ys) ↦ some (y, x ∷ ys) ]

  abbrev pub replicate : ℕ → A → List A
  replicate zero a = []
  replicate (suc n) a = a ∷ replicate n a

  abbrev pub All {κ} : (A → Type κ) → List A → Type κ
  All P [] = Unit
  All P (x ∷ xs) = P x × All P xs

  -- No two entries are the same.
  abbrev pub Distinct : List A → Type ℓ
  Distinct [] = Unit
  Distinct (x ∷ xs) = All (λ y. y ≢ x) xs × Distinct xs

module _ {ℓ} {A : Type ℓ} where
  pub length-append : (xs ys : List A) → length (xs ++ ys) ≡ length xs + length ys
  length-append [] ys = omega arith
  length-append (x ∷ xs) ys = omega (arith, length-append xs ys)

  pub length-set : (xs : List A) (i : ℕ) (v : A) → length (set xs i v) ≡ length xs
  length-set [] i v = refl
  length-set (x ∷ xs) zero v = refl
  length-set (x ∷ xs) (suc i) v = ap suc (length-set xs i v)

  pub take-append-drop : (n : ℕ) (xs : List A) → take n xs ++ drop n xs ≡ xs
  take-append-drop zero xs = refl
  take-append-drop (suc n) [] = refl
  take-append-drop (suc n) (x ∷ xs) = ap (λ r. x ∷ r) (take-append-drop n xs)

  pub length-take : (n : ℕ) (xs : List A) → length (take n xs) ≡ min n (length xs)
  length-take zero xs = omega arith
  length-take (suc n) [] = omega arith
  length-take (suc n) (x ∷ xs) = omega (arith, length-take n xs)

  pub length-drop : (n : ℕ) (xs : List A) → length (drop n xs) ≡ length xs - n
  length-drop zero xs = omega arith
  length-drop (suc n) [] = omega arith
  length-drop (suc n) (x ∷ xs) = omega (arith, length-drop n xs)

  pub length-replicate : (n : ℕ) (a : A) → length (replicate n a) ≡ n
  length-replicate zero a = refl
  length-replicate (suc n) a = ap suc (length-replicate n a)

  pub take-all : (n : ℕ) (xs : List A) → length xs ≤ n → take n xs ≡ xs
  take-all zero [] h = refl
  take-all zero (x ∷ xs) h = absurd (omega arith)
  take-all (suc n) [] h = refl
  take-all (suc n) (x ∷ xs) h = ap (λ r. x ∷ r) (take-all n xs (omega arith))

  pub drop-all : (n : ℕ) (xs : List A) → length xs ≤ n → drop n xs ≡ []
  drop-all zero [] h = refl
  drop-all zero (x ∷ xs) h = absurd (omega arith)
  drop-all (suc n) [] h = refl
  drop-all (suc n) (x ∷ xs) h = drop-all n xs (omega arith)

  pub take-append-short : (n : ℕ) (xs ys : List A) → n ≤ length xs → take n (xs ++ ys) ≡ take n xs
  take-append-short zero xs ys h = refl
  take-append-short (suc n) [] ys h = absurd (omega arith)
  take-append-short (suc n) (x ∷ xs) ys h =
      ap (λ r. x ∷ r) (take-append-short n xs ys (omega arith))

  pub drop-append-short :
      (n : ℕ) (xs ys : List A) → n ≤ length xs → drop n (xs ++ ys) ≡ drop n xs ++ ys
  drop-append-short zero xs ys h = refl
  drop-append-short (suc n) [] ys h = absurd (omega arith)
  drop-append-short (suc n) (x ∷ xs) ys h = drop-append-short n xs ys (omega arith)

  pub take-append_long :
      (n m : ℕ) (xs ys : List A) → n ≡ length xs + m → take n (xs ++ ys) ≡ xs ++ take m ys
  take-append_long n m [] ys e = ap (λ k. take k ys) (omega arith)
  take-append_long zero m (x ∷ xs) ys e = absurd (omega arith)
  take-append_long (suc n) m (x ∷ xs) ys e =
      ap (λ r. x ∷ r) (take-append_long n m xs ys (omega arith))

  pub drop-nil : (n : ℕ) → drop {A = A} n [] ≡ []
  drop-nil zero = refl
  drop-nil (suc n) = refl

  pub drop-drop : (i j : ℕ) (xs : List A) → drop j (drop i xs) ≡ drop (i + j) xs
  drop-drop zero j xs = ap (λ k. drop k xs) (omega arith)
  drop-drop (suc i) j [] = drop-nil j ∙ sym (drop-nil (suc i + j))
  drop-drop (suc i) j (x ∷ xs) =
      let e : suc (i + j) ≡ suc i + j = omega arith in
      drop-drop i j xs ∙ ap (λ k. drop k (x ∷ xs)) e

  pub drop-append_length : (xs ys : List A) → drop (length xs) (xs ++ ys) ≡ ys
  drop-append_length [] ys = refl
  drop-append_length (x ∷ xs) ys = drop-append_length xs ys

  pub take-append_length : (xs ys : List A) → take (length xs) (xs ++ ys) ≡ xs
  take-append_length [] ys = refl
  take-append_length (x ∷ xs) ys = ap (λ r. x ∷ r) (take-append_length xs ys)

  pub All-append {κ} : (P : A → Type κ) (xs ys : List A) → All P xs → All P ys → All P (xs ++ ys)
  All-append P [] ys h k = k
  All-append P (x ∷ xs) ys h k = (h.0, All-append P xs ys h.1 k)

  pub All-left {κ} : (P : A → Type κ) (xs ys : List A) → All P (xs ++ ys) → All P xs
  All-left P [] ys a = tt
  All-left P (x ∷ xs) ys a = (a.0, All-left P xs ys a.1)

  pub All-take {κ} : (P : A → Type κ) (n : ℕ) (xs : List A) → All P xs → All P (take n xs)
  All-take P zero xs a = tt
  All-take P (suc n) [] a = tt
  All-take P (suc n) (x ∷ xs) a = (a.0, All-take P n xs a.1)

  pub All-drop {κ} : (P : A → Type κ) (n : ℕ) (xs : List A) → All P xs → All P (drop n xs)
  All-drop P zero xs a = a
  All-drop P (suc n) [] a = tt
  All-drop P (suc n) (x ∷ xs) a = All-drop P n xs a.1

  pub All-weaken {κ μ} :
      (P : A → Type κ) (Q : A → Type μ)
      → ((a : A) → P a → Q a)
      → (xs : List A) → All P xs
      → All Q xs
  All-weaken P Q f [] h = tt
  All-weaken P Q f (x ∷ xs) h = (f x h.0, All-weaken P Q f xs h.1)

  -- Entries that differ from each of another list, seen from the other list.
  pub All-flip :
      (xs ys : List A) → All (λ y. All (λ x. x ≢ y) xs) ys → All (λ x. All (λ y. y ≢ x) ys) xs
  All-flip [] ys a = tt
  All-flip (x ∷ xs) ys a = (
    All-weaken (λ y. All (λ z. z ≢ y) (x ∷ xs)) (λ y. y ≢ x) (λ y h e. h.0 (sym e)) ys a,
    All-flip xs ys (All-weaken (λ y. All (λ z. z ≢ y) (x ∷ xs)) _ (λ y h. h.1) ys a),
  )

  pub Distinct-append :
      (xs ys : List A)
      → Distinct xs
      → Distinct ys
      → All (λ x. All (λ y. y ≢ x) ys) xs
      → Distinct (xs ++ ys)
  Distinct-append [] ys d e a = e
  Distinct-append (x ∷ xs) ys d e a =
      (All-append (λ y. y ≢ x) xs ys d.0 a.0, Distinct-append xs ys d.1 e a.1)

  -- A new last entry, unlike all others.
  pub Distinct-snoc :
      (xs : List A) (y : A) → Distinct xs → All (λ x. x ≢ y) xs → Distinct (xs ++ y ∷ [])
  Distinct-snoc [] y d h = (tt, tt)
  Distinct-snoc (x ∷ xs) y d h =
      (All-append (λ z. z ≢ x) xs (y ∷ []) d.0 ((λ e. h.0 (sym e)), tt), Distinct-snoc xs y d.1 h.1)

  -- A copy of `vs` into `xs` from place `i` on, as memcpy makes it; `none` where it would leave `xs`.
  abbrev pub write_at : List A → ℕ → List A → Option (List A)
  write_at xs i vs =
      if leb (i + length vs) (length xs)
      then some (take i xs ++ (vs ++ drop (i + length vs) xs))
      else none

  -- A copy that fits succeeds.
  pub write_at_fits :
      (xs : List A) (i : ℕ) (vs : List A)
      → i + length vs ≤ length xs
      → write_at xs i vs ≡ some (take i xs ++ (vs ++ drop (i + length vs) xs))
  write_at_fits xs i vs h = ground arith
