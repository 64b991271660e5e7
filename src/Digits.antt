-- ===== src/Digits.antt =====
-- The binary digits of `|`, `&` and `~` on bytes, for the masks of rfx_loot.cpp.
use Prim.Native.Nat.{digits, bitwise, bit_or-bitwise, bit_and-bitwise, min, max}
use rfx.Prelude.{
  ℕ, zero, suc, ◌+◌, ◌-◌, ◌*◌, ◌/◌, ◌%◌, ◌^◌, ◌<◌, ◌≤◌, ◌≡◌, refl, sym, ap, ap₂, ◌∙◌, Bool, true,
  ◌==◌, ==_iff, bit_and, bit_or, arith, holds_to, holds_to_lem,
}

-- Digit `j`, from the right.
abbrev pub digit : ℕ → ℕ → ℕ
digit zero n = n % 2
digit (suc j) n = digit j (n / 2)

pub digit-binary : (j n : ℕ) → digit j n < 2
digit-binary zero n = omega arith
digit-binary (suc j) n = digit-binary j (n / 2)

module _ (z : ℕ → ℕ) (f : ℕ → ℕ → ℕ) (z_step : (b : ℕ) → z b ≡ z (b / 2) * 2 + f 0 (b % 2)) where
  enough : (k l a b : ℕ) → a ≤ k → a ≤ l → digits z f k a b ≡ digits z f l a b
  enough k l zero b p q = start k ∙ sym (start l)
    where
      start : (k : ℕ) → digits z f k zero b ≡ z b
      start zero = refl
      start (suc k) = refl
  enough zero l (suc a) b p q = absurd (omega arith)
  enough (suc k) zero (suc a) b p q = absurd (omega arith)
  enough (suc k) (suc l) (suc a) b p q =
      ap (λ x. x * 2 + f (suc a % 2) (b % 2))
        (enough k l (suc a / 2) (b / 2) (omega arith) (omega arith))

  halves : (a b : ℕ) → bitwise z f a b ≡ bitwise z f (a / 2) (b / 2) * 2 + f (a % 2) (b % 2)
  halves zero b = z_step b
  halves (suc a) b =
      ap (λ x. x * 2 + f (suc a % 2) (b % 2))
        (enough a (suc a / 2) (suc a / 2) (b / 2) (omega arith) (omega arith))

  digit-bitwise :
      ((x y : ℕ) → x < 2 → y < 2 → f x y < 2)
      → (j a b : ℕ) → digit j (bitwise z f a b) ≡ f (digit j a) (digit j b)
  digit-bitwise small zero a b =
      let s = small (a % 2) (b % 2) (omega arith) (omega arith) in
      let h = halves a b in omega (arith, s, h)
  digit-bitwise small (suc j) a b =
      let s = small (a % 2) (b % 2) (omega arith) (omega arith) in
      let h = halves a b in
      ap (digit j) (omega (arith, s, h)) ∙ digit-bitwise small j (a / 2) (b / 2)

pub digit-bit_or : (j a b : ℕ) → digit j (bit_or a b) ≡ max (digit j a) (digit j b)
digit-bit_or j a b =
    ap (digit j) (bit_or-bitwise a b)
    ∙ digit-bitwise (λ b. b) max (λ b. omega arith) (λ x y p q. omega arith) j a b

pub digit-bit_and : (j a b : ℕ) → digit j (bit_and a b) ≡ min (digit j a) (digit j b)
digit-bit_and j a b =
    ap (digit j) (bit_and-bitwise a b)
    ∙ digit-bitwise (λ b. 0) min (λ b. omega arith) (λ x y p q. omega arith) j a b

and_halves : (a b : ℕ) → bit_and a b ≡ bit_and (a / 2) (b / 2) * 2 + min (a % 2) (b % 2)
and_halves a b =
    bit_and-bitwise a b
    ∙ halves (λ b. 0) min (λ b. omega arith) a b
    ∙ ap (λ x. x * 2 + min (a % 2) (b % 2)) (sym (bit_and-bitwise (a / 2) (b / 2)))

or_halves : (a b : ℕ) → bit_or a b ≡ bit_or (a / 2) (b / 2) * 2 + max (a % 2) (b % 2)
or_halves a b =
    bit_or-bitwise a b
    ∙ halves (λ b. b) max (λ b. omega arith) a b
    ∙ ap (λ x. x * 2 + max (a % 2) (b % 2)) (sym (bit_or-bitwise (a / 2) (b / 2)))

bit_or-zero : (n x : ℕ) → x < 2 ^ n → bit_or x 0 ≡ x
bit_or-zero zero x h = let z : x ≡ 0 = omega arith in ap (λ y. bit_or y 0) z ∙ sym z
bit_or-zero (suc n) x h = omega (arith, or_halves x 0, bit_or-zero n (x / 2) (omega arith))

-- Digits below those that are there are added.
pub bit_or-disjoint : (k n x d : ℕ) → x < 2 ^ n → d < 2 ^ k → bit_or (x * 2 ^ k) d ≡ x * 2 ^ k + d
bit_or-disjoint zero n x d h low =
    let z : d ≡ 0 = omega arith in
    let one : x * 2 ^ 0 ≡ x = omega arith in ap₂ bit_or one z ∙ bit_or-zero n x h ∙ omega (arith, z)
bit_or-disjoint (suc k) n x d h low =
    let pow : 2 ^ suc k ≡ 2 ^ k * 2 = omega arith in
    let p : x * 2 ^ suc k ≡ x * 2 ^ k * 2 = ap (λ y. x * y) pow ∙ twice x (2 ^ k) in
    let r = bit_or-disjoint k n x (d / 2) h (omega arith) in
    let q : (x * 2 ^ k * 2) / 2 ≡ x * 2 ^ k = omega arith in
    ap (λ y. bit_or y d) p
    ∙ or_halves (x * 2 ^ k * 2) d
    ∙ ap (λ y. bit_or y (d / 2) * 2 + max (x * 2 ^ k * 2 % 2) (d % 2)) q
    ∙ omega (arith, r, p)
  where
    twice : (x m : ℕ) → x * (m * 2) ≡ x * m * 2
    twice x m = grind arith

-- `2 ^ j & b` is the digit in its place.
pub mask_digit : (j b : ℕ) → bit_and (2 ^ j) b ≡ digit j b * 2 ^ j
mask_digit zero b = omega (arith, and_halves 1 b, bit_and-bitwise 0 (b / 2))
mask_digit (suc j) b =
    let p : 2 ^ suc j ≡ 2 ^ j * 2 = omega arith in
    let h = and_halves (2 ^ j * 2) b in
    let q : (2 ^ j * 2) / 2 ≡ 2 ^ j = omega arith in
    let i = ap (λ x. bit_and x (b / 2)) q ∙ mask_digit j (b / 2) in
    let z : min (2 ^ j * 2 % 2) (b % 2) ≡ 0 = omega arith in
    ap (λ x. bit_and x b) p
    ∙ h
    ∙ ap₂ (λ x y. x * 2 + y) i z
    ∙ doubled (digit j (b / 2)) (2 ^ j)
    ∙ ap (λ x. digit j (b / 2) * x) (sym p)
  where
    doubled : (d m : ℕ) → d * m * 2 + 0 ≡ d * (m * 2)
    doubled d m = grind arith

-- The bytes stay bytes.
pub bit_or-bound : (n a b : ℕ) → a < 2 ^ n → b < 2 ^ n → bit_or a b < 2 ^ n
bit_or-bound zero a b p q =
    omega (arith, or_halves a b, bit_or-bitwise 0 0, ap₂ bit_or (a0 a p) (a0 b q))
  where
    a0 : (a : ℕ) → a < 1 → a ≡ 0
    a0 a h = omega arith
bit_or-bound (suc n) a b p q =
    omega (arith, or_halves a b, bit_or-bound n (a / 2) (b / 2) (omega arith) (omega arith))

pub bit_and-bound : (n a b : ℕ) → a < 2 ^ n → bit_and a b < 2 ^ n
bit_and-bound zero a b p =
    let z : a ≡ 0 = omega arith in omega (arith, bit_and-bitwise 0 b, ap (λ x. bit_and x b) z)
bit_and-bound (suc n) a b p =
    omega (arith, and_halves a b, bit_and-bound n (a / 2) (b / 2) (omega arith))

-- `~b` on bytes.
flips : ℕ → ℕ → Bool
flips b j = digit j (255 - b) == 1 - digit j b

table : holds_to (λ b. holds_to (flips b) 8) 256 ≡ true
unfolding flips
table = refl

pub digit-flip : (j b : ℕ) → j < 8 → b < 256 → digit j (255 - b) ≡ 1 - digit j b
unfolding flips
digit-flip j b p q =
    (==_iff _ _).0
      (holds_to_lem (flips b) 8 j p (holds_to_lem (λ x. holds_to (flips x) 8) 256 b q table))

-- The masks `0x80 >> k`.
rights : ℕ → Bool
rights k = 0x80 / 2 ^ k == 2 ^ (7 - k)

pub shifted : (k : ℕ) → k < 8 → 0x80 / 2 ^ k ≡ 2 ^ (7 - k)
unfolding rights
shifted k p = (==_iff _ _).0 (holds_to_lem rights 8 k p refl)
