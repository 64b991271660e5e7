-- ===== src/Loot/Bits.antt =====
-- The bits of a loot mask, one by one.
use Prim.Native.Nat.{min, max}
use rfx.Prelude.{
  ℕ, zero, suc, ◌-◌, ◌*◌, ◌/◌, ◌%◌, ◌^◌, ◌<◌, ◌≡◌, refl, sym, ap, ap₂, ◌∙◌, Bool, true, false, [],
  ◌∷◌, ◌==◌, not, ◌&&◌, ◌||◌, if◌then◌else◌, length, get_or, set, replicate, bit_and, bit_or, arith,
  All, holds_to_lem,
}
use rfx.Digits.{digit, digit-binary, digit-bit_or, digit-bit_and, mask_digit, digit-flip, shifted}
use rfx.Loot.{LootMask, mask_size, test, set_all, fill_byte, add_mask, sub_mask}

-- The array has its size, and holds bytes.
pub record IsMask (m : LootMask) : Type 0 where
  pub size : length m ≡ mask_size
  pub bytes : All (λ b. b < 256) m

-- Bit `k` of a byte from the left, as the code tests it.
pub test_byte : (k b : ℕ) → k < 8 → bit_and (0x80 / 2 ^ k) b ≡ digit (7 - k) b * 2 ^ (7 - k)
test_byte k b h = ap (λ x. bit_and x b) (shifted k h) ∙ mask_digit (7 - k) b

power-pos : (n : ℕ) → 0 < 2 ^ n
power-pos zero = omega arith
power-pos (suc n) = omega (arith, power-pos n)

pub nonzero : (d n : ℕ) → d < 2 → not (d * 2 ^ n == 0) ≡ (d == 1)
nonzero zero n h = ground arith
nonzero (suc zero) n h = let p = power-pos n in ground (arith, p)
nonzero (suc (suc d)) n h = absurd (omega arith)

-- What `test` finds.
pub test_lem :
    (m : LootMask) (i : ℕ) → i < 65536 → test m i ≡ (digit (7 - i % 8) (get_or m (i / 8) 0) == 1)
unfolding test
test_lem m i h =
    let e = test_byte (i % 8) (get_or m (i / 8) 0) (omega arith) in
    let b = digit-binary (7 - i % 8) (get_or m (i / 8) 0) in
    let z = nonzero (digit (7 - i % 8) (get_or m (i / 8) 0)) (7 - i % 8) b in
    let l : i / 8 < mask_size = omega (arith, h) in ground (arith, l) ∙ ap (λ x. not (x == 0)) e ∙ z

get_or-add_mask :
    (m n : LootMask) (k : ℕ)
    → length m ≡ length n
    → k < length m
    → get_or (add_mask m n) k 0 ≡ bit_or (get_or m k 0) (get_or n k 0)
unfolding add_mask
get_or-add_mask [] n k e h = absurd (omega arith)
get_or-add_mask (a ∷ m) [] k e h = absurd (omega arith)
get_or-add_mask (a ∷ m) (b ∷ n) zero e h = refl
get_or-add_mask (a ∷ m) (b ∷ n) (suc k) e h = get_or-add_mask m n k (omega arith) (omega arith)

get_or-sub_mask :
    (m n : LootMask) (k : ℕ)
    → length m ≡ length n
    → k < length m
    → get_or (sub_mask m n) k 0 ≡ bit_and (get_or m k 0) (255 - get_or n k 0)
unfolding sub_mask
get_or-sub_mask [] n k e h = absurd (omega arith)
get_or-sub_mask (a ∷ m) [] k e h = absurd (omega arith)
get_or-sub_mask (a ∷ m) (b ∷ n) zero e h = refl
get_or-sub_mask (a ∷ m) (b ∷ n) (suc k) e h = get_or-sub_mask m n k (omega arith) (omega arith)

pub get_or-byte : (m : LootMask) (k : ℕ) → All (λ b. b < 256) m → get_or m k 0 < 256
get_or-byte [] k a = omega arith
get_or-byte (b ∷ m) zero a = a.0
get_or-byte (b ∷ m) (suc k) a = get_or-byte m k a.1

pub test-add_mask :
    (m n : LootMask) (i : ℕ)
    → IsMask m
    → IsMask n
    → i < 65536
    → test (add_mask m n) i ≡ (test m i || test n i)
test-add_mask m n i v w h =
    let a = get_or m (i / 8) 0 in
    let b = get_or n (i / 8) 0 in
    let j = 7 - i % 8 in
    let p = digit-binary j a in
    let q = digit-binary j b in
    let e : (max (digit j a) (digit j b) == 1) ≡ ((digit j a == 1) || (digit j b == 1)) =
      ground arith in
    test_lem (add_mask m n) i h
    ∙ ap (λ x. digit j x == 1)
        (get_or-add_mask m n (i / 8) (v.size ∙ sym w.size) (omega (arith, v.size)))
    ∙ ap (λ x. x == 1) (digit-bit_or j a b)
    ∙ e
    ∙ ap₂ ◌||◌ (sym (test_lem m i h)) (sym (test_lem n i h))

pub test-sub_mask :
    (m n : LootMask) (i : ℕ)
    → IsMask m
    → IsMask n
    → i < 65536
    → test (sub_mask m n) i ≡ (test m i && not (test n i))
test-sub_mask m n i v w h =
    let a = get_or m (i / 8) 0 in
    let b = get_or n (i / 8) 0 in
    let j = 7 - i % 8 in
    let p = digit-binary j a in
    let q = digit-binary j b in
    let e : (min (digit j a) (1 - digit j b) == 1) ≡ ((digit j a == 1) && not (digit j b == 1)) =
      ground arith in
    test_lem (sub_mask m n) i h
    ∙ ap (λ x. digit j x == 1)
        (get_or-sub_mask m n (i / 8) (v.size ∙ sym w.size) (omega (arith, v.size)))
    ∙ ap (λ x. x == 1)
        (digit-bit_and j a (255 - b)
          ∙ ap (min (digit j a)) (digit-flip j b (omega arith) (get_or-byte n (i / 8) w.bytes)))
    ∙ e
    ∙ ap₂ (λ x y. x && not y) (sym (test_lem m i h)) (sym (test_lem n i h))

get_or-replicate : (n k v : ℕ) → k < n → get_or (replicate n v) k 0 ≡ v
get_or-replicate zero k v h = absurd (omega arith)
get_or-replicate (suc n) zero v h = refl
get_or-replicate (suc n) (suc k) v h = get_or-replicate n k v (omega arith)

all_ones : (j : ℕ) (f : Bool) → j < 8 → (digit j (fill_byte f) == 1) ≡ f
all_ones j false h = ap (λ x. x == 1) (zeros j)
  where
    zeros : (j : ℕ) → digit j 0 ≡ 0
    zeros zero = refl
    zeros (suc j) = zeros j
all_ones j true h = holds_to_lem (λ k. digit k 0xff == 1) 8 j h refl

pub test-set_all : (f : Bool) (i : ℕ) → i < 65536 → test (set_all f) i ≡ f
unfolding set_all
test-set_all f i h =
    test_lem (replicate mask_size (fill_byte f)) i h
    ∙ ap (λ x. digit (7 - i % 8) x == 1)
        (get_or-replicate mask_size (i / 8) (fill_byte f) (omega (arith, h)))
    ∙ all_ones (7 - i % 8) f (omega arith)

pub get_or-set :
    (m : LootMask) (k l v : ℕ)
    → k < length m
    → get_or (set m k v) l 0 ≡ (if k == l then v else get_or m l 0)
get_or-set [] k l v h = absurd (omega arith)
get_or-set (b ∷ m) zero zero v h = refl
get_or-set (b ∷ m) zero (suc l) v h = ground arith
get_or-set (b ∷ m) (suc k) zero v h = ground arith
get_or-set (b ∷ m) (suc k) (suc l) v h =
    let e = get_or-set m k l v (omega arith) in
    e ∙ ap (λ c. if c then v else get_or m l 0) (ground arith)
