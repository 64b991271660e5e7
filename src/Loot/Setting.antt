-- ===== src/Loot/Setting.antt =====
-- `loot_mask::set` on one bit, and the masks that the operations leave.
use Prim.Native.Nat.{min, max}
use rfx.Prelude.{
  ℕ, ◌-◌, ◌/◌, ◌%◌, ◌^◌, ◌<◌, ◌≡◌, refl, sym, ap, ◌∙◌, Bool, true, false, ◌==◌, ==_iff, ltb,
  if◌then◌else◌, get_or, set, arith, ◌≢◌, holds_to, holds_to_lem, Bool-cases, inl, inr,
}
use rfx.Digits.{digit, digit-binary, digit-bit_or, digit-bit_and, digit-flip}
use rfx.Loot.{LootMask, mask_size, test, set_bit, put_bit, bit_of}
use rfx.Loot.Bits.{IsMask, test_lem, get_or-set}

-- The digits of `0x80 >> k`.
one_digit : ℕ → ℕ → Bool
one_digit k l = digit (7 - l) (0x80 / 2 ^ k) == (if k == l then 1 else 0)

digit-bit_of : (k l : ℕ) → k < 8 → l < 8 → digit (7 - l) (0x80 / 2 ^ k) ≡ (if k == l then 1 else 0)
unfolding one_digit
digit-bit_of k l p q =
    (==_iff _ _).0
      (holds_to_lem (one_digit k) 8 l q (holds_to_lem (λ x. holds_to (one_digit x) 8) 8 k p refl))

small : ℕ → Bool
small x = ltb (0x80 / 2 ^ x) 256

pub bit_of-byte : (k : ℕ) → k < 8 → 0x80 / 2 ^ k < 256
unfolding small
bit_of-byte k h = let t = holds_to_lem small 8 k h refl in ground (arith, t)

digit-put_bit :
    (f : Bool) (b k l : ℕ)
    → k < 8
    → l < 8
    → (digit (7 - l) (put_bit f b (0x80 / 2 ^ k)) == 1)
      ≡ (if k == l then f else digit (7 - l) b == 1)
digit-put_bit true b k l p q =
    let d = digit-binary (7 - l) b in
    ap (λ x. x == 1)
      (digit-bit_or (7 - l) b (0x80 / 2 ^ k) ∙ ap (max (digit (7 - l) b)) (digit-bit_of k l p q))
    ∙ ground arith
digit-put_bit false b k l p q =
    let d = digit-binary (7 - l) b in
    ap (λ x. x == 1)
      (digit-bit_and (7 - l) b (255 - 0x80 / 2 ^ k)
        ∙ ap (min (digit (7 - l) b)) (
            digit-flip (7 - l) (0x80 / 2 ^ k) (omega arith) (bit_of-byte k p)
            ∙ ap (λ x. 1 - x) (digit-bit_of k l p q)))
    ∙ ground arith

-- After bit `i` below 65536 of a loot mask is set to `f`, bit `j` below 65536 tests as `f` if
-- `j` is `i`, and as before otherwise.
pub test-set_bit :
    (m : LootMask) (i j : ℕ) (f : Bool)
    → IsMask m
    → i < 65536
    → j < 65536
    → test (set_bit m i f).1 j ≡ (if i == j then f else test m j)
unfolding set_bit
test-set_bit m i j f v h k =
    let n = put_bit f (get_or m (i / 8) 0) (bit_of i) in
    let e = get_or-set m (i / 8) (j / 8) n (omega (arith, v.size)) in
    let l : i / 8 < mask_size = omega (arith, h) in
    let run : (set_bit m i f).1 ≡ set m (i / 8) n = ground (arith, l) in
    ap (λ x. test x j) run
    ∙ test_lem (set m (i / 8) n) j k
    ∙ ap (λ x. digit (7 - j % 8) x == 1) e
    ∙ elim (Bool-cases (i / 8 == j / 8)) [
      | inl same ↦
          ap (λ c. digit (7 - j % 8) (if c then n else get_or m (j / 8) 0) == 1) same
          ∙ digit-put_bit f (get_or m (i / 8) 0) (i % 8) (j % 8) (omega arith) (omega arith)
          ∙ ap (λ c. if c then f else digit (7 - j % 8) (get_or m (i / 8) 0) == 1) (same_bit same)
          ∙ ap (λ x. if i == j then f else digit (7 - j % 8) (get_or m x 0) == 1) (ground arith)
          ∙ ap (λ (x : Bool). if i == j then f else x) (sym (test_lem m j k))
      | inr other ↦
          ap (λ c. digit (7 - j % 8) (if c then n else get_or m (j / 8) 0) == 1) other
          ∙ sym (test_lem m j k)
          ∙ ap (λ c. if c then f else test m j) (sym (other_bit other))
    ]
  where
    same_bit : (i / 8 == j / 8) ≡ true → (i % 8 == j % 8) ≡ (i == j)
    same_bit e = elim (Bool-cases (i == j)) [
      | inl y ↦ (let z : i ≡ j = ground arith in let u = ap (λ x. x % 8) z in ground (arith, u))
      | inr y ↦
          let z : i ≢ j = ground arith in
          let u : i / 8 ≡ j / 8 = ground arith in
          let w : i % 8 ≢ j % 8 = λ q. z (omega (arith, q, u)) in ground (arith, w)
    ]

    other_bit : (i / 8 == j / 8) ≡ false → (i == j) ≡ false
    other_bit e =
        let u : i / 8 ≢ j / 8 = ground arith in
        let w : i ≢ j = λ q. u (ap (λ x. x / 8) q) in ground (arith, w)
