-- ===== src/Loot/Counting.antt =====
-- `loot_mask::count` counts the items that the mask has.
use rfx.Prelude.{
  ℕ, zero, suc, ◌+◌, ◌-◌, ◌^◌, ◌*◌, ◌/◌, ◌%◌, ◌<◌, ◌≡◌, refl, sym, ap, ap₂, ◌∙◌, Bool, [], ◌∷◌,
  ◌==◌, ltb, not, true, false, if◌then◌else◌, length, get_or, bit_and, arith,
}
use rfx.Digits.{shifted}
use rfx.Loot.{LootMask, mask_size, test, count, count_byte, one_if, bit_of}

-- How many of the `n` numbers from `s` on are in the set.
pub tally : (ℕ → Bool) → ℕ → ℕ → ℕ
tally q s zero = 0
tally q s (suc n) = one_if (q s) + tally q (s + 1) n

-- The bit of an index in the bytes of a mask.
abbrev bit : LootMask → ℕ → Bool
bit m i = not (bit_and (bit_of i) (get_or m (i / 8) 0) == 0)

tally_suc :
    (q : ℕ → Bool) (s s' n m : ℕ)
    → m ≡ n + 1
    → s' ≡ s + 1
    → tally q s m ≡ one_if (q s) + tally q s' n
unfolding tally
tally_suc q s s' n zero e f = absurd (omega (arith, e))
tally_suc q s s' n (suc m) e f =
    let same : m ≡ n = omega (arith, e) in
    ap (λ k. one_if (q s) + tally q (s + 1) k) same ∙ ap (λ k. one_if (q s) + tally q k n) (sym f)

-- The rest of a byte, from its bit for `2 ^ k` on.
tally_bits :
    (q : ℕ → Bool) (s n b : ℕ)
    → ((i k : ℕ) → i + k ≡ 7 → q (s + i) ≡ not (bit_and (2 ^ k) b == 0))
    → (k j : ℕ) → j + k ≡ 8
    → tally q (s + j) (k + n) ≡ count_byte k b + tally q (s + 8) n
tally_bits q s n b h zero j e =
    let at_end : s + j ≡ s + 8 = omega (arith, e) in
    let none_left : 0 + n ≡ n = omega arith in ap₂ (tally q) at_end none_left ∙ omega arith
tally_bits q s n b h (suc k) j e =
    let first = tally_suc q (s + j) (s + (j + 1)) (k + n) (suc k + n) (omega arith) (omega arith) in
    let here = ap one_if (h j k (omega (arith, e))) in
    let rest = tally_bits q s n b h k (j + 1) (omega (arith, e)) in
    first ∙ ap₂ ◌+◌ here rest ∙ omega arith

bit_here : (i k b : ℕ) (m : LootMask) → i + k ≡ 7 → bit (b ∷ m) i ≡ not (bit_and (2 ^ k) b == 0)
bit_here i k b m e =
    let place : i / 8 ≡ 0 = omega (arith, e) in
    let low : i % 8 ≡ i = omega (arith, e) in
    let power : 7 - i ≡ k = omega (arith, e) in
    ap₂ (λ x y. not (bit_and x (get_or (b ∷ m) y 0) == 0))
      (ap (λ x. 0x80 / 2 ^ x) low ∙ shifted i (omega (arith, e)) ∙ ap (λ x. 2 ^ x) power) place

bit_next : (i b : ℕ) (m : LootMask) → bit (b ∷ m) (8 + i) ≡ bit m i
bit_next i b m =
    let place : (8 + i) / 8 ≡ suc (i / 8) = omega arith in
    let low : (8 + i) % 8 ≡ i % 8 = omega arith in
    ap₂ (λ x y. not (bit_and (0x80 / 2 ^ x) (get_or (b ∷ m) y 0) == 0)) low place

bits_counted :
    (m : LootMask) (q : ℕ → Bool) (s : ℕ)
    → ((i : ℕ) → i < 8 * length m → q (s + i) ≡ bit m i)
    → tally q s (8 * length m) ≡ count m
unfolding count
bits_counted [] q s h = unfold tally in refl
bits_counted (b ∷ m) q s h =
    let size : 8 * length (b ∷ m) ≡ 8 + 8 * length m = omega arith in
    let start : s ≡ s + 0 = omega arith in
    let byte =
      tally_bits q s (8 * length m) b (λ i k e. h i (omega (arith, e)) ∙ bit_here i k b m e) 8 0
        refl in
    let rest = bits_counted m q (s + 8) (λ i lt.
      let place : s + 8 + i ≡ s + (8 + i) = omega arith in
      ap q place ∙ h (8 + i) (omega (arith, lt)) ∙ bit_next i b m) in
    ap₂ (tally q) start size ∙ byte ∙ ap (λ x. count_byte 8 b + x) rest

-- The count of a mask that stands for a set.
pub count_lem :
    (m : LootMask) (q : ℕ → Bool)
    → length m ≡ mask_size
    → ((i : ℕ) → i < 65536 → test m i ≡ q i)
    → count m ≡ tally q 0 65536
unfolding test
count_lem m q e h =
    let size : 8 * length m ≡ 65536 = omega (arith, e) in
    sym (
      bits_counted m q 0 (λ i lt.
        let same : 0 + i ≡ i = omega arith in
        let inside : ltb (i / 8) mask_size ≡ true = ground (arith, lt, size) in
        ap q same
        ∙ sym (h i (omega (arith, lt, size)))
        ∙ ap (λ x. if x then bit m i else false) inside))
    ∙ ap (tally q 0) size
