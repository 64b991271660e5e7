-- ===== src/Loot/Hex.antt =====
-- The hexadecimal number of a loot term: the loop of parse_mask and hex2i against plain arithmetic.
use rfx.Prelude.{
  ℕ, ◌+◌, ◌*◌, ◌%◌, ◌^◌, ◌<◌, ◌≡◌, sym, ap, ap₂, ◌∙◌, Bool, List, [], ◌∷◌, ltb, if◌then◌else◌,
  arith, bit_or, Bool-cases, inl, inr,
}
use rfx.Digits.{bit_or-disjoint}
use rfx.Mconf.Numbers.{digits, digit_value}
use rfx.Loot.Command.{hex_loop, hex2i, is_xdigit}

xdigit_lem : (c : ℕ) → is_xdigit c ≡ ltb (digit_value c) 16
xdigit_lem c = ground arith

hex2i_lem : (c : ℕ) → digit_value c < 16 → hex2i c ≡ digit_value c
unfolding hex2i
hex2i_lem c h = ground (arith, h)

put_digit :
    (id n v : ℕ)
    → id ≡ n % 2 ^ 32
    → v < 16
    → (d : ℕ) → d ≡ v
    → bit_or (id * 16 % 2 ^ 32) d ≡ (n * 16 + v) % 2 ^ 32
put_digit id n v e lt d same =
    let y = id % 2 ^ 28 in
    let cut : id * 16 % 2 ^ 32 ≡ y * 2 ^ 4 = omega arith in
    let o = bit_or-disjoint 4 28 y v (omega arith) (omega (arith, lt)) in
    ap₂ bit_or cut same ∙ o ∙ omega (arith, e, lt)

-- The loop computes the number of the digits, cut to 32 bits.
pub hex_loop_lem :
    (id n : ℕ) (s : List ℕ) → id ≡ n % 2 ^ 32 → hex_loop id s ≡ (digits 16 n s).0 % 2 ^ 32
unfolding hex_loop
hex_loop_lem id n [] e = e
hex_loop_lem id n (c ∷ s) e = elim (Bool-cases (ltb (digit_value c) 16)) [
  | inl y ↦
      let lt : digit_value c < 16 = ground (arith, y) in
      let d = hex2i_lem c lt in
      let put : bit_or (id * 16 % 2 ^ 32) (hex2i c) ≡ (n * 16 + digit_value c) % 2 ^ 32 =
        put_digit id n (digit_value c) e lt (hex2i c) d in
      ap step (xdigit_lem c ∙ y)
      ∙ hex_loop_lem (bit_or (id * 16 % 2 ^ 32) (hex2i c)) (n * 16 + digit_value c) s put
      ∙ ap (λ b. (if b then digits 16 (n * 16 + digit_value c) s else (n, c ∷ s)).0 % 2 ^ 32)
          (sym y)
  | inr y ↦
      ap step (xdigit_lem c ∙ y)
      ∙ e
      ∙ ap (λ b. (if b then digits 16 (n * 16 + digit_value c) s else (n, c ∷ s)).0 % 2 ^ 32)
          (sym y)
]
  where
    step : Bool → ℕ
    step b = if b then hex_loop (bit_or (id * 16 % 2 ^ 32) (hex2i c)) s else id
