-- ===== src/Wire.antt =====
-- GET_INT16 of include/util.h and rfx_modules.h: 16-bit numbers in little-endian order.
use rfx.Prelude.{
  ℕ, ◌+◌, ◌*◌, ◌/◌, ◌%◌, ◌<◌, ◌≡◌, refl, Bool, true, bit_or, holds_to, holds_to_lem, ◌==◌, ==_iff,
}

-- GET_INT16(p), from the bytes at `p` and `p + 1`.
unfoldable pub get_int16 : ℕ → ℕ → ℕ
get_int16 lo hi = bit_or lo (hi * 256)

-- The bytes in which `pkt_new` writes a length or a type.
abbrev pub low_byte : ℕ → ℕ
low_byte x = x % 256

abbrev pub high_byte : ℕ → ℕ
high_byte x = x / 256 % 256

-- Checked for every byte pair, row by row.
row : ℕ → Bool
row hi = holds_to (λ lo. bit_or lo (hi * 256) == lo + hi * 256) 256

table : holds_to row 256 ≡ true
unfolding row
table = refl

-- For bytes, the bitwise expression is the number that they spell.
pub get_int16_lem : (lo hi : ℕ) → lo < 256 → hi < 256 → get_int16 lo hi ≡ lo + hi * 256
unfolding get_int16 row
get_int16_lem lo hi h k = (==_iff _ _).0 (
    holds_to_lem (λ x. bit_or x (hi * 256) == x + hi * 256) 256 lo h
      (holds_to_lem row 256 hi k table))
