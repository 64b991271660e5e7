-- ===== src/Loot.antt =====
-- `loot_mask` of rfx_loot.cpp: a bit for each of the 65536 kinds of item.
pub mod Bits
pub mod Hex
pub mod Counting
pub mod Lexing
pub mod Setting
pub mod Sound
pub mod Command
pub mod Meaning
pub mod Commands
pub mod Saving
pub mod Process
pub mod Drops
use rfx.Prelude.{
  ℕ, zero, suc, ◌+◌, ◌-◌, ◌*◌, ◌/◌, ◌%◌, ◌^◌, Bool, true, false, Option, none, some, List, [], ◌∷◌,
  ◌++◌, ◌==◌, ltb, not, if◌then◌else◌, length, get_or, set, take, drop, replicate, bit_and, bit_or,
}

-- sizeof(mask)
abbrev pub mask_size : ℕ
mask_size = 8192

-- The array `mask`.
abbrev pub LootMask : Type 0
LootMask = List ℕ

abbrev pub fill_byte : Bool → ℕ
fill_byte true = 0xff
fill_byte false = 0

-- `loot_mask(bool)` and `set(bool)`
unfoldable pub set_all : Bool → LootMask
set_all flag = replicate mask_size (fill_byte flag)

-- `0x80 >> (idx & 7)`
abbrev pub bit_of : ℕ → ℕ
bit_of idx = 0x80 / 2 ^ (idx % 8)

unfoldable pub test : LootMask → ℕ → Bool
test m idx =
    let i = idx / 8 in
    if ltb i mask_size then not (bit_and (bit_of idx) (get_or m i 0) == 0) else false

-- `mask[i] |= m` and `mask[i] &= ~m`, on bytes.
abbrev pub put_bit : Bool → ℕ → ℕ → ℕ
put_bit true b m = bit_or b m
put_bit false b m = bit_and b (255 - m)

-- The old value of the bit, and the mask.
unfoldable pub set_bit : LootMask → ℕ → Bool → Bool × LootMask
set_bit m idx flag =
    let i = idx / 8 in
    if ltb i mask_size
    then (
      not (bit_and (get_or m i 0) (bit_of idx) == 0),
      set m i (put_bit flag (get_or m i 0) (bit_of idx)),
    )
    else (false, m)

-- `operator +=(const loot_mask &)` and `operator -=`
unfoldable pub add_mask : LootMask → LootMask → LootMask
add_mask [] n = []
add_mask (a ∷ m) [] = a ∷ m
add_mask (a ∷ m) (b ∷ n) = bit_or a b ∷ add_mask m n

unfoldable pub sub_mask : LootMask → LootMask → LootMask
sub_mask [] n = []
sub_mask (a ∷ m) [] = a ∷ m
sub_mask (a ∷ m) (b ∷ n) = bit_and a (255 - b) ∷ sub_mask m n

abbrev pub one_if : Bool → ℕ
one_if true = 1
one_if false = 0

-- The inner loop of `count`, with `j` from 0x80 down to 1.
abbrev pub count_byte : ℕ → ℕ → ℕ
count_byte zero b = 0
count_byte (suc k) b = one_if (not (bit_and (2 ^ k) b == 0)) + count_byte k b

unfoldable pub count : LootMask → ℕ
count [] = 0
count (b ∷ m) = count_byte 8 b + count m
