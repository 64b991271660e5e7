-- ===== src/Loot/Sound.antt =====
-- The operations on loot masks leave loot masks.
use rfx.Prelude.{
  ℕ, zero, suc, ◌-◌, ◌/◌, ◌%◌, ◌<◌, ◌≤◌, ◌≡◌, refl, sym, ap, ◌∙◌, Bool, true, false, List, [], ◌∷◌,
  ◌++◌, ltb, length, get_or, set, take, drop, replicate, arith, All, length-replicate, length-set,
  length-append, length-take, length-drop, All-append, All-take, All-drop, Bool-cases, inl, inr,
}
use mathlib.Core.Path.{subst}
use rfx.Digits.{bit_or-bound, bit_and-bound}
use rfx.Loot.{LootMask, mask_size, set_bit, set_all, fill_byte, put_bit, add_mask, sub_mask, bit_of}
use rfx.Loot.Bits.{IsMask, get_or-byte}
use rfx.Loot.Setting.{bit_of-byte}

abbrev IsByte : ℕ → Type 0
IsByte b = b < 256

replicate-IsByte : (n b : ℕ) → b < 256 → All IsByte (replicate n b)
replicate-IsByte zero b h = tt
replicate-IsByte (suc n) b h = (h, replicate-IsByte n b h)

pub set_all-IsMask : (f : Bool) → IsMask (set_all f)
unfolding set_all
set_all-IsMask f = record {
  size = length-replicate mask_size (fill_byte f);
  bytes = replicate-IsByte mask_size (fill_byte f) (byte f);
}
  where
    byte : (f : Bool) → fill_byte f < 256
    byte true = omega arith
    byte false = omega arith

set-IsByte : (m : LootMask) (k v : ℕ) → All IsByte m → v < 256 → All IsByte (set m k v)
set-IsByte [] k v a h = tt
set-IsByte (b ∷ m) zero v a h = (h, a.1)
set-IsByte (b ∷ m) (suc k) v a h = (a.0, set-IsByte m k v a.1 h)

put_bit-IsByte : (f : Bool) (b m : ℕ) → b < 256 → m < 256 → put_bit f b m < 256
put_bit-IsByte true b m p q = bit_or-bound 8 b m p q
put_bit-IsByte false b m p q = bit_and-bound 8 b (255 - m) p

pub set_bit-IsMask : (m : LootMask) (i : ℕ) (f : Bool) → IsMask m → IsMask (set_bit m i f).1
unfolding set_bit
set_bit-IsMask m i f v = elim (Bool-cases (ltb (i / 8) mask_size)) [
  | inl e ↦
      let n = put_bit f (get_or m (i / 8) 0) (bit_of i) in
      let run : (set_bit m i f).1 ≡ set m (i / 8) n = ground (arith, e) in
      subst IsMask (sym run) (record {
        size = length-set m (i / 8) n ∙ v.size;
        bytes = set-IsByte m (i / 8) n v.bytes (
            put_bit-IsByte f _ _ (get_or-byte m (i / 8) v.bytes)
              (bit_of-byte (i % 8) (omega arith)));
      })
  | inr e ↦ (let run : (set_bit m i f).1 ≡ m = ground (arith, e) in subst IsMask (sym run) v)
]

length-add_mask : (m n : LootMask) → length (add_mask m n) ≡ length m
unfolding add_mask
length-add_mask [] n = refl
length-add_mask (a ∷ m) [] = refl
length-add_mask (a ∷ m) (b ∷ n) = ap suc (length-add_mask m n)

length-sub_mask : (m n : LootMask) → length (sub_mask m n) ≡ length m
unfolding sub_mask
length-sub_mask [] n = refl
length-sub_mask (a ∷ m) [] = refl
length-sub_mask (a ∷ m) (b ∷ n) = ap suc (length-sub_mask m n)

add-IsByte : (m n : LootMask) → All IsByte m → All IsByte n → All IsByte (add_mask m n)
unfolding add_mask
add-IsByte [] n a b = tt
add-IsByte (x ∷ m) [] a b = a
add-IsByte (x ∷ m) (y ∷ n) a b = (bit_or-bound 8 x y a.0 b.0, add-IsByte m n a.1 b.1)

sub-IsByte : (m n : LootMask) → All IsByte m → All IsByte (sub_mask m n)
unfolding sub_mask
sub-IsByte [] n a = tt
sub-IsByte (x ∷ m) [] a = a
sub-IsByte (x ∷ m) (y ∷ n) a = (bit_and-bound 8 x (255 - y) a.0, sub-IsByte m n a.1)

pub add_mask-IsMask : (m n : LootMask) → IsMask m → IsMask n → IsMask (add_mask m n)
add_mask-IsMask m n v w = record {
  size = length-add_mask m n ∙ v.size;
  bytes = add-IsByte m n v.bytes w.bytes;
}

pub sub_mask-IsMask : (m n : LootMask) → IsMask m → IsMask (sub_mask m n)
sub_mask-IsMask m n v = record {
  size = length-sub_mask m n ∙ v.size;
  bytes = sub-IsByte m n v.bytes;
}

-- Bytes read over the front of a mask.
pub over-IsMask :
    (bs : List ℕ) (m : LootMask)
    → All (λ b. b < 256) bs
    → IsMask m
    → IsMask (take mask_size bs ++ drop (length (take mask_size bs)) m)
over-IsMask bs m a v =
    let t = take mask_size bs in
    record {
      size = omega (
        arith,
        length-append t (drop (length t) m),
        length-take mask_size bs,
        length-drop (length t) m,
        v.size,
      );
      bytes =
          All-append IsByte t (drop (length t) m) (All-take IsByte mask_size bs a)
            (All-drop IsByte (length t) m v.bytes);
    }

-- An index past the end changes nothing.
pub set_bit-out : (m : LootMask) (i : ℕ) (f : Bool) → 65536 ≤ i → (set_bit m i f).1 ≡ m
unfolding set_bit
set_bit-out m i f h = let l : mask_size ≤ i / 8 = omega (arith, h) in ground (arith, l)
