-- ===== src/Hexdump.antt =====
-- `hexdump` of lib/misc.c: rows of sixteen bytes.
pub mod Decoding
pub mod RoundTrip
use rfx.Prelude.{
  ℕ, zero, suc, ◌+◌, ◌-◌, ◌*◌, ◌/◌, ◌%◌, ◌^◌, Bool, true, false, Option, none, some, List, [], ◌∷◌,
  ◌++◌, ◌==◌, ltb, leb, not, ◌&&◌, ◌>>=◌, if◌then◌else◌, length, take, drop, replicate, map,
}

abbrev pub frame : ℕ
frame = 16

-- sizeof(hex)
abbrev pub hex_size : ℕ
hex_size = 3 * frame + 2 * (frame - 1) / 4 + 1

-- `xd[n]`
abbrev pub xd : ℕ → ℕ
xd n = if ltb n 10 then b'0' + n else b'a' + (n - 10)

-- A printed row: `rel + i`, `hex` and `cc`.
pub record Row : Type 0 where
  pub offset : ℕ
  pub hex : List ℕ
  pub cc : List ℕ

-- The characters of the byte at place `j` of a row.
unfoldable pub hex_byte : ℕ → ℕ → List ℕ
hex_byte j b =
    (0x20 ∷ xd (b / 16) ∷ xd (b % 16) ∷ [])
    ++ (if (j + 1) % 4 == 0 && not (j + 1 == frame) then 0x20 ∷ b'|' ∷ [] else [])

unfoldable pub hex_bytes : ℕ → List ℕ → List ℕ
unfolding hex_byte
hex_bytes j [] = []
hex_bytes j (b ∷ bs) = hex_byte j b ++ hex_bytes (j + 1) bs

-- The row's array: the bytes, then spaces, and a NUL at its end. More than fits is a fault.
unfoldable pub hex_part : List ℕ → Option (List ℕ)
unfolding hex_bytes
hex_part bs =
    let h = hex_bytes 0 bs in
    if ltb hex_size (length h)
    then none
    else some (take (hex_size - 1) (h ++ replicate (hex_size - length h) 0x20))

unfoldable pub printable : ℕ → ℕ
printable b = if leb 0x20 b && leb b 127 then b else b'.'

-- `cc`, of `frame + 1` characters with its NUL.
unfoldable pub cc_part : List ℕ → Option (List ℕ)
unfolding printable
cc_part bs = if ltb (frame + 1) (length bs + 1) then none else some (map printable bs)

-- The loop over the rows, from `i` on, with the unsigned sums of `i`. Fuel bounds the rows.
unfoldable pub rows : ℕ → ℕ → ℕ → List ℕ → ℕ → Option (List Row)
unfolding hex_part cc_part
rows zero rel i dat size = if ltb i size then none else some []
rows (suc f) rel i dat size =
    let sz = if ltb ((i + frame) % 2 ^ 32) size then frame else size - i in
    let bs = take sz (drop i dat) in
    let more = rows f rel ((i + frame) % 2 ^ 32) dat size in
    if ltb i size
    then (do
      h ← hex_part bs
      c ← cc_part bs
      rest ← more
      some (record { offset = (rel + i) % 2 ^ 32; hex = h; cc = c } ∷ rest))
    else some []

unfoldable pub hexdump : ℕ → ℕ → List ℕ → Option (List Row)
unfolding rows
hexdump fuel rel dat = rows fuel rel 0 dat (length dat)
