-- ===== src/Tests/Dumping.antt =====
-- `hexdump` at a concrete input.
use rfx.Prelude.{ℕ, ◌≡◌, refl, some, List, [], ◌∷◌, codes, arith}
use rfx.Hexdump.{Row, hexdump, hex_part}
use rfx.Hexdump.RoundTrip.{shown, SameWidth, hexdump_lem}

abbrev packet_bytes : List ℕ
packet_bytes = 0x10 ∷ 0 ∷ 7 ∷ 0xff ∷ 0x41 ∷ []

-- Five bytes: one row, with a bar behind the fourth.
row_shown :
    hex_part packet_bytes ≡ some (codes " 10 00 07 ff | 41                                      ")
unfolding hex_part
row_shown = refl

hexdump_example :
    (rs : List Row) × (hexdump 1 0x40 packet_bytes ≡ some rs)
    × SameWidth rs
    × (shown rs ≡ packet_bytes)
hexdump_example =
    hexdump_lem 1 0x40 packet_bytes
      (omega arith, (omega arith, (omega arith, (omega arith, (omega arith, tt))))) (omega arith)
      (omega arith)
