-- ===== src/Hexdump/RoundTrip.antt =====
-- `hexdump` of lib/misc.c shows all of the data, in rows of the same width.
use mathlib.Core.Path.{subst}
use rfx.Prelude.{
  take-append_long, drop-drop, ℕ, zero, suc, ◌+◌, ◌-◌, ◌*◌, ◌%◌, ◌^◌, ◌≤◌, ◌<◌, ◌≡◌, refl, sym, ap,
  ap₂, ◌∙◌, true, false, some, List, [], ◌∷◌, ◌++◌, ltb, ◌>>=◌, arith, if◌then◌else◌, length,
  length-append, length-take, take, drop, replicate, map, All, append-nil, Bool-cases, inl, inr,
  length-replicate, drop-all, take-append-drop, All-take, All-drop, length-drop, take-all,
}
use rfx.Hexdump.{cc_part, Row, frame, hex_size, hex_bytes, hex_part, printable, rows, hexdump}
use rfx.Hexdump.Decoding.{decode, decode-hex_bytes, decode_spaces, length-hex_bytes}

-- What the rows show.
abbrev pub shown : List Row → List ℕ
shown [] = []
shown (r ∷ rs) = decode r.hex ++ shown rs

abbrev pub SameWidth : List Row → Type 0
SameWidth rs = All (λ (r : Row). length r.hex ≡ hex_size - 1) rs

take-replicate : (m n c : ℕ) → m ≤ n → take m (replicate n c) ≡ replicate m c
take-replicate zero n c h = refl
take-replicate (suc m) zero c h = absurd (omega arith)
take-replicate (suc m) (suc n) c h = ap (λ q. c ∷ q) (take-replicate m n c (omega arith))

ltb_no : (a b : ℕ) → b ≤ a → ltb a b ≡ false
ltb_no a b h = ground arith

ltb_yes : (a b : ℕ) → a < b → ltb a b ≡ true
ltb_yes a b h = ground arith

hex_part_run :
    (bs : List ℕ)
    → length (hex_bytes 0 bs) ≤ 54
    → hex_part bs ≡ some (hex_bytes 0 bs ++ replicate (55 - length (hex_bytes 0 bs)) 0x20)
unfolding hex_part
hex_part_run bs h =
    let t =
      take-append_long 55 (55 - length (hex_bytes 0 bs)) (hex_bytes 0 bs)
        (replicate (56 - length (hex_bytes 0 bs)) 0x20) (omega arith) in
    let r =
      take-replicate (55 - length (hex_bytes 0 bs)) (56 - length (hex_bytes 0 bs)) 0x20
        (omega arith) in
    rw (ltb_no 56 (length (hex_bytes 0 bs)) (omega arith))
      (ap some (t ∙ ap (λ q. hex_bytes 0 bs ++ q) r))

hex_part_lem :
    (bs : List ℕ)
    → length bs ≤ 16
    → All (λ b. b < 256) bs
    → (h : List ℕ) × (hex_part bs ≡ some h) × (length h ≡ 55) × (decode h ≡ bs)
hex_part_lem bs l a =
    let k = length-hex_bytes 0 bs (omega arith) in
    let n = length (hex_bytes 0 bs) in
    let s : List ℕ = replicate (55 - n) 0x20 in
    let e = length-append (hex_bytes 0 bs) s in
    let e' = length-replicate {A = ℕ} (55 - n) 0x20 in
    (
      hex_bytes 0 bs ++ s,
      hex_part_run bs (omega (arith, k, l)),
      omega (arith, k, l, e, e'),
      decode-hex_bytes 0 bs s a ∙ ap (λ q. bs ++ q) (decode_spaces (55 - n)) ∙ append-nil bs,
    )

-- The loop's sum does not wrap, and the bytes of a row are sixteen at most, to the end of the data.
next_row : (i n : ℕ) → i < n → n + 16 ≤ 2 ^ 32 → (i + frame) % 2 ^ 32 ≡ i + 16
next_row i n lt b = omega arith

row_bytes :
    (i : ℕ) (dat : List ℕ)
    → i < length dat
    → take (if ltb (i + 16) (length dat) then frame else length dat - i) (drop i dat)
      ≡ take 16 (drop i dat)
row_bytes i dat lt = elim (Bool-cases (ltb (i + 16) (length dat))) [
  | inl y ↦ rw y
  | inr y ↦
      let l = length-drop i dat in
      rw y (
        take-all (length dat - i) (drop i dat) (omega (arith, l))
        ∙ sym (take-all 16 (drop i dat) (ground (arith, l, y))))
]

cc_part_lem : (bs : List ℕ) → length bs ≤ 16 → cc_part bs ≡ some (map printable bs)
unfolding cc_part
cc_part_lem bs h = ground (arith, h)

-- A row is shown.
rows_step :
    (f rel i : ℕ) (dat : List ℕ) (h : List ℕ) (rs : List Row)
    → i < length dat
    → length dat + 16 ≤ 2 ^ 32
    → hex_part (take 16 (drop i dat)) ≡ some h
    → rows f rel (i + 16) dat (length dat) ≡ some rs
    → rows (suc f) rel i dat (length dat)
      ≡ some (
          record { offset = (rel + i) % 2 ^ 32; hex = h; cc = map printable (take 16 (drop i dat)) }
          ∷ rs)
unfolding rows
rows_step f rel i dat h rs lt b e r =
    let t = length-take 16 (drop i dat) in
    let c = cc_part_lem (take 16 (drop i dat)) (omega (arith, t)) in
    rw (
      next_row i (length dat) lt b,
      row_bytes i dat lt,
      ltb_yes i (length dat) lt,
      e,
      cc_part,
      c,
      r,
      ◌>>=◌,
    )

rows_lem :
    (f rel i : ℕ) (dat : List ℕ)
    → length dat + 16 ≤ 2 ^ 32
    → length dat ≤ i + 16 * f
    → All (λ b. b < 256) (drop i dat)
    → (rs : List Row) × (rows f rel i dat (length dat) ≡ some rs)
      × SameWidth rs
      × (shown rs ≡ drop i dat)
unfolding rows
rows_lem zero rel i dat b l a = ([], ground (arith, l), tt, sym (drop-all i dat (omega (arith, l))))
rows_lem (suc f) rel i dat b l a = elim (Bool-cases (ltb i (length dat))) [
  | inl y ↦
      let lt : i < length dat = ground (arith, y) in
      let a' = All-take (λ b. b < 256) 16 (drop i dat) a in
      let a'' = All-drop (λ b. b < 256) 16 (drop i dat) a in
      let t = length-take 16 (drop i dat) in
      let d = drop-drop i 16 dat in
      let (h, e, w, s) = hex_part_lem (take 16 (drop i dat)) (omega (arith, t)) a' in
      let (rs, r, ws, ss) =
        rows_lem f rel (i + 16) dat b (omega (arith, l)) (subst (All (λ b. b < 256)) d a'') in
      (
        record { offset = (rel + i) % 2 ^ 32; hex = h; cc = map printable (take 16 (drop i dat)) }
            ∷ rs,
        rows_step f rel i dat h rs lt b e r,
        (w, ws),
        ap₂ (λ p q. p ++ q) s (ss ∙ sym d) ∙ take-append-drop 16 (drop i dat),
      )
  | inr y ↦ let ge : length dat ≤ i = ground (arith, y) in ([], rw y, tt, sym (drop-all i dat ge))
]

-- For data of bytes below 256, at most 2 ^ 32 - 16 of them, and fuel for a row of each sixteen,
-- `hexdump` prints its rows without a store past their arrays, each row of hexadecimal digits
-- has 55 characters, and the bytes that the digits of the rows show are, in order, the data.
pub hexdump_lem :
    (fuel rel : ℕ) (dat : List ℕ)
    → All (λ b. b < 256) dat
    → length dat + 16 ≤ 2 ^ 32
    → length dat ≤ 16 * fuel
    → (rs : List Row) × (hexdump fuel rel dat ≡ some rs) × SameWidth rs × (shown rs ≡ dat)
unfolding hexdump
hexdump_lem fuel rel dat a b l = rows_lem fuel rel 0 dat b (omega (arith, l)) a
