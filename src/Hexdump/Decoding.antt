-- ===== src/Hexdump/Decoding.antt =====
-- The bytes can be read off the rows of `hexdump`.
use rfx.Prelude.{
  ℕ, zero, suc, ◌+◌, ◌-◌, ◌*◌, ◌/◌, ◌%◌, ◌≤◌, ◌<◌, ◌≡◌, refl, ap, ◌∙◌, Bool, false, List, [], ◌∷◌,
  ◌++◌, ◌==◌, leb, not, ◌||◌, ◌&&◌, arith, if◌then◌else◌, length, length-append, replicate, All,
  append_assoc, Bool-cases, inl, inr,
}
use rfx.Hexdump.{frame, xd, hex_byte, hex_bytes}

-- The value of a digit that `xd` gives.
abbrev digit : ℕ → ℕ
digit c = if leb b'a' c then c - b'a' + 10 else c - b'0'

abbrev separates : ℕ → Bool
separates c = c == 0x20 || c == b'|'

-- The bytes of a row: pairs of digits, between spaces and bars.
abbrev pub decode : List ℕ → List ℕ
decode [] = []
decode (c ∷ []) = []
decode (c ∷ (d ∷ s)) =
    let rest = decode s in
    let skipped = decode (d ∷ s) in if separates c then skipped else (digit c * 16 + digit d) ∷ rest

digit-xd : (n : ℕ) → n < 16 → (digit (xd n) ≡ n) × (separates (xd n) ≡ false)
digit-xd n h = (ground arith, ground arith)

decode_byte :
    (b : ℕ) (s : List ℕ)
    → b < 256
    → decode (0x20 ∷ (xd (b / 16) ∷ (xd (b % 16) ∷ s))) ≡ b ∷ decode s
decode_byte b s h =
    let (x, y) = digit-xd (b / 16) (omega arith) in
    let (z, w) = digit-xd (b % 16) (omega arith) in ground (arith, x, y, z, w)

decode_bar : (s : List ℕ) → decode (0x20 ∷ (b'|' ∷ s)) ≡ decode s
decode_bar [] = refl
decode_bar (c ∷ s) = refl

-- The characters of a byte, in front of others.
decode-hex_byte : (j b : ℕ) (s : List ℕ) → b < 256 → decode (hex_byte j b ++ s) ≡ b ∷ decode s
unfolding hex_byte
decode-hex_byte j b s h = elim (Bool-cases ((j + 1) % 4 == 0 && not (j + 1 == frame))) [
  | inl y ↦ rw y (decode_byte b (0x20 ∷ (b'|' ∷ s)) h ∙ ap (λ q. b ∷ q) (decode_bar s))
  | inr y ↦ rw y (decode_byte b s h)
]

pub decode-hex_bytes :
    (j : ℕ) (bs s : List ℕ) → All (λ b. b < 256) bs → decode (hex_bytes j bs ++ s) ≡ bs ++ decode s
unfolding hex_bytes
decode-hex_bytes j [] s a = refl
decode-hex_bytes j (b ∷ bs) s (h, a) =
    ap decode (append_assoc (hex_byte j b) (hex_bytes (j + 1) bs) s)
    ∙ decode-hex_byte j b (hex_bytes (j + 1) bs ++ s) h
    ∙ ap (λ q. b ∷ q) (decode-hex_bytes (j + 1) bs s a)

pub decode_spaces : (n : ℕ) → decode (replicate n 0x20) ≡ []
decode_spaces zero = refl
decode_spaces (suc zero) = refl
decode_spaces (suc (suc n)) = decode_spaces (suc n)

length-hex_byte :
    (j b : ℕ)
    → length (hex_byte j b) ≡ 3 + (if (j + 1) % 4 == 0 && not (j + 1 == frame) then 2 else 0)
unfolding hex_byte
length-hex_byte j b = ground arith

-- From place `j` on, three characters for a byte and two for a bar.
pub length-hex_bytes :
    (j : ℕ) (bs : List ℕ)
    → j + length bs ≤ 16
    → length (hex_bytes j bs) ≤ 3 * length bs + 2 * (3 - j / 4)
unfolding hex_bytes
length-hex_bytes j [] h = omega arith
length-hex_bytes j (b ∷ bs) h =
    let k = length-hex_bytes (j + 1) bs (omega (arith, h)) in
    let e = length-append (hex_byte j b) (hex_bytes (j + 1) bs) in
    let l = length-hex_byte j b in ground (arith, k, e, l, h)
