-- ===== src/Mconf/Numbers.antt =====
-- Numbers as text: what lib/mconf.c uses of the C library (`strtoul` and `strtol` in base 0, `%u`,
-- and the tests of ctype.h in the C locale).
pub mod Decimal
use rfx.Prelude.{
  ℕ, zero, suc, ◌+◌, ◌-◌, ◌*◌, ◌/◌, ◌%◌, ◌^◌, Bool, true, false, List, [], ◌∷◌, ◌++◌, ◌==◌, ltb,
  leb, ◌&&◌, ◌||◌, if◌then◌else◌,
}

abbrev pub is_space : ℕ → Bool
is_space c = (leb 9 c && leb c 13) || c == 32

abbrev pub is_digit : ℕ → Bool
is_digit c = leb b'0' c && leb c b'9'

abbrev pub is_alnum : ℕ → Bool
is_alnum c = is_digit c || (leb b'A' c && leb c b'Z') || (leb b'a' c && leb c b'z')

abbrev pub to_lower : ℕ → ℕ
to_lower c = if leb b'A' c && leb c b'Z' then c + 32 else c

-- The value of a digit, 36 for what is none in any base.
abbrev pub digit_value : ℕ → ℕ
digit_value c =
    if is_digit c
    then c - b'0'
    else if leb b'A' c && leb c b'Z'
    then c - b'A' + 10
    else if leb b'a' c && leb c b'z'
    then c - b'a' + 10
    else 36

-- The digits at the front of `s`, behind the number `n`, and what follows them.
abbrev pub digits : ℕ → ℕ → List ℕ → ℕ × List ℕ
digits base n [] = (n, [])
digits base n (c ∷ s) =
    let more = digits base (n * base + digit_value c) s in
    if ltb (digit_value c) base then more else (n, c ∷ s)

abbrev pub skip_space : List ℕ → List ℕ
skip_space [] = []
skip_space (c ∷ s) = let rest = skip_space s in if is_space c then rest else c ∷ s

-- A number in base 0, whose prefix tells its base. No digit: 0, and nothing is read.
abbrev pub based : List ℕ → ℕ × List ℕ
based [] = (0, [])
based (c ∷ []) = digits 10 0 (c ∷ [])
based (c ∷ (d ∷ [])) = if c == b'0' then digits 8 0 (c ∷ (d ∷ [])) else digits 10 0 (c ∷ (d ∷ []))
based (c ∷ (d ∷ (e ∷ s))) =
    if c == b'0' && to_lower d == b'x' && ltb (digit_value e) 16
    then digits 16 0 (e ∷ s)
    else if c == b'0'
    then digits 8 0 (c ∷ (d ∷ (e ∷ s)))
    else digits 10 0 (c ∷ (d ∷ (e ∷ s)))

-- A sign, and the text behind it.
abbrev pub signed : List ℕ → Bool × List ℕ
signed [] = (false, [])
signed (c ∷ s) = if c == b'-' then (true, s) else if c == b'+' then (false, s) else (false, c ∷ s)

-- Whether `digits` read something; otherwise the whole text is left.
abbrev pub read_some : List ℕ → Bool
read_some [] = false
read_some (c ∷ s) = ltb (digit_value c) 10

-- The sign, the magnitude, and the text that is left.
abbrev pub number : List ℕ → Bool × ℕ × List ℕ
number s =
    let (minus, t) = signed (skip_space s) in
    let (n, rest) = based t in if read_some t then (minus, n, rest) else (false, 0, s)

-- `strtoul(s, &ep, 0)`, on longs of 64 bits: the value, and the text from `ep` on.
abbrev pub strtoul : List ℕ → ℕ × List ℕ
strtoul s =
    let (minus, n, rest) = number s in
    (if leb (2 ^ 64) n then 2 ^ 64 - 1 else if minus then (2 ^ 64 - n) % 2 ^ 64 else n, rest)

-- `strtol(s, &ep, 0)`, as a word of 64 bits: the value, whether it sets errno to ERANGE, and the text
-- from `ep` on.
abbrev pub strtol : List ℕ → ℕ × Bool × List ℕ
strtol s =
    let (minus, n, rest) = number s in
    if minus
    then (if ltb (2 ^ 63) n then (2 ^ 63, true, rest) else ((2 ^ 64 - n) % 2 ^ 64, false, rest))
    else if leb (2 ^ 63) n
    then (2 ^ 63 - 1, true, rest)
    else (n, false, rest)

-- The decimal digits of a number, by fuel.
abbrev pub decimals : ℕ → ℕ → List ℕ
decimals zero n = []
decimals (suc f) n =
    let front = decimals f (n / 10) in
    if ltb n 10 then (b'0' + n) ∷ [] else front ++ (b'0' + n % 10) ∷ []

-- `%u` of a 32-bit number, which has ten digits at most.
abbrev pub decimal : ℕ → List ℕ
decimal n = decimals 10 n
