-- ===== src/Tests/Addressing.antt =====
-- Addresses at a concrete input.
use rfx.Prelude.{
  ℕ, ◌+◌, ◌*◌, ◌/◌, ◌%◌, ◌^◌, ◌<◌, ◌≡◌, refl, ap, ◌∙◌, Option, some, List, [], ◌∷◌, ◌++◌, length,
  drop, codes, arith, append-nil, sym,
}
use rfx.Mconf.Numbers.{digits, decimal}
use rfx.Mconf.Numbers.Decimal.{digits-decimals, stops_lem}
use rfx.Address.{inet, htons, in_size, init_addr, addr2a}
use rfx.Address.RoundTrip.{Resolves, init_addr-addr2a}

-- A resolver that knows addresses in numbers only, and reads them byte by byte.
abbrev fourth : ℕ → List ℕ → Option ℕ
fourth n s = some (n + 2 ^ 24 * (digits 10 0 s).0)

abbrev third : ℕ → List ℕ → Option ℕ
third n s = let x = digits 10 0 s in fourth (n + 2 ^ 16 * x.0) (drop 1 x.1)

abbrev second : ℕ → List ℕ → Option ℕ
second n s = let x = digits 10 0 s in third (n + 2 ^ 8 * x.0) (drop 1 x.1)

abbrev numeric : List ℕ → Option ℕ
numeric s = let x = digits 10 0 s in second x.0 (drop 1 x.1)

number_read : (n : ℕ) (s : List ℕ) → n < 256 → digits 10 0 (decimal n ++ (b'.' ∷ s)) ≡ (n, b'.' ∷ s)
number_read n s h =
    digits-decimals 10 n (b'.' ∷ s) (omega (arith, h)) ∙ stops_lem n (b'.' ∷ s) (omega arith)

last_read : (n : ℕ) → n < 256 → digits 10 0 (decimal n) ≡ (n, [])
last_read n h =
    ap (digits 10 0) (sym (append-nil (decimal n))) ∙ digits-decimals 10 n [] (omega (arith, h))

numeric-Resolves : Resolves numeric
numeric-Resolves s h =
    let a = s % 256 in
    let b = s / 2 ^ 8 % 256 in
    let c = s / 2 ^ 16 % 256 in
    let d = s / 2 ^ 24 % 256 in
    let l = decimal d in
    let k = decimal c ++ (b'.' ∷ l) in
    let j = decimal b ++ (b'.' ∷ k) in
    ap (λ x. second x.0 (drop 1 x.1)) (number_read a j (omega arith))
    ∙ ap (λ x. third (a + 2 ^ 8 * x.0) (drop 1 x.1)) (number_read b k (omega arith))
    ∙ ap (λ x. fourth (a + 2 ^ 8 * b + 2 ^ 16 * x.0) (drop 1 x.1)) (number_read c l (omega arith))
    ∙ ap (λ (x : ℕ × List ℕ). some (a + 2 ^ 8 * b + 2 ^ 16 * c + 2 ^ 24 * x.0))
        (last_read d (omega arith))
    ∙ ap some (omega (arith, h))

-- 127.0.0.1, port 80.
addr2a_run : addr2a (inet 0x100007f (htons 80)) 64 ≡ (some (codes "127.0.0.1:80"), 12)
unfolding addr2a
addr2a_run = refl

any_address :
    init_addr numeric (codes ":80")
    ≡ some (record { name = inet 0 (htons 80); namelen = in_size; a_addr = codes ":80" })
unfolding init_addr
any_address = refl

init_addr-addr2a_example :
    (t : List ℕ) × (addr2a (inet 0x100007f 20480) 64 ≡ (some t, length t))
    × (init_addr numeric t
        ≡ some (record { name = inet 0x100007f 20480; namelen = in_size; a_addr = t }))
init_addr-addr2a_example =
    init_addr-addr2a numeric 0x100007f 20480 64 numeric-Resolves (omega arith) (omega arith)
      (omega arith)
