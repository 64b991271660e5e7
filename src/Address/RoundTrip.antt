-- ===== src/Address/RoundTrip.antt =====
-- `init_addr` of lib/sock.c reads back what `addr2a` prints.
use rfx.Prelude.{
  ℕ, zero, suc, ◌+◌, ◌-◌, ◌/◌, ◌%◌, ◌^◌, ◌≤◌, ◌<◌, ◌≡◌, refl, sym, ap, ◌∙◌, Bool, false, Option,
  none, some, List, [], ◌∷◌, ◌++◌, ltb, leb, arith, if◌then◌else◌, length, length-append, take,
  take-all, All, All-append, append-nil, Bool-cases, inl, inr, codes,
}
use rfx.Mconf.Numbers.{signed, digits, decimal, decimals}
use rfx.Mconf.Numbers.Decimal.{digits-decimals, first_digit, no_space, no_sign}
use rfx.Address.{
  local, inet, Addr, path_size, in_size, first_is_digit, behind, at_colon, htons, atoi, inet_addr,
  host_addr, init_inet, init_addr, dotted, snprintf, print_addr, addr2a,
}

-- A digit or a point.
abbrev Plain : ℕ → Type 0
Plain c = c ≤ b'9'

decimals-Plain : (f n : ℕ) → All Plain (decimals f n)
decimals-Plain zero n = tt
decimals-Plain (suc f) n = elim (Bool-cases (ltb n 10)) [
  | inl t ↦ let h : b'0' + n ≤ b'9' = ground (arith, t) in rw t ((h, tt))
  | inr t ↦
      let h : b'0' + n % 10 ≤ b'9' = omega arith in
      rw t (
        All-append Plain (decimals f (n / 10)) ((b'0' + n % 10) ∷ []) (decimals-Plain f (n / 10))
          (h, tt))
]

-- Behind a number and a point.
point-Plain : (n : ℕ) (s : List ℕ) → All Plain s → All Plain (decimal n ++ (b'.' ∷ s))
point-Plain n s a = All-append Plain (decimal n) (b'.' ∷ s) (decimals-Plain 10 n) (omega arith, a)

dotted-Plain : (s : ℕ) → All Plain (dotted s)
dotted-Plain s =
    let l = decimal (s / 2 ^ 24 % 256) in
    let k = decimal (s / 2 ^ 16 % 256) ++ (b'.' ∷ l) in
    let j = decimal (s / 2 ^ 8 % 256) ++ (b'.' ∷ k) in
    point-Plain (s % 256) j (
      point-Plain (s / 2 ^ 8 % 256) k
        (point-Plain (s / 2 ^ 16 % 256) l (decimals-Plain 10 (s / 2 ^ 24 % 256))))

at_colon_lem : (xs ys : List ℕ) → All Plain xs → at_colon (xs ++ (b':' ∷ ys)) ≡ (xs, some ys)
at_colon_lem [] ys a = refl
at_colon_lem (c ∷ xs) ys (h, a) = ground (arith, at_colon_lem xs ys a)

not_file : (xs ys : List ℕ) → All Plain xs → behind (codes "file:") (xs ++ (b':' ∷ ys)) ≡ none
not_file [] ys a = refl
not_file (c ∷ xs) ys (h, a) = ground arith

length-decimals_below : (k f n : ℕ) → n < 10 ^ suc k → length (decimals f n) ≤ suc k
length-decimals_below k zero n h = omega arith
length-decimals_below zero (suc f) n h = ground (arith, h)
length-decimals_below (suc k) (suc f) n h =
    let e = length-append (decimals f (n / 10)) ((b'0' + n % 10) ∷ []) in
    let l = length-decimals_below k f (n / 10) (omega (arith, h)) in ground (arith, e, l)

atoi-digits :
    (c n : ℕ) (t : List ℕ)
    → b'1' ≤ c
    → c ≤ b'9'
    → n < 2 ^ 16
    → digits 10 0 (c ∷ t) ≡ (n, [])
    → atoi (c ∷ t) ≡ n
atoi-digits c n t a b h e =
    ap (λ x. after x.0 (digits 10 0 x.1).0) (ap signed (no_space c t a b) ∙ no_sign c t a b)
    ∙ ap (λ x. after false x.0) e
    ∙ ground (arith, h)
  where
    after : Bool → ℕ → ℕ
    after minus k =
        (if minus
          then (if ltb (2 ^ 63) k then 2 ^ 63 else (2 ^ 64 - k) % 2 ^ 64)
          else if leb (2 ^ 63) k
          then 2 ^ 63 - 1
          else k)
        % 2 ^ 32

atoi-decimal : (n : ℕ) → n < 2 ^ 16 → atoi (decimal n) ≡ n
atoi-decimal zero h = refl
atoi-decimal (suc n) h =
    let (c, t, e, a, b) = first_digit 10 (suc n) [] (omega arith) (omega (arith, h)) in
    let d = digits-decimals 10 (suc n) [] (omega (arith, h)) in
    ap atoi (sym (append-nil (decimal (suc n))) ∙ e)
    ∙ atoi-digits c (suc n) t a b h (ap (digits 10 0) (sym e) ∙ d)

htons_twice : (x : ℕ) → x < 2 ^ 16 → htons (htons x) ≡ x
htons_twice x h = omega arith

host_addr_lem :
    (resolve : List ℕ → Option ℕ) (xs ys : List ℕ) (c : ℕ)
    → host_addr resolve (xs ++ (c ∷ ys)) ≡ resolve (xs ++ (c ∷ ys))
host_addr_lem resolve [] ys c = refl
host_addr_lem resolve (x ∷ xs) ys c = refl

-- A number below 256, a point, and the text behind it.
length-point : (n : ℕ) (s : List ℕ) → n < 256 → length (decimal n ++ (b'.' ∷ s)) ≤ 4 + length s
length-point n s h =
    let l = length-decimals_below 2 10 n (omega (arith, h)) in
    let e = length-append (decimal n) (b'.' ∷ s) in omega (arith, l, e)

length-dotted : (s : ℕ) → length (dotted s) ≤ 15
length-dotted s =
    let l = decimal (s / 2 ^ 24 % 256) in
    let k = decimal (s / 2 ^ 16 % 256) ++ (b'.' ∷ l) in
    let j = decimal (s / 2 ^ 8 % 256) ++ (b'.' ∷ k) in
    let x = length-decimals_below 2 10 (s / 2 ^ 24 % 256) (omega arith) in
    let y = length-point (s / 2 ^ 16 % 256) l (omega arith) in
    let z = length-point (s / 2 ^ 8 % 256) k (omega arith) in
    let w = length-point (s % 256) j (omega arith) in omega (arith, x, y, z, w)

-- The text of an address and a port.
abbrev pub text_of : ℕ → ℕ → List ℕ
text_of s port = dotted s ++ (b':' ∷ decimal port)

length-text_of : (s port : ℕ) → port < 2 ^ 16 → length (text_of s port) ≤ 21
length-text_of s port h =
    let l = length-decimals_below 4 10 port (omega (arith, h)) in
    let k = length-dotted s in
    let e = length-append (dotted s) (b':' ∷ decimal port) in omega (arith, l, k, e)

-- The resolver takes an address in numbers for what it is.
abbrev pub Resolves : (List ℕ → Option ℕ) → Type 0
Resolves resolve = (s : ℕ) → s < 2 ^ 32 → resolve (dotted s) ≡ some s

init_addr-text_of :
    (resolve : List ℕ → Option ℕ) (s port : ℕ)
    → Resolves resolve
    → s < 2 ^ 32
    → port < 2 ^ 16
    → init_addr resolve (text_of s port)
      ≡ some (record { name = inet s (htons port); namelen = in_size; a_addr = text_of s port })
unfolding init_addr init_inet inet_addr
init_addr-text_of resolve s port r l h =
    let host : host_addr resolve (dotted s) ≡ some s =
      host_addr_lem resolve (decimal (s % 256)) _ b'.' ∙ r s l in
    ap prefixed (not_file (dotted s) (decimal port) (dotted-Plain s))
    ∙ ap (λ x. split x.0 x.1) (at_colon_lem (dotted s) (decimal port) (dotted-Plain s))
    ∙ ap hosted host
    ∙ ap made (ap (λ k. k % 2 ^ 16) (atoi-decimal port h) ∙ omega (arith, h))
  where
    made : ℕ → Option Addr
    made p = some (record { name = inet s (htons p); namelen = in_size; a_addr = text_of s port })

    hosted : Option ℕ → Option Addr
    hosted o = elim o [ none ↦ none | some a ↦ some (inet_addr a (decimal port) (text_of s port)) ]

    split : List ℕ → Option (List ℕ) → Option Addr
    split host p = elim p [
      | none ↦
          if first_is_digit (text_of s port)
          then some (inet_addr 0 (text_of s port) (text_of s port))
          else none
      | some q ↦ elim (host_addr resolve host) [
        | none ↦ none
        | some a ↦ some (inet_addr a q (text_of s port))
      ]
    ]

    prefixed : Option (List ℕ) → Option Addr
    prefixed o = elim o [
      | none ↦ init_inet resolve (text_of s port)
      | some path ↦
          let p = take (path_size - 1) path in
          some (record { name = local p; namelen = 2 + length p; a_addr = text_of s port })
    ]

snprintf_fits :
    (size : ℕ) (text : List ℕ) → length text < size → snprintf size text ≡ (some text, length text)
snprintf_fits size text h =
    let t = take-all (size - 1) text (omega (arith, h)) in ground (arith, h, t)

fitting : (size l : ℕ) → l < size → (if leb size l then (size + 2 ^ 32 - 1) % 2 ^ 32 else l) ≡ l
fitting size l h = ground (arith, h)

addr2a_run :
    (s q size : ℕ)
    → q < 2 ^ 16
    → 22 ≤ size
    → addr2a (inet s q) size ≡ (some (text_of s (htons q)), length (text_of s (htons q)))
unfolding addr2a print_addr
addr2a_run s q size h room =
    let t = text_of s (htons q) in
    let l : length t < size = omega (arith, length-text_of s (htons q) (omega (arith, h)), room) in
    ap counted (snprintf_fits size t l) ∙ ap (λ (k : ℕ). (some t, k)) (fitting size (length t) l)
  where
    counted : Option (List ℕ) × ℕ → Option (List ℕ) × ℕ
    counted x = (x.0, (if leb size x.1 then (size + 2 ^ 32 - 1) % 2 ^ 32 else x.1))

-- If the resolver takes every address in numbers for what it is, then for an IPv4 address and a
-- port of 16 bits, in a buffer of 22 bytes or more, `addr2a` prints a text and sets the size to
-- its length, and `init_addr` reads that text back as the same address and port.
pub init_addr-addr2a :
    (resolve : List ℕ → Option ℕ) (s q size : ℕ)
    → Resolves resolve
    → s < 2 ^ 32
    → q < 2 ^ 16
    → 22 ≤ size
    → (t : List ℕ) × (addr2a (inet s q) size ≡ (some t, length t))
      × (init_addr resolve t ≡ some (record { name = inet s q; namelen = in_size; a_addr = t }))
init_addr-addr2a resolve s q size r l h room =
    let t = text_of s (htons q) in
    let back : htons (htons q) ≡ q = htons_twice q h in
    (
      t,
      addr2a_run s q size h room,
      init_addr-text_of resolve s (htons q) r l (omega (arith, h))
          ∙ ap (λ p. some (record { name = inet s p; namelen = in_size; a_addr = t })) back,
    )
