-- ===== src/Mconf/Numbers/Decimal.antt =====
-- Numbers in decimal, and what reads them.
use rfx.Prelude.{
  ℕ, zero, suc, ◌+◌, ◌*◌, ◌/◌, ◌%◌, ◌^◌, ◌≤◌, ◌<◌, ◌≡◌, refl, ap, ◌∙◌, Bool, true, false, List, [],
  ◌∷◌, ◌++◌, ltb, arith, length, append_assoc, length-append, Bool-cases, inl, inr, if◌then◌else◌,
}
use rfx.Mconf.Numbers.{skip_space, signed, read_some, decimals, digits, digit_value, based, number}

pub digit_value_lem : (d : ℕ) → d < 10 → digit_value (b'0' + d) ≡ d
digit_value_lem d h = ground arith

pub digits_step :
    (n d : ℕ) (ys : List ℕ) → d < 10 → digits 10 n ((b'0' + d) ∷ ys) ≡ digits 10 (n * 10 + d) ys
digits_step n d ys h = ground (arith, digit_value_lem d h)

-- The digits of a number, read behind nothing, give the number.
pub digits-decimals :
    (f n : ℕ) (ys : List ℕ) → n < 10 ^ f → digits 10 0 (decimals f n ++ ys) ≡ digits 10 n ys
digits-decimals zero n ys h = ap (λ k. digits 10 k ys) (omega arith)
digits-decimals (suc f) n ys h = elim (Bool-cases (ltb n 10)) [
  | inl t ↦ ground (arith, t)
  | inr t ↦
      let front = decimals f (n / 10) in
      let d = b'0' + n % 10 in
      let split : decimals (suc f) n ++ ys ≡ front ++ (d ∷ ys) =
        rw t (append_assoc front (d ∷ []) ys) in
      let last : digits 10 (n / 10) (d ∷ ys) ≡ digits 10 n ys =
        digits_step (n / 10) (n % 10) ys (omega arith) ∙ ap (λ k. digits 10 k ys) (omega arith) in
      ap (digits 10 0) split ∙ digits-decimals f (n / 10) (d ∷ ys) (omega arith) ∙ last
]

-- The first digit of a positive number.
pub first_digit :
    (f n : ℕ) (ys : List ℕ)
    → 0 < n
    → n < 10 ^ f
    → (c : ℕ) × (t : List ℕ) × (decimals f n ++ ys ≡ c ∷ t) × (b'1' ≤ c) × (c ≤ b'9')
first_digit zero n ys p h = absurd (omega arith)
first_digit (suc f) n ys p h = elim (Bool-cases (ltb n 10)) [
  | inl t ↦ (b'0' + n, ys, rw t, ground arith, ground arith)
  | inr t ↦
      let (c, u, e, a, b) =
        first_digit f (n / 10) ((b'0' + n % 10) ∷ ys) (ground arith) (omega arith) in
      (c, u, rw t (append_assoc (decimals f (n / 10)) ((b'0' + n % 10) ∷ []) ys ∙ e), a, b)
]

pub based-decimal : (c : ℕ) (t : List ℕ) → b'1' ≤ c → c ≤ b'9' → based (c ∷ t) ≡ digits 10 0 (c ∷ t)
based-decimal c [] a b = refl
based-decimal c (d ∷ []) a b = ground arith
based-decimal c (d ∷ (e ∷ t)) a b = ground arith

pub no_space : (c : ℕ) (t : List ℕ) → b'1' ≤ c → c ≤ b'9' → skip_space (c ∷ t) ≡ c ∷ t
no_space c t a b = ground arith

pub no_sign : (c : ℕ) (t : List ℕ) → b'1' ≤ c → c ≤ b'9' → signed (c ∷ t) ≡ (false, c ∷ t)
no_sign c t a b = ground arith

pub some_digit : (c : ℕ) (t : List ℕ) → b'1' ≤ c → c ≤ b'9' → read_some (c ∷ t) ≡ true
some_digit c t a b = ground arith

pub number-decimal :
    (c : ℕ) (t : List ℕ)
    → b'1' ≤ c
    → c ≤ b'9'
    → number (c ∷ t) ≡ (false, (digits 10 0 (c ∷ t)).0, (digits 10 0 (c ∷ t)).1)
number-decimal c t a b =
    let e = ap signed (no_space c t a b) ∙ no_sign c t a b in
    ap after e ∙ ap pick (some_digit c t a b) ∙ ap with_sign (based-decimal c t a b)
  where
    with_sign : ℕ × List ℕ → Bool × ℕ × List ℕ
    with_sign x = (false, x.0, x.1)

    pick : Bool → Bool × ℕ × List ℕ
    pick b = if b then with_sign (based (c ∷ t)) else (false, 0, c ∷ t)

    after : Bool × List ℕ → Bool × ℕ × List ℕ
    after x = if read_some x.1 then (x.0, (based x.1).0, (based x.1).1) else (false, 0, c ∷ t)

-- A text that no digit begins.
abbrev pub Stops : List ℕ → Type 0
Stops [] = Unit {0}
Stops (c ∷ s) = 10 ≤ digit_value c

pub stops_lem : (n : ℕ) (ys : List ℕ) → Stops ys → digits 10 n ys ≡ (n, ys)
stops_lem n [] h = refl
stops_lem n (c ∷ ys) h = ground arith

pub length-decimals : (f n : ℕ) → length (decimals f n) ≤ f
length-decimals zero n = omega arith
length-decimals (suc f) n =
    ground (
      arith,
      length-decimals f (n / 10),
      length-append (decimals f (n / 10)) ((b'0' + n % 10) ∷ []),
    )
