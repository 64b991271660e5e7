-- ===== src/Mconf/RoundTrip.antt =====
-- What the getters of lib/mconf.c print, its setters read back.
use rfx.Prelude.{
  ℕ, ◌-◌, ◌*◌, ◌/◌, ◌%◌, ◌^◌, ◌≤◌, ◌<◌, ◌≡◌, refl, sym, ap, ◌∙◌, Bool, true, false, Option, none,
  some, List, [], ◌∷◌, ◌++◌, ◌==◌, ltb, leb, not, ◌&&◌, ◌||◌, arith, length, length-append,
  Bool-cases, inl, inr, if◌then◌else◌, codes, map, append-nil,
}
use mathlib.Core.Path.{subst}
use rfx.Mconf.Numbers.{decimal, digits, number, strtoul, strtol, is_space, to_lower}
use rfx.Mconf.Numbers.Decimal.{
  digits-decimals, first_digit, number-decimal, Stops, stops_lem, length-decimals,
}
use rfx.Mconf.{same_name}
use rfx.Mconf.Values.{
  mconf_set_uint_size, mconf_get_uint_size, mconf_set_aval, mconf_get_aval, printed, suffix, at_end,
}

-- A positive number in decimal, and a text behind it that no digit begins.
pub number_lem :
    (n : ℕ) (ys : List ℕ)
    → 0 < n
    → n < 2 ^ 32
    → Stops ys
    → number (decimal n ++ ys) ≡ (false, n, ys)
number_lem n ys p h stop =
    let (c, t, e, a, b) = first_digit 10 n ys p (omega arith) in
    ap number e
    ∙ number-decimal c t a b
    ∙ ap (λ (s : List ℕ). pack (digits 10 0 s)) (sym e)
    ∙ ap pack (digits-decimals 10 n ys (omega arith) ∙ stops_lem n ys stop)
  where
    pack : ℕ × List ℕ → Bool × ℕ × List ℕ
    pack x = (false, x.0, x.1)

pub strtoul_lem :
    (n : ℕ) (ys : List ℕ) → 0 < n → n < 2 ^ 32 → Stops ys → strtoul (decimal n ++ ys) ≡ (n, ys)
strtoul_lem n ys p h stop = ap value (number_lem n ys p h stop) ∙ ground arith
  where
    value : Bool × ℕ × List ℕ → ℕ × List ℕ
    value x =
        (if leb (2 ^ 64) x.1 then 2 ^ 64 - 1 else if x.0 then (2 ^ 64 - x.1) % 2 ^ 64 else x.1, x.2)

pub strtol_lem :
    (n : ℕ) (ys : List ℕ)
    → 0 < n
    → n < 2 ^ 32
    → Stops ys
    → strtol (decimal n ++ ys) ≡ (n, false, ys)
strtol_lem n ys p h stop = ap value (number_lem n ys p h stop) ∙ ground arith
  where
    value : Bool × ℕ × List ℕ → ℕ × Bool × List ℕ
    value (minus, n, rest) =
        if minus
        then (if ltb (2 ^ 63) n then (2 ^ 63, true, rest) else ((2 ^ 64 - n) % 2 ^ 64, false, rest))
        else if leb (2 ^ 63) n
        then (2 ^ 63 - 1, true, rest)
        else (n, false, rest)

printed_lem : (maxlen : ℕ) (s : List ℕ) → length s < maxlen → printed maxlen s ≡ some s
printed_lem maxlen s h = ground arith

-- A number with a suffix.
sized :
    (n bits var : ℕ) (ys : List ℕ)
    → 0 < n
    → n < 2 ^ 32
    → Stops ys
    → suffix (at_end ys) ≡ some bits
    → mconf_set_uint_size (decimal n ++ ys) var ≡ (true, n * 2 ^ bits % 2 ^ 64 % 2 ^ 32)
unfolding mconf_set_uint_size
sized n bits var ys p h stop e = ap after (strtoul_lem n ys p h stop) ∙ ap (shifted n) e
  where
    shifted : ℕ → Option ℕ → Bool × ℕ
    shifted m o = elim o [ none ↦ (false, var) | some k ↦ (true, m * 2 ^ k % 2 ^ 64 % 2 ^ 32) ]

    after : ℕ × List ℕ → Bool × ℕ
    after x = shifted x.0 (suffix (at_end x.1))

zero_sized : (var : ℕ) → mconf_set_uint_size (decimal 0 ++ b'g' ∷ []) var ≡ (true, 0)
unfolding mconf_set_uint_size suffix
zero_sized var = refl

suffixes :
    (suffix b'g' ≡ some 30)
    × (suffix b'm' ≡ some 20)
    × (suffix b'k' ≡ some 10)
    × (suffix 0 ≡ some 0)
unfolding suffix
suffixes = (refl, refl, refl, refl)

-- Read back, the text is the number.
abbrev pub SizeBack : ℕ → ℕ → ℕ → Type 0
SizeBack maxlen v var =
    (s : List ℕ) × (mconf_get_uint_size maxlen v ≡ some s) × (mconf_set_uint_size s var ≡ (true, v))

size_back :
    (maxlen v var n bits : ℕ) (ys : List ℕ)
    → 12 ≤ maxlen
    → mconf_get_uint_size maxlen v ≡ printed maxlen (decimal n ++ ys)
    → length ys ≤ 1
    → 0 < n
    → n < 2 ^ 32
    → Stops ys
    → suffix (at_end ys) ≡ some bits
    → n * 2 ^ bits % 2 ^ 64 % 2 ^ 32 ≡ v
    → SizeBack maxlen v var
size_back maxlen v var n bits ys room get l p h stop e back =
    let size = length-append (decimal n) ys in
    let digits_max = length-decimals 10 n in
    (
      decimal n ++ ys,
      get ∙ printed_lem maxlen (decimal n ++ ys) (omega (arith, size, digits_max, l, room)),
      sized n bits var ys p h stop e ∙ ap (λ z. (true, z)) back,
    )

-- For every unsigned of 32 bits and a buffer of 12 bytes or more, `mconf_get_uint_size` prints a
-- text, and `mconf_set_uint_size` reads it back as the same number, whatever the variable held.
pub mconf_set_uint_size-mconf_get_uint_size :
    (maxlen v var : ℕ) → 12 ≤ maxlen → v < 2 ^ 32 → SizeBack maxlen v var
unfolding mconf_get_uint_size
mconf_set_uint_size-mconf_get_uint_size maxlen v var room h =
    let (g, m, k, u) = suffixes in
    elim (Bool-cases (v % 2 ^ 30 == 0)) [
      | inl a ↦ elim (Bool-cases (v == 0)) [
        | inl z ↦ zero_back (ground arith)
        | inr z ↦
            size_back maxlen v var (v / 2 ^ 30) 30 (b'g' ∷ []) room (rw (mconf_get_uint_size, a))
              (omega arith) (ground arith) (omega arith) (omega arith) g (ground arith)
      ]
      | inr a ↦ elim (Bool-cases (v % 2 ^ 20 == 0)) [
        | inl b ↦
            size_back maxlen v var (v / 2 ^ 20) 20 (b'm' ∷ []) room (rw (mconf_get_uint_size, a, b))
              (omega arith) (ground arith) (omega arith) (omega arith) m (ground arith)
        | inr b ↦ elim (Bool-cases (v % 2 ^ 10 == 0)) [
          | inl c ↦
              size_back maxlen v var (v / 2 ^ 10) 10 (b'k' ∷ []) room
                (rw (mconf_get_uint_size, a, b, c)) (omega arith) (ground arith) (omega arith)
                (omega arith) k (ground arith)
          | inr c ↦
              size_back maxlen v var v 0 [] room
                (rw (mconf_get_uint_size, a, b, c)
                  (ap (printed maxlen) (sym (append-nil (decimal v)))))
                (omega arith) (ground arith) h tt u (omega arith)
        ]
      ]
    ]
  where
    zero_back : v ≡ 0 → SizeBack maxlen v var
    zero_back z =
        subst (λ x. SizeBack maxlen x var) (sym z)
          (
            decimal 0 ++ b'g' ∷ [],
            printed_lem maxlen (decimal 0 ++ b'g' ∷ []) (omega arith),
            zero_sized var,
          )

abbrev pub AvalBack : Bool → ℕ → ℕ → ℕ → Type 0
AvalBack stale maxlen v var =
    (s : List ℕ) × (mconf_get_aval maxlen v ≡ some s) × (mconf_set_aval stale s var ≡ (true, v))

not_auto :
    (c : ℕ) (t : List ℕ)
    → b'1' ≤ c
    → c ≤ b'9'
    → same_name (map to_lower (c ∷ t)) (codes "auto") ≡ false
not_auto c t a b = ground arith

aval_run :
    (stale : Bool) (s : List ℕ) (n var : ℕ)
    → same_name (map to_lower s) (codes "auto") ≡ false
    → strtol s ≡ (n, false, [])
    → n < 2 ^ 32
    → mconf_set_aval stale s var ≡ (true, n)
unfolding mconf_set_aval
aval_run stale s n var a e h =
    ap (λ b. if b then (true, 2 ^ 32 - 1) else after (strtol s)) a ∙ ap after e ∙ ground arith
  where
    after : ℕ × Bool × List ℕ → Bool × ℕ
    after (v, out, rest) =
        if (v == 2 ^ 63 || v == 2 ^ 63 - 1) && (out || stale)
        then (false, var)
        else if not (at_end rest == 0) && not (is_space (at_end rest))
        then (false, var)
        else (true, v % 2 ^ 32)

decimal_not_auto :
    (n : ℕ) → 0 < n → n < 2 ^ 32 → same_name (map to_lower (decimal n ++ [])) (codes "auto") ≡ false
decimal_not_auto n p h =
    let (c, t, e, a, b) = first_digit 10 n [] p (omega arith) in
    ap (λ s. same_name (map to_lower s) (codes "auto")) e ∙ not_auto c t a b

-- "auto" and "0".
two_texts :
    (stale : Bool) (var : ℕ)
    → (mconf_set_aval stale (codes "auto") var ≡ (true, 2 ^ 32 - 1))
      × (mconf_set_aval stale (codes "0") var ≡ (true, 0))
unfolding mconf_set_aval
two_texts stale var = (refl, refl)

get_auto : (maxlen : ℕ) → 11 ≤ maxlen → mconf_get_aval maxlen (2 ^ 32 - 1) ≡ some (codes "auto")
unfolding mconf_get_aval
get_auto maxlen h = ground arith

get_number :
    (maxlen v : ℕ)
    → (v == 2 ^ 32 - 1) ≡ false
    → mconf_get_aval maxlen v ≡ printed maxlen (decimal v ++ [])
unfolding mconf_get_aval
get_number maxlen v a = rw (mconf_get_aval, a) (ap (printed maxlen) (sym (append-nil (decimal v))))

-- For every int, as its word of 32 bits, and a buffer of 11 bytes or more, `mconf_get_aval`
-- prints a text, and `mconf_set_aval` reads it back as the same word, whatever errno and the
-- variable held.
pub mconf_set_aval-mconf_get_aval :
    (stale : Bool) (maxlen v var : ℕ) → 11 ≤ maxlen → v < 2 ^ 32 → AvalBack stale maxlen v var
mconf_set_aval-mconf_get_aval stale maxlen v var room h = elim (Bool-cases (v == 2 ^ 32 - 1)) [
  | inl a ↦
      let e : 2 ^ 32 - 1 ≡ v = ground arith in
      subst (λ x. AvalBack stale maxlen x var) e
        (codes "auto", get_auto maxlen room, (two_texts stale var).0)
  | inr a ↦ elim (Bool-cases (v == 0)) [
    | inl z ↦
        let e : 0 ≡ v = ground arith in
        subst (λ x. AvalBack stale maxlen x var) e
          (
            decimal 0 ++ [],
            get_number maxlen 0 refl ∙ printed_lem maxlen (decimal 0 ++ []) (omega arith),
            (two_texts stale var).1,
          )
    | inr z ↦
        let size = length-decimals 10 v in
        let p : 0 < v = ground arith in
        (
          decimal v ++ [],
          get_number maxlen v a
              ∙ printed_lem maxlen (decimal v ++ [])
                  (omega (arith, length-append (decimal v) [], size, room)),
          aval_run stale (decimal v ++ []) v var (decimal_not_auto v p h) (strtol_lem v [] p h tt)
              h,
        )
  ]
]
