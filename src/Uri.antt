-- ===== src/Uri.antt =====
-- `uri_decode` and `xdigit2i` of lib/misc.c.
use rfx.Prelude.{
  ℕ, zero, suc, ◌+◌, ◌-◌, ◌*◌, ◌%◌, ◌≤◌, ◌≡◌, refl, ap, Bool, List, [], ◌∷◌, ◌==◌, ◌&&◌, ◌||◌, leb,
  if◌then◌else◌, bit_or, length, take, arith, Bool-cases, inl, inr,
}

abbrev pub between : ℕ → ℕ → ℕ → Bool
between a c b = leb a c && leb c b

-- `isxdigit`
abbrev pub is_xdigit : ℕ → Bool
is_xdigit c = between 48 c 57 || between 97 c 102 || between 65 c 70

-- Only called on a hexadecimal digit.
unfoldable pub xdigit2i : ℕ → ℕ
xdigit2i c =
    if between 48 c 57 then c - 48 else if between 65 c 70 then c - 65 + 10 else c - 97 + 10

-- The byte that two digits stand for, cut to a `char`.
unfoldable pub pair : ℕ → ℕ → ℕ
unfolding xdigit2i
pair a b = bit_or (xdigit2i a * 16) (xdigit2i b) % 256

-- What the loop bodies test: the source goes on with `%` and two digits.
unfoldable pub is_escape : ℕ → ℕ → ℕ → Bool
is_escape c a b = c == 37 && is_xdigit a && is_xdigit b

-- The bytes written and the length returned.
abbrev pub Decoded : Type 0
Decoded = List ℕ × ℕ

abbrev pub counted : Decoded → Decoded
counted r = (r.0, suc r.1)

abbrev pub written : ℕ → Decoded → Decoded
written c r = (c ∷ r.0, suc r.1)

-- The loop at `skip_rest`.
unfoldable pub skip_rest : List ℕ → ℕ
unfolding is_escape
skip_rest [] = 0
skip_rest (c ∷ []) = 1
skip_rest (c ∷ a ∷ []) = 2
skip_rest (c ∷ a ∷ b ∷ s) =
    let far = skip_rest s in
    let near = skip_rest (a ∷ b ∷ s) in if is_escape c a b then suc far else suc near

-- `dst_len` is the room that is left at `d`.
unfoldable pub uri_decode : ℕ → List ℕ → Decoded
unfolding is_escape pair skip_rest
uri_decode dst_len [] = ([], 0)
uri_decode zero (c ∷ s) = ([], skip_rest (c ∷ s))
uri_decode (suc n) (c ∷ []) = written c (uri_decode n [])
uri_decode (suc n) (c ∷ a ∷ []) = written c (uri_decode n (a ∷ []))
uri_decode (suc n) (c ∷ a ∷ b ∷ s) =
    let far = uri_decode n s in
    let near = uri_decode n (a ∷ b ∷ s) in
    if is_escape c a b then written (pair a b) far else written c near

-- The decoded text, whatever its length.
abbrev pub decode : List ℕ → List ℕ
decode [] = []
decode (c ∷ []) = c ∷ []
decode (c ∷ a ∷ []) = c ∷ a ∷ []
decode (c ∷ a ∷ b ∷ s) =
    let far = decode s in
    let near = decode (a ∷ b ∷ s) in if is_escape c a b then pair a b ∷ far else c ∷ near

skip_rest_lem : (s : List ℕ) → skip_rest s ≡ length (decode s)
unfolding skip_rest
skip_rest_lem [] = refl
skip_rest_lem (c ∷ []) = refl
skip_rest_lem (c ∷ a ∷ []) = refl
skip_rest_lem (c ∷ a ∷ b ∷ s) = elim (Bool-cases (is_escape c a b)) [
  | inl e ↦ rw e (ap suc (skip_rest_lem s))
  | inr e ↦ rw e (ap suc (skip_rest_lem (a ∷ b ∷ s)))
]

-- For every room, `uri_decode` writes as much of the decoded text as there is room for, and
-- returns the length of the whole text, which is no longer than the source.
pub uri_decode_lem :
    (dst_len : ℕ) (src : List ℕ)
    → (uri_decode dst_len src ≡ (take dst_len (decode src), length (decode src)))
      × (length (decode src) ≤ length src)
unfolding uri_decode
uri_decode_lem n src = (both n src, shorter src)
  where
    both : (n : ℕ) (s : List ℕ) → uri_decode n s ≡ (take n (decode s), length (decode s))
    both zero [] = refl
    both (suc n) [] = refl
    both zero (c ∷ s) = ap (λ x. ([], x)) (skip_rest_lem (c ∷ s))
    both (suc n) (c ∷ []) = ap (written c) (both n [])
    both (suc n) (c ∷ a ∷ []) = ap (written c) (both n (a ∷ []))
    both (suc n) (c ∷ a ∷ b ∷ s) = elim (Bool-cases (is_escape c a b)) [
      | inl e ↦ rw e (ap (written (pair a b)) (both n s))
      | inr e ↦ rw e (ap (written c) (both n (a ∷ b ∷ s)))
    ]

    shorter : (s : List ℕ) → length (decode s) ≤ length s
    shorter [] = omega arith
    shorter (c ∷ []) = omega arith
    shorter (c ∷ a ∷ []) = omega arith
    shorter (c ∷ a ∷ b ∷ s) = elim (Bool-cases (is_escape c a b)) [
      | inl e ↦ rw e (omega (arith, shorter s))
      | inr e ↦ rw e (omega (arith, shorter (a ∷ b ∷ s)))
    ]
