-- ===== src/Loot/Lexing.antt =====
-- The grammar of a loot command, and that `loot_cmd` reads by it.
use mathlib.Core.Path.{subst}
use rfx.Prelude.{
  ℕ, zero, suc, ◌<◌, ◌≤◌, ◌≡◌, refl, sym, ap, ◌∙◌, Bool, true, false, List, [], ◌∷◌, ◌++◌, ◌==◌,
  ==_iff, ◌||◌, if◌then◌else◌, length, length-append, append-nil, arith, All, Bool-cases, inl, inr,
}
use rfx.Loot.Command.{Op, op_set, op_add, op_sub, is_space, skip_space, operator, word}
use rfx.Loot.Meaning.{Term, terms}

-- White space, a plus or a minus ends a name.
abbrev pub breaks : ℕ → Bool
breaks c = c == b'+' || c == b'-' || is_space c

abbrev pub Stops : List ℕ → Type 0
Stops [] = Unit {0}
Stops (c ∷ s) = breaks c ≡ true

-- A plus adds, a minus removes, and nothing in front of a name sets.
abbrev pub sign : Op → List ℕ
sign op_set = []
sign op_add = b'+' ∷ []
sign op_sub = b'-' ∷ []

-- A command is white space, or white space, a sign, a name and the command behind it.
pub data IsCommand : List ℕ → List Term → Type 0 where
  ends : (s : List ℕ) → All (λ c. is_space c ≡ true) s → IsCommand s []
  term :
      (s : List ℕ) (o : Op) (name rest : List ℕ) (ts : List Term)
      → All (λ c. is_space c ≡ true) s
      → All (λ c. breaks c ≡ false) name
      → Stops rest
      → (o ≡ op_set → 0 < length name)
      → IsCommand rest ts
      → IsCommand (s ++ (sign o ++ (name ++ rest))) ((o, name) ∷ ts)

abbrev first : List ℕ → ℕ
first [] = 0
first (c ∷ s) = c

-- The spaces that are skipped, and what stands behind them.
record Skipped (m : List ℕ) : Type 0 where
  spaces : List ℕ
  white : All (λ c. is_space c ≡ true) spaces
  split : m ≡ spaces ++ skip_space m
  black : (c : ℕ) (r : List ℕ) → skip_space m ≡ c ∷ r → is_space c ≡ false

skip_lem : (m : List ℕ) → Skipped m
skip_lem [] = record { spaces = []; white = tt; split = refl; black = λ c r e. cc }
skip_lem (c ∷ m) = elim (Bool-cases (is_space c)) [
  | inl y ↦
      let k = skip_lem m in
      record {
        spaces = c ∷ k.spaces;
        white = (y, k.white);
        split = rw y (ap (λ z. c ∷ z) k.split);
        black = λ d r e. k.black d r (rw (skip_space, y) at e);
      }
  | inr n ↦ record {
    spaces = [];
    white = tt;
    split = rw n refl;
    black = λ d r e.
        let same : c ∷ m ≡ d ∷ r = rw (skip_space, n) at e in
        subst (λ z. is_space z ≡ false) (ap first same) n;
  }
]

record Worded (m : List ℕ) (w : List ℕ × List ℕ) : Type 0 where
  plain : All (λ c. breaks c ≡ false) w.0
  split : m ≡ w.0 ++ w.1
  stops : Stops w.1

word_lem : (m : List ℕ) → Worded m (word m)
word_lem [] = record { plain = tt; split = refl; stops = tt }
word_lem (c ∷ m) = elim (Bool-cases (breaks c)) [
  | inl y ↦ rw y (record { plain = tt; split = refl; stops = y })
  | inr n ↦
      let k = word_lem m in
      rw n (record { plain = (n, k.plain); split = ap (λ z. c ∷ z) k.split; stops = k.stops })
]

-- A sign or none, on a text that does not begin with a space.
record Signed (c : ℕ) (m : List ℕ) (x : Op × List ℕ) : Type 0 where
  split : c ∷ m ≡ sign x.0 ++ x.1
  named : x.0 ≡ op_set → 0 < length (word x.1).0

operator_lem : (c : ℕ) (m : List ℕ) → is_space c ≡ false → Signed c m (operator (c ∷ m))
operator_lem c m s = elim (Bool-cases (c == b'+')) [
  | inl y ↦ rw y (record { split = ap (λ z. z ∷ m) ((==_iff c b'+').0 y); named = λ e. cc })
  | inr y ↦ elim (Bool-cases (c == b'-')) [
    | inl z ↦ rw (y, z) (record { split = ap (λ x. x ∷ m) ((==_iff c b'-').0 z); named = λ e. cc })
    | inr z ↦ rw (y, z) (record { split = refl; named = λ e. ground (arith, y, z, s) })
  ]
]

length-word : (m : List ℕ) → length (word m).1 ≤ length m
length-word [] = omega arith
length-word (c ∷ m) = elim (Bool-cases (c == 43 || c == 45 || is_space c)) [
  | inl e ↦ rw e (omega arith)
  | inr e ↦ rw e (omega (arith, length-word m))
]

-- A term takes a character or more.
takes_one :
    (c : ℕ) (m : List ℕ)
    → is_space c ≡ false
    → length (word (operator (c ∷ m)).1).1 < suc (length m)
takes_one c m s = elim (Bool-cases (c == 43)) [
  | inl e ↦ rw e (omega (arith, length-word m))
  | inr e ↦ elim (Bool-cases (c == 45)) [
    | inl f ↦ rw (e, f) (omega (arith, length-word m))
    | inr f ↦ rw (e, f, e, f, s) (omega (arith, length-word m))
  ]
]

-- A text that does not begin with a space is a sign, a name and what is left of it.
first_term :
    (f c : ℕ) (r spaces : List ℕ)
    → All (λ x. is_space x ≡ true) spaces
    → is_space c ≡ false
    → IsCommand (word (operator (c ∷ r)).1).1 (terms f (word (operator (c ∷ r)).1).1)
    → IsCommand (spaces ++ (c ∷ r)) (
        ((operator (c ∷ r)).0, (word (operator (c ∷ r)).1).0)
        ∷ terms f (word (operator (c ∷ r)).1).1)
first_term f c r spaces white b rest =
    let o = operator (c ∷ r) in
    let s = operator_lem c r b in
    let w = word_lem o.1 in
    subst (λ z. IsCommand z ((o.0, (word o.1).0) ∷ terms f (word o.1).1))
      (sym (ap (λ z. spaces ++ z) (s.split ∙ ap (λ z. sign o.0 ++ z) w.split)))
      (term spaces o.0 (word o.1).0 (word o.1).1 (terms f (word o.1).1) white w.plain w.stops
        s.named rest)

-- The terms that the loop reads, with fuel for every character, are those of the grammar.
pub terms-IsCommand : (f : ℕ) (m : List ℕ) → length m ≤ f → IsCommand m (terms f m)
terms-IsCommand zero [] h = ends [] tt
terms-IsCommand zero (c ∷ m) h = absurd (omega arith)
terms-IsCommand (suc f) m h =
    let k = skip_lem m in go (skip_space m) (terms-IsCommand f) k.split k.black
  where
    go :
        (t : List ℕ)
        → ((n : List ℕ) → length n ≤ f → IsCommand n (terms f n))
        → m ≡ (skip_lem m).spaces ++ t
        → ((c : ℕ) (r : List ℕ) → t ≡ c ∷ r → is_space c ≡ false)
        → IsCommand m (
            if length t == 0
            then []
            else ((operator t).0, (word (operator t).1).0) ∷ terms f (word (operator t).1).1)
    go [] ih e b =
        let k = skip_lem m in
        subst (λ z. IsCommand z []) (sym (e ∙ append-nil k.spaces)) (ends k.spaces k.white)
    go (c ∷ r) ih e b =
        let k = skip_lem m in
        let black = b c r refl in
        let some_left : (length (c ∷ r) == 0) ≡ false = ground arith in
        let rest = (word (operator (c ∷ r)).1).1 in
        let short = takes_one c r black in
        let all = ap length e in
        let sum = length-append k.spaces (c ∷ r) in
        let found =
          first_term f c r k.spaces k.white black (ih rest (omega (arith, short, all, sum, h))) in
        subst
          (λ x. IsCommand m (
            if x then [] else ((operator (c ∷ r)).0, (word (operator (c ∷ r)).1).0) ∷ terms f rest))
          (sym some_left)
          (subst
            (λ z.
              IsCommand z (((operator (c ∷ r)).0, (word (operator (c ∷ r)).1).0) ∷ terms f rest))
            (sym e) found)
