-- ===== src/Mconf/Help/Column.antt =====
-- The description column of `mconf_help_msg`: when the loop over its lines ends.
use mathlib.Core.Path.{subst}
use rfx.Prelude.{
  ℕ, zero, suc, ◌+◌, ◌-◌, ◌≤◌, ◌<◌, ◌≡◌, refl, sym, ap, ◌∙◌, ◌⊎◌, true, false, some, List, [], ◌∷◌,
  ◌++◌, ◌==◌, leb, arith, length, length-append, length-take, length-drop, length-replicate,
  replicate, take, drop, All, Bool-cases, inl, inr, if◌then◌else◌,
}
use rfx.Mconf.Help.{
  is_ws, word_len, skip_ws, starts_ws, fill, trim, pad, describe, Output, lines, endless,
  then_lines,
}

-- From no place of the text do `n` characters without white space follow.
abbrev pub Short : ℕ → List ℕ → Type 0
Short n [] = Unit {0}
Short n (c ∷ s) = (word_len n (c ∷ s) < n) × Short n s

word_len_le : (r : ℕ) (s : List ℕ) → (word_len r s ≤ r) × (word_len r s ≤ length s)
unfolding word_len
word_len_le zero s = (omega arith, omega arith)
word_len_le (suc r) [] = (omega arith, omega arith)
word_len_le (suc r) (c ∷ s) = let (a, b) = word_len_le r s in (ground (arith, a), ground (arith, b))

-- A word of no character begins with white space.
no_word : (r c : ℕ) (s : List ℕ) → 0 < r → word_len r (c ∷ s) ≡ 0 → starts_ws (c ∷ s) ≡ true
unfolding word_len is_ws
no_word zero c s p e = absurd (omega arith)
no_word (suc r) c s p e = ground arith

skip_ws_le : (s : List ℕ) → length (skip_ws s) ≤ length s
unfolding skip_ws
skip_ws_le [] = omega arith
skip_ws_le (c ∷ s) = ground (arith, skip_ws_le s)

skip_ws_lt : (s : List ℕ) → starts_ws s ≡ true → length (skip_ws s) < length s
unfolding skip_ws is_ws
skip_ws_lt [] e = absurd (cc e)
skip_ws_lt (c ∷ s) e = ground (arith, skip_ws_le s)

skip_ws-Short : (n : ℕ) (s : List ℕ) → Short n s → Short n (skip_ws s)
unfolding skip_ws
skip_ws-Short n [] a = tt
skip_ws-Short n (c ∷ s) a = elim (Bool-cases (is_ws c)) [
  | inl y ↦ rw y (skip_ws-Short n s a.1)
  | inr y ↦ rw y a
]

drop-Short : (n j : ℕ) (s : List ℕ) → Short n s → Short n (drop j s)
drop-Short n zero s a = a
drop-Short n (suc j) [] a = a
drop-Short n (suc j) (c ∷ s) a = drop-Short n j s a.1

-- A line that is filled up to `width`, from the text `s`.
record Filled (n width : ℕ) (line s l s' : List ℕ) : Type 0 where
  fits : length l ≤ width
  less : length s' ≤ length s
  short : Short n s → Short n s'
  -- It takes a character if there is room for the first word.
  progress :
      0 < length s → length line + word_len (width - length line) s < width → length s' < length s

fill_stays :
    (f width : ℕ) (line : List ℕ) (c : ℕ) (s : List ℕ)
    → length line ≤ width
    → width < 128
    → width ≤ length line + word_len (width - length line) (c ∷ s)
    → fill (suc f) width line (c ∷ s) ≡ some (line, c ∷ s)
unfolding fill
fill_stays f width line c s a b e = ground (arith, (word_len_le (width - length line) (c ∷ s)).0)

module _ (f width : ℕ) (line : List ℕ) (c : ℕ) (s : List ℕ) where
  abbrev j : ℕ
  j = word_len (width - length line) (c ∷ s)

  abbrev text : List ℕ
  text = drop j (c ∷ s)

  fill_spaced :
      length line + j < width
      → width < 128
      → starts_ws text ≡ true
      → fill (suc f) width line (c ∷ s)
        ≡ fill f width ((line ++ take j (c ∷ s)) ++ 0x20 ∷ []) (skip_ws text)
  unfolding fill
  fill_spaced a b e = ground (arith, e)

  fill_last :
      length line + j < width
      → width < 128
      → starts_ws text ≡ false
      → fill (suc f) width line (c ∷ s) ≡ fill f width (line ++ take j (c ∷ s)) (skip_ws text)
  unfolding fill
  fill_last a b e = ground (arith, e)

-- The text behind a word and its white space.
module _ (n width : ℕ) (line : List ℕ) (c : ℕ) (s : List ℕ) where
  abbrev k : ℕ
  k = word_len (width - length line) (c ∷ s)

  abbrev behind : List ℕ
  behind = skip_ws (drop k (c ∷ s))

  behind-Short : Short n (c ∷ s) → Short n behind
  behind-Short a = skip_ws-Short n (drop k (c ∷ s)) (drop-Short n k (c ∷ s) a)

  behind_lt : length line < width → length behind < length (c ∷ s)
  behind_lt a =
      let d = length-drop k (c ∷ s) in
      let w = skip_ws_le (drop k (c ∷ s)) in
      elim (Bool-cases (k == 0)) [
        | inl z ↦
            let e : k ≡ 0 = ground arith in
            let l = skip_ws_lt (c ∷ s) (no_word (width - length line) c s (omega arith) e) in
            subst (λ i. length (skip_ws (drop i (c ∷ s))) < length (c ∷ s)) (sym e) l
        | inr z ↦ let e : 0 < k = ground arith in omega (arith, d, w, e)
      ]

fill_lem :
    (n f width : ℕ) (line s : List ℕ)
    → length s ≤ f
    → length line ≤ width
    → width < 128
    → (l : List ℕ) × (s' : List ℕ) × (fill f width line s ≡ some (l, s'))
      × Filled n width line s l s'
unfolding fill
fill_lem n f width line [] h a b = (
  line,
  [],
  refl,
  record { fits = a; less = omega arith; short = λ x. x; progress = λ p q. absurd (omega arith) },
)
fill_lem n zero width line (c ∷ s) h a b = absurd (omega arith)
fill_lem n (suc f) width line (c ∷ s) h a b =
    let i = word_len (width - length line) (c ∷ s) in
    let taken = take i (c ∷ s) in
    elim (Bool-cases (leb width (length line + i))) [
      | inl y ↦
          let e : width ≤ length line + i = ground arith in
          (
            line,
            c ∷ s,
            fill_stays f width line c s a b e,
            record {
              fits = a;
              less = omega arith;
              short = λ x. x;
              progress = λ p q. absurd (omega (arith, e, q));
            },
          )
      | inr y ↦
          let e : length line + i < width = ground arith in
          let lt = behind_lt n width line c s (omega (arith, e)) in
          let size = length-append line taken in
          let cut = length-take i (c ∷ s) in
          let le = (word_len_le (width - length line) (c ∷ s)).1 in
          elim (Bool-cases (starts_ws (drop i (c ∷ s)))) [
            | inl w ↦
                let sp = length-append (line ++ taken) (0x20 ∷ []) in
                let (l, s', run, g) =
                  fill_lem n f width ((line ++ taken) ++ 0x20 ∷ []) (behind n width line c s)
                    (omega (arith, lt, h)) (omega (arith, size, cut, le, sp, e)) b in
                (
                  l,
                  s',
                  fill_spaced f width line c s e b w ∙ run,
                  record {
                    fits = g.fits;
                    less = omega (arith, g.less, lt);
                    short = λ x. g.short (behind-Short n width line c s x);
                    progress = λ p q. omega (arith, g.less, lt);
                  },
                )
            | inr w ↦
                let (l, s', run, g) =
                  fill_lem n f width (line ++ taken) (behind n width line c s)
                    (omega (arith, lt, h)) (omega (arith, size, cut, le, e)) b in
                (
                  l,
                  s',
                  fill_last f width line c s e b w ∙ run,
                  record {
                    fits = g.fits;
                    less = omega (arith, g.less, lt);
                    short = λ x. g.short (behind-Short n width line c s x);
                    progress = λ p q. omega (arith, g.less, lt);
                  },
                )
          ]
    ]

trim_le : (l : List ℕ) → length (trim l) ≤ length l
unfolding trim
trim_le [] = omega arith
trim_le (c ∷ l) = step (trim l) (trim_le l)
  where
    step :
        (r : List ℕ)
        → length r ≤ length l
        → length (elim r as (λ x. List ℕ) [
          | [] ↦ if c == 0x20 then [] else c ∷ []
          | x ∷ xs ↦ c ∷ (x ∷ xs)
        ])
          ≤ suc (length l)
    step [] h = ground arith
    step (x ∷ xs) h = omega arith

length-pad : (col : ℕ) (line : List ℕ) → length line ≤ col → length (pad col line) ≡ col
length-pad col line h = omega (
  arith,
  length-append line (replicate (col - length line) 0x20),
  length-replicate {A = ℕ} (col - length line) 0x20,
)

module _ (f col width : ℕ) (line s l : List ℕ) where
  describe_ends :
      length (pad col line) ≤ 128
      → length l < 128
      → fill (length s) width (pad col line) s ≡ some (l, [])
      → describe (suc f) col width line s ≡ lines (trim l ∷ [])
  unfolding describe
  describe_ends a b e = ground (arith, e)

  describe_goes_on :
      (c : ℕ) (s' : List ℕ)
      → length (pad col line) ≤ 128
      → length l < 128
      → fill (length s) width (pad col line) s ≡ some (l, c ∷ s')
      → describe (suc f) col width line s
        ≡ then_lines (trim l ∷ []) (describe f col width [] (c ∷ s'))
  unfolding describe
  describe_goes_on c s' a b e = ground (arith, e)

abbrev pub Described : ℕ → Output → Type 0
Described width o = (ls : List (List ℕ)) × (o ≡ lines ls) × All (λ l. length l ≤ width) ls

head-Short : (n : ℕ) (s : List ℕ) → 0 < length s → Short n s → word_len n s < n
head-Short n [] p a = absurd (omega arith)
head-Short n (c ∷ s) p a = a.0

list_cases : (s : List ℕ) → (s ≡ []) ⊎ ((c : ℕ) × (t : List ℕ) × (s ≡ c ∷ t))
list_cases [] = inl refl
list_cases (c ∷ t) = inr (c, t, refl)

-- One line, and then the others.
describe_step :
    (f col width : ℕ) (line s : List ℕ)
    → length line ≤ col
    → col < width
    → width < 128
    → Short (width - col) s
    → ((c : ℕ) (u : List ℕ)
        → length (c ∷ u) < length s
        → Short (width - col) (c ∷ u)
        → Described width (describe f col width [] (c ∷ u)))
    → Described width (describe (suc f) col width line s)
describe_step f col width line s a b w short others =
    let p = length-pad col line a in
    let (l, s', run, g) =
      fill_lem (width - col) (length s) width (pad col line) s (omega arith) (omega (arith, p)) w in
    let i = g.fits in
    let t = trim_le l in
    let fits : length (pad col line) ≤ 128 = omega (arith, p) in
    let room : length l < 128 = omega (arith, i, w) in
    elim (list_cases s') [
      | inl e ↦ (
        trim l ∷ [],
        describe_ends f col width line s l fits room (run ∙ ap (λ x. some (l, x)) e),
        (omega (arith, t, i), tt),
      )
      | inr (c, u, e) ↦
          let less = g.less in
          let n = ap length e in
          let some_text : 0 < length s = omega (arith, less, n) in
          let first = head-Short (width - col) s some_text short in
          let lt =
            g.progress some_text
              (subst (λ x. x + word_len (width - x) s < width) (sym p) (omega (arith, first, b))) in
          let (ls, run', all) =
            others c u (omega (arith, lt, n)) (subst (Short (width - col)) e (g.short short)) in
          (
            trim l ∷ ls,
            describe_goes_on f col width line s l c u fits room (run ∙ ap (λ x. some (l, x)) e)
                ∙ ap (then_lines (trim l ∷ [])) run',
            (omega (arith, t, i), all),
          )
    ]

-- If the option column fits in front of the description column, that is left of the width, the
-- width is below 128, and no run of characters without white space is as long as the description
-- column is wide, then the loop that prints a description ends after no more lines than the text
-- has characters, and one, without a store past its line, and no line is longer than the width.
pub describe_lem :
    (f col width : ℕ) (line s : List ℕ)
    → length s ≤ f
    → length line ≤ col
    → col < width
    → width < 128
    → Short (width - col) s
    → Described width (describe (suc f) col width line s)
describe_lem zero col width line s h a b w short =
    describe_step 0 col width line s a b w short (λ c u lt k. absurd (omega (arith, lt, h)))
describe_lem (suc f) col width line s h a b w short =
    describe_step (suc f) col width line s a b w short
      (λ c u lt k. describe_lem f col width [] (c ∷ u) (omega (arith, lt, h)) (omega arith) b w k)

-- If, with the columns as they should be and a width below 128, the text begins with a word as
-- long as the description column is wide, then no number of lines is enough: the loop that
-- prints a description never ends.
pub describe_endless :
    (f col width : ℕ) (line : List ℕ) (c : ℕ) (s : List ℕ)
    → length line ≤ col
    → col < width
    → width < 128
    → word_len (width - col) (c ∷ s) ≡ width - col
    → describe f col width line (c ∷ s) ≡ endless
describe_endless zero col width line c s a b w e = unfold describe in refl
describe_endless (suc f) col width line c s a b w e =
    let p = length-pad col line a in
    describe_goes_on f col width line (c ∷ s) (pad col line) c s (omega (arith, p, b, w))
      (omega (arith, p, b, w))
      (fill_stays (length s) width (pad col line) c s (omega (arith, p, b)) w
        (subst (λ x. width ≤ x + word_len (width - x) (c ∷ s)) (sym p) (omega (arith, e))))
    ∙ ap (then_lines (trim (pad col line) ∷ []))
        (describe_endless f col width [] c s (omega arith) b w e)
