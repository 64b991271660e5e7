-- ===== src/Loot/Meaning.antt =====
-- What a loot command means, and that `loot_cmd` does it.
use rfx.Prelude.{
  codes, ◌%◌, ◌^◌, ℕ, zero, suc, ◌<◌, ◌≤◌, ◌≢◌, ◌≡◌, refl, sym, ap, ap₂, ◌∙◌, Bool, true, false,
  Option, none, some, List, [], ◌∷◌, ◌++◌, ◌==◌, ==_iff, ltb, not, ◌&&◌, ◌||◌, if◌then◌else◌,
  length, get_or, take, drop, arith, All, Bool-cases, Option-cases, inl, inr, append-nil,
}
use mathlib.Core.Path.{subst}
use rfx.Loot.{LootMask, mask_size, test, set_all, set_bit}
use rfx.Loot.Bits.{IsMask, test-set_all, test-add_mask, test-sub_mask}
use rfx.Loot.Setting.{test-set_bit}
use rfx.Mconf.Numbers.{digits}
use rfx.Loot.Hex.{hex_loop_lem}
use rfx.Loot.Sound.{
  set_all-IsMask, set_bit-IsMask, add_mask-IsMask, sub_mask-IsMask, over-IsMask, set_bit-out,
}
use rfx.Loot.Command.{
  Op, op_set, op_add, op_sub, combine, same_text, all_text, none_text, file_name, hex_loop,
  skip_space, operator, word, fload, parse_mask, cmd_loop,
}

-- Which kinds of item a mask has.
abbrev pub Items : Type 0
Items = ℕ → Bool

pub record Has (m : LootMask) (p : Items) : Type 0 where
  pub mask : IsMask m
  pub same : (i : ℕ) → i < 65536 → test m i ≡ p i

abbrev pub join : Op → Items → Items → Items
join op_set p q = q
join op_add p q = λ i. p i || q i
join op_sub p q = λ i. p i && not (q i)

combine-Has :
    (o : Op) (m n : LootMask) (p q : Items) → Has m p → Has n q → Has (combine o m n) (join o p q)
combine-Has op_set m n p q v w = w
combine-Has op_add m n p q v w = record {
  mask = add_mask-IsMask m n v.mask w.mask;
  same = λ i h. test-add_mask m n i v.mask w.mask h ∙ ap₂ ◌||◌ (v.same i h) (w.same i h);
}
combine-Has op_sub m n p q v w = record {
  mask = sub_mask-IsMask m n v.mask;
  same = λ i h.
      test-sub_mask m n i v.mask w.mask h ∙ ap₂ (λ x y. x && not y) (v.same i h) (w.same i h);
}

pub set_all-Has : (f : Bool) → Has (set_all f) (λ i. f)
set_all-Has f = record { mask = set_all-IsMask f; same = test-set_all f }

-- A term of a command: an operator and a name.
abbrev pub Term : Type 0
Term = Op × List ℕ

-- The terms of a command, by the number of characters left.
abbrev pub terms : ℕ → List ℕ → List Term
terms zero m = []
terms (suc f) m =
    let text = skip_space m in
    let (op, rest) = operator text in
    let (name, behind) = word rest in
    let next = terms f behind in if length text == 0 then [] else (op, name) ∷ next

module _ (files : List ℕ → Option (List ℕ))
    (bytes : (name text : List ℕ) → files name ≡ some text → All (λ b. b < 256) text) where
  -- What a name means: every item, none, those of a file that has a whole mask, or the one item of a
  -- number in hexadecimal, of which 32 bits count.
  abbrev pub meaning : List ℕ → Option Items
  meaning n =
      if same_text n (codes "all")
      then some (λ i. true)
      else if same_text n (codes "none")
      then some (λ i. false)
      else if ltb 1 (length n) && (get_or n 0 0 == b'@')
      then (elim (files (take 63 (codes "drop/list-" ++ drop 1 n ++ codes ".bin"))) [
        | none ↦ none
        | some text ↦
            if length (take mask_size text) == mask_size
            then some (test (take mask_size text))
            else none
      ])
      else if ltb 2 (length n) && (get_or n 0 0 == b'0') && (get_or n 1 0 == b'x')
      then some (λ i. (digits 16 0 (drop 2 n)).0 % 2 ^ 32 == i)
      else none

  -- The items that a list of terms leads to, from `p`.
  abbrev pub run_terms : List Term → Items → Option Items
  run_terms [] p = some p
  run_terms ((o, n) ∷ ts) p = elim (meaning n) [ none ↦ none | some q ↦ run_terms ts (join o p q) ]

  -- The outcome of `parse_mask` against a meaning.
  abbrev pub Reads : Option Items → Bool × LootMask → Type 0
  Reads none r = r.0 ≡ false
  Reads (some p) r = (r.0 ≡ true) × Has r.1 p

  one_item : (id : ℕ) → Has (set_bit (set_all false) id true).1 (λ i. id == i)
  one_item id = record {
    mask = set_bit-IsMask (set_all false) id true (set_all-IsMask false);
    same = λ i h. elim (Bool-cases (ltb id 65536)) [
      | inl low ↦
          test-set_bit (set_all false) id i true (set_all-IsMask false) (ground arith) h
          ∙ ap (λ x. if id == i then true else x) (test-set_all false i h)
          ∙ yes_no (id == i)
      | inr high ↦
          ap (λ m. test m i) (out (set_all false) id (ground arith))
          ∙ test-set_all false i h
          ∙ (let ne : id ≢ i = λ e. absurd (omega (arith, high_is high, e, h)) in
              ground (arith, ne))
    ];
  }
    where
      yes_no : (b : Bool) → (if b then true else false) ≡ b
      yes_no true = refl
      yes_no false = refl

      high_is : ltb id 65536 ≡ false → 65536 ≤ id
      high_is e = ground (arith, e)

      out : (m : LootMask) (id : ℕ) → 65536 ≤ id → (set_bit m id true).1 ≡ m
      out m id h = set_bit-out m id true h

  nothing_left : (n : ℕ) (m : LootMask) → length m ≤ n → drop n m ≡ []
  nothing_left zero [] h = refl
  nothing_left zero (b ∷ m) h = absurd (omega arith)
  nothing_left (suc n) [] h = refl
  nothing_left (suc n) (b ∷ m) h = nothing_left n m (omega arith)

  whole_mask :
      (text : List ℕ) (d : LootMask)
      → All (λ b. b < 256) text
      → IsMask d
      → Reads
          (if length (take mask_size text) == mask_size
            then some (test (take mask_size text))
            else none)
          (
            length (take mask_size text) == mask_size,
            take mask_size text ++ drop (length (take mask_size text)) d,
          )
  whole_mask text d a v = elim (Bool-cases (length (take mask_size text) == mask_size)) [
    | inl e ↦
        let n : length (take mask_size text) ≡ mask_size = (==_iff _ _).0 e in
        let all : take mask_size text ++ drop (length (take mask_size text)) d
            ≡ take mask_size text =
          ap (λ r. take mask_size text ++ r)
            (nothing_left (length (take mask_size text)) d (omega (arith, n, v.size)))
          ∙ append-nil (take mask_size text) in
        rw e (refl, record { mask = over-IsMask text d a v; same = λ i h. ap (λ m. test m i) all })
    | inr e ↦ rw e refl
  ]

  file_mask :
      (d : LootMask) (name : List ℕ)
      → IsMask d
      → Reads
          (elim (files name) [
            | none ↦ none
            | some text ↦
                if length (take mask_size text) == mask_size
                then some (test (take mask_size text))
                else none
          ])
          (fload files d name)
  unfolding fload
  file_mask d name v = elim (Option-cases (files name)) [
    | inl e ↦ rw (e, fload) refl
    | inr (text, e) ↦ rw (e, fload) (whole_mask text d (bytes name text e) v)
  ]

  -- `parse_mask` finds what the name means.
  parse_lem : (d : LootMask) (n : List ℕ) → IsMask d → Reads (meaning n) (parse_mask files d n)
  unfolding parse_mask
  parse_lem d n v = elim (Bool-cases (same_text n all_text)) [
    | inl e ↦ rw e (refl, set_all-Has true)
    | inr e ↦ elim (Bool-cases (same_text n none_text)) [
      | inl f ↦ rw (e, f) (refl, set_all-Has false)
      | inr f ↦ elim (Bool-cases (ltb 1 (length n) && (get_or n 0 0 == 64))) [
        | inl g ↦ rw (e, f, g) (file_mask d (file_name (drop 1 n)) v)
        | inr g ↦
            elim (Bool-cases (ltb 2 (length n) && (get_or n 0 0 == 48) && (get_or n 1 0 == 120))) [
              | inl k ↦
                  rw (e, f, g, k)
                    (
                      refl,
                      subst
                          (λ x.
                            Has (set_bit (set_all false) (hex_loop 0 (drop 2 n)) true).1
                              (λ i. x == i))
                          (hex_loop_lem 0 0 (drop 2 n) refl) (one_item (hex_loop 0 (drop 2 n))),
                    )
              | inr k ↦ rw (e, f, g, k) refl
            ]
      ]
    ]
  ]

  -- The loop's outcome against that of the terms.
  abbrev pub Follows : Option Items → Option LootMask → Type 0
  Follows none r = r ≡ none
  Follows (some q) r = (m : LootMask) × (r ≡ some m) × Has m q

  -- One round of the loop, with what the lexical helpers give.
  round :
      (text : List ℕ) (o : Op) (name : List ℕ) (d nm : LootMask) (p : Items) (ts : List Term)
      (next : LootMask → Option LootMask)
      → IsMask d
      → Has nm p
      → ((d' : LootMask) (q : Items) → Has d' q → Follows (run_terms ts (join o p q)) (next d'))
      → Follows (run_terms (if length text == 0 then [] else (o, name) ∷ ts) p) (
          if length text == 0
          then some nm
          else if (parse_mask files d name).0
          then next (parse_mask files d name).1
          else none)
  round text o name d nm p ts next v w k = elim (Bool-cases (length text == 0)) [
    | inl e ↦ rw e (nm, refl, w)
    | inr e ↦ rw e (term (meaning name) (parse_mask files d name) (parse_lem d name v))
  ]
    where
      term :
          (x : Option Items) (r : Bool × LootMask)
          → Reads x r
          → Follows
              (elim x [ none ↦ none | some q ↦ run_terms ts (join o p q) ])
              (if r.0 then next r.1 else none)
      term none r e = ap (λ b. if b then next r.1 else none) e
      term (some q) r (e, u) =
          subst (λ b. Follows (run_terms ts (join o p q)) (if b then next r.1 else none)) (sym e)
            (k r.1 q u)

  pub cmd_lem :
      (f : ℕ) (m : List ℕ) (d nm : LootMask) (p : Items)
      → IsMask d
      → Has nm p
      → Follows (run_terms (terms f m) p) (cmd_loop files f m d nm)
  unfolding cmd_loop
  cmd_lem zero m d nm p v w = (nm, refl, w)
  cmd_lem (suc f) m d nm p v w =
      let text = skip_space m in
      let (o, rest) = operator text in
      let (name, behind) = word rest in
      round text o name d nm p (terms f behind) (λ d'. cmd_loop files f behind d' (combine o nm d'))
        v w
        (λ d' q u.
          cmd_lem f behind d' (combine o nm d') (join o p q) u.mask (combine-Has o nm d' p q w u))
