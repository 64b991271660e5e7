-- ===== src/Mconf/Conflicts.antt =====
-- `mconf_add` keeps the options of different blocks apart.
use rfx.Prelude.{
  ℕ, ◌≡◌, refl, sym, ◌∙◌, true, false, List, [], ◌∷◌, ◌++◌, ◌==◌, All, All-append, All-weaken,
  arith, Bool-cases, Option-cases, inl, inr,
}
use mathlib.Core.Path.{subst}
use rfx.Mconf.{
  Checked, MetadParam, MconfBlock, Mconf, conflict, in_block, mconf_check_conflict, count_option,
  check_options, mconf_add,
}

module _ {V : Type 0} where
  -- An option that no option of a block is in conflict with.
  abbrev pub Free : MconfBlock V → List ℕ → MetadParam V → Type 0
  Free b t o = All (λ p. conflict b.section p t o ≡ false) b.opt

  -- No option of a later block is in conflict with one of an earlier block.
  abbrev pub Apart : List (MconfBlock V) → Type 0
  Apart [] = Unit {0}
  Apart (b ∷ cb) = All (λ c. All (Free b c.section) c.opt) cb × Apart cb

  in_block_lem :
      (s : List ℕ) (ps : List (MetadParam V)) (t : List ℕ) (o : MetadParam V)
      → in_block s ps t o ≡ false
      → All (λ p. conflict s p t o ≡ false) ps
  in_block_lem s [] t o e = tt
  in_block_lem s (p ∷ ps) t o e = elim (Bool-cases (conflict s p t o)) [
    | inl y ↦ absurd (ground (arith, e, y))
    | inr n ↦ (n, in_block_lem s ps t o (ground (arith, e, n)))
  ]

  check_lem :
      (cb : List (MconfBlock V)) (t : List ℕ) (o : MetadParam V)
      → mconf_check_conflict cb t o ≡ false
      → All (λ b. Free b t o) cb
  unfolding mconf_check_conflict
  check_lem [] t o e = tt
  check_lem (b ∷ cb) t o e = elim (Bool-cases (in_block b.section b.opt t o)) [
    | inl y ↦ absurd (ground (arith, e, y))
    | inr n ↦ (in_block_lem b.section b.opt t o n, check_lem cb t o (ground (arith, e, n)))
  ]

  -- The index of an option plays no part in conflicts, and counting adds no block.
  record Counted (cf : Mconf V) (o : MetadParam V) : Type 0 where
    same :
        (s : List ℕ) (p : MetadParam V) (t : List ℕ)
        → conflict s p t (count_option cf o).1 ≡ conflict s p t o
    kept : (count_option cf o).0.cb ≡ cf.cb

  Counted_lem : (cf : Mconf V) (o : MetadParam V) → Counted cf o
  unfolding conflict
  Counted_lem cf o = elim (Option-cases o.opt_long) [
    | inl e ↦ record { same = λ s p t. ground (arith, e); kept = ground (arith, e) }
    | inr (l, e) ↦ elim (Bool-cases (o.opt_short == 0)) [
      | inl z ↦ record { same = λ s p t. ground (arith, e, z); kept = ground (arith, e, z) }
      | inr z ↦ record { same = λ s p t. ground (arith, e, z); kept = ground (arith, e, z) }
    ]
  ]

  -- Options that went through the loop are free of every block, and no block is added.
  Passed : Mconf V → List ℕ → Checked V → Type 0
  Passed cf t r = ((r.1).cb ≡ cf.cb) × (r.0 ≡ true → All (λ b. All (Free b t) r.2) cf.cb)

  none_left : (t : List ℕ) (cb : List (MconfBlock V)) → All (λ b. All (Free b t) []) cb
  none_left t [] = tt
  none_left t (b ∷ cb) = (tt, none_left t cb)

  counted-Free :
      (cf : Mconf V) (o : MetadParam V) (t : List ℕ) (b : MconfBlock V)
      → Free b t o
      → Free b t (count_option cf o).1
  counted-Free cf o t b a =
      All-weaken _ _ (λ p e. (Counted_lem cf o).same b.section p t ∙ e) b.opt a

  both-Free :
      (t : List ℕ) (o : MetadParam V) (opts : List (MetadParam V)) (cb : List (MconfBlock V))
      → All (λ b. Free b t o) cb
      → All (λ b. All (Free b t) opts) cb
      → All (λ b. All (Free b t) (o ∷ opts)) cb
  both-Free t o opts [] a b = tt
  both-Free t o opts (x ∷ cb) a b = ((a.0, b.0), both-Free t o opts cb a.1 b.1)

  options_lem :
      (opts : List (MetadParam V)) (cf : Mconf V) (t : List ℕ)
      → Passed cf t (check_options cf t opts)
  unfolding check_options Passed
  options_lem [] cf t = (refl, λ e. none_left t cf.cb)
  options_lem (o ∷ opts) cf t = elim (Bool-cases (mconf_check_conflict cf.cb t o)) [
    | inl y ↦ rw y (refl, λ e. absurd (cc))
    | inr n ↦
        let c = Counted_lem cf o in
        let (k, a) = options_lem opts (count_option cf o).0 t in
        rw n (
          k ∙ c.kept,
          λ e.
              both-Free t (count_option cf o).1 _ cf.cb
                (All-weaken _ _ (counted-Free cf o t) cf.cb (check_lem cf.cb t o n))
                (subst
                  (λ cb.
                    All (λ b. All (Free b t) (check_options (count_option cf o).0 t opts).2) cb)
                  c.kept (a e)),
        )
  ]

  -- The loop adds no block.
  pub options-cb :
      (opts : List (MetadParam V)) (cf : Mconf V) (t : List ℕ)
      → (check_options cf t opts).1.cb ≡ cf.cb
  unfolding Passed
  options-cb opts cf t = (options_lem opts cf t).0

  Apart-snoc :
      (cb : List (MconfBlock V)) (c : MconfBlock V)
      → Apart cb
      → All (λ b. All (Free b c.section) c.opt) cb
      → Apart (cb ++ c ∷ [])
  Apart-snoc [] c a f = (tt, tt)
  Apart-snoc (b ∷ cb) c a f = (
    All-append (λ x. All (Free b x.section) x.opt) cb (c ∷ []) a.0 (f.0, tt),
    Apart-snoc cb c a.1 f.1,
  )

  -- If no option of a later block is in conflict with one of an earlier block, the same holds
  -- after `mconf_add`, which adds no block if it fails.
  pub mconf_add-Apart :
      (cf : Mconf V) (section : List ℕ) (opts : List (MetadParam V))
      → Apart cf.cb
      → Apart (mconf_add cf section opts).1.cb
        × ((mconf_add cf section opts).0 ≡ false → (mconf_add cf section opts).1.cb ≡ cf.cb)
  unfolding mconf_add Passed
  mconf_add-Apart cf section opts a =
      let (k, f) = options_lem opts cf section in
      let r = check_options cf section opts in
      elim (Bool-cases r.0) [
        | inl y ↦ rw y (
          subst (λ cb. Apart (cb ++ record { section = section; opt = r.2 } ∷ [])) (sym k)
              (Apart-snoc cf.cb (record { section = section; opt = r.2 }) a (f y)),
          λ e. absurd (cc),
        )
        | inr n ↦ rw n (subst Apart (sym k) a, λ e. k)
      ]
