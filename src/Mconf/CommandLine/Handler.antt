-- ===== src/Mconf/CommandLine/Handler.antt =====
-- `ini_handler` sets the first option that has the section and the name, and no other.
use rfx.Prelude.{
  ◌>>=◌, bind_assoc, ℕ, ◌≡◌, refl, sym, ap, ◌∙◌, Bool, true, false, Option, none, some, List, [],
  ◌∷◌, ◌++◌, ◌||◌, All, Bool-cases, inl, inr, if◌then◌else◌,
}
use rfx.Mconf.{MetadParam, MconfBlock, same_name, both_same}
use rfx.Mconf.CommandLine.{ini_options, ini_handler}

abbrev pub with_options : {V : Type 0} → MconfBlock V → List (MetadParam V) → MconfBlock V
with_options b ps = record b { opt = ps }

module _ {V : Type 0} (section name value : List ℕ) where
  abbrev Unnamed : MetadParam V → Type 0
  Unnamed p = both_same (some name) p.conf_name ≡ false

  -- No option of the block has the section and the name.
  abbrev pub Other : MconfBlock V → Type 0
  Other b = same_name b.section section ≡ true → All Unnamed b.opt

  -- What a call of the option's `set` leads to.
  abbrev pub set_named : MetadParam V → V → Option (Bool × MetadParam V × V)
  set_named p v = do
    r ← p.set p.is_set (some section) (some value) v
    some (r.0, record p { is_set = r.0 || p.is_set }, r.1)

  options_none :
      (ps : List (MetadParam V)) (v : V)
      → All Unnamed ps
      → ini_options section name value ps v ≡ some (none, ps, v)
  unfolding ini_options
  options_none [] v a = refl
  options_none (p ∷ ps) v a = rw (ini_options, a.0, ◌>>=◌, options_none ps v a.1)

  options_first :
      (ps qs : List (MetadParam V)) (p : MetadParam V) (v : V)
      → All Unnamed ps
      → both_same (some name) p.conf_name ≡ true
      → ini_options section name value (ps ++ p ∷ qs) v
        ≡ (set_named p v >>= λ r. some (some r.0, ps ++ r.1 ∷ qs, r.2))
  unfolding ini_options
  options_first [] qs p v a e =
      rw e (sym (bind_assoc (p.set p.is_set (some section) (some value) v) _ _))
  options_first (x ∷ ps) qs p v a e = rw (a.0) (
      ap (λ o. o >>= λ r. some (r.0, x ∷ r.1, r.2)) (options_first ps qs p v a.1 e)
      ∙ bind_assoc (set_named p v) _ _)

  -- The body of the loop over the blocks, behind the loop over the options of one.
  abbrev after :
      MconfBlock V
      → List (MconfBlock V)
      → Option Bool × List (MetadParam V) × V
      → Option (Bool × List (MconfBlock V) × V)
  after b cb (res, opt, v') = elim res [
    | some ok ↦ some (ok, record b { opt = opt } ∷ cb, v')
    | none ↦ (do
      (ok, cb', v'') ← ini_handler section name value cb v'
      some (ok, record b { opt = opt } ∷ cb', v''))
  ]

  -- A block that does not have the section and the name is passed over.
  handler_past :
      (b : MconfBlock V) (cb : List (MconfBlock V)) (v : V)
      → Other b
      → ini_handler section name value (b ∷ cb) v
        ≡ (ini_handler section name value cb v >>= λ r. some (r.0, b ∷ r.1, r.2))
  unfolding ini_handler
  handler_past b cb v a = elim (Bool-cases (same_name b.section section)) [
    | inl y ↦ rw y (ap (λ o. o >>= after b cb) (options_none b.opt v (a y)))
    | inr n ↦ rw n
  ]

  -- If no option has the section and the name, `ini_handler` returns 0 and changes nothing.
  pub ini_handler-unknown :
      (cb : List (MconfBlock V)) (v : V)
      → All Other cb
      → ini_handler section name value cb v ≡ some (false, cb, v)
  ini_handler-unknown [] v a = unfold ini_handler in refl
  ini_handler-unknown (b ∷ cb) v a =
      handler_past b cb v a.0
      ∙ ap (λ o. o >>= λ r. some (r.0, b ∷ r.1, r.2)) (ini_handler-unknown cb v a.1)

  handler_here :
      (b : MconfBlock V) (post : List (MconfBlock V)) (ps qs : List (MetadParam V))
      (p : MetadParam V) (v : V)
      → same_name b.section section ≡ true
      → All Unnamed ps
      → both_same (some name) p.conf_name ≡ true
      → ini_handler section name value (with_options b (ps ++ p ∷ qs) ∷ post) v
        ≡ (set_named p v >>= λ r. some (r.0, with_options b (ps ++ r.1 ∷ qs) ∷ post, r.2))
  unfolding ini_handler
  handler_here b post ps qs p v s u e =
      ap pick s
      ∙ ap (λ o. o >>= after b post) (options_first ps qs p v u e)
      ∙ bind_assoc (set_named p v) _ _
    where
      pick : Bool → Option (Bool × List (MconfBlock V) × V)
      pick t = if t then ini_options section name value (ps ++ p ∷ qs) v >>= after b post else (do
        (ok, cb', v') ← ini_handler section name value post v
        some (ok, with_options b (ps ++ p ∷ qs) ∷ cb', v'))

  -- If no option of the blocks in front, and none in front of it in its block, has the section
  -- and the name, then for an option that has them `ini_handler` calls that option's `set`,
  -- returns 1 exactly if that returned 0, marks the option as set then, and leaves all other
  -- options as they were.
  pub ini_handler_lem :
      (pre post : List (MconfBlock V)) (b : MconfBlock V) (ps qs : List (MetadParam V))
      (p : MetadParam V) (v : V)
      → All Other pre
      → same_name b.section section ≡ true
      → All Unnamed ps
      → both_same (some name) p.conf_name ≡ true
      → ini_handler section name value (pre ++ with_options b (ps ++ p ∷ qs) ∷ post) v
        ≡ (set_named p v >>= λ r. some (r.0, pre ++ with_options b (ps ++ r.1 ∷ qs) ∷ post, r.2))
  ini_handler_lem [] post b ps qs p v a s u e = handler_here b post ps qs p v s u e
  ini_handler_lem (x ∷ pre) post b ps qs p v a s u e =
      handler_past x (pre ++ with_options b (ps ++ p ∷ qs) ∷ post) v a.0
      ∙ ap (λ o. o >>= λ r. some (r.0, x ∷ r.1, r.2))
          (ini_handler_lem pre post b ps qs p v a.1 s u e)
      ∙ bind_assoc (set_named p v) _ _
