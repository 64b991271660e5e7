-- ===== src/Modules/Reload.antt =====
-- What a reload of a module does to its filters.
use rfx.Prelude.{
  ℕ, ◌≡◌, refl, sym, ap, ap₂, ◌∙◌, none, some, List, [], ◌∷◌, map, All, arith, Option-cases, inl,
  inr,
}
use rfx.RfxState.{rfx_state}
use rfx.Modules.{Code, Instance, Module, save_instance, make_instance, unload, remake, load, reload}

-- Code whose filters, in a state in `P`, come back from what they save, as a reload has them do it.
pub record IsFaithful {S : Type 0} (P : S → Type 0) (old new : Code S) : Type 0 where
  pub returns :
      (s : S) → P s → (new.load_state new.filter_new (old.save_state s (rfx_state 0))).1 ≡ s

-- An instance whose filter runs, in a state in `P`.
abbrev pub IsRunning : {S : Type 0} → (S → Type 0) → Instance S → Type 0
IsRunning P i = (i.st ≡ none) × ((s : _) × (i.flt ≡ some s) × P s)

module _ {S : Type 0} where
  unload-twice : (m : Module S) → unload (unload m) ≡ unload m
  unfolding unload
  unload-twice m = elim (Option-cases m.code) [
    | inl e ↦ ground (arith, e)
    | inr (c, e) ↦ ground (arith, e)
  ]

  -- A reload that fails in between changes nothing.
  pub reload-retry :
      (object : Code S × ℕ) (m : Module S)
      → reload (some object) (reload none m) ≡ reload (some object) m
  unfolding reload load
  reload-retry (c, t) m = ap (λ u. remake (record u { code = some c; tstamp = t })) (unload-twice m)

  made_again :
      (P : S → Type 0) (old new : Code S)
      → IsFaithful P old new
      → (i : Instance S) → IsRunning P i
      → make_instance new (save_instance old i) ≡ i
  unfolding make_instance save_instance
  made_again P old new f i (e, (s, q, p)) = again (save_instance old i) (ground (arith, q))
    where
      again :
          (j : Instance S)
          → j ≡ record { st = some (old.save_state s (rfx_state 0)); flt = none }
          → make_instance new j ≡ i
      again j w =
          ap (make_instance new) w
          ∙ ap₂ (λ x y. record { st = x; flt = y }) (sym e) (ap some (f.returns s p) ∙ sym q)

  all_again :
      (P : S → Type 0) (old new : Code S)
      → IsFaithful P old new
      → (is : List (Instance S)) → All (IsRunning P) is
      → map (make_instance new) (map (save_instance old) is) ≡ is
  all_again P old new f [] a = refl
  all_again P old new f (i ∷ is) a =
      ap₂ ◌∷◌ (made_again P old new f i a.0) (all_again P old new f is a.1)

  -- On a loaded module whose instances all run a filter, in a state in a set from which the new
  -- code's filters come back from what the old code's save, a reload with the new code leaves
  -- each instance with its filter state and changes the code and the time only; and so does such
  -- a reload after one that failed.
  pub reload_lem :
      (P : S → Type 0) (old new : Code S) (t : ℕ) (m : Module S)
      → m.code ≡ some old
      → IsFaithful P old new
      → All (IsRunning P) m.ih
      → (reload (some (new, t)) m ≡ record m { code = some new; tstamp = t })
        × (reload (some (new, t)) (reload none m) ≡ record m { code = some new; tstamp = t })
  unfolding reload load unload remake
  reload_lem P old new t m e f a =
      let i = all_again P old new f m.ih a in
      let r : reload (some (new, t)) m ≡ record m { code = some new; tstamp = t } =
        rw e (ap (λ x. record m { code = some new; tstamp = t; ih = x }) i) in
      (r, reload-retry (new, t) m ∙ r)
