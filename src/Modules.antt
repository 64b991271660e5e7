-- ===== src/Modules.antt =====
-- `rfx_instance` and `rfx_module` of main.cpp: filters whose code is loaded again while they run.
pub mod Reload
use rfx.Prelude.{
  ℕ, ◌-◌, Bool, true, false, Option, none, some, List, [], ◌∷◌, ◌++◌, ◌==◌, ltb, not, ◌&&◌,
  if◌then◌else◌, map,
}
use rfx.RfxState.{RfxState, rfx_state}

-- What a loaded object offers: `filter_new`, and the filter's `save_state` and `load_state`.
pub record Code (S : Type 0) : Type 0 where
  pub filter_new : S
  pub save_state : S → RfxState → RfxState
  pub load_state : S → RfxState → Bool × S

-- `st` and `flt` may be NULL. The links are the module's list of instances and the chain.
pub record Instance (S : Type 0) : Type 0 where
  pub st : Option RfxState
  pub flt : Option S

-- `dlh` and `filter_new` are there or not together.
pub record Module (S : Type 0) : Type 0 where
  pub code : Option (Code S)
  pub tstamp : ℕ
  pub ih : List (Instance S)

-- What `stat` and `dlopen` find for a plugin.
pub record OnDisk (S : Type 0) : Type 0 where
  pub mtime : Option ℕ
  pub object : Option (Code S × ℕ)

module _ {S : Type 0} where
  -- `rfx_module::rfx_module`
  unfoldable pub rfx_module : Module S
  rfx_module = record { code = none; tstamp = 0; ih = [] }

  -- `new_instance`
  unfoldable pub new_instance : Module S → Module S
  new_instance m =
      let f : Option S = elim m.code [ none ↦ none | some c ↦ some c.filter_new ] in
      record m { ih = m.ih ++ record { st = none; flt = f } ∷ [] }

  -- `load`: `object` is what `dlopen`, `dlsym` and the test of the version give, with the time at
  -- which the file was changed.
  unfoldable pub load : Option (Code S × ℕ) → Module S → Bool × Module S
  load none m = (false, m)
  load (some (c, t)) m = (true, record m { code = some c; tstamp = t })

  -- The loop that saves and destroys the filters.
  unfoldable pub save_instance : Code S → Instance S → Instance S
  unfolding rfx_state
  save_instance c i = elim i.flt [
    | none ↦ i
    | some s ↦ record { st = some (c.save_state s (rfx_state 0)); flt = none }
  ]

  -- The loop that makes them again. The result of `load_state` is not looked at.
  unfoldable pub make_instance : Code S → Instance S → Instance S
  make_instance c i = elim i.st [
    | none ↦ record i { flt = some c.filter_new }
    | some st ↦ record { st = none; flt = some (c.load_state c.filter_new st).1 }
  ]

  unfoldable pub unload : Module S → Module S
  unfolding save_instance
  unload m = elim m.code [
    | none ↦ m
    | some c ↦ record m { code = none; ih = map (save_instance c) m.ih }
  ]

  -- The second loop over the instances.
  unfoldable pub remake : Module S → Module S
  unfolding make_instance
  remake m = elim m.code [ none ↦ m | some c ↦ record m { ih = map (make_instance c) m.ih } ]

  -- `reload`
  unfoldable pub reload : Option (Code S × ℕ) → Module S → Module S
  unfolding unload load remake
  reload object m = let (ok, l) = load object (unload m) in if ok then remake l else l

  -- `need_reload`, from the time of the file, if `stat` finds it, and the time now.
  unfoldable pub need_reload : Option ℕ → ℕ → Module S → Bool
  need_reload mtime now m = elim m.code [
    | none ↦ true
    | some c ↦ elim mtime [ none ↦ false | some t ↦ not (t == m.tstamp) && ltb 1 (now - t) ]
  ]

  -- `load_plugins`, from what each shared object gives; a plugin that does not load is kept.
  unfoldable pub load_plugins : List (Option (Code S × ℕ)) → List (Module S)
  unfolding load rfx_module
  load_plugins [] = []
  load_plugins (o ∷ os) = (load o rfx_module).1 ∷ load_plugins os

  -- `reload_plugins`, at the time `now`.
  unfoldable pub reload_plugins : ℕ → List (Module S × OnDisk S) → List (Module S)
  unfolding need_reload reload
  reload_plugins now [] = []
  reload_plugins now ((m, d) ∷ more) =
      (if need_reload d.mtime now m then reload d.object m else m) ∷ reload_plugins now more

  -- `filter_new ? filter_new() : NULL`
  abbrev pub new_filter : Module S → Option S
  new_filter m = elim m.code [ none ↦ none | some c ↦ some c.filter_new ]

  -- `build_chain`: the chain, and the modules with an instance more.
  unfoldable pub build_chain : List (Module S) → List (Option S) × List (Module S)
  unfolding new_instance
  build_chain [] = ([], [])
  build_chain (m ∷ ms) =
      let (chain, ms') = build_chain ms in (new_filter m ∷ chain, new_instance m ∷ ms')
