-- ===== src/Mconf.antt =====
-- Option registration and values of lib/mconf.c.
pub mod Conflicts
pub mod Numbers
pub mod Values
pub mod RoundTrip
pub mod CommandLine
pub mod Help
use rfx.Prelude.{
  ℕ, zero, suc, ◌+◌, ◌-◌, ◌*◌, ◌/◌, ◌%◌, ◌^◌, Bool, true, false, Option, none, some, List, [], ◌∷◌,
  ◌++◌, ◌==◌, leb, not, codes, ◌&&◌, ◌||◌, if◌then◌else◌, length,
}

-- A C string, and `strcmp(a, b) == 0`.
abbrev pub same_name : List ℕ → List ℕ → Bool
same_name [] [] = true
same_name [] (d ∷ t) = false
same_name (c ∷ s) [] = false
same_name (c ∷ s) (d ∷ t) = c == d && same_name s t

-- MOPT_NO_ARGUMENT and the others
abbrev pub mopt_required_argument : ℕ
mopt_required_argument = 1

abbrev pub mopt_optional_argument : ℕ
mopt_optional_argument = 2

-- `struct metad_param`: a short option of 0 and a missing name are none. `V` is the memory behind the
-- parameters' `ptr`; a `set` reads `is_set` of its parameter, the section and the value, says whether it
-- returned 0, and may be a fault; a `to_string` reads the room in its buffer, and fails or gives a text.
pub record MetadParam (V : Type 0) : Type 0 where
  pub opt_short : ℕ
  pub opt_long : Option (List ℕ)
  pub conf_name : Option (List ℕ)
  pub set : Bool → Option (List ℕ) → Option (List ℕ) → V → Option (Bool × V)
  pub to_string : Option (ℕ → V → Option (List ℕ))
  pub is_set : Bool
  pub opt_args : ℕ
  pub comment : Option (List ℕ)
  pub opt_idx : ℕ

-- `struct mconf_block`. Its `section` is a text; the program never passes a NULL there, and a block with
-- one has no place in the model.
pub record MconfBlock (V : Type 0) : Type 0 where
  pub section : List ℕ
  pub opt : List (MetadParam V)

-- `struct mconf`: the path, the list `cb`, and the counts for `getopt_long`, of 32 bits.
pub record Mconf (V : Type 0) : Type 0 where
  pub cfg_path : Option (List ℕ)
  pub help_only : Bool
  pub cb : List (MconfBlock V)
  pub short_len : ℕ
  pub long_count : ℕ
  pub long_idx : ℕ

-- Two names that are both there and the same.
abbrev pub both_same : Option (List ℕ) → Option (List ℕ) → Bool
both_same none b = false
both_same (some a) none = false
both_same (some a) (some b) = same_name a b

-- What `mconf_init` finds in the arguments behind the program's name: `--conf path`, `-c path`,
-- `--conf=path`, and `-h` or `--help`.
abbrev pub after_prefix : List ℕ → List ℕ → Option (List ℕ)
after_prefix [] t = some t
after_prefix (c ∷ s) [] = none
after_prefix (c ∷ s) (d ∷ t) = if c == d then after_prefix s t else none

abbrev pub is_conf : List ℕ → Bool
is_conf a = same_name a (codes "--conf") || same_name a (codes "-c")

abbrev pub is_help : List ℕ → Bool
is_help a = same_name a (codes "-h") || same_name a (codes "--help")

-- The loop over the arguments: the path, and `help_only`.
unfoldable pub scan_args : Option (List ℕ) → List (List ℕ) → Option (List ℕ) × Bool
scan_args dfl [] = (dfl, false)
scan_args dfl (a ∷ []) = elim (after_prefix (codes "--conf=") a) [
  | some path ↦ (some path, false)
  | none ↦ (dfl, is_help a)
]
scan_args dfl (a ∷ (b ∷ args)) =
    let rest = scan_args dfl (b ∷ args) in
    if is_conf a then (some b, false) else elim (after_prefix (codes "--conf=") a) [
      | some path ↦ (some path, false)
      | none ↦ if is_help a then (dfl, true) else rest
    ]

-- What the loop of `mconf_add` gives: whether it went through, the counts, and the options with their
-- indices.
abbrev pub Checked : Type 0 → Type 0
Checked V = Bool × Mconf V × List (MetadParam V)

module _ {V : Type 0} where
  unfoldable pub mconf_init : Option (List ℕ) → List (List ℕ) → Mconf V
  unfolding scan_args
  mconf_init cfg_path args =
      let (path, help) = scan_args cfg_path args in
      record {
        cfg_path = path;
        help_only = help;
        cb = [];
        short_len = 0;
        long_count = 0;
        long_idx = 256;
      }

  -- The body of the inner loop of `mconf_check_conflict`, on options of the sections `s` and `t`.
  unfoldable pub conflict : List ℕ → MetadParam V → List ℕ → MetadParam V → Bool
  conflict s p t opt =
      (both_same p.conf_name opt.conf_name && same_name s t)
      || (not (p.opt_short == 0) && p.opt_short == opt.opt_short)
      || both_same p.opt_long opt.opt_long

  abbrev pub in_block : List ℕ → List (MetadParam V) → List ℕ → MetadParam V → Bool
  in_block s [] t opt = false
  in_block s (p ∷ ps) t opt = if conflict s p t opt then true else in_block s ps t opt

  unfoldable pub mconf_check_conflict : List (MconfBlock V) → List ℕ → MetadParam V → Bool
  unfolding conflict
  mconf_check_conflict [] t opt = false
  mconf_check_conflict (b ∷ cb) t opt =
      if in_block b.section b.opt t opt then true else mconf_check_conflict cb t opt

  -- What the option adds to the string of short options.
  abbrev pub short_chars : MetadParam V → ℕ
  short_chars o =
      if o.opt_short == 0
      then 0
      else if o.opt_args == mopt_required_argument
      then 2
      else if o.opt_args == mopt_optional_argument
      then 3
      else 1

  -- The counts after an option, and the option with its index.
  abbrev pub count_option : Mconf V → MetadParam V → Mconf V × MetadParam V
  count_option cf o =
      let cf' = record cf { short_len = (cf.short_len + short_chars o) % 2 ^ 32 } in
      elim o.opt_long [
        | none ↦ (cf', o)
        | some name ↦
            if o.opt_short == 0
            then (
              record cf' {
                long_idx = (cf.long_idx + 1) % 2 ^ 32;
                long_count = (cf.long_count + 1) % 2 ^ 32;
              },
              record o { opt_idx = cf.long_idx },
            )
            else (
              record cf' { long_count = (cf.long_count + 1) % 2 ^ 32 },
              record o { opt_idx = o.opt_short },
            )
      ]

  abbrev pub with_option : MetadParam V → Checked V → Checked V
  with_option o r = (r.0, r.1, o ∷ r.2)

  unfoldable pub check_options : Mconf V → List ℕ → List (MetadParam V) → Checked V
  unfolding mconf_check_conflict
  check_options cf t [] = (true, cf, [])
  check_options cf t (o ∷ opts) =
      let (cf', o') = count_option cf o in
      let rest = check_options cf' t opts in
      if mconf_check_conflict cf.cb t o then (false, cf, o ∷ opts) else with_option o' rest

  -- `mconf_add`: whether it returned 0, and the configuration. The counts stay where an option that
  -- conflicts left them.
  unfoldable pub mconf_add : Mconf V → List ℕ → List (MetadParam V) → Bool × Mconf V
  unfolding check_options
  mconf_add cf section opts =
      let (ok, cf', opts') = check_options cf section opts in
      if ok
      then (true, record cf' { cb = cf'.cb ++ record { section = section; opt = opts' } ∷ [] })
      else (false, cf')
