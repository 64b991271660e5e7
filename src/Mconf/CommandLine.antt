-- ===== src/Mconf/CommandLine.antt =====
-- `mconf_parse_cmdline`, `ini_handler` and `mconf_parse` of lib/mconf.c. What `getopt_long` and the
-- inih parser find is a list that these functions run over.
pub mod Buffers
pub mod Counts
pub mod Handler
use rfx.Prelude.{
  ◌%◌, ◌^◌, ◌>>=◌, ℕ, zero, suc, ◌+◌, ◌*◌, Bool, true, false, Option, none, some, List, [], ◌∷◌,
  ◌++◌, ◌==◌, ltb, not, ◌&&◌, ◌||◌, if◌then◌else◌, length, get_elem?,
}
use rfx.Mconf.{
  MetadParam, MconfBlock, Mconf, same_name, both_same, mopt_required_argument,
  mopt_optional_argument,
}

-- A character at the end of what is in a buffer of `size` bytes.
abbrev pub put_char : ℕ → List ℕ → ℕ → Option (List ℕ)
put_char size buf c = if ltb (length buf) size then some (buf ++ c ∷ []) else none

abbrev pub put_chars : ℕ → List ℕ → List ℕ → Option (List ℕ)
put_chars size buf [] = some buf
put_chars size buf (c ∷ cs) = do buf' ← put_char size buf c; put_chars size buf' cs

-- `struct option`
pub record LongOption : Type 0 where
  pub name : List ℕ
  pub has_arg : ℕ
  pub val : ℕ

-- The string and the array for `getopt_long`, as far as they are written.
pub record Prepared : Type 0 where
  pub opt_short : List ℕ
  pub opt_long : List LongOption

abbrev pub no_option : LongOption
no_option = record { name = []; has_arg = 0; val = 0 }

-- A call of `getopt_long` before it returns -1: its result, the index of a long option, and `optarg`.
pub record Found : Type 0 where
  pub c : ℕ
  pub option_index : Option ℕ
  pub optarg : Option (List ℕ)

-- What `mconf_parse` does: it returns whether it succeeded, or the process exits.
pub data Parsed (V : Type 0) : Type 0 where
  returned : Bool → Mconf V → V → Parsed V
  exited : V → Parsed V

module _ {V : Type 0} where
  -- The letter of an option, with the colons that its argument asks for.
  abbrev pub short_spec : MetadParam V → List ℕ
  short_spec p =
      if p.opt_short == 0
      then []
      else if p.opt_args == mopt_optional_argument
      then p.opt_short ∷ b':' ∷ b':' ∷ []
      else if p.opt_args == mopt_required_argument
      then p.opt_short ∷ b':' ∷ []
      else p.opt_short ∷ []

  -- A store to `cmap[(unsigned)p->opt_short]`, on a signed `char`: one from 128 on is negative, and far
  -- beyond the 256 entries as an unsigned number. `cmap` is not read.
  abbrev pub in_cmap : MetadParam V → Bool
  in_cmap p = ltb p.opt_short 128

  abbrev pub long_entry : MetadParam V → List ℕ → LongOption
  long_entry p name = record {
    name = name;
    has_arg = if ltb p.opt_args 3 then p.opt_args else 0;
    val = p.opt_idx;
  }

  abbrev pub put_long : ℕ → MetadParam V → List LongOption → Option (List LongOption)
  put_long size p o = elim p.opt_long [
    | none ↦ some o
    | some name ↦ if ltb (length o) size then some (o ++ long_entry p name ∷ []) else none
  ]

  -- The body of the loop over the options.
  unfoldable pub prepare_option : ℕ → ℕ → MetadParam V → Prepared → Option Prepared
  prepare_option chars longs p r = do
    d ← put_chars chars r.opt_short (short_spec p)
    o ← if in_cmap p then put_long longs p r.opt_long else none
    some (record { opt_short = d; opt_long = o })

  unfoldable pub prepare_options : ℕ → ℕ → List (MetadParam V) → Prepared → Option Prepared
  unfolding prepare_option
  prepare_options chars longs [] r = some r
  prepare_options chars longs (p ∷ ps) r = do
    r' ← prepare_option chars longs p r
    prepare_options chars longs ps r'

  unfoldable pub prepare_blocks : ℕ → ℕ → List (MconfBlock V) → Prepared → Option Prepared
  unfolding prepare_options
  prepare_blocks chars longs [] r = some r
  prepare_blocks chars longs (b ∷ cb) r = do
    r' ← prepare_options chars longs b.opt r
    prepare_blocks chars longs cb r'

  -- The sizes of the string and of the array, sums of unsigned numbers.
  abbrev pub chars_of : Mconf V → ℕ
  chars_of cf = (cf.short_len + 1 + 2) % 2 ^ 32

  abbrev pub longs_of : Mconf V → ℕ
  longs_of cf = (cf.long_count + 1) % 2 ^ 32

  -- The string has room for `short_len + 1 + 2` characters, the array for `long_count + 1` entries.
  unfoldable pub prepare : Mconf V → Option Prepared
  unfolding prepare_blocks
  prepare cf = do
    let chars = chars_of cf
    let longs = longs_of cf
    d ← put_chars chars [] (b'c' ∷ b':' ∷ [])
    r ← prepare_blocks chars longs cf.cb (record { opt_short = d; opt_long = [] })
    s ← put_char chars r.opt_short 0
    if ltb (length r.opt_long) longs
        then some (record { opt_short = s; opt_long = r.opt_long ++ no_option ∷ [] })
        else none

  -- Whether the option is the one that was found; the index is one of `opt_long`.
  unfoldable pub is_found : List LongOption → Found → MetadParam V → Option Bool
  is_found longs f p =
      let short = not (p.opt_short == 0) && p.opt_short == f.c in
      elim f.option_index [
        | none ↦ some short
        | some i ↦ elim p.opt_long [
          | none ↦ some short
          | some _ ↦ elim (get_elem? longs i) [
            | none ↦ if short then some true else none
            | some o ↦ some (short || o.val == p.opt_idx)
          ]
        ]
      ]

  -- A call of `p->set`, and `is_set` if it returned 0.
  abbrev pub set_option :
      Option (List ℕ) → Option (List ℕ) → MetadParam V → V → Option (MetadParam V × V)
  set_option section value p v = do
    r ← p.set p.is_set section value v
    some (record p { is_set = r.0 || p.is_set }, r.1)

  unfoldable pub set_found :
      List LongOption → Found → List ℕ → List (MetadParam V) → V → Option (List (MetadParam V) × V)
  unfolding is_found
  set_found longs f section [] v = some ([], v)
  set_found longs f section (p ∷ ps) v = do
    hit ← is_found longs f p
    (p', v') ← if hit then set_option (some section) f.optarg p v else some (p, v)
    (ps', v'') ← set_found longs f section ps v'
    some (p' ∷ ps', v'')

  unfoldable pub set_blocks :
      List LongOption → Found → List (MconfBlock V) → V → Option (List (MconfBlock V) × V)
  unfolding set_found
  set_blocks longs f [] v = some ([], v)
  set_blocks longs f (b ∷ cb) v = do
    (opt, v') ← set_found longs f b.section b.opt v
    (cb', v'') ← set_blocks longs f cb v'
    some (record b { opt = opt } ∷ cb', v'')

  -- The loop over the command line: whether it returned 0. `-c` was handled before.
  unfoldable pub cmdline_loop :
      List LongOption
      → List Found
      → List (MconfBlock V)
      → V
      → Option (Bool × List (MconfBlock V) × V)
  unfolding set_blocks
  cmdline_loop longs [] cb v = some (true, cb, v)
  cmdline_loop longs (f ∷ fs) cb v =
      if f.c == b'?'
      then some (false, cb, v)
      else if f.c == b'c'
      then cmdline_loop longs fs cb v
      else (do (cb', v') ← set_blocks longs f cb v; cmdline_loop longs fs cb' v')

  -- `getopt` is what the command line holds, for a string and an array of options.
  unfoldable pub mconf_parse_cmdline :
      (Prepared → List Found) → Mconf V → V → Option (Bool × Mconf V × V)
  unfolding prepare cmdline_loop
  mconf_parse_cmdline getopt cf v = do
    r ← prepare cf
    (ok, cb, v') ← cmdline_loop r.opt_long (getopt r) cf.cb v
    some (ok, record cf { cb = cb }, v')

  -- The loop over the options of a section: the result, if one has the name.
  unfoldable pub ini_options :
      List ℕ
      → List ℕ
      → List ℕ
      → List (MetadParam V)
      → V
      → Option (Option Bool × List (MetadParam V) × V)
  ini_options section name value [] v = some (none, [], v)
  ini_options section name value (p ∷ ps) v =
      if both_same (some name) p.conf_name
      then (do
        r ← p.set p.is_set (some section) (some value) v
        some (some r.0, record p { is_set = r.0 || p.is_set } ∷ ps, r.1))
      else (do (res, ps', v') ← ini_options section name value ps v; some (res, p ∷ ps', v'))

  -- `ini_handler`: whether it returned 1.
  unfoldable pub ini_handler :
      List ℕ → List ℕ → List ℕ → List (MconfBlock V) → V → Option (Bool × List (MconfBlock V) × V)
  unfolding ini_options
  ini_handler section name value [] v = some (false, [], v)
  ini_handler section name value (b ∷ cb) v =
      let rest = ini_handler section name value cb in
      if same_name b.section section
      then (do
        (res, opt, v') ← ini_options section name value b.opt v
        elim res [
          | some ok ↦ some (ok, record b { opt = opt } ∷ cb, v')
          | none ↦ (do (ok, cb', v'') ← rest v'; some (ok, record b { opt = opt } ∷ cb', v''))
        ])
      else (do (ok, cb', v') ← rest v; some (ok, b ∷ cb', v'))

  -- `mconf_parse_conf`: whether it returned 0. `ini_parse` calls the handler for what it reads of the
  -- file, and returns 0 or the line of an error.
  unfoldable pub mconf_parse_conf :
      (List ℕ
        → (List ℕ
            → List ℕ
            → List ℕ
            → List (MconfBlock V) × V
            → Option (Bool × List (MconfBlock V) × V))
        → List (MconfBlock V) × V
        → Option (ℕ × List (MconfBlock V) × V))
      → List ℕ
      → Mconf V
      → V
      → Option (Bool × Mconf V × V)
  unfolding ini_handler
  mconf_parse_conf ini_parse path cf v = do
    (line, cb, v') ← ini_parse path (λ s n x c. ini_handler s n x c.0 c.1) (cf.cb, v)
    some (line == 0, record cf { cb = cb }, v')

  abbrev pub help_in : List (MetadParam V) → Option (MetadParam V)
  help_in [] = none
  help_in (p ∷ ps) = if p.opt_short == b'h' then some p else help_in ps

  abbrev pub help_option : List (MconfBlock V) → Option (MetadParam V)
  help_option [] = none
  help_option (b ∷ cb) = elim (help_in b.opt) [ some p ↦ some p | none ↦ help_option cb ]

  -- `ini_parse` and `getopt` are as above; `help` is what `mconf_help_msg` prints and its variables do.
  -- The handler of `-h` gets no section and no value; its `ptr`, which is set to the configuration, is
  -- in the handler here.
  unfoldable pub mconf_parse :
      (List ℕ
        → (List ℕ
            → List ℕ
            → List ℕ
            → List (MconfBlock V) × V
            → Option (Bool × List (MconfBlock V) × V))
        → List (MconfBlock V) × V
        → Option (ℕ × List (MconfBlock V) × V))
      → (Prepared → List Found)
      → (Mconf V → V → Option V)
      → Mconf V
      → V
      → Option (Parsed V)
  unfolding mconf_parse_conf mconf_parse_cmdline
  mconf_parse ini_parse getopt help cf v =
      let command_line = λ (cf' : Mconf V) (v' : V). (do
        (ok, cf'', v'') ← mconf_parse_cmdline getopt cf' v'
        some (returned ok cf'' v'')) in
      if cf.help_only
      then elim (help_option cf.cb) [
        | some p ↦ (do r ← p.set p.is_set none none v; some (exited r.1))
        | none ↦ (do v' ← help cf v; some (exited v'))
      ]
      else elim cf.cfg_path [
        | none ↦ command_line cf v
        | some path ↦ (do
          (ok, cf', v') ← mconf_parse_conf ini_parse path cf v
          if ok then command_line cf' v' else some (returned false cf' v'))
      ]
