-- ===== src/Mconf/Values.antt =====
-- The setters and getters of lib/mconf.c. A C string is the list of its characters, without the NUL;
-- what a getter puts in its buffer is the list of the characters that its result counts, if it is not
-- -1.
use rfx.Prelude.{
  ℕ, zero, suc, ◌+◌, ◌-◌, ◌*◌, ◌/◌, ◌%◌, ◌^◌, Bool, true, false, Option, none, some, List, [], ◌∷◌,
  ◌++◌, ◌==◌, ltb, leb, not, codes, ◌&&◌, ◌||◌, if◌then◌else◌, length, take, bit_and, bit_or, map,
}
use rfx.Mconf.{same_name, after_prefix}
use rfx.Mconf.Numbers.{is_space, is_alnum, to_lower, strtoul, strtol, decimal}

-- The variable of a string option: NULL, a text of the program's, or one that `strdup` made.
pub data Text : Type 0 where
  null : Text
  constant : List ℕ → Text
  owned : List ℕ → Text

-- `free` of a text that `strdup` did not make is undefined.
unfoldable pub mconf_set_string : Bool → List ℕ → Text → Option Text
mconf_set_string is_set value null = some (owned value)
mconf_set_string is_set value (constant s) = if is_set then none else some (owned value)
mconf_set_string is_set value (owned s) = some (owned value)

unfoldable pub mconf_get_string : ℕ → Text → List ℕ
mconf_get_string maxlen null = []
mconf_get_string maxlen (constant s) = take maxlen s
mconf_get_string maxlen (owned s) = take maxlen s

-- The character that a pointer into a string points at, 0 at its end.
abbrev pub at_end : List ℕ → ℕ
at_end [] = 0
at_end (c ∷ s) = c

-- An `int` of 32 bits, as the word that it is stored as. `stale` says that errno is ERANGE before the
-- call, which `strtol` leaves as it is on success.
unfoldable pub mconf_set_aval : Bool → List ℕ → ℕ → Bool × ℕ
mconf_set_aval stale value var =
    if same_name (map to_lower value) (codes "auto")
    then (true, 2 ^ 32 - 1)
    else (let (v, out, rest) = strtol value in
        if (v == 2 ^ 63 || v == 2 ^ 63 - 1) && (out || stale)
        then (false, var)
        else if not (at_end rest == 0) && not (is_space (at_end rest))
        then (false, var)
        else (true, v % 2 ^ 32))

-- What `snprintf` counts, if it fits with its NUL.
abbrev pub printed : ℕ → List ℕ → Option (List ℕ)
printed maxlen s = if ltb (length s) maxlen then some s else none

unfoldable pub mconf_get_aval : ℕ → ℕ → Option (List ℕ)
mconf_get_aval maxlen var =
    if var == 2 ^ 32 - 1
    then (if ltb maxlen 4 then none else some (codes "auto"))
    else printed maxlen (decimal var)

-- The bits that a suffix shifts by; none for a character that may not follow the number.
unfoldable pub suffix : ℕ → Option ℕ
suffix c =
    if c == b'k' || c == b'K'
    then some 10
    else if c == b'm' || c == b'M'
    then some 20
    else if c == b'g' || c == b'G'
    then some 30
    else if c == 0 || c == 9 || c == 10 || c == 13 || c == b'#' || c == 0x20
    then some 0
    else none

unfoldable pub mconf_set_uint_size : List ℕ → ℕ → Bool × ℕ
unfolding suffix
mconf_set_uint_size value var =
    let (v, rest) = strtoul value in
    elim (suffix (at_end rest)) [
      | none ↦ (false, var)
      | some bits ↦ (true, v * 2 ^ bits % 2 ^ 64 % 2 ^ 32)
    ]

unfoldable pub mconf_get_uint_size : ℕ → ℕ → Option (List ℕ)
mconf_get_uint_size maxlen var =
    if var % 2 ^ 30 == 0
    then printed maxlen (decimal (var / 2 ^ 30) ++ b'g' ∷ [])
    else if var % 2 ^ 20 == 0
    then printed maxlen (decimal (var / 2 ^ 20) ++ b'm' ∷ [])
    else if var % 2 ^ 10 == 0
    then printed maxlen (decimal (var / 2 ^ 10) ++ b'k' ∷ [])
    else printed maxlen (decimal var)

-- An entry of `facilitynames` or `prioritynames` of syslog.h.
pub record Code : Type 0 where
  pub c_name : List ℕ
  pub c_val : ℕ

-- The letters and digits at the front, and what follows them.
abbrev pub name_at : List ℕ → List ℕ × List ℕ
name_at [] = ([], [])
name_at (c ∷ s) =
    let (name, rest) = name_at s in if is_alnum c then (c ∷ name, rest) else ([], c ∷ s)

abbrev pub named : List Code → List ℕ → Option ℕ
named [] name = none
named (c ∷ cs) name = if same_name c.c_name name then some c.c_val else named cs name

-- `strstr(value, text) != NULL`
abbrev pub contains : List ℕ → List ℕ → Bool
contains text [] = elim (after_prefix text []) [ some _ ↦ true | none ↦ false ]
contains text (c ∷ s) = elim (after_prefix text (c ∷ s)) [ some _ ↦ true | none ↦ contains text s ]

-- `struct logopts`
pub record Logopts : Type 0 where
  pub facility : ℕ
  pub opts : ℕ

-- LOG_PERROR
abbrev pub log_perror : ℕ
log_perror = 0x20

-- The variable is cleared before the name is looked for.
unfoldable pub mconf_set_logopts : List Code → List ℕ → Bool × Logopts
mconf_set_logopts facilitynames value = elim (named facilitynames (name_at value).0) [
  | none ↦ (false, record { facility = 0; opts = 0 })
  | some v ↦ (
    true,
    record { facility = v; opts = if contains (codes "(stderr)") value then log_perror else 0 },
  )
]

abbrev pub name_of : List Code → ℕ → Option (List ℕ)
name_of [] v = none
name_of (c ∷ cs) v = if v == c.c_val then some c.c_name else name_of cs v

-- The part behind the name, at `l` characters.
unfoldable pub stderr_part : ℕ → ℕ → List ℕ → Option (List ℕ)
stderr_part maxlen opts name =
    if bit_and opts log_perror == 0
    then some name
    else if leb maxlen (length name + 8)
    then none
    else some (name ++ codes "(stderr)")

unfoldable pub mconf_get_logopts : List Code → ℕ → Logopts → Option (List ℕ)
unfolding stderr_part
mconf_get_logopts facilitynames maxlen o = elim (name_of facilitynames o.facility) [
  | none ↦ stderr_part maxlen o.opts []
  | some name ↦ if leb maxlen (length name) then none else stderr_part maxlen o.opts name
]

abbrev pub skip_commas : List ℕ → List ℕ
skip_commas [] = []
skip_commas (c ∷ s) = let rest = skip_commas s in if is_space c || c == b',' then rest else c ∷ s

-- A `-` in front of a name, and the text behind it.
abbrev pub minus : List ℕ → Bool × List ℕ
minus [] = (false, [])
minus (c ∷ s) = if c == b'-' then (true, s) else (false, c ∷ s)

-- `*mask &= ~m` and `*mask |= m`
abbrev pub put_level : Bool → ℕ → ℕ → ℕ
put_level unset m mask = if unset then mask - bit_and mask m else bit_or mask m

-- `while (*value) { ... }`, with the mask as it is when the function returns. Fuel bounds the rounds,
-- of which each takes a character.
unfoldable pub levels_loop : List Code → ℕ → List ℕ → ℕ → Bool × ℕ
levels_loop prioritynames f [] mask = (true, mask)
levels_loop prioritynames zero (c ∷ s) mask = (false, mask)
levels_loop prioritynames (suc f) (c ∷ s) mask =
    let (unset, t) = minus (c ∷ s) in
    let (name, rest) = name_at t in
    let level = named prioritynames name in
    let next =
      λ (v : ℕ). levels_loop prioritynames f (skip_commas rest) (put_level unset (2 ^ v) mask) in
    if length name == 0 && not (at_end t == 0)
    then (false, mask)
    else elim level [ none ↦ (false, mask) | some v ↦ next v ]

unfoldable pub mconf_set_loglevel : List Code → List ℕ → ℕ → Bool × ℕ
unfolding levels_loop
mconf_set_loglevel prioritynames value mask = levels_loop prioritynames (length value) value mask

-- The loop of `mconf_get_loglevel`, behind the text `out`.
unfoldable pub get_levels : List Code → ℕ → ℕ → List ℕ → Option (List ℕ)
get_levels [] maxlen mask out = some out
get_levels (c ∷ cs) maxlen mask out =
    let m = 2 ^ c.c_val in
    let rest = mask - bit_and mask m in
    let joined = (if length out == 0 then out else out ++ b',' ∷ []) ++ c.c_name in
    let with_name = get_levels cs maxlen rest joined in
    let without = get_levels cs maxlen rest out in
    if bit_and mask m == 0
    then without
    else if leb maxlen (length out + length c.c_name + 1)
    then none
    else with_name

unfoldable pub mconf_get_loglevel : List Code → ℕ → ℕ → Option (List ℕ)
unfolding get_levels
mconf_get_loglevel prioritynames maxlen mask = get_levels prioritynames maxlen mask []
