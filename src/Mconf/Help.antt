-- ===== src/Mconf/Help.antt =====
-- `mconf_help_msg` of lib/mconf.c: the list of the options, each with its comment in a column.
pub mod Column
use rfx.Prelude.{
  ℕ, zero, suc, ◌+◌, ◌-◌, Bool, true, false, Option, none, some, List, [], ◌∷◌, ◌++◌, ◌==◌, ltb,
  leb, not, codes, ◌&&◌, ◌||◌, if◌then◌else◌, length, take, drop, replicate,
}
use rfx.Mconf.{MetadParam, MconfBlock, Mconf}

unfoldable pub is_ws : ℕ → Bool
is_ws c = c == 0x20 || c == 9 || c == 13 || c == 10

-- sizeof(line)
abbrev pub line_size : ℕ
line_size = 128

-- What is printed, or an access out of bounds or through NULL, or more rounds than the fuel allows.
pub data Output : Type 0 where
  lines : List (List ℕ) → Output
  fault : Output
  endless : Output

abbrev pub then_lines : List (List ℕ) → Output → Output
then_lines ls (lines more) = lines (ls ++ more)
then_lines ls fault = fault
then_lines ls endless = endless

abbrev pub in_order : Output → Output → Output
in_order (lines ls) r = then_lines ls r
in_order fault r = fault
in_order endless r = endless

-- `strchr(comment, '|')`: the parts in front of it and behind it.
abbrev pub at_bar : List ℕ → Option (List ℕ × List ℕ)
at_bar [] = none
at_bar (c ∷ s) =
    let rest = at_bar s in
    if c == b'|' then some ([], s) else elim rest [ none ↦ none | some (a, b) ↦ some (c ∷ a, b) ]

-- The loop over a word: how many characters there are in front of white space, `room` at most.
unfoldable pub word_len : ℕ → List ℕ → ℕ
unfolding is_ws
word_len zero s = 0
word_len (suc r) [] = 0
word_len (suc r) (c ∷ s) = let n = word_len r s in if is_ws c then 0 else suc n

unfoldable pub skip_ws : List ℕ → List ℕ
unfolding is_ws
skip_ws [] = []
skip_ws (c ∷ s) = let rest = skip_ws s in if is_ws c then rest else c ∷ s

abbrev pub starts_ws : List ℕ → Bool
starts_ws [] = false
starts_ws (c ∷ s) = c == 0x20 || c == 9 || c == 13 || c == 10

-- `while (d < e && *s)`, where `line` is what is in front of `d` and the end `e` is at `width`. Each
-- round takes a character of the text or more. No result: a store past the line.
unfoldable pub fill : ℕ → ℕ → List ℕ → List ℕ → Option (List ℕ × List ℕ)
unfolding word_len skip_ws
fill f width line [] = some (line, [])
fill zero width line (c ∷ s) = some (line, c ∷ s)
fill (suc f) width line (c ∷ s) =
    let j = word_len (width - length line) (c ∷ s) in
    let line' = line ++ take j (c ∷ s) in
    let s' = drop j (c ∷ s) in
    let more = fill f width (line' ++ 0x20 ∷ []) (skip_ws s') in
    let last = fill f width line' (skip_ws s') in
    if leb width (length line)
    then some (line, c ∷ s)
    else if ltb line_size (length line + j)
    then none
    else if leb width (length line + j)
    then some (line, c ∷ s)
    else if starts_ws s'
    then (if leb line_size (length line + j) then none else more)
    else last

-- `while (d > line && d[-1] == 0x20) *d-- = 0;`
unfoldable pub trim : List ℕ → List ℕ
trim [] = []
trim (c ∷ s) =
    let rest = trim s in elim rest [ [] ↦ if c == 0x20 then [] else c ∷ [] | x ∷ xs ↦ c ∷ (x ∷ xs) ]

abbrev pub pad : ℕ → List ℕ → List ℕ
pad col line = line ++ replicate (col - length line) 0x20

-- The `do ... while (*s)` loop, with the description column at `col`. Fuel bounds the lines.
unfoldable pub describe : ℕ → ℕ → ℕ → List ℕ → List ℕ → Output
unfolding fill trim
describe zero col width line s = endless
describe (suc f) col width line s =
    let padded = pad col line in
    let rest = λ (s' : List ℕ). describe f col width [] s' in
    if ltb line_size (length padded) then fault else elim (fill (length s) width padded s) [
      | none ↦ fault
      | some (l, []) ↦ if ltb (length l) line_size then lines (trim l ∷ []) else fault
      | some (l, c ∷ s') ↦
          if ltb (length l) line_size then then_lines (trim l ∷ []) (rest (c ∷ s')) else fault
    ]

abbrev pub max : ℕ → ℕ → ℕ
max a b = if ltb a b then b else a

module _ {V : Type 0} where
  -- The width of an option in the first column.
  abbrev pub option_width : MetadParam V → ℕ
  option_width p =
      let comma_spc = if p.opt_short == 0 then 0 else 2 in
      (if p.opt_short == 0 then 0 else 2)
      + elim p.opt_long [ none ↦ 0 | some l ↦ 2 + length l + comma_spc ]
      + elim p.comment [
        | none ↦ 0
        | some t ↦ elim (at_bar t) [ none ↦ 0 | some (a, b) ↦ length a + 1 ]
      ]

  unfoldable pub widest : ℕ → List (MetadParam V) → ℕ
  widest w [] = w
  widest w (p ∷ ps) = widest (max w (option_width p)) ps

  unfoldable pub widest_of : ℕ → List (MconfBlock V) → ℕ
  unfolding widest
  widest_of w [] = w
  widest_of w (b ∷ cb) = widest_of (widest w b.opt) cb

  -- The option column, and the text for the other one; no comment is a NULL.
  unfoldable pub option_column : MetadParam V → List ℕ × Option (List ℕ)
  option_column p =
      let short = if p.opt_short == 0 then [] else b'-' ∷ p.opt_short ∷ [] in
      let comma = if p.opt_short == 0 then [] else b',' ∷ 0x20 ∷ [] in
      let long : List ℕ = elim p.opt_long [ none ↦ [] | some l ↦ comma ++ b'-' ∷ b'-' ∷ l ] in
      let head = (0x20 ∷ 0x20 ∷ []) ++ short ++ long in
      elim p.comment [
        | none ↦ (head, none)
        | some t ↦ elim (at_bar t) [
          | none ↦ (head, some t)
          | some (a, b) ↦ (head ++ 0x20 ∷ a, some b)
        ]
      ]

  -- The default value, behind the text "default: ". A text that fills the rest of the line leaves no
  -- room for its NUL.
  unfoldable pub default_line : ℕ → MetadParam V → V → Output
  default_line col p v = elim p.to_string [
    | none ↦ lines []
    | some get ↦ if leb line_size (col + 9) then fault else elim (get (line_size - (col + 9)) v) [
      | none ↦ lines []
      | some t ↦
          if length t == 0
          then lines []
          else if ltb (col + 9 + length t) line_size
          then lines ((replicate col 0x20 ++ codes "default: " ++ t) ∷ [])
          else fault
    ]
  ]

  unfoldable pub help_option : ℕ → ℕ → ℕ → MetadParam V → V → Output
  unfolding option_column describe default_line
  help_option fuel col width p v =
      let (head, text) = option_column p in
      let no_long : Bool = elim p.opt_long [ none ↦ true | some _ ↦ false ] in
      if p.opt_short == 0 && no_long
      then lines []
      else if ltb line_size (length head)
      then fault
      else elim text [
        | none ↦ fault
        | some s ↦ in_order (describe fuel col width head s) (default_line col p v)
      ]

  unfoldable pub help_options : ℕ → ℕ → ℕ → List (MetadParam V) → V → Output
  unfolding help_option
  help_options fuel col width [] v = lines []
  help_options fuel col width (p ∷ ps) v =
      in_order (help_option fuel col width p v) (help_options fuel col width ps v)

  unfoldable pub help_blocks : ℕ → ℕ → ℕ → List (MconfBlock V) → V → Output
  unfolding help_options
  help_blocks fuel col width [] v = lines []
  help_blocks fuel col width (b ∷ cb) v =
      in_order (help_options fuel col width b.opt v) (help_blocks fuel col width cb v)

  -- `opt_ind` is 2, `opt_spc` is 4.
  unfoldable pub mconf_help_msg : ℕ → Mconf V → ℕ → V → Output
  unfolding help_blocks widest_of
  mconf_help_msg fuel cf width v = help_blocks fuel (widest_of 0 cf.cb + 2 + 4) width cf.cb v
