-- ===== src/Loot/Command.antt =====
-- `loot_state`, `parse_mask` and `loot_cmd` of rfx_loot.cpp, and `hex2i` of rfx_modules.cpp.
use rfx.Prelude.{
  ℕ, zero, suc, ◌+◌, ◌-◌, ◌*◌, ◌%◌, ◌^◌, Bool, true, false, Option, none, some, List, [], ◌∷◌, ◌++◌,
  ◌==◌, ltb, leb, ◌&&◌, ◌||◌, if◌then◌else◌, length, get_or, take, drop, bit_or,
}
use rfx.RfxState.{RfxState, read, write}
use rfx.Loot.{LootMask, mask_size, set_all, set_bit, add_mask, sub_mask, count}

pub record LootState : Type 0 where
  pub show : LootMask
  pub pick : LootMask

unfoldable pub loot_state : LootState
loot_state = record { show = set_all true; pick = set_all false }

-- `loot_mask::restore`: what was read goes over the front of the mask.
unfoldable pub restore_mask : LootMask → RfxState → Option (Bool × LootMask × RfxState)
unfolding read
restore_mask m s = elim (read mask_size s) [
  | none ↦ none
  | some (bs, s') ↦ some (length bs == mask_size, bs ++ drop (length bs) m, s')
]

-- `save` and `restore` of `loot_state`.
unfoldable pub save : LootState → RfxState → RfxState
unfolding write
save l s = write l.pick (write l.show s)

unfoldable pub restore : LootState → RfxState → Option (Bool × LootState × RfxState)
unfolding restore_mask
restore l s = elim (restore_mask l.show s) [
  | none ↦ none
  | some (ok, m, s') ↦
      if ok
      then (elim (restore_mask l.pick s') [
        | none ↦ none
        | some (ok', m', s'') ↦ some (ok', record { show = m; pick = m' }, s'')
      ])
      else some (false, record l { show = m }, s')
]

-- `isspace`, `isdigit`, `isxdigit` in the C locale.
abbrev pub is_space : ℕ → Bool
is_space c = c == 32 || (leb 9 c && leb c 13)

abbrev pub between : ℕ → ℕ → ℕ → Bool
between a c b = leb a c && leb c b

abbrev pub is_xdigit : ℕ → Bool
is_xdigit c = between 48 c 57 || between 97 c 102 || between 65 c 70

unfoldable pub hex2i : ℕ → ℕ
hex2i c =
    if between 48 c 57
    then c - 48
    else if between 97 c 102
    then c - 97 + 10
    else if between 65 c 70
    then c - 65 + 10
    else 0

-- The loop over the digits behind `0x`, on an unsigned `id`.
unfoldable pub hex_loop : ℕ → List ℕ → ℕ
unfolding hex2i
hex_loop id [] = id
hex_loop id (c ∷ n) = if is_xdigit c then hex_loop (bit_or (id * 16 % 2 ^ 32) (hex2i c)) n else id

abbrev pub same_text : List ℕ → List ℕ → Bool
same_text [] [] = true
same_text [] (d ∷ t) = false
same_text (c ∷ s) [] = false
same_text (c ∷ s) (d ∷ t) = c == d && same_text s t

-- "all", "none", "drop/list-", ".bin", "info"
abbrev pub all_text : List ℕ
all_text = 97 ∷ 108 ∷ 108 ∷ []

abbrev pub none_text : List ℕ
none_text = 110 ∷ 111 ∷ 110 ∷ 101 ∷ []

abbrev pub list_text : List ℕ
list_text = 100 ∷ 114 ∷ 111 ∷ 112 ∷ 47 ∷ 108 ∷ 105 ∷ 115 ∷ 116 ∷ 45 ∷ []

abbrev pub bin_text : List ℕ
bin_text = 46 ∷ 98 ∷ 105 ∷ 110 ∷ []

abbrev pub info_text : List ℕ
info_text = 105 ∷ 110 ∷ 102 ∷ 111 ∷ []

-- The file that `@name` stands for, in a buffer of 64 characters.
abbrev pub file_name : List ℕ → List ℕ
file_name name = take 63 (list_text ++ name ++ bin_text)

-- The operation of a term of the command.
pub data Op : Type 0 where
  op_set op_add op_sub : Op

abbrev pub combine : Op → LootMask → LootMask → LootMask
combine op_set nm d = d
combine op_add nm d = add_mask nm d
combine op_sub nm d = sub_mask nm d

abbrev pub skip_space : List ℕ → List ℕ
skip_space [] = []
skip_space (c ∷ m) = if is_space c then skip_space m else c ∷ m

-- '+' or '-' in front of a term.
abbrev pub operator : List ℕ → Op × List ℕ
operator [] = (op_set, [])
operator (c ∷ m) = if c == 43 then (op_add, m) else if c == 45 then (op_sub, m) else (op_set, c ∷ m)

-- The name up to the next operator or space, and what is behind it.
abbrev pub word : List ℕ → List ℕ × List ℕ
word [] = ([], [])
word (c ∷ m) =
    if c == 43 || c == 45 || is_space c then ([], c ∷ m) else (let (w, r) = word m in (c ∷ w, r))

-- `std::string` to C string.
abbrev pub c_str : List ℕ → List ℕ
c_str [] = []
c_str (c ∷ m) = if c == 0 then [] else c ∷ c_str m

-- What `loot_cmd` answers.
pub data Answer : Type 0 where
  shown_ignored : ℕ → ℕ → Answer
  cannot_parse : Answer

-- `files` is the file system: what `fread` gets of a file, of at most `mask_size` bytes.
module _ (files : List ℕ → Option (List ℕ)) where
  -- `loot_mask::fload`
  unfoldable pub fload : LootMask → List ℕ → Bool × LootMask
  fload m name = elim (files name) [
    | none ↦ (false, m)
    | some text ↦ let bs = take mask_size text in (length bs == mask_size, bs ++ drop (length bs) m)
  ]

  -- The mask that a name stands for, over the mask `m`.
  unfoldable pub parse_mask : LootMask → List ℕ → Bool × LootMask
  unfolding fload hex_loop
  parse_mask m n =
      if same_text n all_text
      then (true, set_all true)
      else if same_text n none_text
      then (true, set_all false)
      else if ltb 1 (length n) && (get_or n 0 0 == 64)
      then fload m (file_name (drop 1 n))
      else if ltb 2 (length n) && (get_or n 0 0 == 48) && (get_or n 1 0 == 120)
      then (true, (set_bit (set_all false) (hex_loop 0 (drop 2 n)) true).1)
      else (false, m)

  -- The loop of `loot_cmd` over the command, from the masks `d` and `nm`: the new mask, or `none`
  -- if a name cannot be parsed. The fuel is the number of characters left.
  unfoldable pub cmd_loop : ℕ → List ℕ → LootMask → LootMask → Option LootMask
  unfolding parse_mask
  cmd_loop zero m d nm = some nm
  cmd_loop (suc f) m d nm =
      let text = skip_space m in
      let (op, rest) = operator text in
      let (name, behind) = word rest in
      let (ok, d') = parse_mask d name in
      let next = cmd_loop f behind d' (combine op nm d') in
      if length text == 0 then some nm else if ok then next else none

  -- `loot_cmd`: the answer, and the state.
  unfoldable pub loot_cmd : List ℕ → LootState → Answer × LootState
  unfolding cmd_loop count
  loot_cmd msg l =
      let result =
        (if same_text msg info_text
          then some l.show
          else cmd_loop (length (c_str msg)) (c_str msg) (set_all false) l.show) in
      elim result [
        | none ↦ (cannot_parse, l)
        | some nm ↦ (shown_ignored (count nm) (65536 - count nm), record l { show = nm })
      ]
