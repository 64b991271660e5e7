-- ===== src/Loot/Commands.antt =====
-- `loot_cmd` as a whole: every character of a command is read, and the answer is what it means.
use rfx.Prelude.{ℕ, ◌-◌, ◌<◌, ◌≡◌, Option, none, some, List, All}
use rfx.Loot.{LootMask}
use rfx.Loot.Counting.{tally}
use rfx.Loot.Command.{LootState, Answer, shown_ignored, cannot_parse}
use rfx.Loot.Meaning.{Items, Has}

module _ (files : List ℕ → Option (List ℕ))
    (bytes : (name text : List ℕ) → files name ≡ some text → All (λ b. b < 256) text) where
  -- What `loot_cmd` does on a command whose terms lead to `o`: the new mask has the items, and they
  -- are counted.
  abbrev pub Answered : LootState → Option Items → Answer × LootState → Type 0
  Answered l none r = r ≡ (cannot_parse, l)
  Answered l (some q) r =
      (nm : LootMask) × (r
        ≡ (shown_ignored (tally q 0 65536) (65536 - tally q 0 65536), record l { show = nm }))
      × Has nm q
