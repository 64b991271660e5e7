-- ===== src/Mconf/CommandLine/Counts.antt =====
-- `mconf_add` counts the characters and the entries that its options need.
use rfx.Prelude.{ℕ, ◌+◌, ◌≤◌, ◌≡◌, true, List, [], ◌∷◌, length, All}
use rfx.Mconf.{MetadParam, Mconf, count_option, mconf_add, Checked}
use rfx.Mconf.CommandLine.{short_spec}
use rfx.Mconf.CommandLine.Buffers.{entries, specs, table, Ascii, Below}

module _ {V : Type 0} where
  -- No count wraps at the option.
  record Counted (cf : Mconf V) (o : MetadParam V) : Type 0 where
    few : length (short_spec (count_option cf o).1) ≤ 3
    one : length (entries (count_option cf o).1) ≤ 1
    shorts :
        (count_option cf o).0.short_len ≡ cf.short_len + length (short_spec (count_option cf o).1)
    longs :
        (count_option cf o).0.long_count ≡ cf.long_count + length (entries (count_option cf o).1)
    letter : (count_option cf o).1.opt_short ≡ o.opt_short

  -- What the loop adds to the counts.
  record Added (cf : Mconf V) (n : ℕ) (r : Checked V) : Type 0 where
    below : Below n r.1
    shorts : cf.short_len ≤ (r.1).short_len
    longs : cf.long_count ≤ (r.1).long_count
    all_shorts : r.0 ≡ true → (r.1).short_len ≡ cf.short_len + length (specs r.2)
    all_longs : r.0 ≡ true → (r.1).long_count ≡ cf.long_count + length (table r.2)
    ascii : All Ascii r.2

  -- Calls of `mconf_add` on a new configuration, one after another, whatever they return.
  abbrev pub add_all : Mconf V → List (List ℕ × List (MetadParam V)) → Mconf V
  add_all cf [] = cf
  add_all cf (b ∷ bs) = add_all (mconf_add cf b.0 b.1).1 bs

  -- The options that all of the calls are about.
  abbrev pub total : List (List ℕ × List (MetadParam V)) → ℕ
  total [] = 0
  total (b ∷ bs) = length b.1 + total bs
