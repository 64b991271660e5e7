-- ===== src/Mconf/CommandLine/Buffers.antt =====
-- What `mconf_parse_cmdline` writes for `getopt_long` fits in what it allocates, by the counts of
-- `mconf_add`.
use rfx.Prelude.{
  ◌*◌, ◌^◌, ◌>>=◌, ℕ, suc, ◌+◌, ◌≤◌, ◌<◌, ◌≡◌, sym, ap, ap₂, ◌∙◌, true, Option, none, some, List,
  [], ◌∷◌, ◌++◌, ltb, arith, length, length-append, append_assoc, append-nil, All, Option-cases,
  inl, inr, if◌then◌else◌,
}
use rfx.Mconf.{MetadParam, MconfBlock, Mconf, short_chars}
use rfx.Mconf.CommandLine.{
  Prepared, LongOption, put_char, put_chars, short_spec, long_entry, put_long, in_cmap, chars_of,
  longs_of, prepare_option, prepare_options, prepare_blocks, prepare, no_option,
}

put_chars_lem :
    (size : ℕ) (buf cs : List ℕ)
    → length buf + length cs ≤ size
    → put_chars size buf cs ≡ some (buf ++ cs)
put_chars_lem size buf [] h = ap some (sym (append-nil buf))
put_chars_lem size buf (c ∷ cs) h =
    let l = length-append buf (c ∷ []) in
    ground (
      arith,
      put_chars_lem size (buf ++ c ∷ []) cs (omega (arith, l)),
      append_assoc buf (c ∷ []) cs,
    )

abbrev more : Prepared → List ℕ → List LongOption → Prepared
more r s t = record { opt_short = r.opt_short ++ s; opt_long = r.opt_long ++ t }

abbrev Room : ℕ → ℕ → Prepared → List ℕ → List LongOption → Type 0
Room chars longs r s t =
    (length r.opt_short + length s ≤ chars) × (length r.opt_long + length t ≤ longs)

more-more :
    (r : Prepared) (s s' : List ℕ) (t t' : List LongOption)
    → more (more r s t) s' t' ≡ more r (s ++ s') (t ++ t')
more-more r s s' t t' =
    ap₂ (λ a b. record { opt_short = a; opt_long = b }) (append_assoc r.opt_short s s')
      (append_assoc r.opt_long t t')

-- Room for two parts, one after the other.
Room-first :
    (chars longs : ℕ) (r : Prepared) (s s' : List ℕ) (t t' : List LongOption)
    → Room chars longs r (s ++ s') (t ++ t')
    → Room chars longs r s t × Room chars longs (more r s t) s' t'
Room-first chars longs r s s' t t' h =
    let a = length-append s s' in
    let b = length-append t t' in
    let c = length-append r.opt_short s in
    let d = length-append r.opt_long t in
    let (x, y) = h in
    ((omega (arith, a, x), omega (arith, b, y)), (omega (arith, a, c, x), omega (arith, b, d, y)))

-- More options than this are not considered: the counts could wrap.
abbrev pub most : ℕ
most = 2 ^ 30

module _ {V : Type 0} where
  length-short_spec : (p : MetadParam V) → length (short_spec p) ≡ short_chars p
  length-short_spec p = ground arith

  abbrev pub entries : MetadParam V → List LongOption
  entries p = elim p.opt_long [ none ↦ [] | some name ↦ long_entry p name ∷ [] ]

  abbrev has_long : MetadParam V → ℕ
  has_long p = elim p.opt_long [ none ↦ 0 | some _ ↦ 1 ]

  length-entries : (p : MetadParam V) → length (entries p) ≡ has_long p
  length-entries p = elim (Option-cases p.opt_long) [
    | inl n ↦ ground (arith, n)
    | inr (name, e) ↦ ground (arith, e)
  ]

  abbrev pub specs : List (MetadParam V) → List ℕ
  specs [] = []
  specs (p ∷ ps) = short_spec p ++ specs ps

  abbrev pub table : List (MetadParam V) → List LongOption
  table [] = []
  table (p ∷ ps) = entries p ++ table ps

  abbrev pub all_specs : List (MconfBlock V) → List ℕ
  all_specs [] = []
  all_specs (b ∷ cb) = specs b.opt ++ all_specs cb

  abbrev pub all_entries : List (MconfBlock V) → List LongOption
  all_entries [] = []
  all_entries (b ∷ cb) = table b.opt ++ all_entries cb

  abbrev pub Ascii : MetadParam V → Type 0
  Ascii p = p.opt_short < 128

  put_long_lem :
      (longs : ℕ) (p : MetadParam V) (o : List LongOption)
      → length o + length (entries p) ≤ longs
      → put_long longs p o ≡ some (o ++ entries p)
  put_long_lem longs p o h = elim (Option-cases p.opt_long) [
    | inl n ↦ ground (arith, n, append-nil o)
    | inr (name, e) ↦
        let w : has_long p ≡ 1 = ground (arith, e) in ground (arith, e, length-entries p, w)
  ]

  prepare_option_lem :
      (chars longs : ℕ) (p : MetadParam V) (r : Prepared)
      → Ascii p
      → Room chars longs r (short_spec p) (entries p)
      → prepare_option chars longs p r ≡ some (more r (short_spec p) (entries p))
  unfolding prepare_option
  prepare_option_lem chars longs p r a h =
      let d = put_chars_lem chars r.opt_short (short_spec p) h.0 in
      let o = put_long_lem longs p r.opt_long h.1 in
      let i : in_cmap p ≡ true = ground arith in rw (prepare_option, ◌>>=◌, d, i, o)

  prepare_options_lem :
      (chars longs : ℕ) (ps : List (MetadParam V)) (r : Prepared)
      → All Ascii ps
      → Room chars longs r (specs ps) (table ps)
      → prepare_options chars longs ps r ≡ some (more r (specs ps) (table ps))
  unfolding prepare_options
  prepare_options_lem chars longs [] r a h = ap some (
      ap₂ (λ x y. record { opt_short = x; opt_long = y }) (sym (append-nil r.opt_short))
        (sym (append-nil r.opt_long)))
  prepare_options_lem chars longs (p ∷ ps) r a h =
      let (x, y) = Room-first chars longs r (short_spec p) (specs ps) (entries p) (table ps) h in
      ap (λ o. o >>= prepare_options chars longs ps) (prepare_option_lem chars longs p r a.0 x)
      ∙ prepare_options_lem chars longs ps (more r (short_spec p) (entries p)) a.1 y
      ∙ ap some (more-more r (short_spec p) (specs ps) (entries p) (table ps))

  prepare_blocks_lem :
      (chars longs : ℕ) (cb : List (MconfBlock V)) (r : Prepared)
      → All (λ b. All Ascii b.opt) cb
      → Room chars longs r (all_specs cb) (all_entries cb)
      → prepare_blocks chars longs cb r ≡ some (more r (all_specs cb) (all_entries cb))
  unfolding prepare_blocks
  prepare_blocks_lem chars longs [] r a h = ap some (
      ap₂ (λ x y. record { opt_short = x; opt_long = y }) (sym (append-nil r.opt_short))
        (sym (append-nil r.opt_long)))
  prepare_blocks_lem chars longs (b ∷ cb) r a h =
      let (x, y) =
        Room-first chars longs r (specs b.opt) (all_specs cb) (table b.opt) (all_entries cb) h in
      ap (λ o. o >>= prepare_blocks chars longs cb) (prepare_options_lem chars longs b.opt r a.0 x)
      ∙ prepare_blocks_lem chars longs cb (more r (specs b.opt) (table b.opt)) a.1 y
      ∙ ap some (more-more r (specs b.opt) (all_specs cb) (table b.opt) (all_entries cb))

  -- The counts of `mconf_add` are enough for the options that are there.
  pub record Counts (cf : Mconf V) : Type 0 where
    pub shorts : length (all_specs cf.cb) ≤ cf.short_len
    pub longs : length (all_entries cf.cb) ≤ cf.long_count
    pub ascii : All (λ b. All Ascii b.opt) cf.cb

  -- The counts, after so many options.
  abbrev pub Below : ℕ → Mconf V → Type 0
  Below n cf = (cf.short_len ≤ 3 * n) × (cf.long_count ≤ n)

  -- With such counts both buffers are written within their bounds.
  pub prepare-Counts :
      (cf : Mconf V)
      → Counts cf
      → (n : ℕ) → n < most
      → Below n cf
      → prepare cf
        ≡ some (record {
          opt_short = (b'c' ∷ b':' ∷ []) ++ all_specs cf.cb ++ 0 ∷ [];
          opt_long = all_entries cf.cb ++ no_option ∷ [];
        })
  unfolding prepare
  prepare-Counts cf c n lt (low, few) =
      let a = c.shorts in
      let b = c.longs in
      let chars = chars_of cf in
      let longs = longs_of cf in
      let ce : chars ≡ cf.short_len + 3 = omega (arith, low, lt) in
      let le : longs ≡ cf.long_count + 1 = omega (arith, few, lt) in
      let begun : Prepared = record { opt_short = b'c' ∷ b':' ∷ []; opt_long = [] } in
      let blocks =
        prepare_blocks_lem chars longs cf.cb begun c.ascii
          (omega (arith, a, ce), omega (arith, b, le)) in
      let short_fits : ltb (suc (suc (length (all_specs cf.cb)))) chars ≡ true =
        ground (arith, a, ce) in
      let long_fits : ltb (length (all_entries cf.cb)) longs ≡ true = ground (arith, b, le) in
      ap (λ o. o >>= go) (put_chars_lem chars [] (b'c' ∷ b':' ∷ []) (omega (arith, ce)))
      ∙ ap (λ o. o >>= last) blocks
      ∙ rw (short_fits, long_fits)
    where
      last : Prepared → Option Prepared
      last r = do
        s ← put_char (chars_of cf) r.opt_short 0
        if ltb (length r.opt_long) (longs_of cf)
            then some (record { opt_short = s; opt_long = r.opt_long ++ no_option ∷ [] })
            else none

      go : List ℕ → Option Prepared
      go d =
          prepare_blocks (chars_of cf) (longs_of cf) cf.cb (record { opt_short = d; opt_long = [] })
          >>= last
