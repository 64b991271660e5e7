-- ===== src/Loot/Saving.antt =====
-- A loot filter's state through `save` and `restore`.
use rfx.Prelude.{
  ℕ, ◌+◌, ◌^◌, ◌<◌, ◌≡◌, refl, sym, ap, ◌∙◌, true, some, List, [], ◌∷◌, ◌++◌, ◌==◌, length, drop,
  arith, append-nil, length-append,
}
use rfx.RfxState.{RfxState, rfx_state, read, write, read_lem}
use rfx.Loot.{LootMask, mask_size}
use rfx.Loot.Command.{LootState, restore_mask, save, restore}

drop_all : (m n : LootMask) → length m ≡ length n → drop (length m) n ≡ []
drop_all [] [] e = refl
drop_all [] (b ∷ n) e = absurd (omega arith)
drop_all (a ∷ m) [] e = refl
drop_all (a ∷ m) (b ∷ n) e = drop_all m n (omega arith)

-- A mask that stands at the position is restored, over any other.
restore_mask_lem :
    (old m before after : List ℕ) (s : RfxState)
    → length old ≡ mask_size
    → length m ≡ mask_size
    → s.state ≡ before ++ (m ++ after)
    → s.pos ≡ length before
    → length s.state < 2 ^ 64
    → restore_mask old s ≡ some (true, m, record s { pos = s.pos + mask_size })
unfolding restore_mask
restore_mask_lem old m before after s o l e p h =
    let r = read_lem s before m after e p h in
    let r' : read mask_size s ≡ some (m, record s { pos = s.pos + mask_size }) =
      ap (λ n. read n s) (sym l) ∙ r ∙ ap (λ n. some (m, record s { pos = s.pos + n })) l in
    let d = drop_all m old (l ∙ sym o) in
    let y : (length m == mask_size) ≡ true = ap (λ n. n == mask_size) l in
    rw (restore_mask, r', y, d, append-nil m) refl

-- A loot state whose masks have their size, saved to a fresh state, is restored over any other
-- such loot state as it was, with success.
pub restore-save :
    (l old : LootState) (v : ℕ)
    → length l.show ≡ mask_size
    → length l.pick ≡ mask_size
    → length old.show ≡ mask_size
    → length old.pick ≡ mask_size
    → (s : RfxState) × (restore old (save l (rfx_state v)) ≡ some (true, l, s))
unfolding restore save write rfx_state
restore-save l old v a b c d =
    let s0 : RfxState = record { version = v; pos = 0; state = [] ++ l.show ++ l.pick } in
    let n = length-append l.show l.pick in
    let r1 = restore_mask_lem old.show l.show [] l.pick s0 c a refl refl (omega (arith, n, a, b)) in
    let s1 : RfxState = record s0 { pos = 0 + mask_size } in
    let r2 =
      restore_mask_lem old.pick l.pick l.show [] s1 d b
        (ap (λ z. l.show ++ z) (sym (append-nil l.pick))) (sym a) (omega (arith, n, a, b)) in
    (record s1 { pos = s1.pos + mask_size }, rw (restore, save, write, rfx_state, r1, r2) refl)
