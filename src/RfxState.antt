-- ===== src/RfxState.antt =====
-- `rfx_state` of rfx_api.h: the bytes in which a filter's state outlives a reload of its module.
use Prim.Native.Nat.{min}
use rfx.Prelude.{
  ℕ, ◌+◌, ◌-◌, ◌%◌, ◌^◌, ◌≤◌, ◌<◌, ◌≡◌, refl, ap, ap₂, ◌∙◌, true, Option, none, some, List, [],
  ◌++◌, leb, if◌then◌else◌, length, take, drop, arith, length-append, take-append_length,
  drop-append_length,
}

pub record RfxState : Type 0 where
  pub version : ℕ
  pub pos : ℕ
  pub state : List ℕ

unfoldable pub rfx_state : ℕ → RfxState
rfx_state v = record { version = v; pos = 0; state = [] }

-- `read(dst, len)`: the bytes that it copies to `dst`, whose number is the result. The difference is
-- unsigned; `none` is a copy from outside the vector.
unfoldable pub read : ℕ → RfxState → Option (List ℕ × RfxState)
read len s =
    let l = min ((length s.state + 2 ^ 64 - s.pos) % 2 ^ 64) len in
    if leb (s.pos + l) (length s.state)
    then some (take l (drop s.pos s.state), record s { pos = s.pos + l })
    else none

unfoldable pub write : List ℕ → RfxState → RfxState
write src s = record s { state = s.state ++ src }

-- What stands at the position is read.
pub read_lem :
    (s : RfxState) (before bs after : List ℕ)
    → s.state ≡ before ++ (bs ++ after)
    → s.pos ≡ length before
    → length s.state < 2 ^ 64
    → read (length bs) s ≡ some (bs, record s { pos = s.pos + length bs })
unfolding read
read_lem s before bs after e p h =
    let n = ap length e ∙ length-append before (bs ++ after) in
    let n' = length-append bs after in
    let l : min ((length s.state + 2 ^ 64 - s.pos) % 2 ^ 64) (length bs) ≡ length bs =
      omega (arith, n, n', p, h) in
    let r : leb (s.pos + length bs) (length s.state) ≡ true =
      (let x : s.pos + length bs ≤ length s.state = omega (arith, n, n', p) in ground (arith, x)) in
    let t : take (length bs) (drop s.pos s.state) ≡ bs =
      ap₂ (λ i x. take (length bs) (drop i x)) p e
      ∙ ap (take (length bs)) (drop-append_length before (bs ++ after))
      ∙ take-append_length bs after in
    rw (l, r, t) refl
