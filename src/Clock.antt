-- ===== src/Clock.antt =====
-- `clock_diff` of lib/misc.c.
use rfx.Prelude.{
  ℕ, ◌+◌, ◌-◌, ◌*◌, ◌/◌, ◌%◌, ◌^◌, ◌≤◌, ◌<◌, ◌≡◌, ap, ltb, if◌then◌else◌, arith, Bool-cases, ltb→lt,
  not-ltb→le, inl, inr,
}

-- `struct timespec`
pub record Timespec : Type 0 where
  pub tv_sec : ℕ
  pub tv_nsec : ℕ

-- The arithmetic is on 64-bit longs, here from `start` to a `stop` that is not earlier; the result
-- is an unsigned int.
unfoldable pub clock_diff : Timespec → Timespec → ℕ
clock_diff start stop =
    if ltb stop.tv_nsec start.tv_nsec
    then ((stop.tv_sec - start.tv_sec - 1) * 1000000
        + (1000000000 + stop.tv_nsec - start.tv_nsec) / 1000)
      % 2 ^ 32
    else ((stop.tv_sec - start.tv_sec) * 1000000 + (stop.tv_nsec - start.tv_nsec) / 1000) % 2 ^ 32

-- Nanoseconds since the epoch.
abbrev pub nanos : Timespec → ℕ
nanos t = t.tv_sec * 1000000000 + t.tv_nsec

-- For two times in order whose nanoseconds are below a second, `clock_diff` is the number of
-- whole microseconds between them, modulo 2 ^ 32.
pub clock_diff_lem :
    (start stop : Timespec)
    → start.tv_nsec < 1000000000
    → stop.tv_nsec < 1000000000
    → nanos start ≤ nanos stop
    → clock_diff start stop ≡ (nanos stop - nanos start) / 1000 % 2 ^ 32
unfolding clock_diff
clock_diff_lem start stop a b le = elim (Bool-cases (ltb stop.tv_nsec start.tv_nsec)) [
  | inl e ↦
      let l : stop.tv_nsec < start.tv_nsec = ltb→lt stop.tv_nsec start.tv_nsec e in
      rw e (ap (λ x. x % 2 ^ 32) (omega (arith, a, b, le, l)))
  | inr e ↦
      let l : start.tv_nsec ≤ stop.tv_nsec = not-ltb→le stop.tv_nsec start.tv_nsec e in
      rw e (ap (λ x. x % 2 ^ 32) (omega (arith, a, b, le, l)))
]
