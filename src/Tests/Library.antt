-- ===== src/Tests/Library.antt =====
-- Runs of the functions of lib/ at concrete inputs, and each property with hypotheses at one of them.
use rfx.Prelude.{
  ℕ, ◌-◌, ◌/◌, ◌%◌, ◌^◌, ◌≤◌, ◌≡◌, refl, true, false, some, List, [], ◌∷◌, arith, length, take,
}
use rfx.Uri.{uri_decode, decode, uri_decode_lem}
use rfx.Clock.{Timespec, clock_diff, nanos, clock_diff_lem}
use rfx.Sock.{Call, moves, interrupted, again, count, Io, write_full_ms, writev_loop}
use rfx.SendQueue.{other}
use rfx.Sock.Whole.{Wrote, writev_loop_lem}

-- "a%41%"
abbrev escaped : List ℕ
escaped = 97 ∷ 37 ∷ 52 ∷ 49 ∷ 37 ∷ []

uri_decode_example :
    (uri_decode 2 escaped ≡ (take 2 (decode escaped), length (decode escaped)))
    × (length (decode escaped) ≤ length escaped)
uri_decode_example = uri_decode_lem 2 escaped

-- "aA%" has three characters, of which two fit.
uri_decode_runs : uri_decode 2 escaped ≡ (97 ∷ 65 ∷ [], 3)
unfolding uri_decode
uri_decode_runs = refl

abbrev late : Timespec
late = record { tv_sec = 7; tv_nsec = 999000000 }

abbrev later : Timespec
later = record { tv_sec = 8; tv_nsec = 1000 }

clock_diff_example : clock_diff late later ≡ (nanos later - nanos late) / 1000 % 2 ^ 32
clock_diff_example = clock_diff_lem late later (omega arith) (omega arith) (omega arith)

abbrev two_writes : List Call
two_writes = moves 2 true ∷ again true ∷ moves 0 true ∷ interrupted ∷ moves 5 true ∷ []

writev_loop_example :
    (r : Io) × (writev_loop false other 0 two_writes ((7 ∷ []) ∷ (8 ∷ 9 ∷ []) ∷ []) ≡ some r)
    × Wrote 0 two_writes ((7 ∷ []) ∷ (8 ∷ 9 ∷ []) ∷ []) r
writev_loop_example =
    writev_loop_lem false other two_writes ((7 ∷ []) ∷ (8 ∷ 9 ∷ []) ∷ [])
      (omega arith, (omega arith, tt)) (omega arith)

-- A short write: `write_full_ms` says that it wrote three bytes, and wrote one.
short_write :
    write_full_ms (moves 1 true ∷ []) (7 ∷ 8 ∷ 9 ∷ [])
    ≡ record { result = count 3; bytes = 7 ∷ []; left = [] }
unfolding write_full_ms
short_write = refl
