-- ===== src/Sock.antt =====
-- The blocking reads and writes of lib/sock.c.
pub mod Whole
use Prim.Native.Nat.{min}
use rfx.SendQueue.{Errno, eintr, eagain, other}
use rfx.Prelude.{
  ◌||◌, ℕ, zero, suc, ◌+◌, ◌-◌, ◌*◌, ◌/◌, ◌%◌, ◌^◌, Bool, true, false, Option, none, some, List, [],
  ◌∷◌, ◌++◌, ◌==◌, leb, ltb, not, ◌&&◌, if◌then◌else◌, length, take, drop,
}

-- What a call of `read`, `write` or `writev` does: it moves up to so many bytes, or fails. The flags
-- say whether `poll`, if it is called then, finds the descriptor ready.
pub data Call : Type 0 where
  moves : ℕ → Bool → Call
  interrupted : Call
  again : Bool → Call
  fails : Call

-- What a function does when the calls run out: it returned a count, or -1, or waits.
pub data Result : Type 0 where
  count : ℕ → Result
  failed : Result
  waiting : Result

-- The result, the bytes handed over, and the calls left.
pub record Io : Type 0 where
  pub result : Result
  pub bytes : List ℕ
  pub left : List Call

-- `read_ms` and `write_ms` on `buf`, the bytes to be moved: the peer's for a read, the buffer's for
-- a write.
unfoldable pub move_ms : List Call → List ℕ → Io
move_ms [] buf = record { result = waiting; bytes = []; left = [] }
move_ms (moves n ready ∷ cs) buf = record {
  result = count (min n (length buf));
  bytes = take n buf;
  left = cs;
}
move_ms (interrupted ∷ cs) buf = move_ms cs buf
move_ms (again true ∷ cs) buf = move_ms cs buf
move_ms (again false ∷ cs) buf = record { result = failed; bytes = []; left = cs }
move_ms (fails ∷ cs) buf = record { result = failed; bytes = []; left = cs }

unfoldable pub read_ms : List Call → List ℕ → ℕ → Io
unfolding move_ms
read_ms cs peer len = move_ms cs (take len peer)

unfoldable pub write_ms : List Call → List ℕ → Io
unfolding move_ms
write_ms cs buf = move_ms cs buf

-- The loop of `write_full_ms` from position `pos`: it adds the whole length to its position at each
-- write that succeeds. The fuel bounds the rounds.
unfoldable pub write_rounds : ℕ → List Call → List ℕ → ℕ → Io
unfolding write_ms
write_rounds zero cs buf pos = record { result = waiting; bytes = []; left = cs }
write_rounds (suc f) cs buf pos =
    let w = write_ms cs (drop pos buf) in
    let next = write_rounds f w.left buf (pos + length buf) in
    elim w.result [
      | failed ↦ record w { result = count pos }
      | waiting ↦ w
      | count l ↦
          if ltb (pos + length buf) (length buf)
          then record next { bytes = w.bytes ++ next.bytes }
          else record w { result = count (pos + length buf) }
    ]

unfoldable pub write_full_ms : List Call → List ℕ → Io
unfolding write_rounds
write_full_ms cs buf = write_rounds (suc (length buf)) cs buf 0

-- The entries of an iovec, each as the bytes it points at.
abbrev pub iov_bytes : List (List ℕ) → List ℕ
iov_bytes [] = []
iov_bytes (v ∷ iov) = v ++ iov_bytes iov

-- `while (bytes && bytes >= iov->iov_len)`, and the step into the entry that is left.
unfoldable pub take_off : ℕ → List (List ℕ) → Option (List (List ℕ))
take_off n [] = if n == 0 then some [] else none
take_off n (v ∷ iov) =
    let rest = take_off (n - length v) iov in
    if n == 0 then some (v ∷ iov) else if leb (length v) n then rest else some (drop n v ∷ iov)

abbrev pub sent : List ℕ → Option Io → Option Io
sent bs r = elim r [ none ↦ none | some io ↦ some (record io { bytes = bs ++ io.bytes }) ]

-- The switch on errno: whether another `writev` follows a call that did not give a positive number.
-- `writev_full` polls busily, `writev_full_ms` waits in `poll` after EAGAIN: `busy` tells them apart.
abbrev pub retry : Bool → Bool → Errno → Bool
retry busy ready eintr = true
retry busy ready eagain = busy || ready
retry busy ready other = false

-- The loop, with errno and `nwritten` as they are. `bytes` and `nwritten` are ints: what `writev`
-- returns is cut to 32 bits, and a sum past 2 ^ 31 - 1 is undefined. Errno is an earlier call's if
-- `writev` wrote nothing.
unfoldable pub writev_loop : Bool → Errno → ℕ → List Call → List (List ℕ) → Option Io
unfolding take_off
writev_loop busy errno nwritten cs [] =
    some (record { result = count nwritten; bytes = []; left = cs })
writev_loop busy errno nwritten [] (v ∷ iov) =
    some (record { result = waiting; bytes = []; left = [] })
writev_loop busy errno nwritten (moves n ready ∷ cs) (v ∷ iov) =
    let all = iov_bytes (v ∷ iov) in
    let k = min n (length all) in
    let bytes = k % 2 ^ 32 in
    let same = writev_loop busy errno nwritten cs (v ∷ iov) in
    if bytes == 0 || leb (2 ^ 31) bytes
    then (if retry busy ready errno
        then sent (take k all) same
        else some (record { result = failed; bytes = take k all; left = cs }))
    else if leb (2 ^ 31) (nwritten + bytes)
    then none
    else (elim (take_off bytes (v ∷ iov)) [
      | none ↦ none
      | some iov' ↦ sent (take k all) (writev_loop busy errno (nwritten + bytes) cs iov')
    ])
writev_loop busy errno nwritten (interrupted ∷ cs) (v ∷ iov) =
    writev_loop busy eintr nwritten cs (v ∷ iov)
writev_loop busy errno nwritten (again ready ∷ cs) (v ∷ iov) =
    let same = writev_loop busy eagain nwritten cs (v ∷ iov) in
    if retry busy ready eagain
    then same
    else some (record { result = failed; bytes = []; left = cs })
writev_loop busy errno nwritten (fails ∷ cs) (v ∷ iov) =
    some (record { result = failed; bytes = []; left = cs })

unfoldable pub writev_full : Errno → List Call → List (List ℕ) → Option Io
unfolding writev_loop
writev_full errno cs iov = writev_loop true errno 0 cs iov

unfoldable pub writev_full_ms : Errno → List Call → List (List ℕ) → Option Io
unfolding writev_loop
writev_full_ms errno cs iov = writev_loop false errno 0 cs iov
