-- ===== src/SendQueue.antt =====
-- `class sendq` of proxy.cpp and proxy.h.
pub mod Window
pub mod Stream
pub mod Drain
pub mod Round
pub mod Sending
pub mod Delivery
pub mod Inject
pub mod Pulls
pub mod PullNone
pub mod Shed
use Prim.Native.Nat.{min}
use rfx.Prelude.{
  ℕ, zero, suc, ◌+◌, ◌-◌, ◌%◌, ◌^◌, Bool, true, false, Option, none, some, List, [], ◌∷◌, ◌++◌,
  ◌==◌, ltb, leb, not, ◌&&◌, if◌then◌else◌, length, get_elem?, set, take, drop, replicate, write_at,
}
use rfx.Packet.{Packet, Heap, M, ◌>>=◌, ◌>>◌, pure, fault, load}
use rfx.PacketQueue.{Iovec, whole, pqh_discard, pqh_pull, pqh_empty, pqh_push}

-- WRIVCNT
abbrev pub wrivcnt : ℕ
wrivcnt = 64

-- `sv` is an index into `svbuf`; the entries in use are the `svc` ones from there.
pub record SendQueue : Type 0 where
  pub pq : List ℕ
  pub svc : ℕ
  pub sv : ℕ
  pub svbuf : List Iovec
  pub dir : ℕ

abbrev pub window : SendQueue → List Iovec
window s = take s.svc (drop s.sv s.svbuf)

abbrev pub no_iovec : Iovec
no_iovec = record { base = 0; off = 0; iov_len = 0 }

unfoldable pub sendq : ℕ → SendQueue
sendq dir = record { pq = []; svc = 0; sv = 0; svbuf = replicate wrivcnt no_iovec; dir = dir }

unfoldable pub is_full : SendQueue → Bool
is_full s = s.svc == wrivcnt

unfoldable pub is_empty : SendQueue → Bool
unfolding pqh_empty
is_empty s = pqh_empty s.pq

-- An assignment to `sv[i]`.
abbrev pub put_iov : SendQueue → ℕ → Iovec → M SendQueue
put_iov s i v =
    if ltb (s.sv + i) (length s.svbuf)
    then pure (record s { svbuf = set s.svbuf (s.sv + i) v })
    else fault

-- The loop over the packets from `pqh_head` on that sets up the vector.
unfoldable pub fill_from : List ℕ → SendQueue → M SendQueue
fill_from [] s = pure s
fill_from (p ∷ rest) s =
    if ltb s.svc wrivcnt
    then (do
      k ← load p
      s' ← put_iov s s.svc (whole p k)
      fill_from rest (record s' { svc = s'.svc + 1 }))
    else pure s

-- `if (!svc) { sv = svbuf; ... }`
unfoldable pub refill : SendQueue → M SendQueue
unfolding fill_from
refill s = if s.svc == 0 then fill_from s.pq (record s { sv = 0 }) else pure s

-- The bytes that an entry points at; a dangling or an overlong one is a fault.
abbrev pub iov_bytes : Heap → Iovec → Option (List ℕ)
iov_bytes h v = elim (h.cell v.base) [
  | none ↦ none
  | some k ↦
      if leb (v.off + v.iov_len) (length k.data_bytes)
      then some (take v.iov_len (drop v.off k.data_bytes))
      else none
]

abbrev pub join_bytes : Option (List ℕ) → Option (List ℕ) → Option (List ℕ)
join_bytes none r = none
join_bytes (some b) none = none
join_bytes (some b) (some r) = some (b ++ r)

unfoldable pub gather : Heap → List Iovec → Option (List ℕ)
gather h [] = some []
gather h (v ∷ vs) = join_bytes (iov_bytes h v) (gather h vs)

-- What a failed or empty `writev` or `readv` leaves in errno.
pub data Errno : Type 0 where
  eintr eagain other : Errno

-- One call of `writev`: how many bytes the kernel has room for, and errno if that is none.
pub record Outcome : Type 0 where
  pub room : ℕ
  pub errno : Errno

-- The loop that takes whole entries off the vector, by the count of entries left. It returns the
-- bytes that are left over.
unfoldable pub drain : ℕ → ℕ → SendQueue → M (ℕ × SendQueue)
drain zero bytes s = pure (bytes, record s { svc = 0 })
drain (suc n) bytes s = elim (get_elem? s.svbuf s.sv) [
  | none ↦ fault
  | some v ↦
      if leb v.iov_len bytes
      then (do
        q ← pqh_discard s.pq
        drain n (bytes - v.iov_len) (record s { pq = q; sv = s.sv + 1 }))
      else pure (bytes, record s { svc = suc n })
]

-- `if (bytes) { sv->iov_base += bytes; sv->iov_len -= bytes; }`
unfoldable pub advance : ℕ → SendQueue → M SendQueue
advance bytes s = if bytes == 0 then pure s else elim (get_elem? s.svbuf s.sv) [
  | none ↦ fault
  | some v ↦
      put_iov s 0
        (record v { off = v.off + bytes; iov_len = (v.iov_len + 2 ^ 64 - bytes) % 2 ^ 64 })
]

-- What `sendq::send` is doing when the calls of `writev` run out: it returned `svc` or -1, or waits
-- for the next call.
pub data Status : Type 0 where
  returned broken waiting : Status

-- `wire` is what was handed to the peer.
pub record Sent : Type 0 where
  pub status : Status
  pub queue : SendQueue
  pub wire : List ℕ

-- The part of a round after a `writev` that took `bytes` bytes.
unfoldable pub after_write : ℕ → SendQueue → M SendQueue
unfolding drain advance refill
after_write bytes s = do r ← drain s.svc bytes s; s' ← advance r.0 r.1; refill s'

abbrev pub bytes_of : SendQueue → M (List ℕ)
bytes_of s h = elim (gather h (window s)) [ none ↦ none | some b ↦ some (b, h) ]

-- `while (svc) { ... }`, with a list of the calls of `writev` to come.
unfoldable pub send_loop : List Outcome → SendQueue → M Sent
send_loop [] s =
    pure (record { status = if s.svc == 0 then returned else waiting; queue = s; wire = [] })
send_loop (o ∷ os) s =
    if s.svc == 0 then pure (record { status = returned; queue = s; wire = [] }) else do
      offered ← bytes_of s
      let bytes = min o.room (length offered)
      if bytes == 0
          then (elim o.errno [
            | eintr ↦ send_loop os s
            | eagain ↦ pure (record { status = returned; queue = s; wire = [] })
            | other ↦ pure (record { status = broken; queue = s; wire = [] })
          ])
          else (do
            s' ← after_write bytes s
            r ← send_loop os s'
            pure (record r { wire = take bytes offered ++ r.wire }))

unfoldable pub send : List Outcome → SendQueue → M Sent
unfolding refill send_loop
send os s = do s' ← refill s; send_loop os s'

-- `memmove(svbuf, sv, svc * sizeof(*sv))`
abbrev pub compact : SendQueue → M SendQueue
compact s = elim (write_at s.svbuf 0 (window s)) [
  | none ↦ fault
  | some b ↦ pure (record s { svbuf = b; sv = 0 })
]

-- The new `src`, and the queue, whose `svc` is the result.
unfoldable pub pull : List ℕ → SendQueue → M (List ℕ × SendQueue)
pull src s =
    if ltb s.svc wrivcnt
    then (do
      s' ← (if not (s.sv == 0) && not (s.svc == 0) then compact s else pure s)
      r ← pqh_pull src s'.pq s'.dir (wrivcnt - s'.svc) 0
      elim (write_at s'.svbuf s'.svc r.2) [
        | none ↦ fault
        | some b ↦ pure (r.0, record s' { pq = r.1; svc = s'.svc + length r.2; svbuf = b })
      ])
    else pure (src, s)

-- `proxy_pipe::push_out`
unfoldable pub push_out : SendQueue → ℕ → SendQueue
unfolding pqh_push
push_out s p = record s { pq = pqh_push s.pq p }
