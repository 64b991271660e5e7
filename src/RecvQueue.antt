-- ===== src/RecvQueue.antt =====
-- `class recvq` of proxy.cpp and proxy.h.
pub mod Deframer
pub mod Invariant
pub mod Header
pub mod Body
pub mod Extract
pub mod Receive
pub mod Framing
pub mod Packets
pub mod Growth
pub mod Conserve
pub mod Again
use Prim.Native.Nat.{min}
use rfx.Prelude.{
  ℕ, zero, suc, ◌+◌, ◌-◌, ◌%◌, ◌^◌, Bool, true, false, Option, none, some, List, [], ◌∷◌, ◌++◌,
  ◌==◌, ltb, leb, if◌then◌else◌, length, get_or, take, drop, replicate, write_at,
}
use rfx.Packet.{Packet, M, ◌>>=◌, ◌>>◌, pure, fault, load, store, pkt_new}
use rfx.PacketQueue.{pqh_push, pqh_empty, pqh_pop}
use rfx.SendQueue.{Errno, eintr, eagain, other}
use rfx.Wire.{get_int16}

-- `rd_buf` has four bytes; `rd_pos` counts the bytes read of it, or of the packet `rd`.
pub record RecvQueue : Type 0 where
  pub pq : List ℕ
  pub rd : Option ℕ
  pub rd_buf : List ℕ
  pub rd_pos : ℕ
  pub dir : ℕ

-- sizeof(rd_buf)
abbrev pub rd_size : ℕ
rd_size = 4

-- sizeof(buf)
abbrev pub buf_size : ℕ
buf_size = 8192

unfoldable pub recvq : ℕ → RecvQueue
recvq dir = record { pq = []; rd = none; rd_buf = replicate rd_size 0; rd_pos = 0; dir = dir }

unfoldable pub is_empty : RecvQueue → Bool
unfolding pqh_empty
is_empty s = pqh_empty s.pq

-- `rd->len - rd_pos`, or what is free of `rd_buf`: the length of the first vector of `readv`.
-- The difference is unsigned.
unfoldable pub first_len : RecvQueue → M ℕ
first_len s = elim s.rd [
  | none ↦ pure (rd_size - s.rd_pos)
  | some p ↦ (do k ← load p; pure ((k.len + 2 ^ 32 - s.rd_pos) % 2 ^ 32))
]

-- A copy to `p->data + pos`.
unfoldable pub store_bytes : ℕ → ℕ → List ℕ → M (Unit {0})
store_bytes p pos bs = do
  k ← load p
  elim (write_at k.data_bytes pos bs) [
    | none ↦ fault
    | some d ↦ store p (record k { data_bytes = d })
  ]

-- A copy to `rd_buf + rd_pos`.
unfoldable pub store_rd_buf : List ℕ → RecvQueue → M RecvQueue
store_rd_buf bs s = elim (write_at s.rd_buf s.rd_pos bs) [
  | none ↦ fault
  | some d ↦ pure (record s { rd_buf = d })
]

-- Where `readv` puts the bytes of its first vector.
unfoldable pub store_first : List ℕ → RecvQueue → M RecvQueue
unfolding store_bytes store_rd_buf
store_first bs s = elim s.rd [
  | none ↦ store_rd_buf bs s
  | some p ↦ (do store_bytes p s.rd_pos bs; pure s)
]

-- `pqh_push(&pq, rd); rd = NULL; rd_pos = 0;`
unfoldable pub finish : ℕ → RecvQueue → RecvQueue
unfolding pqh_push
finish p s = record s { pq = pqh_push s.pq p; rd = none; rd_pos = 0 }

-- The packet being read has `pos` bytes now: it is finished if that is all of it.
unfoldable pub settle : ℕ → ℕ → RecvQueue → M RecvQueue
unfolding finish
settle p pos s = do
  k ← load p
  pure (if pos == k.len then finish p s else record s { rd = some p; rd_pos = pos })

-- `pkt_new` from the four header bytes at the front of `bs`, which count as read: `rd_pos` is 4 then.
-- In the loop over `buf` the code adds 4 to it, and it is 0 between two packets.
unfoldable pub start_packet : List ℕ → RecvQueue → M RecvQueue
unfolding settle
start_packet bs s = do
  p ←
      pkt_new (get_int16 (get_or bs 0 0) (get_or bs 1 0))
        (get_int16 (get_or bs 2 0) (get_or bs 3 0)) s.dir
  settle p rd_size s

-- `while (bytes) { ... }` over the bytes of `buf`. The fuel is their number.
unfoldable pub extract : ℕ → List ℕ → RecvQueue → M RecvQueue
extract f [] s = pure s
extract zero (b ∷ bs) s = fault
extract (suc f) (b ∷ bs) s = elim s.rd [
  | some p ↦ (do
    k ← load p
    let c = min (length (b ∷ bs)) ((k.len + 2 ^ 32 - s.rd_pos) % 2 ^ 32)
    store_bytes p s.rd_pos (take c (b ∷ bs))
    s' ← settle p (s.rd_pos + c) s
    extract f (drop c (b ∷ bs)) s')
  | none ↦
      if leb rd_size (length (b ∷ bs))
      then (do s' ← start_packet (b ∷ bs) s; extract f (drop rd_size (b ∷ bs)) s')
      else (do
        s' ← store_rd_buf (b ∷ bs) s
        pure (record s' { rd_pos = s.rd_pos + length (b ∷ bs) }))
]

-- The first vector is full: its packet, or its header, is complete.
unfoldable pub complete : RecvQueue → M RecvQueue
unfolding finish start_packet
complete s = elim s.rd [ some p ↦ pure (finish p s) | none ↦ start_packet s.rd_buf s ]

-- What one `readv` of the bytes `bs` leads to.
unfoldable pub take_in : List ℕ → RecvQueue → M RecvQueue
unfolding first_len store_first complete extract
take_in bs s = do
  n ← first_len s
  s' ← store_first (take n bs) s
  if leb n (length bs)
      then (do s'' ← complete s'; extract (length (drop n bs)) (drop n bs) s'')
      else pure (record s' { rd_pos = s.rd_pos + length bs })

-- One call of `readv`: how many bytes are there to be read (none at the end of the stream), or errno.
pub data Arrival : Type 0 where
  available : ℕ → Arrival
  failed : Errno → Arrival

-- What `recvq::recv` is doing when the calls of `readv` run out: it returned true or false, or waits.
pub data Status : Type 0 where
  more closed waiting : Status

-- `rest` is the part of the peer's bytes that was not read.
pub record Received : Type 0 where
  pub status : Status
  pub queue : RecvQueue
  pub rest : List ℕ

-- `while (1) { ... }`, with a list of the calls of `readv` to come and the bytes that the peer sends.
unfoldable pub recv : List Arrival → List ℕ → RecvQueue → M Received
recv [] peer s = pure (record { status = waiting; queue = s; rest = peer })
recv (failed eintr ∷ calls) peer s = recv calls peer s
recv (failed eagain ∷ calls) peer s = pure (record { status = more; queue = s; rest = peer })
recv (failed other ∷ calls) peer s = pure (record { status = closed; queue = s; rest = peer })
recv (available n ∷ calls) peer s = do
  room ← first_len s
  let bytes = min n (min (length peer) (room + buf_size))
  if bytes == 0
      then pure (record { status = closed; queue = s; rest = peer })
      else (do s' ← take_in (take bytes peer) s; recv calls (drop bytes peer) s')
