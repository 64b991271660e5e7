-- ===== src/PacketQueue.antt =====
-- The pqh_* functions of pktq.c. A TAILQ of packets is the list of their addresses, head first;
-- the macros of include/queue.h are lists' operations here.
pub mod Pulling
use rfx.Prelude.{
  ℕ, ◌+◌, Bool, true, false, Option, none, some, List, [], ◌∷◌, ◌++◌, ◌==◌, ltb, leb, if◌then◌else◌,
}
use rfx.Packet.{Packet, M, ◌>>=◌, ◌>>◌, pure, load, pkt_unref}

-- `struct iovec`: `iov_base` points `off` bytes into the data of the packet at `base`.
pub record Iovec : Type 0 where
  pub base : ℕ
  pub off : ℕ
  pub iov_len : ℕ

abbrev pub whole : ℕ → Packet → Iovec
whole p k = record { base = p; off = 0; iov_len = k.len }

unfoldable pub pqh_empty : List ℕ → Bool
pqh_empty [] = true
pqh_empty (p ∷ q) = false

-- The head, if there is one, and the queue without it.
unfoldable pub pqh_pop : List ℕ → Option ℕ × List ℕ
pqh_pop [] = (none, [])
pqh_pop (p ∷ q) = (some p, q)

unfoldable pub pqh_push : List ℕ → ℕ → List ℕ
pqh_push q p = q ++ p ∷ []

unfoldable pub pqh_head : List ℕ → Option ℕ
pqh_head [] = none
pqh_head (p ∷ q) = some p

-- The packet behind `p`, which the C code reads from `p`'s link.
unfoldable pub pqh_next : List ℕ → ℕ → Option ℕ
unfolding pqh_head
pqh_next [] p = none
pqh_next (x ∷ q) p = if x == p then pqh_head q else pqh_next q p

-- Drops the queue's reference to each packet. The links stay as they are.
unfoldable pub pqh_clear : List ℕ → M (Unit {0})
pqh_clear [] = pure tt
pqh_clear (p ∷ q) = do pkt_unref p; pqh_clear q

-- Removes the first packet and drops the reference to it.
unfoldable pub pqh_discard : List ℕ → M (List ℕ)
pqh_discard [] = pure []
pqh_discard (p ∷ q) = do pkt_unref p; pure q

-- What a pull leaves: the packets that stay in `src`, those that go to the tail of `dst`, and the
-- entries of `outv` that it writes, from the first place on.
pub record Pull : Type 0 where
  pub kept : List ℕ
  pub moved : List ℕ
  pub outv : List Iovec

abbrev pub keep : ℕ → Pull → Pull
keep p r = record r { kept = p ∷ r.kept }

abbrev pub move : ℕ → Packet → Pull → Pull
move p k r = record r { moved = p ∷ r.moved; outv = whole p k ∷ r.outv }

-- The loop of `pqh_pull`, at a count `i` of entries written.
unfoldable pub pull_loop : ℕ → ℕ → ℕ → ℕ → List ℕ → M Pull
pull_loop dir outv_sz min_delay i [] = pure (record { kept = []; moved = []; outv = [] })
pull_loop dir outv_sz min_delay i (p ∷ rest) =
    if leb outv_sz i then pure (record { kept = p ∷ rest; moved = []; outv = [] }) else do
      k ← load p
      if ltb min_delay k.delay
          then (do r ← pull_loop dir outv_sz min_delay i rest; pure (keep p r))
          else if k.dir == dir
          then (if k.drop
              then (do pkt_unref p; pull_loop dir outv_sz min_delay i rest)
              else (do r ← pull_loop dir outv_sz min_delay (i + 1) rest; pure (move p k r)))
          else (do r ← pull_loop dir outv_sz min_delay i rest; pure (keep p r))

-- The new `src`, the new `dst`, and the entries written to `outv`, whose number is the result.
unfoldable pub pqh_pull : List ℕ → List ℕ → ℕ → ℕ → ℕ → M (List ℕ × List ℕ × List Iovec)
pqh_pull src dst dir outv_sz min_delay = do
  r ← pull_loop dir outv_sz min_delay 0 src
  pure (r.kept, dst ++ r.moved, r.outv)
