-- ===== src/Delayed/Waiting.antt =====
-- Which packets a delayed queue holds, and which of their timers run.
use rfx.Prelude.{
  ℕ, ◌≡◌, refl, sym, ap, ◌∙◌, true, false, some, List, [], ◌∷◌, ◌++◌, append-nil, append_assoc, All,
  arith, Bool-cases, inl, inr,
}
use rfx.Packet.{Heap}
use rfx.Packet.Lifetime.{Live}
use rfx.Delayed.{DelayedPkt, DelayedQueue, delayed_pkt, pull, start, start_all}

-- The packets, in order.
abbrev pub pkts : List DelayedPkt → List ℕ
pkts [] = []
pkts (d ∷ q) = d.pkt ∷ pkts q

abbrev pub IsActive : DelayedPkt → Type 0
IsActive d = d.active ≡ true

pkts-append : (xs ys : List DelayedPkt) → pkts (xs ++ ys) ≡ pkts xs ++ pkts ys
pkts-append [] ys = refl
pkts-append (d ∷ xs) ys = ap (λ r. d.pkt ∷ r) (pkts-append xs ys)

pkts-start_all : (q : List DelayedPkt) → pkts (start_all q) ≡ pkts q
pkts-start_all [] = refl
pkts-start_all (d ∷ q) = ap (λ r. d.pkt ∷ r) (pkts-start_all q)

start_all-IsActive : (q : List DelayedPkt) → All IsActive (start_all q)
start_all-IsActive [] = tt
start_all-IsActive (d ∷ q) = (refl, start_all-IsActive q)

-- What a queue ensures between two events: unless it has new packets, every timer runs.
abbrev pub IsStarted : DelayedQueue → Type 0
IsStarted d = d.has_new ≡ false → All IsActive d.qh

pull_lem :
    (src : List ℕ) (d : DelayedQueue) (h : Heap)
    → All (Live h) src
    → IsStarted d
    → (d' : DelayedQueue) × (pull src d h ≡ some (d', h))
      × (pkts d'.qh ≡ pkts d.qh ++ src)
      × IsStarted d'
unfolding pull delayed_pkt
pull_lem [] d h a st = (d, refl, sym (append-nil (pkts d.qh)), st)
pull_lem (p ∷ src) d h ((k, e, s), a) st =
    let dp : DelayedPkt = record { pkt = p; wait = k.delay; active = false } in
    let (d', run, ps, st') =
      pull_lem src (record { qh = d.qh ++ dp ∷ []; has_new = true }) h a (λ t. absurd (cc)) in
    (
      d',
      ground (arith, e, run),
      ps ∙ ap (λ z. z ++ src) (pkts-append d.qh (dp ∷ [])) ∙ append_assoc (pkts d.qh) (p ∷ []) src,
      st',
    )

start_lem :
    (d : DelayedQueue) → IsStarted d → (pkts (start d).qh ≡ pkts d.qh) × All IsActive (start d).qh
unfolding start
start_lem d st = elim (Bool-cases d.has_new) [
  | inl n ↦ rw n (pkts-start_all d.qh, start_all-IsActive d.qh)
  | inr o ↦ rw o (refl, st o)
]

-- A delayed queue whose timers run unless it has new packets, and that pulls packets in use and
-- is then started, holds its packets and the new ones behind them in order, and every timer
-- runs.
pub start-pull :
    (src : List ℕ) (d : DelayedQueue) (h : Heap)
    → All (Live h) src
    → IsStarted d
    → (d' : DelayedQueue) × (pull src d h ≡ some (d', h))
      × (pkts (start d').qh ≡ pkts d.qh ++ src)
      × All IsActive (start d').qh
start-pull src d h a st =
    let (d', run, ps, st') = pull_lem src d h a st in
    let (same, on) = start_lem d' st' in (d', run, same ∙ ps, on)
