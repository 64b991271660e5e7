-- ===== src/Delayed.antt =====
-- `delayed_pkt` and `delayed_queue` of main.cpp: packets that wait for a timer.
pub mod Waiting
use rfx.Prelude.{
  ℕ, zero, suc, Bool, true, false, Option, none, some, List, [], ◌∷◌, ◌++◌, if◌then◌else◌,
}
use rfx.Packet.{M, ◌>>=◌, ◌>>◌, pure, load, pkt_unref}

-- `active` is the state of the libev timer, `wait` its time in milliseconds.
pub record DelayedPkt : Type 0 where
  pub pkt : ℕ
  pub wait : ℕ
  pub active : Bool

pub record DelayedQueue : Type 0 where
  pub qh : List DelayedPkt
  pub has_new : Bool

unfoldable pub delayed_queue : DelayedQueue
delayed_queue = record { qh = []; has_new = false }

-- The constructor reads the packet's delay.
unfoldable pub delayed_pkt : ℕ → M DelayedPkt
delayed_pkt p = do k ← load p; pure (record { pkt = p; wait = k.delay; active = false })

-- `delayed_queue::pull`: the whole of `src`.
unfoldable pub pull : List ℕ → DelayedQueue → M DelayedQueue
unfolding delayed_pkt
pull [] d = pure d
pull (p ∷ src) d = do dp ← delayed_pkt p; pull src (record { qh = d.qh ++ dp ∷ []; has_new = true })

abbrev pub start_all : List DelayedPkt → List DelayedPkt
start_all [] = []
start_all (dp ∷ q) = record dp { active = true } ∷ start_all q

abbrev pub stop_all : List DelayedPkt → List DelayedPkt
stop_all [] = []
stop_all (dp ∷ q) = record dp { active = false } ∷ stop_all q

unfoldable pub start : DelayedQueue → DelayedQueue
start d = if d.has_new then record { qh = start_all d.qh; has_new = false } else d

unfoldable pub stop : DelayedQueue → DelayedQueue
stop d = record d { qh = stop_all d.qh }

-- `add`: no mark that the queue has a new packet, the timer starts at once.
unfoldable pub add : ℕ → DelayedQueue → M DelayedQueue
unfolding delayed_pkt
add p d = do dp ← delayed_pkt p; pure (record d { qh = d.qh ++ record dp { active = true } ∷ [] })

-- `TAILQ_REMOVE` of the entry at place `i`, and the entry.
abbrev pub take_out : ℕ → List DelayedPkt → Option (DelayedPkt × List DelayedPkt)
take_out i [] = none
take_out zero (dp ∷ q) = some (dp, q)
take_out (suc i) (dp ∷ q) = elim (take_out i q) [ none ↦ none | some (x, r) ↦ some (x, dp ∷ r) ]

-- `~delayed_queue`
unfoldable pub destroy : List DelayedPkt → M (Unit {0})
destroy [] = pure tt
destroy (dp ∷ q) = do pkt_unref dp.pkt; destroy q
