-- ===== src/Tests/Filtering.antt =====
-- Runs of sessions and filters at concrete inputs, and each property with hypotheses at one of them.
use rfx.Prelude.{ap, Bool}
use rfx.Prelude.{
  ℕ, zero, suc, ◌<◌, ◌≤◌, ◌≡◌, ◌⊎◌, inl, refl, true, false, Option, none, some, List, [], ◌∷◌, ◌++◌,
  ◌==◌, not, arith, length, All, if◌then◌else◌,
}
use rfx.Packet.{Packet, Heap}
use rfx.Packet.Lifetime.{AgreeBut}
use rfx.SendQueue.Sending.{sendq-IsReady}
use rfx.SendQueue.{sendq, push_out}
use rfx.Pipe.{proxy_pipe}
use rfx.Filters.{decline}
use rfx.Delayed.{DelayedQueue, delayed_queue, pull, start}
use rfx.Delayed.Waiting.{pkts, IsActive, start-pull}
use rfx.Session.{Session, rf_session, pipe_of, filter, no_work}
use rfx.Session.Ends.{far_of}
use rfx.Session.Passive.{Filtered, filter_lem}
use rfx.Plugins.{rfx_debug, rfx_debug-IsPassive, Any}
use rfx.Loot.{test, set_all, set_bit}
use rfx.Loot.Sound.{set_all-IsMask}
use rfx.Loot.Setting.{test-set_bit}
use rfx.Loot.Command.{loot_state, save, restore}
use rfx.Loot.Saving.{restore-save}
use rfx.Loot.Process.{process_packet}
use rfx.Loot.Drops.{process_packet_lem, item_of}
use rfx.Loot.Command.{LootState}
use rfx.Modules.{Code, Module, reload}
use rfx.Modules.Reload.{IsFaithful, reload_lem}
use rfx.RfxState.{RfxState, rfx_state}
use rfx.Tests.{
  ping, two_pings, ping-IsSound, first-Live, second-Live, waiting_ping-IsReady, writing,
}

-- A session that owes one packet to the client, and has received another one for it.
abbrev busy : Session (Unit {0})
busy = record (rf_session (some tt ∷ none ∷ [])) {
  s2c = record writing {
    rcvq = record { pq = 1 ∷ []; rd = none; rd_buf = 0 ∷ 0 ∷ 0 ∷ 0 ∷ []; rd_pos = 0; dir = 1 };
  };
}

filter_example :
    (r : Session (Unit {0})) × (h : Heap) × (filter rfx_debug 4 1 busy two_pings ≡ some (r, h))
    × Filtered rfx_debug Any rfx_debug-IsPassive 1 ((pipe_of 1 busy).rcvq).pq busy two_pings r h
unfolding pipe_of far_of rf_session proxy_pipe push_out sendq
filter_example =
    filter_lem rfx_debug Any rfx_debug-IsPassive 4 1 busy two_pings waiting_ping-IsReady
      (sendq-IsReady 0 two_pings) ((ping, refl, ping-IsSound, refl), tt) (tt, tt)
      (((λ e. absurd (omega arith)), tt), tt) (tt, (tt, tt))

start-pull_example :
    (d : DelayedQueue) × (pull (0 ∷ 1 ∷ []) delayed_queue two_pings ≡ some (d, two_pings))
    × (pkts (start d).qh ≡ pkts delayed_queue.qh ++ (0 ∷ 1 ∷ []))
    × All IsActive (start d).qh
unfolding delayed_queue
start-pull_example =
    start-pull (0 ∷ 1 ∷ []) delayed_queue two_pings (first-Live, (second-Live, tt)) (λ e. tt)

test-set_bit_example :
    test (set_bit (set_all false) 0x0203 true).1 0x0204
    ≡ (if 0x0203 == 0x0204 then true else test (set_all false) 0x0204)
test-set_bit_example =
    test-set_bit (set_all false) 0x0203 0x0204 true (set_all-IsMask false) (omega arith)
      (omega arith)

abbrev no_files : List ℕ → Option (List ℕ)
no_files name = none

-- "none +0x5"
abbrev only_five : List ℕ
only_five = 110 ∷ 111 ∷ 110 ∷ 101 ∷ 32 ∷ 43 ∷ 48 ∷ 120 ∷ 53 ∷ []

restore-save_example :
    (s : RfxState) × (restore loot_state (save loot_state (rfx_state 0))
      ≡ some (true, loot_state, s))
unfolding loot_state
restore-save_example =
    restore-save loot_state loot_state 0 (set_all-IsMask true).size (set_all-IsMask false).size
      (set_all-IsMask true).size (set_all-IsMask false).size

-- A new item, of kind 0x0807.
abbrev drop_new : Packet
drop_new = record ping { type = 0x1403 }

abbrev item_heap : Heap
item_heap = record { cell = elim [ zero ↦ some drop_new | suc n ↦ none ]; next = 1 }

process_packet_example :
    ((length drop_new.data_bytes < 6) × (process_packet loot_state 0 no_work item_heap ≡ none))
    ⊎ ((6 ≤ length drop_new.data_bytes)
        × (k' : Packet) × (h' : Heap) × (process_packet loot_state 0 no_work item_heap
            ≡ some ((decline, loot_state, no_work), h'))
        × (h'.cell 0 ≡ some k')
        × (k'.drop ≡ not (test loot_state.show (item_of drop_new)))
        × (k'.data_bytes ≡ drop_new.data_bytes)
        × AgreeBut 0 item_heap h')
process_packet_example =
    process_packet_lem loot_state 0 no_work item_heap drop_new refl (inl refl) (omega arith)

abbrev outcome : Option (Bool × LootState × RfxState) → LootState
outcome none = loot_state
outcome (some (ok, l, s)) = l

-- The loot filter's module.
abbrev loot_code : Code LootState
loot_code = record {
  filter_new = loot_state;
  save_state = save;
  load_state = λ l s. (true, outcome (restore loot_state s));
}

abbrev HasMasks : LootState → Type 0
HasMasks l = (length l.show ≡ 8192) × (length l.pick ≡ 8192)

loot_state-HasMasks : HasMasks loot_state
unfolding loot_state
loot_state-HasMasks = ((set_all-IsMask true).size, (set_all-IsMask false).size)

loot_code-IsFaithful : IsFaithful HasMasks loot_code loot_code
loot_code-IsFaithful = record {
  returns = λ l p.
      let (s, e) =
        restore-save l loot_state 0 p.0 p.1 loot_state-HasMasks.0 loot_state-HasMasks.1 in
      ap outcome e;
}

abbrev loot_module : Module LootState
loot_module = record {
  code = some loot_code;
  tstamp = 5;
  ih = record { st = none; flt = some loot_state } ∷ [];
}

reload_example :
    (reload (some (loot_code, 9)) loot_module
      ≡ record loot_module { code = some loot_code; tstamp = 9 })
    × (reload (some (loot_code, 9)) (reload none loot_module)
        ≡ record loot_module { code = some loot_code; tstamp = 9 })
reload_example =
    reload_lem HasMasks loot_code loot_code 9 loot_module refl loot_code-IsFaithful
      ((refl, (loot_state, refl, loot_state-HasMasks)), tt)
