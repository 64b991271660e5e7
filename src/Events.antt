-- ===== src/Events.antt =====
-- `rfx_event` and `evqhead_t` of evq.cpp and evq.h, `rfx_chat_event` of rfx_modules.h.
use rfx.Prelude.{ℕ, true, false, Option, none, some, List, [], ◌∷◌, ◌++◌}
use rfx.Packet.{Packet, M, ◌>>=◌, ◌>>◌, pure, load, store, pkt_ref, pkt_unref}

-- Each event that the program creates is an `rfx_chat_event`; `source` may be NULL.
pub record Event : Type 0 where
  pub what : ℕ
  pub source : Option ℕ
  pub nick : List ℕ
  pub msg : List ℕ

-- The codes of rfx_modules.h that the filters use.
abbrev pub wchat_sent : ℕ
wchat_sent = 1

abbrev pub priv_sent : ℕ
priv_sent = 3

abbrev pub send_reply : ℕ
send_reply = 5

-- `new rfx_chat_event(...)`: it holds a reference to its packet.
unfoldable pub new_event : ℕ → List ℕ → List ℕ → Option ℕ → M Event
new_event code nick msg none = pure (record { what = code; source = none; nick = nick; msg = msg })
new_event code nick msg (some p) = do
  pkt_ref p
  pure (record { what = code; source = some p; nick = nick; msg = msg })

-- `delete ev`
unfoldable pub delete_event : Event → M (Unit {0})
delete_event e = elim e.source [ none ↦ pure tt | some p ↦ pkt_unref p ]

-- A write of `drop` and `show` of the packet at `p`.
abbrev pub mark : (Packet → Packet) → ℕ → M (Unit {0})
mark f p = do k ← load p; store p (f k)

abbrev pub mark_source : (Packet → Packet) → Event → M (Unit {0})
mark_source f e = elim e.source [ none ↦ pure tt | some p ↦ mark f p ]

unfoldable pub drop_source : Event → M (Unit {0})
drop_source e = mark_source (λ k. record k { drop = true }) e

unfoldable pub show_source : Event → M (Unit {0})
show_source e = mark_source (λ k. record k { show = true }) e

unfoldable pub hide_source : Event → M (Unit {0})
hide_source e = mark_source (λ k. record k { show = false }) e

unfoldable pub ignore_source : Event → M (Unit {0})
ignore_source e = mark_source (λ k. record k { drop = true; show = false }) e

unfoldable pub push_back : List Event → Event → List Event
push_back q e = q ++ e ∷ []

unfoldable pub pop_front : List Event → Option Event × List Event
pop_front [] = (none, [])
pop_front (e ∷ q) = (some e, q)

-- `~evqhead_t`
unfoldable pub delete_events : List Event → M (Unit {0})
unfolding delete_event
delete_events [] = pure tt
delete_events (e ∷ q) = do delete_event e; delete_events q
