-- ===== src/Filters.antt =====
-- `rfx_filter` of rfx_api.h and `rfx_filter_chain` of main.cpp.
use rfx.Prelude.{ℕ, zero, suc, Option, none, some, List, [], ◌∷◌, ◌++◌}
use rfx.Packet.{M, ◌>>=◌, ◌>>◌, pure, fault}
use rfx.Events.{Event, delete_event}

-- What a filter returns: go on to the next filter of the chain, or not.
pub data Verdict : Type 0 where
  decline stop_here : Verdict

-- The three queues that a filter may add to.
pub record Work : Type 0 where
  pub pre : List ℕ
  pub post : List ℕ
  pub evq : List Event

-- What `process` of a filter in state `S` gives back.
abbrev pub Processed : Type 0 → Type 0
Processed S = Verdict × S × Work

-- The virtual functions of `rfx_filter`, for filters whose state is an `S`.
pub record Filter (S : Type 0) : Type 0 where
  pub process_packet : S → ℕ → Work → M (Processed S)
  pub process_event : S → Event → Work → M (Processed S)

module _ {S : Type 0} (F : Filter S) where
  -- `rfx_filter_chain::process(pkt, ...)`; an instance whose module is not loaded has no filter.
  unfoldable pub process_packet : List (Option S) → ℕ → Work → M (List (Option S) × Work)
  process_packet [] p w = pure ([], w)
  process_packet (none ∷ is) p w = do r ← process_packet is p w; pure (none ∷ r.0, r.1)
  process_packet (some s ∷ is) p w = do
    (v, s', w') ← F.process_packet s p w
    elim v [
      | stop_here ↦ pure (some s' ∷ is, w')
      | decline ↦ (do r ← process_packet is p w'; pure (some s' ∷ r.0, r.1))
    ]

  -- The chain's pass over one event.
  unfoldable pub process_event : List (Option S) → Event → Work → M (List (Option S) × Work)
  process_event [] e w = pure ([], w)
  process_event (none ∷ is) e w = do r ← process_event is e w; pure (none ∷ r.0, r.1)
  process_event (some s ∷ is) e w = do
    (v, s', w') ← F.process_event s e w
    elim v [
      | stop_here ↦ pure (some s' ∷ is, w')
      | decline ↦ (do r ← process_event is e w'; pure (some s' ∷ r.0, r.1))
    ]

  -- `rfx_filter_chain::process(evq, ...)`. Each pass may add events, so the loop is on fuel; out of
  -- fuel it is stuck, like a fault.
  unfoldable pub process_events : ℕ → List (Option S) → Work → M (List (Option S) × Work)
  unfolding process_event
  process_events zero is w = elim w.evq [ [] ↦ pure (is, w) | _ ∷ _ ↦ fault ]
  process_events (suc n) is w = elim w.evq [
    | [] ↦ pure (is, w)
    | e ∷ rest ↦ (do
      r ← process_event is e (record w { evq = rest })
      delete_event e
      process_events n r.0 r.1)
  ]

-- `add_filter`
unfoldable pub add_filter : {S : Type 0} → List (Option S) → Option S → List (Option S)
add_filter is i = is ++ i ∷ []
