-- ===== src/Tests/Connecting.antt =====
-- Connections at a concrete input.
use mathlib.Core.Path.{subst}
use mathlib.Core.Option.{some-injective}
use rfx.Prelude.{◌≡◌, refl, true, some, [], ◌∷◌, List, arith}
use rfx.Connect.{Proxy, idle, in_progress, refused}
use rfx.Connect.{
  cli_connect_cb, accepted, tmr_cb, connect_cb, delete_session, close_both, bootstrap,
}
use rfx.Connect.Owners.{Owned}
use rfx.Connect.Lifecycle.{
  Event, clients, writable, timer, ended, run_events, AllFresh, AllPossible, run_events-Owned,
}

-- Two clients: the connection for the first is in progress, that for the second fails. The first one
-- is connected, and its session ends.
abbrev day : List Event
day =
    clients ((5, in_progress 6) ∷ (7, refused 8) ∷ [])
    ∷ timer 0 true
    ∷ writable 0 true
    ∷ ended 0
    ∷ []

day_runs : run_events day idle ≡ some idle
unfolding cli_connect_cb accepted tmr_cb connect_cb delete_session close_both
day_runs = refl

abbrev two_clients : List Event
two_clients = clients ((5, in_progress 6) ∷ (7, refused 8) ∷ []) ∷ []

two_clients-AllPossible : AllPossible two_clients idle
unfolding accepted bootstrap
two_clients-AllPossible = (
  (
    (refl, refl, (λ e. absurd (omega arith))),
    λ p e.
        subst (AllFresh ((7, refused 8) ∷ [])) (some-injective _ _ e)
          ((refl, refl, (λ k. absurd (omega arith))), λ q k. tt),
  ),
  λ p e. tt,
)

run_events-Owned_example : (p : Proxy) × (run_events two_clients idle ≡ some p) × Owned p
run_events-Owned_example = run_events-Owned two_clients two_clients-AllPossible
