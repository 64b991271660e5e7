-- ===== src/Connect/Lifecycle.antt =====
-- The event loop's calls of the connection code of main.cpp, one after another: no descriptor is lost,
-- and none is closed twice.
use rfx.Prelude.{
  set, take_nth, ℕ, ◌≡◌, refl, ap, ◌∙◌, ◌≢◌, Bool, false, Option, none, some, List, [], ◌∷◌, ◌>>=◌,
  arith, Bool-cases, Option-cases, inl, inr, if◌then◌else◌,
}
use rfx.Connect.{
  Bootstrap, Ends, Proxy, idle, close_both, proxy_run, Attempt, accepted, cli_connect_cb,
  connect_cb, tmr_cb, delete_session,
}
use rfx.Connect.Owners.{
  Owned, Fresh, accepted_lem, owner_closed, nth_boots, nth_sessions, set_boots, sessions_snoc,
}

-- What the event loop may call next: `accept` with clients and what becomes of them, a socket that is
-- writable, a timer, and the end of a session.
pub data Event : Type 0 where
  clients : List (ℕ × Attempt) → Event
  writable : ℕ → Bool → Event
  timer : ℕ → Bool → Event
  ended : ℕ → Event

abbrev pub run_event : Event → Proxy → Option Proxy
run_event (clients fds) p = cli_connect_cb fds p
run_event (writable i ok) p = connect_cb i ok p
run_event (timer i pending) p = tmr_cb i pending p
run_event (ended i) p = delete_session i p

abbrev pub run_events : List Event → Proxy → Option Proxy
run_events [] p = some p
run_events (e ∷ es) p = run_event e p >>= run_events es

-- The kernel returns descriptors that are not open.
abbrev pub AllFresh : List (ℕ × Attempt) → Proxy → Type 0
AllFresh [] p = Unit {0}
AllFresh ((fd, a) ∷ more) p =
    Fresh fd a p × ((p' : Proxy) → accepted fd a p ≡ some p' → AllFresh more p')

-- libev makes a callback of a watcher that is there.
abbrev pub Possible : Event → Proxy → Type 0
Possible (clients fds) p = AllFresh fds p
Possible (writable i ok) p = take_nth i p.boots ≢ none
Possible (timer i pending) p = take_nth i p.boots ≢ none
Possible (ended i) p = take_nth i p.sessions ≢ none

abbrev pub AllPossible : List Event → Proxy → Type 0
AllPossible [] p = Unit {0}
AllPossible (e ∷ es) p = Possible e p × ((p' : Proxy) → run_event e p ≡ some p' → AllPossible es p')

clients_lem :
    (fds : List (ℕ × Attempt)) (p : Proxy)
    → Owned p
    → AllFresh fds p
    → (p' : Proxy) × (cli_connect_cb fds p ≡ some p') × Owned p'
unfolding cli_connect_cb
clients_lem [] p o f = (p, refl, o)
clients_lem ((fd, a) ∷ more) p o (f, g) =
    let (p1, e, o1) = accepted_lem fd a p o f in
    let (p2, e', o2) = clients_lem more p1 o1 (g p1 e) in
    (p2, ap (λ x. x >>= cli_connect_cb more) e ∙ e', o2)

connect_run :
    (i : ℕ) (ok : Bool) (p : Proxy) (b : Bootstrap) (boots : List Bootstrap)
    → take_nth i p.boots ≡ some (b, boots)
    → connect_cb i ok p ≡ (
        if ok
        then some (proxy_run b.cli b.srv (record p { boots = boots }))
        else close_both b.cli b.srv (record p { boots = boots }))
unfolding connect_cb
connect_run i ok p b boots e = rw (connect_cb, e, ◌>>=◌)

timer_run :
    (i : ℕ) (pending : Bool) (p : Proxy) (b : Bootstrap) (boots : List Bootstrap)
    → take_nth i p.boots ≡ some (b, boots)
    → tmr_cb i pending p ≡ (
        if pending
        then some (record p { boots = set p.boots i (record b { timeout = false }) })
        else close_both b.cli b.srv (record p { boots = boots }))
unfolding tmr_cb
timer_run i pending p b boots e = rw (tmr_cb, e, ◌>>=◌)

delete_run :
    (i : ℕ) (p : Proxy) (s : Ends) (sessions : List Ends)
    → take_nth i p.sessions ≡ some (s, sessions)
    → delete_session i p ≡ close_both s.cli s.srv (record p { sessions = sessions })
unfolding delete_session
delete_run i p s sessions e = rw (delete_session, e, ◌>>=◌)

boot_closed :
    (i : ℕ) (p : Proxy) (b : Bootstrap) (boots : List Bootstrap)
    → Owned p
    → take_nth i p.boots ≡ some (b, boots)
    → (q : Proxy) × (close_both b.cli b.srv (record p { boots = boots }) ≡ some q) × Owned q
boot_closed i p b boots o e =
    owner_closed b.cli b.srv p boots p.sessions o
      (λ x. let k = nth_boots i p.boots boots b e x in omega (arith, k))

connected_Owned :
    (i : ℕ) (p : Proxy) (b : Bootstrap) (boots : List Bootstrap)
    → Owned p
    → take_nth i p.boots ≡ some (b, boots)
    → Owned (proxy_run b.cli b.srv (record p { boots = boots }))
unfolding proxy_run
connected_Owned i p b boots o e = record {
  counts = λ x.
      let k = o.counts x in
      let j = nth_boots i p.boots boots b e x in
      let m = sessions_snoc x p.sessions (record { cli = b.cli; srv = b.srv }) in
      omega (arith, k, j, m);
  once = o.once;
}

event_lem :
    (e : Event) (p : Proxy)
    → Owned p
    → Possible e p
    → (p' : Proxy) × (run_event e p ≡ some p') × Owned p'
event_lem (clients fds) p o f = clients_lem fds p o f
event_lem (writable i ok) p o f = elim (Option-cases (take_nth i p.boots)) [
  | inl n ↦ absurd (f n)
  | inr ((b, boots), e) ↦ elim (Bool-cases ok) [
    | inl y ↦ (
      proxy_run b.cli b.srv (record p { boots = boots }),
      connect_run i ok p b boots e ∙ rw y,
      connected_Owned i p b boots o e,
    )
    | inr y ↦
        let (q, c, o') = boot_closed i p b boots o e in
        (q, connect_run i ok p b boots e ∙ rw y c, o')
  ]
]
event_lem (timer i pending) p o f = elim (Option-cases (take_nth i p.boots)) [
  | inl n ↦ absurd (f n)
  | inr ((b, boots), e) ↦ elim (Bool-cases pending) [
    | inl y ↦ (
      record p { boots = set p.boots i (record b { timeout = false }) },
      timer_run i pending p b boots e ∙ rw y,
      record {
        counts = λ x.
            let k = o.counts x in let j = set_boots i p.boots boots b e x in omega (arith, k, j);
        once = o.once;
      },
    )
    | inr y ↦
        let (q, c, o') = boot_closed i p b boots o e in
        (q, timer_run i pending p b boots e ∙ rw y c, o')
  ]
]
event_lem (ended i) p o f = elim (Option-cases (take_nth i p.sessions)) [
  | inl n ↦ absurd (f n)
  | inr ((s, sessions), e) ↦
      let (q, c, o') =
        owner_closed s.cli s.srv p p.boots sessions o
          (λ x. let k = nth_sessions i p.sessions sessions s e x in omega (arith, k)) in
      (q, delete_run i p s sessions e ∙ c, o')
]

events_lem :
    (es : List Event) (p : Proxy)
    → Owned p
    → AllPossible es p
    → (p' : Proxy) × (run_events es p ≡ some p') × Owned p'
events_lem [] p o a = (p, refl, o)
events_lem (e ∷ es) p o (a, b) =
    let (p1, r, o1) = event_lem e p o a in
    let (p2, r', o2) = events_lem es p1 o1 (b p1 r) in
    (p2, ap (λ x. x >>= run_events es) r ∙ r', o2)

-- From the idle proxy, for every sequence of accepted clients, writable sockets, timers and ends
-- of sessions that the event loop can make, where the kernel gives descriptors that are not
-- open, the callbacks give a result, so that nothing is closed that is not open; and then each
-- open descriptor is open once and belongs to exactly one connection being established or
-- session, and what those hold is open.
pub run_events-Owned :
    (es : List Event) → AllPossible es idle → (p : Proxy) × (run_events es idle ≡ some p) × Owned p
run_events-Owned es a =
    events_lem es idle (record { counts = λ x. refl; once = λ x. omega arith }) a
