-- ===== src/Connect/Owners.antt =====
-- Every open descriptor has an owner, and every owner's descriptors are open.
use mathlib.Core.Path.{subst}
use rfx.Prelude.{
  set, take_nth, ℕ, zero, suc, ◌+◌, ◌≤◌, ◌<◌, ◌≡◌, refl, sym, ap, ◌∙◌, ◌≢◌, true, false, some, List,
  [], ◌∷◌, ◌++◌, ◌==◌, ◌>>=◌, arith, Bool-cases, Option-cases, inl, inr, if◌then◌else◌,
}
use rfx.Connect.{
  Bootstrap, Ends, Proxy, remove, open_fd, close, close_both, proxy_run, Attempt, no_socket,
  no_nonblock, in_progress, refused, connected, accepted, bootstrap,
}

-- How often a descriptor occurs.
abbrev pub occurs : ℕ → List ℕ → ℕ
occurs x [] = 0
occurs x (y ∷ ys) = (if x == y then 1 else 0) + occurs x ys

abbrev pub one : ℕ → ℕ → ℕ
one x y = if x == y then 1 else 0

abbrev pub in_boots : ℕ → List Bootstrap → ℕ
in_boots x [] = 0
in_boots x (b ∷ bs) = one x b.cli + one x b.srv + in_boots x bs

abbrev pub in_sessions : ℕ → List Ends → ℕ
in_sessions x [] = 0
in_sessions x (s ∷ ss) = one x s.cli + one x s.srv + in_sessions x ss

-- Each descriptor is open as often as it has owners, which is once at most.
pub record Owned (p : Proxy) : Type 0 where
  pub counts : (x : ℕ) → occurs x p.fds ≡ in_boots x p.boots + in_sessions x p.sessions
  pub once : (x : ℕ) → occurs x p.fds ≤ 1

remove_lem :
    (x : ℕ) (ys : List ℕ)
    → 0 < occurs x ys
    → (zs : List ℕ) × (remove x ys ≡ some zs) × ((y : ℕ) → occurs y ys ≡ one y x + occurs y zs)
remove_lem x [] h = absurd (omega arith)
remove_lem x (y ∷ ys) h = elim (Bool-cases (x == y)) [
  | inl e ↦
      let same : x ≡ y = ground arith in
      (ys, rw e, λ z. subst (λ w. one z y + occurs z ys ≡ one z w + occurs z ys) (sym same) refl)
  | inr n ↦
      let (zs, e, f) = remove_lem x ys (ground arith) in
      (y ∷ zs, ground (arith, n, e), λ z. let g = f z in omega (arith, g))
]

close_lem :
    (x : ℕ) (p : Proxy)
    → 0 < occurs x p.fds
    → (zs : List ℕ) × (close x p ≡ some (record p { fds = zs }))
      × ((y : ℕ) → occurs y p.fds ≡ one y x + occurs y zs)
unfolding close
close_lem x p h = let (zs, e, f) = remove_lem x p.fds h in (zs, ground (arith, e), f)

close_both_lem :
    (a b : ℕ) (p : Proxy)
    → 0 < occurs a p.fds
    → one b a < occurs b p.fds
    → (zs : List ℕ) × (close_both a b p ≡ some (record p { fds = zs }))
      × ((y : ℕ) → occurs y p.fds ≡ one y a + one y b + occurs y zs)
unfolding close_both
close_both_lem a b p h k =
    let (zs, e, f) = close_lem a p h in
    let g = f b in
    let (ws, e', f') = close_lem b (record p { fds = zs }) (omega (arith, g, k)) in
    (ws, ap (λ o. o >>= close b) e ∙ e', λ y. let i = f y in let j = f' y in omega (arith, i, j))

one_refl : (x : ℕ) → one x x ≡ 1
one_refl x = ground arith

one_ne : (x y : ℕ) → x ≢ y → one x y ≡ 0
one_ne x y n = ground arith

boots_snoc :
    (x : ℕ) (bs : List Bootstrap) (b : Bootstrap)
    → in_boots x (bs ++ b ∷ []) ≡ in_boots x bs + (one x b.cli + one x b.srv)
boots_snoc x [] b = omega arith
boots_snoc x (c ∷ bs) b = omega (arith, boots_snoc x bs b)

pub sessions_snoc :
    (x : ℕ) (ss : List Ends) (s : Ends)
    → in_sessions x (ss ++ s ∷ []) ≡ in_sessions x ss + (one x s.cli + one x s.srv)
sessions_snoc x [] s = omega arith
sessions_snoc x (c ∷ ss) s = omega (arith, sessions_snoc x ss s)

-- A new descriptor is one that is not open.
abbrev pub New : ℕ → Proxy → Type 0
New x p = occurs x p.fds ≡ 0

-- The descriptors of an attempt: the client's, and the server's if there is one.
abbrev pub Fresh : ℕ → Attempt → Proxy → Type 0
Fresh fd no_socket p = New fd p
Fresh fd (no_nonblock srv) p = New fd p × New srv p × (fd ≢ srv)
Fresh fd (in_progress srv) p = New fd p × New srv p × (fd ≢ srv)
Fresh fd (refused srv) p = New fd p × New srv p × (fd ≢ srv)
Fresh fd (connected srv) p = New fd p × New srv p × (fd ≢ srv)

module _ (p : Proxy) (o : Owned p) (fd srv : ℕ) (n : New fd p) (m : New srv p) (ne : fd ≢ srv) where
  abbrev both : Proxy
  both = open_fd srv (open_fd fd p)

  both_once : (x : ℕ) → occurs x both.fds ≤ 1
  both_once x =
      let i = o.once x in
      elim (Bool-cases (x == srv)) [
        | inl e ↦
            let same : x ≡ srv = ground arith in
            let z = ap (λ y. occurs y p.fds) same in
            let w = one_ne x fd (λ k. ne (sym k ∙ same)) in
            let r : one x srv ≤ 1 = ground arith in omega (arith, z, w, m, r)
        | inr e ↦ elim (Bool-cases (x == fd)) [
          | inl k ↦
              let same : x ≡ fd = ground arith in
              let z = ap (λ y. occurs y p.fds) same in
              let r : one x fd ≤ 1 = ground arith in
              let w : one x srv ≡ 0 = ground arith in omega (arith, z, w, n, r)
          | inr k ↦
              let w : one x srv ≡ 0 = ground arith in
              let r : one x fd ≡ 0 = ground arith in omega (arith, w, r, i)
        ]
      ]

  -- A client that gets no connection.
  closed_again : (p' : Proxy) × (close_both fd srv both ≡ some p') × Owned p'
  closed_again =
      let a = one_refl fd in
      let b = one_refl srv in
      let c = one_ne srv fd (λ k. ne (sym k)) in
      let (zs, e, f) = close_both_lem fd srv both (omega (arith, a)) (omega (arith, b, c)) in
      (
        record both { fds = zs },
        e,
        record {
          counts = λ x. let i = o.counts x in let j = f x in omega (arith, i, j);
          once = λ x. let i = o.once x in let j = f x in omega (arith, i, j);
        },
      )

  -- A connection in progress, and one that is there.
  begun : Owned (record both {
    boots = p.boots ++ record (bootstrap fd srv) { io = true; timeout = true } ∷ [];
  })
  unfolding bootstrap
  begun = record {
    counts = λ x.
        let i = o.counts x in
        let j = boots_snoc x p.boots (record (bootstrap fd srv) { io = true; timeout = true }) in
        omega (arith, i, j);
    once = both_once;
  }

  run : Owned (proxy_run fd srv both)
  unfolding proxy_run
  run = record {
    counts = λ x.
        let i = o.counts x in
        let j = sessions_snoc x p.sessions (record { cli = fd; srv = srv }) in omega (arith, i, j);
    once = both_once;
  }

pub accepted_lem :
    (fd : ℕ) (a : Attempt) (p : Proxy)
    → Owned p
    → Fresh fd a p
    → (p' : Proxy) × (accepted fd a p ≡ some p') × Owned p'
unfolding accepted
accepted_lem fd no_socket p o n =
    let r = one_refl fd in
    let (zs, e, f) = close_lem fd (open_fd fd p) (omega (arith, r)) in
    (
      record p { fds = zs },
      e,
      record {
        counts = λ x. let i = o.counts x in let j = f x in omega (arith, i, j);
        once = λ x. let i = o.once x in let j = f x in omega (arith, i, j);
      },
    )
accepted_lem fd (no_nonblock srv) p o (n, m, ne) = closed_again p o fd srv n m ne
accepted_lem fd (in_progress srv) p o (n, m, ne) = (_, refl, begun p o fd srv n m ne)
accepted_lem fd (refused srv) p o (n, m, ne) = closed_again p o fd srv n m ne
accepted_lem fd (connected srv) p o (n, m, ne) = (_, refl, run p o fd srv n m ne)

-- An owner's two descriptors are closed, and the owner is gone.
pub owner_closed :
    (a b : ℕ) (p : Proxy) (boots : List Bootstrap) (sessions : List Ends)
    → Owned p
    → ((x : ℕ)
        → in_boots x p.boots + in_sessions x p.sessions
          ≡ one x a + one x b + (in_boots x boots + in_sessions x sessions))
    → (q : Proxy) × (close_both a b (record p { boots = boots; sessions = sessions }) ≡ some q)
      × Owned q
owner_closed a b p boots sessions o split =
    let ia = o.counts a in
    let sa = split a in
    let ra = one_refl a in
    let ib = o.counts b in
    let sb = split b in
    let rb = one_refl b in
    let q : Proxy = record p { boots = boots; sessions = sessions } in
    let (zs, e, f) = close_both_lem a b q (omega (arith, ia, sa, ra)) (omega (arith, ib, sb, rb)) in
    (
      record q { fds = zs },
      e,
      record {
        counts =
            λ x. let i = o.counts x in let j = f x in let k = split x in omega (arith, i, j, k);
        once = λ x. let i = o.once x in let j = f x in omega (arith, i, j);
      },
    )

pub nth_boots :
    (i : ℕ) (bs rest : List Bootstrap) (b : Bootstrap)
    → take_nth i bs ≡ some (b, rest)
    → (x : ℕ) → in_boots x bs ≡ one x b.cli + one x b.srv + in_boots x rest
nth_boots i [] rest b e x = absurd (cc e)
nth_boots zero (c ∷ bs) rest b e x = ground (arith, e)
nth_boots (suc i) (c ∷ bs) rest b e x = elim (Option-cases (take_nth i bs)) [
  | inl n ↦ absurd (cc (rw (n) at e))
  | inr ((y, ys), r) ↦ ground (arith, e, r, nth_boots i bs ys y r x)
]

pub nth_sessions :
    (i : ℕ) (ss rest : List Ends) (s : Ends)
    → take_nth i ss ≡ some (s, rest)
    → (x : ℕ) → in_sessions x ss ≡ one x s.cli + one x s.srv + in_sessions x rest
nth_sessions i [] rest s e x = absurd (cc e)
nth_sessions zero (c ∷ ss) rest s e x = ground (arith, e)
nth_sessions (suc i) (c ∷ ss) rest s e x = elim (Option-cases (take_nth i ss)) [
  | inl n ↦ absurd (cc (rw (n) at e))
  | inr ((y, ys), r) ↦ ground (arith, e, r, nth_sessions i ss ys y r x)
]

-- A watcher that stops keeps the descriptors.
pub set_boots :
    (i : ℕ) (bs rest : List Bootstrap) (b : Bootstrap)
    → take_nth i bs ≡ some (b, rest)
    → (x : ℕ) → in_boots x (set bs i (record b { timeout = false })) ≡ in_boots x bs
set_boots i [] rest b e x = absurd (cc e)
set_boots zero (c ∷ bs) rest b e x = ground (arith, e)
set_boots (suc i) (c ∷ bs) rest b e x = elim (Option-cases (take_nth i bs)) [
  | inl n ↦ absurd (cc (rw (n) at e))
  | inr ((y, ys), r) ↦ ground (arith, e, r, set_boots i bs ys y r x)
]
