-- ===== src/PacketQueue/Pulling.antt =====
-- What `pqh_pull` of pktq.c takes from a queue, what it leaves there and what it frees.
use rfx.Prelude.{
  ℕ, ◌+◌, ◌≤◌, ◌<◌, ◌≡◌, refl, sym, ap, ap₂, ◌∙◌, ◌≢◌, Option, some, List, [], ◌∷◌, ◌++◌, arith,
  length, All, Distinct, ◌==◌, ltb, leb, Bool-cases, inl, inr, Bool, true, false, ◌⊎◌,
}
use rfx.Packet.{Packet, Heap, pkt_unref}
use rfx.Packet.Lifetime.{
  Unreferenced, pkt_unref-Unreferenced, Live, bytes_at, cell_bytes, AgreeBut, All-Live-agree,
  pkt_unref_lem,
}
use rfx.PacketQueue.{Iovec, Pull, pull_loop, pqh_pull, keep, move}

abbrev pub whole_entries : Heap → List ℕ → List Iovec
whole_entries h [] = []
whole_entries h (p ∷ q) =
    record { base = p; off = 0; iov_len = length (bytes_at h p) } ∷ whole_entries h q

module _ (dir outv_sz min_delay : ℕ) where
  -- The packet at `p` goes the way asked for, is due, and is marked to be dropped or not.
  abbrev pub Wanted : Heap → Bool → ℕ → Type 0
  Wanted h b p =
      (k : Packet) × (h.cell p ≡ some k) × (k.dir ≡ dir) × (k.delay ≤ min_delay) × (k.drop ≡ b)

  abbrev pub Unwanted : Heap → ℕ → Type 0
  Unwanted h p = (k : Packet) × (h.cell p ≡ some k) × ((min_delay < k.delay) ⊎ (k.dir ≢ dir))

  -- `Parts h i src kept moved gone`: with `i` entries written, `src` splits, in order, into what
  -- stays, what moves and what is thrown away.
  pub data Parts (h : Heap) : ℕ → List ℕ → List ℕ → List ℕ → List ℕ → Type 0 where
    done : (i : ℕ) → Parts h i [] [] [] []
    full : (i : ℕ) (src : List ℕ) → outv_sz ≤ i → Parts h i src src [] []
    keeps :
        {i p : ℕ} {src k m g : List ℕ}
        → Unwanted h p
        → i < outv_sz
        → Parts h i src k m g
        → Parts h i (p ∷ src) (p ∷ k) m g
    moves :
        {i p : ℕ} {src k m g : List ℕ}
        → Wanted h false p
        → i < outv_sz
        → Parts h (i + 1) src k m g
        → Parts h i (p ∷ src) k (p ∷ m) g
    drops :
        {i p : ℕ} {src k m g : List ℕ}
        → Wanted h true p
        → i < outv_sz
        → Parts h i src k m g
        → Parts h i (p ∷ src) k m (p ∷ g)

  Wanted-agree :
      (h h' : Heap) (b : Bool) (p : ℕ) → h'.cell p ≡ h.cell p → Wanted h' b p → Wanted h b p
  Wanted-agree h h' b p e (k, c, d, l, w) = (k, sym e ∙ c, d, l, w)

  pub Parts-agree :
      (x : ℕ) (h h' : Heap)
      → AgreeBut x h h'
      → {i : ℕ} {src k m g : List ℕ} → All (λ q. q ≢ x) src
      → Parts h' i src k m g
      → Parts h i src k m g
  Parts-agree x h h' a ne (done i) = done i
  Parts-agree x h h' a ne (full i src le) = full i src le
  Parts-agree x h h' a ne (keeps {p = p} (k, c, w) lt r) =
      keeps (k, sym (a p ne.0) ∙ c, w) lt (Parts-agree x h h' a ne.1 r)
  Parts-agree x h h' a ne (moves {p = p} w lt r) =
      moves (Wanted-agree h h' false p (a p ne.0) w) lt (Parts-agree x h h' a ne.1 r)
  Parts-agree x h h' a ne (drops {p = p} w lt r) =
      drops (Wanted-agree h h' true p (a p ne.0) w) lt (Parts-agree x h h' a ne.1 r)

  -- What the loop gives: it follows `Parts`, writes an entry for each packet that moves, drops the
  -- reference to those that it throws away, and changes no other packet.
  pub record Pulled (h : Heap) (i : ℕ) (src gone : List ℕ) (r : Pull) (h' : Heap) : Type 0 where
    pub parts : Parts h i src r.kept r.moved gone
    pub entries : r.outv ≡ whole_entries h r.moved
    pub others : (q : ℕ) → All (λ g. g ≢ q) gone → h'.cell q ≡ h.cell q
    pub freed : All (Unreferenced h h') gone

  abbrev Loop : Heap → ℕ → List ℕ → Type 0
  Loop h i src =
      (r : Pull) × (gone : List ℕ) × (h' : Heap) × (pull_loop dir outv_sz min_delay i src h
        ≡ some (r, h'))
      × Pulled h i src gone r h'

  module _ (h : Heap) (i p : ℕ) (rest : List ℕ) (k : Packet) (c : h.cell p ≡ some k) where
    loop_keeps :
        i < outv_sz
        → (min_delay < k.delay) ⊎ (k.dir ≢ dir)
        → (r : Pull) (h' : Heap) → pull_loop dir outv_sz min_delay i rest h ≡ some (r, h')
        → pull_loop dir outv_sz min_delay i (p ∷ rest) h ≡ some (keep p r, h')
    unfolding pull_loop
    loop_keeps lt u r h' e = ground arith

    loop_moves :
        i < outv_sz
        → k.dir ≡ dir
        → k.delay ≤ min_delay
        → k.drop ≡ false
        → (r : Pull) (h' : Heap) → pull_loop dir outv_sz min_delay (i + 1) rest h ≡ some (r, h')
        → pull_loop dir outv_sz min_delay i (p ∷ rest) h ≡ some (move p k r, h')
    unfolding pull_loop
    loop_moves lt d l b r h' e = ground arith

    loop_drops :
        i < outv_sz
        → k.dir ≡ dir
        → k.delay ≤ min_delay
        → k.drop ≡ true
        → (h' : Heap) → pkt_unref p h ≡ some (tt, h')
        → pull_loop dir outv_sz min_delay i (p ∷ rest) h ≡ pull_loop dir outv_sz min_delay i rest h'
    unfolding pull_loop
    loop_drops lt d l b h' e = ground arith

  loop_stops :
      (h : Heap) (i : ℕ) (src : List ℕ)
      → outv_sz ≤ i
      → pull_loop dir outv_sz min_delay i src h
        ≡ some (record { kept = src; moved = []; outv = [] }, h)
  unfolding pull_loop
  loop_stops h i [] le = refl
  loop_stops h i (p ∷ rest) le = ground arith

  whole_entries-agree :
      (x : ℕ) (h h' : Heap)
      → AgreeBut x h h'
      → (q : List ℕ) → All (λ y. y ≢ x) q
      → whole_entries h' q ≡ whole_entries h q
  whole_entries-agree x h h' a [] ne = refl
  whole_entries-agree x h h' a (p ∷ q) ne =
      ap₂
        (λ (c : Option Packet) r. record { base = p; off = 0; iov_len = length (cell_bytes c) } ∷ r)
        (a p ne.0) (whole_entries-agree x h h' a q ne.1)

  -- What holds of all of `src` holds of its parts.
  pub Parts-All {κ} :
      (P : ℕ → Type κ) (h : Heap) {i : ℕ} {src k m g : List ℕ}
      → All P src
      → Parts h i src k m g
      → All P k × All P m × All P g
  Parts-All P h a (done i) = (tt, tt, tt)
  Parts-All P h a (full i src le) = (a, tt, tt)
  Parts-All P h a (keeps u lt r) = let (x, y, z) = Parts-All P h a.1 r in ((a.0, x), y, z)
  Parts-All P h a (moves w lt r) = let (x, y, z) = Parts-All P h a.1 r in (x, (a.0, y), z)
  Parts-All P h a (drops w lt r) = let (x, y, z) = Parts-All P h a.1 r in (x, y, (a.0, z))

  decide :
      (k : Packet)
      → ((min_delay < k.delay) ⊎ (k.dir ≢ dir)) ⊎ ((k.dir ≡ dir) × (k.delay ≤ min_delay))
  decide k = elim (Bool-cases (ltb min_delay k.delay)) [
    | inl late ↦ inl (inl (ground arith))
    | inr due ↦ elim (Bool-cases (k.dir == dir)) [
      | inl same ↦ inr (ground arith, ground arith)
      | inr differs ↦ inl (inr (ground arith))
    ]
  ]

  -- A packet that nothing else touches afterwards.
  Unreferenced-then :
      (p : ℕ) (h h1 h' : Heap) → h'.cell p ≡ h1.cell p → Unreferenced h h1 p → Unreferenced h h' p
  Unreferenced-then p h h1 h' e (k, c, one, more) = (k, c, (λ r. e ∙ one r), λ r. e ∙ more r)

  -- Those that nothing touched before.
  freed_before :
      (p : ℕ) (h h1 h' : Heap)
      → AgreeBut p h h1
      → (gone : List ℕ) → All (λ q. q ≢ p) gone
      → All (Unreferenced h1 h') gone
      → All (Unreferenced h h') gone
  freed_before p h h1 h' ag [] ne f = tt
  freed_before p h h1 h' ag (q ∷ gone) ne ((k, c, one, more), f) =
      ((k, sym (ag q ne.0) ∙ c, one, more), freed_before p h h1 h' ag gone ne.1 f)

  pull_loop_lem : (src : List ℕ) (h : Heap) (i : ℕ) → All (Live h) src → Distinct src → Loop h i src
  pull_loop_lem [] h i a d = (
    record { kept = []; moved = []; outv = [] },
    [],
    h,
    ground_nil,
    record { parts = done i; entries = refl; others = λ q _. refl; freed = tt },
  )
    where
      ground_nil :
          pull_loop dir outv_sz min_delay i [] h
          ≡ some (record { kept = []; moved = []; outv = [] }, h)
      ground_nil = unfold pull_loop in refl
  pull_loop_lem (p ∷ rest) h i ((k, c, s), a) d = elim (Bool-cases (leb outv_sz i)) [
    | inl no_room ↦ (
      record { kept = p ∷ rest; moved = []; outv = [] },
      [],
      h,
      loop_stops h i (p ∷ rest) (ground arith),
      record {
        parts = full i (p ∷ rest) (ground arith);
        entries = refl;
        others = λ q _. refl;
        freed = tt;
      },
    )
    | inr room ↦ elim (decide k) [
      | inl u ↦ kept u (ground arith) (pull_loop_lem rest h i a d.1)
      | inr (same, due) ↦ elim (Bool-cases k.drop) [
        | inl b ↦
            let (h1, e, ag, nx) = pkt_unref_lem p h (k, c, s) in
            dropped same due b (ground arith) h1 e ag
              (pull_loop_lem rest h1 i (All-Live-agree p h h1 ag rest d.0 a) d.1)
        | inr b ↦ moved same due b (ground arith) (pull_loop_lem rest h (i + 1) a d.1)
      ]
    ]
  ]
    where
      kept :
          (min_delay < k.delay) ⊎ (k.dir ≢ dir) → i < outv_sz → Loop h i rest → Loop h i (p ∷ rest)
      kept u lt (r, gone, h', e, w) = (
        keep p r,
        gone,
        h',
        loop_keeps h i p rest k c lt u r h' e,
        record {
          parts = keeps (k, c, u) lt w.parts;
          entries = w.entries;
          others = w.others;
          freed = w.freed;
        },
      )

      moved :
          k.dir ≡ dir
          → k.delay ≤ min_delay
          → k.drop ≡ false
          → i < outv_sz
          → Loop h (i + 1) rest
          → Loop h i (p ∷ rest)
      moved same due b lt (r, gone, h', e, w) = (
        move p k r,
        gone,
        h',
        loop_moves h i p rest k c lt same due b r h' e,
        record {
          parts = moves (k, c, same, due, b) lt w.parts;
          entries =
              ap₂ (λ n t. record { base = p; off = 0; iov_len = n } ∷ t)
                (s.sized ∙ sym (ap (λ (x : Option Packet). length (cell_bytes x)) c)) w.entries;
          others = w.others;
          freed = w.freed;
        },
      )

      dropped :
          k.dir ≡ dir
          → k.delay ≤ min_delay
          → k.drop ≡ true
          → i < outv_sz
          → (h1 : Heap) → pkt_unref p h ≡ some (tt, h1)
          → AgreeBut p h h1
          → Loop h1 i rest
          → Loop h i (p ∷ rest)
      dropped same due b lt h1 e ag (r, gone, h', e', w) = (
        r,
        p ∷ gone,
        h',
        loop_drops h i p rest k c lt same due b h1 e ∙ e',
        record {
          parts = drops (k, c, same, due, b) lt (Parts-agree p h h1 ag d.0 w.parts);
          entries =
              w.entries
              ∙ whole_entries-agree p h h1 ag r.moved (Parts-All (λ q. q ≢ p) h1 d.0 w.parts).1;
          others = λ q ne. w.others q ne.1 ∙ ag q (λ q_is. ne.0 (sym q_is));
          freed =
              let apart = (Parts-All (λ q. q ≢ p) h1 d.0 w.parts).2 in
              (
                Unreferenced-then p h h1 h' (w.others p apart)
                    (pkt_unref-Unreferenced p h h1 (k, c, s) e),
                freed_before p h h1 h' ag gone apart w.freed,
              );
        },
      )

  -- No more packets move than there are places for.
  pub length-moved :
      (h : Heap) {i : ℕ} {src k m g : List ℕ}
      → i ≤ outv_sz
      → Parts h i src k m g
      → i + length m ≤ outv_sz
  length-moved h le (done i) = omega arith
  length-moved h le (full i src l) = omega arith
  length-moved h le (keeps u lt r) = length-moved h le r
  length-moved h {i = i} le (moves w lt r) =
      omega (arith, length-moved h {i = i + 1} (omega (arith, lt)) r)
  length-moved h le (drops w lt r) = length-moved h le r

  -- Packets that were distinct are so in each part, and no packet is in two.
  pub Parts-Distinct :
      (h : Heap) {i : ℕ} {src k m g : List ℕ}
      → Distinct src
      → Parts h i src k m g
      → Distinct m × All (λ q. All (λ x. x ≢ q) g) m
  Parts-Distinct h d (done i) = (tt, tt)
  Parts-Distinct h d (full i src le) = (tt, tt)
  Parts-Distinct h d (keeps u lt r) = Parts-Distinct h d.1 r
  Parts-Distinct h d (moves {p = p} w lt r) =
      let (_, fresh, apart) = Parts-All (λ q. q ≢ p) h d.0 r in
      let (dm, ds) = Parts-Distinct h d.1 r in ((fresh, dm), (apart, ds))
  Parts-Distinct h d (drops {p = p} {m = m} {g = g} w lt r) =
      let (_, fresh, apart) = Parts-All (λ q. q ≢ p) h d.0 r in
      let (dm, ds) = Parts-Distinct h d.1 r in (dm, both m fresh ds)
    where
      both :
          (ms : List ℕ)
          → All (λ q. q ≢ p) ms
          → All (λ q. All (λ x. x ≢ q) g) ms
          → All (λ q. All (λ x. x ≢ q) (p ∷ g)) ms
      both [] a b = tt
      both (x ∷ ms) a b = (((λ e. a.0 (sym e)), b.0), both ms a.1 b.1)

  -- `pqh_pull` from distinct packets in use gives a result: the split of the source into kept,
  -- moved and dropped packets, the moved ones at the tail of the target, an entry for each of
  -- them, and no more than the vector has room for; each dropped packet loses one reference and
  -- is freed with its last one, and no other packet changes.
  pub pqh_pull_lem :
      (src dst : List ℕ) (h : Heap)
      → All (Live h) src
      → Distinct src
      → (r : Pull) × (gone : List ℕ) × (h' : Heap) × (pqh_pull src dst dir outv_sz min_delay h
          ≡ some ((r.kept, dst ++ r.moved, r.outv), h'))
        × Pulled h 0 src gone r h'
        × (length r.moved ≤ outv_sz)
  unfolding pqh_pull
  pqh_pull_lem src dst h a d =
      let (r, gone, h', e, w) = pull_loop_lem src h 0 a d in
      (
        r,
        gone,
        h',
        ground (arith, e),
        w,
        omega (arith, length-moved h {i = 0} (omega arith) w.parts),
      )
