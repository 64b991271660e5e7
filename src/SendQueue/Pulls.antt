-- ===== src/SendQueue/Pulls.antt =====
-- `sendq::pull`: packets taken into a send queue together with their entries.
use rfx.Prelude.{
  take-append_long, ℕ, suc, ◌+◌, ◌-◌, ◌≤◌, ◌<◌, ◌≡◌, refl, sym, ap, ap₂, ◌∙◌, ◌≢◌, some, List, [],
  ◌∷◌, ◌++◌, arith, length, take, drop, All, Distinct, ◌==◌, All-append, All-weaken, All-flip,
  Distinct-append, length-append, not, ◌&&◌, if◌then◌else◌, Bool-cases, inl, inr, true, false,
  write_at, take-append_length, length-take, length-drop, write_at_fits,
}
use mathlib.Core.Path.{subst₂}
use rfx.Packet.{Heap, pure}
use rfx.Packet.Lifetime.{Unreferenced, Live, stream, bytes_at}
use rfx.PacketQueue.{Iovec, pqh_pull}
use rfx.PacketQueue.Pulling.{
  Parts, pqh_pull_lem, whole_entries, Parts-All, Parts-Distinct, Wanted, Unwanted, moves, done,
  full, keeps, drops,
}
use rfx.SendQueue.{SendQueue, window, wrivcnt, pull, compact}
use rfx.SendQueue.Stream.{Lined, pending}
use rfx.SendQueue.Sending.{IsReady, owed, length-window}
use rfx.SendQueue.Inject.{Lined-pulled, Agree-Lined, Agree-Live, compact_lem}

-- The queue as `pull` works on it: the entries in use are at the front.
pub record Fronted (s u : SendQueue) : Type 0 where
  pub front : u.sv ≡ 0
  pub count : u.svc ≡ s.svc
  pub entries : take s.svc u.svbuf ≡ window s
  pub size : length u.svbuf ≡ wrivcnt
  pub packets : u.pq ≡ s.pq
  pub way : u.dir ≡ s.dir

pub Fronted_lem :
    (s : SendQueue) (h : Heap)
    → IsReady h s
    → (u : SendQueue) × ((if not (s.sv == 0) && not (s.svc == 0) then compact s else pure s) h
        ≡ some (u, h))
      × Fronted s u
Fronted_lem s h r = elim (Bool-cases (s.sv == 0)) [
  | inl z ↦
      let z' : s.sv ≡ 0 = ground arith in
      (
        s,
        ground arith,
        record {
          front = z';
          count = refl;
          entries = ap (λ i. take s.svc (drop i s.svbuf)) (sym z');
          size = r.size;
          packets = refl;
          way = refl;
        },
      )
  | inr nz ↦
      let nz' : s.sv ≢ 0 = ground arith in
      let some_left : s.svc ≢ 0 = λ e. nz' (r.front e) in
      let (b, e, t, l) = compact_lem s h r.size r.fits in
      (
        record s { svbuf = b; sv = 0 },
        ground arith,
        record { front = refl; count = refl; entries = t; size = l; packets = refl; way = refl },
      )
]

-- What `sendq::pull` leaves.
pub record Injected (h : Heap) (s : SendQueue) (src kept moved gone : List ℕ) (t : SendQueue)
    (h' : Heap) : Type 0 where
  pub parts : Parts s.dir (wrivcnt - s.svc) 0 h 0 src kept moved gone
  pub packets : t.pq ≡ s.pq ++ moved
  pub size : length t.svbuf ≡ wrivcnt
  pub count : t.svc ≡ s.svc + length moved
  pub room : t.svc ≤ wrivcnt
  pub front : t.sv ≡ 0
  pub entries : window t ≡ window s ++ whole_entries h moved
  pub others : (q : ℕ) → All (λ g. g ≢ q) gone → h'.cell q ≡ h.cell q
  pub freed : All (Unreferenced h h') gone

abbrev pub PullRun : Heap → SendQueue → List ℕ → Type 0
PullRun h s src =
    (kept : List ℕ) × (moved : List ℕ) × (gone : List ℕ) × (t : SendQueue) × (h' : Heap) × (pull src
        s h
      ≡ some ((kept, t), h'))
    × Injected h s src kept moved gone t h'

length-entries : (h : Heap) (q : List ℕ) → length (whole_entries h q) ≡ length q
length-entries h [] = refl
length-entries h (p ∷ q) = ap suc (length-entries h q)

pub pull_run :
    (s u : SendQueue) (src kept moved : List ℕ) (outv b : List Iovec) (h h' : Heap)
    → s.svc < wrivcnt
    → ((if not (s.sv == 0) && not (s.svc == 0) then compact s else pure s) h ≡ some (u, h))
    → pqh_pull src u.pq u.dir (wrivcnt - u.svc) 0 h ≡ some ((kept, moved, outv), h')
    → write_at u.svbuf u.svc outv ≡ some b
    → pull src s h
      ≡ some ((kept, record u { pq = moved; svc = u.svc + length outv; svbuf = b }), h')
unfolding pull
pull_run s u src kept moved outv b h h' lt e f g = ground arith

-- The run of `pull` on a queue with room.
pub pull_room :
    (s : SendQueue) (src : List ℕ) (h : Heap)
    → IsReady h s
    → s.svc < wrivcnt
    → All (Live h) src
    → Distinct src
    → PullRun h s src
pull_room s src h r lt a d =
    let (u, e, f) = Fronted_lem s h r in
    let (p, gone, h', run, w, le) = pqh_pull_lem s.dir (wrivcnt - s.svc) 0 src s.pq h a d in
    let n = length-entries h p.moved in
    let nw = length-window s (omega (arith, r.fits, r.size)) in
    let lo = ap length w.entries in
    let m = length p.outv in
    let tail = p.outv ++ drop (u.svc + m) u.svbuf in
    let b = take u.svc u.svbuf ++ tail in
    let lt' = length-take u.svc u.svbuf in
    let cnt = f.count in
    let sz = f.size in
    let t : SendQueue = record u { pq = s.pq ++ p.moved; svc = u.svc + length p.outv; svbuf = b } in
    (
      p.kept,
      p.moved,
      gone,
      t,
      h',
      pull_run s u src p.kept (s.pq ++ p.moved) p.outv b h h' lt e
          (ap₂ (λ q i. pqh_pull src q i (wrivcnt - u.svc) 0 h) f.packets f.way
            ∙ ap (λ c. pqh_pull src s.pq s.dir (wrivcnt - c) 0 h) f.count
            ∙ run)
          (write_at_fits u.svbuf u.svc p.outv (omega (arith, cnt, sz, lo, n, le, lt))),
      record {
        parts = w.parts;
        packets = refl;
        size = omega (
          arith,
          length-append (take u.svc u.svbuf) tail,
          length-append p.outv (drop (u.svc + m) u.svbuf),
          lt',
          length-drop (u.svc + m) u.svbuf,
          cnt,
          sz,
          lo,
          n,
          le,
          lt,
        );
        count = omega (arith, f.count, lo, n);
        room = omega (arith, f.count, lo, n, le, lt);
        front = f.front;
        entries =
            ap (λ i. take (u.svc + m) (drop i b)) f.front
            ∙ take-append_long (u.svc + m) m (take u.svc u.svbuf) tail
                (omega (arith, lt', cnt, sz, lt))
            ∙ ap₂ ◌++◌ (ap (λ c. take c u.svbuf) f.count ∙ f.entries)
                (take-append_length p.outv (drop (u.svc + m) u.svbuf) ∙ w.entries);
        others = w.others;
        freed = w.freed;
      },
    )

-- The run of `pull` on a full vector: nothing moves.
pub pull_full :
    (s : SendQueue) (src : List ℕ) (h : Heap) → wrivcnt ≤ s.svc → pull src s h ≡ some ((src, s), h)
unfolding pull
pull_full s src h le = ground arith

-- On a send queue in order that has a vector entry for each of its packets and room for one
-- more, and a source of distinct packets in use, none of which it holds, `sendq::pull` gives a
-- result: it splits the source into kept, moved and dropped packets by direction, mark and
-- capacity; each dropped packet loses one reference and is freed with its last one; the queue is
-- in order with an entry for each packet, and it owes the bytes of the moved packets behind what
-- it owed.
pub pull_lem :
    (s : SendQueue) (src : List ℕ) (h : Heap)
    → IsReady h s
    → s.svc ≡ length s.pq
    → s.svc < wrivcnt
    → All (Live h) src
    → Distinct src
    → All (λ q. All (λ x. x ≢ q) s.pq) src
    → (kept : List ℕ) × (moved : List ℕ) × (gone : List ℕ) × (t : SendQueue) × (h' : Heap) × (pull
          src s h
        ≡ some ((kept, t), h'))
      × Parts s.dir (wrivcnt - s.svc) 0 h 0 src kept moved gone
      × IsReady h' t
      × (t.svc ≡ length t.pq)
      × (owed h' t ≡ owed h s ++ stream h moved)
      × All (Unreferenced h h') gone
pull_lem s src h r all lt a d apart =
    let (kept, moved, gone, t, h', run, w) = pull_room s src h r lt a d in
    let (_, fresh, outside) = Parts-All s.dir (wrivcnt - s.svc) 0 Strange h apart w.parts in
    let (_, live, _) = Parts-All s.dir (wrivcnt - s.svc) 0 (Live h) h a w.parts in
    let (once, spared) = Parts-Distinct s.dir (wrivcnt - s.svc) 0 h d w.parts in
    let same =
      All-append (λ q. h'.cell q ≡ h.cell q) s.pq moved
        (All-weaken _ _ w.others s.pq (All-flip s.pq gone outside))
        (All-weaken _ _ w.others moved spared) in
    let nw = length-window s (omega (arith, r.fits, r.size)) in
    let (l, p) = Lined-pulled h (window s) s.pq moved r.order.lined (nw ∙ all) live in
    let (l', p') = Agree-Lined h h' (window s ++ whole_entries h moved) (s.pq ++ moved) same l in
    let cnt = w.count in
    let rm = w.room in
    let len = ap length w.packets in
    (
      kept,
      moved,
      gone,
      t,
      h',
      run,
      w.parts,
      record {
        size = w.size;
        fits = omega (arith, w.front, rm);
        front = λ _. w.front;
        order =
            rw (w.entries, w.packets)
              (record {
                lined = l';
                live =
                    Agree-Live h h' (s.pq ++ moved) same
                      (All-append (Live h) s.pq moved r.order.live live);
                once = Distinct-append s.pq moved r.order.once once (All-flip s.pq moved fresh);
              });
      },
      omega (arith, cnt, all, len, length-append s.pq moved),
      ap₂ (pending h') w.entries w.packets ∙ p' ∙ p,
      w.freed,
    )
  where
    Strange : ℕ → Type 0
    Strange q = All (λ x. x ≢ q) s.pq

module _ (dir sz late : ℕ) (h : Heap) where
  Parts-nil :
      {i : ℕ} {src k m g : List ℕ}
      → src ≡ []
      → Parts dir sz late h i src k m g
      → (k ≡ []) × (m ≡ [])
  Parts-nil e (done i) = (refl, refl)
  Parts-nil e (full i src le) = (e, refl)
  Parts-nil e (keeps u lt r) = cc
  Parts-nil e (moves u lt r) = cc
  Parts-nil e (drops u lt r) = cc

  -- A single wanted packet moves.
  Parts-one :
      (p : ℕ) {i : ℕ} {src k m g : List ℕ}
      → Wanted dir sz late h false p
      → i < sz
      → src ≡ p ∷ []
      → Parts dir sz late h i src k m g
      → (k ≡ []) × (m ≡ p ∷ [])
  Parts-one p w lt e (done i) = cc
  Parts-one p w lt e (full i src le) = absurd (omega (arith, lt, le))
  Parts-one p w lt e (keeps {p = x} u lt' r) = absurd (unwanted x (ground arith) u w)
    where
      unwanted : (x : ℕ) → x ≡ p → Unwanted dir sz late h x → Wanted dir sz late h false p → ⊥
      unwanted x e (k, c, u) (j, c', d, l, b) = ground (arith, ap h.cell e)
  Parts-one p w lt e (moves {p = x} {src = src} {m = m} u lt' r) =
      let n : src ≡ [] = ground arith in let (k, j) = Parts-nil n r in (k, ground (arith, j))
  Parts-one p w lt e (drops {p = x} u lt' r) = absurd (undropped x (ground arith) u w)
    where
      undropped : (x : ℕ) → x ≡ p → Wanted dir sz late h true x → Wanted dir sz late h false p → ⊥
      undropped x e (k, c, d', l', b') (j, c', d, l, b) = ground (arith, ap h.cell e)

-- An entry out of its place: the packet at its place in the queue is another.
misplaced :
    (h : Heap) (vs : List Iovec) (v : Iovec) (q r : List ℕ)
    → length vs < length q
    → All (λ x. x ≢ v.base) q
    → ¬ Lined h (vs ++ v ∷ []) (q ++ r)
misplaced h vs v [] r lt a l = absurd (omega arith)
misplaced h [] v (x ∷ q) r lt a l = a.0 (sym l.0.0)
misplaced h (u ∷ vs) v (x ∷ q) r lt a l = misplaced h vs v q r (omega arith) a.1 l.1

-- If a send queue in order has a packet without a vector entry and room in the vector, and
-- `sendq::pull` takes a wanted packet in use that the queue does not hold, then the call gives a
-- queue that is not in order: its entries no longer line up with its packets.
pub pull_out_of_step :
    (s : SendQueue) (p : ℕ) (h : Heap)
    → IsReady h s
    → s.svc < length s.pq
    → s.svc < wrivcnt
    → Wanted s.dir (wrivcnt - s.svc) 0 h false p
    → Live h p
    → All (λ x. x ≢ p) s.pq
    → (t : SendQueue) × (h' : Heap) × (pull (p ∷ []) s h ≡ some (([], t), h')) × ¬ IsReady h' t
pull_out_of_step s p h r behind lt w l apart =
    let (kept, moved, gone, t, h', run, i) = pull_room s (p ∷ []) h r lt (l, tt) (tt, tt) in
    let (k, m) =
      Parts-one s.dir (wrivcnt - s.svc) 0 h p {i = 0} w (omega (arith, lt)) refl i.parts in
    let nw = length-window s (omega (arith, r.fits, r.size)) in
    (
      t,
      h',
      run ∙ ap (λ z. some ((z, t), h')) k,
      λ bad.
          misplaced h' (window s) (record { base = p; off = 0; iov_len = length (bytes_at h p) })
            s.pq (p ∷ []) (omega (arith, nw, behind)) apart
            (subst₂ (λ vs q. Lined h' vs q) (i.entries ∙ ap (λ z. window s ++ whole_entries h z) m)
              (i.packets ∙ ap (λ z. s.pq ++ z) m) bad.order.lined),
    )
