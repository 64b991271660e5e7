-- ===== src/SendQueue/PullNone.antt =====
-- `sendq::pull` from an empty queue.
use rfx.Prelude.{
  take-append_long, ℕ, ◌+◌, ◌-◌, ◌<◌, ◌≡◌, refl, sym, ap, ap₂, ◌∙◌, some, List, [], ◌++◌, arith,
  take, drop, append-nil, length-append, Bool-cases, ltb, inl, inr, length-take, length-drop,
  write_at_fits,
}
use mathlib.Core.Path.{subst₂}
use rfx.Packet.{Heap}
use rfx.PacketQueue.{pqh_pull, pull_loop}
use rfx.SendQueue.{SendQueue, window, wrivcnt, pull}
use rfx.SendQueue.Stream.{pending}
use rfx.SendQueue.Drain.{InOrder}
use rfx.SendQueue.Sending.{IsReady, owed}
use rfx.SendQueue.Pulls.{Fronted_lem, pull_run, pull_full}

-- The queue holds and owes what it did.
pub record SameDebt (h : Heap) (s t : SendQueue) : Type 0 where
  pub ready : IsReady h t
  pub packets : t.pq ≡ s.pq
  pub debt : owed h t ≡ owed h s
  pub way : t.dir ≡ s.dir

loop_none : (q : List ℕ) (d n : ℕ) (h : Heap) → pqh_pull [] q d n 0 h ≡ some (([], q ++ [], []), h)
unfolding pqh_pull pull_loop
loop_none q d n h = refl

pull_room_none :
    (s : SendQueue) (h : Heap)
    → IsReady h s
    → s.svc < wrivcnt
    → (t : SendQueue) × (pull [] s h ≡ some (([], t), h)) × SameDebt h s t
pull_room_none s h r lt =
    let (u, e, f) = Fronted_lem s h r in
    let cnt = f.count in
    let sz = f.size in
    let fits = r.fits in
    let tail = drop (u.svc + 0) u.svbuf in
    let b = take u.svc u.svbuf ++ tail in
    let n = length-take u.svc u.svbuf in
    let t : SendQueue = record u { pq = u.pq ++ []; svc = u.svc + 0; svbuf = b } in
    let w : window t ≡ window s =
      ap (λ i. take (u.svc + 0) (drop i b)) f.front
      ∙ take-append_long (u.svc + 0) 0 (take u.svc u.svbuf) tail (omega (arith, n, cnt, sz, lt))
      ∙ append-nil (take u.svc u.svbuf)
      ∙ ap (λ c. take c u.svbuf) cnt
      ∙ f.entries in
    let p : t.pq ≡ s.pq = append-nil u.pq ∙ f.packets in
    (
      t,
      pull_run s u [] [] (u.pq ++ []) [] b h h lt e (loop_none u.pq u.dir (wrivcnt - u.svc) h)
          (write_at_fits u.svbuf u.svc [] (omega (arith, cnt, sz, lt))),
      record {
        ready = record {
          size = omega (
            arith,
            length-append (take u.svc u.svbuf) tail,
            n,
            length-drop (u.svc + 0) u.svbuf,
            cnt,
            sz,
            lt,
          );
          fits = omega (arith, f.front, cnt, lt);
          front = λ z. f.front;
          order = subst₂ (InOrder h) (sym w) (sym p) r.order;
        };
        packets = p;
        debt = ap₂ (pending h) w p;
        way = f.way;
      },
    )

-- From an empty queue, `pull` takes nothing: it moves the entries at most.
pub pull_none :
    (s : SendQueue) (h : Heap)
    → IsReady h s
    → (t : SendQueue) × (pull [] s h ≡ some (([], t), h)) × SameDebt h s t
pull_none s h r = elim (Bool-cases (ltb s.svc wrivcnt)) [
  | inl lt ↦ pull_room_none s h r (ground arith)
  | inr ge ↦ (
    s,
    pull_full s [] h (ground arith),
    record { ready = r; packets = refl; debt = refl; way = refl },
  )
]
