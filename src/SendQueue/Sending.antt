-- ===== src/SendQueue/Sending.antt =====
-- `sendq::send` as a whole: what it writes, and what it leaves.
use rfx.Prelude.{
  All-left, ℕ, ◌+◌, ◌≤◌, ◌≡◌, refl, sym, ap, ◌∙◌, some, List, [], ◌∷◌, ◌++◌, arith, length, take,
  drop, inl, inr, ◌⊎◌, length-take, length-drop, length-replicate,
}
use rfx.Packet.{Heap}
use rfx.Packet.Lifetime.{Live, stream}
use rfx.PacketQueue.{Iovec}
use rfx.SendQueue.{sendq, no_iovec, SendQueue, window, refill, after_write, drain, wrivcnt}
use rfx.SendQueue.Stream.{window_bytes, pending, wholes, length-wholes, wholes-Lined}
use rfx.SendQueue.Drain.{InOrder, Holds, drain_lem}
use rfx.SendQueue.Round.{Owes, advance-Owes, fill_lem}

-- The invariant of `sendq`: the entries in use lie in `svbuf` and belong to the first packets of
-- the queue, whose packets are in use, each once; an empty vector starts at the front.
pub record IsReady (h : Heap) (s : SendQueue) : Type 0 where
  pub size : length s.svbuf ≡ wrivcnt
  pub fits : s.sv + s.svc ≤ wrivcnt
  pub front : s.svc ≡ 0 → s.sv ≡ 0
  pub order : InOrder h (window s) s.pq

-- The bytes that the queue still has to send, in order.
abbrev pub owed : Heap → SendQueue → List ℕ
owed h s = pending h (window s) s.pq

pub window_of_Holds :
    (vs : List Iovec) (s : SendQueue) → s.svc ≡ length vs → Holds vs s → window s ≡ vs
window_of_Holds vs s c w = ap (λ n. take n (drop s.sv s.svbuf)) c ∙ w.entries

pub length-window : (s : SendQueue) → s.sv + s.svc ≤ length s.svbuf → length (window s) ≡ s.svc
length-window s h = length-take s.svc (drop s.sv s.svbuf) ∙ omega (arith, length-drop s.sv s.svbuf)

-- A queue that holds its entries is ready, and owes what they and the queue say.
Owes-IsReady :
    (h : Heap) (ws : List Iovec) (t : SendQueue) (b : List ℕ)
    → length t.svbuf ≡ wrivcnt
    → (t.svc ≡ 0 → t.sv ≡ 0)
    → Owes h ws t b
    → IsReady h t × (owed h t ≡ b)
Owes-IsReady h ws t b l f o =
    let e = window_of_Holds ws t o.count o.holds in
    (
      record {
        size = l;
        fits = omega (arith, o.count, o.holds.fits, l);
        front = f;
        order = rw e o.order;
      },
      ap (λ vs. pending h vs t.pq) e ∙ o.debt,
    )

-- What `refill` ensures: an empty vector means an empty queue.
pub record Refilled (h : Heap) (t : SendQueue) (b : List ℕ) : Type 0 where
  pub ready : IsReady h t
  pub debt : owed h t ≡ b
  pub idle : t.svc ≡ 0 → t.pq ≡ []

filled-empty : (ds es : List ℕ) → (es ≡ []) ⊎ (length ds ≡ wrivcnt) → length ds ≡ 0 → ds ++ es ≡ []
filled-empty [] es (inl e) z = e
filled-empty [] es (inr e) z = absurd (omega arith)
filled-empty (d ∷ ds) es o z = absurd (omega arith)

pub refill_lem :
    (ws : List Iovec) (s : SendQueue) (h : Heap) (b : List ℕ)
    → Owes h ws s b
    → length s.svbuf ≡ wrivcnt
    → (t : SendQueue) × (refill s h ≡ some (t, h)) × Refilled h t b
unfolding refill
refill_lem [] s h b o l =
    let (t, ds, es, run, parts, f) =
      fill_lem s.pq [] (record s { sv = 0 }) h refl o.count refl l (omega arith) o.order.live in
    let pq_is : t.pq ≡ ds ++ es = f.same ∙ sym parts in
    let lined = wholes-Lined h ds es (All-left (Live h) ds es (rw parts o.order.live)) in
    let (r, d) =
      Owes-IsReady h (wholes h ds) t b f.size (λ _. f.front)
        (record {
          count = f.count ∙ sym (length-wholes h ds);
          holds = record {
            entries = rw (length-wholes h ds, f.front) f.entries;
            fits = omega (
              arith,
              f.front,
              f.size,
              length-wholes h ds,
              ap length f.entries,
              length-take (length ds) t.svbuf,
            );
          };
          order = rw pq_is (record {
            lined = lined.0;
            live = rw parts o.order.live;
            once = rw parts o.order.once;
          });
          debt = ap (pending h (wholes h ds)) pq_is ∙ lined.1 ∙ ap (stream h) parts ∙ o.debt;
        }) in
    (
      t,
      ground (arith, o.count, run),
      record {
        ready = r;
        debt = d;
        idle = λ z. pq_is ∙ filled-empty ds es f.enough (omega (arith, f.count));
      },
    )
refill_lem (v ∷ ws) s h b o l =
    let (r, d) = Owes-IsReady h (v ∷ ws) s b l (λ z. absurd (omega (arith, o.count))) o in
    (
      s,
      ground (arith, o.count),
      record { ready = r; debt = d; idle = λ z. absurd (omega (arith, o.count)) },
    )

-- One successful `writev` of `bytes` bytes: those bytes are no longer owed, the others are.
pub after_write_lem :
    (bytes : ℕ) (s : SendQueue) (h : Heap)
    → IsReady h s
    → bytes ≤ length (window_bytes h (window s))
    → (t : SendQueue) × (h' : Heap) × (b : List ℕ) × (after_write bytes s h ≡ some (t, h'))
      × Refilled h' t b
      × (owed h s ≡ take bytes (window_bytes h (window s)) ++ b)
unfolding after_write
after_write_lem bytes s h r le =
    let n = length-window s (omega (arith, r.fits, r.size)) in
    let w : Holds (window s) s = record {
      entries = ap (λ k. take k (drop s.sv s.svbuf)) n;
      fits = omega (arith, n, r.fits, r.size);
    } in
    let (left, t1, h1, ws, e1, d) = drain_lem (window s) s.pq s bytes h refl w r.order le in
    let (u, vs, e2, o, same) =
      advance-Owes left ws t1.pq t1 h1 refl d.count d.holds d.order d.inside in
    let (t, e3, f) = refill_lem vs u h1 _ o (same ∙ ap length d.array ∙ r.size) in
    (
      t,
      h1,
      drop left (pending h1 ws t1.pq),
      ground (arith, ap (λ k. drain k bytes s h) n, e1, e2, e3),
      f,
      d.split,
    )

-- A new queue is in order.
pub sendq-IsReady : (dir : ℕ) (h : Heap) → IsReady h (sendq dir)
unfolding sendq
sendq-IsReady dir h = record {
  size = length-replicate wrivcnt no_iovec;
  fits = omega arith;
  front = λ _. refl;
  order = record { lined = tt; live = tt; once = tt };
}
