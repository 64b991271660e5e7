-- ===== src/SendQueue/Drain.antt =====
-- The inner loop of `sendq::send`: what a partial write takes off the vector and off the queue.
use rfx.Prelude.{
  ℕ, zero, suc, ◌+◌, ◌-◌, ◌≤◌, ◌<◌, ◌≡◌, refl, sym, ap, ap₂, ◌∙◌, some, List, [], ◌∷◌, ◌++◌,
  append_assoc, arith, length, take, drop, All, Distinct, length-append, leb, Bool-cases, inl, inr,
  get_elem?, take-append-short, drop-append-short, take-append-drop, take-append_long,
}
use rfx.Packet.{Heap}
use rfx.Packet.Lifetime.{Live, All-Live-agree, pkt_unref_lem}
use rfx.PacketQueue.{Iovec, pqh_discard}
use rfx.SendQueue.{SendQueue, drain}
use rfx.SendQueue.Window.{get_elem?-drop}
use rfx.SendQueue.Stream.{Lined, rest_of, window_bytes, pending, length-rest_of, window_bytes-agree}

-- The queue's packets are in use, each once, and the entries are those of its first packets.
pub record InOrder (h : Heap) (vs : List Iovec) (q : List ℕ) : Type 0 where
  pub lined : Lined h vs q
  pub live : All (Live h) q
  pub once : Distinct q

-- The entries are the ones in use in the array.
pub record Holds (vs : List Iovec) (s : SendQueue) : Type 0 where
  pub entries : take (length vs) (drop s.sv s.svbuf) ≡ vs
  pub fits : s.sv + length vs ≤ length s.svbuf

-- The bytes left over end inside the first entry.
abbrev pub Inside : ℕ → List Iovec → Type 0
Inside left [] = left ≡ 0
Inside left (v ∷ vs) = left < v.iov_len

-- What `drain` leaves of a vector `vs`, a queue `s` and a heap `h` after a write of `bytes` bytes.
pub record Drained (h : Heap) (vs : List Iovec) (s : SendQueue) (bytes left : ℕ) (h' : Heap)
    (ws : List Iovec) (t : SendQueue) : Type 0 where
  pub count : t.svc ≡ length ws
  pub holds : Holds ws t
  pub order : InOrder h' ws t.pq
  pub inside : Inside left ws
  pub array : t.svbuf ≡ s.svbuf
  pub split : pending h vs s.pq ≡ take bytes (window_bytes h vs) ++ drop left (pending h' ws t.pq)

-- The head of the queue is released, and the rest stays in order.
pub discard-InOrder :
    (p : ℕ) (q : List ℕ) (v : Iovec) (vs : List Iovec) (h : Heap)
    → InOrder h (v ∷ vs) (p ∷ q)
    → (h' : Heap) × (pqh_discard (p ∷ q) h ≡ some (q, h'))
      × InOrder h' vs q
      × (window_bytes h' vs ≡ window_bytes h vs)
      × (pending h' vs q ≡ pending h vs q)
unfolding pqh_discard
discard-InOrder p q v vs h o =
    let (h', e, a, n) = pkt_unref_lem p h o.live.0 in
    let w = window_bytes-agree p h h' a vs q o.once.0 o.lined.1 in
    (
      h',
      ground (arith, e),
      record { lined = w.2; live = All-Live-agree p h h' a q o.once.0 o.live.1; once = o.once.1 },
      w.0,
      w.1,
    )

drain_stop :
    (n bytes : ℕ) (s : SendQueue) (v : Iovec) (h : Heap)
    → get_elem? s.svbuf s.sv ≡ some v
    → bytes < v.iov_len
    → drain (suc n) bytes s h ≡ some ((bytes, record s { svc = suc n }), h)
unfolding drain
drain_stop n bytes s v h g lt = ground arith

drain_step :
    (n bytes : ℕ) (s : SendQueue) (v : Iovec) (h : Heap) (q : List ℕ) (h' : Heap)
    → get_elem? s.svbuf s.sv ≡ some v
    → v.iov_len ≤ bytes
    → pqh_discard s.pq h ≡ some (q, h')
    → drain (suc n) bytes s h ≡ drain n (bytes - v.iov_len) (record s { pq = q; sv = s.sv + 1 }) h'
unfolding drain
drain_step n bytes s v h q h' g le e = ground arith

-- A write of some of the vector's bytes ends inside the first entry that is left, or exactly at the
-- end of the vector, and the loop never touches a freed packet.
pub drain_lem :
    (vs : List Iovec) (q : List ℕ) (s : SendQueue) (bytes : ℕ) (h : Heap)
    → s.pq ≡ q
    → Holds vs s
    → InOrder h vs q
    → bytes ≤ length (window_bytes h vs)
    → (left : ℕ) × (t : SendQueue) × (h' : Heap) × (ws : List Iovec) × (drain (length vs) bytes s h
        ≡ some ((left, t), h'))
      × Drained h vs s bytes left h' ws t
unfolding drain
drain_lem [] q s zero h e w o b = (
  0,
  record s { svc = 0 },
  h,
  [],
  refl,
  record {
    count = refl;
    holds = record { entries = refl; fits = w.fits };
    order = record { lined = tt; live = rw e o.live; once = rw e o.once };
    inside = refl;
    array = refl;
    split = refl;
  },
)
drain_lem [] q s (suc bytes) h e w o b = absurd (omega arith)
drain_lem (v ∷ vs) [] s bytes h e w o b = absurd o.lined
drain_lem (v ∷ vs) (p ∷ q) s bytes h e w o b = elim (Bool-cases (leb v.iov_len bytes)) [
  | inl all ↦
      let le : v.iov_len ≤ bytes = ground arith in
      let (h1, e1, o1, wb, pd) = discard-InOrder p q v vs h o in
      let (left, t, h2, ws, run, d) =
        drain_lem vs q (record s { pq = q; sv = s.sv + 1 }) (bytes - v.iov_len) h1 refl
          (record { entries = first.1; fits = omega (arith, w.fits) }) o1
          (omega (arith, b, long, sizes, ap length wb)) in
      (
        left,
        t,
        h2,
        ws,
        drain_step (length vs) bytes s v h q h1 first.0 le (ap (λ z. pqh_discard z h) e ∙ e1) ∙ run,
        record {
          count = d.count;
          holds = d.holds;
          order = d.order;
          inside = d.inside;
          array = d.array;
          split =
              ap (pending h (v ∷ vs)) e
              ∙ ap (λ z. rest_of h v ++ z) (sym pd ∙ d.split)
              ∙ sym (append_assoc (rest_of h v) (take (bytes - v.iov_len) (window_bytes h1 vs)) _)
              ∙ ap
                  (λ z.
                    (rest_of h v ++ take (bytes - v.iov_len) z) ++ drop left (pending h2 ws t.pq))
                  wb
              ∙ ap (λ z. z ++ drop left (pending h2 ws t.pq))
                  (sym (
                    take-append_long bytes (bytes - v.iov_len) (rest_of h v) (window_bytes h vs)
                      (omega (arith, long, le))));
        },
      )
  | inr part ↦
      let lt : bytes < v.iov_len = ground arith in
      (
        bytes,
        record s { svc = suc (length vs) },
        h,
        v ∷ vs,
        drain_stop (length vs) bytes s v h first.0 lt,
        record {
          count = refl;
          holds = record { entries = w.entries; fits = w.fits };
          order = record { lined = rw e o.lined; live = rw e o.live; once = rw e o.once };
          inside = lt;
          array = refl;
          split =
              ap (pending h (v ∷ vs)) e
              ∙ sym (cut lt)
              ∙ sym (
                  ap
                    (λ z. take bytes (window_bytes h (v ∷ vs)) ++ drop bytes (pending h (v ∷ vs) z))
                    e);
        },
      )
]
  where
    first : (get_elem? s.svbuf s.sv ≡ some v) × (take (length vs) (drop (s.sv + 1) s.svbuf) ≡ vs)
    first = get_elem?-drop s.svbuf s.sv (length vs) v vs w.entries

    long : length (rest_of h v) ≡ v.iov_len
    long = length-rest_of h v p o.lined.0

    sizes : length (window_bytes h (v ∷ vs)) ≡ length (rest_of h v) + length (window_bytes h vs)
    sizes = length-append (rest_of h v) (window_bytes h vs)

    cut :
        bytes < v.iov_len
        → take bytes (window_bytes h (v ∷ vs)) ++ drop bytes (pending h (v ∷ vs) (p ∷ q))
          ≡ pending h (v ∷ vs) (p ∷ q)
    cut lt =
        ap₂ ◌++◌
          (take-append-short bytes (rest_of h v) (window_bytes h vs) (omega (arith, long, lt)))
          (drop-append-short bytes (rest_of h v) (pending h vs q) (omega (arith, long, lt)))
        ∙ sym (append_assoc (take bytes (rest_of h v)) (drop bytes (rest_of h v)) (pending h vs q))
        ∙ ap (λ z. z ++ pending h vs q) (take-append-drop bytes (rest_of h v))
