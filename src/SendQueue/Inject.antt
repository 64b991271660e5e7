-- ===== src/SendQueue/Inject.antt =====
-- `proxy_pipe::push_out` and `sendq::pull`: packets that enter a send queue.
use rfx.Prelude.{
  ℕ, ◌+◌, ◌≤◌, ◌≡◌, refl, sym, ap, ap₂, ◌∙◌, ◌≢◌, some, List, [], ◌∷◌, ◌++◌, append_assoc,
  append-nil, arith, length, take, drop, All, All-append, Distinct-snoc, length-append,
  take-append_length, length-drop, write_at_fits,
}
use rfx.Packet.{Heap}
use rfx.Packet.Lifetime.{Live, stream, bytes_at, cell_bytes, stream-append}
use rfx.PacketQueue.{Iovec, pqh_push}
use rfx.PacketQueue.Pulling.{whole_entries}
use rfx.SendQueue.{SendQueue, window, wrivcnt, push_out, compact}
use rfx.SendQueue.Stream.{Lined, pending, rest_of, bytes_at-pos}
use rfx.SendQueue.Sending.{IsReady, owed, length-window}

Lined-snoc : (h : Heap) (vs : List Iovec) (q r : List ℕ) → Lined h vs q → Lined h vs (q ++ r)
Lined-snoc h [] q r l = tt
Lined-snoc h (v ∷ vs) [] r l = absurd l
Lined-snoc h (v ∷ vs) (p ∷ q) r l = (l.0, Lined-snoc h vs q r l.1)

pending-snoc :
    (h : Heap) (vs : List Iovec) (q r : List ℕ)
    → Lined h vs q
    → pending h vs (q ++ r) ≡ pending h vs q ++ stream h r
pending-snoc h [] q r l = stream-append h q r
pending-snoc h (v ∷ vs) [] r l = absurd l
pending-snoc h (v ∷ vs) (p ∷ q) r l =
    ap (λ z. rest_of h v ++ z) (pending-snoc h vs q r l.1)
    ∙ sym (append_assoc (rest_of h v) (pending h vs q) (stream h r))

-- `push_out` of a packet in use that a send queue in order does not hold leaves the queue in
-- order, and the bytes of the packet owed behind what it owed.
pub push_out_lem :
    (s : SendQueue) (p : ℕ) (h : Heap)
    → IsReady h s
    → Live h p
    → All (λ q. q ≢ p) s.pq
    → IsReady h (push_out s p) × (owed h (push_out s p) ≡ owed h s ++ bytes_at h p)
unfolding push_out pqh_push
push_out_lem s p h r l ne = (
  record {
    size = r.size;
    fits = r.fits;
    front = r.front;
    order = record {
      lined = Lined-snoc h (window s) s.pq (p ∷ []) r.order.lined;
      live = All-append (Live h) s.pq (p ∷ []) r.order.live (l, tt);
      once = Distinct-snoc s.pq p r.order.once ne;
    };
  },
  pending-snoc h (window s) s.pq (p ∷ []) r.order.lined
      ∙ ap (λ z. owed h s ++ z) (append-nil (bytes_at h p)),
)

-- Entries for whole packets, put behind a vector that has one for every packet before.
pub Lined-pulled :
    (h : Heap) (vs : List Iovec) (q m : List ℕ)
    → Lined h vs q
    → length vs ≡ length q
    → All (Live h) m
    → Lined h (vs ++ whole_entries h m) (q ++ m)
      × (pending h (vs ++ whole_entries h m) (q ++ m) ≡ pending h vs q ++ stream h m)
Lined-pulled h [] [] [] l e a = (tt, refl)
Lined-pulled h [] [] (p ∷ m) l e a =
    let (x, y) = Lined-pulled h [] [] m tt refl a.1 in
    (((refl, omega arith, bytes_at-pos h p a.0), x), ap (λ z. bytes_at h p ++ z) y)
Lined-pulled h [] (x ∷ q) m l e a = absurd (omega arith)
Lined-pulled h (v ∷ vs) [] m l e a = absurd l
Lined-pulled h (v ∷ vs) (x ∷ q) m l e a =
    let (i, j) = Lined-pulled h vs q m l.1 (omega arith) a in
    (
      (l.0, i),
      ap (λ z. rest_of h v ++ z) j ∙ sym (append_assoc (rest_of h v) (pending h vs q) (stream h m)),
    )

-- Two heaps that agree on a queue.
pub Agree-Lined :
    (h h' : Heap) (vs : List Iovec) (q : List ℕ)
    → All (λ p. h'.cell p ≡ h.cell p) q
    → Lined h vs q
    → Lined h' vs q × (pending h' vs q ≡ pending h vs q)
Agree-Lined h h' [] [] a l = (tt, refl)
Agree-Lined h h' [] (p ∷ q) a l =
    (tt, ap₂ ◌++◌ (ap cell_bytes a.0) (Agree-Lined h h' [] q a.1 tt).1)
Agree-Lined h h' (v ∷ vs) [] a l = absurd l
Agree-Lined h h' (v ∷ vs) (p ∷ q) a ((b, e, pos), l) =
    let (i, j) = Agree-Lined h h' vs q a.1 l in
    let same : bytes_at h' p ≡ bytes_at h p = ap cell_bytes a.0 in
    (
      ((b, e ∙ sym (ap length same), pos), i),
      ap₂ ◌++◌
          (ap (λ z. drop v.off (bytes_at h' z)) b
            ∙ ap (drop v.off) same
            ∙ sym (ap (λ z. drop v.off (bytes_at h z)) b))
          j,
    )

pub Agree-Live :
    (h h' : Heap) (q : List ℕ)
    → All (λ p. h'.cell p ≡ h.cell p) q
    → All (Live h) q
    → All (Live h') q
Agree-Live h h' [] a l = tt
Agree-Live h h' (p ∷ q) a ((k, c, s), l) = ((k, a.0 ∙ c, s), Agree-Live h h' q a.1 l)

pub Agree-entries :
    (h h' : Heap) (q : List ℕ)
    → All (λ p. h'.cell p ≡ h.cell p) q
    → (whole_entries h' q ≡ whole_entries h q) × (stream h' q ≡ stream h q)
Agree-entries h h' [] a = (refl, refl)
Agree-entries h h' (p ∷ q) a =
    let (i, j) = Agree-entries h h' q a.1 in
    let same : bytes_at h' p ≡ bytes_at h p = ap cell_bytes a.0 in
    (
      ap₂ (λ (b : List ℕ) r. record { base = p; off = 0; iov_len = length b } ∷ r) same i,
      ap₂ ◌++◌ same j,
    )

-- `compact` moves the entries in use to the front.
pub compact_lem :
    (s : SendQueue) (h : Heap)
    → length s.svbuf ≡ wrivcnt
    → s.sv + s.svc ≤ wrivcnt
    → (b : List Iovec) × (compact s h ≡ some (record s { svbuf = b; sv = 0 }, h))
      × (take s.svc b ≡ window s)
      × (length b ≡ wrivcnt)
compact_lem s h l le =
    let n = length-window s (omega (arith, l, le)) in
    let b = window s ++ drop (0 + length (window s)) s.svbuf in
    (
      b,
      ground (arith, write_at_fits s.svbuf 0 (window s) (omega (arith, n, l, le))),
      ap (λ k. take k b) (sym n) ∙ take-append_length (window s) _,
      omega (
        arith,
        length-append (window s) (drop (0 + length (window s)) s.svbuf),
        n,
        l,
        le,
        length-drop (0 + length (window s)) s.svbuf,
      ),
    )
