-- ===== src/SendQueue/Shed.antt =====
-- What `sendq::send` leaves alone: it changes the packets of its own queue only, and queues no other.
use mathlib.Core.Path.{subst, subst₂}
use rfx.Prelude.{
  ℕ, zero, suc, ◌+◌, ◌-◌, ◌≡◌, refl, sym, ap, ◌∙◌, ◌≢◌, ◌⊎◌, some, List, [], ◌∷◌, ◌==◌, ltb, leb,
  length, get_elem?, All, Bool-cases, Option-cases, inl, inr,
}
use Prim.Native.Nat.{min}
use rfx.Packet.{Heap, load, pkt_unref}
use rfx.Packet.Frames.{bind_inv, heap_of, value_of, Touched, load_inv, pkt_unref_inv}
use rfx.PacketQueue.{pqh_discard, whole, Iovec}
use rfx.SendQueue.{
  SendQueue, Outcome, Sent, fill_from, refill, put_iov, drain, advance, after_write, bytes_of,
  send_loop, send, wrivcnt, eintr, eagain, other, Errno, gather, window,
}

-- From one queue and heap to the next.
pub record Shed (h : Heap) (s : SendQueue) (h' : Heap) (s' : SendQueue) : Type 1 where
  pub next : h'.next ≡ h.next
  pub cells : (q : ℕ) → All (λ x. x ≢ q) s.pq → h'.cell q ≡ h.cell q
  pub queue : (P : ℕ → Type 0) → All P s.pq → All P s'.pq

Shed-trans :
    (h h1 h2 : Heap) (s s1 s2 : SendQueue) → Shed h s h1 s1 → Shed h1 s1 h2 s2 → Shed h s h2 s2
Shed-trans h h1 h2 s s1 s2 a b = record {
  next = b.next ∙ a.next;
  cells = λ q n. b.cells q (a.queue (λ x. x ≢ q) n) ∙ a.cells q n;
  queue = λ P all. b.queue P (a.queue P all);
}

Shed-same : (h h' : Heap) (s s' : SendQueue) → h' ≡ h → s'.pq ≡ s.pq → Shed h s h' s'
Shed-same h h' s s' e f = record {
  next = ap (λ x. x.next) e;
  cells = λ q n. ap (λ x. x.cell q) e;
  queue = λ P all. subst (All P) (sym f) all;
}

put_iov_inv :
    (s : SendQueue) (i : ℕ) (v : Iovec) (h h' : Heap) {s' : SendQueue}
    → put_iov s i v h ≡ some (s', h')
    → (h' ≡ h) × (s'.pq ≡ s.pq)
put_iov_inv s i v h h' e = elim (Bool-cases (ltb (s.sv + i) (length s.svbuf))) [
  | inl z ↦ let e' = rw (z) at e in (sym (heap_of e'), sym (ap (λ x. x.pq) (value_of e')))
  | inr z ↦ absurd (cc (rw (z) at e))
]

fill_from_inv :
    (q : List ℕ) (s : SendQueue) (h h' : Heap) {s' : SendQueue}
    → fill_from q s h ≡ some (s', h')
    → (h' ≡ h) × (s'.pq ≡ s.pq)
unfolding fill_from
fill_from_inv [] s h h' e = (sym (heap_of e), sym (ap (λ x. x.pq) (value_of e)))
fill_from_inv (p ∷ q) s h h' e = elim (Bool-cases (ltb s.svc wrivcnt)) [
  | inl z ↦
      let (k, h1, l, e1) = bind_inv (load p) _ h (rw (z) at e) in
      let (s2, h2, w, e2) = bind_inv (put_iov s s.svc (whole p k)) _ h1 e1 in
      let (a, b) = put_iov_inv s s.svc (whole p k) h1 h2 w in
      let (c, d) = fill_from_inv q _ h2 h' e2 in (c ∙ a ∙ (load_inv p h h1 l).1, d ∙ b)
  | inr z ↦ let e' = rw (z) at e in (sym (heap_of e'), sym (ap (λ x. x.pq) (value_of e')))
]

refill-Shed : (h h' : Heap) (s s' : SendQueue) → refill s h ≡ some (s', h') → Shed h s h' s'
unfolding refill
refill-Shed h h' s s' e = elim (Bool-cases (s.svc == 0)) [
  | inl z ↦
      let (a, b) = fill_from_inv s.pq (record s { sv = 0 }) h h' (rw (z) at e) in
      Shed-same h h' s s' a b
  | inr z ↦
      let e' = rw (z) at e in
      Shed-same h h' s s' (sym (heap_of e')) (sym (ap (λ x. x.pq) (value_of e')))
]

advance-Shed :
    (bytes : ℕ) (h h' : Heap) (s s' : SendQueue)
    → advance bytes s h ≡ some (s', h')
    → Shed h s h' s'
unfolding advance
advance-Shed bytes h h' s s' e = elim (Bool-cases (bytes == 0)) [
  | inl z ↦
      let e' = rw (z) at e in
      Shed-same h h' s s' (sym (heap_of e')) (sym (ap (λ x. x.pq) (value_of e')))
  | inr z ↦ elim (Option-cases (get_elem? s.svbuf s.sv)) [
    | inl n ↦ absurd (cc (rw (z, n) at e))
    | inr (v, c) ↦ let (a, b) = put_iov_inv s 0 _ h h' (rw (z, c) at e) in Shed-same h h' s s' a b
  ]
]

-- The head of a queue goes.
discard-Shed :
    (l q : List ℕ) (h h' : Heap) (s s' : SendQueue)
    → s.pq ≡ l
    → s'.pq ≡ q
    → pqh_discard l h ≡ some (q, h')
    → Shed h s h' s'
unfolding pqh_discard
discard-Shed [] q h h' s s' e w r =
    Shed-same h h' s s' (sym (heap_of r)) (w ∙ sym (value_of r) ∙ sym e)
discard-Shed (p ∷ l) q h h' s s' e w r =
    let (u, h1, d, r') = bind_inv (pkt_unref p) _ h r in
    let t = subst (Touched p h) (heap_of r') (pkt_unref_inv p h h1 d) in
    record {
      next = t.next;
      cells = λ x n. t.others x (λ i. (subst (All (λ y. y ≢ x)) e n).0 (sym i));
      queue = λ P a. subst (All P) (value_of r' ∙ sym w) (subst (All P) e a).1;
    }

drain-Shed :
    (n bytes left : ℕ) (h h' : Heap) (s s' : SendQueue)
    → drain n bytes s h ≡ some ((left, s'), h')
    → Shed h s h' s'
unfolding drain
drain-Shed zero bytes left h h' s s' e =
    Shed-same h h' s s' (sym (heap_of e)) (sym (ap (λ x. (x.1).pq) (value_of e)))
drain-Shed (suc n) bytes left h h' s s' e = elim (Option-cases (get_elem? s.svbuf s.sv)) [
  | inl z ↦ absurd (cc (rw (drain, z) at e))
  | inr (v, c) ↦ elim (Bool-cases (leb v.iov_len bytes)) [
    | inl z ↦
        let (q, h1, d, e1) = bind_inv (pqh_discard s.pq) _ h (rw (drain, c, z) at e) in
        Shed-trans h h1 h' s _ s'
          (discard-Shed s.pq q h h1 s (record s { pq = q; sv = s.sv + 1 }) refl refl d)
          (drain-Shed n (bytes - v.iov_len) left h1 h' _ s' e1)
    | inr z ↦
        let e' = rw (drain, c, z) at e in
        Shed-same h h' s s' (sym (heap_of e')) (sym (ap (λ x. (x.1).pq) (value_of e')))
  ]
]

after_write-Shed :
    (bytes : ℕ) (h h' : Heap) (s s' : SendQueue)
    → after_write bytes s h ≡ some (s', h')
    → Shed h s h' s'
unfolding after_write
after_write-Shed bytes h h' s s' e =
    let ((left, s1), h1, d, e1) = bind_inv (drain s.svc bytes s) _ h e in
    let (s2, h2, a, e2) = bind_inv (advance left s1) _ h1 e1 in
    Shed-trans h h1 h' s s1 s' (drain-Shed s.svc bytes left h h1 s s1 d)
      (Shed-trans h1 h2 h' s1 s2 s' (advance-Shed left h1 h2 s1 s2 a) (refill-Shed h2 h' s2 s' e2))

bytes_of_inv : (s : SendQueue) (h h' : Heap) {b : List ℕ} → bytes_of s h ≡ some (b, h') → h' ≡ h
bytes_of_inv s h h' e = elim (Option-cases (gather h (window s))) [
  | inl z ↦ absurd (cc (rw (bytes_of, z) at e))
  | inr (b, c) ↦ sym (heap_of (rw (bytes_of, c) at e))
]

errno_cases : (c : Errno) → (c ≡ eintr) ⊎ ((c ≡ eagain) ⊎ (c ≡ other))
errno_cases eintr = inl refl
errno_cases eagain = inr (inl refl)
errno_cases other = inr (inr refl)

send_loop-Shed :
    (os : List Outcome) (h h' : Heap) (s : SendQueue) (r : Sent)
    → send_loop os s h ≡ some (r, h')
    → Shed h s h' r.queue
unfolding send_loop
send_loop-Shed [] h h' s r e =
    Shed-same h h' s r.queue (sym (heap_of e)) (sym (ap (λ x. (x.queue).pq) (value_of e)))
send_loop-Shed (o ∷ os) h h' s r e = elim (Bool-cases (s.svc == 0)) [
  | inl z ↦
      let e' = rw (z) at e in
      Shed-same h h' s r.queue (sym (heap_of e')) (sym (ap (λ x. (x.queue).pq) (value_of e')))
  | inr z ↦
      let (offered, h1, b, e1) = bind_inv (bytes_of s) _ h (rw (z) at e) in
      let same = bytes_of_inv s h h1 b in
      elim (Bool-cases (min o.room (length offered) == 0)) [
        | inl y ↦ elim (errno_cases o.errno) [
          | inl c ↦
              subst (λ x. Shed x s h' r.queue) same (send_loop-Shed os h1 h' s r (rw (y, c) at e1))
          | inr (inl c) ↦
              let e2 = rw (y, c) at e1 in
              Shed-same h h' s r.queue (sym (heap_of e2) ∙ same)
                (sym (ap (λ x. (x.queue).pq) (value_of e2)))
          | inr (inr c) ↦
              let e2 = rw (y, c) at e1 in
              Shed-same h h' s r.queue (sym (heap_of e2) ∙ same)
                (sym (ap (λ x. (x.queue).pq) (value_of e2)))
        ]
        | inr y ↦
            let (s2, h2, w, e2) = bind_inv (after_write _ s) _ h1 (rw (y) at e1) in
            let (r', h3, l, e3) = bind_inv (send_loop os s2) _ h2 e2 in
            let loop = send_loop-Shed os h2 h3 s2 r' l in
            subst₂ (λ x q. Shed h s x q.queue) (heap_of e3) (value_of e3)
              (Shed-trans h h2 h3 s s2 r'.queue
                (subst (λ x. Shed x s h2 s2) same (after_write-Shed _ h1 h2 s s2 w)) loop)
      ]
]

pub send-Shed :
    (os : List Outcome) (h h' : Heap) (s : SendQueue) (r : Sent)
    → send os s h ≡ some (r, h')
    → Shed h s h' r.queue
unfolding send
send-Shed os h h' s r e =
    let (s1, h1, f, e1) = bind_inv (refill s) _ h e in
    Shed-trans h h1 h' s s1 r.queue (refill-Shed h h1 s s1 f) (send_loop-Shed os h1 h' s1 r e1)
