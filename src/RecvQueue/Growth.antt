-- ===== src/RecvQueue/Growth.antt =====
-- What `recvq::recv` leaves alone: it writes to the packet being read and to new ones only, and
-- queues no other.
use rfx.Prelude.{
  ℕ, zero, suc, ◌+◌, ◌<◌, ◌≤◌, ◌≡◌, refl, sym, ap, ◌∙◌, ◌≢◌, Option, none, some, List, [], ◌∷◌,
  arith, ◌==◌, leb, length, take, drop, write_at, All, All-append, Bool-cases, Option-cases, inl,
  inr,
}
use Prim.Native.Nat.{min}
use mathlib.Core.Path.{subst, subst₂}
use mathlib.Core.Option.{some-injective}
use rfx.Packet.{Heap, load, pkt_new}
use rfx.Packet.Frames.{bind_inv, heap_of, value_of, Touched, load_inv, store_inv, pkt_new_inv}
use rfx.PacketQueue.{pqh_push}
use rfx.RecvQueue.{
  RecvQueue, first_len, store_bytes, store_rd_buf, store_first, finish, settle, start_packet,
  extract, complete, take_in, recv, Arrival, available, failed, Received, rd_size, buf_size,
}
use rfx.SendQueue.{eintr, eagain, other}

abbrev pub OptAll : (ℕ → Type 0) → Option ℕ → Type 0
OptAll P none = Unit {0}
OptAll P (some p) = P p

-- Every address that is not in use yet.
abbrev pub Fresh : Heap → (ℕ → Type 0) → Type 0
Fresh h P = (q : ℕ) → h.next ≤ q → P q

-- From one queue and heap to the next.
pub record Grew (h : Heap) (s : RecvQueue) (h' : Heap) (s' : RecvQueue) : Type 1 where
  pub next : h.next ≤ h'.next
  pub cells : (q : ℕ) → q < h.next → s.rd ≢ some q → h'.cell q ≡ h.cell q
  pub reading : (P : ℕ → Type 0) → OptAll P s.rd → Fresh h P → OptAll P s'.rd
  pub queue : (P : ℕ → Type 0) → All P s.pq → OptAll P s.rd → Fresh h P → All P s'.pq

not-some : (o : Option ℕ) (q : ℕ) → OptAll (λ x. x ≢ q) o → o ≢ some q
not-some none q a e = absurd (cc e)
not-some (some p) q a e = a (some-injective _ _ e)

all-not : (o : Option ℕ) (q : ℕ) → o ≢ some q → OptAll (λ x. x ≢ q) o
all-not none q n = tt
all-not (some p) q n = λ e. n (ap some e)

pub Grew-refl : (h : Heap) (s : RecvQueue) → Grew h s h s
Grew-refl h s = record {
  next = omega arith;
  cells = λ q l n. refl;
  reading = λ P r f. r;
  queue = λ P a r f. a;
}

pub Grew-trans :
    (h h1 h2 : Heap) (s s1 s2 : RecvQueue) → Grew h s h1 s1 → Grew h1 s1 h2 s2 → Grew h s h2 s2
Grew-trans h h1 h2 s s1 s2 g k =
    let n = g.next in
    let m = k.next in
    let fresh =
      λ (P : ℕ → Type 0) (f : Fresh h P) (q : ℕ) (l : h1.next ≤ q). f q (omega (arith, n, l)) in
    record {
      next = omega (arith, n, m);
      cells = λ q l a.
          k.cells q (omega (arith, n, l)) (
            not-some s1.rd q (
              g.reading (λ x. x ≢ q) (all-not s.rd q a) (λ x i e. absurd (omega (arith, i, l, e)))))
          ∙ g.cells q l a;
      reading = λ P r f. k.reading P (g.reading P r f) (fresh P f);
      queue = λ P a r f. k.queue P (g.queue P a r f) (g.reading P r f) (fresh P f);
    }

-- A packet that is being read, or new.
abbrev Owned : Heap → RecvQueue → ℕ → Type 1
Owned h s p = (P : ℕ → Type 0) → OptAll P s.rd → Fresh h P → P p

-- A write to an owned packet, with the queues as they were.
Grew-touch :
    (h h1 h2 : Heap) (s s1 s2 : RecvQueue) (p : ℕ)
    → Grew h s h1 s1
    → Owned h s p
    → Touched p h1 h2
    → s2.rd ≡ s1.rd
    → s2.pq ≡ s1.pq
    → Grew h s h2 s2
Grew-touch h h1 h2 s s1 s2 p g o t e f =
    let n = g.next in
    record {
      next = omega (arith, n, t.next);
      cells = λ q l a.
          t.others q (λ i.
            o (λ x. x ≢ q) (all-not s.rd q a) (λ x j w. absurd (omega (arith, j, l, w))) (sym i))
          ∙ g.cells q l a;
      reading = λ P r u. subst (OptAll P) (sym e) (g.reading P r u);
      queue = λ P a r u. subst (All P) (sym f) (g.queue P a r u);
    }

-- The same queue and packet, and the same heap.
Grew-same :
    (h h1 h2 : Heap) (s s1 s2 : RecvQueue)
    → Grew h s h1 s1
    → h2 ≡ h1
    → s2.rd ≡ s1.rd
    → s2.pq ≡ s1.pq
    → Grew h s h2 s2
Grew-same h h1 h2 s s1 s2 g w e f =
    subst (λ x. Grew h s x s2) (sym w)
      (record {
        next = g.next;
        cells = g.cells;
        reading = λ P r u. subst (OptAll P) (sym e) (g.reading P r u);
        queue = λ P a r u. subst (All P) (sym f) (g.queue P a r u);
      })

-- An owned packet is queued, or read on.
Grew-finish :
    (h h1 : Heap) (s s1 : RecvQueue) (p : ℕ)
    → Grew h s h1 s1
    → Owned h s p
    → Grew h s h1 (finish p s1)
unfolding finish pqh_push
Grew-finish h h1 s s1 p g o = record {
  next = g.next;
  cells = g.cells;
  reading = λ P r u. tt;
  queue = λ P a r u. All-append P s1.pq (p ∷ []) (g.queue P a r u) (o P r u, tt);
}

Grew-read :
    (h h1 : Heap) (s s1 : RecvQueue) (p pos : ℕ)
    → Grew h s h1 s1
    → Owned h s p
    → Grew h s h1 (record s1 { rd = some p; rd_pos = pos })
Grew-read h h1 s s1 p pos g o = record {
  next = g.next;
  cells = g.cells;
  reading = λ P r u. o P r u;
  queue = g.queue;
}

first_len_inv : (s : RecvQueue) (h h' : Heap) {n : ℕ} → first_len s h ≡ some (n, h') → h' ≡ h
unfolding first_len
first_len_inv s h h' e = elim (Option-cases s.rd) [
  | inl n ↦ sym (heap_of (rw (first_len, n) at e))
  | inr (p, c) ↦
      let (k, h1, l, e') = bind_inv (load p) _ h (rw (first_len, c) at e) in
      sym (heap_of e') ∙ (load_inv p h h1 l).1
]

store_bytes_inv :
    (p pos : ℕ) (bs : List ℕ) (h h' : Heap)
    → store_bytes p pos bs h ≡ some (tt, h')
    → Touched p h h'
unfolding store_bytes
store_bytes_inv p pos bs h h' e =
    let (k, h1, l, e') = bind_inv (load p) _ h e in
    let same = (load_inv p h h1 l).1 in
    subst (λ x. Touched p x h') same
      (elim (Option-cases (write_at k.data_bytes pos bs)) [
        | inl n ↦ absurd (cc (rw (n) at e'))
        | inr (d, w) ↦ store_inv p (record k { data_bytes = d }) h1 h' (rw (w) at e')
      ])

rd-Owned : (h : Heap) (s : RecvQueue) (p : ℕ) → s.rd ≡ some p → Owned h s p
rd-Owned h s p e = λ P r u. subst (OptAll P) e r

settle-Grew :
    (p pos : ℕ) (h h1 h' : Heap) (s s1 s' : RecvQueue)
    → Grew h s h1 s1
    → Owned h s p
    → settle p pos s1 h1 ≡ some (s', h')
    → Grew h s h' s'
unfolding settle
settle-Grew p pos h h1 h' s s1 s' g o e =
    let (k, h2, l, e') = bind_inv (load p) _ h1 e in
    let same = sym (heap_of e') ∙ (load_inv p h1 h2 l).1 in
    subst₂ (λ x y. Grew h s x y) (sym same) (value_of e')
      (elim (Bool-cases (pos == k.len)) [
        | inl z ↦ rw z (Grew-finish h h1 s s1 p g o)
        | inr z ↦ rw z (Grew-read h h1 s s1 p pos g o)
      ])

start_packet-Grew :
    (bs : List ℕ) (h h' : Heap) (s s' : RecvQueue)
    → start_packet bs s h ≡ some (s', h')
    → Grew h s h' s'
unfolding start_packet
start_packet-Grew bs h h' s s' e =
    let (p, h1, a, e') = bind_inv (pkt_new _ _ s.dir) _ h e in
    let al = pkt_new_inv _ _ s.dir p h h1 a in
    let w = al.place in
    let n = al.next in
    settle-Grew p rd_size h h1 h' s s s'
      (record {
        next = omega (arith, n);
        cells = λ q l x. al.others q (λ i. absurd (omega (arith, l, w, i)));
        reading = λ P r u. r;
        queue = λ P all r u. all;
      })
      (λ P r u. u p (omega (arith, w))) e'

complete-Grew : (h h' : Heap) (s s' : RecvQueue) → complete s h ≡ some (s', h') → Grew h s h' s'
unfolding complete
complete-Grew h h' s s' e = elim (Option-cases s.rd) [
  | inl n ↦ start_packet-Grew s.rd_buf h h' s s' (rw (complete, n) at e)
  | inr (p, c) ↦
      let e' = rw (complete, c) at e in
      subst₂ (λ x y. Grew h s x y) (heap_of e') (value_of e')
        (Grew-finish h h s s p (Grew-refl h s) (rd-Owned h s p c))
]

store_rd_buf_inv :
    (bs : List ℕ) (h h' : Heap) (s s' : RecvQueue)
    → store_rd_buf bs s h ≡ some (s', h')
    → (h' ≡ h) × (s'.rd ≡ s.rd) × (s'.pq ≡ s.pq)
unfolding store_rd_buf
store_rd_buf_inv bs h h' s s' e = elim (Option-cases (write_at s.rd_buf s.rd_pos bs)) [
  | inl n ↦ absurd (cc (rw (store_rd_buf, n) at e))
  | inr (d, w) ↦
      let e' = rw (store_rd_buf, w) at e in
      let v = value_of e' in (sym (heap_of e'), sym (ap (λ x. x.rd) v), sym (ap (λ x. x.pq) v))
]

store_first-Grew :
    (bs : List ℕ) (h h' : Heap) (s s' : RecvQueue)
    → store_first bs s h ≡ some (s', h')
    → Grew h s h' s'
unfolding store_first
store_first-Grew bs h h' s s' e = elim (Option-cases s.rd) [
  | inl n ↦
      let (a, b, c) = store_rd_buf_inv bs h h' s s' (rw (store_first, n) at e) in
      Grew-same h h h' s s s' (Grew-refl h s) a b c
  | inr (p, c) ↦
      let (u, h1, t, e') = bind_inv (store_bytes p s.rd_pos bs) _ h (rw (store_first, c) at e) in
      subst₂ (λ x y. Grew h s x y) (heap_of e') (value_of e')
        (Grew-touch h h h1 s s s p (Grew-refl h s) (rd-Owned h s p c)
          (store_bytes_inv p s.rd_pos bs h h1 t) refl refl)
]

extract-Grew :
    (f : ℕ) (bs : List ℕ) (h h' : Heap) (s s' : RecvQueue)
    → extract f bs s h ≡ some (s', h')
    → Grew h s h' s'
unfolding extract
extract-Grew f [] h h' s s' e =
    subst₂ (λ x y. Grew h s x y) (heap_of e) (value_of e) (Grew-refl h s)
extract-Grew zero (b ∷ bs) h h' s s' e = absurd (cc e)
extract-Grew (suc f) (b ∷ bs) h h' s s' e = elim (Option-cases s.rd) [
  | inr (p, c) ↦
      let (k, h1, l, e1) = bind_inv (load p) _ h (rw (extract, c) at e) in
      let (u, h2, t, e2) = bind_inv (store_bytes p s.rd_pos _) _ h1 e1 in
      let (s3, h3, w, e3) = bind_inv (settle p _ s) _ h2 e2 in
      let same = (load_inv p h h1 l).1 in
      let touched = store_bytes_inv p s.rd_pos _ h1 h2 t in
      Grew-trans h h3 h' s s3 s'
        (settle-Grew p _ h h2 h3 s s s3
          (Grew-touch h h h2 s s s p (Grew-refl h s) (rd-Owned h s p c)
            (subst (λ x. Touched p x h2) same touched) refl refl)
          (rd-Owned h s p c) w)
        (extract-Grew f _ h3 h' s3 s' e3)
  | inl n ↦ elim (Bool-cases (leb rd_size (length (b ∷ bs)))) [
    | inl z ↦
        let (s3, h3, w, e3) = bind_inv (start_packet (b ∷ bs) s) _ h (rw (extract, n, z) at e) in
        Grew-trans h h3 h' s s3 s' (start_packet-Grew (b ∷ bs) h h3 s s3 w)
          (extract-Grew f _ h3 h' s3 s' e3)
    | inr z ↦
        let (s3, h3, w, e3) = bind_inv (store_rd_buf (b ∷ bs) s) _ h (rw (extract, n, z) at e) in
        let (x, y, q) = store_rd_buf_inv (b ∷ bs) h h3 s s3 w in
        let v = value_of e3 in
        Grew-same h h h' s s s' (Grew-refl h s) (sym (heap_of e3) ∙ x) (sym (ap (λ i. i.rd) v) ∙ y)
          (sym (ap (λ i. i.pq) v) ∙ q)
  ]
]

take_in-Grew :
    (bs : List ℕ) (h h' : Heap) (s s' : RecvQueue) → take_in bs s h ≡ some (s', h') → Grew h s h' s'
unfolding take_in
take_in-Grew bs h h' s s' e =
    let (n, h1, l, e1) = bind_inv (first_len s) _ h e in
    let same = first_len_inv s h h1 l in
    let (s2, h2, w, e2) = bind_inv (store_first (take n bs) s) _ h1 e1 in
    let first = subst (λ x. Grew x s h2 s2) same (store_first-Grew (take n bs) h1 h2 s s2 w) in
    elim (Bool-cases (leb n (length bs))) [
      | inl z ↦
          let (s3, h3, c, e3) = bind_inv (complete s2) _ h2 (rw (z) at e2) in
          Grew-trans h h2 h' s s2 s' first (
            Grew-trans h2 h3 h' s2 s3 s' (complete-Grew h2 h3 s2 s3 c)
              (extract-Grew _ _ h3 h' s3 s' e3))
      | inr z ↦
          let e3 = rw (z) at e2 in
          let v = value_of e3 in
          Grew-same h h2 h' s s2 s' first (sym (heap_of e3)) (sym (ap (λ i. i.rd) v))
            (sym (ap (λ i. i.pq) v))
    ]

pub recv-Grew :
    (calls : List Arrival) (peer : List ℕ) (h h' : Heap) (s : RecvQueue) (x : Received)
    → recv calls peer s h ≡ some (x, h')
    → Grew h s h' x.queue
unfolding recv
recv-Grew [] peer h h' s x e =
    subst₂ (λ y z. Grew h s y z.queue) (heap_of e) (value_of e) (Grew-refl h s)
recv-Grew (failed eintr ∷ calls) peer h h' s x e = recv-Grew calls peer h h' s x e
recv-Grew (failed eagain ∷ calls) peer h h' s x e =
    subst₂ (λ y z. Grew h s y z.queue) (heap_of e) (value_of e) (Grew-refl h s)
recv-Grew (failed other ∷ calls) peer h h' s x e =
    subst₂ (λ y z. Grew h s y z.queue) (heap_of e) (value_of e) (Grew-refl h s)
recv-Grew (available n ∷ calls) peer h h' s x e =
    let (room, h1, l, e1) = bind_inv (first_len s) _ h e in
    let same = first_len_inv s h h1 l in
    let bytes = min n (min (length peer) (room + buf_size)) in
    elim (Bool-cases (bytes == 0)) [
      | inl z ↦
          let e2 = rw (z) at e1 in
          subst₂ (λ y z. Grew h s y z.queue) (heap_of e2) (value_of e2)
            (subst (λ y. Grew h s y s) (sym same) (Grew-refl h s))
      | inr z ↦
          let (s2, h2, w, e2) = bind_inv (take_in (take bytes peer) s) _ h1 (rw (z) at e1) in
          Grew-trans h h2 h' s s2 x.queue
            (subst (λ y. Grew y s h2 s2) same (take_in-Grew (take bytes peer) h1 h2 s s2 w))
            (recv-Grew calls (drop bytes peer) h2 h' s2 x e2)
    ]
