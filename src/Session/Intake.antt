-- ===== src/Session/Intake.antt =====
-- The step of a callback that reads: what the receive queue takes in is apart from all else.
use mathlib.Core.Path.{subst}
use mathlib.Core.Option.{some-injective}
use rfx.Prelude.{
  ℕ, ◌<◌, ◌≡◌, sym, ap, ◌∙◌, ◌≢◌, Option, none, some, List, [], ◌∷◌, arith, All, All-weaken,
}
use rfx.Packet.{Heap}
use rfx.SendQueue.{SendQueue}
use rfx.RecvQueue.{RecvQueue, Received, Arrival, recv}
use rfx.RecvQueue.Invariant.{IsValid, Reading}
use rfx.RecvQueue.Growth.{OptAll, Fresh, Grew, recv-Grew}
use rfx.RecvQueue.Framing.{Framed}
use rfx.SendQueue.Sending.{owed, IsReady}
use rfx.Pipe.{Pipe}
use rfx.Session.Tidy.{
  Off, Unread, Loaded, Tidy, OptAll-weaken, no_packets, IsReady-cells, IsValid-cells,
}
use rfx.Session.Turns.{Untouched}

all_of : (P : ℕ → Type 0) → ((q : ℕ) → P q) → (qs : List ℕ) → All P qs
all_of P f [] = tt
all_of P f (q ∷ qs) = (f q, all_of P f qs)

-- A packet that is being read is none of a send queue it is off.
unread_of : (s : SendQueue) (o : Option ℕ) → OptAll (Off s) o → All (λ q. o ≢ some q) s.pq
unread_of s none a = all_of (λ q. none ≢ some q) (λ q e. absurd (cc e)) s.pq
unread_of s (some p) a =
    All-weaken (λ z. z ≢ p) (λ q. some p ≢ some q) (λ z n e. n (sym (some-injective _ _ e))) s.pq a

module _ (h h' : Heap) (s s' : RecvQueue) (g : Grew h s h' s') where
  old_cells :
      (qs : List ℕ)
      → All (λ q. q < h.next) qs
      → All (λ q. s.rd ≢ some q) qs
      → All (λ q. h'.cell q ≡ h.cell q) qs
  old_cells [] a b = tt
  old_cells (q ∷ qs) a b = (g.cells q a.0 b.0, old_cells qs a.1 b.1)

  -- The packet that the other queue is reading is the same object.
  other_cell :
      (o : Option ℕ)
      → OptAll (λ q. q < h.next) o
      → OptAll (λ p. OptAll (λ q. q ≢ p) o) s.rd
      → OptAll (λ q. h'.cell q ≡ h.cell q) o
  other_cell none a b = tt
  other_cell (some q) a b = g.cells q a (apart s.rd b)
    where
      apart : (u : Option ℕ) → OptAll (λ p. q ≢ p) u → u ≢ some q
      apart none b e = absurd (cc e)
      apart (some p) b e = b (sym (some-injective _ _ e))

Reading-old :
    (dir : ℕ) (h : Heap) (o : Option ℕ) (q : List ℕ) (pos : ℕ)
    → Reading dir h o q pos
    → OptAll (λ p. p < h.next) o
Reading-old dir h none q pos r = tt
Reading-old dir h (some p) q pos (k, c, w, a, b, old, n) = old

-- New packets are off every send queue, and unread.
fresh_Off : (h : Heap) (s : SendQueue) → All (λ q. q < h.next) s.pq → Fresh h (Off s)
fresh_Off h s a q le =
    All-weaken (λ z. z < h.next) (λ z. z ≢ q) (λ z lt e. absurd (omega (arith, lt, le, e))) s.pq a

fresh_Unread : (h : Heap) (s : RecvQueue) → OptAll (λ q. q < h.next) s.rd → Fresh h (Unread s)
fresh_Unread h s a q le =
    OptAll-weaken (λ z. z < h.next) (λ z. z ≢ q) (λ z lt e. absurd (omega (arith, lt, le, e))) s.rd
      a

pub recv-Loaded :
    (da db : ℕ) (calls : List Arrival) (peer used : List ℕ) (a a' b : Pipe) (r : Received)
    (h h' : Heap)
    → Tidy da db h a b
    → recv calls peer a.rcvq h ≡ some (r, h')
    → Framed da calls peer h a.rcvq r h' used
    → a'.rcvq ≡ r.queue
    → a'.sndq ≡ a.sndq
    → Loaded da db h' a' b × (owed h' a'.sndq ≡ owed h a.sndq) × Untouched h b h'
recv-Loaded da db calls peer used a a' b r h h' t e f input output =
    let l = t.loaded in
    let g : Grew h a.rcvq h' a'.rcvq =
      subst (Grew h a.rcvq h') (sym input) (recv-Grew calls peer h h' a.rcvq r e) in
    let le = g.next in
    let older : (q : ℕ) → q < h.next → q < h'.next = λ q lt. omega (arith, lt, le) in
    let far_rd = Reading-old db h (b.rcvq).rd (b.rcvq).pq (b.rcvq).rd_pos l.far_in.reading in
    let (ai, ad) =
      IsReady-cells h h' a.sndq
        (old_cells h h' a.rcvq a'.rcvq g (a.sndq).pq l.own_old
          (unread_of a.sndq (a.rcvq).rd l.own_rd_own))
        l.own in
    let (bi, bd) =
      IsReady-cells h h' b.sndq
        (old_cells h h' a.rcvq a'.rcvq g (b.sndq).pq l.far_old
          (unread_of b.sndq (a.rcvq).rd l.own_rd_far))
        l.far in
    let (bv, be) =
      IsValid-cells db h h' b.rcvq l.far_in l.far_empty le
        (other_cell h h' a.rcvq a'.rcvq g (b.rcvq).rd far_rd l.rds) in
    let off_a = fresh_Off h a.sndq l.own_old in
    let off_b = fresh_Off h b.sndq l.far_old in
    let unread = fresh_Unread h b.rcvq far_rd in
    (
      record {
        own = subst (λ s. IsReady h' s) (sym output) ai;
        far = bi;
        own_in = subst (IsValid da h') (sym input) f.valid;
        far_in = bv;
        far_empty = l.far_empty;
        own_old =
            subst (λ s. All (λ q. q < h'.next) s.pq) (sym output)
              (All-weaken _ _ older (a.sndq).pq l.own_old);
        far_old = All-weaken _ _ older (b.sndq).pq l.far_old;
        apart = subst (λ s. All (Off s) (b.sndq).pq) (sym output) l.apart;
        own_rd_own =
            subst (λ s. OptAll (Off s) (a'.rcvq).rd) (sym output)
              (g.reading (Off a.sndq) l.own_rd_own off_a);
        far_rd_own = subst (λ s. OptAll (Off s) (b.rcvq).rd) (sym output) l.far_rd_own;
        own_rd_far = g.reading (Off b.sndq) l.own_rd_far off_b;
        far_rd_far = l.far_rd_far;
        rds = g.reading (Unread b.rcvq) l.rds unread;
        own_pq_own =
            subst (λ s. All (Off s) (a'.rcvq).pq) (sym output)
              (g.queue (Off a.sndq) (no_packets _ (a.rcvq).pq t.own_empty) l.own_rd_own off_a);
        own_pq_far = g.queue (Off b.sndq) (no_packets _ (a.rcvq).pq t.own_empty) l.own_rd_far off_b;
        own_pq_rd = g.queue (Unread b.rcvq) (no_packets _ (a.rcvq).pq t.own_empty) l.rds unread;
      },
      ap (owed h') output ∙ ad,
      record { debt = bd; part = be },
    )
