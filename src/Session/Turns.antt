-- ===== src/Session/Turns.antt =====
-- The steps of a callback, on two pipes that are in order: a read, the filters, a write.
use mathlib.Core.Path.{subst, subst₂}
use rfx.Prelude.{ℕ, ◌<◌, ◌≡◌, sym, ap, ◌∙◌, ◌≢◌, Option, some, List, arith, All, All-weaken}
use rfx.Packet.{Heap}
use rfx.Packet.Frames.{bind_inv, heap_of, value_of}
use rfx.SendQueue.{Outcome, send}
use rfx.SendQueue.Sending.{owed}
use rfx.SendQueue.Shed.{Shed, send-Shed}
use rfx.RecvQueue.Invariant.{IsValid}
use rfx.RecvQueue.Growth.{OptAll}
use rfx.RecvQueue.Conserve.{partial_of}
use rfx.Pipe.{Pipe, handle_write_event}
use rfx.Pipe.Events.{Written, after_send-input}
use rfx.Session.Tidy.{Off, Unread, Tidy, OptAll-weaken, IsReady-cells, IsValid-cells}

-- The other pipe, after a step in which it took no part.
pub record Untouched (h : Heap) (b : Pipe) (h' : Heap) : Type 0 where
  pub debt : owed h' b.sndq ≡ owed h b.sndq
  pub part : partial_of h' b.rcvq ≡ partial_of h b.rcvq

-- A write by the first pipe.
pub write-Tidy :
    (da db : ℕ) (os : List Outcome) (a a' b : Pipe) (wire : List ℕ) (h h' : Heap)
    → Tidy da db h a b
    → handle_write_event os a h ≡ some ((wire, a'), h')
    → Written h a wire a' h'
    → Tidy da db h' a' b × (partial_of h' a'.rcvq ≡ partial_of h a.rcvq) × Untouched h b h'
unfolding handle_write_event
write-Tidy da db os a a' b wire h h' t e w =
    let l = t.loaded in
    let (r, h1, run, e') = bind_inv (send os a.sndq) _ h e in
    let sent : r.queue ≡ a'.sndq =
      sym (after_send-input r a).2 ∙ ap (λ x. (x.1).sndq) (value_of e') in
    let shed : Shed h a.sndq h' a'.sndq =
      subst₂ (λ x y. Shed h a.sndq x y) (heap_of e') sent (send-Shed os h h1 a.sndq r run) in
    let n = shed.next in
    let less = λ (q : ℕ) (o : Off a.sndq q). shed.queue (λ z. z ≢ q) o in
    let off = λ (o : Option ℕ) (x : OptAll (Off a.sndq) o).
      OptAll-weaken (Off a.sndq) (Off a'.sndq) less o x in
    let same = λ (o : Option ℕ) (x : OptAll (Off a.sndq) o).
      OptAll-weaken (Off a.sndq) (λ p. h'.cell p ≡ h.cell p) shed.cells o x in
    let input = w.same_input in
    let old : (q : ℕ) → q < h.next → q < h'.next = λ q lt. omega (arith, lt, n) in
    let (av, ae) =
      IsValid-cells da h h' a.rcvq l.own_in t.own_empty (omega (arith, n))
        (same (a.rcvq).rd l.own_rd_own) in
    let (bv, be) =
      IsValid-cells db h h' b.rcvq l.far_in l.far_empty (omega (arith, n))
        (same (b.rcvq).rd l.far_rd_own) in
    let (bi, bd) =
      IsReady-cells h h' b.sndq
        (All-weaken (Off a.sndq) (λ p. h'.cell p ≡ h.cell p) shed.cells (b.sndq).pq l.apart)
        l.far in
    (
      record {
        loaded = record {
          own = w.ready;
          far = bi;
          own_in = subst (IsValid da h') (sym input) av;
          far_in = bv;
          far_empty = l.far_empty;
          own_old = shed.queue (λ q. q < h'.next) (All-weaken _ _ old (a.sndq).pq l.own_old);
          far_old = All-weaken _ _ old (b.sndq).pq l.far_old;
          apart = All-weaken (Off a.sndq) (Off a'.sndq) less (b.sndq).pq l.apart;
          own_rd_own =
              subst (λ s. OptAll (Off a'.sndq) s.rd) (sym input) (off (a.rcvq).rd l.own_rd_own);
          far_rd_own = off (b.rcvq).rd l.far_rd_own;
          own_rd_far = subst (λ s. OptAll (Off b.sndq) s.rd) (sym input) l.own_rd_far;
          far_rd_far = l.far_rd_far;
          rds = subst (λ s. OptAll (Unread b.rcvq) s.rd) (sym input) l.rds;
          own_pq_own =
              subst (λ s. All (Off a'.sndq) s.pq) (sym input)
                (All-weaken (Off a.sndq) (Off a'.sndq) less (a.rcvq).pq l.own_pq_own);
          own_pq_far = subst (λ s. All (Off b.sndq) s.pq) (sym input) l.own_pq_far;
          own_pq_rd = subst (λ s. All (Unread b.rcvq) s.pq) (sym input) l.own_pq_rd;
        };
        own_empty = ap (λ s. s.pq) input ∙ t.own_empty;
      },
      ap (partial_of h') input ∙ ae,
      record { debt = bd; part = be },
    )
