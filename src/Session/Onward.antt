-- ===== src/Session/Onward.antt =====
-- The step of a callback that filters: the packets received join the send queue.
use mathlib.Core.Path.{subst}
use rfx.Prelude.{
  ℕ, ◌<◌, ◌≡◌, sym, ap, ◌∙◌, ◌≢◌, Option, none, some, List, [], ◌∷◌, ◌++◌, arith, All, All-append,
  All-weaken, All-flip,
}
use rfx.Packet.{Heap}
use rfx.RecvQueue.Invariant.{IsValid, Reading, Frame}
use rfx.RecvQueue.Growth.{OptAll}
use rfx.RecvQueue.Conserve.{partial_of, IsValid-emptied}
use rfx.Filters.{Filter}
use rfx.Session.{Session, pipe_of}
use rfx.Session.Ends.{far_of}
use rfx.Session.Marks.{Shown, SameCell, Sendable}
use rfx.Session.Passive.{IsPassive, Filtered}
use rfx.Session.Tidy.{Off, Unread, Loaded, Tidy, OptAll-weaken, no_packets}

-- Packets as they are received may be sent.
pub Frame-Sendable : (dir : ℕ) (h : Heap) (q : List ℕ) → All (Frame dir h) q → All (Sendable h) q
Frame-Sendable dir h [] a = tt
Frame-Sendable dir h (p ∷ q) ((k, e, w), a) =
    ((k, e, w.sound, w.undropped), Frame-Sendable dir h q a)

All-OptAll :
    (P : ℕ → ℕ → Type 0) (q : List ℕ) (o : Option ℕ)
    → All (λ p. OptAll (P p) o) q
    → OptAll (λ x. All (λ p. P p x) q) o
All-OptAll P q none a = tt
All-OptAll P q (some x) a = a

OptAll-both :
    (P Q R : ℕ → Type 0) (o : Option ℕ)
    → ((p : ℕ) → P p → Q p → R p)
    → OptAll P o
    → OptAll Q o
    → OptAll R o
OptAll-both P Q R none f a b = tt
OptAll-both P Q R (some p) f a b = f p a b

All-both :
    (P Q R : ℕ → Type 0) (qs : List ℕ)
    → ((p : ℕ) → P p → Q p → R p)
    → All P qs
    → All Q qs
    → All R qs
All-both P Q R [] f a b = tt
All-both P Q R (q ∷ qs) f a b = (f q a.0 b.0, All-both P Q R qs f a.1 b.1)

Reading-apart :
    (dir : ℕ) (h : Heap) (o : Option ℕ) (q : List ℕ) (pos : ℕ)
    → Reading dir h o q pos
    → OptAll (λ p. All (λ x. x ≢ p) q) o
Reading-apart dir h none q pos r = tt
Reading-apart dir h (some p) q pos (k, c, w, a, b, old, n) = n

same_rd :
    (h h' : Heap) (o : Option ℕ) → Shown h h' → OptAll (λ p. SameCell (h.cell p) (h'.cell p)) o
same_rd h h' none s = tt
same_rd h h' (some p) s = s.cells p

module _ {S : Type 0} (F : Filter S) (Quiet : S → Type 0) (passive : IsPassive F Quiet) where
  pub filter-Tidy :
      (da db d : ℕ) (r r' : Session S) (h h' : Heap)
      → Loaded da db h (pipe_of d r) (far_of d r)
      → Filtered F Quiet passive d ((pipe_of d r).rcvq).pq r h r' h'
      → Tidy da db h' (pipe_of d r') (far_of d r')
        × (partial_of h' (pipe_of d r').rcvq ≡ partial_of h (pipe_of d r).rcvq)
        × (partial_of h' (far_of d r').rcvq ≡ partial_of h (far_of d r).rcvq)
  filter-Tidy da db d r r' h h' l f =
      let a = pipe_of d r in
      let b = far_of d r in
      let a' = pipe_of d r' in
      let b' = far_of d r' in
      let new = (a.rcvq).pq in
      let s = f.shown in
      let n = s.next in
      let older : (q : ℕ) → q < h.next → q < h'.next = λ q lt. omega (arith, lt, n) in
      let (av, ae) =
        IsValid-emptied da h h' a.rcvq l.own_in (omega (arith, n)) (same_rd h h' (a.rcvq).rd s) in
      let (bv, be) =
        IsValid-emptied db h h' b.rcvq l.far_in (omega (arith, n)) (same_rd h h' (b.rcvq).rd s) in
      let Joined = λ (x : ℕ). All (λ z. z ≢ x) ((a.sndq).pq ++ new) in
      let join : (x : ℕ) → Off a.sndq x → All (λ z. z ≢ x) new → Joined x =
        λ x i j. All-append (λ z. z ≢ x) (a.sndq).pq new i j in
      let to_own : (P : List ℕ → Type 0) → P ((a.sndq).pq ++ new) → P (a'.sndq).pq =
        λ P x. subst P (sym f.packets) x in
      let to_far : (P : List ℕ → Type 0) → P (b.sndq).pq → P (b'.sndq).pq =
        λ P x. subst P (sym f.far_packets) x in
      let own_in = f.emptied in
      let far_in = f.far_input in
      (
        record {
          loaded = record {
            own = f.ready;
            far = f.far_ready;
            own_in = subst (IsValid da h') (sym own_in) av;
            far_in =
                subst (IsValid db h') (sym far_in)
                  (subst (λ q. IsValid db h' (record (b.rcvq) { pq = q })) (sym l.far_empty) bv);
            far_empty = ap (λ x. x.pq) far_in ∙ l.far_empty;
            own_old = to_own (All (λ q. q < h'.next)) (
                All-append (λ q. q < h'.next) (a.sndq).pq new
                  (All-weaken _ _ older (a.sndq).pq l.own_old)
                  (All-weaken _ _ older new l.own_in.queued.old));
            far_old = to_far (All (λ q. q < h'.next)) (All-weaken _ _ older (b.sndq).pq l.far_old);
            apart =
                to_own (λ q. All (λ x. All (λ z. z ≢ x) q) (b'.sndq).pq)
                  (to_far (All Joined) (
                    All-both (Off a.sndq) (λ x. All (λ z. z ≢ x) new) Joined (b.sndq).pq join
                      l.apart (All-flip (b.sndq).pq new l.own_pq_far)));
            own_rd_own =
                to_own (λ q. OptAll (λ x. All (λ z. z ≢ x) q) (a'.rcvq).rd)
                  (subst (λ x. OptAll Joined x.rd) (sym own_in)
                    (OptAll-both (Off a.sndq) (λ x. All (λ z. z ≢ x) new) Joined (a.rcvq).rd join
                      l.own_rd_own
                      (Reading-apart da h (a.rcvq).rd new (a.rcvq).rd_pos l.own_in.reading)));
            far_rd_own =
                to_own (λ q. OptAll (λ x. All (λ z. z ≢ x) q) (b'.rcvq).rd)
                  (subst (λ x. OptAll Joined x.rd) (sym far_in)
                    (OptAll-both (Off a.sndq) (λ x. All (λ z. z ≢ x) new) Joined (b.rcvq).rd join
                      l.far_rd_own
                      (OptAll-weaken (λ x. All (λ z. x ≢ z) new) (λ x. All (λ z. z ≢ x) new)
                        (λ x i. All-weaken (λ z. x ≢ z) (λ z. z ≢ x) (λ z y e. y (sym e)) new i)
                        (b.rcvq).rd (All-OptAll (λ p q. q ≢ p) new (b.rcvq).rd l.own_pq_rd))));
            own_rd_far =
                to_far (λ q. OptAll (λ x. All (λ z. z ≢ x) q) (a'.rcvq).rd)
                  (subst (λ x. OptAll (Off b.sndq) x.rd) (sym own_in) l.own_rd_far);
            far_rd_far =
                to_far (λ q. OptAll (λ x. All (λ z. z ≢ x) q) (b'.rcvq).rd)
                  (subst (λ x. OptAll (Off b.sndq) x.rd) (sym far_in) l.far_rd_far);
            rds =
                subst (λ x. OptAll (Unread b'.rcvq) x.rd) (sym own_in)
                  (subst (λ x. OptAll (Unread x) (a.rcvq).rd) (sym far_in) l.rds);
            own_pq_own = no_packets _ (a'.rcvq).pq (ap (λ x. x.pq) own_in);
            own_pq_far = no_packets _ (a'.rcvq).pq (ap (λ x. x.pq) own_in);
            own_pq_rd = no_packets _ (a'.rcvq).pq (ap (λ x. x.pq) own_in);
          };
          own_empty = ap (λ x. x.pq) own_in;
        },
        ap (partial_of h') own_in ∙ ae,
        ap (partial_of h') far_in ∙ be,
      )
