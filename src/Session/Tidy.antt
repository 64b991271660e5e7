-- ===== src/Session/Tidy.antt =====
-- The invariant of a session's two pipes: their queues are in order and share no packet.
use mathlib.Core.Path.{subst}
use rfx.Prelude.{
  ℕ, ◌<◌, ◌≤◌, ◌≡◌, sym, ap, ◌∙◌, ◌≢◌, Option, none, some, List, [], ◌∷◌, All, All-flip,
}
use rfx.Packet.{Heap}
use rfx.Packet.Lifetime.{Live, cell_bytes}
use rfx.SendQueue.{SendQueue}
use rfx.SendQueue.Sending.{IsReady, owed}
use rfx.RecvQueue.{RecvQueue}
use rfx.RecvQueue.Invariant.{IsValid}
use rfx.RecvQueue.Growth.{OptAll}
use rfx.RecvQueue.Conserve.{partial_of, IsValid-emptied}
use rfx.Pipe.{Pipe}
use rfx.Session.Marks.{Kept, Kept-IsReady, SameCell, SameCell-refl}

-- The packet is not in the pipe's send queue.
abbrev pub Off : SendQueue → ℕ → Type 0
Off s q = All (λ z. z ≢ q) s.pq

-- The packet is not being read.
abbrev pub Unread : RecvQueue → ℕ → Type 0
Unread s p = OptAll (λ q. q ≢ p) s.rd

-- The pipe `a` may hold packets that wait for the filters, the pipe `b` holds none.
pub record Loaded (da db : ℕ) (h : Heap) (a b : Pipe) : Type 0 where
  pub own : IsReady h a.sndq
  pub far : IsReady h b.sndq
  pub own_in : IsValid da h a.rcvq
  pub far_in : IsValid db h b.rcvq
  pub far_empty : (b.rcvq).pq ≡ []
  pub own_old : All (λ q. q < h.next) (a.sndq).pq
  pub far_old : All (λ q. q < h.next) (b.sndq).pq
  pub apart : All (Off a.sndq) (b.sndq).pq
  pub own_rd_own : OptAll (Off a.sndq) (a.rcvq).rd
  pub far_rd_own : OptAll (Off a.sndq) (b.rcvq).rd
  pub own_rd_far : OptAll (Off b.sndq) (a.rcvq).rd
  pub far_rd_far : OptAll (Off b.sndq) (b.rcvq).rd
  pub rds : OptAll (Unread b.rcvq) (a.rcvq).rd
  pub own_pq_own : All (Off a.sndq) (a.rcvq).pq
  pub own_pq_far : All (Off b.sndq) (a.rcvq).pq
  pub own_pq_rd : All (Unread b.rcvq) (a.rcvq).pq

pub record Tidy (da db : ℕ) (h : Heap) (a b : Pipe) : Type 0 where
  pub loaded : Loaded da db h a b
  pub own_empty : (a.rcvq).pq ≡ []

pub OptAll-weaken :
    (P Q : ℕ → Type 0) → ((p : ℕ) → P p → Q p) → (o : Option ℕ) → OptAll P o → OptAll Q o
OptAll-weaken P Q f none a = tt
OptAll-weaken P Q f (some p) a = f p a

OptAll-flip :
    (o u : Option ℕ) → OptAll (λ p. OptAll (λ q. q ≢ p) u) o → OptAll (λ q. OptAll (λ p. p ≢ q) o) u
OptAll-flip none none a = tt
OptAll-flip none (some q) a = tt
OptAll-flip (some p) none a = tt
OptAll-flip (some p) (some q) a = λ e. a (sym e)

pub no_packets : (P : ℕ → Type 0) (q : List ℕ) → q ≡ [] → All P q
no_packets P q e = subst (All P) (sym e) tt

pub Tidy-swap : (da db : ℕ) (h : Heap) (a b : Pipe) → Tidy da db h a b → Tidy db da h b a
Tidy-swap da db h a b t =
    let l = t.loaded in
    record {
      loaded = record {
        own = l.far;
        far = l.own;
        own_in = l.far_in;
        far_in = l.own_in;
        far_empty = t.own_empty;
        own_old = l.far_old;
        far_old = l.own_old;
        apart = All-flip (a.sndq).pq (b.sndq).pq l.apart;
        own_rd_own = l.far_rd_far;
        far_rd_own = l.own_rd_far;
        own_rd_far = l.far_rd_own;
        far_rd_far = l.own_rd_own;
        rds = OptAll-flip (a.rcvq).rd (b.rcvq).rd l.rds;
        own_pq_own = no_packets _ (b.rcvq).pq l.far_empty;
        own_pq_far = no_packets _ (b.rcvq).pq l.far_empty;
        own_pq_rd = no_packets _ (b.rcvq).pq l.far_empty;
      };
      own_empty = l.far_empty;
    }

-- A send queue whose packets are the same objects.
Kept-cells :
    (h h' : Heap) (q : List ℕ) → All (λ p. h'.cell p ≡ h.cell p) q → All (Live h) q → Kept h h' q
Kept-cells h h' [] a l = tt
Kept-cells h h' (p ∷ q) a ((k, c, s), l) =
    ((ap cell_bytes a.0, (k, a.0 ∙ c, s)), Kept-cells h h' q a.1 l)

pub IsReady-cells :
    (h h' : Heap) (s : SendQueue)
    → All (λ p. h'.cell p ≡ h.cell p) s.pq
    → IsReady h s
    → IsReady h' s × (owed h' s ≡ owed h s)
IsReady-cells h h' s a r = Kept-IsReady h h' s (Kept-cells h h' s.pq a r.order.live) r

-- A receive queue without packets, whose incomplete packet is the same object.
pub IsValid-cells :
    (dir : ℕ) (h h' : Heap) (s : RecvQueue)
    → IsValid dir h s
    → s.pq ≡ []
    → h.next ≤ h'.next
    → OptAll (λ p. h'.cell p ≡ h.cell p) s.rd
    → IsValid dir h' s × (partial_of h' s ≡ partial_of h s)
IsValid-cells dir h h' s v empty le a =
    let (w, e) = IsValid-emptied dir h h' s v le (
      OptAll-weaken _ _ (λ p i. subst (SameCell (h.cell p)) (sym i) (SameCell-refl (h.cell p))) s.rd
        a) in
    (subst (λ q. IsValid dir h' (record s { pq = q })) (sym empty) w, e)
