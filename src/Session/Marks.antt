-- ===== src/Session/Marks.antt =====
-- Heaps that differ in the marks that filters set on packets.
use rfx.Prelude.{
  ℕ, ◌≡◌, refl, sym, ap, ap₂, ◌∙◌, Option, none, some, List, [], ◌∷◌, ◌++◌, length, drop, All, ◌<◌,
  ◌^◌, false,
}
use rfx.Packet.{Packet, Heap}
use rfx.Packet.Lifetime.{IsSound, Live, bytes_at, cell_bytes}
use mathlib.Core.Path.{subst}
use mathlib.Core.Option.{some-injective}
use rfx.PacketQueue.{Iovec}
use rfx.SendQueue.{SendQueue, window}
use rfx.SendQueue.Stream.{Lined, pending}
use rfx.SendQueue.Sending.{IsReady, owed}

-- The packets of a queue have the bytes they had, and are in use.
abbrev pub Kept : Heap → Heap → List ℕ → Type 0
Kept h h' q = All (λ p. (bytes_at h' p ≡ bytes_at h p) × Live h' p) q

Kept-Lined :
    (h h' : Heap) (vs : List Iovec) (q : List ℕ)
    → Kept h h' q
    → Lined h vs q
    → Lined h' vs q × (pending h' vs q ≡ pending h vs q)
Kept-Lined h h' [] [] a l = (tt, refl)
Kept-Lined h h' [] (p ∷ q) a l = (tt, ap₂ ◌++◌ (a.0).0 (Kept-Lined h h' [] q a.1 tt).1)
Kept-Lined h h' (v ∷ vs) [] a l = absurd l
Kept-Lined h h' (v ∷ vs) (p ∷ q) a ((b, e, pos), l) =
    let (i, j) = Kept-Lined h h' vs q a.1 l in
    let same : bytes_at h' p ≡ bytes_at h p = (a.0).0 in
    (
      ((b, e ∙ sym (ap length same), pos), i),
      ap₂ ◌++◌
          (ap (λ z. drop v.off (bytes_at h' z)) b
            ∙ ap (drop v.off) same
            ∙ sym (ap (λ z. drop v.off (bytes_at h z)) b))
          j,
    )

Kept-Live : (h h' : Heap) (q : List ℕ) → Kept h h' q → All (Live h') q
Kept-Live h h' [] a = tt
Kept-Live h h' (p ∷ q) a = ((a.0).1, Kept-Live h h' q a.1)

-- A send queue whose packets are kept is in order still, and owes what it did.
pub Kept-IsReady :
    (h h' : Heap) (s : SendQueue)
    → Kept h h' s.pq
    → IsReady h s
    → IsReady h' s × (owed h' s ≡ owed h s)
Kept-IsReady h h' s a r =
    let (l, e) = Kept-Lined h h' (window s) s.pq a r.order.lined in
    (
      record {
        size = r.size;
        fits = r.fits;
        front = r.front;
        order = record { lined = l; live = Kept-Live h h' s.pq a; once = r.order.once };
      },
      e,
    )

-- The same object, but for its marks and its description.
pub record SameObject (k k' : Packet) : Type 0 where
  pub len : k'.len ≡ k.len
  pub same_bytes : k'.data_bytes ≡ k.data_bytes
  pub dir : k'.dir ≡ k.dir
  pub refc : k'.refc ≡ k.refc
  pub drop : k'.drop ≡ k.drop
  pub type : k'.type ≡ k.type
  pub delay : k'.delay ≡ k.delay

abbrev pub SameCell : Option Packet → Option Packet → Type 0
SameCell none o = o ≡ none
SameCell (some k) o = (k' : Packet) × (o ≡ some k') × SameObject k k'

-- Each object is there as it was, but for `show` and the descriptions, and none is new.
pub record Shown (h h' : Heap) : Type 0 where
  pub cells : (p : ℕ) → SameCell (h.cell p) (h'.cell p)
  pub next : h'.next ≡ h.next

pub Shown-Kept : (h h' : Heap) (q : List ℕ) → Shown h h' → All (Live h) q → Kept h h' q
Shown-Kept h h' [] s a = tt
Shown-Kept h h' (p ∷ q) s (l, a) = (one p l, Shown-Kept h h' q s a)
  where
    one : (p : ℕ) → Live h p → (bytes_at h' p ≡ bytes_at h p) × Live h' p
    one p (k, e, i) =
        let (k', e', o) = subst (λ c. SameCell c (h'.cell p)) e (s.cells p) in
        (
          ap cell_bytes e' ∙ o.same_bytes ∙ sym (ap cell_bytes e),
          (
            k',
            e',
            record {
              held = subst (λ n. 0 < n) (sym o.refc) i.held;
              counted = subst (λ n. n < 2 ^ 32) (sym o.refc) i.counted;
              sized = o.len ∙ i.sized ∙ sym (ap length o.same_bytes);
              filled = subst (λ n. 0 < n) (sym o.len) i.filled;
              short = subst (λ n. n < 65536) (sym o.len) i.short;
            },
          ),
        )

pub SameObject-refl : (k : Packet) → SameObject k k
SameObject-refl k = record {
  len = refl;
  same_bytes = refl;
  dir = refl;
  refc = refl;
  drop = refl;
  type = refl;
  delay = refl;
}

pub SameCell-refl : (o : Option Packet) → SameCell o o
SameCell-refl none = refl
SameCell-refl (some k) = (k, refl, SameObject-refl k)

SameCell-trans : (a b c : Option Packet) → SameCell a b → SameCell b c → SameCell a c
SameCell-trans none b c e s = subst (λ z. SameCell z c) e s
SameCell-trans (some k) b c (k', e, o) s =
    let (k'', e', o') = subst (λ z. SameCell z c) e s in
    (
      k'',
      e',
      record {
        len = o'.len ∙ o.len;
        same_bytes = o'.same_bytes ∙ o.same_bytes;
        dir = o'.dir ∙ o.dir;
        refc = o'.refc ∙ o.refc;
        drop = o'.drop ∙ o.drop;
        type = o'.type ∙ o.type;
        delay = o'.delay ∙ o.delay;
      },
    )

pub Shown-trans : (a b c : Heap) → Shown a b → Shown b c → Shown a c
Shown-trans a b c s t = record {
  cells = λ p. SameCell-trans (a.cell p) (b.cell p) (c.cell p) (s.cells p) (t.cells p);
  next = t.next ∙ s.next;
}

pub Shown-refl : (h : Heap) → Shown h h
Shown-refl h = record { cells = λ p. SameCell-refl (h.cell p); next = refl }

-- A packet in use that no filter has dropped.
abbrev pub Sendable : Heap → ℕ → Type 0
Sendable h p = (k : Packet) × (h.cell p ≡ some k) × IsSound k × (k.drop ≡ false)

pub Sendable-Live : (h : Heap) (q : List ℕ) → All (Sendable h) q → All (Live h) q
Sendable-Live h [] a = tt
Sendable-Live h (p ∷ q) ((k, e, i, d), a) = ((k, e, i), Sendable-Live h q a)

pub Shown-Sendable :
    (h h' : Heap) (q : List ℕ) → Shown h h' → All (Sendable h) q → All (Sendable h') q
Shown-Sendable h h' [] s a = tt
Shown-Sendable h h' (p ∷ q) s ((k, e, i, d), a) =
    let (k', e', o) = subst (λ c. SameCell c (h'.cell p)) e (s.cells p) in
    let ((_, (k'', e'', i')), _) = Shown-Kept h h' (p ∷ []) s ((k, e, i), tt) in
    (
      (k'', e'', i', ap (λ (x : Packet). x.drop) (some-injective _ _ (sym e'' ∙ e')) ∙ o.drop ∙ d),
      Shown-Sendable h h' q s a,
    )
