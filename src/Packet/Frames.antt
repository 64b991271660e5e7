-- ===== src/Packet/Frames.antt =====
-- What code that ran to its end has left alone in the heap.
use rfx.Prelude.{
  ℕ, suc, ◌+◌, ◌-◌, ◌%◌, ◌^◌, ◌≡◌, refl, sym, ap, ◌∙◌, Bool, Option, none, some, ◌==◌,
  if◌then◌else◌, write_at, replicate, Bool-cases, Option-cases, inl, inr,
}
use mathlib.Core.Path.{subst, subst₂}
use mathlib.Core.Option.{some-injective}
use rfx.Packet.{Packet, Heap, M, ◌>>=◌, update, load, store, release, header, pkt_new, pkt_unref}
use rfx.Packet.Lifetime.{AgreeBut, update-AgreeBut}

-- A run of two steps is a run of each.
pub bind_inv {ℓ κ} :
    {A : Type ℓ} {B : Type κ} (m : M A) (f : A → M B) (h : Heap) {b : B} {h' : Heap}
    → (m >>= f) h ≡ some (b, h')
    → (a : A) × (h1 : Heap) × (m h ≡ some (a, h1)) × (f a h1 ≡ some (b, h'))
bind_inv m f h {b} {h'} e = elim (Option-cases (m h)) [
  | inl n ↦ absurd (cc (rw (n, ◌>>=◌) at e))
  | inr ((a, h1), r) ↦ (a, h1, r, rw (r, ◌>>=◌) at e)
]

pub heap_of {ℓ} :
    {A : Type ℓ} {a b : A} {h h' : Heap}
    → ◌≡◌ {A = Option (A × Heap)} (some (a, h)) (some (b, h'))
    → h ≡ h'
heap_of e = ap (λ x. x.1) (some-injective _ _ e)

pub value_of {ℓ} :
    {A : Type ℓ} {a b : A} {h h' : Heap}
    → ◌≡◌ {A = Option (A × Heap)} (some (a, h)) (some (b, h'))
    → a ≡ b
value_of e = ap (λ x. x.0) (some-injective _ _ e)

-- At most the object at `p` has changed, and nothing was allocated.
pub record Touched (p : ℕ) (h h' : Heap) : Type 0 where
  pub others : AgreeBut p h h'
  pub next : h'.next ≡ h.next

Touched-update :
    (p : ℕ) (c : Option Packet) (h h' : Heap)
    → record h { cell = update h.cell p c } ≡ h'
    → Touched p h h'
Touched-update p c h h' e =
    subst (Touched p h) e (record { others = update-AgreeBut p c h; next = refl })

pub store_inv : (p : ℕ) (k : Packet) (h h' : Heap) → store p k h ≡ some (tt, h') → Touched p h h'
store_inv p k h h' e = elim (Option-cases (h.cell p)) [
  | inl n ↦ absurd (cc (rw (store, n) at e))
  | inr (k', c) ↦ Touched-update p (some k) h h' (heap_of (rw (store, c) at e))
]

pub load_inv :
    (p : ℕ) (h h' : Heap) {k : Packet} → load p h ≡ some (k, h') → (h.cell p ≡ some k) × (h' ≡ h)
load_inv p h h' e = elim (Option-cases (h.cell p)) [
  | inl n ↦ absurd (cc (rw (load, n) at e))
  | inr (k', c) ↦ (c ∙ ap some (value_of (rw (load, c) at e)), sym (heap_of (rw (load, c) at e)))
]

pub pkt_unref_inv : (p : ℕ) (h h' : Heap) → pkt_unref p h ≡ some (tt, h') → Touched p h h'
unfolding pkt_unref
pkt_unref_inv p h h' e =
    let (k, h1, l, e') = bind_inv (load p) _ h e in
    let (c, same) = load_inv p h h1 l in
    let left = (k.refc + 2 ^ 32 - 1) % 2 ^ 32 in
    let run = λ (b : Bool). (if b then release p else store p (record k { refc = left })) h1 in
    subst (λ x. Touched p x h') same
      (elim (Bool-cases (left == 0)) [
        | inl z ↦ Touched-update p none h1 h' (heap_of (ap run (sym z) ∙ e'))
        | inr z ↦ store_inv p (record k { refc = left }) h1 h' (ap run (sym z) ∙ e')
      ])

-- A new packet stands at the next address, and no other object has changed.
pub record Allocated (p : ℕ) (h h' : Heap) : Type 0 where
  pub place : p ≡ h.next
  pub others : AgreeBut p h h'
  pub next : h'.next ≡ suc h.next

pub pkt_new_inv :
    (len type dir p : ℕ) (h h' : Heap) → pkt_new len type dir h ≡ some (p, h') → Allocated p h h'
unfolding pkt_new
pkt_new_inv len type dir p h h' e =
    elim (Option-cases (write_at (replicate len 0) 0 (header len type))) [
      | inl n ↦ absurd (cc (rw (pkt_new, n) at e))
      | inr (bs, w) ↦
          let e' = rw (pkt_new, w) at e in
          let v = value_of e' in
          subst₂ (λ q x. Allocated q h x) v (heap_of e')
            (record { place = refl; others = update-AgreeBut h.next _ h; next = refl })
    ]
