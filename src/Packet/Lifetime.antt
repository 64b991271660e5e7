-- ===== src/Packet/Lifetime.antt =====
-- What pkt_new, pkt_ref and pkt_unref of pktq.c do to the heap.
use mathlib.Core.Option.{some-injective}
use rfx.Prelude.{
  ℕ, ◌+◌, ◌-◌, ◌%◌, ◌^◌, ◌<◌, ◌≡◌, refl, sym, ap, ap₂, ◌∙◌, ◌≢◌, Option, none, some, List, [], ◌∷◌,
  ◌++◌, append_assoc, arith, ◌==◌, length, All, ==_ne, ==_refl, if◌then◌else◌, Bool-cases, inl, inr,
}
use rfx.Packet.{Packet, Heap, M, ◌>>=◌, update, pkt_unref}

-- An object in use: a count of references that has not wrapped, and `len` bytes of data.
pub record IsSound (k : Packet) : Type 0 where
  pub held : 0 < k.refc
  pub counted : k.refc < 2 ^ 32
  pub sized : k.len ≡ length k.data_bytes
  pub filled : 0 < k.len
  pub short : k.len < 65536

abbrev pub Live : Heap → ℕ → Type 0
Live h p = (k : Packet) × (h.cell p ≡ some k) × IsSound k

-- The data of the packet at `p`.
abbrev pub cell_bytes : Option Packet → List ℕ
cell_bytes none = []
cell_bytes (some k) = k.data_bytes

abbrev pub bytes_at : Heap → ℕ → List ℕ
bytes_at h p = cell_bytes (h.cell p)

-- The data of the packets of a queue, one after another.
abbrev pub stream : Heap → List ℕ → List ℕ
stream h [] = []
stream h (p ∷ q) = bytes_at h p ++ stream h q

-- Two heaps that differ at `p` at most.
abbrev pub AgreeBut : ℕ → Heap → Heap → Type 0
AgreeBut p h h' = (q : ℕ) → q ≢ p → h'.cell q ≡ h.cell q

pub Live-agree : (p : ℕ) (h h' : Heap) → AgreeBut p h h' → (q : ℕ) → q ≢ p → Live h q → Live h' q
Live-agree p h h' a q ne (k, e, s) = (k, a q ne ∙ e, s)

pub All-Live-agree :
    (p : ℕ) (h h' : Heap)
    → AgreeBut p h h'
    → (qs : List ℕ) → All (λ q. q ≢ p) qs
    → All (Live h) qs
    → All (Live h') qs
All-Live-agree p h h' a [] ne l = tt
All-Live-agree p h h' a (q ∷ qs) ne l =
    (Live-agree p h h' a q ne.0 l.0, All-Live-agree p h h' a qs ne.1 l.1)

pub stream-agree :
    (p : ℕ) (h h' : Heap)
    → AgreeBut p h h'
    → (qs : List ℕ) → All (λ q. q ≢ p) qs
    → stream h' qs ≡ stream h qs
stream-agree p h h' a [] ne = refl
stream-agree p h h' a (q ∷ qs) ne =
    ap₂ ◌++◌ (ap cell_bytes (a q ne.0)) (stream-agree p h h' a qs ne.1)

pub stream-append : (h : Heap) (xs ys : List ℕ) → stream h (xs ++ ys) ≡ stream h xs ++ stream h ys
stream-append h [] ys = refl
stream-append h (x ∷ xs) ys = rw (stream-append h xs ys, append_assoc)

pub update-AgreeBut :
    (p : ℕ) (c : Option Packet) (h : Heap) → AgreeBut p h (record h { cell = update h.cell p c })
update-AgreeBut p c h q ne = rw (==_ne p q (λ e. ne (sym e)))

-- `pkt_unref` of a packet in use: it takes one reference off, frees the object with the last one,
-- and touches nothing else.
pub pkt_unref_lem :
    (p : ℕ) (h : Heap)
    → Live h p
    → (h' : Heap) × (pkt_unref p h ≡ some (tt, h')) × AgreeBut p h h' × (h'.next ≡ h.next)
unfolding pkt_unref
pkt_unref_lem p h (k, e, s) = elim (Bool-cases (left == 0)) [
  | inl last ↦
      (record h { cell = update h.cell p none }, ground arith, update-AgreeBut p none h, refl)
  | inr more ↦ (
    record h { cell = update h.cell p (some (record k { refc = left })) },
    ground arith,
    update-AgreeBut p (some (record k { refc = left })) h,
    refl,
  )
]
  where
    left : ℕ
    left = (k.refc + 2 ^ 32 - 1) % 2 ^ 32

-- A packet loses a reference: it is freed with the last one, and otherwise only counts one less.
abbrev pub Unreferenced : Heap → Heap → ℕ → Type 0
Unreferenced h h' p =
    (k : Packet) × (h.cell p ≡ some k)
    × (k.refc ≡ 1 → h'.cell p ≡ none)
    × (1 < k.refc → h'.cell p ≡ some (record k { refc = k.refc - 1 }))

pub pkt_unref-Unreferenced :
    (p : ℕ) (h h' : Heap) → Live h p → pkt_unref p h ≡ some (tt, h') → Unreferenced h h' p
unfolding pkt_unref
pkt_unref-Unreferenced p h h' (k, e, s) run = elim (Bool-cases (left == 0)) [
  | inl last ↦ (
    k,
    e,
    λ one. cell_after none (ground arith),
    λ more. absurd (ground (arith, last, more, s.counted)),
  )
  | inr some_left ↦ (
    k,
    e,
    λ one. absurd (ground (arith, some_left, one)),
    λ more.
        cell_after (some (record k { refc = left })) (ground arith)
        ∙ ap (λ n. some (record k { refc = n })) (omega (arith, more, s.counted)),
  )
]
  where
    cell_after :
        (c : Option Packet)
        → pkt_unref p h ≡ some (tt, record h { cell = update h.cell p c })
        → h'.cell p ≡ c
    cell_after c i =
        ap (λ (x : Unit {0} × Heap). (x.1).cell p) (some-injective _ _ (sym run ∙ i))
        ∙ ap (λ b. if b then c else h.cell p) (==_refl p)

    left : ℕ
    left = (k.refc + 2 ^ 32 - 1) % 2 ^ 32

-- A step that succeeds hands its value and its heap to the next.
pub bind_some {ℓ κ} :
    {A : Type ℓ} {B : Type κ} (m : M A) (f : A → M B) (h : Heap) {a : A} {h' : Heap}
    → m h ≡ some (a, h')
    → (m >>= f) h ≡ f a h'
bind_some m f h e = rw (e, ◌>>=◌)
