-- ===== src/SendQueue/Stream.antt =====
-- The bytes that a send queue still owes, and how its vector lines up with its packets.
use rfx.Prelude.{
  ℕ, suc, ◌+◌, ◌≤◌, ◌<◌, ◌≡◌, refl, sym, ap, ap₂, ◌∙◌, ◌≢◌, Option, some, List, [], ◌∷◌, ◌++◌,
  arith, length, drop, All, length-drop, take-all,
}
use rfx.Packet.{Packet, Heap}
use rfx.Packet.Lifetime.{Live, bytes_at, cell_bytes, stream, AgreeBut, stream-agree}
use rfx.PacketQueue.{Iovec}
use rfx.SendQueue.{iov_bytes, join_bytes, gather}

-- The entry covers the end of the data of the packet at `p`, from `off` on, and is not empty.
abbrev pub Entry : Heap → Iovec → ℕ → Type 0
Entry h v p = (v.base ≡ p) × (v.off + v.iov_len ≡ length (bytes_at h p)) × (0 < v.iov_len)

-- The entries belong to the first packets of the queue, in their order.
abbrev pub Lined : Heap → List Iovec → List ℕ → Type 0
Lined h [] q = Unit {0}
Lined h (v ∷ vs) [] = ⊥
Lined h (v ∷ vs) (p ∷ q) = Entry h v p × Lined h vs q

abbrev pub rest_of : Heap → Iovec → List ℕ
rest_of h v = drop v.off (bytes_at h v.base)

abbrev pub window_bytes : Heap → List Iovec → List ℕ
window_bytes h [] = []
window_bytes h (v ∷ vs) = rest_of h v ++ window_bytes h vs

-- What is still to be sent: the rest of each packet with an entry, then the other packets whole.
abbrev pub pending : Heap → List Iovec → List ℕ → List ℕ
pending h [] q = stream h q
pending h (v ∷ vs) [] = []
pending h (v ∷ vs) (p ∷ q) = rest_of h v ++ pending h vs q

pub length-rest_of : (h : Heap) (v : Iovec) (p : ℕ) → Entry h v p → length (rest_of h v) ≡ v.iov_len
length-rest_of h v p (b, e, pos) =
    ap (λ x. length (drop v.off (bytes_at h x))) b
    ∙ length-drop v.off (bytes_at h p)
    ∙ omega (arith, e)

-- The vector's bytes are all there: `writev` reads no dangling pointer.
pub gather_lem :
    (h : Heap) (vs : List Iovec) (q : List ℕ)
    → Lined h vs q
    → All (Live h) q
    → gather h vs ≡ some (window_bytes h vs)
unfolding gather
gather_lem h [] q l a = refl
gather_lem h (v ∷ vs) [] l a = absurd l
gather_lem h (v ∷ vs) (p ∷ q) ((b, e, pos), l) ((k, c, s), a) =
    ap₂ join_bytes one (gather_lem h vs q l a)
  where
    at : h.cell v.base ≡ some k
    at = ap h.cell b ∙ c

    len_k : length (bytes_at h p) ≡ length k.data_bytes
    len_k = ap (λ (x : Option Packet). length (cell_bytes x)) c

    one : iov_bytes h v ≡ some (rest_of h v)
    one = ground (
      arith,
      at,
      len_k,
      take-all v.iov_len (drop v.off k.data_bytes),
      length-drop v.off k.data_bytes,
    )

pub window_bytes-agree :
    (p : ℕ) (h h' : Heap)
    → AgreeBut p h h'
    → (vs : List Iovec) (q : List ℕ) → All (λ x. x ≢ p) q
    → Lined h vs q
    → (window_bytes h' vs ≡ window_bytes h vs) × (pending h' vs q ≡ pending h vs q) × Lined h' vs q
window_bytes-agree p h h' a [] q ne l = (refl, stream-agree p h h' a q ne, tt)
window_bytes-agree p h h' a (v ∷ vs) [] ne l = absurd l
window_bytes-agree p h h' a (v ∷ vs) (x ∷ q) ne ((b, e, pos), l) =
    let ih = window_bytes-agree p h h' a vs q ne.1 l in
    (ap₂ ◌++◌ same ih.0, ap₂ ◌++◌ same ih.1, ((b, e ∙ sym (ap length there), pos), ih.2))
  where
    there : bytes_at h' x ≡ bytes_at h x
    there = ap cell_bytes (a x ne.0)

    same : rest_of h' v ≡ rest_of h v
    same =
        ap (λ z. drop v.off (bytes_at h' z)) b
        ∙ ap (drop v.off) there
        ∙ sym (ap (λ z. drop v.off (bytes_at h z)) b)

-- Entries for whole packets, as `refill` writes them.
abbrev pub whole_at : Heap → ℕ → Iovec
whole_at h p = record { base = p; off = 0; iov_len = length (bytes_at h p) }

abbrev pub wholes : Heap → List ℕ → List Iovec
wholes h [] = []
wholes h (p ∷ q) = whole_at h p ∷ wholes h q

pub length-wholes : (h : Heap) (q : List ℕ) → length (wholes h q) ≡ length q
length-wholes h [] = refl
length-wholes h (p ∷ q) = ap suc (length-wholes h q)

pub wholes-append : (h : Heap) (xs ys : List ℕ) → wholes h (xs ++ ys) ≡ wholes h xs ++ wholes h ys
wholes-append h [] ys = refl
wholes-append h (x ∷ xs) ys = ap (λ r. whole_at h x ∷ r) (wholes-append h xs ys)

pub bytes_at-pos : (h : Heap) (p : ℕ) → Live h p → 0 < length (bytes_at h p)
bytes_at-pos h p (k, c, s) =
    omega (arith, ap (λ (x : Option Packet). length (cell_bytes x)) c, s.sized, s.filled)

pub wholes-Lined :
    (h : Heap) (q r : List ℕ)
    → All (Live h) q
    → Lined h (wholes h q) (q ++ r) × (pending h (wholes h q) (q ++ r) ≡ stream h (q ++ r))
wholes-Lined h [] r a = (tt, refl)
wholes-Lined h (p ∷ q) r a =
    let ih = wholes-Lined h q r a.1 in
    (((refl, omega arith, bytes_at-pos h p a.0), ih.0), ap (λ z. bytes_at h p ++ z) ih.1)

pub length-pending_le :
    (h : Heap) (vs : List Iovec) (q : List ℕ) → Lined h vs q → length vs ≤ length q
length-pending_le h [] q l = omega arith
length-pending_le h (v ∷ vs) [] l = absurd l
length-pending_le h (v ∷ vs) (p ∷ q) l = omega (arith, length-pending_le h vs q l.1)
