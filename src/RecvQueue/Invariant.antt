-- ===== src/RecvQueue/Invariant.antt =====
-- The invariant of `recvq`, and the state of the framing that it stands for.
use rfx.Prelude.{
  ℕ, ◌%◌, ◌≤◌, ◌<◌, ◌≡◌, refl, sym, ap, ap₂, ◌∙◌, ◌≢◌, false, Option, none, some, List, [], ◌∷◌,
  ◌++◌, arith, length, All, All-append, All-weaken, Distinct, Distinct-snoc, take,
}
use mathlib.Core.Path.{subst₂}
use rfx.PacketQueue.{pqh_push}
use rfx.Packet.{Packet, Heap, M, ◌>>=◌}
use rfx.Packet.Lifetime.{IsSound, bytes_at, cell_bytes, AgreeBut}
use rfx.RecvQueue.{RecvQueue, rd_size, finish}
use rfx.RecvQueue.Deframer.{Deframer, frame_len, frame_type, feed, and_then}

abbrev pub IsByte : ℕ → Type 0
IsByte b = b < 256

-- A packet as it is received: its header tells its length and its type.
pub record Headed (dir : ℕ) (k : Packet) : Type 0 where
  pub sound : IsSound k
  pub len_is : k.len ≡ frame_len k.data_bytes
  pub type_is : k.type ≡ frame_type k.data_bytes
  pub dir_is : k.dir ≡ dir % 4
  pub undropped : k.drop ≡ false
  pub due : k.delay ≡ 0
  pub single : k.refc ≡ 1
  pub full_header : 4 ≤ k.len

abbrev pub Frame : ℕ → Heap → ℕ → Type 0
Frame dir h p = (k : Packet) × (h.cell p ≡ some k) × Headed dir k

-- The packets of the queue are complete, in use, each once, and the heap's next address is above.
pub record Queued (dir : ℕ) (h : Heap) (s : RecvQueue) : Type 0 where
  pub way : s.dir ≡ dir
  pub buf : length s.rd_buf ≡ rd_size
  pub frames : All (Frame dir h) s.pq
  pub old : All (λ p. p < h.next) s.pq
  pub once : Distinct s.pq

-- A packet being read has its header, and lacks some byte.
abbrev pub Reading : ℕ → Heap → Option ℕ → List ℕ → ℕ → Type 0
Reading dir h none q pos = pos < rd_size
Reading dir h (some p) q pos =
    (k : Packet) × (h.cell p ≡ some k)
    × Headed dir k
    × (rd_size ≤ pos)
    × (pos < k.len)
    × (p < h.next)
    × All (λ x. x ≢ p) q

abbrev pub read_of : Heap → Option ℕ → List ℕ → ℕ → List ℕ
read_of h none buf pos = take pos buf
read_of h (some p) buf pos = take pos (bytes_at h p)

abbrev pub frames_of : Heap → List ℕ → List (List ℕ)
frames_of h [] = []
frames_of h (p ∷ q) = bytes_at h p ∷ frames_of h q

-- The framing that a receive queue has reached.
abbrev pub view : Heap → RecvQueue → Deframer
view h s = record { frames = frames_of h s.pq; partial = read_of h s.rd s.rd_buf s.rd_pos }

pub record IsValid (dir : ℕ) (h : Heap) (s : RecvQueue) : Type 0 where
  pub queued : Queued dir h s
  pub reading : Reading dir h s.rd s.pq s.rd_pos
  pub small : All IsByte (read_of h s.rd s.rd_buf s.rd_pos)

-- A step of the code against one of the framing: both fail, or both succeed and agree.
abbrev pub Refines : ℕ → Option Deframer → Option (RecvQueue × Heap) → Type 0
Refines dir none r = r ≡ none
Refines dir (some d) r =
    (s : RecvQueue) × (h : Heap) × (r ≡ some (s, h)) × IsValid dir h s × (view h s ≡ d)

pub Refines-path :
    (dir : ℕ) (o o' : Option Deframer) (r r' : Option (RecvQueue × Heap))
    → o ≡ o'
    → r ≡ r'
    → Refines dir o' r'
    → Refines dir o r
Refines-path dir o o' r r' e f x = subst₂ (Refines dir) (sym e) (sym f) x

-- Steps in a row.
pub Refines-bind :
    (dir : ℕ) (o : Option Deframer) (m : M RecvQueue) (h : Heap) (ys : List ℕ)
    (g : RecvQueue → M RecvQueue)
    → Refines dir o (m h)
    → ((s : RecvQueue) (h' : Heap)
        → m h ≡ some (s, h')
        → IsValid dir h' s
        → Refines dir (feed (view h' s) ys) (g s h'))
    → Refines dir (and_then o (λ d. feed d ys)) ((m >>= g) h)
Refines-bind dir none m h ys g e k = rw (e, ◌>>=◌)
Refines-bind dir (some d) m h ys g (s, h', e, v, w) k =
    Refines-path dir (feed d ys) (feed (view h' s) ys) ((m >>= g) h) (g s h')
      (ap (λ z. feed z ys) (sym w)) (rw (e, ◌>>=◌)) (k s h' e v)

pub frames_of-append :
    (h : Heap) (xs ys : List ℕ) → frames_of h (xs ++ ys) ≡ frames_of h xs ++ frames_of h ys
frames_of-append h [] ys = refl
frames_of-append h (x ∷ xs) ys = ap (λ r. bytes_at h x ∷ r) (frames_of-append h xs ys)

-- What a queue holds is not touched by a change elsewhere.
pub Queued-agree :
    (dir p : ℕ) (h h' : Heap) (s : RecvQueue)
    → AgreeBut p h h'
    → All (λ q. q ≢ p) s.pq
    → h.next ≤ h'.next
    → Queued dir h s
    → Queued dir h' s × (frames_of h' s.pq ≡ frames_of h s.pq)
Queued-agree dir p h h' s a ne le v = (
  record {
    way = v.way;
    buf = v.buf;
    frames = keep s.pq ne v.frames;
    old =
        All-weaken (λ q. q < h.next) (λ q. q < h'.next) (λ q lt. omega (arith, lt, le)) s.pq v.old;
    once = v.once;
  },
  same s.pq ne,
)
  where
    keep : (q : List ℕ) → All (λ x. x ≢ p) q → All (Frame dir h) q → All (Frame dir h') q
    keep [] ne f = tt
    keep (x ∷ q) ne ((k, c, w), f) = ((k, a x ne.0 ∙ c, w), keep q ne.1 f)

    same : (q : List ℕ) → All (λ x. x ≢ p) q → frames_of h' q ≡ frames_of h q
    same [] ne = refl
    same (x ∷ q) ne = ap₂ ◌∷◌ (ap cell_bytes (a x ne.0)) (same q ne.1)

-- A complete packet joins the queue.
pub finish_lem :
    (dir p : ℕ) (h : Heap) (s : RecvQueue) (k : Packet)
    → Queued dir h s
    → h.cell p ≡ some k
    → Headed dir k
    → p < h.next
    → All (λ q. q ≢ p) s.pq
    → IsValid dir h (finish p s)
      × (view h (finish p s)
          ≡ record { frames = frames_of h s.pq ++ k.data_bytes ∷ []; partial = [] })
unfolding finish pqh_push
finish_lem dir p h s k v c w lt ne = (
  record {
    queued = record {
      way = v.way;
      buf = v.buf;
      frames = All-append (Frame dir h) s.pq (p ∷ []) v.frames ((k, c, w), tt);
      old = All-append (λ q. q < h.next) s.pq (p ∷ []) v.old (lt, tt);
      once = Distinct-snoc s.pq p v.once ne;
    };
    reading = omega arith;
    small = tt;
  },
  ap (λ fs. record { frames = fs; partial = [] })
      (frames_of-append h s.pq (p ∷ [])
        ∙ ap (λ (x : Option Packet). frames_of h s.pq ++ cell_bytes x ∷ []) c),
)
