-- ===== src/SendQueue/Round.antt =====
-- The rest of a round of `sendq::send`: the first entry is moved on, and an empty vector is set up
-- anew from the queue.
use rfx.Prelude.{
  drop-drop, ℕ, zero, suc, ◌+◌, ◌-◌, ◌%◌, ◌^◌, ◌≤◌, ◌<◌, ◌≡◌, refl, sym, ap, ap₂, ◌∙◌, Option, some,
  List, [], ◌∷◌, ◌++◌, append_assoc, arith, length, take, drop, All, length-append, ltb, set,
  Bool-cases, inl, inr, get_elem?, ◌⊎◌, drop-append-short, length-set,
}
use rfx.Packet.{Packet, Heap}
use rfx.Packet.Lifetime.{IsSound, Live, bytes_at, cell_bytes}
use rfx.PacketQueue.{Iovec, whole}
use rfx.SendQueue.{SendQueue, advance, fill_from, wrivcnt}
use rfx.SendQueue.Window.{get_elem?-drop, take-set_first, take-set_last}
use rfx.SendQueue.Stream.{Entry, rest_of, pending, length-rest_of, wholes, whole_at, wholes-append}
use rfx.SendQueue.Drain.{InOrder, Holds, Inside}

-- A vector and a queue in order, which owe the bytes `owed`.
pub record Owes (h : Heap) (ws : List Iovec) (t : SendQueue) (owed : List ℕ) : Type 0 where
  pub count : t.svc ≡ length ws
  pub holds : Holds ws t
  pub order : InOrder h ws t.pq
  pub debt : pending h ws t.pq ≡ owed

abbrev moved_on : Iovec → ℕ → Iovec
moved_on v n = record v { off = v.off + n; iov_len = (v.iov_len + 2 ^ 64 - n) % 2 ^ 64 }

advance_run :
    (n : ℕ) (t : SendQueue) (v : Iovec) (h : Heap)
    → get_elem? t.svbuf t.sv ≡ some v
    → t.sv < length t.svbuf
    → 0 < n
    → advance n t h ≡ some (record t { svbuf = set t.svbuf t.sv (moved_on v n) }, h)
unfolding advance
advance_run n t v h g lt pos =
    let z : t.sv + 0 ≡ t.sv = omega arith in
    ground (arith, ap (λ i. set t.svbuf i (moved_on v n)) z)

moved_on-Entry :
    (h : Heap) (v : Iovec) (p n : ℕ)
    → Live h p
    → Entry h v p
    → n < v.iov_len
    → Entry h (moved_on v n) p × (rest_of h (moved_on v n) ≡ drop n (rest_of h v))
moved_on-Entry h v p n (k, c, s) (b, e, pos) lt =
    let f = ap (λ (x : Option Packet). length (cell_bytes x)) c in
    (
      (b, omega (arith, f, s.sized, s.short, e, lt), omega (arith, f, s.sized, s.short, e, lt)),
      sym (drop-drop v.off n (bytes_at h v.base)),
    )

-- `advance` leaves a queue that owes the bytes past those left over.
pub advance-Owes :
    (left : ℕ) (ws : List Iovec) (q : List ℕ) (t : SendQueue) (h : Heap)
    → t.pq ≡ q
    → t.svc ≡ length ws
    → Holds ws t
    → InOrder h ws q
    → Inside left ws
    → (u : SendQueue) × (vs : List Iovec) × (advance left t h ≡ some (u, h))
      × Owes h vs u (drop left (pending h ws q))
      × (length u.svbuf ≡ length t.svbuf)
unfolding advance
advance-Owes zero ws q t h e c w o i =
    (t, ws, refl, record { count = c; holds = w; order = rw e o; debt = ap (pending h ws) e }, refl)
advance-Owes (suc n) [] q t h e c w o i = absurd (omega arith)
advance-Owes (suc n) (v ∷ vs) [] t h e c w o i = absurd o.lined
advance-Owes (suc n) (v ∷ vs) (p ∷ q) t h e c w o i =
    let (g, _) = get_elem?-drop t.svbuf t.sv (length vs) v vs w.entries in
    let (en, r) = moved_on-Entry h v p (suc n) o.live.0 o.lined.0 i in
    let long = length-rest_of h v p o.lined.0 in
    (
      record t { svbuf = set t.svbuf t.sv (moved_on v (suc n)) },
      moved_on v (suc n) ∷ vs,
      advance_run (suc n) t v h g (omega (arith, w.fits)) (omega arith),
      record {
        count = c;
        holds = record {
          entries = take-set_first t.svbuf t.sv (length vs) v (moved_on v (suc n)) vs w.entries;
          fits = omega (arith, w.fits, length-set t.svbuf t.sv (moved_on v (suc n)));
        };
        order = rw e (record { lined = (en, o.lined.1); live = o.live; once = o.once });
        debt =
            ap (pending h (moved_on v (suc n) ∷ vs)) e
            ∙ ap (λ z. z ++ pending h vs q) r
            ∙ sym
                (drop-append-short (suc n) (rest_of h v) (pending h vs q) (omega (arith, long, i)));
      },
      length-set t.svbuf t.sv (moved_on v (suc n)),
    )

-- What setting up the vector leaves: entries for the packets `ds`, the first of the queue.
pub record Filled (h : Heap) (s t : SendQueue) (ds es : List ℕ) : Type 0 where
  pub same : t.pq ≡ s.pq
  pub front : t.sv ≡ 0
  pub count : t.svc ≡ length ds
  pub entries : take (length ds) t.svbuf ≡ wholes h ds
  pub size : length t.svbuf ≡ wrivcnt
  pub enough : (es ≡ []) ⊎ (length ds ≡ wrivcnt)

fill_step :
    (p : ℕ) (rest : List ℕ) (s : SendQueue) (h : Heap) (n : ℕ) (k : Packet)
    → s.sv ≡ 0
    → s.svc ≡ n
    → length s.svbuf ≡ wrivcnt
    → n < wrivcnt
    → h.cell p ≡ some k
    → fill_from (p ∷ rest) s h
      ≡ fill_from rest (record s { svc = n + 1; svbuf = set s.svbuf n (whole p k) }) h
unfolding fill_from
fill_step p rest s h n k z c l lt e =
    let i : s.sv + s.svc ≡ n = omega arith in ground (arith, ap (λ j. set s.svbuf j (whole p k)) i)

pub fill_lem :
    (rest done : List ℕ) (s : SendQueue) (h : Heap)
    → s.sv ≡ 0
    → s.svc ≡ length done
    → take (length done) s.svbuf ≡ wholes h done
    → length s.svbuf ≡ wrivcnt
    → length done ≤ wrivcnt
    → All (Live h) rest
    → (t : SendQueue) × (ds : List ℕ) × (es : List ℕ) × (fill_from rest s h ≡ some (t, h))
      × (ds ++ es ≡ done ++ rest)
      × Filled h s t ds es
unfolding fill_from
fill_lem [] done s h z c w l le a = (
  s,
  done,
  [],
  refl,
  refl,
  record { same = refl; front = z; count = c; entries = w; size = l; enough = inl refl },
)
fill_lem (p ∷ rest) done s h z c w l le a = elim (Bool-cases (ltb (length done) wrivcnt)) [
  | inl more ↦
      let (k, e, snd) = a.0 in
      let lt : length done < wrivcnt = ground arith in
      let s' : SendQueue = record s {
        svc = length done + 1;
        svbuf = set s.svbuf (length done) (whole p k);
      } in
      let (t, ds, es, run, parts, f) =
        fill_lem rest (done ++ p ∷ []) s' h z (omega (arith, length-append done (p ∷ [])))
          (ap (λ j. take j s'.svbuf) (length-append done (p ∷ []))
            ∙ take-set_last s.svbuf (length done) (whole p k) (omega (arith, l, lt))
            ∙ ap₂ (λ x y. x ++ y ∷ []) w (same_entry k e snd)
            ∙ sym (wholes-append h done (p ∷ [])))
          (omega (arith, length-set s.svbuf (length done) (whole p k), l))
          (omega (arith, length-append done (p ∷ []), lt)) a.1 in
      (
        t,
        ds,
        es,
        fill_step p rest s h (length done) k z c l lt e ∙ run,
        parts ∙ append_assoc done (p ∷ []) rest,
        record {
          same = f.same;
          front = f.front;
          count = f.count;
          entries = f.entries;
          size = f.size;
          enough = f.enough;
        },
      )
  | inr full ↦ (
    s,
    done,
    p ∷ rest,
    ground arith,
    refl,
    record {
      same = refl;
      front = z;
      count = c;
      entries = w;
      size = l;
      enough = inr (ground arith);
    },
  )
]
  where
    same_entry : (k : Packet) → h.cell p ≡ some k → IsSound k → whole p k ≡ whole_at h p
    same_entry k e snd =
        ap (λ n. record { base = p; off = 0; iov_len = n })
          (snd.sized ∙ sym (ap (λ (x : Option Packet). length (cell_bytes x)) e))
