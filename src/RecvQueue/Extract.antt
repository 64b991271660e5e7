-- ===== src/RecvQueue/Extract.antt =====
-- The loop of recvq::recv over the bytes of one `readv`.
use Prim.Native.Nat.{min}
use rfx.Prelude.{
  ℕ, zero, suc, ◌+◌, ◌-◌, ◌%◌, ◌^◌, ◌≤◌, ◌<◌, ◌≡◌, refl, sym, ap, ap₂, ◌∙◌, ◌≢◌, Option, none, some,
  List, [], ◌∷◌, ◌++◌, arith, length, ==_refl, length-take, length-drop, Option-cases, inl, inr,
  All, All-take, All-drop, take, drop, take-append-drop,
}
use mathlib.Core.Path.{subst}
use mathlib.Core.Option.{some-injective}
use rfx.Packet.{Packet, Heap, ◌>>=◌}
use rfx.Packet.Lifetime.{cell_bytes}
use rfx.RecvQueue.{RecvQueue, rd_size, finish, settle, store_rd_buf, start_packet, extract}
use rfx.RecvQueue.Deframer.{feed, feed-append, and_then, feed-headed, headed}
use rfx.RecvQueue.Invariant.{
  IsByte, Headed, IsValid, Reading, Refines, Refines-path, Refines-bind, frames_of, view, read_of,
}
use rfx.RecvQueue.Header.{start_packet_lem}
use rfx.RecvQueue.Body.{body_lem, header_part_lem, grown, stored, store_bytes_run}

-- Between packets the position is zero.
abbrev pub Zeroed : RecvQueue → Type 0
Zeroed s = s.rd ≡ none → s.rd_pos ≡ 0

pub grown-Zeroed : (p pos len : ℕ) (s : RecvQueue) → Zeroed (grown p pos len s)
unfolding finish
grown-Zeroed p pos len s = ground arith

pub start_packet-Zeroed :
    (bs : List ℕ) (s s' : RecvQueue) (h h' : Heap) → start_packet bs s h ≡ some (s', h') → Zeroed s'
unfolding start_packet
start_packet-Zeroed bs s s' h h' e = ground arith

-- The packet at `p` after bytes were stored in it.
stored_len :
    (p : ℕ) (h : Heap) (k : Packet) (pos : ℕ) (cs : List ℕ) (s : RecvQueue) (n : ℕ)
    → settle p n s (stored h p k pos cs) ≡ some (grown p n k.len s, stored h p k pos cs)
unfolding settle
stored_len p h k pos cs s n = ground (arith, ==_refl p)

extract_body :
    (f b : ℕ) (bs : List ℕ) (s : RecvQueue) (h : Heap) (p : ℕ) (k : Packet)
    → s.rd ≡ some p
    → h.cell p ≡ some k
    → (n : ℕ) → n ≡ min (length (b ∷ bs)) ((k.len + 2 ^ 32 - s.rd_pos) % 2 ^ 32)
    → s.rd_pos + length (take n (b ∷ bs)) ≤ length k.data_bytes
    → length (take n (b ∷ bs)) ≡ n
    → extract (suc f) (b ∷ bs) s h
      ≡ extract f
          (drop n (b ∷ bs))
          (grown p (s.rd_pos + length (take n (b ∷ bs))) k.len s)
          (stored h p k s.rd_pos (take n (b ∷ bs)))
unfolding extract
extract_body f b bs s h p k rd c n ne le l =
    let cs = take n (b ∷ bs) in
    ground (
      arith,
      store_bytes_run p s.rd_pos cs h k c le,
      stored_len p h k s.rd_pos cs s (s.rd_pos + length cs),
      ap (λ m. s.rd_pos + m) l,
      ap (λ m. take m (b ∷ bs)) ne,
      ap (λ m. drop m (b ∷ bs)) ne,
    )

extract_header :
    (f b0 b1 b2 b3 : ℕ) (bs : List ℕ) (s : RecvQueue) (h : Heap)
    → s.rd ≡ none
    → extract (suc f) (b0 ∷ (b1 ∷ (b2 ∷ (b3 ∷ bs)))) s h
      ≡ (start_packet (b0 ∷ (b1 ∷ (b2 ∷ (b3 ∷ bs)))) s >>= extract f bs) h
unfolding extract
extract_header f b0 b1 b2 b3 bs s h rd = ground arith

extract_tail :
    (f b : ℕ) (bs : List ℕ) (s s' : RecvQueue) (h : Heap)
    → s.rd ≡ none
    → length (b ∷ bs) < rd_size
    → store_rd_buf (b ∷ bs) s h ≡ some (s', h)
    → extract (suc f) (b ∷ bs) s h ≡ some (record s' { rd_pos = s.rd_pos + length (b ∷ bs) }, h)
unfolding extract
extract_tail f b bs s s' h rd lt e = ground arith

-- What is read of the packet at `p`, given what the state says.
abbrev pub Body : ℕ → Heap → RecvQueue → ℕ → Type 0
Body dir h s p =
    (k : Packet) × (h.cell p ≡ some k)
    × Headed dir k
    × (rd_size ≤ s.rd_pos)
    × (s.rd_pos < k.len)
    × (p < h.next)
    × All (λ x. x ≢ p) s.pq
    × All IsByte (take s.rd_pos k.data_bytes)

pub IsValid-Body :
    (dir : ℕ) (h : Heap) (s : RecvQueue) (p : ℕ) → IsValid dir h s → s.rd ≡ some p → Body dir h s p
IsValid-Body dir h s p v rd =
    let (k, c, w, ge, lt, old, ne) = subst (λ r. Reading dir h r s.pq s.rd_pos) rd v.reading in
    (
      k,
      c,
      w,
      ge,
      lt,
      old,
      ne,
      subst (All IsByte) (ap (λ (x : Option Packet). take s.rd_pos (cell_bytes x)) c)
          (subst (λ r. All IsByte (read_of h r s.rd_buf s.rd_pos)) rd v.small),
    )

pub same_queue :
    (s s' : RecvQueue) (h h' : Heap)
    → ◌≡◌ {A = Option (RecvQueue × Heap)} (some (s, h)) (some (s', h'))
    → s ≡ s'
same_queue s s' h h' e = ap (λ x. x.0) (some-injective (s, h) (s', h') e)

-- The loop at smaller fuel.
abbrev Again : ℕ → ℕ → Type 0
Again dir f =
    (ys : List ℕ) (h : Heap) (s : RecvQueue)
    → length ys ≤ f
    → IsValid dir h s
    → Zeroed s
    → All IsByte ys
    → Refines dir (feed (view h s) ys) (extract f ys s h)

module _ (dir f : ℕ) (ih : Again dir f) (h : Heap) (s : RecvQueue) (v : IsValid dir h s)
    (z : Zeroed s) where
  extract_short :
      (b : ℕ) (ys : List ℕ)
      → All IsByte (b ∷ ys)
      → s.rd ≡ none
      → length (b ∷ ys) < rd_size
      → Refines dir (feed (view h s) (b ∷ ys)) (extract (suc f) (b ∷ ys) s h)
  extract_short b ys a e lt =
      let (buf, run, r) = header_part_lem dir h s (b ∷ ys) v e a (omega (arith, z e, lt)) in
      Refines-path dir _ _ _ _ refl (extract_tail f b ys s (record s { rd_buf = buf }) h e lt run) r

  extract_between :
      (b : ℕ) (ys : List ℕ)
      → length ys ≤ f
      → All IsByte (b ∷ ys)
      → s.rd ≡ none
      → Refines dir (feed (view h s) (b ∷ ys)) (extract (suc f) (b ∷ ys) s h)
  extract_between b [] l a e = extract_short b [] a e (omega arith)
  extract_between b (b1 ∷ []) l a e = extract_short b (b1 ∷ []) a e (omega arith)
  extract_between b (b1 ∷ (b2 ∷ [])) l a e = extract_short b (b1 ∷ (b2 ∷ [])) a e (omega arith)
  extract_between b (b1 ∷ (b2 ∷ (b3 ∷ ys))) l (s0, (s1, (s2, (s3, a)))) e =
      Refines-path dir _ (and_then (headed fs head) (λ d. feed d ys)) _
        ((start_packet (b ∷ (b1 ∷ (b2 ∷ (b3 ∷ ys)))) s >>= extract f ys) h)
        (ap (λ d. feed d (head ++ ys)) empty
          ∙ feed-append (record { frames = fs; partial = [] }) head ys
          ∙ ap (λ o. and_then o (λ d. feed d ys)) (feed-headed fs [] head (omega arith) refl))
        (extract_header f b b1 b2 b3 ys s h e)
        (Refines-bind dir (headed fs head) (start_packet (b ∷ (b1 ∷ (b2 ∷ (b3 ∷ ys)))) s) h ys
          (extract f ys) (start_packet_lem dir b b1 b2 b3 ys h s v.queued s0 s1 s2 s3)
          (λ s' h' eq v'. ih ys h' s' (omega arith) v' (start_packet-Zeroed _ s s' h h' eq) a))
    where
      fs : List (List ℕ)
      fs = frames_of h s.pq

      head : List ℕ
      head = b ∷ (b1 ∷ (b2 ∷ (b3 ∷ [])))

      empty : view h s ≡ record { frames = fs; partial = [] }
      empty = ap₂ (λ r n. record { frames = fs; partial = read_of h r s.rd_buf n }) e (z e)

  extract_inside :
      (b : ℕ) (bs : List ℕ) (p : ℕ)
      → length bs ≤ f
      → All IsByte (b ∷ bs)
      → s.rd ≡ some p
      → Body dir h s p
      → Refines dir (feed (view h s) (b ∷ bs)) (extract (suc f) (b ∷ bs) s h)
  extract_inside b bs p l a rd (k, c, w, ge, lt, old, ne, small) =
      let d = w.sound in
      let short = d.short in
      let n = min (length (b ∷ bs)) ((k.len + 2 ^ 32 - s.rd_pos) % 2 ^ 32) in
      let cs = take n (b ∷ bs) in
      let rest = drop n (b ∷ bs) in
      let size = length-take n (b ∷ bs) in
      let next = grown p (s.rd_pos + length cs) k.len s in
      let h1 = stored h p k s.rd_pos cs in
      Refines-path dir _ (and_then (feed (view h s) cs) (λ x. feed x rest)) _
        (extract f rest next h1)
        (ap (feed (view h s)) (sym (take-append-drop n (b ∷ bs))) ∙ feed-append (view h s) cs rest)
        (extract_body f b bs s h p k rd c n refl (omega (arith, size, lt, short, d.sized))
          (omega (arith, size)))
        (Refines-bind dir (feed (view h s) cs) (λ _. some (next, h1)) h rest (extract f rest)
          (body_lem dir p h s k cs v.queued rd c w ge old ne small (All-take IsByte n (b ∷ bs) a)
            (omega (arith, size, lt, short)) (omega (arith, size, lt, short)))
          (λ s' h' eq v'.
            ih rest h' s' (omega (arith, length-drop n (b ∷ bs), l, lt, short)) v'
              (subst Zeroed (same_queue next s' h1 h' eq)
                (grown-Zeroed p (s.rd_pos + length cs) k.len s))
              (All-drop IsByte n (b ∷ bs) a)))

-- The loop takes the queue where the framing goes.
pub extract_lem :
    (dir f : ℕ) (bs : List ℕ) (h : Heap) (s : RecvQueue)
    → length bs ≤ f
    → IsValid dir h s
    → Zeroed s
    → All IsByte bs
    → Refines dir (feed (view h s) bs) (extract f bs s h)
unfolding feed extract
extract_lem dir f [] h s le v z a = (s, h, refl, v, refl)
extract_lem dir zero (b ∷ bs) h s le v z a = absurd (omega arith)
extract_lem dir (suc f) (b ∷ bs) h s le v z a = elim (Option-cases s.rd) [
  | inl e ↦
      extract_between dir f (λ ys h' s' l v' z' a'. extract_lem dir f ys h' s' l v' z' a') h s v z b
        bs (omega arith) a e
  | inr (p, rd) ↦
      extract_inside dir f (λ ys h' s' l v' z' a'. extract_lem dir f ys h' s' l v' z' a') h s v z b
        bs p (omega arith) a rd (IsValid-Body dir h s p v rd)
]
