-- ===== src/RecvQueue/Packets.antt =====
-- What recvq::recv guarantees of its packets: safety, independence of the pieces in which the bytes
-- arrive, and packets that travel on unchanged.
use rfx.Prelude.{
  ℕ, suc, ◌≤◌, ◌≡◌, refl, sym, ap, ◌∙◌, ◌≢◌, Option, none, some, List, [], ◌∷◌, ◌++◌, append_assoc,
  append-nil, arith, length, length-append, All, inl, inr,
}
use mathlib.Core.Option.{some-injective, none-ne-some}
use rfx.Packet.{Packet, Heap}
use rfx.Packet.Lifetime.{bytes_at, stream, cell_bytes}
use rfx.Wire.{get_int16}
use rfx.RecvQueue.{RecvQueue, recvq, recv, Arrival, Received}
use rfx.RecvQueue.Deframer.{feed, feed-append, and_then, frame_len, feed-headed, feed_rest, headed}
use rfx.RecvQueue.Invariant.{IsByte, IsValid, Frame, view, frames_of}
use rfx.RecvQueue.Framing.{Framed, Runs, recv_lem}

-- A new queue has read nothing.
pub recvq-IsValid :
    (dir : ℕ) (h : Heap)
    → IsValid dir h (recvq dir) × (view h (recvq dir) ≡ record { frames = []; partial = [] })
unfolding recvq
recvq-IsValid dir h = (
  record {
    queued = record { way = refl; buf = refl; frames = tt; old = tt; once = tt };
    reading = omega arith;
    small = tt;
  },
  refl,
)

-- If no header of the peer's bytes announces fewer than four bytes, `recv` is no fault: it touches no
-- memory that is not its own, and its packets are the frames of the bytes that it read.
pub recv-frames :
    (dir : ℕ) (calls : List Arrival) (peer : List ℕ) (h : Heap) (s : RecvQueue)
    → IsValid dir h s
    → All IsByte peer
    → feed (view h s) peer ≢ none
    → (r : Received) × (h' : Heap) × (used : List ℕ) × (recv calls peer s h ≡ some (r, h'))
      × Framed dir calls peer h s r h' used
recv-frames dir calls peer h s v a ok = elim (recv_lem dir calls peer h s v a) [
  | inl x ↦ x
  | inr (used, rest, run, b) ↦ absurd (
      ok (
        ap (feed (view h s)) b.prefix
        ∙ feed-append (view h s) used rest
        ∙ ap (λ o. and_then o (λ d. feed d rest)) b.short))
]

pub append_cancel {ℓ} : {A : Type ℓ} (xs ys zs : List A) → xs ++ zs ≡ ys ++ zs → xs ≡ ys
append_cancel [] [] zs e = refl
append_cancel [] (y ∷ ys) zs e = absurd (omega (arith, ap length e, length-append ys zs))
append_cancel (x ∷ xs) [] zs e = absurd (omega (arith, ap length e, length-append xs zs))
append_cancel (x ∷ xs) (y ∷ ys) zs e =
    let t : xs ++ zs ≡ ys ++ zs = ground arith in
    let u = append_cancel xs ys zs t in ground (arith, u)

-- Two runs of `recvq::recv` from the same queue in order, over the same bytes below 256, that
-- give results and leave the same bytes unread, hold equal packets and an equal incomplete
-- packet, whatever pieces the bytes came in.
pub recv_in_any_pieces :
    (dir : ℕ) (calls calls' : List Arrival) (peer : List ℕ) (h h1 h2 : Heap) (s : RecvQueue)
    (r1 r2 : Received)
    → IsValid dir h s
    → All IsByte peer
    → recv calls peer s h ≡ some (r1, h1)
    → recv calls' peer s h ≡ some (r2, h2)
    → r1.rest ≡ r2.rest
    → view h1 r1.queue ≡ view h2 r2.queue
recv_in_any_pieces dir calls calls' peer h h1 h2 s r1 r2 v a e1 e2 same =
    both (recv_lem dir calls peer h s v a) (recv_lem dir calls' peer h s v a)
  where
    both : Runs dir calls peer h s → Runs dir calls' peer h s → view h1 r1.queue ≡ view h2 r2.queue
    both (inr (_, _, n, _)) y = absurd (none-ne-some _ (sym n ∙ e1))
    both (inl x) (inr (_, _, n, _)) = absurd (none-ne-some _ (sym n ∙ e2))
    both (inl (r, h', used, run, f)) (inl (r', h'', used', run', f')) =
        let p = some-injective _ _ (sym run ∙ e1) in
        let q = some-injective _ _ (sym run' ∙ e2) in
        let rest = ap (λ x. (x.0).rest) p ∙ same ∙ sym (ap (λ x. (x.0).rest) q) in
        let used_same =
          append_cancel used used' r'.rest
            (ap (λ z. used ++ z) (sym rest) ∙ sym f.prefix ∙ f'.prefix) in
        sym (ap (λ x. view x.1 (x.0).queue) p)
        ∙ some-injective _ _ (sym f.framed ∙ ap (feed (view h s)) used_same ∙ f'.framed)
        ∙ ap (λ x. view x.1 (x.0).queue) q

-- A frame that is complete.
pub record IsFrame (f : List ℕ) : Type 0 where
  pub header : 4 ≤ length f
  pub announced : length f ≡ frame_len f

abbrev pub join : List (List ℕ) → List ℕ
join [] = []
join (f ∷ fs) = f ++ join fs

-- The framing of a frame's own bytes is that frame.
feed_frame :
    (gs : List (List ℕ)) (f : List ℕ)
    → IsFrame f
    → feed (record { frames = gs; partial = [] }) f
      ≡ some (record { frames = gs ++ f ∷ []; partial = [] })
feed_frame gs [] w = absurd (omega (arith, w.header))
feed_frame gs (b0 ∷ []) w = absurd (omega (arith, w.header))
feed_frame gs (b0 ∷ (b1 ∷ [])) w = absurd (omega (arith, w.header))
feed_frame gs (b0 ∷ (b1 ∷ (b2 ∷ []))) w = absurd (omega (arith, w.header))
feed_frame gs (b0 ∷ (b1 ∷ (b2 ∷ (b3 ∷ [])))) w =
    let e : 4 ≡ get_int16 b0 b1 = w.announced in
    feed-headed gs [] (b0 ∷ (b1 ∷ (b2 ∷ (b3 ∷ [])))) (omega arith) refl ∙ ground (arith, e)
feed_frame gs (b0 ∷ (b1 ∷ (b2 ∷ (b3 ∷ (b4 ∷ rest))))) w =
    let head = b0 ∷ (b1 ∷ (b2 ∷ (b3 ∷ []))) in
    let e : suc (suc (suc (suc (suc (length rest))))) ≡ get_int16 b0 b1 = w.announced in
    let begun : headed gs head ≡ some (record { frames = gs; partial = head }) =
      ground (arith, e) in
    feed-append (record { frames = gs; partial = [] }) head (b4 ∷ rest)
    ∙ ap (λ o. and_then o (λ d. feed d (b4 ∷ rest)))
        (feed-headed gs [] head (omega arith) refl ∙ begun)
    ∙ feed_rest gs head (b4 ∷ rest) (omega arith) (omega (arith, e)) (omega arith)
        (omega (arith, e))

-- The framing of frames one after another is those frames.
pub feed-join :
    (fs gs : List (List ℕ))
    → All IsFrame fs
    → feed (record { frames = gs; partial = [] }) (join fs)
      ≡ some (record { frames = gs ++ fs; partial = [] })
feed-join [] gs a =
    unfold feed in ap (λ z. some (record { frames = z; partial = [] })) (sym (append-nil gs))
feed-join (f ∷ fs) gs a =
    feed-append (record { frames = gs; partial = [] }) f (join fs)
    ∙ ap (λ o. and_then o (λ d. feed d (join fs))) (feed_frame gs f a.0)
    ∙ feed-join fs (gs ++ f ∷ []) a.1
    ∙ ap (λ z. some (record { frames = z; partial = [] })) (append_assoc gs (f ∷ []) fs)

frames_join :
    (dir : ℕ) (h : Heap) (q : List ℕ)
    → All (Frame dir h) q
    → All IsFrame (frames_of h q) × (stream h q ≡ join (frames_of h q))
frames_join dir h [] a = (tt, refl)
frames_join dir h (p ∷ q) ((k, c, w), a) =
    let (i, j) = frames_join dir h q a in
    let e = ap (λ (x : Option Packet). cell_bytes x) c in
    let n = (w.sound).sized in
    let f = w.full_header in
    (
      (
        record {
          header = omega (arith, ap length e, n, f);
          announced = ap length e ∙ sym n ∙ w.len_is ∙ sym (ap frame_len e);
        },
        i,
      ),
      ap (λ z. bytes_at h p ++ z) j,
    )

-- The bytes of a queue's packets are framed into the same packets.
pub stream_reframed :
    (dir : ℕ) (h : Heap) (s : RecvQueue)
    → IsValid dir h s
    → feed (record { frames = []; partial = [] }) (stream h s.pq)
      ≡ some (record { frames = frames_of h s.pq; partial = [] })
stream_reframed dir h s v =
    let (a, e) = frames_join dir h s.pq (v.queued).frames in
    ap (feed (record { frames = []; partial = [] })) e ∙ feed-join (frames_of h s.pq) [] a
