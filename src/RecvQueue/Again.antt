-- ===== src/RecvQueue/Again.antt =====
-- Packets that recvq::recv made of a peer's bytes, received again: what one proxy sends on, the next
-- one frames alike.
use mathlib.Core.Path.{subst}
use mathlib.Core.Option.{some-injective, none-ne-some}
use rfx.Prelude.{ℕ, ◌≡◌, sym, ap, ◌∙◌, some, List, [], ◌++◌, append-nil, All, All-left, inl, inr}
use rfx.Packet.{Heap}
use rfx.Packet.Lifetime.{stream}
use rfx.RecvQueue.{RecvQueue, recvq, recv, Arrival, Received}
use rfx.RecvQueue.Deframer.{feed}
use rfx.RecvQueue.Invariant.{IsByte, IsValid, view, frames_of}
use rfx.RecvQueue.Framing.{Framed, recv_lem}
use rfx.RecvQueue.Packets.{recvq-IsValid, recv-frames, stream_reframed}
use rfx.RecvQueue.Conserve.{feed_conserved, stream-join, partial_of}

-- What a run that gave a result ensures.
recv-Framed :
    (dir : ℕ) (calls : List Arrival) (peer : List ℕ) (h h' : Heap) (s : RecvQueue) (r : Received)
    → IsValid dir h s
    → All IsByte peer
    → recv calls peer s h ≡ some (r, h')
    → (used : List ℕ) × Framed dir calls peer h s r h' used
recv-Framed dir calls peer h h' s r v a e = elim (recv_lem dir calls peer h s v a) [
  | inl (r', h'', used, run, f) ↦ (
    used,
    subst (λ (x : Received × Heap). Framed dir calls peer h s x.0 x.1 used)
        (some-injective _ _ (sym run ∙ e)) f,
  )
  | inr (_, _, run, _) ↦ absurd (none-ne-some _ (sym run ∙ e))
]

-- The packets of a new queue are made of the peer's bytes.
received_bytes :
    (dir : ℕ) (calls : List Arrival) (peer : List ℕ) (h h' : Heap) (r : Received)
    → All IsByte peer
    → recv calls peer (recvq dir) h ≡ some (r, h')
    → IsValid dir h' r.queue × All IsByte (stream h' r.queue.pq)
received_bytes dir calls peer h h' r a e =
    let (v, new) = recvq-IsValid dir h in
    let (used, f) = recv-Framed dir calls peer h h' (recvq dir) r v a e in
    let framed = ap (λ d. feed d used) (sym new) ∙ f.framed in
    let all = feed_conserved _ _ used framed in
    let own = sym (ap (λ z. z ++ partial_of h' r.queue) (stream-join h' r.queue.pq)) ∙ all in
    (
      f.valid,
      All-left IsByte (stream h' r.queue.pq) (partial_of h' r.queue) (
          subst (All IsByte) (sym own)
            (All-left IsByte used r.rest (subst (All IsByte) f.prefix a))),
    )

-- If `recvq::recv` on a new queue gave a result on bytes below 256, then on the bytes of the
-- packets that it made, one packet after another, `recv` of another new queue gives a result for
-- every sequence of `readv` calls; and if that leaves nothing unread, its packets have, one by
-- one, the bytes of those of the first queue, and it has no incomplete packet.
pub received_again :
    (dir dir' : ℕ) (calls calls' : List Arrival) (peer : List ℕ) (h0 h1 h : Heap) (r1 : Received)
    → All IsByte peer
    → recv calls peer (recvq dir) h0 ≡ some (r1, h1)
    → (r : Received) × (h' : Heap) × (recv calls' (stream h1 r1.queue.pq) (recvq dir') h
        ≡ some (r, h'))
      × (r.rest ≡ []
          → (frames_of h' r.queue.pq ≡ frames_of h1 r1.queue.pq) × (partial_of h' r.queue ≡ []))
received_again dir dir' calls calls' peer h0 h1 h r1 a e =
    let (v, bytes) = received_bytes dir calls peer h0 h1 r1 a e in
    let (v', new) = recvq-IsValid dir' h in
    let out = stream h1 r1.queue.pq in
    let again = ap (λ d. feed d out) new ∙ stream_reframed dir h1 r1.queue v in
    let (r, h', used, run, f) =
      recv-frames dir' calls' out h (recvq dir') v' bytes (λ n. none-ne-some _ (sym n ∙ again)) in
    (
      r,
      h',
      run,
      λ none_left.
          let whole = sym (append-nil used) ∙ ap (λ z. used ++ z) (sym none_left) ∙ sym f.prefix in
          let same =
            some-injective _ _ (sym f.framed ∙ ap (feed (view h (recvq dir'))) whole ∙ again) in
          (ap (λ d. d.frames) same, ap (λ d. d.partial) same),
    )
