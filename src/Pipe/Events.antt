-- ===== src/Pipe/Events.antt =====
-- What the event handlers of a pipe ensure.
use rfx.Prelude.{
  ℕ, ◌≡◌, ap, sym, ◌∙◌, ◌↔◌, ◌⊎◌, ◌≢◌, append-nil, length, take, drop, inl, inr, true, false, some,
  List, [], ◌++◌, arith,
}
use mathlib.Core.Path.{subst}
use rfx.Packet.{Heap}
use rfx.Packet.Lifetime.{stream}
use rfx.SendQueue.Stream.{pending, length-pending_le}
use rfx.SendQueue.{SendQueue, window, Outcome, Sent}
use rfx.SendQueue.Sending.{IsReady, owed, length-window}
use rfx.SendQueue.Delivery.{send_lem}
use rfx.Pipe.{Pipe, handle_write_event, after_send, done}

-- A pipe is done exactly if its write side failed, or its input has ended and both queues are empty.
pub done_iff :
    (p : Pipe)
    → (done p ≡ true)
      ↔ ((p.broken ≡ true) ⊎ ((p.eof ≡ true) × ((p.rcvq).pq ≡ []) × ((p.sndq).pq ≡ [])))
unfolding done
done_iff p = (ground arith, ground arith)

-- After `handle_write_event` on a send queue in order: the queue is in order, and
-- what was owed went out or still is owed.
pub record Written (h : Heap) (p : Pipe) (wire : List ℕ) (q : Pipe) (h' : Heap) : Type 0 where
  pub ready : IsReady h' q.sndq
  pub conserved : owed h p.sndq ≡ wire ++ owed h' q.sndq
  pub same_input : q.rcvq ≡ p.rcvq
  pub same_eof : q.eof ≡ p.eof
  -- The output is half-closed by it only after the end of the input, with nothing left to
  -- filter, and with all that was owed written, unless the peer failed.
  pub half_close :
      p.out_shut ≡ false
      → q.out_shut ≡ true
      → (p.eof ≡ true)
        × ((p.rcvq).pq ≡ [])
        × ((q.broken ≡ true) ⊎ (((q.sndq).pq ≡ []) × (owed h p.sndq ≡ wire)))
  -- While the write watcher is on, something is left to write.
  pub watched : p.out_active ≡ false → q.out_active ≡ true → (q.sndq).pq ≢ []

nothing_left :
    (h : Heap) (s : SendQueue) → IsReady h s → (s.svc ≡ 0 → s.pq ≡ []) → s.svc ≡ 0 → owed h s ≡ []
nothing_left h s i idle z =
    ap (λ n. pending h (take n (drop s.sv s.svbuf)) s.pq) z ∙ ap (stream h) (idle z)

something_left : (h : Heap) (s : SendQueue) → IsReady h s → s.svc ≢ 0 → s.pq ≢ []
something_left h s i n e =
    let f = i.fits in
    let z = i.size in
    let l = length-pending_le h (window s) s.pq (i.order).lined in
    n (omega (arith, l, ap length e, length-window s (omega (arith, f, z))))

module _ (r : Sent) (p : Pipe) where
  pub after_send-input :
      ((after_send r p).rcvq ≡ p.rcvq)
      × ((after_send r p).eof ≡ p.eof)
      × ((after_send r p).sndq ≡ r.queue)
  unfolding after_send
  after_send-input = ground arith

  after_send-half_close :
      p.out_shut ≡ false
      → (after_send r p).out_shut ≡ true
      → (p.eof ≡ true)
        × ((p.rcvq).pq ≡ [])
        × (((after_send r p).broken ≡ true) ⊎ ((r.queue).svc ≡ 0))
  unfolding after_send
  after_send-half_close a b = ground arith

  after_send-watched : p.out_active ≡ false → (after_send r p).out_active ≡ true → (r.queue).svc ≢ 0
  unfolding after_send
  after_send-watched a b = ground arith

-- On a pipe whose send queue is in order, `handle_write_event` gives a result: the send queue is
-- in order; what it wrote, then what it still owes, is what it owed; the receive queue and the
-- end-of-input flag are as before; it half-closes the output only at the end of the input with
-- an empty receive queue, and either the write side has failed or all that was owed is written
-- and the send queue is empty; it starts the write watcher only if the send queue holds a
-- packet.
pub handle_write_event_lem :
    (os : List Outcome) (p : Pipe) (h : Heap)
    → IsReady h p.sndq
    → (wire : List ℕ) × (q : Pipe) × (h' : Heap) × (handle_write_event os p h
        ≡ some ((wire, q), h'))
      × Written h p wire q h'
unfolding handle_write_event
handle_write_event_lem os p h i =
    let (r, h', run, d) = send_lem os p.sndq h i in
    let (rcv, e, snd) = after_send-input r p in
    let empty = λ (z : (r.queue).svc ≡ 0).
      d.conserved
      ∙ ap (λ x. r.wire ++ x) (nothing_left h' r.queue d.ready d.idle z)
      ∙ append-nil r.wire in
    (
      r.wire,
      after_send r p,
      h',
      ground (arith, run),
      record {
        ready = subst (IsReady h') (sym snd) d.ready;
        conserved = d.conserved ∙ ap (λ s. r.wire ++ owed h' s) (sym snd);
        same_input = rcv;
        same_eof = e;
        half_close = λ a b.
            let (x, y, o) = after_send-half_close r p a b in
            (x, y, elim o [ inl f ↦ inl f | inr z ↦ inr (ap (λ s. s.pq) snd ∙ d.idle z, empty z) ]);
        watched = λ a b f.
            something_left h' r.queue d.ready (after_send-watched r p a b)
              (ap (λ s. s.pq) (sym snd) ∙ f);
      },
    )
