-- ===== src/Session/Passive.antt =====
-- A session whose filters add and drop nothing.
use rfx.Prelude.{
  ℕ, zero, suc, ◌⊎◌, inl, inr, ◌≡◌, refl, sym, ap, ap₂, ◌∙◌, Option, none, some, List, [], ◌∷◌,
  ◌++◌, length, arith, All, Distinct, All-append, ◌≢◌, append-nil, append_assoc,
}
use mathlib.Core.Path.{subst}
use rfx.Packet.{Heap}
use rfx.Packet.Lifetime.{Live, bytes_at, stream}
use rfx.PacketQueue.{pqh_pop}
use rfx.SendQueue.Sending.{IsReady, owed}
use rfx.RecvQueue.{RecvQueue}
use rfx.Pipe.{Pipe, pop_in}
use rfx.Filters.{Filter, Verdict, decline, stop_here, Work, process_packet, process_events}
use rfx.Session.{
  Session, pipe_of, put_pipe, enqueue, append_packet, filter_packet, filter_loop, filter, no_work,
}
use rfx.Session.Marks.{
  Sendable, Shown, Shown-trans, Shown-refl, Shown-Kept, Shown-Sendable, Sendable-Live, Kept-IsReady,
  Kept,
}
use rfx.Session.Ends.{
  far_of, pipe_of-flt, far_of-flt, line_lem, pipe_of-put_pipe, far_of-put_pipe, flt-put_pipe,
}

-- A filter that, from a state in `Quiet`, adds nothing, drops nothing, and stays in `Quiet`. It may
-- mark the packet as shown, describe it, and stop the chain.
pub record IsPassive {S : Type 0} (F : Filter S) (Quiet : S → Type 0) : Type 0 where
  pub step :
      (s : S) (p : ℕ) (w : Work) (h : Heap)
      → Quiet s
      → Live h p
      → (v : Verdict) × (s' : S) × (h' : Heap) × (F.process_packet s p w h ≡ some ((v, s', w), h'))
        × Quiet s'
        × Shown h h'

module _ {S : Type 0} (F : Filter S) (Quiet : S → Type 0) (passive : IsPassive F Quiet) where
  abbrev pub QuietOr : Option S → Type 0
  QuietOr none = Unit {0}
  QuietOr (some s) = Quiet s

  chain_lem :
      (is : List (Option S)) (p : ℕ) (w : Work) (h : Heap)
      → All QuietOr is
      → Live h p
      → (is' : List (Option S)) × (h' : Heap) × (process_packet F is p w h ≡ some ((is', w), h'))
        × All QuietOr is'
        × Shown h h'
  unfolding process_packet
  chain_lem [] p w h q l = ([], h, refl, tt, Shown-refl h)
  chain_lem (none ∷ is) p w h q l =
      let (is', h', e, a, s) = chain_lem is p w h q.1 l in
      (none ∷ is', h', ground (arith, e), (tt, a), s)
  chain_lem (some x ∷ is) p w h q l =
      let (v, x', h1, e, qx, s) = passive.step x p w h q.0 l in
      elim (decide v) [
        | inl stopped ↦ (some x' ∷ is, h1, ground (arith, e, stopped), (qx, q.1), s)
        | inr goes_on ↦
            let (is', h', f, a, s') =
              chain_lem is p w h1 q.1 ((Shown-Kept h h1 (p ∷ []) s (l, tt)).0).1 in
            (some x' ∷ is', h', ground (arith, e, goes_on, f), (qx, a), Shown-trans h h1 h' s s')
      ]
    where
      decide : (v : Verdict) → (v ≡ stop_here) ⊎ (v ≡ decline)
      decide stop_here = inl refl
      decide decline = inr refl

  events_none :
      (fuel : ℕ) (is : List (Option S)) (h : Heap)
      → process_events F fuel is no_work h ≡ some ((is, no_work), h)
  unfolding process_events
  events_none zero is h = refl
  events_none (suc n) is h = refl

  -- What one packet leads to: its bytes are owed, behind what was, and nothing else is.
  record Passed (d p : ℕ) (r : Session S) (h : Heap) (r' : Session S) (h' : Heap) : Type 0 where
    ready : IsReady h' (pipe_of d r').sndq
    far_ready : IsReady h' (far_of d r').sndq
    debt : owed h' (pipe_of d r').sndq ≡ owed h (pipe_of d r).sndq ++ bytes_at h p
    far_debt : owed h' (far_of d r').sndq ≡ owed h (far_of d r).sndq
    packets : ((pipe_of d r').sndq).pq ≡ ((pipe_of d r).sndq).pq ++ p ∷ []
    input : (pipe_of d r').rcvq ≡ (pipe_of d r).rcvq
    far_packets : ((far_of d r').sndq).pq ≡ ((far_of d r).sndq).pq
    far_input : (far_of d r').rcvq ≡ (far_of d r).rcvq
    chain : All QuietOr r'.flt
    shown : Shown h h'

  packet_run :
      (fuel d p : ℕ) (r r1 r2 r3 : Session S) (is : List (Option S)) (h h1 : Heap)
      → process_packet F r.flt p no_work h ≡ some ((is, no_work), h1)
      → enqueue [] (record r { flt = is }) h1 ≡ some (r1, h1)
      → append_packet d p r1 h1 ≡ some (r2, h1)
      → enqueue [] r2 h1 ≡ some (r3, h1)
      → filter_packet F fuel d p r h ≡ some (r3, h1)
  unfolding filter_packet
  packet_run fuel d p r r1 r2 r3 is h h1 e f g k =
      ground (arith, e, f, g, k, events_none fuel is h1)

  packet_lem :
      (fuel d p : ℕ) (r : Session S) (h : Heap)
      → IsReady h (pipe_of d r).sndq
      → IsReady h (far_of d r).sndq
      → Sendable h p
      → All (λ q. q ≢ p) ((pipe_of d r).sndq).pq
      → All QuietOr r.flt
      → (r' : Session S) × (h' : Heap) × (filter_packet F fuel d p r h ≡ some (r', h'))
        × Passed d p r h r' h'
  packet_lem fuel d p r h own far live apart quiet =
      let (is, h1, e, q, s) =
        chain_lem r.flt p no_work h quiet (Sendable-Live h (p ∷ []) (live, tt)).0 in
      let r0 : Session S = record r { flt = is } in
      let po = pipe_of-flt d r is in
      let pf = far_of-flt d r is in
      let (i, x) = Kept-IsReady h h1 (pipe_of d r).sndq (Shown-Kept h h1 _ s own.order.live) own in
      let (j, y) = Kept-IsReady h h1 (far_of d r).sndq (Shown-Kept h h1 _ s far.order.live) far in
      let (r1, r2, r3, e1, e2, e3, l) =
        line_lem d p r0 h1 (subst (λ z. IsReady h1 z.sndq) (sym po) i)
          (subst (λ z. IsReady h1 z.sndq) (sym pf) j) (Shown-Sendable h h1 (p ∷ []) s (live, tt)).0
          (subst (λ z. All (λ q. q ≢ p) (z.sndq).pq) (sym po) apart) in
      let bytes = ((Shown-Kept h h1 (p ∷ []) s (Sendable-Live h (p ∷ []) (live, tt))).0).0 in
      (
        r3,
        h1,
        packet_run fuel d p r r1 r2 r3 is h h1 e e1 e2 e3,
        record {
          ready = l.own.ready;
          far_ready = l.far_ready;
          debt = l.own.debt ∙ ap₂ ◌++◌ (ap (λ z. owed h1 z.sndq) po ∙ x) bytes;
          far_debt = l.far_debt ∙ ap (λ z. owed h1 z.sndq) pf ∙ y;
          packets = l.own.packets ∙ ap (λ z. (z.sndq).pq ++ p ∷ []) po;
          input = l.own.input ∙ ap (λ z. z.rcvq) po;
          far_packets = l.far_packets ∙ ap (λ z. (z.sndq).pq) pf;
          far_input = l.far_input ∙ ap (λ z. z.rcvq) pf;
          chain = subst (All QuietOr) (sym l.chain) q;
          shown = s;
        },
      )

  -- What `filter` ensures: the packets received are owed, in their order.
  pub record Filtered (d : ℕ) (q : List ℕ) (r : Session S) (h : Heap) (r' : Session S) (h' : Heap)
      : Type 0 where
    pub ready : IsReady h' (pipe_of d r').sndq
    pub far_ready : IsReady h' (far_of d r').sndq
    pub debt : owed h' (pipe_of d r').sndq ≡ owed h (pipe_of d r).sndq ++ stream h q
    pub far_debt : owed h' (far_of d r').sndq ≡ owed h (far_of d r).sndq
    pub packets : ((pipe_of d r').sndq).pq ≡ ((pipe_of d r).sndq).pq ++ q
    pub far_packets : ((far_of d r').sndq).pq ≡ ((far_of d r).sndq).pq
    pub emptied : (pipe_of d r').rcvq ≡ record ((pipe_of d r).rcvq) { pq = [] }
    pub far_input : (far_of d r').rcvq ≡ (far_of d r).rcvq
    pub shown : Shown h h'
    pub chain : All QuietOr r'.flt

  abbrev popped : Pipe → List ℕ → Pipe
  popped p q = record p { rcvq = record (p.rcvq) { pq = q } }

  loop_nil :
      (fuel d : ℕ) (r : Session S) (h : Heap)
      → ((pipe_of d r).rcvq).pq ≡ []
      → filter_loop F fuel 0 d r h ≡ some (put_pipe d (popped (pipe_of d r) []) r, h)
  unfolding filter_loop pop_in pqh_pop
  loop_nil fuel d r h e = ground (arith, e)

  loop_cons :
      (fuel n d x : ℕ) (q : List ℕ) (r r' : Session S) (h h' : Heap)
      → ((pipe_of d r).rcvq).pq ≡ x ∷ q
      → filter_packet F fuel d x (put_pipe d (popped (pipe_of d r) q) r) h ≡ some (r', h')
      → filter_loop F fuel (suc n) d r h ≡ filter_loop F fuel n d r' h'
  unfolding filter_loop pop_in pqh_pop
  loop_cons fuel n d x q r r' h h' e f = ground (arith, e, f)

  stream-Kept : (h h' : Heap) (q : List ℕ) → Kept h h' q → stream h' q ≡ stream h q
  stream-Kept h h' [] a = refl
  stream-Kept h h' (p ∷ q) a = ap₂ ◌++◌ (a.0).0 (stream-Kept h h' q a.1)

  -- The packets to come are not in the queue, nor is the one that just went there.
  still_apart :
      (x : ℕ) (qs s t : List ℕ)
      → t ≡ s ++ x ∷ []
      → All (λ y. y ≢ x) qs
      → All (λ y. All (λ z. z ≢ y) s) qs
      → All (λ y. All (λ z. z ≢ y) t) qs
  still_apart x [] s t e a b = tt
  still_apart x (y ∷ qs) s t e a b = (
    subst (All (λ z. z ≢ y)) (sym e)
        (All-append (λ z. z ≢ y) s (x ∷ []) b.0 ((λ i. a.0 (sym i)), tt)),
    still_apart x qs s t e a.1 b.1,
  )

  loop_lem :
      (fuel d : ℕ) (q : List ℕ) (r : Session S) (h : Heap)
      → ((pipe_of d r).rcvq).pq ≡ q
      → IsReady h (pipe_of d r).sndq
      → IsReady h (far_of d r).sndq
      → All (Sendable h) q
      → Distinct q
      → All (λ y. All (λ z. z ≢ y) ((pipe_of d r).sndq).pq) q
      → All QuietOr r.flt
      → (r' : Session S) × (h' : Heap) × (filter_loop F fuel (length q) d r h ≡ some (r', h'))
        × Filtered d q r h r' h'
  loop_lem fuel d [] r h e own far live once apart quiet =
      let p' = popped (pipe_of d r) [] in
      let o = pipe_of-put_pipe d p' r in
      let f = far_of-put_pipe d p' r in
      (
        put_pipe d p' r,
        h,
        loop_nil fuel d r h e,
        record {
          ready = subst (λ z. IsReady h z.sndq) (sym o) own;
          far_ready = subst (λ z. IsReady h z.sndq) (sym f) far;
          debt = ap (λ z. owed h z.sndq) o ∙ sym (append-nil (owed h (pipe_of d r).sndq));
          far_debt = ap (λ z. owed h z.sndq) f;
          packets = ap (λ z. (z.sndq).pq) o ∙ sym (append-nil ((pipe_of d r).sndq).pq);
          far_packets = ap (λ z. (z.sndq).pq) f;
          emptied = ap (λ z. z.rcvq) o;
          far_input = ap (λ z. z.rcvq) f;
          shown = Shown-refl h;
          chain = subst (All QuietOr) (sym (flt-put_pipe d p' r)) quiet;
        },
      )
  loop_lem fuel d (x ∷ q) r h e own far live once apart quiet =
      let p' = popped (pipe_of d r) q in
      let r0 = put_pipe d p' r in
      let o = pipe_of-put_pipe d p' r in
      let f = far_of-put_pipe d p' r in
      let (r1, h1, run, p) =
        packet_lem fuel d x r0 h (subst (λ z. IsReady h z.sndq) (sym o) own)
          (subst (λ z. IsReady h z.sndq) (sym f) far) live.0
          (subst (λ z. All (λ y. y ≢ x) (z.sndq).pq) (sym o) apart.0)
          (subst (All QuietOr) (sym (flt-put_pipe d p' r)) quiet) in
      let (r', h', run', i) =
        loop_lem fuel d q r1 h1 (ap (λ z. z.pq) p.input ∙ ap (λ z. (z.rcvq).pq) o) p.ready
          p.far_ready (Shown-Sendable h h1 q p.shown live.1) once.1
          (still_apart x q ((pipe_of d r).sndq).pq _ (p.packets ∙ ap (λ z. (z.sndq).pq ++ x ∷ []) o)
            once.0 apart.1)
          p.chain in
      (
        r',
        h',
        loop_cons fuel (length q) d x q r r1 h h1 e run ∙ run',
        record {
          ready = i.ready;
          far_ready = i.far_ready;
          debt =
              i.debt
              ∙ ap₂ ◌++◌ (p.debt ∙ ap (λ z. owed h z.sndq ++ bytes_at h x) o)
                  (stream-Kept h h1 q (Shown-Kept h h1 q p.shown (Sendable-Live h q live.1)))
              ∙ append_assoc (owed h (pipe_of d r).sndq) (bytes_at h x) (stream h q);
          far_debt = i.far_debt ∙ p.far_debt ∙ ap (λ z. owed h z.sndq) f;
          packets =
              i.packets
              ∙ ap (λ z. z ++ q) (p.packets ∙ ap (λ z. (z.sndq).pq ++ x ∷ []) o)
              ∙ append_assoc ((pipe_of d r).sndq).pq (x ∷ []) q;
          far_packets = i.far_packets ∙ p.far_packets ∙ ap (λ z. (z.sndq).pq) f;
          emptied =
              i.emptied
              ∙ ap (λ (z : RecvQueue). record z { pq = [] }) (p.input ∙ ap (λ z. z.rcvq) o);
          far_input = i.far_input ∙ p.far_input ∙ ap (λ z. z.rcvq) f;
          shown = Shown-trans h h1 h' p.shown i.shown;
          chain = i.chain;
        },
      )

  -- On a session whose two send queues are in order, with a receive queue of distinct packets
  -- that are in use, undropped and not in the send queue of that direction, and a chain of
  -- filters that add and drop nothing, `rf_session::filter` gives a result: both send queues are
  -- in order, the bytes of the packets received are owed in their order behind what was owed,
  -- the other direction owes what it did, the receive queue is as it was but without packets,
  -- the queues of packets are as they were but for the packets that moved, no packet changes but
  -- in its marks and its description, and the filters are still such filters.
  pub filter_lem :
      (fuel d : ℕ) (r : Session S) (h : Heap)
      → IsReady h (pipe_of d r).sndq
      → IsReady h (far_of d r).sndq
      → All (Sendable h) ((pipe_of d r).rcvq).pq
      → Distinct ((pipe_of d r).rcvq).pq
      → All (λ y. All (λ z. z ≢ y) ((pipe_of d r).sndq).pq) ((pipe_of d r).rcvq).pq
      → All QuietOr r.flt
      → (r' : Session S) × (h' : Heap) × (filter F fuel d r h ≡ some (r', h'))
        × Filtered d ((pipe_of d r).rcvq).pq r h r' h'
  unfolding filter
  filter_lem fuel d r h own far live once apart quiet =
      loop_lem fuel d ((pipe_of d r).rcvq).pq r h refl own far live once apart quiet
