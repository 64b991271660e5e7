-- ===== src/Session/Readable.antt =====
-- The `EV_READ` part of a callback as a whole: no byte is lost, added or reordered.
use mathlib.Core.Path.{subst, subst₂}
use rfx.Prelude.{
  ℕ, ◌≡◌, refl, sym, ap, ap₂, ◌∙◌, none, some, List, [], ◌++◌, append_assoc, arith, All,
}
use rfx.Packet.{Heap, ◌>>=◌, cli_to_srv, srv_to_cli}
use rfx.Packet.Lifetime.{stream}
use rfx.SendQueue.Sending.{owed}
use rfx.RecvQueue.{RecvQueue, recv, Received, Arrival}
use rfx.RecvQueue.Deframer.{feed}
use rfx.RecvQueue.Invariant.{view, frames_of}
use rfx.RecvQueue.Packets.{join}
use rfx.RecvQueue.Framing.{Framed}
use rfx.RecvQueue.Conserve.{partial_of, feed_conserved, stream-join}
use rfx.Pipe.{Pipe, handle_read_event, after_recv}
use rfx.Filters.{Filter}
use rfx.Session.{Session, pipe_of, put_pipe, filter}
use rfx.Session.Ends.{far_of, pipe_of-put_pipe, far_of-put_pipe, flt-put_pipe}
use rfx.Session.Passive.{IsPassive, QuietOr, filter_lem}
use rfx.Session.Tidy.{Loaded, Tidy}
use rfx.Session.Intake.{recv-Loaded}
use rfx.Session.Onward.{Frame-Sendable, filter-Tidy}

-- The two directions of a session.
pub record Opposite (S : Type 0) (d e : ℕ) : Type 0 where
  pub there : (r : Session S) → pipe_of e r ≡ far_of d r
  pub back : (r : Session S) → far_of e r ≡ pipe_of d r

pub cli-Opposite : (S : Type 0) → Opposite S cli_to_srv srv_to_cli
unfolding pipe_of far_of
cli-Opposite S = record { there = λ r. refl; back = λ r. refl }

pub srv-Opposite : (S : Type 0) → Opposite S srv_to_cli cli_to_srv
unfolding pipe_of far_of
srv-Opposite S = record { there = λ r. refl; back = λ r. refl }

abbrev pub TidyAt : {S : Type 0} → ℕ → ℕ → Heap → Session S → Type 0
TidyAt d e h r = Tidy d e h (pipe_of d r) (far_of d r)

after_recv_queues :
    (r : Received) (p : Pipe) → ((after_recv r p).rcvq ≡ r.queue) × ((after_recv r p).sndq ≡ p.sndq)
after_recv_queues r p = ground arith

pub read_run :
    (calls : List Arrival) (peer : List ℕ) (p : Pipe) (h h' : Heap) (r : Received)
    → recv calls peer p.rcvq h ≡ some (r, h')
    → handle_read_event calls peer p h ≡ some ((r.rest, after_recv r p), h')
unfolding handle_read_event
read_run calls peer p h h' r e = rw (handle_read_event, e, ◌>>=◌)

pub read_stuck :
    (calls : List Arrival) (peer : List ℕ) (p : Pipe) (h : Heap)
    → recv calls peer p.rcvq h ≡ none
    → handle_read_event calls peer p h ≡ none
unfolding handle_read_event
read_stuck calls peer p h e = rw (handle_read_event, e, ◌>>=◌)

-- What is owed and what is incomplete, before and after.
sums : (o p u st p1 o2 : List ℕ) → st ++ p1 ≡ p ++ u → o2 ≡ o ++ st → o ++ (p ++ u) ≡ o2 ++ p1
sums o p u st p1 o2 e f =
    ap (λ z. o ++ z) (sym e) ∙ sym (append_assoc o st p1) ∙ ap (λ z. z ++ p1) (sym f)

-- What the framing was given is in its packets and its incomplete packet.
taken :
    (dir : ℕ) (h h' : Heap) (s s' : RecvQueue) (used : List ℕ)
    → s.pq ≡ []
    → feed (view h s) used ≡ some (view h' s')
    → stream h' s'.pq ++ partial_of h' s' ≡ partial_of h s ++ used
taken dir h h' s s' used e f =
    ap (λ z. z ++ partial_of h' s') (sym (stream-join h' s'.pq))
    ∙ feed_conserved (view h s) (view h' s') used f
    ∙ ap (λ q. (join (frames_of h q) ++ partial_of h s) ++ used) e

module _ {S : Type 0} (F : Filter S) (Quiet : S → Type 0) (passive : IsPassive F Quiet) where
  -- After the read and the filters.
  pub record Turned (d e : ℕ) (h : Heap) (r : Session S) (used : List ℕ) (h' : Heap)
      (r' : Session S) : Type 0 where
    pub tidy : TidyAt d e h' r'
    pub sum :
        owed h (pipe_of d r).sndq ++ (partial_of h (pipe_of d r).rcvq ++ used)
        ≡ owed h' (pipe_of d r').sndq ++ partial_of h' (pipe_of d r').rcvq
    pub far_debt : owed h' (far_of d r').sndq ≡ owed h (far_of d r).sndq
    pub far_part : partial_of h' (far_of d r').rcvq ≡ partial_of h (far_of d r).rcvq
    pub chain : All (QuietOr F Quiet passive) r'.flt

  pub turn_lem :
      (d e fuel : ℕ) (r : Session S) (h h1 : Heap) (calls : List Arrival) (peer used : List ℕ)
      (x : Received)
      → TidyAt d e h r
      → All (QuietOr F Quiet passive) r.flt
      → recv calls peer (pipe_of d r).rcvq h ≡ some (x, h1)
      → Framed d calls peer h (pipe_of d r).rcvq x h1 used
      → (r' : Session S) × (h' : Heap) × (filter F fuel d
            (put_pipe d (after_recv x (pipe_of d r)) r)
            h1
          ≡ some (r', h'))
        × Turned d e h r used h' r'
  turn_lem d e fuel r h h1 calls peer used x t quiet run f =
      let a1 = after_recv x (pipe_of d r) in
      let r1 = put_pipe d a1 r in
      let (input, output) = after_recv_queues x (pipe_of d r) in
      let o = pipe_of-put_pipe d a1 r in
      let w = far_of-put_pipe d a1 r in
      let (l, debt, u) =
        recv-Loaded d e calls peer used (pipe_of d r) a1 (far_of d r) x h h1 t run f input output in
      let l1 : Loaded d e h1 (pipe_of d r1) (far_of d r1) =
        subst₂ (Loaded d e h1) (sym o) (sym w) l in
      let (r2, h2, run2, g) =
        filter_lem F Quiet passive fuel d r1 h1 l1.own l1.far
          (Frame-Sendable d h1 ((pipe_of d r1).rcvq).pq l1.own_in.queued.frames)
          l1.own_in.queued.once l1.own_pq_own
          (subst (All (QuietOr F Quiet passive)) (sym (flt-put_pipe d a1 r)) quiet) in
      let (t2, own_part, far_part) = filter-Tidy F Quiet passive d e d r1 r2 h1 h2 l1 g in
      let queue = ap (λ z. z.rcvq) o ∙ input in
      (
        r2,
        h2,
        run2,
        record {
          tidy = t2;
          sum =
              sums (owed h (pipe_of d r).sndq) (partial_of h (pipe_of d r).rcvq) used
                (stream h1 (x.queue).pq) (partial_of h2 (pipe_of d r2).rcvq)
                (owed h2 (pipe_of d r2).sndq)
                (ap (λ z. stream h1 (x.queue).pq ++ z) (own_part ∙ ap (partial_of h1) queue)
                  ∙ taken d h h1 (pipe_of d r).rcvq x.queue used t.own_empty f.framed)
                (g.debt
                  ∙ ap₂ ◌++◌ (ap (λ z. owed h1 z.sndq) o ∙ debt) (ap (λ z. stream h1 z.pq) queue));
          far_debt = g.far_debt ∙ ap (λ z. owed h1 z.sndq) w ∙ u.debt;
          far_part = far_part ∙ ap (λ z. partial_of h1 z.rcvq) w ∙ u.part;
          chain = g.chain;
        },
      )
