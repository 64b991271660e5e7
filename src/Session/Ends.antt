-- ===== src/Session/Ends.antt =====
-- The two pipes of a session, and what putting a packet's followers in line does to them.
use rfx.Prelude.{
  ℕ, ◌≡◌, refl, sym, ap, ◌∙◌, true, false, Option, some, List, [], ◌∷◌, ◌++◌, ◌==◌, if◌then◌else◌,
  arith, Bool-cases, inl, inr, All, ◌≢◌,
}
use mathlib.Core.Path.{subst, subst₂}
use rfx.Packet.{Heap, srv_to_cli}
use rfx.Packet.Lifetime.{Live, bytes_at}
use rfx.PacketQueue.{pqh_clear, pqh_push}
use rfx.SendQueue
use rfx.SendQueue.{SendQueue}
use rfx.SendQueue.Sending.{IsReady, owed}
use rfx.SendQueue.Inject.{push_out_lem}
use rfx.SendQueue.PullNone.{SameDebt, pull_none}
use rfx.Pipe.{Pipe, inject, push_out}
use rfx.Delayed
use rfx.Session.{Session, pipe_of, put_pipe, enqueue, append_packet}
use rfx.Session.Marks.{Sendable}

-- The pipe of the other direction.
unfoldable pub far_of : {S : Type 0} → ℕ → Session S → Pipe
far_of dir r = if dir == srv_to_cli then r.c2s else r.s2c

-- A pipe with the same input and the same debt.
pub record SamePipe (h : Heap) (p q : Pipe) : Type 0 where
  pub output : SameDebt h p.sndq q.sndq
  pub input : q.rcvq ≡ p.rcvq

inject_none :
    (p : Pipe) (h : Heap)
    → IsReady h p.sndq
    → (q : Pipe) × (inject [] p h ≡ some (([], q), h)) × SamePipe h p q
unfolding inject
inject_none p h i =
    let (t, e, s) = pull_none p.sndq h i in
    (record p { sndq = t }, ground (arith, e), record { output = s; input = refl })

pub push_out-sndq : (p : Pipe) (k : ℕ) → (push_out p k).sndq ≡ SendQueue.push_out p.sndq k
unfolding push_out
push_out-sndq p k = refl

pub push_out-rcvq : (p : Pipe) (k : ℕ) → (push_out p k).rcvq ≡ p.rcvq
unfolding push_out
push_out-rcvq p k = refl

push_out-pq : (s : SendQueue) (k : ℕ) → (SendQueue.push_out s k).pq ≡ s.pq ++ k ∷ []
unfolding SendQueue.push_out pqh_push
push_out-pq s k = refl

-- A packet that goes to the end of a pipe.
pub record Behind (h : Heap) (p : ℕ) (a b : Pipe) : Type 0 where
  pub ready : IsReady h b.sndq
  pub debt : owed h b.sndq ≡ owed h a.sndq ++ bytes_at h p
  pub packets : (b.sndq).pq ≡ (a.sndq).pq ++ p ∷ []
  pub input : b.rcvq ≡ a.rcvq

pub Behind-push_out :
    (h : Heap) (p : ℕ) (a : Pipe)
    → IsReady h a.sndq
    → Live h p
    → All (λ q. q ≢ p) (a.sndq).pq
    → Behind h p a (push_out a p)
Behind-push_out h p a r l ne =
    let (i, e) = push_out_lem a.sndq p h r l ne in
    let eq = sym (push_out-sndq a p) in
    record {
      ready = subst (IsReady h) eq i;
      debt = ap (owed h) (sym eq) ∙ e;
      packets = ap (λ s. s.pq) (sym eq) ∙ push_out-pq a.sndq p;
      input = push_out-rcvq a p;
    }

pub SamePipe-Behind :
    (h : Heap) (p : ℕ) (a b c d : Pipe)
    → SamePipe h a b
    → Behind h p b c
    → SamePipe h c d
    → Behind h p a d
SamePipe-Behind h p a b c d i j k = record {
  ready = k.output.ready;
  debt = k.output.debt ∙ j.debt ∙ ap (λ z. z ++ bytes_at h p) i.output.debt;
  packets = k.output.packets ∙ j.packets ∙ ap (λ z. z ++ p ∷ []) i.output.packets;
  input = k.input ∙ j.input ∙ i.input;
}

module _ {S : Type 0} where
  pub pipe_of-put_pipe : (d : ℕ) (p : Pipe) (r : Session S) → pipe_of d (put_pipe d p r) ≡ p
  unfolding pipe_of put_pipe
  pipe_of-put_pipe d p r = ground arith

  pub far_of-put_pipe : (d : ℕ) (p : Pipe) (r : Session S) → far_of d (put_pipe d p r) ≡ far_of d r
  unfolding far_of put_pipe
  far_of-put_pipe d p r = ground arith

  pub flt-put_pipe : (d : ℕ) (p : Pipe) (r : Session S) → (put_pipe d p r).flt ≡ r.flt
  unfolding put_pipe
  flt-put_pipe d p r = ground arith

  pub record SamePipes (d : ℕ) (h : Heap) (r r' : Session S) : Type 0 where
    pub own : SamePipe h (pipe_of d r) (pipe_of d r')
    pub far : SamePipe h (far_of d r) (far_of d r')
    pub chain : r'.flt ≡ r.flt

  ends_srv :
      (d : ℕ) (r : Session S)
      → (d == srv_to_cli) ≡ true
      → (pipe_of d r ≡ r.s2c) × (far_of d r ≡ r.c2s)
  unfolding pipe_of far_of
  ends_srv d r t = (ground arith, ground arith)

  ends_cli :
      (d : ℕ) (r : Session S)
      → (d == srv_to_cli) ≡ false
      → (pipe_of d r ≡ r.c2s) × (far_of d r ≡ r.s2c)
  unfolding pipe_of far_of
  ends_cli d r t = (ground arith, ground arith)

  -- Nothing to put in line.
  pub enqueue_none :
      (d : ℕ) (r : Session S) (h : Heap)
      → IsReady h (pipe_of d r).sndq
      → IsReady h (far_of d r).sndq
      → (r' : Session S) × (enqueue [] r h ≡ some (r', h)) × SamePipes d h r r'
  unfolding enqueue Delayed.pull pqh_clear
  enqueue_none d r h own far = elim (Bool-cases (d == srv_to_cli)) [
    | inl t ↦
        let (x, y) = ends_srv d r t in
        let (a, e, i) = inject_none r.s2c h (subst (λ p. IsReady h p.sndq) x own) in
        let (b, f, j) = inject_none r.c2s h (subst (λ p. IsReady h p.sndq) y far) in
        let r' : Session S = record r { s2c = a; c2s = b } in
        let (x', y') = ends_srv d r' t in
        (
          r',
          ground (arith, e, f),
          record {
            own = subst₂ (SamePipe h) (sym x) (sym x') i;
            far = subst₂ (SamePipe h) (sym y) (sym y') j;
            chain = refl;
          },
        )
    | inr t ↦
        let (x, y) = ends_cli d r t in
        let (a, e, i) = inject_none r.s2c h (subst (λ p. IsReady h p.sndq) y far) in
        let (b, f, j) = inject_none r.c2s h (subst (λ p. IsReady h p.sndq) x own) in
        let r' : Session S = record r { s2c = a; c2s = b } in
        let (x', y') = ends_cli d r' t in
        (
          r',
          ground (arith, e, f),
          record {
            own = subst₂ (SamePipe h) (sym x) (sym x') j;
            far = subst₂ (SamePipe h) (sym y) (sym y') i;
            chain = refl;
          },
        )
  ]

  -- A packet that no filter dropped goes to the end of its pipe.
  pub append-Sendable :
      (d p : ℕ) (r : Session S) (h : Heap)
      → Sendable h p
      → append_packet d p r h ≡ some (put_pipe d (push_out (pipe_of d r) p) r, h)
  unfolding append_packet
  append-Sendable d p r h (k, e, i, u) = ground (arith, e, u)

  pub pipe_of-flt :
      (d : ℕ) (r : Session S) (is : List (Option S))
      → pipe_of d (record r { flt = is }) ≡ pipe_of d r
  unfolding pipe_of
  pipe_of-flt d r is = refl

  pub far_of-flt :
      (d : ℕ) (r : Session S) (is : List (Option S)) → far_of d (record r { flt = is }) ≡ far_of d r
  unfolding far_of
  far_of-flt d r is = refl

  -- Steps 3, 5 and 6 of `filter`, with nothing added and the packet not dropped.
  pub record InLine (d p : ℕ) (r : Session S) (h : Heap) (r' : Session S) : Type 0 where
    pub own : Behind h p (pipe_of d r) (pipe_of d r')
    pub far_ready : IsReady h (far_of d r').sndq
    pub far_debt : owed h (far_of d r').sndq ≡ owed h (far_of d r).sndq
    pub far_packets : ((far_of d r').sndq).pq ≡ ((far_of d r).sndq).pq
    pub far_input : (far_of d r').rcvq ≡ (far_of d r).rcvq
    pub chain : r'.flt ≡ r.flt

  pub line_lem :
      (d p : ℕ) (r : Session S) (h : Heap)
      → IsReady h (pipe_of d r).sndq
      → IsReady h (far_of d r).sndq
      → Sendable h p
      → All (λ q. q ≢ p) ((pipe_of d r).sndq).pq
      → (r1 : Session S) × (r2 : Session S) × (r3 : Session S) × (enqueue [] r h ≡ some (r1, h))
        × (append_packet d p r1 h ≡ some (r2, h))
        × (enqueue [] r2 h ≡ some (r3, h))
        × InLine d p r h r3
  line_lem d p r h own far live apart =
      let (k, e, i, u) = live in
      let (r1, e1, s1) = enqueue_none d r h own far in
      let r2 : Session S = put_pipe d (push_out (pipe_of d r1) p) r1 in
      let o2 = pipe_of-put_pipe d (push_out (pipe_of d r1) p) r1 in
      let f2 = far_of-put_pipe d (push_out (pipe_of d r1) p) r1 in
      let b =
        Behind-push_out h p (pipe_of d r1) s1.own.output.ready (k, e, i)
          (subst (All (λ q. q ≢ p)) (sym s1.own.output.packets) apart) in
      let (r3, e3, s3) =
        enqueue_none d r2 h (subst (λ q. IsReady h q.sndq) (sym o2) b.ready)
          (subst (λ q. IsReady h q.sndq) (sym f2) s1.far.output.ready) in
      (
        r1,
        r2,
        r3,
        e1,
        append-Sendable d p r1 h live,
        e3,
        record {
          own =
              SamePipe-Behind h p _ _ _ _ s1.own b
                (subst (λ q. SamePipe h q (pipe_of d r3)) o2 s3.own);
          far_ready = s3.far.output.ready;
          far_debt = s3.far.output.debt ∙ ap (λ q. owed h q.sndq) f2 ∙ s1.far.output.debt;
          far_packets = s3.far.output.packets ∙ ap (λ q. (q.sndq).pq) f2 ∙ s1.far.output.packets;
          far_input = s3.far.input ∙ ap (λ q. q.rcvq) f2 ∙ s1.far.input;
          chain = s3.chain ∙ flt-put_pipe d _ r1 ∙ s1.chain;
        },
      )
