-- ===== src/Session/Callback.antt =====
-- A callback of a session as a whole, on a session in order with passive filters.
use mathlib.Core.Path.{subst₂}
use rfx.Prelude.{ℕ, ◌≡◌, sym, ap, ◌∙◌, some, List, ◌++◌}
use rfx.Packet.{Heap, ◌>>=◌}
use rfx.SendQueue.{Outcome}
use rfx.SendQueue.Sending.{owed}
use rfx.RecvQueue.Conserve.{partial_of}
use rfx.Pipe.{Pipe, handle_write_event}
use rfx.Pipe.Events.{handle_write_event_lem}
use rfx.Filters.{Filter}
use rfx.Session.{Session, pipe_of, put_pipe, write_pipe}
use rfx.Session.Ends.{far_of, pipe_of-put_pipe, far_of-put_pipe, flt-put_pipe}
use rfx.Session.Tidy.{Tidy, Tidy-swap}
use rfx.Session.Turns.{write-Tidy}
use rfx.Session.Readable.{Opposite, TidyAt}

module _ {S : Type 0} (F : Filter S) (fuel : ℕ) where
  -- `wire` went out of the pipe of direction `d`, and nothing else changed hands.
  pub record Wrote (d e : ℕ) (h : Heap) (r : Session S) (wire : List ℕ) (h' : Heap) (r' : Session S)
      : Type 0 where
    pub tidy : TidyAt d e h' r'
    pub debt : owed h (pipe_of d r).sndq ≡ wire ++ owed h' (pipe_of d r').sndq
    pub part : partial_of h' (pipe_of d r').rcvq ≡ partial_of h (pipe_of d r).rcvq
    pub far_debt : owed h' (far_of d r').sndq ≡ owed h (far_of d r).sndq
    pub far_part : partial_of h' (far_of d r').rcvq ≡ partial_of h (far_of d r).rcvq
    pub chain : r'.flt ≡ r.flt

  write_run :
      (d : ℕ) (os : List Outcome) (r : Session S) (h h' : Heap) (wire : List ℕ) (q : Pipe)
      → handle_write_event os (pipe_of d r) h ≡ some ((wire, q), h')
      → write_pipe F fuel d os r h ≡ some ((wire, put_pipe d q r), h')
  unfolding write_pipe
  write_run d os r h h' wire q e = rw (write_pipe, e, ◌>>=◌)

  pub write_lem :
      (d e : ℕ) (os : List Outcome) (r : Session S) (h : Heap)
      → TidyAt d e h r
      → (wire : List ℕ) × (r' : Session S) × (h' : Heap) × (write_pipe F fuel d os r h
          ≡ some ((wire, r'), h'))
        × Wrote d e h r wire h' r'
  write_lem d e os r h t =
      let (wire, q, h', run, w) = handle_write_event_lem os (pipe_of d r) h t.loaded.own in
      let (t', part, u) = write-Tidy d e os (pipe_of d r) q (far_of d r) wire h h' t run w in
      let o = sym (pipe_of-put_pipe d q r) in
      let f = sym (far_of-put_pipe d q r) in
      (
        wire,
        put_pipe d q r,
        h',
        write_run d os r h h' wire q run,
        record {
          tidy = subst₂ (Tidy d e h') o f t';
          debt = w.conserved ∙ ap (λ z. wire ++ owed h' z.sndq) o;
          part = sym (ap (λ z. partial_of h' z.rcvq) o) ∙ part;
          far_debt = sym (ap (λ z. owed h' z.sndq) f) ∙ u.debt;
          far_part = sym (ap (λ z. partial_of h' z.rcvq) f) ∙ u.part;
          chain = flt-put_pipe d q r;
        },
      )

  -- The same, by the pipe of the other direction.
  pub Wrote-back :
      (d e : ℕ) (h : Heap) (r : Session S) (wire : List ℕ) (h' : Heap) (r' : Session S)
      → Opposite S d e
      → Wrote e d h r wire h' r'
      → TidyAt d e h' r'
        × (owed h (far_of d r).sndq ≡ wire ++ owed h' (far_of d r').sndq)
        × (owed h' (pipe_of d r').sndq ≡ owed h (pipe_of d r).sndq)
        × (partial_of h' (pipe_of d r').rcvq ≡ partial_of h (pipe_of d r).rcvq)
        × (partial_of h' (far_of d r').rcvq ≡ partial_of h (far_of d r).rcvq)
  Wrote-back d e h r wire h' r' o w = (
    Tidy-swap e d h' (far_of d r') (pipe_of d r')
        (subst₂ (Tidy e d h') (o.there r') (o.back r') w.tidy),
    subst₂ (λ x y. owed h x.sndq ≡ wire ++ owed h' y.sndq) (o.there r) (o.there r') w.debt,
    subst₂ (λ x y. owed h' x.sndq ≡ owed h y.sndq) (o.back r') (o.back r) w.far_debt,
    subst₂ (λ x y. partial_of h' x.rcvq ≡ partial_of h y.rcvq) (o.back r') (o.back r) w.far_part,
    subst₂ (λ x y. partial_of h' x.rcvq ≡ partial_of h y.rcvq) (o.there r') (o.there r) w.part,
  )

  pub TidyAt-back :
      (d e : ℕ) (h : Heap) (r : Session S) → Opposite S d e → TidyAt d e h r → TidyAt e d h r
  TidyAt-back d e h r o t =
      subst₂ (Tidy e d h) (sym (o.there r)) (sym (o.back r))
        (Tidy-swap d e h (pipe_of d r) (far_of d r) t)
