-- ===== src/Session/Relayed.antt =====
-- `cli_io_cb` and `srv_io_cb` of main.cpp, the part that reads: a session in order relays every byte.
use mathlib.Core.Path.{subst, subst₂}
use rfx.Prelude.{
  ℕ, ◌≡◌, refl, sym, ap, ap₂, ◌∙◌, ◌⊎◌, false, Option, none, some, List, ◌++◌, append_assoc, arith,
  All, inl, inr,
}
use rfx.Packet.{Heap}
use rfx.SendQueue.Sending.{owed}
use rfx.RecvQueue.Invariant.{IsByte}
use rfx.RecvQueue.Framing.{Broken, recv_lem}
use rfx.RecvQueue.Conserve.{partial_of}
use rfx.Pipe.{Pipe, handle_read_event, after_recv}
use rfx.Filters.{Filter}
use rfx.Delayed
use rfx.Session.{Session, pipe_of, put_pipe, filter, write_pipe, on_readable, Revents, Handled}
use rfx.Session.Ends.{far_of}
use rfx.Session.Passive.{IsPassive, QuietOr}
use rfx.Session.Tidy.{Tidy}
use rfx.Session.Readable.{Opposite, TidyAt, turn_lem, read_run, read_stuck}
use rfx.Session.Callback.{write_lem, Wrote-back, TidyAt-back}

module _ {S : Type 0} where
  abbrev timed : Session S → Session S
  timed r = record r { dq = Delayed.start r.dq }

  pipe_of-timed : (d : ℕ) (r : Session S) → pipe_of d (timed r) ≡ pipe_of d r
  unfolding pipe_of
  pipe_of-timed d r = refl

  far_of-timed : (d : ℕ) (r : Session S) → far_of d (timed r) ≡ far_of d r
  unfolding far_of
  far_of-timed d r = refl

module _ {S : Type 0} (F : Filter S) (fuel : ℕ) (Quiet : S → Type 0)
    (passive : IsPassive F Quiet) where
  -- What a callback of direction `d` ensures, where `used` is what it read. In each direction, the
  -- bytes owed and incomplete before, then those read, are the bytes written, then those owed and
  -- incomplete now.
  pub record Relayed (d e : ℕ) (peer : List ℕ) (h : Heap) (r : Session S) (used : List ℕ)
      (z : Handled F fuel) (h' : Heap) : Type 0 where
    pub prefix : peer ≡ used ++ z.rest
    pub tidy : TidyAt d e h' z.session
    pub conserved :
        owed h (pipe_of d r).sndq ++ (partial_of h (pipe_of d r).rcvq ++ used)
        ≡ z.wire_own
          ++ (owed h' (pipe_of d z.session).sndq ++ partial_of h' (pipe_of d z.session).rcvq)
    pub far_debt : owed h (far_of d r).sndq ≡ z.wire_other ++ owed h' (far_of d z.session).sndq
    pub far_part : partial_of h' (far_of d z.session).rcvq ≡ partial_of h (far_of d r).rcvq
    pub chain : All (QuietOr F Quiet passive) (z.session).flt

  readable_run :
      (d e : ℕ) (ev : Revents F fuel) (r r1 r2 r3 : Session S) (p : Pipe) (rest own other : List ℕ)
      (h h1 h2 h3 h4 : Heap)
      → handle_read_event ev.arrivals ev.peer (pipe_of d r) h ≡ some ((rest, p), h1)
      → filter F fuel d (put_pipe d p r) h1 ≡ some (r1, h2)
      → write_pipe F fuel d ev.own (timed r1) h2 ≡ some ((own, r2), h3)
      → write_pipe F fuel e ev.other r2 h3 ≡ some ((other, r3), h4)
      → on_readable F fuel d e ev r h
        ≡ some (
          record { session = r3; deleted = false; rest = rest; wire_own = own; wire_other = other },
          h4,
        )
  unfolding on_readable
  readable_run d e ev r r1 r2 r3 p rest own other h h1 h2 h3 h4 a b c f = ground (arith, a, b, c, f)

  readable_stuck :
      (d e : ℕ) (ev : Revents F fuel) (r : Session S) (h : Heap)
      → handle_read_event ev.arrivals ev.peer (pipe_of d r) h ≡ none
      → on_readable F fuel d e ev r h ≡ none
  unfolding on_readable
  readable_stuck d e ev r h a = ground (arith, a)

  -- The bytes in a row, over a filtering and a write.
  row : (x y w o p o' p' : List ℕ) → x ≡ y ++ p → y ≡ w ++ o → o' ≡ o → p' ≡ p → x ≡ w ++ (o' ++ p')
  row x y w o p o' p' a b c f =
      a ∙ ap (λ z. z ++ p) b ∙ append_assoc w o p ∙ ap₂ (λ i j. w ++ (i ++ j)) (sym c) (sym f)

  abbrev pub Reads :
      ℕ → ℕ → Revents F fuel → Heap → Session S → Option (Handled F fuel × Heap) → Type 0
  Reads d e ev h r o =
      ((z : Handled F fuel) × (h' : Heap) × (used : List ℕ) × (o ≡ some (z, h'))
        × Relayed d e ev.peer h r used z h')
      ⊎ ((used : List ℕ) × (rest : List ℕ) × (o ≡ none)
          × Broken ev.peer h (pipe_of d r).rcvq used rest)

  pub readable_lem :
      (d e : ℕ) (ev : Revents F fuel) (r : Session S) (h : Heap)
      → Opposite S d e
      → TidyAt d e h r
      → All (QuietOr F Quiet passive) r.flt
      → All IsByte ev.peer
      → Reads d e ev h r (on_readable F fuel d e ev r h)
  readable_lem d e ev r h o t quiet bytes =
      elim (recv_lem d ev.arrivals ev.peer h (pipe_of d r).rcvq t.loaded.own_in bytes) [
        | inr (used, rest, run, b) ↦ inr (
          used,
          rest,
          readable_stuck d e ev r h (read_stuck ev.arrivals ev.peer (pipe_of d r) h run),
          b,
        )
        | inl (x, h1, used, run, f) ↦
            let (r1, h2, run1, u) =
              turn_lem F Quiet passive d e fuel r h h1 ev.arrivals ev.peer used x t quiet run f in
            let p = sym (pipe_of-timed d r1) in
            let q = sym (far_of-timed d r1) in
            let (own, r2, h3, run2, v) =
              write_lem F fuel d e ev.own (timed r1) h2 (subst₂ (Tidy d e h2) p q u.tidy) in
            let (other, r3, h4, run3, w) =
              write_lem F fuel e d ev.other r2 h3 (TidyAt-back F fuel d e h3 r2 o v.tidy) in
            let (t', far_debt, own_debt, own_part, far_part) =
              Wrote-back F fuel d e h3 r2 other h4 r3 o w in
            inl (
              record {
                session = r3;
                deleted = false;
                rest = x.rest;
                wire_own = own;
                wire_other = other;
              },
              h4,
              used,
              readable_run d e ev r r1 r2 r3 (after_recv x (pipe_of d r)) x.rest own other h h1 h2
                  h3 h4 (read_run ev.arrivals ev.peer (pipe_of d r) h h1 x run) run1 run2 run3,
              record {
                prefix = f.prefix;
                tidy = t';
                conserved =
                    row _ _ own _ _ _ _ u.sum (ap (λ z. owed h2 z.sndq) p ∙ v.debt) own_debt
                      (own_part ∙ v.part ∙ sym (ap (λ z. partial_of h2 z.rcvq) p));
                far_debt =
                    sym (v.far_debt ∙ sym (ap (λ z. owed h2 z.sndq) q) ∙ u.far_debt) ∙ far_debt;
                far_part =
                    far_part ∙ v.far_part ∙ sym (ap (λ z. partial_of h2 z.rcvq) q) ∙ u.far_part;
                chain = subst (All (QuietOr F Quiet passive)) (sym (w.chain ∙ v.chain)) u.chain;
              },
            )
      ]
