-- ===== src/Session/Ending.antt =====
-- `cli_io_cb` and `srv_io_cb` of main.cpp as a whole.
use mathlib.Core.Path.{subst, subst₂}
use rfx.Prelude.{
  ℕ, ◌≡◌, refl, sym, ap, ap₂, ◌∙◌, true, false, none, some, List, [], ◌++◌, append_assoc,
  append-nil, arith, All, inl, inr, Bool-cases, if◌then◌else◌,
}
use rfx.Packet.{Heap, M, ◌>>=◌, pure}
use rfx.SendQueue.Sending.{owed}
use rfx.RecvQueue.Invariant.{IsByte}
use rfx.RecvQueue.Conserve.{partial_of}
use rfx.Pipe.{Pipe, stop}
use rfx.Filters.{Filter}
use rfx.Session.{
  Session, pipe_of, write_pipe, on_readable, Revents, Handled, io_cb, session_done, session_stop,
}
use rfx.Session.Ends.{far_of}
use rfx.Session.Passive.{IsPassive, QuietOr}
use rfx.Session.Tidy.{Tidy}
use rfx.Session.Readable.{Opposite, TidyAt}
use rfx.Session.Relayed.{Relayed, Reads, readable_lem}
use rfx.Session.Callback.{Wrote, write_lem}

-- A pipe whose watchers are off has the queues it had.
Tidy-stop : (da db : ℕ) (h : Heap) (a b : Pipe) → Tidy da db h a b → Tidy da db h (stop a) (stop b)
unfolding stop
Tidy-stop da db h a b t =
    let l = t.loaded in
    record {
      loaded = record {
        own = l.own;
        far = l.far;
        own_in = l.own_in;
        far_in = l.far_in;
        far_empty = l.far_empty;
        own_old = l.own_old;
        far_old = l.far_old;
        apart = l.apart;
        own_rd_own = l.own_rd_own;
        far_rd_own = l.far_rd_own;
        own_rd_far = l.own_rd_far;
        far_rd_far = l.far_rd_far;
        rds = l.rds;
        own_pq_own = l.own_pq_own;
        own_pq_far = l.own_pq_far;
        own_pq_rd = l.own_pq_rd;
      };
      own_empty = t.own_empty;
    }

module _ {S : Type 0} (F : Filter S) (fuel : ℕ) (Quiet : S → Type 0)
    (passive : IsPassive F Quiet) where
  abbrev idle : Revents F fuel → Session S → Handled F fuel
  idle ev r = record {
    session = r;
    deleted = false;
    rest = ev.peer;
    wire_own = [];
    wire_other = [];
  }

  -- The part of a callback that reads.
  abbrev first_part : ℕ → ℕ → Revents F fuel → Session S → M (Handled F fuel)
  first_part d e ev r = if ev.readable then on_readable F fuel d e ev r else pure (idle ev r)

  idle-Relayed :
      (d e : ℕ) (ev : Revents F fuel) (r : Session S) (h : Heap)
      → TidyAt d e h r
      → All (QuietOr F Quiet passive) r.flt
      → Relayed F fuel Quiet passive d e ev.peer h r [] (idle ev r) h
  idle-Relayed d e ev r h t quiet = record {
    prefix = refl;
    tidy = t;
    conserved =
        ap (λ z. owed h (pipe_of d r).sndq ++ z) (append-nil (partial_of h (pipe_of d r).rcvq));
    far_debt = refl;
    far_part = refl;
    chain = quiet;
  }

  first_lem :
      (d e : ℕ) (ev : Revents F fuel) (r : Session S) (h : Heap)
      → Opposite S d e
      → TidyAt d e h r
      → All (QuietOr F Quiet passive) r.flt
      → All IsByte ev.peer
      → Reads F fuel Quiet passive d e ev h r (first_part d e ev r h)
  first_lem d e ev r h o t quiet bytes = elim (Bool-cases ev.readable) [
    | inl y ↦
        let run : first_part d e ev r h ≡ on_readable F fuel d e ev r h = rw y in
        subst (Reads F fuel Quiet passive d e ev h r) (sym run)
          (readable_lem F fuel Quiet passive d e ev r h o t quiet bytes)
    | inr n ↦
        let run : first_part d e ev r h ≡ some (idle ev r, h) = rw n in
        inl (idle ev r, h, [], run, idle-Relayed d e ev r h t quiet)
  ]

  abbrev with_more : Handled F fuel → List ℕ → Session S → Handled F fuel
  with_more x more r = record x { session = r; wire_own = x.wire_own ++ more }

  -- The second write of a callback.
  more-Relayed :
      (d e : ℕ) (peer used more : List ℕ) (h h1 h2 : Heap) (r r' : Session S) (x : Handled F fuel)
      → Relayed F fuel Quiet passive d e peer h r used x h1
      → Wrote F fuel d e h1 x.session more h2 r'
      → Relayed F fuel Quiet passive d e peer h r used (with_more x more r') h2
  more-Relayed d e peer used more h h1 h2 r r' x a w = record {
    prefix = a.prefix;
    tidy = w.tidy;
    conserved =
        a.conserved
        ∙ ap₂ (λ i j. x.wire_own ++ (i ++ j)) w.debt (sym w.part)
        ∙ ap (λ z. x.wire_own ++ z) (append_assoc more _ _)
        ∙ sym (append_assoc x.wire_own more _);
    far_debt = a.far_debt ∙ ap (λ z. x.wire_other ++ z) (sym w.far_debt);
    far_part = w.far_part ∙ a.far_part;
    chain = subst (All (QuietOr F Quiet passive)) (sym w.chain) a.chain;
  }

  none-Wrote : (d e : ℕ) (h : Heap) (r : Session S) → TidyAt d e h r → Wrote F fuel d e h r [] h r
  none-Wrote d e h r t = record {
    tidy = t;
    debt = refl;
    part = refl;
    far_debt = refl;
    far_part = refl;
    chain = refl;
  }

  pipe_of-stop : (d : ℕ) (r : Session S) → pipe_of d (session_stop F fuel r) ≡ stop (pipe_of d r)
  unfolding pipe_of session_stop
  pipe_of-stop d r = ground arith

  far_of-stop : (d : ℕ) (r : Session S) → far_of d (session_stop F fuel r) ≡ stop (far_of d r)
  unfolding far_of session_stop
  far_of-stop d r = ground arith

  flt-stop : (r : Session S) → (session_stop F fuel r).flt ≡ r.flt
  unfolding session_stop
  flt-stop r = refl

  stop-queues : (p : Pipe) → ((stop p).sndq ≡ p.sndq) × ((stop p).rcvq ≡ p.rcvq)
  unfolding stop
  stop-queues p = (refl, refl)

  stop-Wrote :
      (d e : ℕ) (h : Heap) (r : Session S)
      → TidyAt d e h r
      → Wrote F fuel d e h r [] h (session_stop F fuel r)
  stop-Wrote d e h r t =
      let p = pipe_of-stop d r in
      let q = far_of-stop d r in
      let (ps, pr) = stop-queues (pipe_of d r) in
      let (qs, qr) = stop-queues (far_of d r) in
      record {
        tidy = subst₂ (Tidy d e h) (sym p) (sym q) (Tidy-stop d e h (pipe_of d r) (far_of d r) t);
        debt = sym (ap (λ z. owed h z.sndq) p ∙ ap (owed h) ps);
        part = ap (λ z. partial_of h z.rcvq) p ∙ ap (partial_of h) pr;
        far_debt = ap (λ z. owed h z.sndq) q ∙ ap (owed h) qs;
        far_part = ap (λ z. partial_of h z.rcvq) q ∙ ap (partial_of h) qr;
        chain = flt-stop r;
      }

  abbrev second_part : ℕ → Revents F fuel → Handled F fuel → M (List ℕ × Session S)
  second_part d ev x =
      if ev.writable then write_pipe F fuel d ev.again x.session else pure ([], x.session)

  second_lem :
      (d e : ℕ) (ev : Revents F fuel) (x : Handled F fuel) (h : Heap)
      → TidyAt d e h x.session
      → (more : List ℕ) × (r' : Session S) × (h' : Heap) × (second_part d ev x h
          ≡ some ((more, r'), h'))
        × Wrote F fuel d e h x.session more h' r'
  second_lem d e ev x h t = elim (Bool-cases ev.writable) [
    | inl y ↦
        let run : second_part d ev x h ≡ write_pipe F fuel d ev.again x.session h = rw y in
        let (more, r', h', e', w) = write_lem F fuel d e ev.again x.session h t in
        (more, r', h', run ∙ e', w)
    | inr n ↦ ([], x.session, h, rw n, none-Wrote d e h x.session t)
  ]

  -- Without a part that is stopped, and with it.
  run_open :
      (d e : ℕ) (ev : Revents F fuel) (r r' : Session S) (x : Handled F fuel) (more : List ℕ)
      (h h1 h2 : Heap)
      → first_part d e ev r h ≡ some (x, h1)
      → second_part d ev x h1 ≡ some ((more, r'), h2)
      → session_done F fuel r' ≡ false
      → io_cb F fuel d e ev r h ≡ some (with_more x more r', h2)
  unfolding io_cb
  run_open d e ev r r' x more h h1 h2 a b c = rw (io_cb, ◌>>=◌, a, b, c)

  run_closed :
      (d e : ℕ) (ev : Revents F fuel) (r r' : Session S) (x : Handled F fuel) (more : List ℕ)
      (h h1 h2 : Heap)
      → first_part d e ev r h ≡ some (x, h1)
      → second_part d ev x h1 ≡ some ((more, r'), h2)
      → session_done F fuel r' ≡ true
      → io_cb F fuel d e ev r h
        ≡ some
            (record (with_more x more r') { session = session_stop F fuel r'; deleted = true }, h2)
  unfolding io_cb
  run_closed d e ev r r' x more h h1 h2 a b c = rw (io_cb, ◌>>=◌, a, b, c)

  run_stuck :
      (d e : ℕ) (ev : Revents F fuel) (r : Session S) (h : Heap)
      → first_part d e ev r h ≡ none
      → io_cb F fuel d e ev r h ≡ none
  unfolding io_cb
  run_stuck d e ev r h a = rw (io_cb, ◌>>=◌, a)

  -- On a session whose two pipes are in order, with filters that add and drop nothing and bytes below
  -- 256, a callback gives a result.
  pub io_cb_lem :
      (d e : ℕ) (ev : Revents F fuel) (r : Session S) (h : Heap)
      → Opposite S d e
      → TidyAt d e h r
      → All (QuietOr F Quiet passive) r.flt
      → All IsByte ev.peer
      → Reads F fuel Quiet passive d e ev h r (io_cb F fuel d e ev r h)
  io_cb_lem d e ev r h o t quiet bytes = elim (first_lem d e ev r h o t quiet bytes) [
    | inr (used, rest, run, b) ↦ inr (used, rest, run_stuck d e ev r h run, b)
    | inl (x, h1, used, run, a) ↦
        let (more, r', h2, run', w) = second_lem d e ev x h1 a.tidy in
        let b = more-Relayed d e ev.peer used more h h1 h2 r r' x a w in
        elim (Bool-cases (session_done F fuel r')) [
          | inr n ↦
              inl (with_more x more r', h2, used, run_open d e ev r r' x more h h1 h2 run run' n, b)
          | inl y ↦
              let c = stop-Wrote d e h2 r' w.tidy in
              inl (
                record (with_more x more r') { session = session_stop F fuel r'; deleted = true },
                h2,
                used,
                run_closed d e ev r r' x more h h1 h2 run run' y,
                record {
                  prefix = b.prefix;
                  tidy = c.tidy;
                  conserved =
                      b.conserved
                      ∙ ap₂ (λ i j. (x.wire_own ++ more) ++ (i ++ j)) c.debt (sym c.part);
                  far_debt = b.far_debt ∙ ap (λ z. x.wire_other ++ z) (sym c.far_debt);
                  far_part = c.far_part ∙ b.far_part;
                  chain = subst (All (QuietOr F Quiet passive)) (sym c.chain) b.chain;
                },
              )
        ]
  ]
