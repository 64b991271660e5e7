-- ===== src/Session/Trace.antt =====
-- The life of a session in the event loop of main.cpp: the callbacks that libev makes, one by one.
use mathlib.Core.Path.{subst, subst₂}
use mathlib.Core.Option.{some-injective, none-ne-some}
use rfx.Prelude.{
  ℕ, ◌≡◌, refl, sym, ap, ap₂, ◌∙◌, ◌≢◌, ◌⊎◌, Bool, true, not, Option, none, some, List, [], ◌++◌,
  append_assoc, All, inl, inr,
}
use rfx.Packet.{Heap, cli_to_srv, srv_to_cli}
use rfx.SendQueue.Sending.{owed, sendq-IsReady}
use rfx.SendQueue.{sendq}
use rfx.RecvQueue.{recvq}
use rfx.RecvQueue.Deframer.{feed, feed-append, and_then}
use rfx.RecvQueue.Invariant.{IsByte, view}
use rfx.RecvQueue.Packets.{recvq-IsValid, append_cancel}
use rfx.RecvQueue.Conserve.{partial_of}
use rfx.Pipe.{Pipe, proxy_pipe}
use rfx.Filters.{Filter}
use rfx.Session.{Session, rf_session, pipe_of, io_cb, cli_io_cb, srv_io_cb, Revents, Handled}
use rfx.Session.Ends.{far_of}
use rfx.Session.Passive.{IsPassive, QuietOr}
use rfx.Session.Tidy.{Tidy, Tidy-swap}
use rfx.Session.Readable.{Opposite, cli-Opposite, srv-Opposite, TidyAt}
use rfx.Session.Relayed.{Relayed, Reads}
use rfx.Session.Ending.{io_cb_lem}

-- All that went over the two sockets, in order.
pub record Traffic : Type 0 where
  pub from_cli : List ℕ
  pub from_srv : List ℕ
  pub to_cli : List ℕ
  pub to_srv : List ℕ

abbrev pub no_traffic : Traffic
no_traffic = record { from_cli = []; from_srv = []; to_cli = []; to_srv = [] }

abbrev pub after_cli : Traffic → List ℕ → List ℕ → List ℕ → Traffic
after_cli t used own other = record t {
  from_cli = t.from_cli ++ used;
  to_srv = t.to_srv ++ own;
  to_cli = t.to_cli ++ other;
}

abbrev pub after_srv : Traffic → List ℕ → List ℕ → List ℕ → Traffic
after_srv t used own other = record t {
  from_srv = t.from_srv ++ used;
  to_cli = t.to_cli ++ own;
  to_srv = t.to_srv ++ other;
}

module _ {S : Type 0} (F : Filter S) (fuel : ℕ) where
  -- The sessions that a new one becomes, whether they are still there, and the traffic on the way. A
  -- callback is made on a session that was not deleted; `used` are the bytes that it read.
  pub data Reached (chain : List (Option S)) (start : Heap)
      : Bool → Session S → Heap → Traffic → Type 0 where
    opened : Reached chain start true (rf_session chain) start no_traffic
    on_cli :
        (r : Session S) (h h' : Heap) (t : Traffic) (ev : Revents F fuel) (z : Handled F fuel)
        (used : List ℕ)
        → Reached chain start true r h t
        → All IsByte ev.peer
        → ev.peer ≡ used ++ z.rest
        → cli_io_cb F fuel ev r h ≡ some (z, h')
        → Reached chain start
            (not z.deleted)
            z.session
            h'
            (after_cli t used z.wire_own z.wire_other)
    on_srv :
        (r : Session S) (h h' : Heap) (t : Traffic) (ev : Revents F fuel) (z : Handled F fuel)
        (used : List ℕ)
        → Reached chain start true r h t
        → All IsByte ev.peer
        → ev.peer ≡ used ++ z.rest
        → srv_io_cb F fuel ev r h ≡ some (z, h')
        → Reached chain start
            (not z.deleted)
            z.session
            h'
            (after_srv t used z.wire_own z.wire_other)

-- What is on its way through a pipe.
abbrev pub held : Heap → Pipe → List ℕ
held h p = owed h p.sndq ++ partial_of h p.rcvq

module _ {S : Type 0} (F : Filter S) (fuel : ℕ) (Quiet : S → Type 0)
    (passive : IsPassive F Quiet) where
  pub record Transparent (r : Session S) (h : Heap) (t : Traffic) : Type 0 where
    pub to_server : t.from_cli ≡ t.to_srv ++ held h r.c2s
    pub to_client : t.from_srv ≡ t.to_cli ++ held h r.s2c
    pub tidy : Tidy cli_to_srv srv_to_cli h r.c2s r.s2c
    pub chain : All (QuietOr F Quiet passive) r.flt

  -- The bytes of one direction, over a callback of its own pipe and of the other.
  own_sum :
      (from to o p used wire o' p' : List ℕ)
      → from ≡ to ++ (o ++ p)
      → o ++ (p ++ used) ≡ wire ++ (o' ++ p')
      → from ++ used ≡ (to ++ wire) ++ (o' ++ p')
  own_sum from to o p used wire o' p' a b =
      ap (λ z. z ++ used) a
      ∙ append_assoc to (o ++ p) used
      ∙ ap (λ z. to ++ z) (append_assoc o p used ∙ b)
      ∙ sym (append_assoc to wire (o' ++ p'))

  far_sum :
      (from to o p wire o' p' : List ℕ)
      → from ≡ to ++ (o ++ p)
      → o ≡ wire ++ o'
      → p' ≡ p
      → from ≡ (to ++ wire) ++ (o' ++ p')
  far_sum from to o p wire o' p' a b c =
      a
      ∙ ap₂ (λ i j. to ++ (i ++ j)) b (sym c)
      ∙ ap (λ z. to ++ z) (append_assoc wire o' p')
      ∙ sym (append_assoc to wire (o' ++ p'))

  -- A callback that ran to its end.
  ended :
      (d e : ℕ) (ev : Revents F fuel) (r : Session S) (h h' : Heap) (z : Handled F fuel)
      (used : List ℕ)
      → Opposite S d e
      → TidyAt d e h r
      → All (QuietOr F Quiet passive) r.flt
      → All IsByte ev.peer
      → ev.peer ≡ used ++ z.rest
      → io_cb F fuel d e ev r h ≡ some (z, h')
      → Relayed F fuel Quiet passive d e ev.peer h r used z h'
  ended d e ev r h h' z used o t quiet bytes p run =
      go (io_cb_lem F fuel Quiet passive d e ev r h o t quiet bytes)
    where
      go :
          Reads F fuel Quiet passive d e ev h r (io_cb F fuel d e ev r h)
          → Relayed F fuel Quiet passive d e ev.peer h r used z h'
      go (inr (_, _, n, _)) = absurd (none-ne-some _ (sym n ∙ run))
      go (inl (z', h1, used', run', a)) =
          let w = some-injective _ _ (sym run' ∙ run) in
          let b : Relayed F fuel Quiet passive d e ev.peer h r used' z h' =
            subst (λ x. Relayed F fuel Quiet passive d e ev.peer h r used' x.0 x.1) w a in
          subst (λ u. Relayed F fuel Quiet passive d e ev.peer h r u z h')
            (append_cancel used' used z.rest (sym b.prefix ∙ p)) b

  cli_step :
      (r : Session S) (h h' : Heap) (t : Traffic) (ev : Revents F fuel) (z : Handled F fuel)
      (used : List ℕ)
      → Transparent r h t
      → All IsByte ev.peer
      → ev.peer ≡ used ++ z.rest
      → cli_io_cb F fuel ev r h ≡ some (z, h')
      → Transparent z.session h' (after_cli t used z.wire_own z.wire_other)
  unfolding cli_io_cb pipe_of far_of
  cli_step r h h' t ev z used i bytes p run =
      let a =
        ended cli_to_srv srv_to_cli ev r h h' z used (cli-Opposite S) i.tidy i.chain bytes p run in
      record {
        to_server =
            own_sum t.from_cli t.to_srv (owed h (r.c2s).sndq) (partial_of h (r.c2s).rcvq) used
              z.wire_own (owed h' ((z.session).c2s).sndq) (partial_of h' ((z.session).c2s).rcvq)
              i.to_server a.conserved;
        to_client =
            far_sum t.from_srv t.to_cli _ _ z.wire_other _ _ i.to_client a.far_debt a.far_part;
        tidy = a.tidy;
        chain = a.chain;
      }

  srv_step :
      (r : Session S) (h h' : Heap) (t : Traffic) (ev : Revents F fuel) (z : Handled F fuel)
      (used : List ℕ)
      → Transparent r h t
      → All IsByte ev.peer
      → ev.peer ≡ used ++ z.rest
      → srv_io_cb F fuel ev r h ≡ some (z, h')
      → Transparent z.session h' (after_srv t used z.wire_own z.wire_other)
  unfolding srv_io_cb pipe_of far_of
  srv_step r h h' t ev z used i bytes p run =
      let a =
        ended srv_to_cli cli_to_srv ev r h h' z used (srv-Opposite S)
          (Tidy-swap cli_to_srv srv_to_cli h r.c2s r.s2c i.tidy) i.chain bytes p run in
      record {
        to_server =
            far_sum t.from_cli t.to_srv _ _ z.wire_other _ _ i.to_server a.far_debt a.far_part;
        to_client =
            own_sum t.from_srv t.to_cli (owed h (r.s2c).sndq) (partial_of h (r.s2c).rcvq) used
              z.wire_own (owed h' ((z.session).s2c).sndq) (partial_of h' ((z.session).s2c).rcvq)
              i.to_client a.conserved;
        tidy = Tidy-swap srv_to_cli cli_to_srv h' (z.session).s2c (z.session).c2s a.tidy;
        chain = a.chain;
      }

  new_pipes :
      (h : Heap) → Tidy cli_to_srv srv_to_cli h (proxy_pipe cli_to_srv) (proxy_pipe srv_to_cli)
  unfolding proxy_pipe sendq recvq
  new_pipes h = record {
    loaded = record {
      own = sendq-IsReady cli_to_srv h;
      far = sendq-IsReady srv_to_cli h;
      own_in = (recvq-IsValid cli_to_srv h).0;
      far_in = (recvq-IsValid srv_to_cli h).0;
      far_empty = refl;
      own_old = tt;
      far_old = tt;
      apart = tt;
      own_rd_own = tt;
      far_rd_own = tt;
      own_rd_far = tt;
      far_rd_far = tt;
      rds = tt;
      own_pq_own = tt;
      own_pq_far = tt;
      own_pq_rd = tt;
    };
    own_empty = refl;
  }

  new_session :
      (chain : List (Option S)) (start : Heap)
      → All (QuietOr F Quiet passive) chain
      → Transparent (rf_session chain) start no_traffic
  unfolding rf_session proxy_pipe sendq recvq
  new_session chain start quiet = record {
    to_server = refl;
    to_client = refl;
    tidy = new_pipes start;
    chain = quiet;
  }

  -- In every session that a new one becomes by callbacks on bytes below 256, in any order and
  -- with any outcomes of `readv` and `writev`, with a chain of filters that add and drop
  -- nothing, the bytes read from the client are, in order, those written to the server, then
  -- those that the pipe to the server owes, then those of its incomplete packet; likewise from
  -- the server to the client; the queues of the two pipes are in order and share no packet; and
  -- the filters are still such filters.
  pub relay-Transparent :
      (chain : List (Option S)) (start : Heap) (there : Bool) (r : Session S) (h : Heap)
      (t : Traffic)
      → All (QuietOr F Quiet passive) chain
      → Reached F fuel chain start there r h t
      → Transparent r h t
  relay-Transparent chain start there r h t quiet opened = new_session chain start quiet
  relay-Transparent chain start there r h t quiet (on_cli r0 h0 h' t0 ev z used w bytes p run) =
      cli_step r0 h0 h' t0 ev z used (relay-Transparent chain start true r0 h0 t0 quiet w) bytes p
        run
  relay-Transparent chain start there r h t quiet (on_srv r0 h0 h' t0 ev z used w bytes p run) =
      srv_step r0 h0 h' t0 ev z used (relay-Transparent chain start true r0 h0 t0 quiet w) bytes p
        run

  cli-Tidy :
      (r : Session S) (h : Heap)
      → Tidy cli_to_srv srv_to_cli h r.c2s r.s2c
      → Opposite S cli_to_srv srv_to_cli × TidyAt cli_to_srv srv_to_cli h r
  unfolding pipe_of far_of
  cli-Tidy r h t = (cli-Opposite S, t)

  srv-Tidy :
      (r : Session S) (h : Heap)
      → Tidy cli_to_srv srv_to_cli h r.c2s r.s2c
      → Opposite S srv_to_cli cli_to_srv × TidyAt srv_to_cli cli_to_srv h r
  unfolding pipe_of far_of
  srv-Tidy r h t = (srv-Opposite S, Tidy-swap cli_to_srv srv_to_cli h r.c2s r.s2c t)

  -- On a session that was not deleted and that a new one became by callbacks on bytes below 256,
  -- with a chain of filters that add and drop nothing, a callback of either direction gives a
  -- result and reads a first part of the bytes it is offered, if the framing does not fail on
  -- those behind the bytes of the incomplete packet.
  pub relay_goes_on :
      (chain : List (Option S)) (start : Heap) (d e : ℕ) (ev : Revents F fuel) (r : Session S)
      (h : Heap) (t : Traffic)
      → All (QuietOr F Quiet passive) chain
      → Reached F fuel chain start true r h t
      → ((d ≡ cli_to_srv) × (e ≡ srv_to_cli)) ⊎ ((d ≡ srv_to_cli) × (e ≡ cli_to_srv))
      → All IsByte ev.peer
      → feed (view h (pipe_of d r).rcvq) ev.peer ≢ none
      → (z : Handled F fuel) × (h' : Heap) × (used : List ℕ) × (io_cb F fuel d e ev r h
          ≡ some (z, h'))
        × (ev.peer ≡ used ++ z.rest)
  relay_goes_on chain start d e ev r h t quiet w way bytes framed =
      let i = relay-Transparent chain start true r h t quiet w in
      let (o, tidy) = either way i.tidy in
      elim (io_cb_lem F fuel Quiet passive d e ev r h o tidy i.chain bytes) [
        | inl (z, h', used, run, a) ↦ (z, h', used, run, a.prefix)
        | inr (used, rest, run, b) ↦ absurd (
            framed (
              ap (feed (view h (pipe_of d r).rcvq)) b.prefix
              ∙ feed-append (view h (pipe_of d r).rcvq) used rest
              ∙ ap (λ x. and_then x (λ y. feed y rest)) b.short))
      ]
    where
      either :
          ((d ≡ cli_to_srv) × (e ≡ srv_to_cli)) ⊎ ((d ≡ srv_to_cli) × (e ≡ cli_to_srv))
          → Tidy cli_to_srv srv_to_cli h r.c2s r.s2c
          → Opposite S d e × TidyAt d e h r
      either (inl (i, j)) t =
          subst₂ (λ x y. Opposite S x y × TidyAt x y h r) (sym i) (sym j) (cli-Tidy r h t)
      either (inr (i, j)) t =
          subst₂ (λ x y. Opposite S x y × TidyAt x y h r) (sym i) (sym j) (srv-Tidy r h t)
