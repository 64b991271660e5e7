-- ===== src/Session.antt =====
-- `rf_session` and `rf_delayed_queue` of main.cpp: two pipes, a filter chain and a delayed queue.
pub mod Marks
pub mod Tidy
pub mod Turns
pub mod Onward
pub mod Readable
pub mod Relayed
pub mod Ending
pub mod Trace
pub mod Callback
pub mod Intake
pub mod Ends
pub mod Passive
use rfx.Prelude.{
  ℕ, zero, suc, Bool, true, false, Option, none, some, List, [], ◌∷◌, ◌++◌, ◌==◌, ◌&&◌,
  if◌then◌else◌, length,
}
use rfx.Packet.{M, ◌>>=◌, ◌>>◌, pure, fault, load, pkt_ref, pkt_unref, srv_to_cli, cli_to_srv}
use rfx.PacketQueue.{pqh_clear}
use rfx.SendQueue.{Outcome}
use rfx.RecvQueue.{Arrival}
use rfx.Pipe
use rfx.Pipe.{
  Pipe, proxy_pipe, pop_in, push_out, inject, handle_read_event, handle_write_event, run, stop,
  done,
}
use rfx.Filters.{Filter, Work, process_packet, process_events}
use rfx.Delayed
use rfx.Delayed.{DelayedPkt, DelayedQueue, delayed_queue, take_out}

-- `S` is the state of a filter.
pub record Session (S : Type 0) : Type 0 where
  pub c2s : Pipe
  pub s2c : Pipe
  pub flt : List (Option S)
  pub dq : DelayedQueue

-- `rf_session::rf_session`, with the chain that `build_chain` makes.
unfoldable pub rf_session : {S : Type 0} → List (Option S) → Session S
unfolding delayed_queue proxy_pipe
rf_session chain = record {
  c2s = proxy_pipe cli_to_srv;
  s2c = proxy_pipe srv_to_cli;
  flt = chain;
  dq = delayed_queue;
}

-- `dir == SRV_TO_CLI ? s2c : c2s`
unfoldable pub pipe_of : {S : Type 0} → ℕ → Session S → Pipe
pipe_of dir r = if dir == srv_to_cli then r.s2c else r.c2s

unfoldable pub put_pipe : {S : Type 0} → ℕ → Pipe → Session S → Session S
put_pipe dir p r = if dir == srv_to_cli then record r { s2c = p } else record r { c2s = p }

-- Steps 3 and 6 of `filter`: what the filters added goes to the pipe of its direction, the rest to
-- the delayed queue.
unfoldable pub enqueue : {S : Type 0} → List ℕ → Session S → M (Session S)
unfolding inject Delayed.pull
enqueue q r = do
  a ← inject q r.s2c
  b ← inject a.0 r.c2s
  d ← Delayed.pull b.0 r.dq
  pqh_clear []
  pure (record r { s2c = a.1; c2s = b.1; dq = d })

-- Step 5: the packet itself, unless a filter marked it as dropped.
unfoldable pub append_packet : {S : Type 0} → ℕ → ℕ → Session S → M (Session S)
unfolding pipe_of put_pipe push_out
append_packet dir p r = do
  k ← load p
  if k.drop then (do pkt_unref p; pure r) else pure (put_pipe dir (push_out (pipe_of dir r) p) r)

abbrev pub no_work : Work
no_work = record { pre = []; post = []; evq = [] }

module _ {S : Type 0} (F : Filter S) (fuel : ℕ) where
  -- The body of the loop, on a packet that was popped. `fuel` bounds the events that one packet
  -- leads to.
  unfoldable pub filter_packet : ℕ → ℕ → Session S → M (Session S)
  unfolding process_packet process_events enqueue append_packet
  filter_packet dir p r = do
    x ← process_packet F r.flt p no_work
    y ← process_events F fuel x.0 x.1
    r1 ← enqueue (y.1).pre (record r { flt = y.0 })
    r2 ← append_packet dir p r1
    enqueue (y.1).post r2

  -- `while ((pkt = p.pop_in()))`, by the number of packets in the queue.
  unfoldable pub filter_loop : ℕ → ℕ → Session S → M (Session S)
  unfolding filter_packet pipe_of put_pipe pop_in
  filter_loop zero dir r =
      let (k, p) = pop_in (pipe_of dir r) in
      elim k [ none ↦ pure (put_pipe dir p r) | some x ↦ fault ]
  filter_loop (suc n) dir r =
      let (k, p) = pop_in (pipe_of dir r) in
      elim k [
        | none ↦ pure (put_pipe dir p r)
        | some x ↦ (do r' ← filter_packet dir x (put_pipe dir p r); filter_loop n dir r')
      ]

  -- `rf_session::filter`
  unfoldable pub filter : ℕ → Session S → M (Session S)
  unfolding filter_loop pipe_of
  filter dir r = filter_loop (length ((pipe_of dir r).rcvq).pq) dir r

  -- What the kernel has in store for one run of a callback: the events, the calls of `readv` and the
  -- peer's bytes, and the calls of `writev` on the callback's own pipe, on the other, and on its own
  -- again.
  pub record Revents : Type 0 where
    pub readable : Bool
    pub writable : Bool
    pub arrivals : List Arrival
    pub peer : List ℕ
    pub own : List Outcome
    pub other : List Outcome
    pub again : List Outcome

  -- The session after a callback, whether it was deleted, the bytes not read, and the bytes written
  -- to each side.
  pub record Handled : Type 0 where
    pub session : Session S
    pub deleted : Bool
    pub rest : List ℕ
    pub wire_own : List ℕ
    pub wire_other : List ℕ

  -- `handle_write_event` of one pipe of the session.
  unfoldable pub write_pipe : ℕ → List Outcome → Session S → M (List ℕ × Session S)
  unfolding pipe_of put_pipe handle_write_event
  write_pipe dir os r = do x ← handle_write_event os (pipe_of dir r); pure (x.0, put_pipe dir x.1 r)

  -- The `EV_READ` part of a callback.
  unfoldable pub on_readable : ℕ → ℕ → Revents → Session S → M Handled
  unfolding filter write_pipe handle_read_event pipe_of put_pipe
  on_readable dir far ev r = do
    x ← handle_read_event ev.arrivals ev.peer (pipe_of dir r)
    r1 ← filter dir (put_pipe dir x.1 r)
    a ← write_pipe dir ev.own (record r1 { dq = Delayed.start r1.dq })
    b ← write_pipe far ev.other a.1
    pure (record { session = b.1; deleted = false; rest = x.0; wire_own = a.0; wire_other = b.0 })

  -- `rf_session::done`
  unfoldable pub session_done : Session S → Bool
  unfolding done
  session_done r = done r.c2s && done r.s2c

  -- `rf_session::stop` and `run`
  unfoldable pub session_stop : Session S → Session S
  unfolding stop Delayed.stop
  session_stop r = record r { dq = Delayed.stop r.dq; c2s = stop r.c2s; s2c = stop r.s2c }

  unfoldable pub session_run : Session S → Session S
  unfolding run
  session_run r = record r { c2s = run r.c2s; s2c = run r.s2c }

  -- A callback of the pipe of direction `dir`, where `far` is the other one.
  unfoldable pub io_cb : ℕ → ℕ → Revents → Session S → M Handled
  unfolding on_readable write_pipe session_done session_stop
  io_cb dir far ev r = do
    x ←
        (if ev.readable
          then on_readable dir far ev r
          else pure (record {
            session = r;
            deleted = false;
            rest = ev.peer;
            wire_own = [];
            wire_other = [];
          }))
    y ← (if ev.writable then write_pipe dir ev.again x.session else pure ([], x.session))
    let z = record x { session = y.1; wire_own = x.wire_own ++ y.0 }
    if session_done y.1
        then pure (record z { session = session_stop y.1; deleted = true })
        else pure z

  unfoldable pub cli_io_cb : Revents → Session S → M Handled
  unfolding io_cb
  cli_io_cb ev r = io_cb cli_to_srv srv_to_cli ev r

  unfoldable pub srv_io_cb : Revents → Session S → M Handled
  unfolding io_cb
  srv_io_cb ev r = io_cb srv_to_cli cli_to_srv ev r

  -- `rf_delayed_queue::emit`
  unfoldable pub emit : ℕ → List Outcome → Session S → M (List ℕ × Session S)
  unfolding pkt_ref write_pipe push_out pipe_of put_pipe
  emit p os r = do
    k ← load p
    pkt_ref p
    write_pipe k.dir os (put_pipe k.dir (push_out (pipe_of k.dir r) p) r)

  -- `delayed_queue::timeout_cb` of the entry at place `i`: its timer stops with it.
  unfoldable pub timeout_cb : ℕ → List Outcome → Session S → M (List ℕ × Session S)
  unfolding emit
  timeout_cb i os r = elim (take_out i (r.dq).qh) [
    | none ↦ fault
    | some (dp, q) ↦ (do
      x ← emit dp.pkt os (record r { dq = record (r.dq) { qh = q } })
      pkt_unref dp.pkt
      pure x)
  ]
