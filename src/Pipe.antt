-- ===== src/Pipe.antt =====
-- `struct proxy_pipe` of proxy.h and proxy.cpp: one direction of a proxied connection.
pub mod Events
use rfx.Prelude.{ℕ, Bool, true, false, Option, List, ◌==◌, ◌&&◌, ◌||◌, if◌then◌else◌}
use rfx.Packet.{M, ◌>>=◌, pure}
use rfx.PacketQueue.{pqh_pop, pqh_empty}
use rfx.SendQueue
use rfx.SendQueue.{SendQueue, sendq, Outcome, Sent, returned, broken, waiting}
use rfx.RecvQueue
use rfx.RecvQueue.{RecvQueue, recvq, Arrival, Received, more, closed}

-- `eof` and `broken` are the bits PIPE_EOF and PIPE_BROKEN of `state`. A watcher is active or not;
-- `in_shut` and `out_shut` record the calls of `shutdown` on the two descriptors.
pub record Pipe : Type 0 where
  pub dir : ℕ
  pub in_active : Bool
  pub out_active : Bool
  pub in_shut : Bool
  pub out_shut : Bool
  pub eof : Bool
  pub broken : Bool
  pub sndq : SendQueue
  pub rcvq : RecvQueue

unfoldable pub proxy_pipe : ℕ → Pipe
proxy_pipe dir = record {
  dir = dir;
  in_active = false;
  out_active = false;
  in_shut = false;
  out_shut = false;
  eof = false;
  broken = false;
  sndq = sendq dir;
  rcvq = recvq dir;
}

unfoldable pub run : Pipe → Pipe
run p = record p { in_active = true }

unfoldable pub stop : Pipe → Pipe
stop p = record p { in_active = false; out_active = false }

unfoldable pub pop_in : Pipe → Option ℕ × Pipe
unfolding pqh_pop
pop_in p = let (k, q) = pqh_pop (p.rcvq).pq in (k, record p { rcvq = record (p.rcvq) { pq = q } })

unfoldable pub push_out : Pipe → ℕ → Pipe
push_out p k = record p { sndq = SendQueue.push_out p.sndq k }

-- The new `pqh`, and the pipe.
unfoldable pub inject : List ℕ → Pipe → M (List ℕ × Pipe)
inject pqh p = do r ← SendQueue.pull pqh p.sndq; pure (r.0, record p { sndq = r.1 })

unfoldable pub running : Pipe → Bool
unfolding SendQueue.is_empty
running p = if SendQueue.is_empty p.sndq then false else true

unfoldable pub done : Pipe → Bool
unfolding SendQueue.is_empty RecvQueue.is_empty
done p =
    if p.broken
    then true
    else if p.eof && RecvQueue.is_empty p.rcvq && SendQueue.is_empty p.sndq
    then true
    else false

-- The part of the handler behind the call of `recv`; a call that is still waiting changes no flag.
abbrev pub after_recv : Received → Pipe → Pipe
after_recv r p =
    let q = record p { rcvq = r.queue } in
    elim r.status [ closed ↦ record q { eof = true; in_active = false } | _ ↦ q ]

-- Read packets from the pipe's input, given the calls of `readv` and the peer's bytes. The bytes not
-- read come back.
unfoldable pub handle_read_event : List Arrival → List ℕ → Pipe → M (List ℕ × Pipe)
handle_read_event calls peer p = do
  r ← RecvQueue.recv calls peer p.rcvq
  pure (r.rest, after_recv r p)

-- `ev_io_stop(&out)`, and the half-close once there is nothing more to come.
unfoldable pub write_stops : Pipe → Pipe
unfolding RecvQueue.is_empty
write_stops p =
    if p.eof && RecvQueue.is_empty p.rcvq
    then record p { out_active = false; out_shut = true }
    else record p { out_active = false }

-- The part of the handler behind the call of `send`.
unfoldable pub after_send : Sent → Pipe → Pipe
unfolding write_stops
after_send r p =
    let q = record p { sndq = r.queue } in
    elim r.status [
      | broken ↦ write_stops (record q { broken = true; in_shut = true })
      | returned ↦ if (r.queue).svc == 0 then write_stops q else record q { out_active = true }
      | waiting ↦ q
    ]

-- Send packets to the pipe's output, given the calls of `writev`. The bytes written come back.
unfoldable pub handle_write_event : List Outcome → Pipe → M (List ℕ × Pipe)
unfolding after_send
handle_write_event os p = do r ← SendQueue.send os p.sndq; pure (r.wire, after_send r p)
