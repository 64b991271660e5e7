-- ===== src/Tests.antt =====
-- Runs of the model at concrete inputs, and each property with hypotheses at one of them.
mod Filtering
mod Library
mod Connecting
mod Sending
mod Addressing
mod Dumping
mod Configuration
mod Relaying
use rfx.Prelude.{
  All, ℕ, zero, suc, ◌≤◌, ◌≡◌, refl, false, Option, none, some, List, [], ◌∷◌, ◌++◌, arith, length,
}
use rfx.Packet.{Packet, Heap}
use rfx.Packet.Lifetime.{Unreferenced, IsSound, Live, bytes_at, stream, AgreeBut, pkt_unref_lem}
use rfx.Packet.{pkt_unref, pkt_new}
use rfx.PacketQueue.{Pull, pqh_pull, pqh_discard}
use rfx.PacketQueue.Pulling.{Pulled, Parts, pqh_pull_lem}
use rfx.Wire.{get_int16}
use rfx.SendQueue.{
  SendQueue, sendq, push_out, pull, send, gather, after_write, Sent, Outcome, eintr, eagain, other,
}
use rfx.SendQueue.Sending.{IsReady, owed, sendq-IsReady}
use rfx.SendQueue.Delivery.{Delivered, send_lem}
use rfx.SendQueue.Inject.{push_out_lem}
use rfx.SendQueue.Pulls.{pull_lem, pull_out_of_step}
use rfx.RecvQueue.{
  RecvQueue, recvq, recv, first_len, take_in, Arrival, available, failed, Received, waiting,
}
use rfx.RecvQueue.Deframer.{feed}
use rfx.RecvQueue.Invariant.{IsValid, view, frames_of}
use rfx.RecvQueue.Framing.{Runs, recv_lem}
use rfx.RecvQueue.Packets.{recvq-IsValid, recv_in_any_pieces}
use rfx.RecvQueue.Again.{received_again}
use rfx.RecvQueue.Conserve.{partial_of}
use rfx.Pipe.{Pipe, proxy_pipe, handle_write_event}
use rfx.Pipe.Events.{Written, handle_write_event_lem}

-- A packet of six bytes, of type 0x0203, from the server to the client.
abbrev ping : Packet
ping = record {
  len = 6;
  type = 0x0203;
  dir = 1;
  drop = false;
  show = false;
  refc = 1;
  delay = 0;
  desc = none;
  dyn_desc = none;
  data_bytes = 6 ∷ 0 ∷ 3 ∷ 2 ∷ 7 ∷ 8 ∷ [];
}

abbrev no_heap : Heap
no_heap = record { cell = λ _. none; next = 0 }

-- The packet at 0 and at 1.
abbrev two_pings : Heap
two_pings = record {
  cell = elim [ zero ↦ some ping | suc n ↦ elim n [ zero ↦ some ping | suc _ ↦ none ] ];
  next = 2;
}

ping-IsSound : IsSound ping
ping-IsSound = omega arith

first-Live : Live two_pings 0
first-Live = (ping, refl, ping-IsSound)

second-Live : Live two_pings 1
second-Live = (ping, refl, ping-IsSound)

abbrev waiting_ping : SendQueue
waiting_ping = push_out (sendq 1) 0

waiting_ping-IsReady : IsReady two_pings waiting_ping
waiting_ping-IsReady =
    (push_out_lem (sendq 1) 0 two_pings (sendq-IsReady 1 two_pings) first-Live
      (unfold sendq in tt)).0

-- The peer takes four bytes, then none, then the rest.
abbrev slow_peer : List Outcome
slow_peer =
    record { room = 4; errno = other }
    ∷ record { room = 0; errno = eintr }
    ∷ record { room = 100; errno = other }
    ∷ []

abbrev two_frames : List ℕ
two_frames = 6 ∷ 0 ∷ 3 ∷ 2 ∷ 7 ∷ 8 ∷ 4 ∷ 0 ∷ 9 ∷ 1 ∷ 5 ∷ []

abbrev in_pieces : List Arrival
in_pieces = available 3 ∷ available 2 ∷ failed eintr ∷ available 100 ∷ failed eagain ∷ []

pkt_unref_example :
    (h' : Heap) × (pkt_unref 0 two_pings ≡ some (tt, h')) × AgreeBut 0 two_pings h' × (h'.next ≡ 2)
pkt_unref_example = pkt_unref_lem 0 two_pings first-Live

recv_example : Runs 1 in_pieces two_frames no_heap (recvq 1)
recv_example =
    recv_lem 1 in_pieces two_frames no_heap (recvq 1) (recvq-IsValid 1 no_heap).0 (omega arith)

send_example :
    (r : Sent) × (h' : Heap) × (send slow_peer waiting_ping two_pings ≡ some (r, h'))
    × Delivered two_pings waiting_ping slow_peer r h'
send_example = send_lem slow_peer waiting_ping two_pings waiting_ping-IsReady

push_out_example :
    IsReady two_pings (push_out (sendq 1) 0)
    × (owed two_pings (push_out (sendq 1) 0) ≡ owed two_pings (sendq 1) ++ bytes_at two_pings 0)
push_out_example =
    push_out_lem (sendq 1) 0 two_pings (sendq-IsReady 1 two_pings) first-Live (unfold sendq in tt)

pull_example :
    (kept : List ℕ) × (moved : List ℕ) × (gone : List ℕ) × (t : SendQueue) × (h' : Heap) × (pull
        (1 ∷ [])
        (sendq 1)
        two_pings
      ≡ some ((kept, t), h'))
    × Parts (sendq 1).dir (unfold sendq in 64) 0 two_pings 0 (1 ∷ []) kept moved gone
    × IsReady h' t
    × (t.svc ≡ length t.pq)
    × (owed h' t ≡ owed two_pings (sendq 1) ++ stream two_pings moved)
    × All (Unreferenced two_pings h') gone
unfolding sendq
pull_example =
    pull_lem (sendq 1) (1 ∷ []) two_pings (sendq-IsReady 1 two_pings) refl (omega arith)
      (second-Live, tt) (tt, tt) (tt, tt)

pull_out_of_step_example :
    (t : SendQueue) × (h' : Heap) × (pull (1 ∷ []) waiting_ping two_pings ≡ some (([], t), h'))
    × ¬ IsReady h' t
unfolding sendq push_out
pull_out_of_step_example =
    pull_out_of_step waiting_ping 1 two_pings waiting_ping-IsReady (omega arith) (omega arith)
      (ping, refl, refl, omega arith, refl) second-Live ((λ e. absurd (omega arith)), tt)

pqh_pull_example :
    (r : Pull) × (gone : List ℕ) × (h' : Heap) × (pqh_pull (0 ∷ 1 ∷ []) [] 1 64 0 two_pings
      ≡ some ((r.kept, [] ++ r.moved, r.outv), h'))
    × Pulled 1 64 0 two_pings 0 (0 ∷ 1 ∷ []) gone r h'
    × (length r.moved ≤ 64)
pqh_pull_example =
    pqh_pull_lem 1 64 0 (0 ∷ 1 ∷ []) [] two_pings (first-Live, (second-Live, tt))
      (((λ e. absurd (omega arith)), tt), (tt, tt))

abbrev writing : Pipe
writing = record (proxy_pipe 1) { sndq = waiting_ping }

handle_write_event_example :
    (wire : List ℕ) × (q : Pipe) × (h' : Heap) × (handle_write_event slow_peer writing two_pings
      ≡ some ((wire, q), h'))
    × Written two_pings writing wire q h'
handle_write_event_example = handle_write_event_lem slow_peer writing two_pings waiting_ping-IsReady

-- What a run of `recv` left, in short.
abbrev seen : Option (Received × Heap) → Option (List (List ℕ) × List ℕ × List ℕ)
seen none = none
seen (some (r, h)) = some (frames_of h (r.queue).pq, (view h r.queue).partial, r.rest)

-- One frame is complete, and the second is, with a byte of a third header.
recv_runs :
    seen (recv in_pieces two_frames (recvq 1) no_heap)
    ≡ some ((6 ∷ 0 ∷ 3 ∷ 2 ∷ 7 ∷ 8 ∷ []) ∷ (4 ∷ 0 ∷ 9 ∷ 1 ∷ []) ∷ [], 5 ∷ [], [])
unfolding recvq recv first_len take_in pkt_new get_int16
recv_runs = refl

-- A header that announces three bytes is a fault.
recv_short_header : recv (available 100 ∷ []) (3 ∷ 0 ∷ 1 ∷ 1 ∷ []) (recvq 1) no_heap ≡ none
unfolding recvq recv first_len take_in pkt_new get_int16
recv_short_header = refl

abbrev wired : Option (Sent × Heap) → Option (List ℕ × List ℕ)
wired none = none
wired (some (r, h)) = some (r.wire, (r.queue).pq)

send_runs : wired (send slow_peer waiting_ping two_pings) ≡ some (6 ∷ 0 ∷ 3 ∷ 2 ∷ 7 ∷ 8 ∷ [], [])
unfolding send sendq push_out gather after_write pqh_discard pkt_unref
send_runs = refl

-- The last state of a run.
abbrev left_by : Option (Received × Heap) → Received × Heap
left_by none = (record { status = waiting; queue = recvq 1; rest = [] }, no_heap)
left_by (some x) = x

abbrev at_once : List Arrival
at_once = available 100 ∷ failed eagain ∷ []

recv_in_any_pieces_example :
    view
      (left_by (recv in_pieces two_frames (recvq 1) no_heap)).1
      (left_by (recv in_pieces two_frames (recvq 1) no_heap)).0.queue
    ≡ view
        (left_by (recv at_once two_frames (recvq 1) no_heap)).1
        (left_by (recv at_once two_frames (recvq 1) no_heap)).0.queue
unfolding recvq recv first_len take_in pkt_new get_int16
recv_in_any_pieces_example =
    recv_in_any_pieces 1 in_pieces at_once two_frames no_heap
      (left_by (recv in_pieces two_frames (recvq 1) no_heap)).1
      (left_by (recv at_once two_frames (recvq 1) no_heap)).1 (recvq 1)
      (left_by (recv in_pieces two_frames (recvq 1) no_heap)).0
      (left_by (recv at_once two_frames (recvq 1) no_heap)).0 (recvq-IsValid 1 no_heap).0
      (omega arith) refl refl refl

received_again_example :
    (r : Received) × (h' : Heap) × (recv at_once
        (stream
          (left_by (recv in_pieces two_frames (recvq 1) no_heap)).1
          (left_by (recv in_pieces two_frames (recvq 1) no_heap)).0.queue.pq)
        (recvq 0)
        no_heap
      ≡ some (r, h'))
    × (r.rest ≡ []
        → (frames_of h' r.queue.pq
            ≡ frames_of
                (left_by (recv in_pieces two_frames (recvq 1) no_heap)).1
                (left_by (recv in_pieces two_frames (recvq 1) no_heap)).0.queue.pq)
          × (partial_of h' r.queue ≡ []))
unfolding recvq recv first_len take_in pkt_new get_int16
received_again_example =
    received_again 1 0 in_pieces at_once two_frames no_heap
      (left_by (recv in_pieces two_frames (recvq 1) no_heap)).1 no_heap
      (left_by (recv in_pieces two_frames (recvq 1) no_heap)).0 (omega arith) refl
