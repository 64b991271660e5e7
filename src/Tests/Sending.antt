-- ===== src/Tests/Sending.antt =====
-- A queue that is sent as a whole.
use rfx.Prelude.{ℕ, ◌≡◌, ◌≢◌, ◌<◌, ◌+◌, some, List, [], ◌∷◌, arith, length}
use rfx.Packet.{Heap}
use rfx.PacketQueue.{pqh_push}
use rfx.SendQueue.{sendq, push_out, Outcome, other, returned, Sent, send}
use rfx.SendQueue.Sending.{owed}
use rfx.SendQueue.Delivery.{AllOpen, send_all}
use rfx.Tests.{two_pings, waiting_ping, waiting_ping-IsReady}

abbrev one_byte : Outcome
one_byte = record { room = 1; errno = other }

-- The peer takes one byte with each call, but the last.
abbrev byte_by_byte : List Outcome
byte_by_byte =
    one_byte
    ∷ one_byte
    ∷ one_byte
    ∷ one_byte
    ∷ one_byte
    ∷ one_byte
    ∷ record { room = 9; errno = other }
    ∷ []

room_open : (k : ℕ) → k + 1 ≢ 0
room_open k e = absurd (omega (arith, e))

byte_by_byte-AllOpen : AllOpen byte_by_byte
byte_by_byte-AllOpen =
    let n = room_open 0 in let m = room_open 8 in (n, (n, (n, (n, (n, (n, (m, tt)))))))

ping_size : length (owed two_pings waiting_ping) < length byte_by_byte
unfolding push_out sendq pqh_push
ping_size = omega arith

send_all_example :
    (r : Sent) × (h' : Heap) × (send byte_by_byte waiting_ping two_pings ≡ some (r, h'))
    × (r.status ≡ returned)
    × (r.wire ≡ owed two_pings waiting_ping)
    × (r.queue.pq ≡ [])
send_all_example =
    send_all byte_by_byte waiting_ping two_pings waiting_ping-IsReady byte_by_byte-AllOpen ping_size
