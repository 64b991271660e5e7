-- ===== src/Tests/Relaying.antt =====
-- The life of a session at a concrete input.
use mathlib.Core.Option.{none-ne-some}
use rfx.Prelude.{
  sym, ℕ, ◌≡◌, inl, refl, true, false, Option, none, some, List, [], ◌∷◌, ◌++◌, arith, not, take,
  ◌≢◌,
}
use rfx.Packet.{Heap, pkt_new, pkt_unref}
use rfx.PacketQueue.{pqh_pull, pull_loop, pqh_clear, pqh_discard}
use rfx.Wire.{get_int16}
use rfx.SendQueue.{eagain, other, sendq, pull, push_out, send, gather, after_write}
use rfx.RecvQueue.{recv, first_len, recvq, take_in}
use rfx.RecvQueue.Deframer.{feed, feed_byte}
use rfx.Session.{Session, rf_session, pipe_of, Revents, Handled, cli_io_cb, io_cb}
use rfx.Session.Trace.{
  Reached, opened, on_cli, Traffic, no_traffic, after_cli, Transparent, relay-Transparent,
  relay_goes_on,
}
use rfx.Plugins.{rfx_debug, rfx_debug-IsPassive, Any}
use rfx.Tests.{no_heap, two_frames, in_pieces}

abbrev fresh : Session (Unit {0})
fresh = rf_session (some tt ∷ none ∷ [])

-- The client sends two packets and a byte; the server takes eight bytes, then has no room.
abbrev two_packets : Revents rfx_debug 4
two_packets = record {
  readable = true;
  writable = false;
  arrivals = in_pieces;
  peer = two_frames;
  own = record { room = 8; errno = other } ∷ record { room = 0; errno = eagain } ∷ [];
  other = [];
  again = [];
}

abbrev ended_as : Option (Handled rfx_debug 4 × Heap) → Handled rfx_debug 4 × Heap
ended_as none =
    (record { session = fresh; deleted = true; rest = []; wire_own = []; wire_other = [] }, no_heap)
ended_as (some x) = x

abbrev first_cb : Handled rfx_debug 4 × Heap
first_cb = ended_as (cli_io_cb rfx_debug 4 two_packets fresh no_heap)

first_cb-Reached :
    Reached rfx_debug 4
      (some tt ∷ none ∷ [])
      no_heap
      (not first_cb.0.deleted)
      first_cb.0.session
      first_cb.1
      (after_cli no_traffic two_frames first_cb.0.wire_own first_cb.0.wire_other)
unfolding rf_session cli_io_cb recv first_len recvq take_in pkt_new get_int16 pull sendq pqh_pull
    pull_loop pqh_clear push_out send gather after_write pqh_discard pkt_unref
first_cb-Reached =
    on_cli fresh no_heap first_cb.1 no_traffic two_packets first_cb.0 two_frames opened
      (omega arith) refl refl

-- Eight of the ten bytes of the packets are with the server, two are owed, and one is incomplete.
first_cb_runs : (first_cb.0.wire_own ≡ take 8 two_frames) × (first_cb.0.deleted ≡ false)
unfolding rf_session cli_io_cb recv first_len recvq take_in pkt_new get_int16 pull sendq pqh_pull
    pull_loop pqh_clear push_out send gather after_write pqh_discard pkt_unref
first_cb_runs = (refl, refl)

abbrev gone : Traffic
gone = after_cli no_traffic two_frames first_cb.0.wire_own first_cb.0.wire_other

relay-Transparent_example :
    Transparent rfx_debug 4 Any rfx_debug-IsPassive first_cb.0.session first_cb.1 gone
relay-Transparent_example =
    relay-Transparent rfx_debug 4 Any rfx_debug-IsPassive (some tt ∷ none ∷ []) no_heap
      (not first_cb.0.deleted) first_cb.0.session first_cb.1 gone (tt, (tt, tt)) first_cb-Reached

two_frames-framed : feed (record { frames = []; partial = [] }) two_frames ≢ none
unfolding feed feed_byte get_int16
two_frames-framed e = none-ne-some _ (sym e)

relay_goes_on_example :
    (z : Handled rfx_debug 4) × (h' : Heap) × (used : List ℕ) × (io_cb rfx_debug 4 0 1 two_packets
        fresh no_heap
      ≡ some (z, h'))
    × (two_frames ≡ used ++ z.rest)
unfolding rf_session pipe_of recvq
relay_goes_on_example =
    relay_goes_on rfx_debug 4 Any rfx_debug-IsPassive (some tt ∷ none ∷ []) no_heap 0 1 two_packets
      fresh no_heap no_traffic (tt, (tt, tt)) opened (inl (refl, refl)) (omega arith)
      two_frames-framed
