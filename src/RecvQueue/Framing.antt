-- ===== src/RecvQueue/Framing.antt =====
-- recvq::recv as a whole: the packets that it makes of the peer's bytes.
use Prim.Native.Nat.{min}
use rfx.Prelude.{
  ℕ, ◌+◌, ◌-◌, ◌%◌, ◌^◌, ◌<◌, ◌≡◌, refl, sym, ap, ◌∙◌, ◌≢◌, Option, none, some, List, [], ◌∷◌, ◌++◌,
  append_assoc, arith, length, ◌==◌, length-take, length-drop, Bool-cases, Option-cases, inl, inr,
  ◌⊎◌, All, All-take, All-drop, take, drop, take-append-drop,
}
use rfx.Packet.{Heap, ◌>>=◌}
use rfx.SendQueue.{eintr, eagain, other}
use rfx.RecvQueue.{
  RecvQueue, first_len, take_in, recv, Arrival, available, failed, Status, more, closed, waiting,
  Received, buf_size, rd_size,
}
use rfx.RecvQueue.Deframer.{Deframer, feed, feed-append, and_then}
use rfx.RecvQueue.Invariant.{IsByte, IsValid, Refines, view}
use rfx.RecvQueue.Extract.{IsValid-Body}
use rfx.RecvQueue.Receive.{take_in_lem}

-- The calls that are not merely interrupted.
abbrev pub reads : List Arrival → ℕ
reads [] = 0
reads (failed eintr ∷ calls) = reads calls
reads (failed eagain ∷ calls) = 1 + reads calls
reads (failed other ∷ calls) = 1 + reads calls
reads (available n ∷ calls) = 1 + reads calls

-- A run of `recv` that returns or waits: the bytes `used` were read, and the queue is where they
-- take the framing.
pub record Framed (dir : ℕ) (calls : List Arrival) (peer : List ℕ) (h : Heap) (s : RecvQueue)
    (r : Received) (h' : Heap) (used : List ℕ) : Type 0 where
  pub prefix : peer ≡ used ++ r.rest
  pub framed : feed (view h s) used ≡ some (view h' r.queue)
  pub valid : IsValid dir h' r.queue
  -- It returns, given more calls than there are bytes.
  pub ends : length peer < reads calls → r.status ≢ waiting

-- A run that is a fault: the framing meets a header that announces fewer than four bytes.
pub record Broken (peer : List ℕ) (h : Heap) (s : RecvQueue) (used rest : List ℕ) : Type 0 where
  pub prefix : peer ≡ used ++ rest
  pub short : feed (view h s) used ≡ none

abbrev pub Runs : ℕ → List Arrival → List ℕ → Heap → RecvQueue → Type 0
Runs dir calls peer h s =
    ((r : Received) × (h' : Heap) × (used : List ℕ) × (recv calls peer s h ≡ some (r, h'))
      × Framed dir calls peer h s r h' used)
    ⊎ ((used : List ℕ) × (rest : List ℕ) × (recv calls peer s h ≡ none) × Broken peer h s used rest)

stops :
    (dir : ℕ) (calls : List Arrival) (peer : List ℕ) (h : Heap) (s : RecvQueue) (st : Status)
    → IsValid dir h s
    → (length peer < reads calls → st ≢ waiting)
    → recv calls peer s h ≡ some (record { status = st; queue = s; rest = peer }, h)
    → Runs dir calls peer h s
stops dir calls peer h s st v e run = inl (
  record { status = st; queue = s; rest = peer },
  h,
  [],
  run,
  record { prefix = refl; framed = unfold feed in refl; valid = v; ends = e },
)

-- How many bytes a `readv` gets.
abbrev got : ℕ → List ℕ → ℕ → ℕ
got n peer room = min n (min (length peer) (room + buf_size))

first_len_lem :
    (dir : ℕ) (h : Heap) (s : RecvQueue)
    → IsValid dir h s
    → (room : ℕ) × (first_len s h ≡ some (room, h))
unfolding first_len
first_len_lem dir h s v = elim (Option-cases s.rd) [
  | inl e ↦ (rd_size - s.rd_pos, ground arith)
  | inr (p, rd) ↦
      let b = IsValid-Body dir h s p v rd in
      let k = b.0 in let c = b.1 in ((k.len + 2 ^ 32 - s.rd_pos) % 2 ^ 32, ground (arith, c))
]

recv_empty :
    (n room : ℕ) (calls : List Arrival) (peer : List ℕ) (h : Heap) (s : RecvQueue)
    → first_len s h ≡ some (room, h)
    → got n peer room ≡ 0
    → recv (available n ∷ calls) peer s h
      ≡ some (record { status = closed; queue = s; rest = peer }, h)
unfolding recv
recv_empty n room calls peer h s e z = ground (arith, e)

recv-some :
    (n room : ℕ) (calls : List Arrival) (peer : List ℕ) (h : Heap) (s : RecvQueue)
    → first_len s h ≡ some (room, h)
    → got n peer room ≢ 0
    → recv (available n ∷ calls) peer s h
      ≡ (take_in (take (got n peer room) peer) s >>= recv calls (drop (got n peer room) peer)) h
unfolding recv
recv-some n room calls peer h s e z = ground (arith, e)

-- One `readv` that gets bytes, before the calls that follow.
recv_round :
    (dir n room : ℕ) (calls : List Arrival) (peer : List ℕ) (h : Heap) (s : RecvQueue)
    → first_len s h ≡ some (room, h)
    → got n peer room ≢ 0
    → (o : Option Deframer) → feed (view h s) (take (got n peer room) peer) ≡ o
    → Refines dir o (take_in (take (got n peer room) peer) s h)
    → ((s' : RecvQueue) (h' : Heap)
        → IsValid dir h' s'
        → Runs dir calls (drop (got n peer room) peer) h' s')
    → Runs dir (available n ∷ calls) peer h s
recv_round dir n room calls peer h s e z none f r next = inr (
  take (got n peer room) peer,
  drop (got n peer room) peer,
  recv-some n room calls peer h s e z ∙ rw (r, ◌>>=◌),
  record { prefix = sym (take-append-drop (got n peer room) peer); short = f },
)
recv_round dir n room calls peer h s e z (some d) f (s', h', run, v, w) next = elim (next s' h' v) [
  | inl (r, h'', used, run', fr) ↦
      let prefix = fr.prefix in
      let ends = fr.ends in
      inl (
        r,
        h'',
        bs ++ used,
        started ∙ run',
        record {
          prefix = whole ∙ ap (λ z. bs ++ z) prefix ∙ sym (append_assoc bs used r.rest);
          framed =
              feed-append (view h s) bs used
              ∙ ap (λ o. and_then o (λ x. feed x used)) (f ∙ ap (λ x. some x) (sym w))
              ∙ fr.framed;
          valid = fr.valid;
          ends = λ lt. ends (omega (arith, lt, size, z));
        },
      )
  | inr (used, rest, run', b) ↦ inr (
    bs ++ used,
    rest,
    started ∙ run',
    record {
      prefix = whole ∙ ap (λ z. bs ++ z) b.prefix ∙ sym (append_assoc bs used rest);
      short =
          feed-append (view h s) bs used
          ∙ ap (λ o. and_then o (λ x. feed x used)) (f ∙ ap (λ x. some x) (sym w))
          ∙ b.short;
    },
  )
]
  where
    bs : List ℕ
    bs = take (got n peer room) peer

    whole : peer ≡ bs ++ drop (got n peer room) peer
    whole = sym (take-append-drop (got n peer room) peer)

    size : length (drop (got n peer room) peer) ≡ length peer - got n peer room
    size = length-drop (got n peer room) peer

    started : recv (available n ∷ calls) peer s h ≡ recv calls (drop (got n peer room) peer) s' h'
    started = recv-some n room calls peer h s e z ∙ rw (run, ◌>>=◌)

-- On a receive queue in order and bytes below 256, for every sequence of `readv` calls,
-- `recvq::recv` either gives a result, in which case it read a first part of the peer's bytes,
-- its packets and its incomplete packet are those to which the byte-wise framing leads from
-- where it was, it is in order again, and it has returned if more calls count than there are
-- bytes; or it is a fault, and the framing fails on a first part of the bytes, at a header that
-- announces fewer than four bytes.
pub recv_lem :
    (dir : ℕ) (calls : List Arrival) (peer : List ℕ) (h : Heap) (s : RecvQueue)
    → IsValid dir h s
    → All IsByte peer
    → Runs dir calls peer h s
unfolding recv
recv_lem dir [] peer h s v a = stops dir [] peer h s waiting v (λ lt. absurd (omega arith)) refl
recv_lem dir (failed eintr ∷ calls) peer h s v a = elim (recv_lem dir calls peer h s v a) [
  | inl (r, h', used, run, f) ↦ inl (
    r,
    h',
    used,
    run,
    record { prefix = f.prefix; framed = f.framed; valid = f.valid; ends = f.ends },
  )
  | inr x ↦ inr x
]
recv_lem dir (failed eagain ∷ calls) peer h s v a =
    stops dir (failed eagain ∷ calls) peer h s more v (λ _ e. cc) refl
recv_lem dir (failed other ∷ calls) peer h s v a =
    stops dir (failed other ∷ calls) peer h s closed v (λ _ e. cc) refl
recv_lem dir (available n ∷ calls) peer h s v a =
    let (room, e) = first_len_lem dir h s v in
    elim (Bool-cases (got n peer room == 0)) [
      | inl nothing ↦
          stops dir (available n ∷ calls) peer h s closed v (λ _ q. cc)
            (recv_empty n room calls peer h s e (ground arith))
      | inr bytes ↦
          let z : got n peer room ≢ 0 = ground arith in
          let size = length-take (got n peer room) peer in
          recv_round dir n room calls peer h s e z (feed (view h s) (take (got n peer room) peer))
            refl
            (take_in_lem dir h s (take (got n peer room) peer) v
              (All-take IsByte (got n peer room) peer a) (omega (arith, size, z)))
            (λ s' h' v'.
              recv_lem dir calls (drop (got n peer room) peer) h' s' v'
                (All-drop IsByte (got n peer room) peer a))
    ]
