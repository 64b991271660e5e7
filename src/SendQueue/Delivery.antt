-- ===== src/SendQueue/Delivery.antt =====
-- The results of `sendq::send`: nothing lost, repeated or reordered on the wire.
use Prim.Native.Nat.{min}
use rfx.Prelude.{
  ℕ, ◌+◌, ◌<◌, ◌≡◌, refl, sym, ap, ◌∙◌, ◌≢◌, some, List, [], ◌∷◌, ◌++◌, append_assoc, append-nil,
  arith, length, take, drop, All, length-take, length-append, ◌==◌, if◌then◌else◌, Bool-cases, inl,
  inr, ◌⊎◌,
}
use rfx.Packet.{Heap}
use rfx.Packet.Lifetime.{stream}
use rfx.PacketQueue.{Iovec}
use rfx.SendQueue.{
  SendQueue, Outcome, Errno, eintr, eagain, other, Status, returned, broken, waiting, Sent, window,
  after_write, send_loop, send, gather,
}
use rfx.SendQueue.Stream.{Lined, pending, window_bytes, gather_lem, rest_of, length-rest_of}
use rfx.SendQueue.Sending.{IsReady, Refilled, owed, length-window, refill_lem, after_write_lem}

-- A call that writes, or that does not ask to be made again.
abbrev counts : Outcome → ℕ
counts o = if o.room == 0 then (elim o.errno [ eintr ↦ 0 | _ ↦ 1 ]) else 1

abbrev pub useful : List Outcome → ℕ
useful [] = 0
useful (o ∷ os) = counts o + useful os

-- Every call has room for a byte or more.
abbrev pub AllOpen : List Outcome → Type 0
AllOpen os = All (λ (o : Outcome). o.room ≢ 0) os

-- Nothing stopped the loop but an empty vector, unless it waits.
abbrev pub Flushed : Sent → Type 0
Flushed r = r.status ≢ waiting → (r.status ≡ returned) × (r.queue.svc ≡ 0)

-- What a run of `sendq::send` ensures.
pub record Delivered (h : Heap) (s : SendQueue) (os : List Outcome) (r : Sent) (h' : Heap)
    : Type 0 where
  pub ready : IsReady h' r.queue
  -- An empty vector means that nothing is left.
  pub idle : r.queue.svc ≡ 0 → r.queue.pq ≡ []
  -- What went out is the first part of what was owed; the rest still is.
  pub conserved : owed h s ≡ r.wire ++ owed h' r.queue
  -- It returns, given more calls that count than there are bytes.
  pub ends : length (owed h s) < useful os → r.status ≢ waiting
  pub flushed : AllOpen os → Flushed r

stays :
    (h : Heap) (s : SendQueue) (os : List Outcome) (st : Status)
    → IsReady h s
    → (s.svc ≡ 0 → s.pq ≡ [])
    → (length (owed h s) < useful os → st ≢ waiting)
    → (AllOpen os → Flushed (record { status = st; queue = s; wire = [] }))
    → Delivered h s os (record { status = st; queue = s; wire = [] }) h
stays h s os st r i e f = record { ready = r; idle = i; conserved = refl; ends = e; flushed = f }

window_bytes-pos :
    (h : Heap) (vs : List Iovec) (q : List ℕ)
    → Lined h vs q
    → 0 < length vs
    → 0 < length (window_bytes h vs)
window_bytes-pos h [] q l p = absurd (omega arith)
window_bytes-pos h (v ∷ vs) [] l p = absurd l
window_bytes-pos h (v ∷ vs) (x ∷ q) l p =
    omega (arith, length-append (rest_of h v) (window_bytes h vs), length-rest_of h v x l.0, l.0.2)

loop_empty :
    (o : Outcome) (os : List Outcome) (s : SendQueue) (h : Heap)
    → s.svc ≡ 0
    → send_loop (o ∷ os) s h ≡ some (record { status = returned; queue = s; wire = [] }, h)
unfolding send_loop
loop_empty o os s h e = ground arith

loop_none :
    (s : SendQueue) (h : Heap)
    → send_loop [] s h
      ≡ some (record { status = if s.svc == 0 then returned else waiting; queue = s; wire = [] }, h)
unfolding send_loop
loop_none s h = refl

loop_none-Flushed :
    (s : SendQueue)
    → Flushed (record { status = if s.svc == 0 then returned else waiting; queue = s; wire = [] })
loop_none-Flushed s n = elim (Bool-cases (s.svc == 0)) [
  | inl e ↦ (rw e, ground (arith, e))
  | inr e ↦ absurd (n (rw e))
]

module _ (o : Outcome) (os : List Outcome) (s : SendQueue) (h : Heap) (b : List ℕ) where
  loop_eintr :
      s.svc ≢ 0
      → gather h (window s) ≡ some b
      → o.room ≡ 0
      → o.errno ≡ eintr
      → send_loop (o ∷ os) s h ≡ send_loop os s h
  unfolding send_loop
  loop_eintr n g z e = ground arith

  loop_eagain :
      s.svc ≢ 0
      → gather h (window s) ≡ some b
      → o.room ≡ 0
      → o.errno ≡ eagain
      → send_loop (o ∷ os) s h ≡ some (record { status = returned; queue = s; wire = [] }, h)
  unfolding send_loop
  loop_eagain n g z e = ground arith

  loop_other :
      s.svc ≢ 0
      → gather h (window s) ≡ some b
      → o.room ≡ 0
      → o.errno ≡ other
      → send_loop (o ∷ os) s h ≡ some (record { status = broken; queue = s; wire = [] }, h)
  unfolding send_loop
  loop_other n g z e = ground arith

Errno-cases : (e : Errno) → (e ≡ eintr) ⊎ ((e ≡ eagain) ⊎ (e ≡ other))
Errno-cases eintr = inl refl
Errno-cases eagain = inr (inl refl)
Errno-cases other = inr (inr refl)

loop_wrote :
    (o : Outcome) (os : List Outcome) (s t : SendQueue) (h h' h'' : Heap) (b : List ℕ) (r : Sent)
    → s.svc ≢ 0
    → gather h (window s) ≡ some b
    → min o.room (length b) ≢ 0
    → after_write (min o.room (length b)) s h ≡ some (t, h')
    → send_loop os t h' ≡ some (r, h'')
    → send_loop (o ∷ os) s h
      ≡ some (record r { wire = take (min o.room (length b)) b ++ r.wire }, h'')
unfolding send_loop
loop_wrote o os s t h h' h'' b r n g z e f = ground arith

-- How many bytes a `writev` takes.
abbrev taken : Outcome → Heap → SendQueue → ℕ
taken o h s = min o.room (length (window_bytes h (window s)))

-- What a run of the loop gives, from a queue whose vector is set up.
Run : List Outcome → SendQueue → Heap → Type 0
Run os s h = (r : Sent) × (h' : Heap) × (send_loop os s h ≡ some (r, h')) × Delivered h s os r h'

loop_Run : (os : List Outcome) (s : SendQueue) (h : Heap) (b : List ℕ) → Refilled h s b → Run os s h
unfolding Run
loop_Run [] s h b f = (
  record { status = if s.svc == 0 then returned else waiting; queue = s; wire = [] },
  h,
  loop_none s h,
  stays h s [] _ f.ready f.idle (λ lt. absurd (omega arith)) (λ _. loop_none-Flushed s),
)
loop_Run (o ∷ os) s h b f = elim (Bool-cases (s.svc == 0)) [
  | inl none_left ↦ (
    record { status = returned; queue = s; wire = [] },
    h,
    loop_empty o os s h (ground arith),
    stays h s (o ∷ os) returned f.ready f.idle (λ _ e. cc)
        (λ _ _. (refl, ground (arith, none_left))),
  )
  | inr some_left ↦ elim (Bool-cases (o.room == 0)) [
    | inl shut ↦ blocked (ground arith) (ground arith) (loop_Run os s h b f)
    | inr room ↦
        let (t, h1, b', e, f', split) = after_write_lem (taken o h s) s h f.ready (omega arith) in
        let (r, h2, run, d) = loop_Run os t h1 b' f' in
        (
          record r { wire = take (taken o h s) bytes ++ r.wire },
          h2,
          loop_wrote o os s t h h1 h2 bytes r (ground arith) g
              (some_taken (ground arith) (ground arith)) e run,
          record {
            ready = d.ready;
            idle = d.idle;
            conserved =
                split
                ∙ ap (λ z. take (taken o h s) bytes ++ z) (sym f'.debt ∙ d.conserved)
                ∙ sym (append_assoc (take (taken o h s) bytes) r.wire (owed h2 r.queue));
            flushed = λ a. d.flushed a.1;
            ends = λ lt. d.ends (shorter (ground arith) (ground arith) t h1 b' split f'.debt lt);
          },
        )
  ]
]
  where
    bytes : List ℕ
    bytes = window_bytes h (window s)

    g : gather h (window s) ≡ some bytes
    g = gather_lem h (window s) s.pq f.ready.order.lined f.ready.order.live

    some_taken : s.svc ≢ 0 → o.room ≢ 0 → taken o h s ≢ 0
    some_taken n z = omega (
      arith,
      window_bytes-pos h (window s) s.pq f.ready.order.lined
          (omega (arith, length-window s (omega (arith, f.ready.fits, f.ready.size)))),
    )

    shorter :
        s.svc ≢ 0
        → o.room ≢ 0
        → (t : SendQueue) (h1 : Heap) (b' : List ℕ) → owed h s ≡ take (taken o h s) bytes ++ b'
        → owed h1 t ≡ b'
        → length (owed h s) < useful (o ∷ os)
        → length (owed h1 t) < useful os
    shorter n z t h1 b' split debt lt =
        let c : counts o ≡ 1 = ground arith in
        omega (
          arith,
          c,
          lt,
          some_taken n z,
          ap length split,
          ap length debt,
          length-append (take (taken o h s) bytes) b',
          length-take (taken o h s) bytes,
        )

    blocked : s.svc ≢ 0 → o.room ≡ 0 → Run os s h → Run (o ∷ os) s h
    blocked n z (r, h', run, d) = elim (Errno-cases o.errno) [
      | inl e ↦ (
        r,
        h',
        loop_eintr o os s h bytes n g z e ∙ run,
        record {
          ready = d.ready;
          idle = d.idle;
          conserved = d.conserved;
          ends = ground (arith, d.ends);
          flushed = λ a. absurd (a.0 z);
        },
      )
      | inr (inl e) ↦ (
        record { status = returned; queue = s; wire = [] },
        h,
        loop_eagain o os s h bytes n g z e,
        stays h s (o ∷ os) returned f.ready f.idle (λ _ q. cc) (λ a. absurd (a.0 z)),
      )
      | inr (inr e) ↦ (
        record { status = broken; queue = s; wire = [] },
        h,
        loop_other o os s h bytes n g z e,
        stays h s (o ∷ os) broken f.ready f.idle (λ _ q. cc) (λ a. absurd (a.0 z)),
      )
    ]

-- On a send queue in order, for every sequence of `writev` outcomes, `sendq::send` gives a
-- result, without an access to a freed packet or out of bounds: what it wrote, and then what it
-- still owes, is what it owed; it is in order again; an empty vector means an empty queue; it
-- has returned if more outcomes count than there are bytes owed; and if it has and each outcome
-- has room for a byte, it is not broken and its vector is empty.
pub send_lem :
    (os : List Outcome) (s : SendQueue) (h : Heap)
    → IsReady h s
    → (r : Sent) × (h' : Heap) × (send os s h ≡ some (r, h')) × Delivered h s os r h'
unfolding send Run
send_lem os s h i =
    let n = length-window s (omega (arith, i.fits, i.size)) in
    let (t, e, f) =
      refill_lem (window s) s h (owed h s)
        (record {
          count = sym n;
          holds = record {
            entries = ap (λ k. take k (drop s.sv s.svbuf)) n;
            fits = omega (arith, n, i.fits, i.size);
          };
          order = i.order;
          debt = refl;
        })
        i.size in
    let (r, h', run, d) = loop_Run os t h (owed h s) f in
    (
      r,
      h',
      ground (arith, e, run),
      record {
        ready = d.ready;
        idle = d.idle;
        conserved = sym f.debt ∙ d.conserved;
        ends = λ lt. d.ends (omega (arith, ap length f.debt, lt));
        flushed = d.flushed;
      },
    )

useful-AllOpen : (os : List Outcome) → AllOpen os → useful os ≡ length os
useful-AllOpen [] a = refl
useful-AllOpen (o ∷ os) (n, a) =
    let c : counts o ≡ 1 = ground (arith, n) in omega (arith, c, useful-AllOpen os a)

owed_nothing : (h : Heap) (s : SendQueue) → s.svc ≡ 0 → s.pq ≡ [] → owed h s ≡ []
owed_nothing h s z e = ap (λ n. pending h (take n (drop s.sv s.svbuf)) s.pq) z ∙ ap (stream h) e

-- On a send queue in order, if each `writev` has room for a byte or more and there are more of
-- them than bytes owed, `sendq::send` returns, not broken, with all the bytes that were owed
-- written and no packet left in the queue.
pub send_all :
    (os : List Outcome) (s : SendQueue) (h : Heap)
    → IsReady h s
    → AllOpen os
    → length (owed h s) < length os
    → (r : Sent) × (h' : Heap) × (send os s h ≡ some (r, h'))
      × (r.status ≡ returned)
      × (r.wire ≡ owed h s)
      × (r.queue.pq ≡ [])
send_all os s h i a lt =
    let (r, h', e, d) = send_lem os s h i in
    let (ret, z) = d.flushed a (d.ends (omega (arith, lt, useful-AllOpen os a))) in
    let none_left = owed_nothing h' r.queue z (d.idle z) in
    (
      r,
      h',
      e,
      ret,
      sym (d.conserved ∙ ap (λ x. r.wire ++ x) none_left ∙ append-nil r.wire),
      d.idle z,
    )
