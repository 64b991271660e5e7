-- ===== src/RecvQueue/Body.antt =====
-- Bytes of a packet's body, and of an incomplete header, in recvq::recv.
use rfx.Prelude.{
  take-append_long, ℕ, ◌+◌, ◌≤◌, ◌<◌, ◌≡◌, refl, sym, ap, ap₂, ◌∙◌, ◌≢◌, Option, none, some, List,
  [], ◌∷◌, ◌++◌, arith, length, length-append, ◌==◌, ==_refl, ==_ne, write_at_fits, length-take,
  take-append-short, take-all, if◌then◌else◌, Bool-cases, inl, inr, All, All-append, take, drop,
  length-drop, take-append-drop,
}
use mathlib.Core.Path.{subst}
use rfx.Packet.{Packet, Heap, update}
use rfx.Packet.Lifetime.{bytes_at, cell_bytes}
use rfx.RecvQueue.{RecvQueue, rd_size, finish, store_bytes, store_rd_buf}
use rfx.RecvQueue.Deframer.{
  frame_len, frame_type, feed, feed_body, feed_rest, feed_header, frame_len-append,
  frame_type-append,
}
use rfx.RecvQueue.Invariant.{
  IsByte, Headed, Queued, Queued-agree, IsValid, Reading, Refines, Refines-path, frames_of, view,
  finish_lem, read_of,
}

-- Bytes written behind those that a buffer has.
pub take-written :
    (xs : List ℕ) (i : ℕ) (vs : List ℕ)
    → i + length vs ≤ length xs
    → take (i + length vs) (take i xs ++ (vs ++ drop (i + length vs) xs)) ≡ take i xs ++ vs
take-written xs i vs h =
    let l = length-take i xs in
    take-append_long (i + length vs) (length vs) (take i xs) (vs ++ drop (i + length vs) xs)
      (omega (arith, l))
    ∙ ap (λ z. take i xs ++ z)
        (take-append-short (length vs) vs (drop (i + length vs) xs) (omega arith)
          ∙ take-all (length vs) vs (omega arith))

pub length-written :
    (xs : List ℕ) (i : ℕ) (vs : List ℕ)
    → i + length vs ≤ length xs
    → length (take i xs ++ (vs ++ drop (i + length vs) xs)) ≡ length xs
length-written xs i vs h = omega (
  arith,
  length-append (take i xs) (vs ++ drop (i + length vs) xs),
  length-append vs (drop (i + length vs) xs),
  length-take i xs,
  length-drop (i + length vs) xs,
)

-- The packet with bytes written at `pos`.
abbrev pub written : Packet → ℕ → List ℕ → Packet
written k pos cs = record k {
  data_bytes = take pos k.data_bytes ++ (cs ++ drop (pos + length cs) k.data_bytes);
}

abbrev pub stored : Heap → ℕ → Packet → ℕ → List ℕ → Heap
stored h p k pos cs = record h { cell = update h.cell p (some (written k pos cs)) }

pub store_bytes_run :
    (p pos : ℕ) (cs : List ℕ) (h : Heap) (k : Packet)
    → h.cell p ≡ some k
    → pos + length cs ≤ length k.data_bytes
    → store_bytes p pos cs h ≡ some (tt, stored h p k pos cs)
unfolding store_bytes
store_bytes_run p pos cs h k c le = ground (arith, write_at_fits k.data_bytes pos cs le)

-- The header stays as it is under writes behind it.
frame-prefix :
    (n : ℕ) (xs : List ℕ)
    → 4 ≤ n
    → n ≤ length xs
    → (frame_len xs ≡ frame_len (take n xs)) × (frame_type xs ≡ frame_type (take n xs))
frame-prefix n xs h le =
    let l = length-take n xs in
    (
      ap frame_len (sym (take-append-drop n xs))
          ∙ frame_len-append (take n xs) (drop n xs) (omega (arith, l)),
      ap frame_type (sym (take-append-drop n xs))
          ∙ frame_type-append (take n xs) (drop n xs) (omega (arith, l)),
    )

pub written-Headed :
    (dir : ℕ) (k : Packet) (pos : ℕ) (cs : List ℕ)
    → Headed dir k
    → 4 ≤ pos
    → pos + length cs ≤ length k.data_bytes
    → Headed dir (written k pos cs)
      × (take (pos + length cs) (written k pos cs).data_bytes ≡ take pos k.data_bytes ++ cs)
written-Headed dir k pos cs w h le =
    let l = length-written k.data_bytes pos cs le in
    let t = length-take pos k.data_bytes in
    let tail = cs ++ drop (pos + length cs) k.data_bytes in
    let (fl, ft) = frame-prefix pos k.data_bytes h (omega (arith, le)) in
    let s = w.sound in
    (
      record {
        sound = record {
          held = s.held;
          counted = s.counted;
          sized = s.sized ∙ sym l;
          filled = s.filled;
          short = s.short;
        };
        len_is =
            w.len_is
            ∙ fl
            ∙ sym (frame_len-append (take pos k.data_bytes) tail (omega (arith, t, le)));
        type_is =
            w.type_is
            ∙ ft
            ∙ sym (frame_type-append (take pos k.data_bytes) tail (omega (arith, t, le)));
        dir_is = w.dir_is;
        undropped = w.undropped;
        due = w.due;
        single = w.single;
        full_header = w.full_header;
      },
      take-written k.data_bytes pos cs le,
    )

-- The state after `pos + length cs` bytes of the packet at `p`, of length `len`.
abbrev pub grown : ℕ → ℕ → ℕ → RecvQueue → RecvQueue
grown p pos len s = if pos == len then finish p s else record s { rd = some p; rd_pos = pos }

-- Bytes of the body, written behind those that are there, take the queue where the framing goes.
pub body_lem :
    (dir p : ℕ) (h : Heap) (s : RecvQueue) (k : Packet) (cs : List ℕ)
    → Queued dir h s
    → s.rd ≡ some p
    → h.cell p ≡ some k
    → Headed dir k
    → 4 ≤ s.rd_pos
    → p < h.next
    → All (λ x. x ≢ p) s.pq
    → All IsByte (take s.rd_pos k.data_bytes)
    → All IsByte cs
    → 0 < length cs
    → s.rd_pos + length cs ≤ k.len
    → Refines dir
        (feed (view h s) cs)
        (some (grown p (s.rd_pos + length cs) k.len s, stored h p k s.rd_pos cs))
body_lem dir p h s k cs v rd c w ge old ne small bytes pos le =
    elim (Bool-cases (s.rd_pos + length cs == k.len)) [
      | inl whole ↦
          let e : s.rd_pos + length cs ≡ k.len = ground arith in
          let all =
            sym
              (take-all (s.rd_pos + length cs) k'.data_bytes (omega (arith, e, (wh.0.sound).sized)))
            ∙ wh.1 in
          let (valid, is) = finish_lem dir p h1 s k' v1.0 there wh.0 old ne in
          Refines-path dir _
            (some (record { frames = frames_of h s.pq ++ (part ++ cs) ∷ []; partial = [] })) _
            (some (finish p s, h1))
            (ap (λ d. feed d cs) here
              ∙ feed_rest (frames_of h s.pq) part cs (omega (arith, pl, sz))
                  (omega (arith, fl, ge, le)) pos (omega (arith, pl, sz, fl, e)))
            (ground arith)
            (
              finish p s,
              h1,
              refl,
              valid,
              is ∙ ap₂ (λ fs d. record { frames = fs ++ d ∷ []; partial = [] }) v1.1 all,
            )
      | inr short ↦
          let n : s.rd_pos + length cs ≢ k.len = ground arith in
          let s' : RecvQueue = record s { rd = some p; rd_pos = s.rd_pos + length cs } in
          Refines-path dir _ (some (record { frames = frames_of h s.pq; partial = part ++ cs })) _
            (some (s', h1))
            (ap (λ d. feed d cs) here
              ∙ feed_body (frames_of h s.pq) part cs (omega (arith, pl, sz))
                  (omega (arith, fl, ge, le)) (omega (arith, pl, sz, fl, n)))
            (ground arith)
            (
              s',
              h1,
              refl,
              record {
                queued =
                    let q = v1.0 in
                    record {
                      way = q.way;
                      buf = q.buf;
                      frames = q.frames;
                      old = q.old;
                      once = q.once;
                    };
                reading = (k', there, wh.0, omega arith, omega (arith, n), old, ne);
                small = subst (All IsByte) (sym read) (All-append IsByte part cs small bytes);
              },
              ap₂ (λ fs d. record { frames = fs; partial = d }) v1.1 read,
            )
    ]
  where
    h1 : Heap
    h1 = stored h p k s.rd_pos cs

    k' : Packet
    k' = written k s.rd_pos cs

    part : List ℕ
    part = take s.rd_pos k.data_bytes

    sz : k.len ≡ length k.data_bytes
    sz = (w.sound).sized

    pl : length part ≡ s.rd_pos
    pl = length-take s.rd_pos k.data_bytes ∙ omega (arith, sz, le)

    fl : frame_len part ≡ k.len
    fl = sym (frame-prefix s.rd_pos k.data_bytes ge (omega (arith, sz, le))).0 ∙ sym w.len_is

    there : h1.cell p ≡ some k'
    there = rw (==_refl p)

    v1 : Queued dir h1 s × (frames_of h1 s.pq ≡ frames_of h s.pq)
    v1 = Queued-agree dir p h h1 s (λ q n. rw (==_ne p q (λ e. n (sym e)))) ne (omega arith) v

    wh : Headed dir k' × (take (s.rd_pos + length cs) k'.data_bytes ≡ part ++ cs)
    wh = written-Headed dir k s.rd_pos cs w ge (omega (arith, sz, le))

    here : view h s ≡ record { frames = frames_of h s.pq; partial = part }
    here =
        ap (λ r. record { frames = frames_of h s.pq; partial = read_of h r s.rd_buf s.rd_pos }) rd
        ∙ ap
            (λ (x : Option Packet). record {
              frames = frames_of h s.pq;
              partial = take s.rd_pos (cell_bytes x);
            })
            c

    read : take (s.rd_pos + length cs) (bytes_at h1 p) ≡ part ++ cs
    read = ap (λ (x : Option Packet). take (s.rd_pos + length cs) (cell_bytes x)) there ∙ wh.1

pub store_rd_buf_run :
    (s : RecvQueue) (cs : List ℕ) (h : Heap)
    → s.rd_pos + length cs ≤ length s.rd_buf
    → store_rd_buf cs s h
      ≡ some (
        record s {
          rd_buf = take s.rd_pos s.rd_buf ++ (cs ++ drop (s.rd_pos + length cs) s.rd_buf);
        },
        h,
      )
unfolding store_rd_buf
store_rd_buf_run s cs h fits = ground (arith, write_at_fits s.rd_buf s.rd_pos cs fits)

-- Bytes of a header that stays incomplete.
pub header_part_lem :
    (dir : ℕ) (h : Heap) (s : RecvQueue) (cs : List ℕ)
    → IsValid dir h s
    → s.rd ≡ none
    → All IsByte cs
    → s.rd_pos + length cs < rd_size
    → (b : List ℕ) × (store_rd_buf cs s h ≡ some (record s { rd_buf = b }, h))
      × Refines dir
          (feed (view h s) cs)
          (some (record s { rd_buf = b; rd_pos = s.rd_pos + length cs }, h))
header_part_lem dir h s cs v rd bytes lt =
    let q = v.queued in
    let b = take s.rd_pos s.rd_buf ++ (cs ++ drop (s.rd_pos + length cs) s.rd_buf) in
    let fits : s.rd_pos + length cs ≤ length s.rd_buf = omega (arith, q.buf) in
    let s' : RecvQueue = record s { rd_buf = b; rd_pos = s.rd_pos + length cs } in
    let part = take s.rd_pos s.rd_buf in
    let here : view h s ≡ record { frames = frames_of h s.pq; partial = part } =
      ap (λ r. record { frames = frames_of h s.pq; partial = read_of h r s.rd_buf s.rd_pos }) rd in
    let small = subst (λ r. All IsByte (read_of h r s.rd_buf s.rd_pos)) rd v.small in
    let read = take-written s.rd_buf s.rd_pos cs fits in
    let there = ap (λ r. read_of h r b (s.rd_pos + length cs)) rd ∙ read in
    (
      b,
      store_rd_buf_run s cs h fits,
      Refines-path dir _ (some (record { frames = frames_of h s.pq; partial = part ++ cs })) _
          (some (s', h))
          (ap (λ d. feed d cs) here
            ∙ feed_header (frames_of h s.pq) part cs
                (omega (arith, length-take s.rd_pos s.rd_buf, lt)))
          refl
          (
            s',
            h,
            refl,
            record {
              queued = record {
                way = q.way;
                buf = length-written s.rd_buf s.rd_pos cs fits ∙ q.buf;
                frames = q.frames;
                old = q.old;
                once = q.once;
              };
              reading = subst (λ r. Reading dir h r s.pq (s.rd_pos + length cs)) (sym rd) lt;
              small = subst (All IsByte) (sym there) (All-append IsByte part cs small bytes);
            },
            ap (λ d. record { frames = frames_of h s.pq; partial = d }) there,
          ),
    )
