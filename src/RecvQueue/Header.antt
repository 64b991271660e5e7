-- ===== src/RecvQueue/Header.antt =====
-- A packet header that is complete: `pkt_new` in recvq::recv.
use rfx.Prelude.{
  ℕ, suc, ◌+◌, ◌*◌, ◌%◌, ◌≤◌, ◌<◌, ◌≡◌, refl, sym, ap, ap₂, ◌∙◌, ◌≢◌, false, Option, none, some,
  List, [], ◌∷◌, ◌++◌, arith, ltb, ◌==◌, ==_refl, ==_ne, Bool-cases, inl, inr, All, All-weaken,
  take, drop, replicate, length-drop, length-replicate,
}
use mathlib.Core.Path.{subst}
use rfx.Packet.{Packet, Heap, pkt_new, header, update}
use rfx.Packet.Lifetime.{cell_bytes, AgreeBut}
use rfx.Wire.{get_int16, get_int16_lem}
use rfx.RecvQueue.{RecvQueue, finish, settle, start_packet}
use rfx.RecvQueue.Deframer.{frame_len, frame_type, headed}
use rfx.RecvQueue.Invariant.{
  IsByte, Headed, Queued, Queued-agree, Refines, Refines-path, frames_of, finish_lem,
}

-- The object that `pkt_new` makes.
abbrev fresh : ℕ → ℕ → ℕ → Packet
fresh len type dir = record {
  len = len % 65536;
  type = type % 65536;
  dir = dir % 4;
  drop = false;
  show = false;
  refc = 1;
  delay = 0;
  desc = none;
  dyn_desc = none;
  data_bytes = header len type ++ drop 4 (replicate len 0);
}

abbrev with_fresh : Heap → ℕ → ℕ → ℕ → Heap
with_fresh h len type dir = record {
  cell = update h.cell h.next (some (fresh len type dir));
  next = suc h.next;
}

pub pkt_new_short : (len type dir : ℕ) (h : Heap) → len < 4 → pkt_new len type dir h ≡ none
unfolding pkt_new
pkt_new_short len type dir h lt = ground (arith, length-replicate {A = ℕ} len 0)

pub pkt_new_lem :
    (len type dir : ℕ) (h : Heap)
    → 4 ≤ len
    → pkt_new len type dir h ≡ some (h.next, with_fresh h len type dir)
unfolding pkt_new
pkt_new_lem len type dir h le = ground (arith, length-replicate {A = ℕ} len 0)

start_short :
    (b0 b1 b2 b3 : ℕ) (rest : List ℕ) (s : RecvQueue) (h : Heap)
    → get_int16 b0 b1 < 4
    → start_packet (b0 ∷ (b1 ∷ (b2 ∷ (b3 ∷ rest)))) s h ≡ none
unfolding start_packet
start_short b0 b1 b2 b3 rest s h lt =
    ground (arith, pkt_new_short (get_int16 b0 b1) (get_int16 b2 b3) s.dir h lt)

start_run :
    (b0 b1 b2 b3 : ℕ) (rest : List ℕ) (s : RecvQueue) (h : Heap)
    → 4 ≤ get_int16 b0 b1
    → start_packet (b0 ∷ (b1 ∷ (b2 ∷ (b3 ∷ rest)))) s h
      ≡ settle h.next 4 s (with_fresh h (get_int16 b0 b1) (get_int16 b2 b3) s.dir)
unfolding start_packet
start_run b0 b1 b2 b3 rest s h le =
    ground (arith, pkt_new_lem (get_int16 b0 b1) (get_int16 b2 b3) s.dir h le)

-- For header bytes, the object is one that is received.
fresh-Headed :
    (b0 b1 b2 b3 dir : ℕ)
    → IsByte b0
    → IsByte b1
    → IsByte b2
    → IsByte b3
    → 4 ≤ get_int16 b0 b1
    → let k = fresh (get_int16 b0 b1) (get_int16 b2 b3) dir in
      Headed dir k
      × (k.len ≡ get_int16 b0 b1)
      × (k.data_bytes ≡ (b0 ∷ (b1 ∷ (b2 ∷ (b3 ∷ [])))) ++ drop 4 (replicate (get_int16 b0 b1) 0))
fresh-Headed b0 b1 b2 b3 dir s0 s1 s2 s3 le = (
  record {
    sound = record {
      held = omega arith;
      counted = omega arith;
      sized = omega (
        arith,
        l,
        le,
        length-drop {A = ℕ} 4 (replicate (get_int16 b0 b1) 0),
        length-replicate {A = ℕ} (get_int16 b0 b1) 0,
      );
      filled = omega (arith, l);
      short = omega arith;
    };
    len_is = omega (arith, l) ∙ sym (ap frame_len bytes);
    type_is = omega (arith, t) ∙ sym (ap frame_type bytes);
    dir_is = refl;
    undropped = refl;
    due = refl;
    single = refl;
    full_header = omega (arith, l, le);
  },
  omega (arith, l),
  bytes,
)
  where
    l : get_int16 b0 b1 ≡ b0 + b1 * 256
    l = get_int16_lem b0 b1 s0 s1

    t : get_int16 b2 b3 ≡ b2 + b3 * 256
    t = get_int16_lem b2 b3 s2 s3

    parts : header (get_int16 b0 b1) (get_int16 b2 b3) ≡ b0 ∷ (b1 ∷ (b2 ∷ (b3 ∷ [])))
    parts = ground (arith, l, t)

    bytes :
        header (get_int16 b0 b1) (get_int16 b2 b3) ++ drop 4 (replicate (get_int16 b0 b1) 0)
        ≡ (b0 ∷ (b1 ∷ (b2 ∷ (b3 ∷ [])))) ++ drop 4 (replicate (get_int16 b0 b1) 0)
    bytes = ap (λ z. z ++ drop 4 (replicate (get_int16 b0 b1) 0)) parts

pub settle_whole :
    (p pos : ℕ) (s : RecvQueue) (h : Heap) (k : Packet)
    → h.cell p ≡ some k
    → pos ≡ k.len
    → settle p pos s h ≡ some (finish p s, h)
unfolding settle
settle_whole p pos s h k c e = ground arith

pub settle_part :
    (p pos : ℕ) (s : RecvQueue) (h : Heap) (k : Packet)
    → h.cell p ≡ some k
    → pos ≢ k.len
    → settle p pos s h ≡ some (record s { rd = some p; rd_pos = pos }, h)
unfolding settle
settle_part p pos s h k c e = ground arith

-- A complete header: fewer than four bytes announced is a fault, four are a packet, and with more a
-- packet is begun.
pub start_packet_lem :
    (dir b0 b1 b2 b3 : ℕ) (rest : List ℕ) (h : Heap) (s : RecvQueue)
    → Queued dir h s
    → IsByte b0
    → IsByte b1
    → IsByte b2
    → IsByte b3
    → Refines dir
        (headed (frames_of h s.pq) (b0 ∷ (b1 ∷ (b2 ∷ (b3 ∷ [])))))
        (start_packet (b0 ∷ (b1 ∷ (b2 ∷ (b3 ∷ rest)))) s h)
start_packet_lem dir b0 b1 b2 b3 rest h s v s0 s1 s2 s3 =
    elim (Bool-cases (ltb (get_int16 b0 b1) 4)) [
      | inl short ↦
          Refines-path dir _ none _ none (ground arith)
            (start_short b0 b1 b2 b3 rest s h (ground arith)) refl
      | inr long ↦ going (ground arith)
    ]
  where
    len : ℕ
    len = get_int16 b0 b1

    k : Packet
    k = fresh len (get_int16 b2 b3) s.dir

    h1 : Heap
    h1 = with_fresh h len (get_int16 b2 b3) s.dir

    there : h1.cell h.next ≡ some k
    there = rw (==_refl h.next)

    others : AgreeBut h.next h h1
    others q ne = rw (==_ne h.next q (λ e. ne (sym e)))

    apart : All (λ q. q ≢ h.next) s.pq
    apart = All-weaken (λ q. q < h.next) (λ q. q ≢ h.next) (λ q lt e. omega arith) s.pq v.old

    head : List ℕ
    head = b0 ∷ (b1 ∷ (b2 ∷ (b3 ∷ [])))

    whole_frame :
        4 ≤ len
        → 4 ≡ len
        → (fs : List (List ℕ))
        → headed fs head ≡ some (record { frames = fs ++ head ∷ []; partial = [] })
    whole_frame le e fs = ground arith

    part_frame :
        4 ≤ len
        → 4 ≢ len
        → (fs : List (List ℕ)) → headed fs head ≡ some (record { frames = fs; partial = head })
    part_frame le e fs = ground arith

    going :
        4 ≤ len
        → Refines dir
            (headed (frames_of h s.pq) head)
            (start_packet (b0 ∷ (b1 ∷ (b2 ∷ (b3 ∷ rest)))) s h)
    going le =
        let (w, l, bytes) = fresh-Headed b0 b1 b2 b3 s.dir s0 s1 s2 s3 le in
        let wd : Headed dir k = subst (λ d. Headed d k) v.way w in
        let (v1, same) = Queued-agree dir h.next h h1 s others apart (omega arith) v in
        let data_is =
          λ (n : ℕ) (e : n ≡ len). bytes ∙ ap (λ m. head ++ drop 4 (replicate m 0)) (sym e) in
        let run = start_run b0 b1 b2 b3 rest s h le in
        let read = ap (λ (c : Option Packet). take 4 (cell_bytes c)) there ∙ ap (take 4) bytes in
        elim (Bool-cases (4 == len)) [
          | inl whole ↦
              let e : 4 ≡ len = ground arith in
              let (valid, is) = finish_lem dir h.next h1 s k v1 there wd (omega arith) apart in
              Refines-path dir _
                (some (record { frames = frames_of h s.pq ++ head ∷ []; partial = [] })) _
                (some (finish h.next s, h1)) (whole_frame le e (frames_of h s.pq))
                (run ∙ settle_whole h.next 4 s h1 k there (e ∙ sym l))
                (
                  finish h.next s,
                  h1,
                  refl,
                  valid,
                  is
                      ∙ ap₂ (λ fs d. record { frames = fs ++ d ∷ []; partial = [] }) same
                          (data_is 4 e),
                )
          | inr part ↦
              let ne : 4 ≢ len = ground arith in
              let s' : RecvQueue = record s { rd = some h.next; rd_pos = 4 } in
              Refines-path dir _ (some (record { frames = frames_of h s.pq; partial = head })) _
                (some (s', h1)) (part_frame le ne (frames_of h s.pq))
                (run ∙ settle_part h.next 4 s h1 k there (λ e. ne (e ∙ l)))
                (
                  s',
                  h1,
                  refl,
                  record {
                    queued = record {
                      way = v1.way;
                      buf = v1.buf;
                      frames = v1.frames;
                      old = v1.old;
                      once = v1.once;
                    };
                    reading =
                        (k, there, wd, omega arith, omega (arith, l, ne, le), omega arith, apart);
                    small = subst (All IsByte) (sym read) (s0, (s1, (s2, (s3, tt))));
                  },
                  ap₂ (λ fs d. record { frames = fs; partial = d }) same read,
                )
        ]
