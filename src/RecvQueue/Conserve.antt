-- ===== src/RecvQueue/Conserve.antt =====
-- The framing loses no byte, and a receive queue keeps what it holds while others write elsewhere.
use mathlib.Core.Path.{subst}
use mathlib.Core.Option.{some-injective}
use rfx.Prelude.{
  ℕ, ◌<◌, ◌≤◌, ◌≡◌, refl, sym, ap, ◌∙◌, Option, none, some, List, [], ◌∷◌, ◌++◌, append_assoc,
  append-nil, arith, length, ltb, ◌==◌, take, All, Bool-cases, Option-cases, inl, inr,
}
use rfx.Packet.{Packet, Heap}
use rfx.Packet.Lifetime.{cell_bytes, bytes_at, stream}
use rfx.RecvQueue.{RecvQueue}
use rfx.RecvQueue.Deframer.{Deframer, feed, feed_byte, frame_len, frame_type}
use rfx.RecvQueue.Invariant.{IsByte, IsValid, Reading, Headed, read_of, frames_of}
use rfx.RecvQueue.Packets.{join}
use rfx.RecvQueue.Growth.{OptAll}
use rfx.Session.Marks.{SameCell, SameObject}

-- All the bytes of a framing, in order.
abbrev pub bytes_in : Deframer → List ℕ
bytes_in d = join d.frames ++ d.partial

join_last : (fs : List (List ℕ)) (f : List ℕ) → join (fs ++ f ∷ []) ≡ join fs ++ f
join_last [] f = append-nil f
join_last (g ∷ fs) f = ap (λ z. g ++ z) (join_last fs f) ∙ sym (append_assoc g (join fs) f)

byte_conserved :
    (d d' : Deframer) (b : ℕ) → feed_byte d b ≡ some d' → bytes_in d' ≡ bytes_in d ++ b ∷ []
unfolding feed_byte
byte_conserved d d' b e =
    let part = d.partial ++ b ∷ [] in
    let added = sym (append_assoc (join d.frames) d.partial (b ∷ [])) in
    let goes_on : some (record d { partial = part }) ≡ some d'
        → bytes_in d' ≡ bytes_in d ++ b ∷ [] =
      λ x. ap bytes_in (sym (some-injective _ _ x)) ∙ added in
    elim (Bool-cases (ltb (length part) 4)) [
      | inl t ↦ goes_on (rw (feed_byte, t) at e)
      | inr t ↦ elim (Bool-cases (ltb (frame_len part) 4)) [
        | inl u ↦ absurd (cc (rw (feed_byte, t, u) at e))
        | inr u ↦ elim (Bool-cases (length part == frame_len part)) [
          | inl v ↦
              let w = some-injective _ _ (rw (feed_byte, t, u, v) at e) in
              ap bytes_in (sym w)
              ∙ append-nil (join (d.frames ++ part ∷ []))
              ∙ join_last d.frames part
              ∙ added
          | inr v ↦ goes_on (rw (feed_byte, t, u, v) at e)
        ]
      ]
    ]

pub feed_conserved :
    (d d' : Deframer) (bs : List ℕ) → feed d bs ≡ some d' → bytes_in d' ≡ bytes_in d ++ bs
unfolding feed
feed_conserved d d' [] e = ap bytes_in (sym (some-injective _ _ e)) ∙ sym (append-nil (bytes_in d))
feed_conserved d d' (b ∷ bs) e = elim (Option-cases (feed_byte d b)) [
  | inl n ↦ absurd (cc (rw (feed, n) at e))
  | inr (d1, c) ↦
      feed_conserved d1 d' bs (rw (feed, c) at e)
      ∙ ap (λ z. z ++ bs) (byte_conserved d d1 b c)
      ∙ append_assoc (bytes_in d) (b ∷ []) bs
]

pub stream-join : (h : Heap) (q : List ℕ) → join (frames_of h q) ≡ stream h q
stream-join h [] = refl
stream-join h (p ∷ q) = ap (λ z. bytes_at h p ++ z) (stream-join h q)

-- The bytes of an incomplete packet.
abbrev pub partial_of : Heap → RecvQueue → List ℕ
partial_of h s = read_of h s.rd s.rd_buf s.rd_pos

Headed-same : (dir : ℕ) (k k' : Packet) → SameObject k k' → Headed dir k → Headed dir k'
Headed-same dir k k' o w = record {
  sound = record {
    held = subst (λ n. 0 < n) (sym o.refc) w.sound.held;
    counted = omega (arith, o.refc, w.sound.counted);
    sized = o.len ∙ w.sound.sized ∙ sym (ap length o.same_bytes);
    filled = omega (arith, o.len, w.sound.filled);
    short = omega (arith, o.len, w.sound.short);
  };
  len_is = o.len ∙ w.len_is ∙ sym (ap frame_len o.same_bytes);
  type_is = o.type ∙ w.type_is ∙ sym (ap frame_type o.same_bytes);
  dir_is = o.dir ∙ w.dir_is;
  undropped = o.drop ∙ w.undropped;
  due = o.delay ∙ w.due;
  single = o.refc ∙ w.single;
  full_header = omega (arith, o.len, w.full_header);
}

-- A queue whose packets are taken out, in a heap where its incomplete packet is still the same.
pub IsValid-emptied :
    (dir : ℕ) (h h' : Heap) (s : RecvQueue)
    → IsValid dir h s
    → h.next ≤ h'.next
    → OptAll (λ p. SameCell (h.cell p) (h'.cell p)) s.rd
    → IsValid dir h' (record s { pq = [] }) × (partial_of h' s ≡ partial_of h s)
IsValid-emptied dir h h' s v le same =
    let (r, e) = go s.rd v.reading same in
    (
      record {
        queued = record {
          way = v.queued.way;
          buf = v.queued.buf;
          frames = tt;
          old = tt;
          once = tt;
        };
        reading = r;
        small = subst (All IsByte) (sym e) v.small;
      },
      e,
    )
  where
    go :
        (o : Option ℕ)
        → Reading dir h o s.pq s.rd_pos
        → OptAll (λ p. SameCell (h.cell p) (h'.cell p)) o
        → Reading dir h' o [] s.rd_pos
          × (read_of h' o s.rd_buf s.rd_pos ≡ read_of h o s.rd_buf s.rd_pos)
    go none r c = (r, refl)
    go (some p) (k, e, w, a, b, old, n) c =
        let (k', e', o) = subst (λ x. SameCell x (h'.cell p)) e c in
        (
          (
            k',
            e',
            Headed-same dir k k' o w,
            a,
            omega (arith, b, o.len),
            omega (arith, old, le),
            tt,
          ),
          ap (take s.rd_pos) (ap cell_bytes e' ∙ o.same_bytes ∙ sym (ap cell_bytes e)),
        )
