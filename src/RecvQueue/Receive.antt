-- ===== src/RecvQueue/Receive.antt =====
-- One `readv` of recvq::recv, from the first vector to the last byte.
use Prim.Native.Nat.{min}
use mathlib.Core.Path.{subst}
use rfx.Prelude.{
  ℕ, ◌+◌, ◌-◌, ◌%◌, ◌^◌, ◌≤◌, ◌<◌, ◌≡◌, refl, sym, ap, ◌∙◌, ◌≢◌, none, some, List, [], ◌∷◌, ◌++◌,
  arith, length, leb, length-take, take-all, Bool-cases, Option-cases, inl, inr, All, All-append,
  All-take, All-drop, take, drop, take-append-drop,
}
use rfx.Packet.{Packet, Heap, ◌>>=◌}
use rfx.RecvQueue.{
  RecvQueue, rd_size, finish, store_bytes, store_rd_buf, start_packet, extract, take_in,
}
use rfx.RecvQueue.Deframer.{feed, feed-append, and_then, feed-headed, headed}
use rfx.RecvQueue.Invariant.{
  IsByte, Queued, IsValid, Reading, Refines, Refines-path, Refines-bind, frames_of, view, read_of,
}
use rfx.RecvQueue.Header.{start_packet_lem}
use rfx.RecvQueue.Body.{
  body_lem, header_part_lem, grown, stored, store_bytes_run, store_rd_buf_run, take-written,
  length-written,
}
use rfx.RecvQueue.Extract.{
  extract_lem, Zeroed, grown-Zeroed, start_packet-Zeroed, same_queue, Body, IsValid-Body,
}

-- How many bytes the packet or the header lacks.
abbrev lacks : Packet → RecvQueue → ℕ
lacks k s = (k.len + 2 ^ 32 - s.rd_pos) % 2 ^ 32

module _ (s : RecvQueue) (h : Heap) (bs : List ℕ) where
  take_in_fills :
      (p : ℕ) (k : Packet)
      → s.rd ≡ some p
      → h.cell p ≡ some k
      → lacks k s ≤ length bs
      → s.rd_pos + length (take (lacks k s) bs) ≤ length k.data_bytes
      → take_in bs s h
        ≡ extract
            (length (drop (lacks k s) bs))
            (drop (lacks k s) bs)
            (finish p s)
            (stored h p k s.rd_pos (take (lacks k s) bs))
  unfolding take_in
  take_in_fills p k rd c n le =
      ground (arith, store_bytes_run p s.rd_pos (take (lacks k s) bs) h k c le)

  take_in_adds :
      (p : ℕ) (k : Packet)
      → s.rd ≡ some p
      → h.cell p ≡ some k
      → length bs < lacks k s
      → s.rd_pos + length bs ≤ length k.data_bytes
      → take_in bs s h ≡ some (record s { rd_pos = s.rd_pos + length bs }, stored h p k s.rd_pos bs)
  unfolding take_in
  take_in_adds p k rd c n le = ground (
    arith,
    store_bytes_run p s.rd_pos bs h k c le,
    ap (λ cs. store_bytes p s.rd_pos cs h) (take-all (lacks k s) bs (omega arith)),
  )

  take_in_header :
      (buf : List ℕ)
      → s.rd ≡ none
      → rd_size - s.rd_pos ≤ length bs
      → store_rd_buf (take (rd_size - s.rd_pos) bs) s h ≡ some (record s { rd_buf = buf }, h)
      → take_in bs s h
        ≡ (start_packet buf (record s { rd_buf = buf })
              >>= extract (length (drop (rd_size - s.rd_pos) bs)) (drop (rd_size - s.rd_pos) bs))
            h
  unfolding take_in
  take_in_header buf rd le e = ground (arith, e)

  take_in_waits :
      (buf : List ℕ)
      → s.rd ≡ none
      → length bs < rd_size - s.rd_pos
      → store_rd_buf bs s h ≡ some (record s { rd_buf = buf }, h)
      → take_in bs s h ≡ some (record s { rd_buf = buf; rd_pos = s.rd_pos + length bs }, h)
  unfolding take_in
  take_in_waits buf rd le e =
      ground
        (arith, e, ap (λ cs. store_rd_buf cs s h) (take-all (rd_size - s.rd_pos) bs (omega arith)))

grown_whole : (p pos len : ℕ) (s : RecvQueue) → pos ≡ len → grown p pos len s ≡ finish p s
grown_whole p pos len s e = ground arith

grown_part :
    (p pos len : ℕ) (s : RecvQueue)
    → pos ≢ len
    → s.rd ≡ some p
    → grown p pos len s ≡ record s { rd_pos = pos }
grown_part p pos len s ne rd = ground (arith, rd)

module _ (dir : ℕ) (h : Heap) (s : RecvQueue) (bs : List ℕ) (v : IsValid dir h s)
    (a : All IsByte bs) where
  take_in_inside :
      (p : ℕ)
      → 0 < length bs
      → s.rd ≡ some p
      → Body dir h s p
      → Refines dir (feed (view h s) bs) (take_in bs s h)
  take_in_inside p pos rd (k, c, w, ge, lt, old, ne, small) =
      elim (Bool-cases (leb (lacks k s) (length bs))) [
        | inl full ↦
            let le : lacks k s ≤ length bs = ground arith in
            let next = grown p (s.rd_pos + length cs) k.len s in
            let h1 = stored h p k s.rd_pos cs in
            let whole : s.rd_pos + length cs ≡ k.len = omega (arith, size, le, lt, short) in
            Refines-path dir _ (and_then (feed (view h s) cs) (λ x. feed x rest)) _
              (extract (length rest) rest next h1)
              (ap (feed (view h s)) (sym (take-append-drop (lacks k s) bs))
                ∙ feed-append (view h s) cs rest)
              (take_in_fills s h bs p k rd c le (omega (arith, size, le, lt, short, sized))
                ∙ ap (λ q. extract (length rest) rest q h1)
                    (sym (grown_whole p (s.rd_pos + length cs) k.len s whole)))
              (Refines-bind dir (feed (view h s) cs) (λ _. some (next, h1)) h rest
                (extract (length rest) rest)
                (body_lem dir p h s k cs v.queued rd c w ge old ne small
                  (All-take IsByte (lacks k s) bs a) (omega (arith, size, le, lt, short))
                  (omega (arith, size, le, lt, short)))
                (λ s' h' eq v'.
                  extract_lem dir (length rest) rest h' s' (omega arith) v'
                    (subst Zeroed (same_queue next s' h1 h' eq)
                      (grown-Zeroed p (s.rd_pos + length cs) k.len s))
                    (All-drop IsByte (lacks k s) bs a)))
        | inr part ↦
            let less : length bs < lacks k s = ground arith in
            Refines-path dir _ _ _ _ refl
              (take_in_adds s h bs p k rd c less (omega (arith, less, lt, short, sized))
                ∙ ap (λ q. some (q, stored h p k s.rd_pos bs))
                    (sym (
                      grown_part p (s.rd_pos + length bs) k.len s (omega (arith, less, lt, short))
                        rd)))
              (body_lem dir p h s k bs v.queued rd c w ge old ne small a pos
                (omega (arith, less, lt, short)))
      ]
    where
      short : k.len < 65536
      short = (w.sound).short

      sized : k.len ≡ length k.data_bytes
      sized = (w.sound).sized

      cs : List ℕ
      cs = take (lacks k s) bs

      rest : List ℕ
      rest = drop (lacks k s) bs

      size : length cs ≡ min (lacks k s) (length bs)
      size = length-take (lacks k s) bs

-- The bytes of a list of four.
four_bytes :
    (dir : ℕ) (fs : List (List ℕ)) (h : Heap) (s : RecvQueue) (xs : List ℕ)
    → length xs ≡ 4
    → All IsByte xs
    → Queued dir h s
    → frames_of h s.pq ≡ fs
    → Refines dir (headed fs xs) (start_packet xs s h)
four_bytes dir fs h s [] e a q f = absurd (omega arith)
four_bytes dir fs h s (b0 ∷ []) e a q f = absurd (omega arith)
four_bytes dir fs h s (b0 ∷ (b1 ∷ [])) e a q f = absurd (omega arith)
four_bytes dir fs h s (b0 ∷ (b1 ∷ (b2 ∷ []))) e a q f = absurd (omega arith)
four_bytes dir fs h s (b0 ∷ (b1 ∷ (b2 ∷ (b3 ∷ [])))) e (s0, (s1, (s2, (s3, a)))) q f =
    subst
      (λ g.
        Refines dir (headed g (b0 ∷ (b1 ∷ (b2 ∷ (b3 ∷ [])))))
          (start_packet (b0 ∷ (b1 ∷ (b2 ∷ (b3 ∷ [])))) s h))
      f (start_packet_lem dir b0 b1 b2 b3 [] h s q s0 s1 s2 s3)
four_bytes dir fs h s (b0 ∷ (b1 ∷ (b2 ∷ (b3 ∷ (b4 ∷ xs))))) e a q f = absurd (omega arith)

module _ (dir : ℕ) (h : Heap) (s : RecvQueue) (bs : List ℕ) (v : IsValid dir h s)
    (a : All IsByte bs) where
  take_in_between : s.rd ≡ none → Refines dir (feed (view h s) bs) (take_in bs s h)
  take_in_between rd = elim (Bool-cases (leb n (length bs))) [
    | inl full ↦
        let le : n ≤ length bs = ground arith in
        let fits : s.rd_pos + length cs ≤ length s.rd_buf = omega (arith, size, le, pos, q.buf) in
        let len_buf = length-written s.rd_buf s.rd_pos cs fits ∙ q.buf in
        let buf_is : buf ≡ part ++ cs =
          sym (take-all (s.rd_pos + length cs) buf (omega (arith, size, le, pos, len_buf)))
          ∙ take-written s.rd_buf s.rd_pos cs fits in
        let bytes =
          subst (All IsByte) (sym buf_is)
            (All-append IsByte part cs small (All-take IsByte n bs a)) in
        Refines-path dir _ (and_then (headed fs buf) (λ x. feed x rest)) _
          ((start_packet buf (record s { rd_buf = buf }) >>= extract (length rest) rest) h)
          (ap (feed (view h s)) (sym (take-append-drop n bs))
            ∙ feed-append (view h s) cs rest
            ∙ ap (λ d. and_then (feed d cs) (λ x. feed x rest)) here
            ∙ ap (λ o. and_then o (λ x. feed x rest))
                (feed-headed fs part cs (omega (arith, size, le, pos))
                    (omega (arith, size, le, pos, pl))
                  ∙ ap (headed fs) (sym buf_is)))
          (take_in_header s h bs buf rd le (store_rd_buf_run s cs h fits))
          (Refines-bind dir (headed fs buf) (start_packet buf (record s { rd_buf = buf })) h rest
            (extract (length rest) rest)
            (four_bytes dir fs h (record s { rd_buf = buf }) buf len_buf bytes
              (record { way = q.way; buf = len_buf; frames = q.frames; old = q.old; once = q.once })
              refl)
            (λ s' h' eq v'.
              extract_lem dir (length rest) rest h' s' (omega arith) v'
                (start_packet-Zeroed buf (record s { rd_buf = buf }) s' h h' eq)
                (All-drop IsByte n bs a)))
    | inr short ↦
        let less : length bs < n = ground arith in
        let (b, run, r) = header_part_lem dir h s bs v rd a (omega (arith, less, pos)) in
        Refines-path dir _ _ _ _ refl (take_in_waits s h bs b rd less run) r
  ]
    where
      n : ℕ
      n = rd_size - s.rd_pos

      q : Queued dir h s
      q = v.queued

      pos : s.rd_pos < rd_size
      pos = subst (λ r. Reading dir h r s.pq s.rd_pos) rd v.reading

      fs : List (List ℕ)
      fs = frames_of h s.pq

      part : List ℕ
      part = take s.rd_pos s.rd_buf

      cs : List ℕ
      cs = take n bs

      rest : List ℕ
      rest = drop n bs

      size : length cs ≡ min n (length bs)
      size = length-take n bs

      buf : List ℕ
      buf = part ++ (cs ++ drop (s.rd_pos + length cs) s.rd_buf)

      pl : length part ≡ s.rd_pos
      pl = length-take s.rd_pos s.rd_buf ∙ omega (arith, pos, q.buf)

      small : All IsByte part
      small = subst (λ r. All IsByte (read_of h r s.rd_buf s.rd_pos)) rd v.small

      here : view h s ≡ record { frames = fs; partial = part }
      here = ap (λ r. record { frames = fs; partial = read_of h r s.rd_buf s.rd_pos }) rd

  -- The bytes of one `readv` take the queue where the framing goes.
  pub take_in_lem : 0 < length bs → Refines dir (feed (view h s) bs) (take_in bs s h)
  take_in_lem pos = elim (Option-cases s.rd) [
    | inl e ↦ take_in_between e
    | inr (p, rd) ↦ take_in_inside dir h s bs v a p pos rd (IsValid-Body dir h s p v rd)
  ]
