-- ===== src/RecvQueue/Deframer.antt =====
-- The framing of the packet stream, byte by byte: what `recvq` of proxy.cpp is meant to do.
use rfx.Prelude.{
  ℕ, ◌+◌, ◌≤◌, ◌<◌, ◌≡◌, refl, sym, ap, ◌∙◌, ◌≢◌, Option, none, some, List, [], ◌∷◌, ◌++◌,
  append_assoc, append-nil, arith, length, length-append, ltb, ◌==◌, if◌then◌else◌,
}
use rfx.Wire.{get_int16}

-- The length that a packet's first two bytes announce, and its type.
abbrev pub frame_len : List ℕ → ℕ
frame_len [] = 0
frame_len (a ∷ []) = 0
frame_len (a ∷ (b ∷ _)) = get_int16 a b

abbrev pub frame_type : List ℕ → ℕ
frame_type (a ∷ (b ∷ (c ∷ (d ∷ _)))) = get_int16 c d
frame_type _ = 0

-- The packets that are complete, in order, and the bytes of the next one.
pub record Deframer : Type 0 where
  pub frames : List (List ℕ)
  pub partial : List ℕ

-- With one byte more. A header that announces fewer than its own four bytes is an error.
unfoldable pub feed_byte : Deframer → ℕ → Option Deframer
feed_byte d b =
    let part = d.partial ++ b ∷ [] in
    if ltb (length part) 4
    then some (record d { partial = part })
    else if ltb (frame_len part) 4
    then none
    else if length part == frame_len part
    then some (record { frames = d.frames ++ part ∷ []; partial = [] })
    else some (record d { partial = part })

abbrev pub and_then {ℓ} : {A : Type ℓ} {B : Type ℓ} → Option A → (A → Option B) → Option B
and_then none f = none
and_then (some a) f = f a

unfoldable pub feed : Deframer → List ℕ → Option Deframer
feed d [] = some d
feed d (b ∷ bs) = and_then (feed_byte d b) (λ d'. feed d' bs)

-- The bytes may come in any pieces.
pub feed-append :
    (d : Deframer) (xs ys : List ℕ) → feed d (xs ++ ys) ≡ and_then (feed d xs) (λ d'. feed d' ys)
unfolding feed
feed-append d [] ys = refl
feed-append d (x ∷ xs) ys = go (feed_byte d x) (λ d'. feed-append d' xs ys)
  where
    go :
        (o : Option Deframer)
        → ((d' : Deframer) → feed d' (xs ++ ys) ≡ and_then (feed d' xs) (λ e. feed e ys))
        → and_then o (λ d'. feed d' (xs ++ ys))
          ≡ and_then (and_then o (λ d'. feed d' xs)) (λ e. feed e ys)
    go none ih = refl
    go (some d') ih = ih d'

-- The first bytes fix the length.
pub frame_len-append : (xs ys : List ℕ) → 2 ≤ length xs → frame_len (xs ++ ys) ≡ frame_len xs
frame_len-append [] ys h = absurd (omega arith)
frame_len-append (a ∷ []) ys h = absurd (omega arith)
frame_len-append (a ∷ (b ∷ xs)) ys h = refl

pub frame_type-append : (xs ys : List ℕ) → 4 ≤ length xs → frame_type (xs ++ ys) ≡ frame_type xs
frame_type-append [] ys h = absurd (omega arith)
frame_type-append (a ∷ []) ys h = absurd (omega arith)
frame_type-append (a ∷ (b ∷ [])) ys h = absurd (omega arith)
frame_type-append (a ∷ (b ∷ (c ∷ []))) ys h = absurd (omega arith)
frame_type-append (a ∷ (b ∷ (c ∷ (d ∷ xs)))) ys h = refl

module _ (fs : List (List ℕ)) where
  abbrev pub at : List ℕ → Deframer
  at part = record { frames = fs; partial = part }

  -- One byte of the header, short of its end.
  byte_header :
      (part : List ℕ) (b : ℕ)
      → length part + 1 < 4
      → feed_byte (at part) b ≡ some (at (part ++ b ∷ []))
  unfolding feed_byte
  byte_header part b h = ground (arith, length-append part (b ∷ []))

  byte_body :
      (part : List ℕ) (b : ℕ)
      → 4 ≤ length part + 1
      → 4 ≤ frame_len (part ++ b ∷ [])
      → length part + 1 ≢ frame_len (part ++ b ∷ [])
      → feed_byte (at part) b ≡ some (at (part ++ b ∷ []))
  unfolding feed_byte
  byte_body part b h k ne = ground (arith, length-append part (b ∷ []))

  byte_last :
      (part : List ℕ) (b : ℕ)
      → 4 ≤ length part + 1
      → 4 ≤ frame_len (part ++ b ∷ [])
      → length part + 1 ≡ frame_len (part ++ b ∷ [])
      → feed_byte (at part) b ≡ some (record { frames = fs ++ (part ++ b ∷ []) ∷ []; partial = [] })
  unfolding feed_byte
  byte_last part b h k e = ground (arith, length-append part (b ∷ []))

  byte_bad :
      (part : List ℕ) (b : ℕ)
      → 4 ≤ length part + 1
      → frame_len (part ++ b ∷ []) < 4
      → feed_byte (at part) b ≡ none
  unfolding feed_byte
  byte_bad part b h k = ground (arith, length-append part (b ∷ []))

  snoc : (part : List ℕ) (b : ℕ) (bs : List ℕ) → (part ++ b ∷ []) ++ bs ≡ part ++ b ∷ bs
  snoc part b bs = append_assoc part (b ∷ []) bs

  step :
      (part : List ℕ) (b : ℕ) (bs : List ℕ)
      → feed_byte (at part) b ≡ some (at (part ++ b ∷ []))
      → feed (at part) (b ∷ bs) ≡ feed (at (part ++ b ∷ [])) bs
  unfolding feed
  step part b bs e = ap (λ o. and_then o (λ d'. feed d' bs)) e

  -- Bytes that do not complete the header.
  pub feed_header :
      (part bs : List ℕ) → length part + length bs < 4 → feed (at part) bs ≡ some (at (part ++ bs))
  unfolding feed
  feed_header part [] h = ap (λ p. some (at p)) (sym (append-nil part))
  feed_header part (b ∷ bs) h =
      step part b bs (byte_header part b (omega arith))
      ∙ feed_header (part ++ b ∷ []) bs (omega (arith, length-append part (b ∷ [])))
      ∙ ap (λ p. some (at p)) (snoc part b bs)

  -- Bytes of the body, short of its end.
  pub feed_body :
      (part bs : List ℕ)
      → 4 ≤ length part
      → 4 ≤ frame_len part
      → length part + length bs < frame_len part
      → feed (at part) bs ≡ some (at (part ++ bs))
  unfolding feed
  feed_body part [] h k lt = ap (λ p. some (at p)) (sym (append-nil part))
  feed_body part (b ∷ bs) h k lt =
      let f = frame_len-append part (b ∷ []) (omega arith) in
      let l = length-append part (b ∷ []) in
      step part b bs (byte_body part b (omega arith) (omega (arith, f)) (omega (arith, f)))
      ∙ feed_body (part ++ b ∷ []) bs (omega (arith, l)) (omega (arith, f)) (omega (arith, f, l))
      ∙ ap (λ p. some (at p)) (snoc part b bs)

  -- Bytes that complete the body.
  pub feed_rest :
      (part bs : List ℕ)
      → 4 ≤ length part
      → 4 ≤ frame_len part
      → 0 < length bs
      → length part + length bs ≡ frame_len part
      → feed (at part) bs ≡ some (record { frames = fs ++ (part ++ bs) ∷ []; partial = [] })
  unfolding feed
  feed_rest part [] h k pos e = absurd (omega arith)
  feed_rest part (b ∷ []) h k pos e =
      let f = frame_len-append part (b ∷ []) (omega arith) in
      ap (λ o. and_then o (λ d'. some d'))
        (byte_last part b (omega arith) (omega (arith, f)) (omega (arith, f)))
  feed_rest part (b ∷ (c ∷ bs)) h k pos e =
      let f = frame_len-append part (b ∷ []) (omega arith) in
      let l = length-append part (b ∷ []) in
      step part b (c ∷ bs) (byte_body part b (omega arith) (omega (arith, f)) (omega (arith, f)))
      ∙ feed_rest (part ++ b ∷ []) (c ∷ bs) (omega (arith, l)) (omega (arith, f)) (omega arith)
          (omega (arith, f, l))
      ∙ ap (λ p. some (record { frames = fs ++ p ∷ []; partial = [] })) (snoc part b (c ∷ bs))

  -- What a complete header leads to.
  abbrev pub headed : List ℕ → Option Deframer
  headed part =
      if ltb (frame_len part) 4
      then none
      else if 4 == frame_len part
      then some (record { frames = fs ++ part ∷ []; partial = [] })
      else some (at part)

  byte_headed :
      (part : List ℕ) (b : ℕ)
      → length part + 1 ≡ 4
      → feed_byte (at part) b ≡ headed (part ++ b ∷ [])
  unfolding feed_byte
  byte_headed part b e = ground (arith, length-append part (b ∷ []))

  -- Bytes that complete the header.
  pub feed-headed :
      (part bs : List ℕ)
      → 0 < length bs
      → length part + length bs ≡ 4
      → feed (at part) bs ≡ headed (part ++ bs)
  unfolding feed
  feed-headed part [] pos e = absurd (omega arith)
  feed-headed part (b ∷ []) pos e = last (feed_byte (at part) b) ∙ byte_headed part b (omega arith)
    where
      last : (o : Option Deframer) → and_then o (λ d'. some d') ≡ o
      last none = refl
      last (some d) = refl
  feed-headed part (b ∷ (c ∷ bs)) pos e =
      step part b (c ∷ bs) (byte_header part b (omega arith))
      ∙ feed-headed (part ++ b ∷ []) (c ∷ bs) (omega arith)
          (omega (arith, length-append part (b ∷ [])))
      ∙ ap headed (snoc part b (c ∷ bs))
