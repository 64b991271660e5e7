-- ===== src/Loot/Drops.antt =====
-- Which packets the loot filter drops.
use Prim.Native.String.{String}
use rfx.Prelude.{
  ℕ, zero, suc, ◌+◌, ◌*◌, ◌<◌, ◌≤◌, ◌≡◌, refl, ap, ◌∙◌, ◌⊎◌, inl, inr, none, some, List, [], ◌∷◌,
  ==_refl, ltb, if◌then◌else◌, ltb→lt, not-ltb→le, Bool-cases, Option-cases, not, length, get_elem?,
  get_or, All, arith,
}
use rfx.Packet.{Packet, Heap, ◌>>◌, update}
use rfx.Packet.Lifetime.{AgreeBut, update-AgreeBut}
use rfx.Wire.{get_int16_lem}
use rfx.Filters.{decline, Work}
use rfx.Loot.{test}
use rfx.Loot.Bits.{get_or-byte}
use rfx.Loot.Command.{LootState}
use rfx.Loot.Process.{item_id, appear, process_packet, loot_drop_new, loot_drop_horizon}

-- The item that a packet is about, from its bytes 4 and 5.
abbrev pub item_of : Packet → ℕ
item_of k = get_or k.data_bytes 4 0 + get_or k.data_bytes 5 0 * 256

get_elem?-get_or : (xs : List ℕ) (i : ℕ) → i < length xs → get_elem? xs i ≡ some (get_or xs i 0)
get_elem?-get_or [] i h = absurd (omega arith)
get_elem?-get_or (x ∷ xs) zero h = refl
get_elem?-get_or (x ∷ xs) (suc i) h = get_elem?-get_or xs i (omega arith)

get_elem?-past : (xs : List ℕ) (i : ℕ) → length xs ≤ i → get_elem? xs i ≡ none
get_elem?-past [] i h = refl
get_elem?-past (x ∷ xs) zero h = absurd (omega arith)
get_elem?-past (x ∷ xs) (suc i) h = get_elem?-past xs i (omega arith)

item_id_lem :
    (k : Packet) (h : Heap)
    → 6 ≤ length k.data_bytes
    → All (λ b. b < 256) k.data_bytes
    → item_id k h ≡ some (item_of k, h)
unfolding item_id
item_id_lem k h n a =
    let e = get_elem?-get_or k.data_bytes 4 (omega (arith, n)) in
    let f = get_elem?-get_or k.data_bytes 5 (omega (arith, n)) in
    let g =
      get_int16_lem (get_or k.data_bytes 4 0) (get_or k.data_bytes 5 0)
        (get_or-byte k.data_bytes 4 a) (get_or-byte k.data_bytes 5 a) in
    ground (arith, e, f) ∙ ap (λ x. some (x, h)) g

item_id-short : (k : Packet) (h : Heap) → length k.data_bytes < 6 → item_id k h ≡ none
unfolding item_id
item_id-short k h n =
    let f = get_elem?-past k.data_bytes 5 (omega (arith, n)) in
    elim (Option-cases (get_elem? k.data_bytes 4)) [
      | inl x ↦ ground (arith, x)
      | inr (lo, x) ↦ ground (arith, x, f)
    ]

-- The packet as the filter leaves it.
abbrev marked : String → LootState → Packet → Packet
marked text l k = record k { desc = some text; drop = not (test l.show (item_of k)) }

appear_run :
    (text : String) (l : LootState) (p : ℕ) (h : Heap) (k : Packet)
    → h.cell p ≡ some k
    → item_id k h ≡ some (item_of k, h)
    → appear text l p k h ≡ some (tt, record h { cell = update h.cell p (some (marked text l k)) })
unfolding appear
appear_run text l p h k e i = ground (arith, e, i)

appear-short :
    (text : String) (l : LootState) (p : ℕ) (h : Heap) (k : Packet)
    → item_id k h ≡ none
    → appear text l p k h ≡ none
unfolding appear
appear-short text l p h k i = ground (arith, i)

abbrev IsItem : Packet → Type 0
IsItem k = (k.type ≡ loot_drop_new) ⊎ (k.type ≡ loot_drop_horizon)

process_appear :
    (l : LootState) (p : ℕ) (w : Work) (h : Heap) (k : Packet)
    → h.cell p ≡ some k
    → IsItem k
    → (text : String) × (process_packet l p w h
        ≡ (appear text l p k >> (λ h'. some ((decline, l, w), h'))) h)
unfolding process_packet
process_appear l p w h k e (inl t) = ("new item on the ground", ground (arith, e, t))
process_appear l p w h k e (inr t) = ("new item at the vision range", ground (arith, e, t))

-- On a packet of an item that appears, in the heap and made of bytes, `rfx_loot::process` reads
-- out of bounds if the packet has fewer than six bytes; with six or more it lets the chain go
-- on, marks the packet as dropped exactly if its item is not shown, keeps its bytes, and touches
-- no other packet.
pub process_packet_lem :
    (l : LootState) (p : ℕ) (w : Work) (h : Heap) (k : Packet)
    → h.cell p ≡ some k
    → IsItem k
    → All (λ b. b < 256) k.data_bytes
    → ((length k.data_bytes < 6) × (process_packet l p w h ≡ none))
      ⊎ ((6 ≤ length k.data_bytes)
          × (k' : Packet) × (h' : Heap) × (process_packet l p w h ≡ some ((decline, l, w), h'))
          × (h'.cell p ≡ some k')
          × (k'.drop ≡ not (test l.show (item_of k)))
          × (k'.data_bytes ≡ k.data_bytes)
          × AgreeBut p h h')
process_packet_lem l p w h k e t a =
    let (text, run) = process_appear l p w h k e t in
    elim (Bool-cases (ltb (length k.data_bytes) 6)) [
      | inl b ↦
          let n : length k.data_bytes < 6 = ltb→lt _ 6 b in
          let i = appear-short text l p h k (item_id-short k h n) in
          inl (n, run ∙ ground (arith, i))
      | inr b ↦
          let n : 6 ≤ length k.data_bytes = not-ltb→le _ 6 b in
          let i = appear_run text l p h k e (item_id_lem k h n a) in
          inr (
            n,
            marked text l k,
            record h { cell = update h.cell p (some (marked text l k)) },
            run ∙ ground (arith, i),
            ap (λ b. if b then some (marked text l k) else h.cell p) (==_refl p),
            refl,
            refl,
            update-AgreeBut p (some (marked text l k)) h,
          )
    ]
