-- ===== src/Loot/Process.antt =====
-- `rfx_loot`, the filter of rfx_loot.cpp.
use Prim.Native.String.{String}
use rfx.Prelude.{
  ℕ, true, Option, none, some, List, [], ◌∷◌, ◌==◌, ◌&&◌, not, if◌then◌else◌, get_elem?,
}
use rfx.Packet.{Packet, M, ◌>>=◌, ◌>>◌, pure, fault, load, store}
use rfx.Wire.{get_int16}
use rfx.Events.{Event, new_event, push_back, drop_source, hide_source, priv_sent, send_reply}
use rfx.Filters.{Filter, decline, stop_here, Work, Processed}
use rfx.Loot.{test}
use rfx.Loot.Command.{LootState, same_text, Answer, loot_cmd}

abbrev pub loot_drop_new : ℕ
loot_drop_new = 0x1403

abbrev pub loot_drop_horizon : ℕ
loot_drop_horizon = 0x0f04

abbrev pub loot_disappear : ℕ
loot_disappear = 0x1c03

-- GET_INT16(pkt->data + 4)
unfoldable pub item_id : Packet → M ℕ
unfolding get_int16
item_id k = elim (get_elem? k.data_bytes 4) [
  | none ↦ fault
  | some lo ↦ elim (get_elem? k.data_bytes 5) [ none ↦ fault | some hi ↦ pure (get_int16 lo hi) ]
]

-- A packet of an item that appears: the filter drops it if the item is not to be shown.
unfoldable pub appear : String → LootState → ℕ → Packet → M (Unit {0})
unfolding item_id test
appear text l p k = do
  id ← item_id k
  store p (record k { desc = some text; drop = not (test l.show id) })

-- `rfx_loot::process(pkt, ...)`
unfoldable pub process_packet : LootState → ℕ → Work → M (Processed LootState)
unfolding appear
process_packet l p w = do
  k ← load p
  (if k.type == loot_drop_new
      then appear "new item on the ground" l p k
      else if k.type == loot_drop_horizon
      then appear "new item at the vision range" l p k
      else if k.type == loot_disappear
      then store p (record k { desc = some "loot disappear"; show = true })
      else pure tt)
  pure (decline, l, w)

-- "loot"
abbrev pub loot_text : List ℕ
loot_text = 108 ∷ 111 ∷ 111 ∷ 116 ∷ []

-- `files` is the file system, and `reply_text` is what `snprintf` makes of an answer.
module _ (files : List ℕ → Option (List ℕ)) (reply_text : Answer → List ℕ) where
  -- `rfx_loot::process(ev, ...)`
  unfoldable pub process_event : LootState → Event → Work → M (Processed LootState)
  unfolding loot_cmd new_event push_back drop_source hide_source
  process_event l e w =
      if e.what == priv_sent && same_text e.nick loot_text
      then (let (answer, l') = loot_cmd files e.msg l in
          do
            reply ← new_event send_reply e.nick (reply_text answer) none
            drop_source e
            hide_source e
            pure (stop_here, l', record w { evq = push_back w.evq reply }))
      else pure (decline, l, w)

  abbrev pub rfx_loot : Filter LootState
  rfx_loot = record { process_packet = process_packet; process_event = process_event }
