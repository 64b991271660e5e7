-- ===== src/Plugins.antt =====
-- The filters of rfx_debug.cpp, rfx_loot.cpp and rfx_chat.cpp as one kind of filter, for a chain.
use rfx.Prelude.{ℕ, refl, Option, List}
use rfx.Packet.{M, ◌>>=◌, pure}
use rfx.Events.{Event}
use rfx.Filters.{Filter, decline, Work, Processed}
use rfx.Loot.Command.{LootState, Answer}
use rfx.Loot.Process.{rfx_loot}
use rfx.Chat.{rfx_chat}
use rfx.Session.Marks.{Shown-refl}
use rfx.Session.Passive.{IsPassive}

-- `rfx_debug`
abbrev pub debug_packet : Unit {0} → ℕ → Work → M (Processed (Unit {0}))
debug_packet s p w = pure (decline, s, w)

abbrev pub debug_event : Unit {0} → Event → Work → M (Processed (Unit {0}))
debug_event s e w = pure (decline, s, w)

abbrev pub rfx_debug : Filter (Unit {0})
rfx_debug = record { process_packet = debug_packet; process_event = debug_event }

-- A filter of one of the three classes.
pub data Plugin : Type 0 where
  debug : Plugin
  loot : LootState → Plugin
  chat : Plugin

abbrev pub with_state : {S : Type 0} → (S → Plugin) → M (Processed S) → M (Processed Plugin)
with_state c m = do (v, s, w) ← m; pure (v, c s, w)

module _ (files : List ℕ → Option (List ℕ)) (reply_text : Answer → List ℕ) where
  abbrev pub plugin_packet : Plugin → ℕ → Work → M (Processed Plugin)
  plugin_packet debug p w = with_state (λ s. debug) (debug_packet tt p w)
  plugin_packet (loot l) p w = with_state loot ((rfx_loot files reply_text).process_packet l p w)
  plugin_packet chat p w = with_state (λ s. chat) (rfx_chat.process_packet tt p w)

  abbrev pub plugin_event : Plugin → Event → Work → M (Processed Plugin)
  plugin_event debug e w = with_state (λ s. debug) (debug_event tt e w)
  plugin_event (loot l) e w = with_state loot ((rfx_loot files reply_text).process_event l e w)
  plugin_event chat e w = with_state (λ s. chat) (rfx_chat.process_event tt e w)

  abbrev pub plugins : Filter Plugin
  plugins = record { process_packet = plugin_packet; process_event = plugin_event }

-- The debug filter is passive.
abbrev pub Any : Unit {0} → Type 0
Any s = Unit {0}

pub rfx_debug-IsPassive : IsPassive rfx_debug Any
rfx_debug-IsPassive = record { step = λ s p w h q l. (decline, s, h, refl, tt, Shown-refl h) }
