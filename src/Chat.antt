-- ===== src/Chat.antt =====
-- `rfx_chat`, the filter of rfx_chat.cpp.
use Prim.Native.Nat.{min}
use Prim.Native.String.{String}
use rfx.Prelude.{
  ℕ, zero, suc, ◌+◌, Bool, true, Option, none, some, List, [], ◌∷◌, ◌==◌, ◌&&◌, ◌||◌, not,
  if◌then◌else◌, leb, ltb, length, take, drop, write_at,
}
use rfx.Packet.{M, ◌>>=◌, ◌>>◌, pure, fault, load, store, pkt_new, srv_to_cli}
use rfx.PacketQueue.{pqh_push}
use rfx.Events.{Event, new_event, push_back, mark, wchat_sent, priv_sent, send_reply}
use rfx.Filters.{Filter, decline, stop_here, Work, Processed}

abbrev pub white_chat_out : ℕ
white_chat_out = 0x0202

abbrev pub privmsg_out : ℕ
privmsg_out = 0x0302

abbrev pub privmsg_in : ℕ
privmsg_in = 0x0a02

-- A pointer into the packet is the list of the bytes from there to `end`.
-- `while (p < end && *p != ']') p++`
abbrev pub to_bracket : List ℕ → List ℕ
to_bracket [] = []
to_bracket (c ∷ p) = if c == 93 then c ∷ p else to_bracket p

-- The start of the name: behind a `[...]`, or `none` where the format is not known.
unfoldable pub nick_start : List ℕ → Option (List ℕ)
nick_start [] = none
nick_start (c ∷ p) =
    if c == 91
    then (let q = to_bracket (c ∷ p) in if leb (length q) 1 then none else some (drop 1 q))
    else some (c ∷ p)

abbrev pub ends_nick : ℕ → Bool
ends_nick c = c == 0 || c == 58 || c == 32

-- The name, and what is behind it.
abbrev pub split_nick : List ℕ → List ℕ × List ℕ
split_nick [] = ([], [])
split_nick (c ∷ p) = if ends_nick c then ([], c ∷ p) else (let (n, r) = split_nick p in (c ∷ n, r))

-- `while (p + 1 < end && p[0] != ':' && p[1] != 0x20) p++`
abbrev pub to_colon : List ℕ → List ℕ
to_colon [] = []
to_colon (c ∷ []) = c ∷ []
to_colon (c ∷ d ∷ p) = if not (c == 58) && not (d == 32) then to_colon (d ∷ p) else c ∷ d ∷ p

-- A C string from `p` on; one that does not end in the packet is read past its end.
abbrev pub c_string : List ℕ → Option (List ℕ)
c_string [] = none
c_string (c ∷ p) =
    if c == 0 then some [] else elim (c_string p) [ none ↦ none | some s ↦ some (c ∷ s) ]

-- "<ERROR>"
abbrev pub error_text : List ℕ
error_text = 60 ∷ 69 ∷ 82 ∷ 82 ∷ 79 ∷ 82 ∷ 62 ∷ []

-- The name and the message, from the start of the name.
unfoldable pub nick_msg : List ℕ → Option (List ℕ × List ℕ)
nick_msg p =
    let (nick, r) = split_nick p in
    let q = to_colon r in
    if ltb 2 (length q)
    then (elim (c_string (drop 2 q)) [ none ↦ none | some msg ↦ some (nick, msg) ])
    else some (nick, error_text)

-- The part of `process` behind the switch, for text that starts at `from`.
unfoldable pub find_text : ℕ → String → ℕ → ℕ → Work → M Work
unfolding nick_start nick_msg new_event push_back
find_text code text from p w = do
  k ← load p
  store p (record k { desc = some text })
  let t = drop from (take k.len k.data_bytes)
  if length t == 0 then fault else (elim (nick_start t) [
    | none ↦ (do mark (λ k. record k { desc = some "UNKNOWN CHAT MESSAGE"; show = true }) p; pure w)
    | some q ↦ elim (nick_msg q) [
      | none ↦ fault
      | some (nick, msg) ↦ (do
        e ← new_event code nick msg (some p)
        mark (λ k. record k { show = true }) p
        pure (record w { evq = push_back w.evq e }))
    ]
  ])

-- `rfx_chat::process(pkt, ...)`
unfoldable pub process_packet : Unit {0} → ℕ → Work → M (Processed (Unit {0}))
unfolding find_text
process_packet s p w = do
  k ← load p
  w' ←
      (if k.type == white_chat_out
        then find_text wchat_sent "white chat send from client" 5 p w
        else if k.type == privmsg_out
        then find_text priv_sent "private message send from client" 4 p w
        else if k.type == privmsg_in
        then (do store p (record k { desc = some "incoming chat message" }); pure w)
        else pure w)
  pure (decline, s, w')

-- `tmpl`
abbrev pub tmpl : List ℕ
tmpl =
    0x02 ∷ 0x11 ∷ 0x05 ∷ 0 ∷ 0 ∷ 0 ∷ 0 ∷ 0 ∷ 0 ∷ 0 ∷ 0 ∷ 0 ∷ 0 ∷ 0 ∷ 0 ∷ 0 ∷ 0xff ∷ 0xff ∷ 0xff
    ∷ 0xff ∷ 0 ∷ 0 ∷ 1 ∷ 0 ∷ []

-- What `strncpy(p, nick.c_str(), 10)` writes: ten bytes.
abbrev pub strncpy : ℕ → List ℕ → List ℕ
strncpy zero s = []
strncpy (suc n) [] = 0 ∷ strncpy n []
strncpy (suc n) (c ∷ s) = if c == 0 then 0 ∷ strncpy n [] else c ∷ strncpy n s

-- A copy to `pkt->data + pos`.
unfoldable pub put : ℕ → ℕ → List ℕ → M (Unit {0})
put p pos bs = do
  k ← load p
  elim (write_at k.data_bytes pos bs) [
    | none ↦ fault
    | some d ↦ store p (record k { data_bytes = d })
  ]

-- The length of the message, cut to 0xf0.
abbrev pub msg_len : List ℕ → ℕ
msg_len msg = min (length msg) 0xf0

-- The packet that answers an event.
unfoldable pub reply : List ℕ → List ℕ → M ℕ
unfolding put pkt_new
reply nick msg = do
  p ← pkt_new (4 + length tmpl + 3 + msg_len msg + 1) privmsg_in srv_to_cli
  put p 4 tmpl
  put p 9 (strncpy 10 nick)
  put p (length tmpl + 4) ((msg_len msg + 2) ∷ 58 ∷ 32 ∷ [])
  put p (length tmpl + 7) (take (msg_len msg) msg)
  put p (length tmpl + 7 + msg_len msg) (0 ∷ [])
  pure p

-- `rfx_chat::process(ev, ...)`
unfoldable pub process_event : Unit {0} → Event → Work → M (Processed (Unit {0}))
unfolding reply pqh_push
process_event s e w =
    if e.what == send_reply
    then (do p ← reply e.nick e.msg; pure (stop_here, s, record w { post = pqh_push w.post p }))
    else pure (decline, s, w)

abbrev pub rfx_chat : Filter (Unit {0})
rfx_chat = record { process_packet = process_packet; process_event = process_event }
