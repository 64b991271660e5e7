-- ===== src/Packet.antt =====
-- pktq.c and pktq.h: packets, in a heap of reference-counted objects, and the bytes they carry.
-- `none` is undefined behaviour: an access through a dangling pointer or out of an object's bounds.
pub mod Lifetime
pub mod Frames
use Prim.Native.String.{String}
use rfx.Prelude.{
  ℕ, suc, ◌+◌, ◌-◌, ◌/◌, ◌%◌, ◌^◌, Bool, false, Option, none, some, List, [], ◌∷◌, ◌==◌,
  if◌then◌else◌, replicate, write_at,
}

-- `struct rf_packet`, without its queue link: a queue is a list of addresses.
-- `data` is the flexible array member, of exactly the bytes that were allocated for it.
pub record Packet : Type 0 where
  pub len : ℕ
  pub type : ℕ
  pub dir : ℕ
  pub drop : Bool
  pub show : Bool
  pub refc : ℕ
  pub delay : ℕ
  pub desc : Option String
  pub dyn_desc : Option String
  pub data_bytes : List ℕ

abbrev pub cli_to_srv : ℕ
cli_to_srv = 0

abbrev pub srv_to_cli : ℕ
srv_to_cli = 1

-- The allocator: every address from `next` on is unused.
pub record Heap : Type 0 where
  pub cell : ℕ → Option Packet
  pub next : ℕ

abbrev pub update : (ℕ → Option Packet) → ℕ → Option Packet → ℕ → Option Packet
update f p v q = if p == q then v else f q

abbrev pub M {ℓ} : Type ℓ → Type ℓ
M A = Heap → Option (A × Heap)

infixl 5 ◌>>=◌ ◌>>◌
abbrev pub ◌>>=◌ {ℓ κ} : {A : Type ℓ} {B : Type κ} → M A → (A → M B) → M B
◌>>=◌ m f h = elim (m h) [ none ↦ none | some (x, after) ↦ f x after ]

abbrev pub ◌>>◌ {ℓ κ} : {A : Type ℓ} {B : Type κ} → M A → M B → M B
m >> k = m >>= λ _. k

abbrev pub pure {ℓ} : {A : Type ℓ} → A → M A
pure a h = some (a, h)

abbrev pub fault {ℓ} : {A : Type ℓ} → M A
fault h = none

-- `*p`
abbrev pub load : ℕ → M Packet
load p h = elim (h.cell p) [ none ↦ none | some k ↦ some (k, h) ]

-- A write to the object at `p`, which must be there.
abbrev pub store : ℕ → Packet → M (Unit {0})
store p k h = elim (h.cell p) [
  | none ↦ none
  | some _ ↦ some (tt, record h { cell = update h.cell p (some k) })
]

abbrev pub release : ℕ → M (Unit {0})
release p h = some (tt, record h { cell = update h.cell p none })

abbrev pub allocate : Packet → M ℕ
allocate k h = some (h.next, record { cell = update h.cell h.next (some k); next = suc h.next })

abbrev pub header : ℕ → ℕ → List ℕ
header len type = (len % 256) ∷ (len / 256 % 256) ∷ (type % 256) ∷ (type / 256 % 256) ∷ []

-- `pkt_new`: the object has `len` bytes of data, zeroed, and the header goes over the first four.
unfoldable pub pkt_new : ℕ → ℕ → ℕ → M ℕ
pkt_new len type dir = elim (write_at (replicate len 0) 0 (header len type)) [
  | none ↦ fault
  | some bytes ↦ allocate (record {
    len = len % 65536;
    type = type % 65536;
    dir = dir % 4;
    drop = false;
    show = false;
    refc = 1;
    delay = 0;
    desc = none;
    dyn_desc = none;
    data_bytes = bytes;
  })
]

unfoldable pub pkt_ref : ℕ → M ℕ
pkt_ref p = do k ← load p; store p (record k { refc = (k.refc + 1) % 2 ^ 32 }); pure p

-- `!--pkt->refc`, on an unsigned counter.
unfoldable pub pkt_unref : ℕ → M (Unit {0})
pkt_unref p = do
  k ← load p
  let left = (k.refc + 2 ^ 32 - 1) % 2 ^ 32
  if left == 0 then release p else store p (record k { refc = left })

-- `pkt_dsprintf`, from what `vasprintf` prints: an empty text is returned, but not kept.
unfoldable pub pkt_dsprintf : ℕ → String → M String
pkt_dsprintf p String.[] = pure String.[]
pkt_dsprintf p (String.◌∷◌ c s) = do
  k ← load p
  store p (record k { dyn_desc = some (String.◌∷◌ c s) })
  pure (String.◌∷◌ c s)
