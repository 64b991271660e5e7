-- ===== src/Address.antt =====
-- Addresses as text: `init_addr` and `addr2a` of lib/sock.c.
pub mod RoundTrip
use rfx.Prelude.{
  ℕ, zero, suc, ◌+◌, ◌-◌, ◌*◌, ◌/◌, ◌%◌, ◌^◌, Bool, true, false, Option, none, some, List, [], ◌∷◌,
  ◌++◌, ◌==◌, ltb, leb, not, ◌&&◌, ◌||◌, if◌then◌else◌, length, take, codes,
}
use rfx.Mconf.Numbers.{is_digit, skip_space, signed, digits, decimal}

-- The union of `addr_t`, by its family: a path, or `s_addr` and `sin_port` as the machine reads them.
pub data Name : Type 0 where
  local : List ℕ → Name
  inet : ℕ → ℕ → Name
  unknown : Name

-- `addr_t`
pub record Addr : Type 0 where
  pub name : Name
  pub namelen : ℕ
  pub a_addr : List ℕ

-- sizeof(sun_path) and sizeof(struct sockaddr_in)
abbrev pub path_size : ℕ
path_size = 108

abbrev pub in_size : ℕ
in_size = 16

-- `strncmp(astring, "file:", 5) == 0`: the text behind the prefix.
abbrev pub behind : List ℕ → List ℕ → Option (List ℕ)
behind [] s = some s
behind (p ∷ ps) [] = none
behind (p ∷ ps) (c ∷ s) = let rest = behind ps s in if c == p then rest else none

-- `strchr(a_addr, ':')`: the text in front of the colon, and the text behind it.
abbrev pub at_colon : List ℕ → List ℕ × Option (List ℕ)
at_colon [] = ([], none)
at_colon (c ∷ s) = let (a, b) = at_colon s in if c == b':' then ([], some s) else (c ∷ a, b)

abbrev pub htons : ℕ → ℕ
htons x = x % 256 * 256 + x / 256 % 256

-- `atoi`, as a word of 32 bits: a long of 64 bits that is cut.
abbrev pub atoi : List ℕ → ℕ
atoi s =
    let (minus, t) = signed (skip_space s) in
    let n = (digits 10 0 t).0 in
    (if minus
      then (if ltb (2 ^ 63) n then 2 ^ 63 else (2 ^ 64 - n) % 2 ^ 64)
      else if leb (2 ^ 63) n
      then 2 ^ 63 - 1
      else n)
    % 2 ^ 32

abbrev pub first_is_digit : List ℕ → Bool
first_is_digit [] = false
first_is_digit (c ∷ s) = is_digit c

unfoldable pub inet_addr : ℕ → List ℕ → List ℕ → Addr
inet_addr s_addr port text = record {
  name = inet s_addr (htons (atoi port % 2 ^ 16));
  namelen = in_size;
  a_addr = text;
}

-- The host in front of the colon: none is INADDR_ANY.
abbrev pub host_addr : (List ℕ → Option ℕ) → List ℕ → Option ℕ
host_addr gethostbyname [] = some 0
host_addr gethostbyname (c ∷ host) = gethostbyname (c ∷ host)

unfoldable pub init_inet : (List ℕ → Option ℕ) → List ℕ → Option Addr
unfolding inet_addr
init_inet gethostbyname text =
    let (host, port) = at_colon text in
    elim port [
      | none ↦ if first_is_digit text then some (inet_addr 0 text text) else none
      | some p ↦ elim (host_addr gethostbyname host) [
        | none ↦ none
        | some s_addr ↦ some (inet_addr s_addr p text)
      ]
    ]

-- `init_addr`: `none` where it returns 1. `gethostbyname` gives a host's address, or fails.
unfoldable pub init_addr : (List ℕ → Option ℕ) → List ℕ → Option Addr
unfolding init_inet
init_addr gethostbyname text = elim (behind (codes "file:") text) [
  | none ↦ init_inet gethostbyname text
  | some path ↦
      let p = take (path_size - 1) path in
      some (record { name = local p; namelen = 2 + length p; a_addr = text })
]

-- The bytes of an address, from the lowest, in decimal.
abbrev pub dotted : ℕ → List ℕ
dotted s =
    decimal (s % 256)
    ++ (b'.'
        ∷ (decimal (s / 2 ^ 8 % 256)
            ++ (b'.' ∷ (decimal (s / 2 ^ 16 % 256) ++ (b'.' ∷ decimal (s / 2 ^ 24 % 256))))))

-- `snprintf`: what it writes in front of a NUL, if it writes, and the length of the whole text.
abbrev pub snprintf : ℕ → List ℕ → Option (List ℕ) × ℕ
snprintf size text = (if size == 0 then none else some (take (size - 1) text), length text)

unfoldable pub print_addr : Name → ℕ → Option (List ℕ) × ℕ
print_addr (local p) size = (none, 0)
print_addr (inet s port) size = snprintf size (dotted s ++ (b':' ∷ decimal (htons port)))
print_addr unknown size = snprintf size (codes "<unknown>")

-- `addr2a`: the text in the buffer, and the new `*size`, an unsigned of 32 bits.
unfoldable pub addr2a : Name → ℕ → Option (List ℕ) × ℕ
unfolding print_addr
addr2a a size =
    let (text, l) = print_addr a size in
    (text, (if leb size l then (size + 2 ^ 32 - 1) % 2 ^ 32 else l))
