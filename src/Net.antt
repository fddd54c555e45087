-- ===== src/Net.antt =====
-- What the program takes from `crypto/sha256` and from the parsers of Go's `net` package. An address
-- is the number that the sixteen bytes of a `net.IP` spell.
use Prim.Native.Char.{code}
use re_mazarin.Common.{
  not, ◌||◌, ℕ, ◌-◌, ◌/◌, ◌^◌, String, Bool, ◌&&◌, Option, none, some, ◌==◌, if◌then◌else◌,
}
use re_mazarin.Common.Text.{trim_space, contains, split_first, split_last}

-- A `net.IPNet`: an IPv4 network has a mask of 32 bits, any other one of 128.
pub record IpNet : Type 0 where
  pub is_v4 : Bool
  pub base : ℕ
  pub ones : ℕ

-- The parsers and the digest are parameters: each definition that needs them takes an `Env`.
pub record Env : Type 0 where
  pub sha256_hex : String → String
  pub parse_ip : String → Option ℕ
  pub print_ip : ℕ → String
  pub parse_cidr : String → Option IpNet

-- `ip.To4() != nil`: the address has the prefix ::ffff:0:0/96.
unfoldable pub is_v4 : ℕ → Bool
is_v4 ip = ip / 2 ^ 32 == 65535

abbrev same_bits : ℕ → ℕ → ℕ → Bool
same_bits shift a b = a / 2 ^ shift == b / 2 ^ shift

-- IPNet.Contains: an IPv4 address is in IPv4 networks only, and another one in the others only.
unfoldable pub net_contains : IpNet → ℕ → Bool
unfolding is_v4
net_contains n ip =
    if n.is_v4
    then is_v4 ip && same_bits (32 - n.ones) ip n.base
    else (if is_v4 ip then Bool.false else same_bits (128 - n.ones) ip n.base)

-- storage.normalizeIP
unfoldable pub normalize_ip : Env → String → String
normalize_ip env ip = elim (env.parse_ip (trim_space ip)) [ some p ↦ env.print_ip p | none ↦ ip ]

-- The text behind an opening bracket: the host up to the closing one, then a colon and the port.
bracketed_port : String → Option String
bracketed_port String.[] = none
bracketed_port (String.◌∷◌ c port) =
    if code c == b':'
      && not (contains b':' port)
      && not (contains b'[' port)
      && not (contains b']' port)
    then some port
    else none

with_host : String → Option String → Option (String × String)
with_host host none = none
with_host host (some port) = if contains b'[' host then none else some (host, port)

split_bracketed : String → Option (String × String)
unfolding bracketed_port with_host
split_bracketed s = elim (split_first b']' s) [
  | none ↦ none
  | some (host, tail) ↦ with_host host (bracketed_port tail)
]

split_plain : String → Option (String × String)
split_plain s = elim (split_last b':' s) [
  | none ↦ none
  | some (host, port) ↦
      if contains b':' host || contains b'[' s || contains b']' s then none else some (host, port)
]

-- net.SplitHostPort: the host and the port, or an error.
unfoldable pub split_host_port : String → Option (String × String)
unfolding split_bracketed split_plain
split_host_port String.[] = none
split_host_port (String.◌∷◌ c s) =
    if code c == b'[' then split_bracketed s else split_plain (String.◌∷◌ c s)

-- net.JoinHostPort: a host with a colon stands in brackets.
unfoldable pub join_host_port : (host port : String) → String
join_host_port host port =
    if contains b':' host
    then Prim.Native.String.◌++◌ "["
        (Prim.Native.String.◌++◌ host (Prim.Native.String.◌++◌ "]:" port))
    else Prim.Native.String.◌++◌ host (Prim.Native.String.◌++◌ ":" port)
