-- ===== src/Go/Net.antt =====
-- Go's `net` for IPv4: an address is its 32-bit value, as `binary.BigEndian.Uint32` reads its bytes.
mod Octets
pub mod Networks
pub mod Printing
use egressip_ipam_operator.Prelude.{
  ℕ, ◌+◌, ◌-◌, ◌*◌, ◌/◌, ◌%◌, ◌^◌, ◌≡◌, Bool, true, false, Option, none, some, List, [], ◌∷◌, Text,
  leb, ◌==◌, if◌then◌else◌,
}
use egressip_ipam_operator.Go.Strings.{split, join}
unfoldable pub use Octets.{octet, parse_octet, print_octet, dtoi}

abbrev pub Ip : Type 0
Ip = ℕ

-- `net.IPNet`: the address with the host bits cleared, and the number of ones in the mask.
pub record IpNet : Type 0 where
  pub ip : Ip
  pub ones : ℕ

-- The number of addresses of a network.
abbrev pub size : IpNet → ℕ
size net = 2 ^ (32 - net.ones)

abbrev combine : Option ℕ → Option ℕ → Option ℕ → Option ℕ → Option Ip
combine (some a) (some b) (some c) (some d) = some (((a * 256 + b) * 256 + c) * 256 + d)
combine _ _ _ _ = none

abbrev quad : List Text → Option Ip
quad (a ∷ b ∷ c ∷ d ∷ []) = combine (parse_octet a) (parse_octet b) (parse_octet c) (parse_octet d)
quad _ = none

-- `net.ParseIP`, `none` for nil
unfoldable pub parse_ip : Text → Option Ip
parse_ip s = quad (split b'.' s)

-- `IP.String`
unfoldable pub print_ip : Ip → Text
print_ip ip = join b'.' (
    print_octet (octet ip 3)
    ∷ print_octet (octet ip 2)
    ∷ print_octet (octet ip 1)
    ∷ print_octet (octet ip 0)
    ∷ [])

-- `IP.Mask` of a mask with so many ones
abbrev pub mask : ℕ → Ip → Ip
mask ones ip = ip / 2 ^ (32 - ones) * 2 ^ (32 - ones)

abbrev network : Option Ip → Option ℕ → Option (Ip × IpNet)
network (some ip) (some ones) =
    if leb ones 32 then some (ip, record { ip = mask ones ip; ones = ones }) else none
network _ _ = none

abbrev address_and_mask : List Text → Option (Ip × IpNet)
address_and_mask (address ∷ ones ∷ []) = network (parse_ip address) (dtoi ones)
address_and_mask _ = none

-- `net.ParseCIDR`: the address as it is written, and the network that it lies in
unfoldable pub parse_cidr : Text → Option (Ip × IpNet)
unfolding parse_ip
parse_cidr s = address_and_mask (split b'/' s)

-- `IPNet.Contains`; nil lies in no network
unfoldable pub contains : IpNet → Option Ip → Bool
contains net none = false
contains net (some ip) = mask net.ones ip == net.ip
