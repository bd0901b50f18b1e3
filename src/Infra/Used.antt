-- ===== src/Infra/Used.antt =====
-- The loops that GetUsedIPsByCIDR of controllers/egressipam/aws/aws.go and of
-- controllers/egressipam/azure/azure.go have in common
pub mod Listed
pub mod Within
use egressip_ipam_operator.Prelude.{Option, none, some, List, [], ◌∷◌, ◌++◌, Text, if◌then◌else◌}
use egressip_ipam_operator.Deps.{Deps}
use egressip_ipam_operator.Go.Results.{Result, ok, err, bad_cidr}
use egressip_ipam_operator.Go.Maps.{Map, put, get_or_zero}
use egressip_ipam_operator.Go.Net.{Ip, IpNet, parse_ip, parse_cidr, contains}

-- The addresses that lie in a network, and `none` at a text that is no address.
unfoldable pub addresses_in : IpNet → List Text → Option (List Ip)
addresses_in net [] = some []
addresses_in net (address ∷ addresses) = elim (parse_ip address) [
  | none ↦ none
  | some ip ↦ elim (addresses_in net addresses) [
    | none ↦ none
    | some ips ↦ if contains net (some ip) then some (ip ∷ ips) else some ips
  ]
]

-- The loop over the CIDRs. At an address that cannot be parsed the source returns the empty map with
-- the `err` of `ParseCIDR`, which is nil there.
unfoldable pub used_by_cidr : List Text → List Text → Map (List Ip) → Result (Map (List Ip))
unfolding addresses_in
used_by_cidr addresses [] m = ok m
used_by_cidr addresses (cidr ∷ cidrs) m = elim (parse_cidr cidr) [
  | none ↦ err (bad_cidr cidr)
  | some (_, net) ↦ elim (addresses_in net addresses) [
    | none ↦ ok []
    | some ips ↦ used_by_cidr addresses cidrs (put m cidr ips)
  ]
]

-- "adding always taken IPs per AWS rules", and "per Azure rules": `none` at a CIDR that cannot be parsed
unfoldable pub add_always_taken : Deps → List Text → Map (List Ip) → Option (Map (List Ip))
add_always_taken d [] m = some m
add_always_taken d (cidr ∷ cidrs) m = elim (parse_cidr cidr) [
  | none ↦ none
  | some (base, _) ↦ add_always_taken d cidrs (
      put m cidr
        (get_or_zero [] m cidr ++ d.delta_ip base 1 ∷ d.delta_ip base 2 ∷ d.delta_ip base 3 ∷ []))
]
