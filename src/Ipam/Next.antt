-- ===== src/Ipam/Next.antt =====
-- getNextAvailableIP: the first address of a network that its pool lacks.
pub mod Gaps
pub mod Least
use egressip_ipam_operator.Prelude.{
  ℕ, suc, ◌+◌, ◌^◌, ◌%◌, Option, none, some, List, [], ◌∷◌, Text, length, ◌==◌, if◌then◌else◌,
}
use egressip_ipam_operator.Deps.{Deps}
use egressip_ipam_operator.Go.Net.{Ip, IpNet, parse_cidr}
use egressip_ipam_operator.Go.Results.{Result, ok, err, bad_cidr, no_more_ips, never_here}

abbrev pub Chosen : Type 0
Chosen = Ip × List Ip

abbrev pub keep : Ip → Option Chosen → Option Chosen
keep taken none = none
keep taken (some (ip, ips)) = some (ip, taken ∷ ips)

-- The loop over the pool from its `i`th address on: the missing address, and the rest of the pool
-- with that address put in.
unfoldable pub find_gap : Deps → Ip → ℕ → List Ip → Option Chosen
find_gap d base i [] = none
find_gap d base i (ip ∷ ips) =
    let rest = find_gap d base (suc i) ips in
    let next = d.delta_ip base i in
    if ip == next then keep ip rest else some (next, next ∷ ip ∷ ips)

abbrev pub or_never_here : Option Chosen → Result Chosen
or_never_here none = err never_here
or_never_here (some chosen) = ok chosen

abbrev pub next_in : Deps → Text → Option (Ip × IpNet) → List Ip → Result Chosen
next_in d cidrs none ips = err (bad_cidr cidrs)
next_in d cidrs (some (_, net)) ips =
    if length ips % 2 ^ 32 == d.network_size net
    then err (no_more_ips cidrs)
    else or_never_here (find_gap d net.ip 0 ips)

unfoldable pub get_next_available_ip : Deps → Text → List Ip → Result Chosen
unfolding find_gap
get_next_available_ip d cidrs ips = next_in d cidrs (parse_cidr cidrs) ips
