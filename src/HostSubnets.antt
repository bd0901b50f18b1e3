-- ===== src/HostSubnets.antt =====
-- controllers/egressipam/hostsubnet.go
pub mod Written
pub mod Automatic
use egressip_ipam_operator.Prelude.{
  Bool, true, false, not, ◌||◌, Option, none, some, List, [], ◌∷◌, map, Text, if◌then◌else◌,
}
use egressip_ipam_operator.Deps.{Deps}
use egressip_ipam_operator.Go.Reflect.{
  strings, host_subnet_egress_ips, host_subnet_egress_cidrs, deep_equal,
}
use egressip_ipam_operator.Go.Results.{Result, ok, ◌>>=◌ as ◌>>=ᴿ◌}
use egressip_ipam_operator.Go.Maps.{Map, keys, get, put, get_or_zero}
use egressip_ipam_operator.Go.Net.{parse_cidr, parse_ip, contains}
use egressip_ipam_operator.Api.{EgressIpam, CidrAssignment, HostSubnet}
use egressip_ipam_operator.Context.{ReconcileContext}
use egressip_ipam_operator.Effects.{
  Action, Services, pure, write, update_host_subnet, go_all, ◌>>=◌, ◌>>◌,
}

unfoldable pub matching_network : HostSubnet → List CidrAssignment → Option Text
matching_network hostsubnet [] = none
matching_network hostsubnet (assignment ∷ assignments) =
    let rest = matching_network hostsubnet assignments in
    elim (parse_cidr assignment.cidr) [
      | none ↦ none
      | some (_, net) ↦
          if contains net (parse_ip hostsubnet.host_ip) then some assignment.cidr else rest
    ]

-- matchesHostSubnet: `none` for the result `false, ""`
unfoldable pub matches_host_subnet : EgressIpam → HostSubnet → Option Text
unfolding matching_network
matches_host_subnet egress_ipam hostsubnet =
    matching_network hostsubnet egress_ipam.cidr_assignments

-- The zero value that a missing key of `rc.AllHostSubnets` reads as.
abbrev pub zero_host_subnet : HostSubnet
zero_host_subnet = record { name = []; host_ip = []; egress_ips = []; egress_cidrs = [] }

-- The body of the loop of reconcileHSAssignedIPs. (GetHostHostSubnetEgressIPs and
-- GetHostHostSubnetEgressIPsAsStrings copy the addresses from one type to the other.)
unfoldable pub reconcile_hs_assigned_ips_of :
    Deps → Services → ReconcileContext → Text × HostSubnet → Action Unit
reconcile_hs_assigned_ips_of d services rc (name, hostsubnet) =
    let ips = get_or_zero [] rc.finally_assigned_ips_by_node name in
    if not (d.is_equal ips hostsubnet.egress_ips)
    then write services
        (update_host_subnet (record hostsubnet { egress_cidrs = []; egress_ips = ips }))
    else pure tt

-- reconcileHSAssignedIPs
unfoldable pub reconcile_hs_assigned_ips : Deps → Services → ReconcileContext → Action Unit
unfolding reconcile_hs_assigned_ips_of write go_all
reconcile_hs_assigned_ips d services rc = go_all (
    d.schedule (Action Unit)
      (map (reconcile_hs_assigned_ips_of d services rc) rc.selected_host_subnets))

-- The inner loop of assignCIDRsToHostSubnets, over the nodes of one CIDR.
unfoldable pub assign_cidr : Deps → Services → ReconcileContext → Text → List Text → Action Unit
assign_cidr d services rc cidr [] = pure tt
assign_cidr d services rc cidr (node ∷ nodes) =
    let hostsubnet = get_or_zero zero_host_subnet rc.all_host_subnets node in
    (if not (d.is_equal hostsubnet.egress_cidrs (cidr ∷ []))
      then write services
          (update_host_subnet (record hostsubnet { egress_cidrs = cidr ∷ []; egress_ips = [] }))
      else pure tt)
    >> assign_cidr d services rc cidr nodes

unfoldable pub assign_cidrs : Deps → Services → ReconcileContext → List Text → Action Unit
unfolding assign_cidr
assign_cidrs d services rc [] = pure tt
assign_cidrs d services rc (cidr ∷ cidrs) =
    assign_cidr d services rc cidr (get_or_zero [] rc.selected_nodes_by_cidr cidr)
    >> assign_cidrs d services rc cidrs

-- assignCIDRsToHostSubnets
unfoldable pub assign_cidrs_to_host_subnets : Deps → Services → ReconcileContext → Action Unit
unfolding assign_cidrs write
assign_cidrs_to_host_subnets d services rc =
    assign_cidrs d services rc (d.range (keys rc.selected_nodes_by_cidr))

unfoldable pub host_subnets_by_name : List HostSubnet → Map HostSubnet → Map HostSubnet
host_subnets_by_name [] m = m
host_subnets_by_name (hostsubnet ∷ items) m =
    host_subnets_by_name items (put m hostsubnet.name hostsubnet)

-- getAllHostSubnets
unfoldable pub get_all_host_subnets : Services → Action (Map HostSubnet)
unfolding host_subnets_by_name
get_all_host_subnets services log =
    (services.list_host_subnets log >>=ᴿ λ items. ok (host_subnets_by_name items []), log)

unfoldable pub remove_host_subnet_ips : Services → Text × HostSubnet → Action Unit
unfolding deep_equal
remove_host_subnet_ips services (_, hostsubnet) =
    if not (deep_equal (host_subnet_egress_cidrs hostsubnet.egress_cidrs) (strings []))
      || not (deep_equal (host_subnet_egress_ips hostsubnet.egress_ips) (strings []))
    then write services
        (update_host_subnet (record hostsubnet { egress_cidrs = []; egress_ips = [] }))
    else pure tt

-- removeHostsubnetAssignedIPsAndCIDRs
unfoldable pub remove_host_subnet_assigned_ips_and_cidrs :
    Deps → Services → ReconcileContext → Action Unit
unfolding remove_host_subnet_ips write go_all
remove_host_subnet_assigned_ips_and_cidrs d services rc =
    go_all
      (d.schedule (Action Unit) (map (remove_host_subnet_ips services) rc.selected_host_subnets))
