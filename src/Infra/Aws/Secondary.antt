-- ===== src/Infra/Aws/Secondary.antt =====
-- The secondary addresses of the instances, in controllers/egressipam/aws/aws.go
pub mod Calls
pub mod Kept
pub mod Reached
pub mod Removed
use egressip_ipam_operator.Prelude.{
  ℕ, ◌^◌, ◌%◌, Bool, true, false, Option, none, some, List, [], ◌∷◌, ◌++◌, map, Text, codes,
  text_eq, if◌then◌else◌,
}
use egressip_ipam_operator.Deps.{Deps}
use egressip_ipam_operator.Go.Results.{
  Result, ok, err, panic, bad_cidr, no_instance, no_secret_key, no_instance_type,
  unknown_instance_type, ◌>>=◌ as ◌>>=ᴿ◌,
}
use egressip_ipam_operator.Go.Maps.{Map, keys, get, put, get_or_zero}
use egressip_ipam_operator.Go.Strings.{split}
use egressip_ipam_operator.Go.Net.{Ip, IpNet, parse_ip, parse_cidr, contains}
use egressip_ipam_operator.Api.{Node}
use egressip_ipam_operator.Context.{ReconcileContext}
use egressip_ipam_operator.Effects.{
  Action, Log, Services, pure, lift, reads, write, assign_private_ips, unassign_private_ips, go_all,
  ◌>>=◌, ◌>>◌,
}
use egressip_ipam_operator.Infra.Aws.{
  PrivateIp, NetworkInterface, Instance, interface_of, first_interface, get_aws_id_from_node,
}

-- awsAssignedIPs
unfoldable pub secondary_ips : List PrivateIp → List Text
secondary_ips [] = []
secondary_ips (ip ∷ ips) =
    let rest = secondary_ips ips in if ip.primary then rest else ip.private_ip_address ∷ rest

abbrev pub unless_empty : List Text → Action (Unit {0}) → Action (Unit {0})
unless_empty [] act = pure tt
unless_empty (_ ∷ _) act = act

-- The bodies of the loops of removeAWSUnusedIPs and reconcileAWSAssignedIPs.
unfoldable pub remove_unused_of :
    Deps → Services → Map Instance → ReconcileContext → Text × List Text → Action (Unit {0})
unfolding interface_of secondary_ips
remove_unused_of d services instances rc (name, ips) = elim (interface_of instances rc name) [
  | none ↦ lift panic
  | some interface ↦
      let to_be_removed = d.difference (secondary_ips interface.private_ip_addresses) ips in
      unless_empty to_be_removed
        (write services (unassign_private_ips interface.network_interface_id to_be_removed))
]

unfoldable pub reconcile_assigned_of :
    Deps → Services → Map Instance → ReconcileContext → Text × List Text → Action (Unit {0})
unfolding interface_of secondary_ips
reconcile_assigned_of d services instances rc (name, ips) = elim (interface_of instances rc name) [
  | none ↦ lift panic
  | some interface ↦
      let to_be_assigned = d.difference ips (secondary_ips interface.private_ip_addresses) in
      unless_empty to_be_assigned
        (write services (assign_private_ips interface.network_interface_id to_be_assigned))
]

-- removeAWSUnusedIPs
unfoldable pub remove_aws_unused_ips :
    Deps → Services → Map Instance → ReconcileContext → Action (Unit {0})
unfolding remove_unused_of write go_all
remove_aws_unused_ips d services instances rc = go_all (
    d.schedule (Action (Unit {0}))
      (map (remove_unused_of d services instances rc) rc.finally_assigned_ips_by_node))

-- reconcileAWSAssignedIPs
unfoldable pub reconcile_aws_assigned_ips :
    Deps → Services → Map Instance → ReconcileContext → Action (Unit {0})
unfolding reconcile_assigned_of write go_all
reconcile_aws_assigned_ips d services instances rc = go_all (
    d.schedule (Action (Unit {0}))
      (map (reconcile_assigned_of d services instances rc) rc.finally_assigned_ips_by_node))

-- AWSInfra.ReconcileInstanceSecondaryIPs
unfoldable pub reconcile_aws_secondary_ips :
    Deps → Services → Map Instance → ReconcileContext → Action (Unit {0})
unfolding remove_aws_unused_ips reconcile_aws_assigned_ips
reconcile_aws_secondary_ips d services instances rc = do
  remove_aws_unused_ips d services instances rc
  reconcile_aws_assigned_ips d services instances rc

-- The loop over `PrivateIpAddresses[1:]`, which stops at the first error.
unfoldable pub unassign_each : Services → Text → List PrivateIp → Action (Unit {0})
unfolding write
unassign_each services id [] = pure tt
unassign_each services id (ip ∷ ips) =
    write services (unassign_private_ips id (ip.private_ip_address ∷ []))
    >> unassign_each services id ips

abbrev pub unassign_all : Services → Text → List PrivateIp → Action (Unit {0})
unassign_all services id [] = lift panic
unassign_all services id (_ ∷ secondary) = unassign_each services id secondary

-- The body of the loop of removeAllAWSAssignedIPs.
unfoldable pub remove_all_of : Services → Map Instance → Text × Node → Action (Unit {0})
unfolding unassign_each
remove_all_of services instances (_, node) = elim (get instances (get_aws_id_from_node node)) [
  | none ↦ lift (err no_instance)
  | some instance' ↦ elim (first_interface (some instance')) [
    | none ↦ lift panic
    | some interface ↦
        unassign_all services interface.network_interface_id interface.private_ip_addresses
  ]
]

-- removeAllAWSAssignedIPs
unfoldable pub remove_all_aws_assigned_ips :
    Deps → Services → Map Instance → ReconcileContext → Action (Unit {0})
unfolding remove_all_of go_all
remove_all_aws_assigned_ips d services instances rc =
    go_all
      (d.schedule (Action (Unit {0})) (map (remove_all_of services instances) rc.selected_nodes))
