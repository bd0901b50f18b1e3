-- ===== src/Infra/Azure/Addresses.antt =====
-- The secondary addresses of the virtual machines, in controllers/egressipam/azure/azure.go
pub mod Cleared
pub mod Kept
pub mod Reached
pub mod Removed
use egressip_ipam_operator.Prelude.{
  Bool, true, false, not, Option, none, some, List, [], ◌∷◌, ◌++◌, map, Text, codes, text_eq,
  if◌then◌else◌, is_among,
}
use egressip_ipam_operator.Deps.{Deps}
use egressip_ipam_operator.Go.Results.{Result, ok, err, panic, ◌>>=◌ as ◌>>=ᴿ◌}
use egressip_ipam_operator.Go.Maps.{Map, keys, get}
use egressip_ipam_operator.Api.{EgressIpam}
use egressip_ipam_operator.Context.{ReconcileContext}
use egressip_ipam_operator.Network.{
  IpConfiguration, Interface, InterfaceReference, VirtualMachine, static,
}
use egressip_ipam_operator.Effects.{
  Action, Services, pure, lift, reads, write, update_interface, go_all, ◌>>=◌, ◌>>◌,
}
use egressip_ipam_operator.Infra.Azure.{
  Azure, get_resource_group_from_resource_id, get_name_from_resource_id,
}

-- azureAssignedIPs: the addresses of the configurations that are not primary
unfoldable pub secondary_addresses : List IpConfiguration → List Text
secondary_addresses [] = []
secondary_addresses (configuration ∷ configurations) =
    let rest = secondary_addresses configurations in
    if configuration.primary
    then rest
    else elim configuration.private_ip_address [ none ↦ rest | some ip ↦ ip ∷ rest ]

-- What the loop over the interfaces of a machine has loaded: the last primary one, and the secondary
-- addresses of all primary ones.
pub record LoadedInterface : Type 0 where
  pub interface : Option Interface
  pub assigned_ips : List Text

abbrev pub get_interface : Azure → Text → Action Interface
get_interface azure id = do
  group ← lift (get_resource_group_from_resource_id id)
  name ← lift (get_name_from_resource_id id)
  reads (λ log. azure.get_interface log group name)

abbrev pub load_one : Azure → InterfaceReference → LoadedInterface → Action LoadedInterface
load_one azure netif loaded =
    if netif.primary
    then (get_interface azure netif.id >>= λ interface. pure (record {
      interface = some interface;
      assigned_ips = loaded.assigned_ips ++ secondary_addresses interface.ip_configurations;
    }))
    else pure loaded

unfoldable pub load_interfaces :
    Azure → List InterfaceReference → LoadedInterface → Action LoadedInterface
unfolding secondary_addresses get_resource_group_from_resource_id get_name_from_resource_id
load_interfaces azure [] loaded = pure loaded
load_interfaces azure (netif ∷ netifs) loaded =
    load_one azure netif loaded >>= load_interfaces azure netifs

abbrev pub interfaces_of : Option VirtualMachine → Result (List InterfaceReference)
interfaces_of none = panic
interfaces_of (some vm) = ok vm.network_interfaces

-- Of a selected node: its interface, which panics later where the machine has no primary one, and its
-- secondary addresses.
unfoldable pub load_node : Azure → Map VirtualMachine → Text → Action (Interface × List Text)
unfolding load_interfaces
load_node azure instances name = do
  netifs ← lift (interfaces_of (get instances name))
  loaded ← load_interfaces azure netifs (record { interface = none; assigned_ips = [] })
  elim loaded.interface [
    | none ↦ lift panic
    | some interface ↦ pure (interface, loaded.assigned_ips)
  ]

-- `CreateOrUpdate`, and the wait for its completion
unfoldable pub update : Services → Azure → Interface → List IpConfiguration → Action (Unit {0})
unfolding write get_resource_group_from_resource_id
update services azure interface configurations = do
  group ← lift (get_resource_group_from_resource_id interface.id)
  write services (
      update_interface group interface.name
        (record interface { ip_configurations = configurations }))
  reads azure.wait_for_completion

abbrev pub is_removed : List Text → Option Text → Bool
is_removed to_be_removed none = false
is_removed to_be_removed (some ip) = is_among ip to_be_removed

-- The configurations without those of the addresses to be removed.
unfoldable pub without_ips : List Text → List IpConfiguration → List IpConfiguration
unfolding is_among
without_ips to_be_removed [] = []
without_ips to_be_removed (configuration ∷ configurations) =
    let rest = without_ips to_be_removed configurations in
    if is_removed to_be_removed configuration.private_ip_address then rest else configuration ∷ rest

-- The body of the loop of removeUnNeededAzureAssignedIPs.
unfoldable pub remove_unneeded_of :
    Deps → Services → Azure → Map VirtualMachine → Text × List Text → Action (Unit {0})
unfolding load_node without_ips update
remove_unneeded_of d services azure instances (name, ips) = do
  loaded ← load_node azure instances name
  update services azure loaded.0
      (without_ips (d.difference loaded.1 ips) loaded.0.ip_configurations)

-- removeUnNeededAzureAssignedIPs
unfoldable pub remove_unneeded_azure_assigned_ips :
    Deps → Services → Azure → Map VirtualMachine → ReconcileContext → Action (Unit {0})
unfolding remove_unneeded_of go_all
remove_unneeded_azure_assigned_ips d services azure instances rc = go_all (
    d.schedule (Action (Unit {0}))
      (map (remove_unneeded_of d services azure instances) rc.finally_assigned_ips_by_node))

-- AzureEgressLoadBalancerAnnotation and AzureEgressLoadBalancerNone
abbrev pub azure_egress_load_balancer_annotation : Text
azure_egress_load_balancer_annotation =
    codes "egressip-ipam-operator.redhat-cop.io/azure-egress-load-balancer"

abbrev pub azure_egress_load_balancer_none : Text
azure_egress_load_balancer_none = codes "none"

-- `(*networkInterface.IPConfigurations)[0]`
abbrev pub first_configuration : List IpConfiguration → Result IpConfiguration
first_configuration [] = panic
first_configuration (configuration ∷ _) = ok configuration

-- getLoadBalancerPools
unfoldable pub get_load_balancer_pools : EgressIpam → Interface → Result (Option (List Text))
get_load_balancer_pools egress_ipam interface =
    elim (get egress_ipam.annotations azure_egress_load_balancer_annotation) [
      | none ↦ first_configuration interface.ip_configurations >>=ᴿ λ c. ok c.load_balancer_pools
      | some value ↦
          if text_eq azure_egress_load_balancer_none value
          then ok none
          else first_configuration interface.ip_configurations >>=ᴿ λ c. ok c.load_balancer_pools
    ]

unfoldable pub new_configuration : Option Text → Option (List Text) → Text → IpConfiguration
new_configuration subnet pools ip = record {
  name = codes "EgressIP" ++ ip;
  primary = false;
  private_ip_address = some ip;
  allocation_method = static;
  subnet = subnet;
  load_balancer_pools = pools;
}

-- The configurations with new ones for the addresses to be assigned.
unfoldable pub with_ips :
    Option (List Text) → List Text → List IpConfiguration → Result (List IpConfiguration)
unfolding new_configuration
with_ips pools [] configurations = ok configurations
with_ips pools (ip ∷ ips) configurations = first_configuration configurations >>=ᴿ λ c.
    ok (configurations ++ map (new_configuration c.subnet pools) (ip ∷ ips))

-- The body of the loop of addNeededAzureAssignedIPs.
unfoldable pub add_needed_of :
    Deps
    → Services
    → Azure
    → Map VirtualMachine
    → ReconcileContext
    → Text × List Text
    → Action (Unit {0})
unfolding load_node get_load_balancer_pools with_ips update
add_needed_of d services azure instances rc (name, ips) = do
  loaded ← load_node azure instances name
  pools ← lift (get_load_balancer_pools rc.egress_ipam loaded.0)
  configurations ← lift (with_ips pools (d.difference ips loaded.1) loaded.0.ip_configurations)
  update services azure loaded.0 configurations

-- addNeededAzureAssignedIPs
unfoldable pub add_needed_azure_assigned_ips :
    Deps → Services → Azure → Map VirtualMachine → ReconcileContext → Action (Unit {0})
unfolding add_needed_of go_all
add_needed_azure_assigned_ips d services azure instances rc = go_all (
    d.schedule (Action (Unit {0}))
      (map (add_needed_of d services azure instances rc) rc.finally_assigned_ips_by_node))

-- ReconcileInstanceSecondaryIPs and reconcileAzureAssignedIPs
unfoldable pub reconcile_azure_assigned_ips :
    Deps → Services → Azure → Map VirtualMachine → ReconcileContext → Action (Unit {0})
unfolding remove_unneeded_azure_assigned_ips add_needed_azure_assigned_ips
reconcile_azure_assigned_ips d services azure instances rc = do
  remove_unneeded_azure_assigned_ips d services azure instances rc
  add_needed_azure_assigned_ips d services azure instances rc

unfoldable pub primary_only : List IpConfiguration → List IpConfiguration
primary_only [] = []
primary_only (configuration ∷ configurations) =
    let rest = primary_only configurations in
    if configuration.primary then configuration ∷ rest else rest

-- The body of the loop of removeAllAzureSecondaryIPs. (It loads the interfaces as the other loops do,
-- and does not collect their addresses.)
unfoldable pub remove_all_of : Services → Azure → Map VirtualMachine → Text → Action (Unit {0})
unfolding load_node primary_only update
remove_all_of services azure instances name = do
  loaded ← load_node azure instances name
  update services azure loaded.0 (primary_only loaded.0.ip_configurations)

-- removeAllAzureSecondaryIPs
unfoldable pub remove_all_azure_secondary_ips :
    Deps → Services → Azure → Map VirtualMachine → ReconcileContext → Action (Unit {0})
unfolding remove_all_of go_all
remove_all_azure_secondary_ips d services azure instances rc = go_all (
    d.schedule (Action (Unit {0}))
      (map (remove_all_of services azure instances) (keys rc.selected_nodes)))
