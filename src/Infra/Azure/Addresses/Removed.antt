-- ===== src/Infra/Azure/Addresses/Removed.antt =====
-- removeAllAzureSecondaryIPs of controllers/egressipam/azure/azure.go
use egressip_ipam_operator.Prelude.{inl, inr, Bool-cases, none, List, [], ◌∷◌, Text, Option-cases}
use egressip_ipam_operator.Deps.{Deps, IsLawful}
use egressip_ipam_operator.Go.Maps.{Map, get, keys}
use egressip_ipam_operator.Context.{ReconcileContext}
use egressip_ipam_operator.Network.{Interface, InterfaceReference, IpConfiguration, VirtualMachine}
use egressip_ipam_operator.Effects.{Services, lift, write}
use egressip_ipam_operator.Effects.Goroutines.{Keeps, write-Keeps, schedule-Keeps}
use egressip_ipam_operator.Effects.Chains.{Keeping, >>=-Keeping}
use egressip_ipam_operator.Infra.Azure.{
  Azure, get_resource_group_from_resource_id, get_name_from_resource_id,
}
use egressip_ipam_operator.Infra.Azure.Addresses.{
  LoadedInterface, get_interface, load_one, load_interfaces, interfaces_of, load_node, update,
  primary_only, remove_all_of, remove_all_azure_secondary_ips,
}

module _ (azure : Azure) where
  load_one-Keeping :
      (netif : InterfaceReference) (loaded : LoadedInterface)
      → Keeping (load_one azure netif loaded)
  load_one-Keeping netif loaded = elim (Bool-cases netif.primary) [
    | inl primary ↦ rw primary (
        >>=-Keeping (get_interface azure netif.id) _
          (>>=-Keeping (lift (get_resource_group_from_resource_id netif.id)) _ (λ log w e. e)
            λ group.
              >>=-Keeping (lift (get_name_from_resource_id netif.id)) _ (λ log w e. e)
                λ name log w e. e)
          (λ interface log w e. e))
    | inr secondary ↦ rw secondary (λ log w e. e)
  ]

  load_interfaces-Keeping :
      (netifs : List InterfaceReference) (loaded : LoadedInterface)
      → Keeping (load_interfaces azure netifs loaded)
  unfolding load_interfaces
  load_interfaces-Keeping [] loaded = λ log w e. e
  load_interfaces-Keeping (netif ∷ netifs) loaded =
      >>=-Keeping (load_one azure netif loaded) (load_interfaces azure netifs)
        (load_one-Keeping netif loaded) (load_interfaces-Keeping netifs)

  pub load_node-Keeping :
      (instances : Map VirtualMachine) (name : Text) → Keeping (load_node azure instances name)
  unfolding load_node
  load_node-Keeping instances name =
      >>=-Keeping (lift (interfaces_of (get instances name))) _ (λ log w e. e)
        λ netifs.
          >>=-Keeping
            (load_interfaces azure netifs (record { interface = none; assigned_ips = [] })) _
            (load_interfaces-Keeping netifs _)
            λ loaded. elim (Option-cases loaded.interface) [
              | inl missing ↦ rw missing (λ log w e. e)
              | inr (interface, p) ↦ rw p (λ log w e. e)
            ]

  module _ (services : Services) where
    pub update-Keeps :
        (interface : Interface) (cs : List IpConfiguration)
        → Keeps (update services azure interface cs)
    unfolding update
    update-Keeps interface cs =
        >>=-Keeping (lift (get_resource_group_from_resource_id interface.id)) _ (λ log w e. e)
          λ group. >>=-Keeping (write services _) _ (write-Keeps services _) (λ u log w e. e)

    module _ (instances : Map VirtualMachine) where
      pub remove_all_of-Keeps : (name : Text) → Keeps (remove_all_of services azure instances name)
      unfolding remove_all_of
      remove_all_of-Keeps name =
          >>=-Keeping (load_node azure instances name) _ (load_node-Keeping instances name)
            (λ loaded. update-Keeps loaded.0 (primary_only loaded.0.ip_configurations))

      pub remove_all_azure_secondary_ips-Keeps :
          (d : Deps)
          → IsLawful d
          → (rc : ReconcileContext)
          → Keeps (remove_all_azure_secondary_ips d services azure instances rc)
      unfolding remove_all_azure_secondary_ips
      remove_all_azure_secondary_ips-Keeps d lawful rc =
          schedule-Keeps d lawful (remove_all_of services azure instances) (keys rc.selected_nodes)
            (λ x _. remove_all_of-Keeps x)
