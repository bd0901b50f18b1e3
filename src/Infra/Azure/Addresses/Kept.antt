-- ===== src/Infra/Azure/Addresses/Kept.antt =====
-- reconcileAzureAssignedIPs of controllers/egressipam/azure/azure.go: it takes no write back
use egressip_ipam_operator.Prelude.{List, Text}
use egressip_ipam_operator.Deps.{Deps, IsLawful}
use egressip_ipam_operator.Go.Maps.{Map}
use egressip_ipam_operator.Context.{ReconcileContext}
use egressip_ipam_operator.Network.{VirtualMachine}
use egressip_ipam_operator.Effects.{Services, lift}
use egressip_ipam_operator.Effects.Goroutines.{Keeps, schedule-Keeps}
use egressip_ipam_operator.Effects.Chains.{>>=-Keeping}
use egressip_ipam_operator.Infra.Azure.{Azure}
use egressip_ipam_operator.Infra.Azure.Addresses.{
  load_node, with_ips, get_load_balancer_pools, remove_unneeded_of, add_needed_of,
  remove_unneeded_azure_assigned_ips, add_needed_azure_assigned_ips, reconcile_azure_assigned_ips,
}
use egressip_ipam_operator.Infra.Azure.Addresses.Removed.{load_node-Keeping, update-Keeps}

module _ (d : Deps) (lawful : IsLawful d) (services : Services) (azure : Azure)
    (instances : Map VirtualMachine) (rc : ReconcileContext) where
  remove-Keeps : (x : Text × List Text) → Keeps (remove_unneeded_of d services azure instances x)
  unfolding remove_unneeded_of
  remove-Keeps (name, ips) =
      >>=-Keeping (load_node azure instances name) _ (load_node-Keeping azure instances name)
        λ loaded. update-Keeps azure services loaded.0 _

  add-Keeps : (x : Text × List Text) → Keeps (add_needed_of d services azure instances rc x)
  unfolding add_needed_of
  add-Keeps (name, ips) =
      >>=-Keeping (load_node azure instances name) _ (load_node-Keeping azure instances name)
        λ loaded.
          >>=-Keeping (lift (get_load_balancer_pools rc.egress_ipam loaded.0)) _ (λ log w e. e)
            λ pools.
              >>=-Keeping
                (lift (with_ips pools (d.difference ips loaded.1) loaded.0.ip_configurations)) _
                (λ log w e. e) λ configurations. update-Keeps azure services loaded.0 configurations

  pub reconcile_azure_assigned_ips-Keeps :
      Keeps (reconcile_azure_assigned_ips d services azure instances rc)
  unfolding reconcile_azure_assigned_ips remove_unneeded_azure_assigned_ips
      add_needed_azure_assigned_ips
  reconcile_azure_assigned_ips-Keeps =
      >>=-Keeping (remove_unneeded_azure_assigned_ips d services azure instances rc) _
        (schedule-Keeps d lawful (remove_unneeded_of d services azure instances)
          rc.finally_assigned_ips_by_node (λ x _. remove-Keeps x))
        (λ _.
          schedule-Keeps d lawful (add_needed_of d services azure instances rc)
            rc.finally_assigned_ips_by_node (λ x _. add-Keeps x))
