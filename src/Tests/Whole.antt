-- ===== src/Tests/Whole.antt =====
-- The theorems on a whole reconcile cycle, at the small cluster.
use egressip_ipam_operator.Prelude.{refl, some, [], ◌∷◌, codes}
use egressip_ipam_operator.Go.Results.{ok}
use egressip_ipam_operator.Api.{EgressIpam, other}
use egressip_ipam_operator.Context.{ReconcileContext}
use egressip_ipam_operator.Infra.BareMetal.{bare_metal_infra}
use egressip_ipam_operator.Effects.{Services}
use egressip_ipam_operator.Namespaces.{remove_namespace_assigned_ips, get_referring_namespaces}
use egressip_ipam_operator.Nodes.{get_all_nodes, get_selected_nodes, get_assigned_ips_by_node}
use egressip_ipam_operator.NetNamespaces.{
  reconcile_net_namespaces, remove_net_namespace_assigned_ips, get_all_net_namespaces,
}
use egressip_ipam_operator.HostSubnets.{
  get_all_host_subnets, remove_host_subnet_assigned_ips_and_cidrs, assign_cidrs_to_host_subnets,
}
use egressip_ipam_operator.Reconcile.{reconcile, controller_name}
use egressip_ipam_operator.Reconcile.Load.{Loaded, is_cloud_infrastructure, load_reconcile_context}
use egressip_ipam_operator.Reconcile.Load.Established.{IsLoaded, load_reconcile_context-IsLoaded}
use egressip_ipam_operator.Reconcile.Validity.{is_valid}
use egressip_ipam_operator.Tests.Clouds.{clouds}
use egressip_ipam_operator.Tests.Cluster.{cidr, context, ipam, services, subnet, opted_in, running}
use egressip_ipam_operator.Tests.Reference.{is_equal, reference}

acting : Unit {0}
unfolding running is_cloud_infrastructure reconcile_net_namespaces is_equal get_referring_namespaces
    reconcile is_valid load_reconcile_context get_all_nodes get_all_host_subnets
    get_all_net_namespaces get_selected_nodes get_assigned_ips_by_node assign_cidrs_to_host_subnets
    remove_namespace_assigned_ips remove_net_namespace_assigned_ips
    remove_host_subnet_assigned_ips_and_cidrs
acting = tt

abbrev managed : EgressIpam
managed = record ipam { finalizers = controller_name ∷ [] }

abbrev managing : Services
managing = record services {
  list_namespaces = λ log. ok (opted_in (codes "b") ∷ []);
  list_host_subnets = λ log.
      ok (
        subnet (codes "n1") (codes "10.0.0.5") [] ∷ subnet (codes "n2") (codes "10.0.1.5") [] ∷ []);
  list_net_namespaces = λ log. ok (
      record { name = codes "a"; egress_ips = [] }
      ∷ record { name = codes "b"; egress_ips = [] }
      ∷ []);
  get_egress_ipam = λ log name. ok (some managed);
}

abbrev listed_context : ReconcileContext
listed_context = record context {
  egress_ipam = managed;
  all_host_subnets = context.all_host_subnets;
  referring_namespaces = (codes "b", opted_in (codes "b")) ∷ [];
  initially_assigned_namespaces = [];
  unassigned_namespaces = opted_in (codes "b") ∷ [];
  used_ips_by_cidr = (cidr, []) ∷ [];
  net_namespaces =
      (codes "a", record { name = codes "a"; egress_ips = [] })
      ∷ (codes "b", record { name = codes "b"; egress_ips = [] })
      ∷ [];
  finally_assigned_namespaces = [];
}

abbrev loaded : Loaded
loaded = record { rc = listed_context; infra = bare_metal_infra }

load_reconcile_context-IsLoaded_example : IsLoaded reference managing clouds other managed loaded
unfolding acting
load_reconcile_context-IsLoaded_example =
    load_reconcile_context-IsLoaded reference managing clouds other managed [] loaded [] refl refl
