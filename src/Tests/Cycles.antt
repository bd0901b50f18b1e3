-- ===== src/Tests/Cycles.antt =====
-- The theorems on a reconcile cycle and on its loops, at the small cluster.
use egressip_ipam_operator.Prelude.{
  ◌≡◌, ◌↔◌, ◌⊎◌, refl, true, some, List, [], ◌∷◌, ◌++◌, Text, codes, Elem, All, inl, inr,
}
use egressip_ipam_operator.Go.Results.{ok}
use egressip_ipam_operator.Go.Strings.{split}
use egressip_ipam_operator.Api.{EgressIpam, Namespace, HostSubnet}
use egressip_ipam_operator.Context.{ReconcileContext}
use egressip_ipam_operator.Effects.{
  Log, Services, update_namespace, update_host_subnet, update_net_namespace,
}
use egressip_ipam_operator.Infra.BareMetal.{bare_metal_infra}
use egressip_ipam_operator.Namespaces.{
  without_ips, remove_namespace_assigned_ips, get_referring_namespaces,
}
use egressip_ipam_operator.Nodes.{get_all_nodes, get_selected_nodes}
use egressip_ipam_operator.NetNamespaces.{
  reconcile_net_namespaces, remove_net_namespace_assigned_ips, get_all_net_namespaces,
}
use egressip_ipam_operator.NetNamespaces.Written.{with_egress_ips, reconcile_net_namespaces-Writes}
use egressip_ipam_operator.HostSubnets.{
  reconcile_hs_assigned_ips, remove_host_subnet_assigned_ips_and_cidrs, get_all_host_subnets,
}
use egressip_ipam_operator.HostSubnets.Written.{
  final_ips, with_ips, reconcile_hs_assigned_ips-Writes,
}
use egressip_ipam_operator.Ipam.Buckets.{Buckets, get_min_key}
use egressip_ipam_operator.Ipam.Buckets.Least.{IsMinKey, get_min_key-IsMinKey}
use egressip_ipam_operator.Ipam.Nodes.{Loads, place_all}
use egressip_ipam_operator.Ipam.Nodes.Placed.{HasNode, Placed, place_all-Placed}
use egressip_ipam_operator.Reconcile.{clean_up, reconcile, controller_name}
use egressip_ipam_operator.Reconcile.Load.{is_cloud_infrastructure, load_reconcile_context}
use egressip_ipam_operator.Reconcile.Validity.{is_valid}
use egressip_ipam_operator.Reconcile.Validity.Accepts.{IsAssignable, is_valid_iff}
use egressip_ipam_operator.Reconcile.CleanUp.{IsCleanedUp, clean_up-IsCleanedUp}
use egressip_ipam_operator.NamespaceController.{clean_up_namespace_and_net_namespace}
use egressip_ipam_operator.NamespaceController.CleanedUp.{namespace_write, clean_up_namespace-eq-ok}
use egressip_ipam_operator.Prelude.{◌++◌}
use egressip_ipam_operator.Tests.Cluster.{
  cidr, ipam, context, services, subnet, opted_in, with_address, running,
}
use egressip_ipam_operator.Tests.Reference.{is_equal, reference, reference-IsLawful}

acting : Unit {0}
unfolding running clean_up remove_namespace_assigned_ips remove_net_namespace_assigned_ips
    remove_host_subnet_assigned_ips_and_cidrs is_cloud_infrastructure reconcile_net_namespaces
    reconcile_hs_assigned_ips is_equal get_referring_namespaces reconcile is_valid
    load_reconcile_context get_all_nodes get_all_host_subnets get_all_net_namespaces
    get_selected_nodes
acting = tt

-- Two nodes without an address, and one with one.
abbrev buckets : Buckets
buckets = (1, codes "n3" ∷ []) ∷ (0, codes "n1" ∷ codes "n2" ∷ []) ∷ []

buckets-HasNode : HasNode buckets
unfolding acting
buckets-HasNode = record {
  nodup = ((λ e. elim e [ inl p ↦ cc | inr z ↦ z ]), ((λ e. e), tt));
  number = 1;
  node = codes "n3";
  nodes = [];
  here = refl;
}

abbrev loads : Loads
loads = record { ips_by_node = (codes "n3", codes "10.0.0.1" ∷ []) ∷ []; buckets = buckets }

abbrev two : List Text
two = codes "10.0.0.2" ∷ codes "10.0.0.4" ∷ []

place_all-Placed_example :
    (loads' : Loads) × (place_all cidr two loads ≡ ok loads')
    × Placed loads.ips_by_node two loads'.ips_by_node
place_all-Placed_example = place_all-Placed cidr two loads buckets-HasNode

get_min_key-IsMinKey_example : IsMinKey buckets (get_min_key buckets)
get_min_key-IsMinKey_example = get_min_key-IsMinKey buckets buckets-HasNode.nodup

-- What the clean-up writes.
abbrev cleaned : Log
cleaned =
    update_namespace (without_ips (with_address (codes "a") (codes "10.0.0.1")))
    ∷ update_host_subnet (subnet (codes "n1") (codes "10.0.0.5") [])
    ∷ update_host_subnet (subnet (codes "n2") (codes "10.0.1.5") [])
    ∷ []

clean_up-IsCleanedUp_example : IsCleanedUp bare_metal_infra context cleaned
unfolding acting
clean_up-IsCleanedUp_example =
    clean_up-IsCleanedUp reference reference-IsLawful services bare_metal_infra context [] tt _
      (λ log w e. e) refl

reconcile_net_namespaces-Writes_example :
    Elem
      (update_net_namespace (
        with_egress_ips context
          (with_address (codes "b") (codes "10.0.0.2"))
          (split b',' (codes "10.0.0.2"))))
      (reconcile_net_namespaces reference services context []).1
unfolding acting
reconcile_net_namespaces-Writes_example =
    reconcile_net_namespaces-Writes reference reference-IsLawful services context
      (with_address (codes "b") (codes "10.0.0.2")) (codes "10.0.0.2") [] tt (inr (inl refl)) refl
      refl

abbrev assigned : ReconcileContext
assigned = record context { finally_assigned_ips_by_node = (codes "n1", two) ∷ [] }

abbrev subnet_n1 : HostSubnet
subnet_n1 = subnet (codes "n1") (codes "10.0.0.5") []

reconcile_hs_assigned_ips-Writes_example :
    ((k : Text) → Elem k (final_ips assigned (codes "n1")) ↔ Elem k subnet_n1.egress_ips)
    ⊎ Elem
        (update_host_subnet (with_ips subnet_n1 (final_ips assigned (codes "n1"))))
        (reconcile_hs_assigned_ips reference services assigned []).1
unfolding acting
reconcile_hs_assigned_ips-Writes_example =
    reconcile_hs_assigned_ips-Writes reference reference-IsLawful services assigned (codes "n1")
      subnet_n1 [] tt (inl refl) refl

is_valid_iff_example : (is_valid ipam ≡ ok tt) ↔ All IsAssignable ipam.cidr_assignments
is_valid_iff_example = is_valid_iff ipam

abbrev namespaces : List Namespace
namespaces = with_address (codes "a") (codes "10.0.0.1") ∷ opted_in (codes "b") ∷ []

abbrev listing : Services
listing = record services { list_namespaces = λ log. ok namespaces }

abbrev deleted : EgressIpam
deleted = record ipam { finalizers = controller_name ∷ []; being_deleted = true }

abbrev deleting : Services
deleting = record services { get_egress_ipam = λ log name. ok (some deleted) }

clean_up_namespace-eq-ok_example :
    update_net_namespace (record { name = codes "a"; egress_ips = [] })
      ∷ update_namespace (without_ips (with_address (codes "a") (codes "10.0.0.1")))
      ∷ []
    ≡ []
      ++ update_net_namespace (record { name = codes "a"; egress_ips = [] })
        ∷ namespace_write (with_address (codes "a") (codes "10.0.0.1"))
unfolding acting clean_up_namespace_and_net_namespace
clean_up_namespace-eq-ok_example =
    clean_up_namespace-eq-ok services (with_address (codes "a") (codes "10.0.0.1"))
      (record { name = codes "a"; egress_ips = [] }) [] _ tt refl refl
