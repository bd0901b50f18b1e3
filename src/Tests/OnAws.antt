-- ===== src/Tests/OnAws.antt =====
-- The theorems on a cycle, on the gauges and on the capacities, at a cluster on AWS.
use egressip_ipam_operator.Prelude.{
  ◌≡◌, ◌<◌, ◌^◌, refl, [], ◌∷◌, codes, Text, map, true, some, ◌++◌,
}
use egressip_ipam_operator.Go.Results.{ok}
use egressip_ipam_operator.Api.{Node, aws, EgressIpam}
use egressip_ipam_operator.Infra.Aws.Capacity.{get_aws_ip_capacity}
use egressip_ipam_operator.Infra.Aws.Capacity.Cached.{get_aws_ip_capacity-IsCached}
use egressip_ipam_operator.Tests.Clouds.{ec2, instances, clouds}
use egressip_ipam_operator.Tests.Cluster.{
  ready, running, context, ipam, services, subnet, with_address,
}
use egressip_ipam_operator.Metrics.{Gauges, update_metrics}
use egressip_ipam_operator.Metrics.Measured.{IsMeasured, update_metrics-IsMeasured}
use egressip_ipam_operator.Infra.Aws.{Instance, get_aws_id_from_provider_id, get_aws_instances}
use egressip_ipam_operator.Infra.Aws.Client.{aws_infra, get_aws_credentials}
use egressip_ipam_operator.Infra.Aws.Secondary.{remove_all_aws_assigned_ips}
use egressip_ipam_operator.Infra.Aws.Used.{get_aws_used_ips}
use egressip_ipam_operator.Reconcile.Load.{
  Clouds, Loaded, is_cloud_infrastructure, load_reconcile_context,
}
use egressip_ipam_operator.Effects.{
  unassign_private_ips, Log, Services, update_namespace, update_egress_ipam, update_host_subnet,
  update_net_namespace,
}
use egressip_ipam_operator.Context.{ReconcileContext}
use egressip_ipam_operator.Namespaces.{
  without_ips, remove_namespace_assigned_ips, get_referring_namespaces,
}
use egressip_ipam_operator.Nodes.{get_all_nodes, get_selected_nodes, get_assigned_ips_by_node}
use egressip_ipam_operator.NetNamespaces.{
  reconcile_net_namespaces, remove_net_namespace_assigned_ips, get_all_net_namespaces,
}
use egressip_ipam_operator.HostSubnets.{
  get_all_host_subnets, remove_host_subnet_assigned_ips_and_cidrs,
}
use egressip_ipam_operator.Reconcile.{reconcile, controller_name, without_finalizer}
use egressip_ipam_operator.Reconcile.Validity.{is_valid}
use egressip_ipam_operator.Reconcile.CleanUp.{IsCleanedUp}
use egressip_ipam_operator.Reconcile.Finalizer.Cleared.{IsCleared}
use egressip_ipam_operator.Reconcile.Finalizer.Cleaned.{reconcile-IsCleanedUp}
use egressip_ipam_operator.Tests.Reference.{is_equal, reference, reference-IsLawful}
use egressip_ipam_operator.Reconcile.Cycle.Loaded.{Cycle, reconcile-Cycle}
use egressip_ipam_operator.Tests.Cluster.{opted_in}
use egressip_ipam_operator.HostSubnets.{reconcile_hs_assigned_ips}
use egressip_ipam_operator.Prelude.{is_among}
use egressip_ipam_operator.Effects.{assign_private_ips}
use egressip_ipam_operator.Infra.Aws.{interface_of}
use egressip_ipam_operator.Infra.Aws.Secondary.{secondary_ips, reconcile_aws_secondary_ips}

acting : Unit {0}
unfolding running is_cloud_infrastructure reconcile_net_namespaces is_equal get_referring_namespaces
    reconcile is_valid load_reconcile_context get_all_nodes get_all_host_subnets
    get_all_net_namespaces get_selected_nodes get_assigned_ips_by_node remove_namespace_assigned_ips
    remove_net_namespace_assigned_ips remove_host_subnet_assigned_ips_and_cidrs update_metrics
    aws_infra get_aws_ip_capacity get_aws_used_ips remove_all_aws_assigned_ips
    get_aws_id_from_provider_id get_aws_credentials get_aws_instances reconcile_hs_assigned_ips
    is_among interface_of secondary_ips reconcile_aws_secondary_ips
acting = tt

abbrev large : Node
large = record (ready (codes "n1")) {
  labels = (codes "beta.kubernetes.io/instance-type", codes "m5.large") ∷ [];
}

get_aws_ip_capacity-IsCached_example :
    (10 < 2 ^ 32)
    × (get_aws_ip_capacity ec2 [] large ((codes "m5.large", 10) ∷ [])
        ≡ (ok 10, (codes "m5.large", 10) ∷ []))
unfolding running get_aws_ip_capacity
get_aws_ip_capacity-IsCached_example =
    get_aws_ip_capacity-IsCached ec2 ec2 [] [] large [] 10 ((codes "m5.large", 10) ∷ []) refl

abbrev measured : ReconcileContext
measured = record context {
  all_nodes = (codes "n1", large) ∷ (codes "n2", ready (codes "n2")) ∷ (codes "n3", large) ∷ [];
  finally_assigned_ips_by_node = (codes "n1", codes "10.0.0.1" ∷ []) ∷ (codes "n2", []) ∷ [];
}

-- The second node has no label of an instance type; the type of the third one is in the cache.
abbrev gauges : Gauges
gauges = record {
  ip_allocated = (codes "ipam", (codes "n1", 2) ∷ (codes "n2", 1) ∷ []) ∷ [];
  ip_capacity = (codes "ipam", (codes "n1", 10) ∷ (codes "n2", 0) ∷ (codes "n3", 10) ∷ []) ∷ [];
}

abbrev unset : Gauges
unset = record { ip_allocated = []; ip_capacity = [] }

update_metrics-IsMeasured_example :
    IsMeasured reference
      (aws_infra reference services ec2 instances)
      []
      measured
      (codes "ipam")
      []
      unset
      gauges
unfolding acting
update_metrics-IsMeasured_example =
    update_metrics-IsMeasured reference reference-IsLawful
      (aws_infra reference services ec2 instances) [] measured (codes "ipam") unset [] gauges
      ((codes "m5.large", 10) ∷ []) refl

abbrev deleted : EgressIpam
deleted = record ipam { finalizers = controller_name ∷ []; being_deleted = true }

abbrev on_instance : Text → Text → Node
on_instance name id = record (ready name) { provider_id = id }

abbrev deleting : Services
deleting = record services {
  list_nodes = λ log. ok (
      on_instance (codes "n1") (codes "aws:///i-1")
      ∷ on_instance (codes "n2") (codes "aws:///i-2")
      ∷ []);
  list_namespaces = λ log. ok (with_address (codes "a") (codes "10.0.0.1") ∷ []);
  list_host_subnets = λ log. ok (subnet (codes "n1") (codes "10.0.0.5") [] ∷ []);
  list_net_namespaces = λ log. ok (record { name = codes "a"; egress_ips = [] } ∷ []);
  get_egress_ipam = λ log name. ok (some deleted);
  get_secret = λ log name namespace.
      ok (
        (codes "aws_access_key_id", codes "id")
        ∷ (codes "aws_secret_access_key", codes "key")
        ∷ []);
}

abbrev described : Clouds
described = record clouds {
  ec2 = λ id key. record ec2 {
    describe_instances = λ log ids. ok (map (λ (e : Text × Instance). e.1) instances ∷ []);
  };
}

-- The two secondary addresses of the first node are taken away, and the second one has none.
abbrev cleaned : Log
cleaned =
    update_namespace (without_ips (with_address (codes "a") (codes "10.0.0.1")))
    ∷ update_net_namespace (record { name = codes "a"; egress_ips = [] })
    ∷ update_host_subnet (subnet (codes "n1") (codes "10.0.0.5") [])
    ∷ unassign_private_ips (codes "eni-1") (codes "10.0.0.2" ∷ [])
    ∷ unassign_private_ips (codes "eni-1") (codes "10.0.0.6" ∷ [])
    ∷ []

abbrev last : Log
last = update_egress_ipam (without_finalizer reference deleted) ∷ []

reconcile-IsCleanedUp_example :
    (loaded : Loaded) × (start : Log) × (mid : Log) × (load_reconcile_context reference deleting
        described aws deleted []
      ≡ (ok loaded, start))
    × IsCleanedUp loaded.infra loaded.rc mid
    × IsCleared reference deleting loaded.rc.selected_nodes mid aws loaded.infra
    × (cleaned ++ last ≡ mid ++ last)
unfolding acting
reconcile-IsCleanedUp_example =
    reconcile-IsCleanedUp reference reference-IsLawful deleting described aws (codes "ipam") []
      deleted refl refl refl refl tt _ refl

abbrev kept : EgressIpam
kept = record ipam { finalizers = controller_name ∷ [] }

abbrev managing : Services
managing = record deleting {
  list_namespaces = λ log. ok (opted_in (codes "b") ∷ []);
  list_net_namespaces = λ log. ok (record { name = codes "b"; egress_ips = [] } ∷ []);
  list_host_subnets = λ log.
      ok (
        subnet (codes "n1") (codes "10.0.0.5") [] ∷ subnet (codes "n2") (codes "10.0.1.5") [] ∷ []);
  get_egress_ipam = λ log name. ok (some kept);
}

-- The namespace gets the first address that AWS does not hold back, and its netnamespace and the first node
-- too, whose instance gives up the addresses that it carried.
abbrev written : Log
written =
    update_namespace (with_address (codes "b") (codes "10.0.0.4"))
    ∷ update_net_namespace (record { name = codes "b"; egress_ips = codes "10.0.0.4" ∷ [] })
    ∷ unassign_private_ips (codes "eni-1") (codes "10.0.0.2" ∷ codes "10.0.0.6" ∷ [])
    ∷ assign_private_ips (codes "eni-1") (codes "10.0.0.4" ∷ [])
    ∷ update_host_subnet (subnet (codes "n1") (codes "10.0.0.5") (codes "10.0.0.4" ∷ []))
    ∷ []

reconcile-Cycle_example : Cycle reference reference-IsLawful managing described aws kept [] written
unfolding acting
reconcile-Cycle_example =
    reconcile-Cycle reference reference-IsLawful managing described aws (codes "ipam") [] kept refl
      refl refl refl tt _ refl
