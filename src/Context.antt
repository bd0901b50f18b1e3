-- ===== src/Context.antt =====
-- controllers/egressipam/reconcilecontext/reconcile_context.go: what is known in one reconcile cycle.
-- The context's `Infra` is passed beside it, since its methods take the context.
use egressip_ipam_operator.Prelude.{List, Text}
use egressip_ipam_operator.Go.Maps.{Map}
use egressip_ipam_operator.Go.Net.{Ip, IpNet}
use egressip_ipam_operator.Api.{EgressIpam, Namespace, NetNamespace, HostSubnet, Node, Platform}

pub record ReconcileContext : Type 0 where
  pub infrastructure : Platform
  pub cloud_credentials_secret : Map Text
  pub egress_ipam : EgressIpam
  pub cidrs : List Text
  pub net_cidr_by_cidr : Map IpNet
  pub cidrs_by_label : Map Text
  pub reserved_ips_by_cidr : Map (List Ip)
  pub all_nodes : Map Node
  pub all_host_subnets : Map HostSubnet
  pub selected_nodes : Map Node
  pub selected_nodes_by_cidr : Map (List Text)
  pub selected_host_subnets : Map HostSubnet
  pub selected_host_subnets_by_cidr : Map (List Text)
  pub referring_namespaces : Map Namespace
  pub initially_assigned_namespaces : List Namespace
  pub unassigned_namespaces : List Namespace
  pub net_namespaces : Map NetNamespace
  pub initially_assigned_ips_by_node : Map (List Text)
  pub used_ips_by_cidr : Map (List Ip)
  pub finally_assigned_namespaces : List Namespace
  pub finally_assigned_ips_by_node : Map (List Text)
