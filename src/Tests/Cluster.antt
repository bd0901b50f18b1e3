-- ===== src/Tests/Cluster.antt =====
-- A small cluster: one EgressIPAM with a CIDR of eight addresses, two nodes and three namespaces.
use egressip_ipam_operator.Prelude.{
  ◌≡◌, refl, none, some, true, false, List, [], ◌∷◌, Text, text_eq, codes,
}
use egressip_ipam_operator.Go.Results.{ok}
use egressip_ipam_operator.Api.{
  CidrAssignment, EgressIpam, Namespace, HostSubnet, Node, other, namespace_annotation,
  namespace_association_annotation,
}
use egressip_ipam_operator.Context.{ReconcileContext}
use egressip_ipam_operator.Effects.{Services}
use egressip_ipam_operator.Infra.BareMetal.{bare_metal_infra}
use egressip_ipam_operator.Ipam.Namespaces.{
  assign_ips_to_namespaces, get_next_available_ips, with_ips,
}
use egressip_ipam_operator.Ipam.Next.{get_next_available_ip}
use egressip_ipam_operator.Ipam.Pool.{sort_ips}
use egressip_ipam_operator.Ipam.Buckets.{get_min_key, bucket, set_bucket}
use egressip_ipam_operator.Ipam.Nodes.{assign_ips_to_nodes}
use egressip_ipam_operator.Namespaces.{sort_ips_by_cidr}
use egressip_ipam_operator.Nodes.{get_nodes_ips_by_cidr, ready_node}
use egressip_ipam_operator.Go.Net.{parse_cidr, print_ip, contains, parse_octet, print_octet, dtoi}
use egressip_ipam_operator.Go.Maps.{get, put}
use egressip_ipam_operator.Go.Strings.{split, join}
use egressip_ipam_operator.Tests.Sets.{dedup}
use egressip_ipam_operator.Tests.Reference.{reference, difference, intersection}

abbrev pub cidr : Text
cidr = codes "10.0.0.0/29"

abbrev pub assignment : CidrAssignment
assignment = record {
  cidr = cidr;
  label_value = codes "zone-a";
  reserved_ips = codes "10.0.0.3" ∷ [];
}

abbrev pub ipam : EgressIpam
ipam = record {
  name = codes "ipam";
  annotations = [];
  finalizers = [];
  being_deleted = false;
  cidr_assignments = assignment ∷ [];
  topology_label = codes "zone";
  node_selector = ok (λ labels. true);
}

abbrev pub ready : Text → Node
ready name = record {
  name = name;
  labels = (codes "zone", codes "zone-a") ∷ [];
  annotations = [];
  provider_id = [];
  conditions = record { type = codes "Ready"; status = codes "True" } ∷ [];
}

abbrev pub subnet : Text → Text → List Text → HostSubnet
subnet name ip ips = record { name = name; host_ip = ip; egress_ips = ips; egress_cidrs = [] }

abbrev pub opted_in : Text → Namespace
opted_in name = record { name = name; annotations = (namespace_annotation, codes "ipam") ∷ [] }

abbrev pub with_address : Text → Text → Namespace
with_address name ip = record {
  name = name;
  annotations = (namespace_annotation, codes "ipam") ∷ (namespace_association_annotation, ip) ∷ [];
}

abbrev pub nodes : List Node
nodes = ready (codes "n1") ∷ ready (codes "n2") ∷ []

abbrev pub context : ReconcileContext
context = record {
  infrastructure = other;
  cloud_credentials_secret = [];
  egress_ipam = ipam;
  cidrs = cidr ∷ [];
  net_cidr_by_cidr = (cidr, record { ip = 167772160; ones = 29 }) ∷ [];
  cidrs_by_label = (codes "zone-a", cidr) ∷ [];
  reserved_ips_by_cidr = (cidr, 167772163 ∷ []) ∷ [];
  all_nodes = (codes "n1", ready (codes "n1")) ∷ (codes "n2", ready (codes "n2")) ∷ [];
  all_host_subnets =
      (codes "n1", subnet (codes "n1") (codes "10.0.0.5") [])
      ∷ (codes "n2", subnet (codes "n2") (codes "10.0.1.5") [])
      ∷ [];
  selected_nodes = (codes "n1", ready (codes "n1")) ∷ (codes "n2", ready (codes "n2")) ∷ [];
  selected_nodes_by_cidr = (cidr, codes "n1" ∷ codes "n2" ∷ []) ∷ [];
  selected_host_subnets =
      (codes "n1", subnet (codes "n1") (codes "10.0.0.5") [])
      ∷ (codes "n2", subnet (codes "n2") (codes "10.0.1.5") [])
      ∷ [];
  selected_host_subnets_by_cidr = (cidr, codes "n1" ∷ codes "n2" ∷ []) ∷ [];
  referring_namespaces = [];
  initially_assigned_namespaces = with_address (codes "a") (codes "10.0.0.1") ∷ [];
  unassigned_namespaces = opted_in (codes "b") ∷ opted_in (codes "c") ∷ [];
  net_namespaces = [];
  initially_assigned_ips_by_node = [];
  used_ips_by_cidr = [];
  finally_assigned_namespaces =
      with_address (codes "a") (codes "10.0.0.1")
      ∷ with_address (codes "b") (codes "10.0.0.2")
      ∷ with_address (codes "c") (codes "10.0.0.4")
      ∷ [];
  finally_assigned_ips_by_node = [];
}

abbrev pub services : Services
services = record {
  answer = λ log w. none;
  list_namespaces = λ log. ok [];
  list_nodes = λ log. ok nodes;
  list_host_subnets = λ log. ok [];
  list_net_namespaces = λ log. ok [];
  list_egress_ipams = λ log. ok (ipam ∷ []);
  get_egress_ipam = λ log name. ok (some ipam);
  get_namespace = λ log name. ok (opted_in name);
  get_net_namespace = λ log name. ok (record { name = name; egress_ips = [] });
  get_operator_namespace = λ log. ok (codes "operator");
  get_secret = λ log name namespace. ok [];
  get_credentials_request = λ log name namespace. ok none;
  manage_error = λ instance' e log. e;
  manage_success = λ instance' log. ok tt;
}

unfoldable pub running : Unit {0}
unfolding assign_ips_to_namespaces assign_ips_to_nodes sort_ips_by_cidr get_nodes_ips_by_cidr
    parse_cidr parse_octet print_octet dtoi print_ip contains get put split join dedup
    bare_metal_infra text_eq get_next_available_ips get_next_available_ip sort_ips with_ips
    difference intersection get_min_key ready_node bucket set_bucket namespace_annotation
    namespace_association_annotation
running = tt

-- The reserved address and the address of a node are passed over.
two_assigned :
    (assign_ips_to_namespaces reference services bare_metal_infra context []).0
    ≡ ok (
        with_address (codes "b") (codes "10.0.0.2")
        ∷ with_address (codes "c") (codes "10.0.0.4")
        ∷ [])
unfolding running
two_assigned = refl

by_node :
    assign_ips_to_nodes reference context
    ≡ ok (
        (codes "n1", codes "10.0.0.1" ∷ codes "10.0.0.4" ∷ [])
        ∷ (codes "n2", codes "10.0.0.2" ∷ [])
        ∷ [])
unfolding running
by_node = refl
