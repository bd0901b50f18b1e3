-- ===== src/Reconcile/Load.antt =====
-- loadReconcileContext of controllers/egressipam/egressipam_controller.go
pub mod Established
pub mod Kept
pub mod Provided
use egressip_ipam_operator.Prelude.{
  Bool, true, false, Option, none, some, List, [], ◌∷◌, ◌++◌, Text, codes, if◌then◌else◌,
}
use egressip_ipam_operator.Deps.{Deps}
use egressip_ipam_operator.Go.Results.{Result, ok, err, bad_cidr, bad_ip, ◌>>=◌ as ◌>>=ᴿ◌}
use egressip_ipam_operator.Go.Maps.{Map, keys, get, put, get_or_zero}
use egressip_ipam_operator.Go.Net.{Ip, IpNet, parse_ip, parse_cidr}
use egressip_ipam_operator.Api.{
  CidrAssignment, EgressIpam, HostSubnet, NetNamespace, Node, Platform, aws, azure, gcp, other,
}
use egressip_ipam_operator.Context.{ReconcileContext}
use egressip_ipam_operator.Effects.{Log, Action, Services, pure, lift, reads, ◌>>=◌}
use egressip_ipam_operator.Infra.{Infra}
use egressip_ipam_operator.Infra.BareMetal.{bare_metal_infra}
use egressip_ipam_operator.Infra.Aws.{Ec2}
use egressip_ipam_operator.Infra.Aws.Client.{new_aws_infra}
use egressip_ipam_operator.Infra.Azure.{Azure}
use egressip_ipam_operator.Infra.Azure.Client.{AzureCredentials, new_azure_infra}
use egressip_ipam_operator.Namespaces.{Referring, get_referring_namespaces}
use egressip_ipam_operator.Nodes.{get_all_nodes, get_selected_nodes}
use egressip_ipam_operator.NetNamespaces.{get_all_net_namespaces}
use egressip_ipam_operator.HostSubnets.{get_all_host_subnets}

-- isCloudInfrastructure
unfoldable pub is_cloud_infrastructure : Platform → Bool
is_cloud_infrastructure aws = true
is_cloud_infrastructure azure = true
is_cloud_infrastructure gcp = true
is_cloud_infrastructure other = false

-- What makes the clients: GetDirectClientWithSchemeBuilders, and the libraries of the clouds.
pub record Clouds : Type 0 where
  pub direct_client : Log → Result (Unit {0})
  pub ec2 : Text → Text → Ec2
  pub azure : AzureCredentials → Result Azure

unfoldable pub new_infra : Deps → Services → Clouds → ReconcileContext → Action Infra
unfolding new_aws_infra new_azure_infra
new_infra d services clouds rc = elim rc.infrastructure [
  | aws ↦ reads clouds.direct_client >>= λ _. new_aws_infra d services clouds.ec2 rc
  | azure ↦ reads clouds.direct_client >>= λ _. new_azure_infra d services clouds.azure rc
  | _ ↦ pure bare_metal_infra
]

-- What the loop over the CIDR assignments builds.
pub record Cidrs : Type 0 where
  pub cidrs : List Text
  pub cidrs_by_label : Map Text
  pub reserved_ips_by_cidr : Map (List Ip)
  pub net_cidr_by_cidr : Map IpNet

unfoldable pub parse_reserved : List Text → Result (List Ip)
parse_reserved [] = ok []
parse_reserved (ipstr ∷ ipstrs) = elim (parse_ip ipstr) [
  | none ↦ err (bad_ip ipstr)
  | some ip ↦ parse_reserved ipstrs >>=ᴿ λ ips. ok (ip ∷ ips)
]

unfoldable pub load_cidrs : List CidrAssignment → Cidrs → Result Cidrs
unfolding parse_reserved
load_cidrs [] c = ok c
load_cidrs (assignment ∷ assignments) c = parse_reserved assignment.reserved_ips >>=ᴿ λ ips.
    elim (parse_cidr assignment.cidr) [
      | none ↦ err (bad_cidr assignment.cidr)
      | some (_, net) ↦ load_cidrs assignments (record {
        cidrs = c.cidrs ++ assignment.cidr ∷ [];
        cidrs_by_label = put c.cidrs_by_label assignment.label_value assignment.cidr;
        reserved_ips_by_cidr = put c.reserved_ips_by_cidr assignment.cidr ips;
        net_cidr_by_cidr = put c.net_cidr_by_cidr assignment.cidr net;
      })
    ]

abbrev pub no_cidrs : Cidrs
no_cidrs = record {
  cidrs = [];
  cidrs_by_label = [];
  reserved_ips_by_cidr = [];
  net_cidr_by_cidr = [];
}

unfoldable pub select_host_subnets :
    Map Node → Map HostSubnet → List Text → Map HostSubnet → Map HostSubnet
select_host_subnets selected all [] m = m
select_host_subnets selected all (name ∷ names) m =
    select_host_subnets selected all names (elim (get all name) [
      | none ↦ m
      | some hostsubnet ↦ elim (get selected name) [ none ↦ m | some _ ↦ put m name hostsubnet ]
    ])

abbrev cidr_of : EgressIpam → Map Text → Node → Option Text
cidr_of egress_ipam cidrs_by_label node = elim (get node.labels egress_ipam.topology_label) [
  | none ↦ none
  | some value ↦ get cidrs_by_label value
]

-- selectedNodesByCIDR, and selectedHostSubnetsByCIDR, which is the same map
unfoldable pub nodes_by_cidr :
    EgressIpam → Map Text → Map Node → List Text → Map (List Text) → Map (List Text)
nodes_by_cidr egress_ipam cidrs_by_label selected [] m = m
nodes_by_cidr egress_ipam cidrs_by_label selected (name ∷ names) m =
    nodes_by_cidr egress_ipam cidrs_by_label selected names (elim (get selected name) [
      | none ↦ m
      | some node ↦ elim (cidr_of egress_ipam cidrs_by_label node) [
        | none ↦ m
        | some cidr ↦ put m cidr (get_or_zero [] m cidr ++ name ∷ [])
      ]
    ])

-- The context with the `Infra` that the source keeps in it.
pub record Loaded : Type 0 where
  pub rc : ReconcileContext
  pub infra : Infra

abbrev pub credentials_secret_name : Text
credentials_secret_name = codes "egress-ipam-operator-cloud-credentials"

-- GetCredentialSecret
unfoldable pub get_credential_secret : Services → Action (Map Text)
get_credential_secret services = do
  namespace ← reads services.get_operator_namespace
  reads (λ log. services.get_secret log credentials_secret_name namespace)

abbrev pub credentials : Services → Platform → Action (Map Text)
credentials services platform =
    if is_cloud_infrastructure platform then get_credential_secret services else pure []

-- The context with what the four lists have given.
abbrev pub listed :
    Platform
    → Map Text
    → EgressIpam
    → Cidrs
    → Map Node
    → Map HostSubnet
    → Referring
    → Map NetNamespace
    → ReconcileContext
listed platform secret egress_ipam c all_nodes all_host_subnets namespaces net_namespaces = record {
  infrastructure = platform;
  cloud_credentials_secret = secret;
  egress_ipam = egress_ipam;
  cidrs = c.cidrs;
  net_cidr_by_cidr = c.net_cidr_by_cidr;
  cidrs_by_label = c.cidrs_by_label;
  reserved_ips_by_cidr = c.reserved_ips_by_cidr;
  all_nodes = all_nodes;
  all_host_subnets = all_host_subnets;
  selected_nodes = [];
  selected_nodes_by_cidr = [];
  selected_host_subnets = [];
  selected_host_subnets_by_cidr = [];
  referring_namespaces = namespaces.referring_namespaces;
  initially_assigned_namespaces = namespaces.assigned_namespaces;
  unassigned_namespaces = namespaces.unassigned_namespaces;
  net_namespaces = net_namespaces;
  initially_assigned_ips_by_node = [];
  used_ips_by_cidr = [];
  finally_assigned_namespaces = [];
  finally_assigned_ips_by_node = [];
}

-- The context with the selected nodes and host subnets.
abbrev pub with_selected : Deps → ReconcileContext → Map Node → ReconcileContext
with_selected d rc selected =
    let by_cidr =
      nodes_by_cidr rc.egress_ipam rc.cidrs_by_label selected (d.range (keys selected)) [] in
    record rc {
      selected_nodes = selected;
      selected_host_subnets =
          select_host_subnets selected rc.all_host_subnets (d.range (keys rc.all_host_subnets)) [];
      selected_nodes_by_cidr = by_cidr;
      selected_host_subnets_by_cidr = by_cidr;
    }

-- loadReconcileContext. The four lists are read by goroutines that only read and that each fill
-- fields of their own; their order does not show, and of several errors the first one is kept.
unfoldable pub load_reconcile_context :
    Deps → Services → Clouds → Platform → EgressIpam → Action Loaded
unfolding get_credential_secret load_cidrs select_host_subnets nodes_by_cidr new_infra
    is_cloud_infrastructure
load_reconcile_context d services clouds platform egress_ipam = do
  secret ← credentials services platform
  c ← lift (load_cidrs egress_ipam.cidr_assignments no_cidrs)
  all_nodes ← get_all_nodes services
  all_host_subnets ← get_all_host_subnets services
  namespaces ← get_referring_namespaces services egress_ipam
  net_namespaces ← get_all_net_namespaces services
  let read =
      listed platform secret egress_ipam c all_nodes all_host_subnets namespaces net_namespaces
  selected ← lift (get_selected_nodes d read)
  let rc = with_selected d read selected
  infra ← new_infra d services clouds rc
  used ← infra.get_used_ips_by_cidr rc
  pure (record { rc = record rc { used_ips_by_cidr = used }; infra = infra })
