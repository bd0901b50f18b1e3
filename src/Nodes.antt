-- ===== src/Nodes.antt =====
-- controllers/egressipam/node.go
use egressip_ipam_operator.Prelude.{
  Bool, true, false, ◌&&◌, Option, none, some, List, [], ◌∷◌, ◌++◌, Text, codes, text_eq,
  if◌then◌else◌,
}
use egressip_ipam_operator.Deps.{Deps}
use egressip_ipam_operator.Go.Results.{Result, ok, err, panic, no_hostsubnet, ◌>>=◌}
use egressip_ipam_operator.Go.Maps.{Map, keys, get, put, get_or_zero}
use egressip_ipam_operator.Go.Net.{Ip, parse_ip, contains}
use egressip_ipam_operator.Api.{EgressIpam, CidrAssignment, Node, NodeCondition}
use egressip_ipam_operator.Context.{ReconcileContext}
use egressip_ipam_operator.Effects.{Action, Services}

unfoldable pub matching_cidr : Text → List CidrAssignment → Option Text
matching_cidr value [] = none
matching_cidr value (assignment ∷ assignments) =
    if text_eq value assignment.label_value
    then some assignment.cidr
    else matching_cidr value assignments

-- matchesNode: `none` for the result `false, ""`
unfoldable pub matches_node : EgressIpam → Node → Option Text
unfolding matching_cidr
matches_node egress_ipam node = elim (get node.labels egress_ipam.topology_label) [
  | none ↦ none
  | some value ↦ matching_cidr value egress_ipam.cidr_assignments
]

-- isCondition
unfoldable pub is_condition : List NodeCondition → Text → Text → Bool
is_condition [] type status = false
is_condition (condition ∷ conditions) type status =
    if text_eq type condition.type && text_eq status condition.status
    then true
    else is_condition conditions type status

-- isCondition(node.Status.Conditions, corev1.NodeReady, corev1.ConditionTrue)
unfoldable pub is_ready : Node → Bool
unfolding is_condition
is_ready node = is_condition node.conditions (codes "Ready") (codes "True")

-- The nodes of the map that pass a test, in the order of the loop over its keys.
unfoldable pub select_nodes : (Map Text → Bool) → Map Node → List Text → Map Node → Map Node
select_nodes matches all [] selected = selected
select_nodes matches all (name ∷ names) selected =
    select_nodes matches all names (elim (get all name) [
      | none ↦ selected
      | some node ↦ if matches node.labels then put selected name node else selected
    ])

-- getSelectedNodes
unfoldable pub get_selected_nodes : Deps → ReconcileContext → Result (Map Node)
unfolding select_nodes
get_selected_nodes d rc = rc.egress_ipam.node_selector >>= λ matches.
    ok (select_nodes matches rc.all_nodes (d.range (keys rc.all_nodes)) [])

-- `node, ok := rc.AllNodes[name]; ok && isCondition(node...)`
unfoldable pub ready_node : ReconcileContext → Text → Bool
unfolding is_ready
ready_node rc name = elim (get rc.all_nodes name) [ none ↦ false | some node ↦ is_ready node ]

unfoldable pub assigned_ips_of : ReconcileContext → List Text → Map (List Text) → Map (List Text)
unfolding ready_node
assigned_ips_of rc [] ips_by_node = ips_by_node
assigned_ips_of rc (name ∷ names) ips_by_node =
    assigned_ips_of rc names (elim (get rc.selected_host_subnets name) [
      | none ↦ ips_by_node
      | some hostsubnet ↦
          if ready_node rc name then put ips_by_node name hostsubnet.egress_ips else ips_by_node
    ])

-- getAssignedIPsByNode. (GetHostHostSubnetEgressIPsAsStrings copies the addresses as strings.)
unfoldable pub get_assigned_ips_by_node : Deps → ReconcileContext → Map (List Text)
unfolding assigned_ips_of
get_assigned_ips_by_node d rc = assigned_ips_of rc (d.range (keys rc.selected_host_subnets)) []

-- The inner loop of getNodesIPsByCIDR, over the CIDRs.
unfoldable pub sort_node_ip :
    ReconcileContext → Option Ip → List Text → Map (List Ip) → Result (Map (List Ip))
sort_node_ip rc host_ip [] ips_by_cidr = ok ips_by_cidr
sort_node_ip rc host_ip (cidr ∷ cidrs) ips_by_cidr = elim (get rc.net_cidr_by_cidr cidr) [
  | none ↦ panic
  | some net ↦ sort_node_ip rc host_ip cidrs (elim host_ip [
    | none ↦ ips_by_cidr
    | some ip ↦
        if contains net (some ip)
        then put ips_by_cidr cidr (get_or_zero [] ips_by_cidr cidr ++ ip ∷ [])
        else ips_by_cidr
  ])
]

unfoldable pub sort_node_ips : ReconcileContext → List Text → Map (List Ip) → Result (Map (List Ip))
unfolding sort_node_ip
sort_node_ips rc [] ips_by_cidr = ok ips_by_cidr
sort_node_ips rc (name ∷ names) ips_by_cidr = elim (get rc.all_host_subnets name) [
  | none ↦ err (no_hostsubnet name)
  | some hostsubnet ↦
      sort_node_ip rc (parse_ip hostsubnet.host_ip) rc.cidrs ips_by_cidr >>= sort_node_ips rc names
]

-- getNodesIPsByCIDR
unfoldable pub get_nodes_ips_by_cidr : Deps → ReconcileContext → Result (Map (List Ip))
unfolding sort_node_ips
get_nodes_ips_by_cidr d rc = sort_node_ips rc (d.range (keys rc.all_nodes)) []

unfoldable pub nodes_by_name : List Node → Map Node → Map Node
nodes_by_name [] nodes = nodes
nodes_by_name (node ∷ items) nodes = nodes_by_name items (put nodes node.name node)

-- getAllNodes
unfoldable pub get_all_nodes : Services → Action (Map Node)
unfolding nodes_by_name
get_all_nodes services log = (services.list_nodes log >>= λ items. ok (nodes_by_name items []), log)
