-- ===== src/Ipam/Nodes.antt =====
-- assignIPsToNodes of controllers/egressipam/ipam.go
pub mod Placed
use egressip_ipam_operator.Prelude.{
  ℕ, ◌+◌, none, some, List, [], ◌∷◌, ◌++◌, Text, text_eq, length, if◌then◌else◌,
}
use egressip_ipam_operator.Deps.{Deps}
use egressip_ipam_operator.Go.Results.{
  Result, ok, err, panic, bad_cidr, no_annotation, no_nodes, ◌>>=◌,
}
use egressip_ipam_operator.Go.Maps.{Map, keys, get, put, get_or_zero}
use egressip_ipam_operator.Go.Strings.{split}
use egressip_ipam_operator.Go.Net.{IpNet, parse_ip, print_ip, parse_cidr, contains}
use egressip_ipam_operator.Api.{Namespace, namespace_association_annotation}
use egressip_ipam_operator.Context.{ReconcileContext}
use egressip_ipam_operator.Namespaces.{empty_by_cidr}
use egressip_ipam_operator.Nodes.{ready_node, is_ready}
use egressip_ipam_operator.Ipam.Buckets.{Buckets, bucket, set_bucket, add_to_bucket, get_min_key}

-- `m[k] = append(m[k], s)`
abbrev pub append_to : Map (List Text) → Text → Text → Map (List Text)
append_to m k s = put m k (get_or_zero [] m k ++ s ∷ [])

-- 1. and 2.: the texts of `ips` in a network. `text` is what is kept of an address: its text as it
-- stands, or as `IP.String` prints it.
unfoldable pub ips_in : (Text → Text) → IpNet → List Text → List Text
ips_in text net [] = []
ips_in text net (ip ∷ ips) =
    if contains net (parse_ip ip) then text ip ∷ ips_in text net ips else ips_in text net ips

unfoldable pub sort_by_cidr :
    (Text → Text) → List Text → List Text → Map (List Text) → Result (Map (List Text))
unfolding ips_in
sort_by_cidr text ips [] m = ok m
sort_by_cidr text ips (cidr ∷ cidrs) m = elim (parse_cidr cidr) [
  | none ↦ err (bad_cidr cidr)
  | some (_, net) ↦
      sort_by_cidr text ips cidrs (put m cidr (get_or_zero [] m cidr ++ ips_in text net ips))
]

abbrev as_it_stands : Text → Text
as_it_stands s = s

abbrev normalised : Text → Text
normalised s = elim (parse_ip s) [ none ↦ s | some ip ↦ print_ip ip ]

-- 1. get assignedIPsToNodesByCIDR
unfoldable pub node_ips_by_cidr :
    Deps → ReconcileContext → List Text → Map (List Text) → Result (Map (List Text))
unfolding sort_by_cidr
node_ips_by_cidr d rc [] m = ok m
node_ips_by_cidr d rc (node ∷ nodes) m =
    sort_by_cidr as_it_stands (get_or_zero [] rc.initially_assigned_ips_by_node node)
      (d.range (keys m)) m
    >>= node_ips_by_cidr d rc nodes

-- 2. get assignedIPsToNamespacesByCIDR
unfoldable pub namespace_ips_by_cidr :
    Deps → List Namespace → Map (List Text) → Result (Map (List Text))
unfolding sort_by_cidr
namespace_ips_by_cidr d [] m = ok m
namespace_ips_by_cidr d (namespace ∷ namespaces) m =
    elim (get namespace.annotations namespace_association_annotation) [
      | none ↦ err (no_annotation namespace.name)
      | some ipsstr ↦
          sort_by_cidr normalised (split b',' ipsstr) (d.range (keys m)) m
          >>= namespace_ips_by_cidr d namespaces
    ]

-- 3. and 4.: a set operation on the addresses of the namespaces and of the nodes, by CIDR
unfoldable pub combine_by_cidr :
    (List Text → List Text → List Text)
    → List Text
    → Map (List Text)
    → Map (List Text)
    → Map (List Text)
    → Map (List Text)
combine_by_cidr op [] m n result = result
combine_by_cidr op (cidr ∷ cidrs) m n result =
    combine_by_cidr op cidrs m n
      (put result cidr (op (get_or_zero [] m cidr) (get_or_zero [] n cidr)))

-- 5. recalculate assignedIPsByNode: the innermost loop, over the addresses of one node
unfoldable pub keep_ip : Text → Text → List Text → Map (List Text) → Map (List Text)
keep_ip ip node [] m = m
keep_ip ip node (old ∷ olds) m =
    keep_ip ip node olds (if text_eq ip old then append_to m node ip else m)

unfoldable pub keep_ip_at : ReconcileContext → Text → List Text → Map (List Text) → Map (List Text)
unfolding keep_ip
keep_ip_at rc ip [] m = m
keep_ip_at rc ip (node ∷ nodes) m =
    keep_ip_at rc ip nodes
      (keep_ip ip node (get_or_zero [] rc.initially_assigned_ips_by_node node) m)

unfoldable pub keep_ips :
    ReconcileContext → List Text → List Text → Map (List Text) → Map (List Text)
unfolding keep_ip_at
keep_ips rc nodes [] m = m
keep_ips rc nodes (ip ∷ ips) m = keep_ips rc nodes ips (keep_ip_at rc ip nodes m)

unfoldable pub keep_all :
    ReconcileContext → List Text → Map (List Text) → List Text → Map (List Text) → Map (List Text)
unfolding keep_ips
keep_all rc nodes assigned [] m = m
keep_all rc nodes assigned (cidr ∷ cidrs) m =
    keep_all rc nodes assigned cidrs (keep_ips rc nodes (get_or_zero [] assigned cidr) m)

-- 7. calculate NodesByNumberOfAssignedIPByCIDR: the ready nodes of one CIDR
unfoldable pub fill_buckets : ReconcileContext → Map (List Text) → List Text → Buckets → Buckets
fill_buckets rc ips_by_node [] buckets = buckets
fill_buckets rc ips_by_node (node ∷ nodes) buckets = fill_buckets rc ips_by_node nodes (
    if ready_node rc node
    then add_to_bucket buckets (length (get_or_zero [] ips_by_node node)) node
    else buckets)

unfoldable pub all_buckets :
    ReconcileContext → Map (List Text) → List Text → Map Buckets → Map Buckets
unfolding fill_buckets
all_buckets rc ips_by_node [] m = m
all_buckets rc ips_by_node (cidr ∷ cidrs) m =
    all_buckets rc ips_by_node cidrs
      (put m cidr (fill_buckets rc ips_by_node (get_or_zero [] rc.selected_nodes_by_cidr cidr) []))

-- The two maps that step 8 changes, for one CIDR.
pub record Loads : Type 0 where
  pub ips_by_node : Map (List Text)
  pub buckets : Buckets

abbrev pub place_at : Text → ℕ → List Text → Loads → Result Loads
place_at ip n [] loads = panic
place_at ip n (node ∷ nodes) loads = ok (record loads {
  ips_by_node = append_to loads.ips_by_node node ip;
  buckets = add_to_bucket (set_bucket loads.buckets n nodes) (n + 1) node;
})

-- 8. assign an address to the first of the least loaded nodes of its CIDR
unfoldable pub place : Text → Text → Loads → Result Loads
place cidr ip loads = elim (get_min_key loads.buckets) [
  | none ↦ err (no_nodes cidr)
  | some n ↦ place_at ip n (bucket loads.buckets n) loads
]

unfoldable pub place_all : Text → List Text → Loads → Result Loads
unfolding place
place_all cidr [] loads = ok loads
place_all cidr (ip ∷ ips) loads = place cidr ip loads >>= place_all cidr ips

abbrev pub AllLoads : Type 0
AllLoads = Map (List Text) × Map Buckets

unfoldable pub place_by_cidr : Map (List Text) → List Text → AllLoads → Result AllLoads
unfolding place_all
place_by_cidr to_be_assigned [] loads = ok loads
place_by_cidr to_be_assigned (cidr ∷ cidrs) (ips_by_node, buckets) =
    place_all cidr (get_or_zero [] to_be_assigned cidr)
      (record { ips_by_node = ips_by_node; buckets = get_or_zero [] buckets cidr })
    >>= λ loads.
        place_by_cidr to_be_assigned cidrs (loads.ips_by_node, put buckets cidr loads.buckets)

unfoldable pub set_empty : List Text → Map (List Text) → Map (List Text)
set_empty [] m = m
set_empty (node ∷ nodes) m = set_empty nodes (put m node [])

-- the nodes that got no address
unfoldable pub add_idle : Map Buckets → List Text → Map (List Text) → Map (List Text)
unfolding set_empty
add_idle buckets [] m = m
add_idle buckets (cidr ∷ cidrs) m =
    add_idle buckets cidrs (set_empty (bucket (get_or_zero [] buckets cidr) 0) m)

-- "re-add the nodes that were removed because not ready"
unfoldable pub add_not_ready : ReconcileContext → List Text → Map (List Text) → Map (List Text)
add_not_ready rc [] m = m
add_not_ready rc (name ∷ names) m = add_not_ready rc names (elim (get rc.selected_nodes name) [
  | none ↦ m
  | some node ↦ if is_ready node then m else put m name []
])

-- assignIPsToNodes
unfoldable pub assign_ips_to_nodes : Deps → ReconcileContext → Result (Map (List Text))
unfolding empty_by_cidr node_ips_by_cidr namespace_ips_by_cidr combine_by_cidr keep_all all_buckets
    place_by_cidr add_idle add_not_ready
assign_ips_to_nodes d rc = do
  let empty = empty_by_cidr {V = Text} rc.cidrs []
  let nodes = d.range (keys rc.initially_assigned_ips_by_node)
  on_nodes ← node_ips_by_cidr d rc nodes empty
  on_namespaces ← namespace_ips_by_cidr d rc.finally_assigned_namespaces empty
  let cidrs = d.range (keys on_namespaces)
  let to_be_assigned = combine_by_cidr d.difference cidrs on_namespaces on_nodes empty
  let kept = combine_by_cidr d.intersection cidrs on_nodes on_namespaces on_nodes
  let ips_by_node = keep_all rc nodes kept (d.range (keys kept)) []
  let buckets = all_buckets rc ips_by_node (d.range (keys rc.selected_nodes_by_cidr)) []
  loads ← place_by_cidr to_be_assigned (d.range (keys to_be_assigned)) (ips_by_node, buckets)
  let with_idle = add_idle loads.1 (d.range (keys loads.1)) loads.0
  ok (add_not_ready rc (d.range (keys rc.selected_nodes)) with_idle)
