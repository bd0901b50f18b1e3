-- ===== src/NetNamespaces.antt =====
-- controllers/egressipam/netnamespace.go
pub mod Written
use egressip_ipam_operator.Prelude.{
  Bool, true, false, not, ◌&&◌, Option, none, some, List, [], ◌∷◌, map, Text, text_eq,
  if◌then◌else◌,
}
use egressip_ipam_operator.Deps.{Deps}
use egressip_ipam_operator.Go.Reflect.{strings, net_namespace_egress_ips, deep_equal}
use egressip_ipam_operator.Go.Results.{Result, ok, err, no_annotation, ◌>>=◌}
use egressip_ipam_operator.Go.Maps.{Map, keys, get, put, get_or_zero}
use egressip_ipam_operator.Go.Strings.{split}
use egressip_ipam_operator.Api.{Namespace, NetNamespace, namespace_association_annotation}
use egressip_ipam_operator.Context.{ReconcileContext}
use egressip_ipam_operator.Effects.{
  Action, Services, pure, lift, write, update_net_namespace, go_all,
}

-- The zero value that a missing key of `rc.NetNamespaces` reads as.
abbrev pub zero_net_namespace : NetNamespace
zero_net_namespace = record { name = []; egress_ips = [] }

-- The body of both loops: `ips` are to be the addresses of the namespace's netnamespace.
-- (GetNetNamespaceEgressIPs copies the addresses at their own type.)
unfoldable pub set_egress_ips : Services → ReconcileContext → Namespace → List Text → Action Unit
unfolding deep_equal
set_egress_ips services rc namespace ips =
    let netnamespace = get_or_zero zero_net_namespace rc.net_namespaces namespace.name in
    if not (deep_equal (net_namespace_egress_ips netnamespace.egress_ips) (strings ips))
    then write services (update_net_namespace (record netnamespace { egress_ips = ips }))
    else pure tt

unfoldable pub reconcile_net_namespace : Services → ReconcileContext → Namespace → Action Unit
unfolding set_egress_ips
reconcile_net_namespace services rc namespace =
    elim (get namespace.annotations namespace_association_annotation) [
      | none ↦ lift (err (no_annotation namespace.name))
      | some ipstring ↦ set_egress_ips services rc namespace (split b',' ipstring)
    ]

-- reconcileNetNamespaces
unfoldable pub reconcile_net_namespaces : Deps → Services → ReconcileContext → Action Unit
unfolding reconcile_net_namespace write go_all
reconcile_net_namespaces d services rc = go_all (
    d.schedule (Action Unit)
      (map (reconcile_net_namespace services rc) rc.finally_assigned_namespaces))

abbrev pub values : Map Namespace → List Namespace
values [] = []
values ((_, namespace) ∷ m) = namespace ∷ values m

-- removeNetnamespaceAssignedIPs
unfoldable pub remove_net_namespace_assigned_ips : Deps → Services → ReconcileContext → Action Unit
unfolding set_egress_ips write go_all
remove_net_namespace_assigned_ips d services rc = go_all (
    d.schedule (Action Unit)
      (map (λ namespace. set_egress_ips services rc namespace []) (values rc.referring_namespaces)))

unfoldable pub net_namespaces_by_name : List NetNamespace → Map NetNamespace → Map NetNamespace
net_namespaces_by_name [] m = m
net_namespaces_by_name (netnamespace ∷ items) m =
    net_namespaces_by_name items (put m netnamespace.name netnamespace)

-- getAllNetNamespaces
unfoldable pub get_all_net_namespaces : Services → Action (Map NetNamespace)
unfolding net_namespaces_by_name
get_all_net_namespaces services log =
    (services.list_net_namespaces log >>= λ items. ok (net_namespaces_by_name items []), log)
