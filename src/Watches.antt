-- ===== src/Watches.antt =====
-- The event handlers of controllers/egressipam/{node,hostsubnet,namespace,netnamespace}.go, which add
-- names of EgressIPAMs to the work queue, and the predicates on namespaces.
pub mod Predicates
pub mod Noticed
pub mod Hosting
use egressip_ipam_operator.Prelude.{
  Bool, true, false, not, ◌&&◌, ◌||◌, Option, none, some, List, [], ◌∷◌, ◌++◌, Text,
}
use egressip_ipam_operator.Go.Results.{Result, ok, err, panic}
use egressip_ipam_operator.Go.Maps.{Map, get}
use egressip_ipam_operator.Api.{
  EgressIpam, Namespace, NetNamespace, HostSubnet, Node, namespace_annotation,
  namespace_association_annotation,
}
use egressip_ipam_operator.Effects.{Log, Services}
use egressip_ipam_operator.Nodes.{matches_node}
use egressip_ipam_operator.HostSubnets.{matches_host_subnet}

-- The object of an event, by its type.
pub data Object : Type 0 where
  node : Node → Object
  host_subnet : HostSubnet → Object
  namespace : Namespace → Object
  net_namespace : NetNamespace → Object

-- The names of the EgressIPAMs that a test selects, in the order of `q.Add`.
unfoldable pub matching : (EgressIpam → Option Text) → List EgressIpam → List Text
matching matches [] = []
matching matches (egress_ipam ∷ egress_ipams) = elim (matches egress_ipam) [
  | none ↦ matching matches egress_ipams
  | some _ ↦ egress_ipam.name ∷ matching matches egress_ipams
]

abbrev listed : (EgressIpam → Option Text) → Result (List EgressIpam) → List Text
listed matches (ok items) = matching matches items
listed matches (err _) = []
listed matches panic = []

-- enqueForSelectingEgressIPAMNode.Create, and Update at the new object. Delete and Generic add nothing.
unfoldable pub enqueue_for_node : Services → Log → Object → List Text
unfolding matching
enqueue_for_node services log (node n) =
    listed (λ e. matches_node e n) (services.list_egress_ipams log)
enqueue_for_node services log _ = []

-- enqueForSelectingEgressIPAMHostSubnet.Create and Delete, and Update at the new object
unfoldable pub enqueue_for_host_subnet : Services → Log → Object → List Text
unfolding matching
enqueue_for_host_subnet services log (host_subnet h) =
    listed (λ e. matches_host_subnet e h) (services.list_egress_ipams log)
enqueue_for_host_subnet services log _ = []

abbrev named_by : Map Text → List Text
named_by annotations = elim (get annotations namespace_annotation) [
  | none ↦ []
  | some name ↦ name ∷ []
]

-- enqueForSelectedEgressIPAMNamespace.Create and Delete
unfoldable pub enqueue_for_namespace : Namespace → List Text
enqueue_for_namespace n = named_by n.annotations

-- enqueForSelectedEgressIPAMNamespace.Update
unfoldable pub enqueue_for_namespace_update : Namespace → Namespace → List Text
enqueue_for_namespace_update old new = named_by old.annotations ++ named_by new.annotations

-- `getNamespace`, whose error is logged and leaves a namespace with no annotations
abbrev namespace_names : Result Namespace → List Text
namespace_names (ok n) = named_by n.annotations
namespace_names (err _) = []
namespace_names panic = []

-- enqueForSelectedEgressIPAMNetNamespace.Create
unfoldable pub enqueue_for_net_namespace : Services → Log → Object → List Text
enqueue_for_net_namespace services log (net_namespace n) =
    namespace_names (services.get_namespace log n.name)
enqueue_for_net_namespace services log _ = []

-- enqueForSelectedEgressIPAMNetNamespace.Update, which returns at an old object of another type
unfoldable pub enqueue_for_net_namespace_update : Services → Log → Object → Object → List Text
unfolding enqueue_for_net_namespace
enqueue_for_net_namespace_update services log (net_namespace old) new =
    enqueue_for_net_namespace services log (net_namespace old)
    ++ enqueue_for_net_namespace services log new
enqueue_for_net_namespace_update services log _ new = []

abbrev has : Map Text → Text → Bool
has m k = elim (get m k) [ none ↦ false | some _ ↦ true ]

-- `ipsnew != ipsold`
abbrev differs : Bool → Bool → Bool
differs a b = (a && not b) || (not a && b)

-- UpdateFunc of IsAnnotated, on the annotations of the old and of the new namespace. (The source
-- names the presence of the association annotation `ipsold` and `ipsnew`.)
unfoldable pub is_annotated_update : Map Text → Map Text → Bool
is_annotated_update old new =
    (not (has old namespace_annotation) && has new namespace_annotation)
    || differs (has new namespace_association_annotation) (has old namespace_association_annotation)

-- CreateFunc and DeleteFunc of IsAnnotated
unfoldable pub is_annotated : Map Text → Bool
is_annotated annotations = has annotations namespace_annotation

-- UpdateFunc of IsAnnotated in controllers/namespace/namespace_controller.go
unfoldable pub is_opt_out_update : Map Text → Map Text → Bool
is_opt_out_update old new = has old namespace_annotation && not (has new namespace_annotation)
