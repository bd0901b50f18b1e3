-- ===== src/NamespaceController.antt =====
-- controllers/namespace/namespace_controller.go: the clean-up of a namespace that has opted out
pub mod CleanedUp
use egressip_ipam_operator.Prelude.{not, none, some, [], if◌then◌else◌}
use egressip_ipam_operator.Go.Reflect.{strings, net_namespace_egress_ips, deep_equal}
use egressip_ipam_operator.Go.Maps.{get}
use egressip_ipam_operator.Api.{Namespace, NetNamespace, namespace_association_annotation}
use egressip_ipam_operator.Effects.{
  Action, Services, pure, reads, write, update_namespace, update_net_namespace, ◌>>=◌, ◌>>◌,
}
use egressip_ipam_operator.Namespaces.{without_ips}

abbrev pub clear_net_namespace : Services → NetNamespace → Action (Unit {0})
clear_net_namespace services netnamespace =
    if not (deep_equal (net_namespace_egress_ips netnamespace.egress_ips) (strings []))
    then write services (update_net_namespace (record netnamespace { egress_ips = [] }))
    else pure tt

abbrev pub clear_namespace : Services → Namespace → Action (Unit {0})
clear_namespace services namespace =
    elim (get namespace.annotations namespace_association_annotation) [
      | none ↦ pure tt
      | some _ ↦ write services (update_namespace (without_ips namespace))
    ]

-- cleanUpNamespaceAndNetNamespace
unfoldable pub clean_up_namespace_and_net_namespace : Services → Namespace → Action (Unit {0})
unfolding deep_equal write
clean_up_namespace_and_net_namespace services namespace = do
  netnamespace ← reads (λ log. services.get_net_namespace log namespace.name)
  clear_net_namespace services netnamespace
  clear_namespace services namespace
