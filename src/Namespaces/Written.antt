-- ===== src/Namespaces/Written.antt =====
-- removeNamespaceAssignedIPs of controllers/egressipam/namespace.go
use egressip_ipam_operator.Prelude.{◌≡◌, none, text_eq_refl, Elem, arith}
use egressip_ipam_operator.Deps.{Deps, IsLawful}
use egressip_ipam_operator.Go.Results.{ok}
use egressip_ipam_operator.Go.Maps.{get, get-remove}
use egressip_ipam_operator.Api.{Namespace, namespace_association_annotation}
use egressip_ipam_operator.Context.{ReconcileContext}
use egressip_ipam_operator.Effects.{Log, Services, update_namespace, write}
use egressip_ipam_operator.Effects.Goroutines.{
  Keeps, write-Keeps, write-Writes, schedule-Keeps, schedule-Writes,
}
use egressip_ipam_operator.Namespaces.{without_ips, remove_namespace_assigned_ips}

without_ips-none :
    (namespace : Namespace)
    → get (without_ips namespace).annotations namespace_association_annotation ≡ none
without_ips-none namespace = ground (
  arith,
  get-remove namespace.annotations namespace_association_annotation
      namespace_association_annotation,
  text_eq_refl namespace_association_annotation,
)

module _ (d : Deps) (lawful : IsLawful d) (services : Services) (rc : ReconcileContext) where
  pub remove_namespaces-Keeps : Keeps (remove_namespace_assigned_ips d services rc)
  unfolding remove_namespace_assigned_ips
  remove_namespaces-Keeps =
      schedule-Keeps d lawful (λ n. write services (update_namespace (without_ips n)))
        rc.initially_assigned_namespaces (λ n _. write-Keeps services _)

  -- If removeNamespaceAssignedIPs reports no error, every namespace that had addresses has been
  -- written without the annotation of its addresses.
  pub remove_namespaces-Writes :
      (namespace : Namespace) (log : Log) (u : Unit {0})
      → Elem namespace rc.initially_assigned_namespaces
      → (remove_namespace_assigned_ips d services rc log).0 ≡ ok u
      → Elem
          (update_namespace (without_ips namespace))
          (remove_namespace_assigned_ips d services rc log).1
        × (get (without_ips namespace).annotations namespace_association_annotation ≡ none)
  unfolding remove_namespace_assigned_ips
  remove_namespaces-Writes namespace log u at done = (
    schedule-Writes d lawful (λ n. write services (update_namespace (without_ips n)))
        rc.initially_assigned_namespaces namespace _ (λ n _. write-Keeps services _) at
        (write-Writes services _) log u done,
    without_ips-none namespace,
  )
