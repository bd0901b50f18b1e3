-- ===== src/NetNamespaces/Written.antt =====
-- reconcileNetNamespaces and removeNetnamespaceAssignedIPs of controllers/egressipam/netnamespace.go
use egressip_ipam_operator.Prelude.{◌≡◌, refl, some, List, [], Text, Elem, Option-cases, inl, inr}
use egressip_ipam_operator.Deps.{Deps, IsLawful}
use egressip_ipam_operator.Go.Results.{ok}
use egressip_ipam_operator.Go.Maps.{get, get_or_zero}
use egressip_ipam_operator.Go.Strings.{split}
use egressip_ipam_operator.Api.{Namespace, NetNamespace, namespace_association_annotation}
use egressip_ipam_operator.Context.{ReconcileContext}
use egressip_ipam_operator.Effects.{Log, Services, write, update_net_namespace}
use egressip_ipam_operator.Effects.Goroutines.{
  Keeps, Writes, write-Keeps, write-Writes, schedule-Writes, schedule-Keeps,
}
use egressip_ipam_operator.NetNamespaces.{
  zero_net_namespace, set_egress_ips, reconcile_net_namespace, reconcile_net_namespaces,
  remove_net_namespace_assigned_ips, values,
}

-- The netnamespace of a namespace, with these addresses.
abbrev pub with_egress_ips : ReconcileContext → Namespace → List Text → NetNamespace
with_egress_ips rc namespace ips =
    record (get_or_zero zero_net_namespace rc.net_namespaces namespace.name) { egress_ips = ips }

-- The comparison with `[]string` never finds the slices equal, so the write is always made.
set_egress_ips-eq-write :
    (services : Services) (rc : ReconcileContext) (namespace : Namespace) (ips : List Text)
    → set_egress_ips services rc namespace ips
      ≡ write services (update_net_namespace (with_egress_ips rc namespace ips))
unfolding set_egress_ips
set_egress_ips-eq-write services rc namespace ips = refl

module _ (services : Services) (rc : ReconcileContext) (namespace : Namespace) where
  set_egress_ips-Keeps : (ips : List Text) → Keeps (set_egress_ips services rc namespace ips)
  set_egress_ips-Keeps ips =
      rw (set_egress_ips-eq-write services rc namespace ips) (write-Keeps services _)

  set_egress_ips-Writes :
      (ips : List Text)
      → Writes
          (set_egress_ips services rc namespace ips)
          (update_net_namespace (with_egress_ips rc namespace ips))
  set_egress_ips-Writes ips =
      rw (set_egress_ips-eq-write services rc namespace ips) (write-Writes services _)

  reconcile-eq-write :
      (ipstring : Text)
      → get namespace.annotations namespace_association_annotation ≡ some ipstring
      → reconcile_net_namespace services rc namespace
        ≡ write services (update_net_namespace (with_egress_ips rc namespace (split b',' ipstring)))
  unfolding reconcile_net_namespace
  reconcile-eq-write ipstring e =
      rw (e, reconcile_net_namespace)
        (set_egress_ips-eq-write services rc namespace (split b',' ipstring))

  reconcile-Keeps : Keeps (reconcile_net_namespace services rc namespace)
  unfolding reconcile_net_namespace
  reconcile-Keeps =
      elim (Option-cases (get namespace.annotations namespace_association_annotation)) [
        | inl absent ↦ rw (absent, reconcile_net_namespace) (λ log w e. e)
        | inr (ipstring, there) ↦ rw (reconcile-eq-write ipstring there) (write-Keeps services _)
      ]

module _ (d : Deps) (lawful : IsLawful d) (services : Services) (rc : ReconcileContext) where
  pub reconcile_net_namespaces-Keeps : Keeps (reconcile_net_namespaces d services rc)
  unfolding reconcile_net_namespaces
  reconcile_net_namespaces-Keeps =
      schedule-Keeps d lawful (reconcile_net_namespace services rc) rc.finally_assigned_namespaces
        (λ n _. reconcile-Keeps services rc n)

  -- If reconcileNetNamespaces reports no error, it has written, for every finally assigned namespace
  -- with an address annotation, its netnamespace with exactly the addresses of the annotation. It
  -- writes it also where the netnamespace has these addresses already.
  pub reconcile_net_namespaces-Writes :
      (namespace : Namespace) (ipstring : Text) (log : Log) (u : Unit {0})
      → Elem namespace rc.finally_assigned_namespaces
      → get namespace.annotations namespace_association_annotation ≡ some ipstring
      → (reconcile_net_namespaces d services rc log).0 ≡ ok u
      → Elem
          (update_net_namespace (with_egress_ips rc namespace (split b',' ipstring)))
          (reconcile_net_namespaces d services rc log).1
  unfolding reconcile_net_namespaces
  reconcile_net_namespaces-Writes namespace ipstring log u at e done =
      schedule-Writes d lawful (reconcile_net_namespace services rc) rc.finally_assigned_namespaces
        namespace _ (λ n _. reconcile-Keeps services rc n) at
        (rw (reconcile-eq-write services rc namespace ipstring e) (write-Writes services _)) log u
        done

  pub remove_net_namespaces-Keeps : Keeps (remove_net_namespace_assigned_ips d services rc)
  unfolding remove_net_namespace_assigned_ips
  remove_net_namespaces-Keeps =
      schedule-Keeps d lawful (λ n. set_egress_ips services rc n [])
        (values rc.referring_namespaces) (λ n _. set_egress_ips-Keeps services rc n [])

  -- If removeNetnamespaceAssignedIPs reports no error, it has written, for every referring
  -- namespace, its netnamespace with no address.
  pub remove_net_namespace_assigned_ips-Writes :
      (namespace : Namespace) (log : Log) (u : Unit {0})
      → Elem namespace (values rc.referring_namespaces)
      → (remove_net_namespace_assigned_ips d services rc log).0 ≡ ok u
      → Elem
          (update_net_namespace (with_egress_ips rc namespace []))
          (remove_net_namespace_assigned_ips d services rc log).1
  unfolding remove_net_namespace_assigned_ips
  remove_net_namespace_assigned_ips-Writes namespace log u at done =
      schedule-Writes d lawful (λ n. set_egress_ips services rc n [])
        (values rc.referring_namespaces) namespace _ (λ n _. set_egress_ips-Keeps services rc n [])
        at (set_egress_ips-Writes services rc namespace []) log u done
