-- ===== src/NamespaceController/CleanedUp.antt =====
-- cleanUpNamespaceAndNetNamespace of controllers/namespace/namespace_controller.go
use mathlib.Core.List.{append-nil, append_assoc}
use egressip_ipam_operator.Prelude.{
  ◌≡◌, sym, ap, ◌∙◌, none, some, List, [], ◌∷◌, ◌++◌, inl, inr, Option-cases,
}
use egressip_ipam_operator.Go.Reflect.{deep_equal}
use egressip_ipam_operator.Go.Results.{Result, ok}
use egressip_ipam_operator.Go.Maps.{get}
use egressip_ipam_operator.Api.{Namespace, NetNamespace, namespace_association_annotation}
use egressip_ipam_operator.Effects.{
  Write, Log, Services, reads, write, update_namespace, update_net_namespace, ◌>>=◌,
}
use egressip_ipam_operator.Effects.Inversion.{>>=-eq-ok, write-eq-ok}
use egressip_ipam_operator.Namespaces.{without_ips}
use egressip_ipam_operator.NamespaceController.{
  clear_net_namespace, clear_namespace, clean_up_namespace_and_net_namespace,
}

-- The write of a namespace that has an address annotation.
abbrev pub namespace_write : Namespace → List Write
namespace_write namespace = elim (get namespace.annotations namespace_association_annotation) [
  | none ↦ []
  | some _ ↦ update_namespace (without_ips namespace) ∷ []
]

clear_net_namespace-eq-ok :
    (services : Services) (netnamespace : NetNamespace) (log : Log) (u : Unit {0})
    → (clear_net_namespace services netnamespace log).0 ≡ ok u
    → (clear_net_namespace services netnamespace log).1
      ≡ log ++ update_net_namespace (record netnamespace { egress_ips = [] }) ∷ []
unfolding deep_equal
clear_net_namespace-eq-ok services netnamespace log u e = write-eq-ok services _ log u e

clear_namespace-eq-ok :
    (services : Services) (namespace : Namespace) (log log' : Log) (u : Unit {0})
    → clear_namespace services namespace log ≡ (ok u, log')
    → log' ≡ log ++ namespace_write namespace
clear_namespace-eq-ok services namespace log log' u e =
    elim (Option-cases (get namespace.annotations namespace_association_annotation)) [
      | inl absent ↦
          let same : log ≡ log' =
            ap (λ (r : Result (Unit {0}) × Log). r.1) (rw (absent, clear_namespace) at e) in
          rw (absent, namespace_write) (sym same ∙ sym (append-nil log))
      | inr (value, there) ↦
          let done : write services (update_namespace (without_ips namespace)) log ≡ (ok u, log') =
            rw (there, clear_namespace) at e in
          rw (there, namespace_write)
            (sym (ap (λ (r : Result (Unit {0}) × Log). r.1) done)
              ∙ write-eq-ok services _ log u (ap (λ (r : Result (Unit {0}) × Log). r.0) done))
    ]

-- If the clean-up of a namespace that has opted out succeeds, it has written the namespace's
-- netnamespace with no address, then, if the namespace has an address annotation, the namespace
-- without it, and nothing else.
pub clean_up_namespace-eq-ok :
    (services : Services) (namespace : Namespace) (netnamespace : NetNamespace) (log log' : Log)
    (u : Unit {0})
    → services.get_net_namespace log namespace.name ≡ ok netnamespace
    → clean_up_namespace_and_net_namespace services namespace log ≡ (ok u, log')
    → log'
      ≡ log
        ++ update_net_namespace (record netnamespace { egress_ips = [] })
          ∷ namespace_write namespace
unfolding clean_up_namespace_and_net_namespace
clean_up_namespace-eq-ok services namespace netnamespace log log' u got e =
    let (found, is_found, rest) =
      >>=-eq-ok (reads (λ l. services.get_net_namespace l namespace.name))
        (λ n. clear_net_namespace services n >>= λ _. clear_namespace services namespace) log u log'
        e in
    let eq : ok found ≡ ok netnamespace = sym is_found ∙ got in
    let same : found ≡ netnamespace = cc in
    let w = update_net_namespace (record found { egress_ips = [] }) in
    let (v, first, last) =
      >>=-eq-ok (clear_net_namespace services found) (λ _. clear_namespace services namespace) log u
        log' rest in
    let mid = (clear_net_namespace services found log).1 in
    let written : mid ≡ log ++ w ∷ [] = clear_net_namespace-eq-ok services found log v first in
    rw (← same) (
      clear_namespace-eq-ok services namespace mid log' u last
      ∙ ap (λ (l : Log). l ++ namespace_write namespace) written
      ∙ append_assoc log (w ∷ []) (namespace_write namespace))
