-- ===== src/Reconcile/CleanUp.antt =====
-- manageCleanUpLogic of controllers/egressipam/egressipam_controller.go
use egressip_ipam_operator.Prelude.{
  ◌≡◌, ◌∙◌, sym, true, Bool, [], Text, Elem, All, All-of_Elem, Bool-cases, inl, inr, ap,
  if◌then◌else◌,
}
use egressip_ipam_operator.Deps.{Deps, IsLawful}
use egressip_ipam_operator.Go.Results.{Result, ok}
use egressip_ipam_operator.Api.{HostSubnet}
use egressip_ipam_operator.Context.{ReconcileContext}
use egressip_ipam_operator.Effects.{
  Action, Log, Services, pure, update_namespace, update_net_namespace, update_host_subnet, ◌>>=◌,
}
use egressip_ipam_operator.Effects.Inversion.{>>=-eq-ok}
use egressip_ipam_operator.Effects.Goroutines.{Keeps}
use egressip_ipam_operator.Infra.{Infra}
use egressip_ipam_operator.Namespaces.{without_ips, remove_namespace_assigned_ips}
use egressip_ipam_operator.Namespaces.Written.{remove_namespaces-Writes}
use egressip_ipam_operator.NetNamespaces.{values, remove_net_namespace_assigned_ips}
use egressip_ipam_operator.NetNamespaces.Written.{
  with_egress_ips, remove_net_namespaces-Keeps, remove_net_namespace_assigned_ips-Writes,
}
use egressip_ipam_operator.HostSubnets.{remove_host_subnet_assigned_ips_and_cidrs}
use egressip_ipam_operator.HostSubnets.Written.{
  with_ips, remove_host_subnets-Keeps, remove_host_subnets-Writes,
}
use egressip_ipam_operator.Reconcile.{clean_up}
use egressip_ipam_operator.Reconcile.Load.{is_cloud_infrastructure}

-- Of what the context names, what the log must have.
pub record IsCleanedUp (infra : Infra) (rc : ReconcileContext) (log : Log) : Type 0 where
  pub namespaces :
      All (λ n. Elem (update_namespace (without_ips n)) log) rc.initially_assigned_namespaces
  pub net_namespaces :
      All
        (λ n. Elem (update_net_namespace (with_egress_ips rc n [])) log)
        (values rc.referring_namespaces)
  pub host_subnets :
      All
        (λ (e : Text × HostSubnet). Elem (update_host_subnet (with_ips e.1 [])) log)
        rc.selected_host_subnets
  -- On a cloud the addresses are taken away last.
  pub cloud :
      is_cloud_infrastructure rc.infrastructure ≡ true
      → (start : Log) × (v : Unit {0}) × (infra.remove_all_assigned_ips rc start ≡ (ok v, log))

module _ (d : Deps) (lawful : IsLawful d) (services : Services) (infra : Infra)
    (rc : ReconcileContext) where
  abbrev last_step : Action (Unit {0})
  last_step =
      if is_cloud_infrastructure rc.infrastructure
      then infra.remove_all_assigned_ips rc
      else pure tt

  last_step-Keeps : Keeps (infra.remove_all_assigned_ips rc) → Keeps last_step
  last_step-Keeps k = elim (Bool-cases (is_cloud_infrastructure rc.infrastructure)) [
    | inl cloud ↦ rw cloud k
    | inr metal ↦ rw metal (λ log w e. e)
  ]

  last_step-eq :
      is_cloud_infrastructure rc.infrastructure ≡ true
      → last_step ≡ infra.remove_all_assigned_ips rc
  last_step-eq on = ap (λ (b : Bool). if b then infra.remove_all_assigned_ips rc else pure tt) on

  -- If the clean-up succeeds, where the call of the cloud takes no write back, then every namespace that
  -- had addresses has been written without their annotation, the netnamespace of every referring
  -- namespace with no address, and every selected host subnet with no address and no CIDR. On a cloud its
  -- RemoveAllAssignedIPs was called last, and succeeded.
  pub clean_up-IsCleanedUp :
      (log : Log) (u : Unit {0}) (log' : Log)
      → Keeps (infra.remove_all_assigned_ips rc)
      → clean_up d services infra rc log ≡ (ok u, log')
      → IsCleanedUp infra rc log'
  unfolding clean_up
  clean_up-IsCleanedUp log u log' keeps e =
      let a = remove_namespace_assigned_ips d services rc in
      let b = remove_net_namespace_assigned_ips d services rc in
      let c = remove_host_subnet_assigned_ips_and_cidrs d services rc in
      let (va, ea, ra) = >>=-eq-ok a (λ _. b >>= λ _. c >>= λ _. last_step) log u log' e in
      let (vb, eb, rb) = >>=-eq-ok b (λ _. c >>= λ _. last_step) (a log).1 u log' ra in
      let (vc, ec, rc') = >>=-eq-ok c (λ _. last_step) (b (a log).1).1 u log' rb in
      let end : (last_step (c (b (a log).1).1).1).1 ≡ log' =
        ap (λ (x : Result (Unit {0}) × Log). x.1) rc' in
      let k = last_step-Keeps keeps in
      let before = (c (b (a log).1).1).1 in
      record {
        namespaces = All-of_Elem _ _ λ n at. rw (← end) (
            k _ _ (
              remove_host_subnets-Keeps d lawful services rc _ _ (
                remove_net_namespaces-Keeps d lawful services rc _ _
                  (remove_namespaces-Writes d lawful services rc n log va at ea).0)));
        net_namespaces = All-of_Elem _ _ λ n at. rw (← end) (
            k _ _ (
              remove_host_subnets-Keeps d lawful services rc _ _ (
                remove_net_namespace_assigned_ips-Writes d lawful services rc n (a log).1 vb at
                  eb)));
        host_subnets = All-of_Elem _ _ λ (name, h) at. rw (← end) (
            k _ _
              (remove_host_subnets-Writes d lawful services rc name h (b (a log).1).1 vc at ec));
        cloud = λ on.
            (before, u, ap (λ (m : Action (Unit {0})). m before) (sym (last_step-eq on)) ∙ rc');
      }
