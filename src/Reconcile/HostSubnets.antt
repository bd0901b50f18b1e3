-- ===== src/Reconcile/HostSubnets.antt =====
-- The last step of processReconcileContext of controllers/egressipam/egressipam_controller.go
use egressip_ipam_operator.Prelude.{
  ◌≡◌, refl, ◌↔◌, ◌⊎◌, ◌||◌, Bool, true, false, [], ◌∷◌, Text, Elem, Bool-cases, inl, inr, ltb,
  length,
}
use egressip_ipam_operator.Deps.{Deps, IsLawful}
use egressip_ipam_operator.Go.Results.{ok}
use egressip_ipam_operator.Go.Maps.{keys, get_or_zero}
use egressip_ipam_operator.Api.{HostSubnet}
use egressip_ipam_operator.Context.{ReconcileContext}
use egressip_ipam_operator.Effects.{Log, Services, update_host_subnet}
use egressip_ipam_operator.Effects.Goroutines.{Keeps}
use egressip_ipam_operator.HostSubnets.{reconcile_hs_assigned_ips, assign_cidrs_to_host_subnets}
use egressip_ipam_operator.HostSubnets.Written.{
  final_ips, with_ips, reconcile_hs_assigned_ips-Keeps, reconcile_hs_assigned_ips-Writes,
}
use egressip_ipam_operator.HostSubnets.Automatic.{
  with_cidr, host_subnet_of, assign_cidrs_to_host_subnets-Keeps,
  assign_cidrs_to_host_subnets-Writes,
}
use egressip_ipam_operator.Reconcile.{reconcile_host_subnets}
use egressip_ipam_operator.Reconcile.Load.{is_cloud_infrastructure}

abbrev pub is_explicit : ReconcileContext → Bool
is_explicit rc = is_cloud_infrastructure rc.infrastructure || ltb 1 (length rc.cidrs)

module _ (d : Deps) (lawful : IsLawful d) (services : Services) where
  reconcile_host_subnets-explicit :
      (rc : ReconcileContext)
      → is_explicit rc ≡ true
      → reconcile_host_subnets d services rc ≡ reconcile_hs_assigned_ips d services rc
  unfolding reconcile_host_subnets
  reconcile_host_subnets-explicit rc e = rw e refl

  reconcile_host_subnets-automatic :
      (rc : ReconcileContext)
      → is_explicit rc ≡ false
      → reconcile_host_subnets d services rc ≡ assign_cidrs_to_host_subnets d services rc
  unfolding reconcile_host_subnets
  reconcile_host_subnets-automatic rc e = rw e refl

  pub reconcile_host_subnets-Keeps :
      (rc : ReconcileContext) → Keeps (reconcile_host_subnets d services rc)
  reconcile_host_subnets-Keeps rc = elim (Bool-cases (is_explicit rc)) [
    | inl e ↦
        rw (reconcile_host_subnets-explicit rc e)
          (reconcile_hs_assigned_ips-Keeps d lawful services rc)
    | inr e ↦
        rw (reconcile_host_subnets-automatic rc e)
          (assign_cidrs_to_host_subnets-Keeps d lawful services rc)
  ]

  pub reconcile_host_subnets-Writes_ips :
      (rc : ReconcileContext) (name : Text) (hostsubnet : HostSubnet) (log : Log) (u : Unit {0})
      → is_explicit rc ≡ true
      → Elem (name, hostsubnet) rc.selected_host_subnets
      → (reconcile_host_subnets d services rc log).0 ≡ ok u
      → ((k : Text) → Elem k (final_ips rc name) ↔ Elem k hostsubnet.egress_ips)
        ⊎ Elem
            (update_host_subnet (with_ips hostsubnet (final_ips rc name)))
            (reconcile_host_subnets d services rc log).1
  reconcile_host_subnets-Writes_ips rc name hostsubnet log u explicit =
      rw (reconcile_host_subnets-explicit rc explicit)
        (reconcile_hs_assigned_ips-Writes d lawful services rc name hostsubnet log u)

  pub reconcile_host_subnets-Writes_cidr :
      (rc : ReconcileContext) (cidr node : Text) (log : Log) (u : Unit {0})
      → is_explicit rc ≡ false
      → Elem cidr (keys rc.selected_nodes_by_cidr)
      → Elem node (get_or_zero [] rc.selected_nodes_by_cidr cidr)
      → (reconcile_host_subnets d services rc log).0 ≡ ok u
      → ((k : Text) → Elem k (host_subnet_of rc node).egress_cidrs ↔ Elem k (cidr ∷ []))
        ⊎ Elem
            (update_host_subnet (with_cidr (host_subnet_of rc node) cidr))
            (reconcile_host_subnets d services rc log).1
  reconcile_host_subnets-Writes_cidr rc cidr node log u automatic =
      rw (reconcile_host_subnets-automatic rc automatic)
        (assign_cidrs_to_host_subnets-Writes d lawful services rc cidr node log u)
