-- ===== src/HostSubnets/Written.antt =====
-- reconcileHSAssignedIPs and removeHostsubnetAssignedIPsAndCIDRs of controllers/egressipam/hostsubnet.go
use egressip_ipam_operator.Prelude.{
  ◌≡◌, refl, ◌↔◌, ◌⊎◌, false, List, [], Text, Elem, Bool-cases, inl, inr,
}
use egressip_ipam_operator.Deps.{Deps, IsLawful}
use egressip_ipam_operator.Go.Results.{ok}
use egressip_ipam_operator.Go.Maps.{get_or_zero}
use egressip_ipam_operator.Api.{HostSubnet}
use egressip_ipam_operator.Context.{ReconcileContext}
use egressip_ipam_operator.Effects.{Log, Services, write, update_host_subnet}
use egressip_ipam_operator.Effects.Goroutines.{
  Keeps, Writes, write-Keeps, write-Writes, schedule-Writes, schedule-Keeps,
}
use egressip_ipam_operator.HostSubnets.{
  reconcile_hs_assigned_ips_of, reconcile_hs_assigned_ips, remove_host_subnet_ips,
  remove_host_subnet_assigned_ips_and_cidrs,
}

-- The addresses that the cycle gives a node.
abbrev pub final_ips : ReconcileContext → Text → List Text
final_ips rc name = get_or_zero [] rc.finally_assigned_ips_by_node name

abbrev pub with_ips : HostSubnet → List Text → HostSubnet
with_ips hostsubnet ips = record hostsubnet { egress_cidrs = []; egress_ips = ips }

module _ (d : Deps) (lawful : IsLawful d) (services : Services) (rc : ReconcileContext) where
  reconcile-eq-write :
      (name : Text) (hostsubnet : HostSubnet)
      → d.is_equal (final_ips rc name) hostsubnet.egress_ips ≡ false
      → reconcile_hs_assigned_ips_of d services rc (name, hostsubnet)
        ≡ write services (update_host_subnet (with_ips hostsubnet (final_ips rc name)))
  unfolding reconcile_hs_assigned_ips_of
  reconcile-eq-write name hostsubnet e = rw e

  reconcile-Keeps :
      (entry : Text × HostSubnet) → Keeps (reconcile_hs_assigned_ips_of d services rc entry)
  reconcile-Keeps (name, hostsubnet) =
      elim (Bool-cases (d.is_equal (final_ips rc name) hostsubnet.egress_ips)) [
        | inl same ↦ unfold reconcile_hs_assigned_ips_of in rw same (λ log w e. e)
        | inr other ↦ rw (reconcile-eq-write name hostsubnet other) (write-Keeps services _)
      ]

  pub reconcile_hs_assigned_ips-Keeps : Keeps (reconcile_hs_assigned_ips d services rc)
  unfolding reconcile_hs_assigned_ips
  reconcile_hs_assigned_ips-Keeps =
      schedule-Keeps d lawful (reconcile_hs_assigned_ips_of d services rc) rc.selected_host_subnets
        (λ e _. reconcile-Keeps e)

  -- If reconcileHSAssignedIPs reports no error, each selected host subnet either had the addresses of
  -- its node already, as a set, or has been written with them and with no CIDR.
  pub reconcile_hs_assigned_ips-Writes :
      (name : Text) (hostsubnet : HostSubnet) (log : Log) (u : Unit {0})
      → Elem (name, hostsubnet) rc.selected_host_subnets
      → (reconcile_hs_assigned_ips d services rc log).0 ≡ ok u
      → ((k : Text) → Elem k (final_ips rc name) ↔ Elem k hostsubnet.egress_ips)
        ⊎ Elem
            (update_host_subnet (with_ips hostsubnet (final_ips rc name)))
            (reconcile_hs_assigned_ips d services rc log).1
  unfolding reconcile_hs_assigned_ips
  reconcile_hs_assigned_ips-Writes name hostsubnet log u at done =
      elim (Bool-cases (d.is_equal (final_ips rc name) hostsubnet.egress_ips)) [
        | inl same ↦ inl ((lawful.is_equal_iff (final_ips rc name) hostsubnet.egress_ips).0 same)
        | inr other ↦ inr (
            schedule-Writes d lawful (reconcile_hs_assigned_ips_of d services rc)
              rc.selected_host_subnets (name, hostsubnet) _ (λ e _. reconcile-Keeps e) at
              (rw (reconcile-eq-write name hostsubnet other) (write-Writes services _)) log u done)
      ]

  remove-eq-write :
      (name : Text) (hostsubnet : HostSubnet)
      → remove_host_subnet_ips services (name, hostsubnet)
        ≡ write services (update_host_subnet (with_ips hostsubnet []))
  unfolding remove_host_subnet_ips
  remove-eq-write name hostsubnet = refl

  remove-Keeps : (entry : Text × HostSubnet) → Keeps (remove_host_subnet_ips services entry)
  remove-Keeps (name, hostsubnet) = rw (remove-eq-write name hostsubnet) (write-Keeps services _)

  remove-Writes :
      (name : Text) (hostsubnet : HostSubnet)
      → Writes
          (remove_host_subnet_ips services (name, hostsubnet))
          (update_host_subnet (with_ips hostsubnet []))
  remove-Writes name hostsubnet = rw (remove-eq-write name hostsubnet) (write-Writes services _)

  pub remove_host_subnets-Keeps : Keeps (remove_host_subnet_assigned_ips_and_cidrs d services rc)
  unfolding remove_host_subnet_assigned_ips_and_cidrs
  remove_host_subnets-Keeps =
      schedule-Keeps d lawful (remove_host_subnet_ips services) rc.selected_host_subnets
        (λ e _. remove-Keeps e)

  -- If removeHostsubnetAssignedIPsAndCIDRs reports no error, every selected host subnet has been
  -- written with no address and no CIDR.
  pub remove_host_subnets-Writes :
      (name : Text) (hostsubnet : HostSubnet) (log : Log) (u : Unit {0})
      → Elem (name, hostsubnet) rc.selected_host_subnets
      → (remove_host_subnet_assigned_ips_and_cidrs d services rc log).0 ≡ ok u
      → Elem
          (update_host_subnet (with_ips hostsubnet []))
          (remove_host_subnet_assigned_ips_and_cidrs d services rc log).1
  unfolding remove_host_subnet_assigned_ips_and_cidrs
  remove_host_subnets-Writes name hostsubnet log u at done =
      schedule-Writes d lawful (remove_host_subnet_ips services) rc.selected_host_subnets
        (name, hostsubnet) _ (λ e _. remove-Keeps e) at (remove-Writes name hostsubnet) log u done
