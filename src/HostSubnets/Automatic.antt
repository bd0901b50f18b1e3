-- ===== src/HostSubnets/Automatic.antt =====
-- assignCIDRsToHostSubnets of controllers/egressipam/hostsubnet.go
use egressip_ipam_operator.Prelude.{
  ◌≡◌, ◌↔◌, ◌⊎◌, false, not, List, [], ◌∷◌, Text, Elem, Bool-cases, inl, inr, if◌then◌else◌,
}
use egressip_ipam_operator.Deps.{Deps, IsLawful}
use egressip_ipam_operator.Go.Results.{ok}
use egressip_ipam_operator.Go.Maps.{keys, get_or_zero}
use egressip_ipam_operator.Api.{HostSubnet}
use egressip_ipam_operator.Context.{ReconcileContext}
use egressip_ipam_operator.Effects.{Action, Log, Services, pure, write, update_host_subnet}
use egressip_ipam_operator.Effects.Goroutines.{Keeps, Writes, write-Keeps, write-Writes}
use egressip_ipam_operator.Effects.Chains.{>>=-Keeping, >>-Writes_first, >>-Writes_second}
use egressip_ipam_operator.HostSubnets.{
  zero_host_subnet, assign_cidr, assign_cidrs, assign_cidrs_to_host_subnets,
}

abbrev pub with_cidr : HostSubnet → Text → HostSubnet
with_cidr hostsubnet cidr = record hostsubnet { egress_cidrs = cidr ∷ []; egress_ips = [] }

abbrev pub host_subnet_of : ReconcileContext → Text → HostSubnet
host_subnet_of rc node = get_or_zero zero_host_subnet rc.all_host_subnets node

module _ (d : Deps) (lawful : IsLawful d) (services : Services) (rc : ReconcileContext) where
  abbrev step : Text → Text → Action (Unit {0})
  step cidr node =
      if not (d.is_equal (host_subnet_of rc node).egress_cidrs (cidr ∷ []))
      then write services (update_host_subnet (with_cidr (host_subnet_of rc node) cidr))
      else pure tt

  step-Keeps : (cidr node : Text) → Keeps (step cidr node)
  step-Keeps cidr node =
      elim (Bool-cases (d.is_equal (host_subnet_of rc node).egress_cidrs (cidr ∷ []))) [
        | inl same ↦ rw same (λ log w e. e)
        | inr differs ↦ rw differs (write-Keeps services _)
      ]

  assign_cidr-Keeps :
      (cidr : Text) (nodes : List Text) → Keeps (assign_cidr d services rc cidr nodes)
  unfolding assign_cidr
  assign_cidr-Keeps cidr [] = λ log w e. e
  assign_cidr-Keeps cidr (node ∷ nodes) =
      >>=-Keeping (step cidr node) _ (step-Keeps cidr node) (λ _. assign_cidr-Keeps cidr nodes)

  assign_cidrs-Keeps : (cidrs : List Text) → Keeps (assign_cidrs d services rc cidrs)
  unfolding assign_cidrs
  assign_cidrs-Keeps [] = λ log w e. e
  assign_cidrs-Keeps (cidr ∷ cidrs) =
      >>=-Keeping (assign_cidr d services rc cidr (get_or_zero [] rc.selected_nodes_by_cidr cidr)) _
        (assign_cidr-Keeps cidr _) (λ _. assign_cidrs-Keeps cidrs)

  pub assign_cidrs_to_host_subnets-Keeps : Keeps (assign_cidrs_to_host_subnets d services rc)
  unfolding assign_cidrs_to_host_subnets
  assign_cidrs_to_host_subnets-Keeps = assign_cidrs-Keeps (d.range (keys rc.selected_nodes_by_cidr))

  module _ (cidr node : Text)
      (differs : d.is_equal (host_subnet_of rc node).egress_cidrs (cidr ∷ []) ≡ false) where
    step-Writes :
        Writes (step cidr node) (update_host_subnet (with_cidr (host_subnet_of rc node) cidr))
    step-Writes = rw differs (write-Writes services _)

    assign_cidr-Writes :
        (nodes : List Text)
        → Elem node nodes
        → Writes
            (assign_cidr d services rc cidr nodes)
            (update_host_subnet (with_cidr (host_subnet_of rc node) cidr))
    unfolding assign_cidr
    assign_cidr-Writes [] at = absurd at
    assign_cidr-Writes (n ∷ nodes) (inl p) =
        >>-Writes_first (step cidr n) (assign_cidr d services rc cidr nodes) _
          (rw (← p) step-Writes) (assign_cidr-Keeps cidr nodes)
    assign_cidr-Writes (n ∷ nodes) (inr at) =
        >>-Writes_second (step cidr n) (assign_cidr d services rc cidr nodes) _
          (assign_cidr-Writes nodes at)

    assign_cidrs-Writes :
        (cidrs : List Text)
        → Elem cidr cidrs
        → Elem node (get_or_zero [] rc.selected_nodes_by_cidr cidr)
        → Writes
            (assign_cidrs d services rc cidrs)
            (update_host_subnet (with_cidr (host_subnet_of rc node) cidr))
    unfolding assign_cidrs
    assign_cidrs-Writes [] at here = absurd at
    assign_cidrs-Writes (c ∷ cidrs) (inl p) here =
        >>-Writes_first (assign_cidr d services rc c (get_or_zero [] rc.selected_nodes_by_cidr c))
          (assign_cidrs d services rc cidrs) _
          (rw (← p) (assign_cidr-Writes (get_or_zero [] rc.selected_nodes_by_cidr cidr) here))
          (assign_cidrs-Keeps cidrs)
    assign_cidrs-Writes (c ∷ cidrs) (inr at) here =
        >>-Writes_second (assign_cidr d services rc c (get_or_zero [] rc.selected_nodes_by_cidr c))
          (assign_cidrs d services rc cidrs) _ (assign_cidrs-Writes cidrs at here)

  -- If assignCIDRsToHostSubnets reports no error, the host subnet of each selected node of each CIDR
  -- either had this CIDR alone already, or has been written with it alone and with no address.
  pub assign_cidrs_to_host_subnets-Writes :
      (cidr node : Text) (log : Log) (u : Unit {0})
      → Elem cidr (keys rc.selected_nodes_by_cidr)
      → Elem node (get_or_zero [] rc.selected_nodes_by_cidr cidr)
      → (assign_cidrs_to_host_subnets d services rc log).0 ≡ ok u
      → ((k : Text) → Elem k (host_subnet_of rc node).egress_cidrs ↔ Elem k (cidr ∷ []))
        ⊎ Elem
            (update_host_subnet (with_cidr (host_subnet_of rc node) cidr))
            (assign_cidrs_to_host_subnets d services rc log).1
  unfolding assign_cidrs_to_host_subnets
  assign_cidrs_to_host_subnets-Writes cidr node log u at here done =
      elim (Bool-cases (d.is_equal (host_subnet_of rc node).egress_cidrs (cidr ∷ []))) [
        | inl same ↦ inl ((lawful.is_equal_iff _ _).0 same)
        | inr differs ↦ inr (
            assign_cidrs-Writes cidr node differs (d.range (keys rc.selected_nodes_by_cidr))
              ((lawful.range_elem _ cidr).1 at) here log u done)
      ]
