-- ===== src/Infra/Aws/Secondary/Kept.antt =====
-- ReconcileInstanceSecondaryIPs of controllers/egressipam/aws/aws.go: it takes no write back
use egressip_ipam_operator.Prelude.{inl, inr, List, [], ◌∷◌, Text, Option-cases}
use egressip_ipam_operator.Deps.{Deps, IsLawful}
use egressip_ipam_operator.Go.Maps.{Map}
use egressip_ipam_operator.Context.{ReconcileContext}
use egressip_ipam_operator.Effects.{
  Services, Write, write, assign_private_ips, unassign_private_ips,
}
use egressip_ipam_operator.Effects.Goroutines.{Keeps, write-Keeps, schedule-Keeps}
use egressip_ipam_operator.Effects.Chains.{>>=-Keeping}
use egressip_ipam_operator.Infra.Aws.{Instance, interface_of}
use egressip_ipam_operator.Infra.Aws.Secondary.{
  unless_empty, remove_unused_of, reconcile_assigned_of, remove_aws_unused_ips,
  reconcile_aws_assigned_ips, reconcile_aws_secondary_ips,
}

unless_empty-Keeps :
    (services : Services) (w : List Text → Write) (ips : List Text)
    → Keeps (unless_empty ips (write services (w ips)))
unless_empty-Keeps services w [] = λ log v e. e
unless_empty-Keeps services w (ip ∷ ips) = write-Keeps services (w (ip ∷ ips))

module _ (d : Deps) (lawful : IsLawful d) (services : Services) (instances : Map Instance)
    (rc : ReconcileContext) where
  remove-Keeps : (x : Text × List Text) → Keeps (remove_unused_of d services instances rc x)
  unfolding remove_unused_of
  remove-Keeps (name, ips) = elim (Option-cases (interface_of instances rc name)) [
    | inl missing ↦ rw (remove_unused_of, missing) (λ log w e. e)
    | inr (interface, p) ↦
        rw (remove_unused_of, p)
          (unless_empty-Keeps services (unassign_private_ips interface.network_interface_id) _)
  ]

  assign-Keeps : (x : Text × List Text) → Keeps (reconcile_assigned_of d services instances rc x)
  unfolding reconcile_assigned_of
  assign-Keeps (name, ips) = elim (Option-cases (interface_of instances rc name)) [
    | inl missing ↦ rw (reconcile_assigned_of, missing) (λ log w e. e)
    | inr (interface, p) ↦
        rw (reconcile_assigned_of, p)
          (unless_empty-Keeps services (assign_private_ips interface.network_interface_id) _)
  ]

  pub reconcile_aws_secondary_ips-Keeps :
      Keeps (reconcile_aws_secondary_ips d services instances rc)
  unfolding reconcile_aws_secondary_ips remove_aws_unused_ips reconcile_aws_assigned_ips
  reconcile_aws_secondary_ips-Keeps =
      >>=-Keeping (remove_aws_unused_ips d services instances rc) _
        (schedule-Keeps d lawful (remove_unused_of d services instances rc)
          rc.finally_assigned_ips_by_node (λ x _. remove-Keeps x))
        (λ _.
          schedule-Keeps d lawful (reconcile_assigned_of d services instances rc)
            rc.finally_assigned_ips_by_node (λ x _. assign-Keeps x))
