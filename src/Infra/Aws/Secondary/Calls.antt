-- ===== src/Infra/Aws/Secondary/Calls.antt =====
-- The calls that ReconcileInstanceSecondaryIPs of controllers/egressipam/aws/aws.go makes, node by node
use mathlib.Core.List.{append-nil}
use egressip_ipam_operator.Prelude.{
  ◌≡◌, refl, sym, inl, inr, Option, none, some, List, [], ◌∷◌, Text, Elem, Option-cases,
}
use egressip_ipam_operator.Deps.{Deps, IsLawful}
use egressip_ipam_operator.Go.Results.{ok}
use egressip_ipam_operator.Go.Maps.{Map}
use egressip_ipam_operator.Context.{ReconcileContext}
use egressip_ipam_operator.Effects.{
  Log, Write, Services, write, assign_private_ips, unassign_private_ips,
}
use egressip_ipam_operator.Effects.News.{Emits, write-Emits, News, schedule-News}
use egressip_ipam_operator.Infra.Aws.{Instance, NetworkInterface, interface_of}
use egressip_ipam_operator.Infra.Aws.Secondary.{
  secondary_ips, unless_empty, remove_unused_of, reconcile_assigned_of, remove_aws_unused_ips,
  reconcile_aws_assigned_ips,
}

abbrev pub current : NetworkInterface → List Text
current interface = secondary_ips interface.private_ip_addresses

-- A call with a list of addresses, unless it is empty.
abbrev pub call : (List Text → Write) → List Text → List Write
call w [] = []
call w (ip ∷ ips) = w (ip ∷ ips) ∷ []

unless_empty-Emits :
    (services : Services) (w : List Text → Write) (ips : List Text)
    → Emits (unless_empty ips (write services (w ips))) (call w ips)
unless_empty-Emits services w [] log u e = sym (append-nil log)
unless_empty-Emits services w (ip ∷ ips) log u e = write-Emits services (w (ip ∷ ips)) log u e

pub Elem-call :
    (w : List Text → Write) (ips : List Text) (v : Write) → Elem v (call w ips) → v ≡ w ips
Elem-call w [] v e = absurd e
Elem-call w (ip ∷ ips) v (inl p) = p
Elem-call w (ip ∷ ips) v (inr z) = absurd z

pub Elem-call_inv :
    (w : List Text → Write) (ips : List Text) (k : Text) → Elem k ips → Elem (w ips) (call w ips)
Elem-call_inv w [] k e = absurd e
Elem-call_inv w (ip ∷ ips) k e = inl refl

module _ (d : Deps) (lawful : IsLawful d) (services : Services) (instances : Map Instance)
    (rc : ReconcileContext) where
  abbrev pub removed : Option NetworkInterface → List Text → List Write
  removed none ips = []
  removed (some interface) ips =
      call (unassign_private_ips interface.network_interface_id)
        (d.difference (current interface) ips)

  abbrev pub assigned : Option NetworkInterface → List Text → List Write
  assigned none ips = []
  assigned (some interface) ips =
      call (assign_private_ips interface.network_interface_id)
        (d.difference ips (current interface))

  abbrev pub removed_of : Text × List Text → List Write
  removed_of (name, ips) = removed (interface_of instances rc name) ips

  abbrev pub assigned_of : Text × List Text → List Write
  assigned_of (name, ips) = assigned (interface_of instances rc name) ips

  remove-Emits :
      (x : Text × List Text) → Emits (remove_unused_of d services instances rc x) (removed_of x)
  unfolding remove_unused_of
  remove-Emits (name, ips) = elim (Option-cases (interface_of instances rc name)) [
    | inl missing ↦ rw (remove_unused_of, missing) (λ log u e. cc)
    | inr (interface, p) ↦
        rw (remove_unused_of, p)
          (unless_empty-Emits services (unassign_private_ips interface.network_interface_id) _)
  ]

  assign-Emits :
      (x : Text × List Text)
      → Emits (reconcile_assigned_of d services instances rc x) (assigned_of x)
  unfolding reconcile_assigned_of
  assign-Emits (name, ips) = elim (Option-cases (interface_of instances rc name)) [
    | inl missing ↦ rw (reconcile_assigned_of, missing) (λ log u e. cc)
    | inr (interface, p) ↦
        rw (reconcile_assigned_of, p)
          (unless_empty-Emits services (assign_private_ips interface.network_interface_id) _)
  ]

  pub removed-inv :
      (o : Option NetworkInterface) (ips : List Text) (w : Write)
      → Elem w (removed o ips)
      → (interface : NetworkInterface) × (o ≡ some interface)
        × (w
            ≡ unassign_private_ips interface.network_interface_id
                (d.difference (current interface) ips))
  removed-inv none ips w e = absurd e
  removed-inv (some interface) ips w e =
      (interface, refl, Elem-call (unassign_private_ips interface.network_interface_id) _ w e)

  pub assigned-inv :
      (o : Option NetworkInterface) (ips : List Text) (w : Write)
      → Elem w (assigned o ips)
      → (interface : NetworkInterface) × (o ≡ some interface)
        × (w
            ≡ assign_private_ips interface.network_interface_id
                (d.difference ips (current interface)))
  assigned-inv none ips w e = absurd e
  assigned-inv (some interface) ips w e =
      (interface, refl, Elem-call (assign_private_ips interface.network_interface_id) _ w e)

  pub removal-News :
      (log : Log) (u : Unit {0})
      → (remove_aws_unused_ips d services instances rc log).0 ≡ ok u
      → News removed_of rc.finally_assigned_ips_by_node log
          (remove_aws_unused_ips d services instances rc log).1
  unfolding remove_aws_unused_ips
  removal-News =
      schedule-News (remove_unused_of d services instances rc) removed_of
        rc.finally_assigned_ips_by_node (λ x _. remove-Emits x) d lawful

  pub assignment-News :
      (log : Log) (u : Unit {0})
      → (reconcile_aws_assigned_ips d services instances rc log).0 ≡ ok u
      → News assigned_of rc.finally_assigned_ips_by_node log
          (reconcile_aws_assigned_ips d services instances rc log).1
  unfolding reconcile_aws_assigned_ips
  assignment-News =
      schedule-News (reconcile_assigned_of d services instances rc) assigned_of
        rc.finally_assigned_ips_by_node (λ x _. assign-Emits x) d lawful
