-- ===== src/Infra/Aws/Secondary/Removed.antt =====
-- removeAllAWSAssignedIPs of controllers/egressipam/aws/aws.go
use egressip_ipam_operator.Prelude.{
  ◌≡◌, refl, inl, inr, some, List, [], ◌∷◌, Text, Elem, Option-cases,
}
use egressip_ipam_operator.Deps.{Deps, IsLawful}
use egressip_ipam_operator.Go.Results.{ok}
use egressip_ipam_operator.Go.Maps.{Map, get}
use egressip_ipam_operator.Api.{Node}
use egressip_ipam_operator.Context.{ReconcileContext}
use egressip_ipam_operator.Effects.{Log, Services, write, unassign_private_ips}
use egressip_ipam_operator.Effects.Goroutines.{
  Keeps, Writes, write-Keeps, write-Writes, schedule-Keeps, schedule-Writes,
}
use egressip_ipam_operator.Effects.Chains.{>>=-Keeping, >>-Writes_first, >>-Writes_second}
use egressip_ipam_operator.Infra.Aws.{
  PrivateIp, Instance, NetworkInterface, first_interface, get_aws_id_from_node,
}
use egressip_ipam_operator.Infra.Aws.Secondary.{
  unassign_each, unassign_all, remove_all_of, remove_all_aws_assigned_ips,
}

module _ (services : Services) where
  unassign_each-Keeps : (id : Text) (ips : List PrivateIp) → Keeps (unassign_each services id ips)
  unfolding unassign_each
  unassign_each-Keeps id [] = λ log w e. e
  unassign_each-Keeps id (ip ∷ ips) =
      >>=-Keeping (write services (unassign_private_ips id (ip.private_ip_address ∷ [])))
        (λ _. unassign_each services id ips) (write-Keeps services _)
        (λ _. unassign_each-Keeps id ips)

  unassign_each-Writes :
      (id : Text) (ips : List PrivateIp) (ip : PrivateIp)
      → Elem ip ips
      → Writes
          (unassign_each services id ips)
          (unassign_private_ips id (ip.private_ip_address ∷ []))
  unfolding unassign_each
  unassign_each-Writes id [] ip e = absurd e
  unassign_each-Writes id (ip' ∷ ips) ip (inl p) =
      let write_eq : unassign_private_ips id (ip.private_ip_address ∷ [])
          ≡ unassign_private_ips id (ip'.private_ip_address ∷ []) =
        rw p refl in
      >>-Writes_first (write services (unassign_private_ips id (ip'.private_ip_address ∷ [])))
        (unassign_each services id ips) _
        (rw write_eq
          (write-Writes services (unassign_private_ips id (ip'.private_ip_address ∷ []))))
        (unassign_each-Keeps id ips)
  unassign_each-Writes id (ip' ∷ ips) ip (inr e) =
      >>-Writes_second (write services (unassign_private_ips id (ip'.private_ip_address ∷ [])))
        (unassign_each services id ips) _ (unassign_each-Writes id ips ip e)

  unassign_all-Keeps : (id : Text) (ips : List PrivateIp) → Keeps (unassign_all services id ips)
  unassign_all-Keeps id [] = λ log w e. e
  unassign_all-Keeps id (_ ∷ ips) = unassign_each-Keeps id ips

  module _ (instances : Map Instance) where
    remove_all_of-Keeps : (x : Text × Node) → Keeps (remove_all_of services instances x)
    unfolding remove_all_of
    remove_all_of-Keeps (name, node) =
        elim (Option-cases (get instances (get_aws_id_from_node node))) [
          | inl missing ↦ rw (remove_all_of, missing) (λ log w e. e)
          | inr (instance', p) ↦
              rw (remove_all_of, p)
                (elim (Option-cases (first_interface (some instance'))) [
                  | inl missing ↦ rw missing (λ log w e. e)
                  | inr (interface, q) ↦ rw q (
                      unassign_all-Keeps interface.network_interface_id
                        interface.private_ip_addresses)
                ])
        ]

    module _ (d : Deps) (lawful : IsLawful d) (rc : ReconcileContext) where
      pub remove_all_aws_assigned_ips-Keeps :
          Keeps (remove_all_aws_assigned_ips d services instances rc)
      unfolding remove_all_aws_assigned_ips
      remove_all_aws_assigned_ips-Keeps =
          schedule-Keeps d lawful (remove_all_of services instances) rc.selected_nodes
            (λ x _. remove_all_of-Keeps x)

      module _ (name : Text) (node : Node) (instance' : Instance) (interface : NetworkInterface)
          (primary : PrivateIp) (secondary : List PrivateIp)
          (here : get instances (get_aws_id_from_node node) ≡ some instance')
          (first : first_interface (some instance') ≡ some interface)
          (carries : interface.private_ip_addresses ≡ primary ∷ secondary) where
        remove_all_of-eq-unassign_each :
            remove_all_of services instances (name, node)
            ≡ unassign_each services interface.network_interface_id secondary
        unfolding remove_all_of
        remove_all_of-eq-unassign_each = rw (remove_all_of, here, first, carries) refl

        -- If removeAllAWSAssignedIPs reports no error, then each address of the first interface of the
        -- instance of a selected node, but the first one, has been taken away.
        pub remove_all_aws_assigned_ips-Writes :
            (ip : PrivateIp) (log : Log) (u : Unit {0})
            → Elem (name, node) rc.selected_nodes
            → Elem ip secondary
            → (remove_all_aws_assigned_ips d services instances rc log).0 ≡ ok u
            → Elem
                (unassign_private_ips interface.network_interface_id (ip.private_ip_address ∷ []))
                (remove_all_aws_assigned_ips d services instances rc log).1
        unfolding remove_all_aws_assigned_ips
        remove_all_aws_assigned_ips-Writes ip log u at e done =
            schedule-Writes d lawful (remove_all_of services instances) rc.selected_nodes
              (name, node) _ (λ x _. remove_all_of-Keeps x) at
              (rw remove_all_of-eq-unassign_each
                (unassign_each-Writes interface.network_interface_id secondary ip e))
              log u done
