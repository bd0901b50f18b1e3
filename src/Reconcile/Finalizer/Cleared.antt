-- ===== src/Reconcile/Finalizer/Cleared.antt =====
-- RemoveAllAssignedIPs of the infrastructures, as manageCleanUpLogic of
-- controllers/egressipam/egressipam_controller.go calls it
use egressip_ipam_operator.Prelude.{◌≡◌, refl, ap, subst, true, some, List, [], ◌∷◌, Text, Elem}
use egressip_ipam_operator.Deps.{Deps, IsLawful}
use egressip_ipam_operator.Go.Results.{Result, ok}
use egressip_ipam_operator.Go.Maps.{Map, keys, get}
use egressip_ipam_operator.Api.{Node, Platform, aws, azure, gcp, other}
use egressip_ipam_operator.Context.{ReconcileContext}
use egressip_ipam_operator.Network.{VirtualMachine}
use egressip_ipam_operator.Effects.{Log, Write, Services, unassign_private_ips}
use egressip_ipam_operator.Infra.{Infra}
use egressip_ipam_operator.Infra.BareMetal.{bare_metal_infra}
use egressip_ipam_operator.Infra.Aws.{
  Ec2, PrivateIp, NetworkInterface, Instance, first_interface, get_aws_id_from_node,
}
use egressip_ipam_operator.Infra.Aws.Client.{aws_infra}
use egressip_ipam_operator.Infra.Aws.Secondary.Removed.{remove_all_aws_assigned_ips-Writes}
use egressip_ipam_operator.Infra.Azure.{Azure}
use egressip_ipam_operator.Infra.Azure.Client.{azure_infra}
use egressip_ipam_operator.Infra.Azure.Addresses.Cleared.{
  IsPrimaryOnly, remove_all_azure_secondary_ips-Makes,
}
use egressip_ipam_operator.Reconcile.Load.{Clouds, is_cloud_infrastructure}
use egressip_ipam_operator.Reconcile.Load.Provided.{IsBuilt, for_aws, for_azure, for_gcp, for_other}

-- Each address but the first of the first interface of a node's instance has been taken away.
abbrev pub IsUnassigned : Map Instance → Map Node → Log → Type 0
IsUnassigned instances nodes log =
    (name : Text) (node : Node) (instance' : Instance) (interface : NetworkInterface)
    (primary : PrivateIp) (secondary : List PrivateIp) (ip : PrivateIp)
    → Elem (name, node) nodes
    → get instances (get_aws_id_from_node node) ≡ some instance'
    → first_interface (some instance') ≡ some interface
    → interface.private_ip_addresses ≡ primary ∷ secondary
    → Elem ip secondary
    → Elem (unassign_private_ips interface.network_interface_id (ip.private_ip_address ∷ [])) log

-- The interface of each node's machine has been written with its primary configurations alone.
abbrev pub IsStripped : Azure → Map VirtualMachine → Map Node → Log → Type 0
IsStripped client instances nodes log =
    (name : Text)
    → Elem name (keys nodes)
    → (w : Write) × IsPrimaryOnly client instances name w × Elem w log

-- What a log must have of an infrastructure whose addresses have all been taken away.
pub data IsCleared (d : Deps) (services : Services) (nodes : Map Node) (log : Log)
    : Platform → Infra → Type 0 where
  on_aws_cleared :
      (client : Ec2) (instances : Map Instance)
      → IsUnassigned instances nodes log
      → IsCleared d services nodes log aws (aws_infra d services client instances)
  on_azure_cleared :
      (client : Azure) (instances : Map VirtualMachine)
      → IsStripped client instances nodes log
      → IsCleared d services nodes log azure (azure_infra d services client instances)
  -- Nothing is to be taken away.
  on_gcp : IsCleared d services nodes log gcp bare_metal_infra
  elsewhere : IsCleared d services nodes log other bare_metal_infra

-- What a call of RemoveAllAssignedIPs that ended in `log` has done.
abbrev WasCalled : Platform → Infra → ReconcileContext → Log → Type 0
WasCalled platform infra rc log =
    is_cloud_infrastructure platform ≡ true
    → (start : Log) × (v : Unit {0}) × (infra.remove_all_assigned_ips rc start ≡ (ok v, log))

module _ (d : Deps) (lawful : IsLawful d) (services : Services) (clouds : Clouds)
    (rc : ReconcileContext) (log : Log) where
  pub IsBuilt-IsCleared :
      (secret : Map Text) (platform : Platform) (infra : Infra)
      → IsBuilt d services clouds secret rc.selected_nodes platform infra
      → WasCalled platform infra rc log
      → IsCleared d services rc.selected_nodes log platform infra
  unfolding is_cloud_infrastructure aws_infra azure_infra
  IsBuilt-IsCleared secret _ _ (for_aws id key found before instances answer) called =
      let (start, v, e) = called refl in
      on_aws_cleared (clouds.ec2 id key) instances
        λ name node instance' interface primary secondary ip at here first carries among.
          subst (Elem _) (ap (λ (r : Result (Unit {0}) × Log). r.1) e) (
            remove_all_aws_assigned_ips-Writes services instances d lawful rc name node instance'
              interface primary secondary here first carries ip start v at among
              (ap (λ (r : Result (Unit {0}) × Log). r.0) e))
  IsBuilt-IsCleared secret _ _ (for_azure _ client found made before instances answer) called =
      let (start, v, e) = called refl in
      on_azure_cleared client instances λ name at.
        remove_all_azure_secondary_ips-Makes client instances services d lawful rc name start v log
          at e
  IsBuilt-IsCleared secret _ _ for_gcp called = on_gcp
  IsBuilt-IsCleared secret _ _ for_other called = elsewhere
