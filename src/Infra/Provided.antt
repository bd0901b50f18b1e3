-- ===== src/Infra/Provided.antt =====
-- The three implementations of the interface `Infra`
use egressip_ipam_operator.Prelude.{◌≡◌, ◌≤◌, ap, sym, ◌∙◌, some, List, [], Text, Elem, All}
use egressip_ipam_operator.Deps.{Deps, IsLawful}
use egressip_ipam_operator.Go.Results.{Result, ok, ok-injective}
use egressip_ipam_operator.Go.Maps.{Map}
use egressip_ipam_operator.Go.Net.{Ip, IpNet, size, parse_cidr}
use egressip_ipam_operator.Go.Net.Networks.{InNet}
use egressip_ipam_operator.Context.{ReconcileContext}
use egressip_ipam_operator.Network.{VirtualMachine}
use egressip_ipam_operator.Effects.{Log, Services}
use egressip_ipam_operator.Effects.Goroutines.{Keeps}
use egressip_ipam_operator.Infra.{Infra}
use egressip_ipam_operator.Infra.BareMetal.{bare_metal_infra, get_used_ips_by_cidr}
use egressip_ipam_operator.Infra.Aws.{Ec2, Instance}
use egressip_ipam_operator.Infra.Aws.Client.{aws_infra}
use egressip_ipam_operator.Infra.Aws.Secondary.Removed.{remove_all_aws_assigned_ips-Keeps}
use egressip_ipam_operator.Infra.Aws.Secondary.Kept.{reconcile_aws_secondary_ips-Keeps}
use egressip_ipam_operator.Infra.Azure.Addresses.Kept.{reconcile_azure_assigned_ips-Keeps}
use egressip_ipam_operator.Infra.Aws.Used.Within.{get_aws_used_ips-InNet}
use egressip_ipam_operator.Infra.Azure.{Azure}
use egressip_ipam_operator.Infra.Azure.Client.{azure_infra}
use egressip_ipam_operator.Infra.Azure.Addresses.Removed.{remove_all_azure_secondary_ips-Keeps}
use egressip_ipam_operator.Infra.Azure.Used.Within.{get_azure_used_ips-InNet}
use egressip_ipam_operator.Ipam.Namespaces.Merged.{ips_at}
use egressip_ipam_operator.Ipam.Namespaces.Taken.{empty_by_cidr-IsEmptyBy}

pub data IsProvided (d : Deps) (services : Services) : Infra → Type 0 where
  bare_metal : IsProvided d services bare_metal_infra
  on_aws :
      (ec2 : Ec2) (instances : Map Instance)
      → IsProvided d services (aws_infra d services ec2 instances)
  on_azure :
      (azure : Azure) (instances : Map VirtualMachine)
      → IsProvided d services (azure_infra d services azure instances)

module _ (d : Deps) (lawful : IsLawful d) (services : Services) where
  pub remove_all_assigned_ips-Keeps :
      (infra : Infra)
      → IsProvided d services infra
      → (rc : ReconcileContext) → Keeps (infra.remove_all_assigned_ips rc)
  unfolding bare_metal_infra aws_infra azure_infra
  remove_all_assigned_ips-Keeps _ bare_metal rc = λ log w e. e
  remove_all_assigned_ips-Keeps _ (on_aws ec2 instances) rc =
      remove_all_aws_assigned_ips-Keeps services instances d lawful rc
  remove_all_assigned_ips-Keeps _ (on_azure azure instances) rc =
      remove_all_azure_secondary_ips-Keeps azure services instances d lawful rc

  pub reconcile_instance_secondary_ips-Keeps :
      (infra : Infra)
      → IsProvided d services infra
      → (rc : ReconcileContext) → Keeps (infra.reconcile_instance_secondary_ips rc)
  unfolding bare_metal_infra aws_infra azure_infra
  reconcile_instance_secondary_ips-Keeps _ bare_metal rc = λ log w e. e
  reconcile_instance_secondary_ips-Keeps _ (on_aws ec2 instances) rc =
      reconcile_aws_secondary_ips-Keeps d lawful services instances rc
  reconcile_instance_secondary_ips-Keeps _ (on_azure azure instances) rc =
      reconcile_azure_assigned_ips-Keeps d lawful services azure instances rc

  module _ (cidr : Text) (base : Ip) (net : IpNet) (parsed : parse_cidr cidr ≡ some (base, net))
      (at_base : base ≡ net.ip) (room : 4 ≤ size net) (rc : ReconcileContext)
      (at : Elem cidr rc.cidrs) where
    -- The addresses at a CIDR that an infrastructure reports as used lie in the CIDR's network, if the
    -- CIDR is written with its network's address and has a prefix length of at most 30.
    pub get_used_ips-InNet :
        (infra : Infra)
        → IsProvided d services infra
        → (log : Log) (m : Map (List Ip)) (log' : Log)
        → infra.get_used_ips_by_cidr rc log ≡ (ok m, log')
        → All (InNet net) (ips_at m cidr)
    unfolding bare_metal_infra aws_infra azure_infra get_used_ips_by_cidr
    get_used_ips-InNet _ bare_metal log m log' e =
        let same : ips_at m cidr ≡ [] =
          ap (λ (n : Map (List Ip)). ips_at n cidr)
            (sym (ok-injective (ap (λ (r : Result (Map (List Ip)) × Log). r.0) e)))
          ∙ (empty_by_cidr-IsEmptyBy rc.cidrs).empty cidr in
        rw same tt
    get_used_ips-InNet _ (on_aws ec2 instances) log m log' e =
        get_aws_used_ips-InNet d lawful cidr base net parsed at_base room ec2 rc log m log' at e
    get_used_ips-InNet _ (on_azure azure instances) log m log' e =
        get_azure_used_ips-InNet d lawful cidr base net parsed at_base room rc at azure instances
          log m log' e
