-- ===== src/Tests/Infras.antt =====
-- The theorems on the clouds, at the instances and machines of the small cluster.
use egressip_ipam_operator.Prelude.{
  ◌≡◌, ◌↔◌, ◌⊎◌, refl, true, false, none, some, List, [], ◌∷◌, ◌++◌, Text, codes, text_eq_iff, Elem,
  All, inl, inr, sym, ap, ◌∙◌, is_among, arith,
}
use egressip_ipam_operator.Go.Results.{ok}
use egressip_ipam_operator.Go.Maps.{Map}
use egressip_ipam_operator.Go.Net.{Ip, IpNet, parse_cidr}
use egressip_ipam_operator.Go.Net.Networks.{InNet}
use egressip_ipam_operator.Api.{Node, HostSubnet}
use egressip_ipam_operator.Context.{ReconcileContext}
use egressip_ipam_operator.Network.{IpConfiguration}
use egressip_ipam_operator.Effects.{
  Write, update_host_subnet, assign_private_ips, unassign_private_ips,
}
use egressip_ipam_operator.Effects.Carried.{carried}
use egressip_ipam_operator.Infra.Provided.{on_aws, get_used_ips-InNet}
use egressip_ipam_operator.Infra.Aws.{NetworkInterface, interface_of, get_aws_id_from_provider_id}
use egressip_ipam_operator.Infra.Aws.Client.{aws_infra}
use egressip_ipam_operator.Infra.Aws.Used.{get_aws_used_ips}
use egressip_ipam_operator.Infra.Aws.Secondary.{
  secondary_ips, reconcile_aws_secondary_ips, remove_all_aws_assigned_ips,
}
use egressip_ipam_operator.Infra.Aws.Secondary.Calls.{current}
use egressip_ipam_operator.Infra.Aws.Secondary.Reached.{reconcile_aws_secondary_ips-Reaches}
use egressip_ipam_operator.Infra.Aws.Secondary.Removed.{remove_all_aws_assigned_ips-Writes}
use egressip_ipam_operator.Infra.Used.{used_by_cidr}
use egressip_ipam_operator.Infra.Used.Listed.{IsReported, used_by_cidr-Listed}
use egressip_ipam_operator.Infra.Azure.Addresses.{
  secondary_addresses, primary_only, with_ips, without_ips, is_removed,
}
use egressip_ipam_operator.Infra.Azure.Addresses.Reached.{
  KeepsPrimary, unneeded, remaining, lacking, with_ips-without_ips,
}
use egressip_ipam_operator.HostSubnets.{assign_cidrs_to_host_subnets}
use egressip_ipam_operator.HostSubnets.Automatic.{
  with_cidr, host_subnet_of, assign_cidrs_to_host_subnets-Writes,
}
use egressip_ipam_operator.Ipam.Namespaces.Merged.{ips_at}
use egressip_ipam_operator.Tests.Clouds.{private_ip, eni_1, eni_2, instances, ec2, nic}
use egressip_ipam_operator.Tests.Cluster.{cidr, context, services, subnet, ready, running}
use egressip_ipam_operator.Tests.Reference.{reference, reference-IsLawful, is_equal}

acting : Unit {0}
unfolding running interface_of secondary_ips reconcile_aws_secondary_ips remove_all_aws_assigned_ips
    assign_cidrs_to_host_subnets primary_only secondary_addresses without_ips with_ips carried
    get_aws_id_from_provider_id is_among is_equal aws_infra get_aws_used_ips
acting = tt

abbrev needed : List Text
needed = codes "10.0.0.2" ∷ codes "10.0.0.4" ∷ []

abbrev on_instance : Text → Text → Node
on_instance name id = record (ready name) { provider_id = id }

abbrev nodes : Map Node
nodes =
    (codes "n1", on_instance (codes "n1") (codes "aws:///i-1"))
    ∷ (codes "n2", on_instance (codes "n2") (codes "aws:///i-2"))
    ∷ []

abbrev on_instances : ReconcileContext
on_instances = record context {
  all_nodes = nodes;
  selected_nodes = nodes;
  finally_assigned_ips_by_node = (codes "n1", needed) ∷ (codes "n2", []) ∷ [];
}

abbrev net : IpNet
net = record { ip = 167772160; ones = 29 }

abbrev used : Map (List Ip)
used = (cidr, 167772165 ∷ 167772162 ∷ 167772166 ∷ 167772161 ∷ 167772162 ∷ 167772163 ∷ []) ∷ []

eni_2-differs : codes "eni-2" ≡ codes "eni-1" → ⊥
unfolding acting
eni_2-differs e = let clash : false ≡ true = (text_eq_iff (codes "eni-2") (codes "eni-1")).1 e in cc

eni_1-own :
    (e : Text × List Text) (other : NetworkInterface)
    → Elem e on_instances.finally_assigned_ips_by_node
    → interface_of instances on_instances e.0 ≡ some other
    → other.network_interface_id ≡ codes "eni-1"
    → e ≡ (codes "n1", needed)
unfolding acting
eni_1-own e other (inl p) h i = p
eni_1-own e other (inr (inl p)) h i =
    let second : some eni_2 ≡ some other =
      ap (λ (x : Text × List Text). interface_of instances on_instances x.0) (sym p) ∙ h in
    let same : eni_2 ≡ other = cc in
    absurd (eni_2-differs (ap (λ (n : NetworkInterface). n.network_interface_id) same ∙ i))
eni_1-own e other (inr (inr z)) h i = absurd z

reconcile_aws_secondary_ips-Reaches_example :
    (calls : List Write) × (unassign_private_ips (codes "eni-1") (codes "10.0.0.6" ∷ [])
        ∷ assign_private_ips (codes "eni-1") (codes "10.0.0.4" ∷ [])
        ∷ []
      ≡ [] ++ calls)
    × ((k : Text) → Elem k (carried (codes "eni-1") calls (current eni_1)) ↔ Elem k needed)
unfolding acting
reconcile_aws_secondary_ips-Reaches_example =
    reconcile_aws_secondary_ips-Reaches reference reference-IsLawful services instances on_instances
      (codes "n1") needed eni_1 (inl refl) refl eni_1-own [] tt _ refl

remove_all_aws_assigned_ips-Writes_example :
    Elem
      (unassign_private_ips (codes "eni-1") (codes "10.0.0.6" ∷ []))
      (remove_all_aws_assigned_ips reference services instances on_instances []).1
unfolding acting
remove_all_aws_assigned_ips-Writes_example =
    remove_all_aws_assigned_ips-Writes services instances reference reference-IsLawful on_instances
      (codes "n1") (on_instance (codes "n1") (codes "aws:///i-1")) _ eni_1 _ _ refl refl refl
      (private_ip false (codes "10.0.0.6")) [] tt (inl refl) (inr (inl refl)) refl

-- The addresses of the interfaces are reported, and the first three behind the base address.
get_used_ips-InNet_example : All (InNet net) (ips_at used cidr)
unfolding acting
get_used_ips-InNet_example =
    get_used_ips-InNet reference reference-IsLawful services cidr 167772160 net refl refl
      (omega arith) on_instances (inl refl) (aws_infra reference services ec2 instances)
      (on_aws ec2 instances) [] used [] refl

cidr_parsed : parse_cidr cidr ≡ some (167772160, net)
unfolding acting
cidr_parsed = refl

used_by_cidr-Listed_example :
    IsReported
      (codes "10.0.0.5" ∷ codes "10.0.1.5" ∷ [])
      cidr
      167772160
      net
      cidr_parsed
      ((cidr, 167772165 ∷ []) ∷ [])
unfolding acting used_by_cidr
used_by_cidr-Listed_example =
    used_by_cidr-Listed (codes "10.0.0.5" ∷ codes "10.0.1.5" ∷ []) cidr 167772160 net cidr_parsed
      (cidr ∷ []) _ (inl refl) refl

not_removed : KeepsPrimary (unneeded reference needed nic.ip_configurations) nic.ip_configurations
unfolding acting
not_removed c (inl p) primary =
    ap
      (λ (x : IpConfiguration).
        is_removed (unneeded reference needed nic.ip_configurations) x.private_ip_address)
      p
not_removed c (inr (inl p)) primary =
    let clash : true ≡ false = sym primary ∙ ap (λ (x : IpConfiguration). x.primary) p in cc
not_removed c (inr (inr (inl p))) primary =
    let clash : true ≡ false = sym primary ∙ ap (λ (x : IpConfiguration). x.primary) p in cc
not_removed c (inr (inr (inr z))) primary = absurd z

with_ips-without_ips_example :
    (cs' : List IpConfiguration) × (with_ips none
        (lacking reference needed nic.ip_configurations)
        (remaining reference needed nic.ip_configurations)
      ≡ ok cs')
    × ((k : Text) → Elem k (secondary_addresses cs') ↔ Elem k needed)
    × (primary_only cs' ≡ primary_only nic.ip_configurations)
unfolding acting
with_ips-without_ips_example =
    with_ips-without_ips reference reference-IsLawful none needed nic.ip_configurations _ _ refl
      not_removed

abbrev subnet_n1 : HostSubnet
subnet_n1 = subnet (codes "n1") (codes "10.0.0.5") []

assign_cidrs_to_host_subnets-Writes_example :
    ((k : Text) → Elem k (host_subnet_of context (codes "n1")).egress_cidrs ↔ Elem k (cidr ∷ []))
    ⊎ Elem
        (update_host_subnet (with_cidr (host_subnet_of context (codes "n1")) cidr))
        (assign_cidrs_to_host_subnets reference services context []).1
unfolding acting
assign_cidrs_to_host_subnets-Writes_example =
    assign_cidrs_to_host_subnets-Writes reference reference-IsLawful services context cidr
      (codes "n1") [] tt (inl refl) (inl refl) refl
