-- ===== src/Infra/Aws/Used/Within.antt =====
-- GetUsedIPsByCIDR of controllers/egressipam/aws/aws.go, at the network of a CIDR
use egressip_ipam_operator.Prelude.{
  ◌≤◌, ◌≡◌, refl, ap, subst, Option, none, some, List, [], ◌++◌, Text, Elem, All,
}
use egressip_ipam_operator.Deps.{Deps, IsLawful}
use egressip_ipam_operator.Go.Results.{Result, ok, ok-injective, err, panic}
use egressip_ipam_operator.Go.Maps.{Map, keys, get}
use egressip_ipam_operator.Go.Net.{Ip, IpNet, size, parse_cidr}
use egressip_ipam_operator.Go.Net.Networks.{InNet}
use egressip_ipam_operator.Context.{ReconcileContext}
use egressip_ipam_operator.Effects.{Log, lift, reads}
use egressip_ipam_operator.Effects.Chains.{Returns, >>=-Returns}
use egressip_ipam_operator.Infra.Used.{used_by_cidr, add_always_taken}
use egressip_ipam_operator.Infra.Used.Within.{used_by_cidr-InNet, with_always_taken-InNet}
use egressip_ipam_operator.Infra.Aws.{Ec2}
use egressip_ipam_operator.Infra.Aws.Used.{
  Subnets, collect_subnets, tagged_subnets, all_addresses, get_aws_used_ips_by_cidr, or_no_ips,
  without_error, get_aws_used_ips,
}
use egressip_ipam_operator.Ipam.Namespaces.Merged.{ips_at}

-- It is computed from the addresses of some interfaces.
abbrev IsComputed : ReconcileContext → Map (List Ip) → Type 0
IsComputed rc m = (addresses : List Text) × (used_by_cidr addresses rc.cidrs [] ≡ ok m)

get_aws_used_ips_by_cidr-IsComputed :
    (ec2 : Ec2) (rc : ReconcileContext) → Returns (IsComputed rc) (get_aws_used_ips_by_cidr ec2 rc)
unfolding get_aws_used_ips_by_cidr
get_aws_used_ips_by_cidr-IsComputed ec2 rc =
    let none_yet : Subnets = record { subnet_ids = []; subnet_tag_names = [] } in
    >>=-Returns (IsComputed rc) (reads ec2.list_machine_sets) _ λ machine_sets.
      >>=-Returns (IsComputed rc) (lift (collect_subnets ec2 machine_sets none_yet)) _ λ subnets.
        >>=-Returns (IsComputed rc) (tagged_subnets ec2 subnets.subnet_tag_names) _ λ tagged.
          >>=-Returns (IsComputed rc)
            (reads (λ log. ec2.describe_network_interfaces log (subnets.subnet_ids ++ tagged))) _
            λ interfaces log m log' e.
              (all_addresses interfaces, ap (λ (r : Result (Map (List Ip)) × Log). r.0) e)

module _ (d : Deps) (lawful : IsLawful d) (cidr : Text) (base : Ip) (net : IpNet)
    (parsed : parse_cidr cidr ≡ some (base, net)) (at_base : base ≡ net.ip)
    (room : 4 ≤ size net) where
  or_no_ips-InNet :
      (o : Option (Map (List Ip)))
      → ((m : Map (List Ip)) → o ≡ some m → All (InNet net) (ips_at m cidr))
      → All (InNet net) (ips_at (or_no_ips o) cidr)
  unfolding get
  or_no_ips-InNet none h = tt
  or_no_ips-InNet (some m) h = h m refl

  -- The addresses that AWS reports as used at a CIDR lie in its network, where the CIDR is written with
  -- the network's address and a prefix length of at most 30.
  pub get_aws_used_ips-InNet :
      (ec2 : Ec2) (rc : ReconcileContext) (log : Log) (m : Map (List Ip)) (log' : Log)
      → Elem cidr rc.cidrs
      → get_aws_used_ips d ec2 rc log ≡ (ok m, log')
      → All (InNet net) (ips_at m cidr)
  unfolding get_aws_used_ips get
  get_aws_used_ips-InNet ec2 rc log m log' at e =
      go (get_aws_used_ips_by_cidr ec2 rc log) refl
        (ap (λ (r : Result (Map (List Ip)) × Log). r.0) e)
    where
      go :
          (r : Result (Map (List Ip)) × Log)
          → get_aws_used_ips_by_cidr ec2 rc log ≡ r
          → without_error d r.0 ≡ ok m
          → All (InNet net) (ips_at m cidr)
      go (ok found, mid) p q =
          let (addresses, u) = get_aws_used_ips_by_cidr-IsComputed ec2 rc log found mid p in
          subst (λ (n : Map (List Ip)). All (InNet net) (ips_at n cidr)) (ok-injective q)
            (or_no_ips-InNet (add_always_taken d (d.range (keys found)) found) λ m' v.
              with_always_taken-InNet cidr base net parsed at_base room d lawful _ found m'
                (λ x.
                  used_by_cidr-InNet cidr base net parsed at_base room addresses rc.cidrs found x at
                    u)
                v)
      go (err c, mid) p q =
          subst (λ (n : Map (List Ip)). All (InNet net) (ips_at n cidr)) (ok-injective q) tt
      go (panic, mid) p q = cc
