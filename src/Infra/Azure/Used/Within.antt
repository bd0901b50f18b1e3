-- ===== src/Infra/Azure/Used/Within.antt =====
-- GetUsedIPsByCIDR of controllers/egressipam/azure/azure.go, at the network of a CIDR
use egressip_ipam_operator.Prelude.{
  ◌≤◌, ◌≡◌, ◌⊎◌, refl, sym, ap, ◌∙◌, subst, inl, inr, Option, none, some, List, [], ◌∷◌, Text, Elem,
  All,
}
use egressip_ipam_operator.Deps.{Deps, IsLawful}
use egressip_ipam_operator.Go.Results.{Result, ok, ok-injective}
use egressip_ipam_operator.Go.Maps.{Map, keys}
use egressip_ipam_operator.Go.Net.{Ip, IpNet, size, parse_cidr}
use egressip_ipam_operator.Go.Net.Networks.{InNet}
use egressip_ipam_operator.Context.{ReconcileContext}
use egressip_ipam_operator.Network.{VirtualMachine}
use egressip_ipam_operator.Namespaces.{empty_by_cidr}
use egressip_ipam_operator.Effects.{Log, reads}
use egressip_ipam_operator.Effects.Chains.{Returns, >>=-Returns}
use egressip_ipam_operator.Effects.Inversion.{>>=-eq-ok}
use egressip_ipam_operator.Infra.Used.{used_by_cidr, add_always_taken}
use egressip_ipam_operator.Infra.Used.Within.{used_by_cidr-InNet, with_always_taken-InNet}
use egressip_ipam_operator.Infra.Azure.{Azure}
use egressip_ipam_operator.Infra.Azure.Used.{
  get_virtual_network, addresses_of, subnets_or_none, get_azure_used_ips_by_cidr, or_bad_cidr,
  get_azure_used_ips,
}
use egressip_ipam_operator.Ipam.Namespaces.Merged.{ips_at}
use egressip_ipam_operator.Ipam.Namespaces.Taken.{empty_by_cidr-IsEmptyBy}

-- It is computed from some addresses, or it has none where there is no machine.
abbrev IsComputed : ReconcileContext → Map (List Ip) → Type 0
IsComputed rc m =
    (m ≡ empty_by_cidr rc.cidrs [])
    ⊎ ((addresses : List Text) × (used_by_cidr addresses rc.cidrs [] ≡ ok m))

get_azure_used_ips_by_cidr-IsComputed :
    (d : Deps) (azure : Azure) (instances : Map VirtualMachine) (rc : ReconcileContext)
    → Returns (IsComputed rc) (get_azure_used_ips_by_cidr d azure instances rc)
unfolding get_azure_used_ips_by_cidr
get_azure_used_ips_by_cidr-IsComputed d azure [] rc =
    λ log m log' e. inl (sym (ok-injective (ap (λ (r : Result (Map (List Ip)) × Log). r.0) e)))
get_azure_used_ips_by_cidr-IsComputed d azure (i ∷ instances) rc =
    >>=-Returns (IsComputed rc) (get_virtual_network d azure (i ∷ instances) rc) _ λ vnet.
      >>=-Returns (IsComputed rc) (reads (λ log. azure.get_subnets log vnet)) _
        λ subnets log m log' e.
          inr (
            addresses_of (subnets_or_none subnets),
            ap (λ (r : Result (Map (List Ip)) × Log). r.0) e,
          )

module _ (d : Deps) (lawful : IsLawful d) (cidr : Text) (base : Ip) (net : IpNet)
    (parsed : parse_cidr cidr ≡ some (base, net)) (at_base : base ≡ net.ip) (room : 4 ≤ size net)
    (rc : ReconcileContext) (at : Elem cidr rc.cidrs) where
  IsComputed-InNet :
      (m : Map (List Ip)) → IsComputed rc m → (x : Ip) → Elem x (ips_at m cidr) → InNet net x
  IsComputed-InNet m (inl none') x h = absurd (
      subst (Elem x)
        (ap (λ (n : Map (List Ip)). ips_at n cidr) none'
          ∙ (empty_by_cidr-IsEmptyBy rc.cidrs).empty cidr)
        h)
  IsComputed-InNet m (inr (addresses, u)) x h =
      used_by_cidr-InNet cidr base net parsed at_base room addresses rc.cidrs m x at u h

  or_bad_cidr-InNet :
      (found : Map (List Ip)) (o : Option (Map (List Ip))) (m : Map (List Ip))
      → IsComputed rc found
      → add_always_taken d (d.range (keys found)) found ≡ o
      → or_bad_cidr o ≡ ok m
      → All (InNet net) (ips_at m cidr)
  or_bad_cidr-InNet found none m c v q = cc
  or_bad_cidr-InNet found (some m') m c v q =
      subst (λ (n : Map (List Ip)). All (InNet net) (ips_at n cidr)) (ok-injective q)
        (with_always_taken-InNet cidr base net parsed at_base room d lawful _ found m'
          (IsComputed-InNet found c) v)

  -- The addresses that Azure reports as used at a CIDR lie in its network, where the CIDR is written with
  -- the network's address and a prefix length of at most 30.
  pub get_azure_used_ips-InNet :
      (azure : Azure) (instances : Map VirtualMachine) (log : Log) (m : Map (List Ip)) (log' : Log)
      → get_azure_used_ips d azure instances rc log ≡ (ok m, log')
      → All (InNet net) (ips_at m cidr)
  unfolding get_azure_used_ips
  get_azure_used_ips-InNet azure instances log m log' e =
      let mid = (get_azure_used_ips_by_cidr d azure instances rc log).1 in
      let (found, done, rest) =
        >>=-eq-ok (get_azure_used_ips_by_cidr d azure instances rc) _ log m log' e in
      or_bad_cidr-InNet found _ m
        (get_azure_used_ips_by_cidr-IsComputed d azure instances rc log found mid
          (λ i. (done i, mid)))
        refl (ap (λ (r : Result (Map (List Ip)) × Log). r.0) rest)
