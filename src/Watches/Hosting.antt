-- ===== src/Watches/Hosting.antt =====
-- Which EgressIPAMs an event of a host subnet reaches
use egressip_ipam_operator.Prelude.{
  ◌≡◌, ◌↔◌, refl, sym, ap, ◌∙◌, inl, inr, true, false, some, List, [], ◌∷◌, Text, Elem, All,
  Bool-cases,
}
use mathlib.Core.Option.{some-injective}
use egressip_ipam_operator.Go.Results.{ok}
use egressip_ipam_operator.Go.Net.{Ip, IpNet, parse_ip, parse_cidr, contains}
use egressip_ipam_operator.Api.{CidrAssignment, EgressIpam, HostSubnet}
use egressip_ipam_operator.Effects.{Log, Services}
use egressip_ipam_operator.HostSubnets.{matching_network, matches_host_subnet}
use egressip_ipam_operator.Reconcile.Validity.{is_valid}
use egressip_ipam_operator.Reconcile.Validity.Accepts.{IsAssignable, is_valid_iff}
use egressip_ipam_operator.Watches.{host_subnet, enqueue_for_host_subnet}
use egressip_ipam_operator.Watches.Noticed.{IsSome, Elem-matching}

-- The address of the host lies in the network of one of the CIDRs.
pub record IsHostedBy (h : HostSubnet) (assignment : CidrAssignment) : Type 0 where
  addr : Ip
  net : IpNet
  parsed : parse_cidr assignment.cidr ≡ some (addr, net)
  inside : contains net (parse_ip h.host_ip) ≡ true

abbrev pub IsHosting : List CidrAssignment → HostSubnet → Type 0
IsHosting assignments h =
    (assignment : CidrAssignment) × Elem assignment assignments × IsHostedBy h assignment

matching_network_iff :
    (h : HostSubnet) (assignments : List CidrAssignment)
    → All IsAssignable assignments
    → IsSome (matching_network h assignments) ↔ IsHosting assignments h
unfolding matching_network
matching_network_iff h [] v = ((λ (s, e). cc), λ (a, at, p). absurd at)
matching_network_iff h (a ∷ assignments) v =
    let rest = matching_network_iff h assignments v.1 in
    elim (Bool-cases (contains v.0.net (parse_ip h.host_ip))) [
      | inl inside ↦
          rw (matching_network, v.0.parsed, inside)
            (
              (λ _. (
                a,
                inl refl,
                record { addr = v.0.addr; net = v.0.net; parsed = v.0.parsed; inside = inside },
              )),
              (λ _. (a.cidr, refl)),
            )
      | inr outside ↦
          rw (matching_network, v.0.parsed, outside)
            (
              (λ s. let (b, at, p) = rest.0 s in (b, inr at, p)),
              λ (b, at, p). elim at [
                | inl q ↦
                    let eq : some (v.0.addr, v.0.net) ≡ some (p.addr, p.net) =
                      sym v.0.parsed
                      ∙ ap (λ (x : CidrAssignment). parse_cidr x.cidr) (sym q)
                      ∙ p.parsed in
                    let same =
                      ap (λ (r : Ip × IpNet). contains r.1 (parse_ip h.host_ip))
                        (some-injective _ _ eq) in
                    let clash : false ≡ true = sym outside ∙ same ∙ p.inside in cc
                | inr later ↦ rest.1 (b, later, p)
              ],
            )
    ]

-- Where the EgressIPAMs can be listed and are valid, an event of a host subnet puts into the queue exactly
-- the names of those that have a CIDR whose network has the address of the host.
pub enqueue_for_host_subnet-IsHosting :
    (services : Services) (log : Log) (h : HostSubnet) (items : List EgressIpam) (name : Text)
    → services.list_egress_ipams log ≡ ok items
    → ((e : EgressIpam) → Elem e items → is_valid e ≡ ok tt)
    → Elem name (enqueue_for_host_subnet services log (host_subnet h))
      ↔ ((e : EgressIpam) × Elem e items × IsHosting e.cidr_assignments h × (name ≡ e.name))
unfolding enqueue_for_host_subnet matches_host_subnet
enqueue_for_host_subnet-IsHosting services log h items name listed valid =
    let m = Elem-matching (λ e. matches_host_subnet e h) items name in
    let hosts = λ (e : EgressIpam) (here : Elem e items).
      matching_network_iff h e.cidr_assignments ((is_valid_iff e).0 (valid e here)) in
    rw (enqueue_for_host_subnet, listed)
      (
        (λ at. let (e, here, s, p) = m.0 at in (e, here, (hosts e here).0 s, p)),
        λ (e, here, hosting, r). m.1 (e, here, (hosts e here).1 hosting, r),
      )
