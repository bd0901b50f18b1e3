-- ===== src/Infra/Used/Within.antt =====
-- GetUsedIPsByCIDR of controllers/egressipam/aws/aws.go and of controllers/egressipam/azure/azure.go, at
-- the network of a CIDR
use mathlib.Core.Option.{some-injective}
use egressip_ipam_operator.Prelude.{
  ℕ, ◌≤◌, ◌<◌, ◌≡◌, ◌⊎◌, sym, ap, ◌∙◌, subst, inl, inr, none, some, List, [], ◌∷◌, Text, Elem, All,
  All-of_Elem, Option-cases, arith,
}
use egressip_ipam_operator.Deps.{Deps, IsLawful}
use egressip_ipam_operator.Go.Results.{ok}
use egressip_ipam_operator.Go.Maps.{Map, get}
use egressip_ipam_operator.Go.Net.{Ip, IpNet, size, parse_cidr}
use egressip_ipam_operator.Go.Net.Networks.{InNet, contains-InNet, parse_cidr-IsParsed}
use egressip_ipam_operator.Infra.Used.{add_always_taken, used_by_cidr}
use egressip_ipam_operator.Infra.Used.Listed.{used_by_cidr-Listed}
use egressip_ipam_operator.Ipam.Namespaces.Merged.{ips_at, Elem-append_at}

-- A CIDR that is written with the address of its network, and with a prefix length of at most 30.
module _ (cidr : Text) (base : Ip) (net : IpNet) (parsed : parse_cidr cidr ≡ some (base, net))
    (at_base : base ≡ net.ip) (room : 4 ≤ size net) where
  pub used_by_cidr-InNet :
      (addresses cidrs : List Text) (m : Map (List Ip)) (x : Ip)
      → Elem cidr cidrs
      → used_by_cidr addresses cidrs [] ≡ ok m
      → Elem x (ips_at m cidr)
      → InNet net x
  unfolding get
  used_by_cidr-InNet addresses cidrs m x at e h =
      elim (used_by_cidr-Listed addresses cidr base net parsed cidrs m at e) [
        | inl (empty, _) ↦ absurd (subst (λ (n : Map (List Ip)). Elem x (ips_at n cidr)) empty h)
        | inr reported ↦
            let (a, in_list, p, inside) = (reported x).0 h in contains-InNet net x inside
      ]

  module _ (d : Deps) (lawful : IsLawful d) where
    taken-InNet : (n : ℕ) → n < 4 → InNet net (d.delta_ip base n)
    taken-InNet n small =
        let fits = (parse_cidr-IsParsed cidr base net parsed).is_net.fits in
        rw (lawful.delta_ip_eq base n (omega (arith, at_base, room, fits, small)), at_base)
          (omega arith, omega (arith, room, small))

    first_three-InNet :
        (b : Ip) (x : Ip)
        → b ≡ base
        → Elem x (d.delta_ip b 1 ∷ d.delta_ip b 2 ∷ d.delta_ip b 3 ∷ [])
        → InNet net x
    first_three-InNet b x same e = elim (rw same at e) [
      | inl p ↦ rw p (taken-InNet 1 (omega arith))
      | inr (inl p) ↦ rw p (taken-InNet 2 (omega arith))
      | inr (inr (inl p)) ↦ rw p (taken-InNet 3 (omega arith))
      | inr (inr (inr z)) ↦ absurd z
    ]

    Elem-add_always_taken :
        (cidrs : List Text) (m m' : Map (List Ip)) (x : Ip)
        → add_always_taken d cidrs m ≡ some m'
        → Elem x (ips_at m' cidr)
        → Elem x (ips_at m cidr) ⊎ InNet net x
    unfolding add_always_taken
    Elem-add_always_taken [] m m' x e h =
        inl (subst (λ (n : Map (List Ip)). Elem x (ips_at n cidr)) (sym (some-injective _ _ e)) h)
    Elem-add_always_taken (c ∷ cidrs) m m' x e h = elim (Option-cases (parse_cidr c)) [
      | inl bad ↦ let failed : none ≡ some m' = rw (add_always_taken, bad) at e in cc
      | inr ((base', net'), p) ↦
          let later = Elem-add_always_taken cidrs _ m' x (rw (add_always_taken, p) at e) h in
          elim later [
            | inr inside ↦ inr inside
            | inl before ↦ elim ((Elem-append_at m c cidr _ x).0 before) [
              | inl old ↦ inl old
              | inr (same, new) ↦
                  let eq : some (base', net') ≡ some (base, net) =
                    sym p ∙ ap parse_cidr (sym same) ∙ parsed in
                  inr (
                    first_three-InNet base' x (ap (λ (r : Ip × IpNet). r.0) (some-injective _ _ eq))
                      new)
            ]
          ]
    ]

    -- The addresses that are always taken lie in the network too.
    pub with_always_taken-InNet :
        (ks : List Text) (m m' : Map (List Ip))
        → ((x : Ip) → Elem x (ips_at m cidr) → InNet net x)
        → add_always_taken d ks m ≡ some m'
        → All (InNet net) (ips_at m' cidr)
    with_always_taken-InNet ks m m' before e = All-of_Elem (InNet net) (ips_at m' cidr) λ x h.
        elim (Elem-add_always_taken ks m m' x e h) [ inl old ↦ before x old | inr inside ↦ inside ]
