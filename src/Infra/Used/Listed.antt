-- ===== src/Infra/Used/Listed.antt =====
-- The loop over the CIDRs in GetUsedIPsByCIDR of controllers/egressipam/aws/aws.go and of
-- controllers/egressipam/azure/azure.go
use mathlib.Core.Option.{some-injective}
use egressip_ipam_operator.Prelude.{
  ◌≡◌, ◌≢◌, ◌↔◌, ◌⊎◌, refl, sym, ap, ◌∙◌, subst, inl, inr, none, some, List, [], ◌∷◌, Text, text_eq,
  text_eq_iff, if◌then◌else◌, Elem, Bool-cases, Option-cases, true,
}
use egressip_ipam_operator.Go.Results.{ok, ok-injective, err, bad_cidr}
use egressip_ipam_operator.Go.Maps.{Map, put}
use egressip_ipam_operator.Go.Net.{Ip, IpNet, parse_ip, parse_cidr, contains}
use egressip_ipam_operator.Infra.Used.{addresses_in, used_by_cidr}
use egressip_ipam_operator.Ipam.Namespaces.Merged.{ips_at, ips_at-put}

-- One of the texts is the address `x`, and `x` lies in the network.
abbrev pub Listed : IpNet → List Text → Ip → Type 0
Listed net addresses x =
    (address : Text) × Elem address addresses
    × (parse_ip address ≡ some x)
    × (contains net (some x) ≡ true)

module _ (net : IpNet) where
  addresses_in-inv :
      (a : Text) (more : List Text) (ips : List Ip)
      → addresses_in net (a ∷ more) ≡ some ips
      → (y : Ip) × (rest : List Ip) × (parse_ip a ≡ some y)
        × (addresses_in net more ≡ some rest)
        × (ips ≡ (if contains net (some y) then y ∷ rest else rest))
  unfolding addresses_in
  addresses_in-inv a more ips e = elim (Option-cases (parse_ip a)) [
    | inl bad ↦ let absent : none ≡ some ips = rw (addresses_in, bad) at e in cc
    | inr (y, p) ↦ elim (Option-cases (addresses_in net more)) [
      | inl bad ↦ let absent : none ≡ some ips = rw (addresses_in, p, bad) at e in cc
      | inr (rest, q) ↦ (
        y,
        rest,
        p,
        q,
        elim (Bool-cases (contains net (some y))) [
          | inl inside ↦ rw inside (sym (some-injective _ _ (rw (addresses_in, p, q, inside) at e)))
          | inr outside ↦
              rw outside (sym (some-injective _ _ (rw (addresses_in, p, q, outside) at e)))
        ],
      )
    ]
  ]

  Listed-cons :
      (a : Text) (more : List Text) (x y : Ip)
      → parse_ip a ≡ some y
      → Listed net (a ∷ more) x ↔ (((x ≡ y) × (contains net (some y) ≡ true)) ⊎ Listed net more x)
  Listed-cons a more x y p = (
    λ (b, at, q, c). elim at [
      | inl same ↦
          let eq : some x ≡ some y = sym q ∙ ap parse_ip same ∙ p in
          let eq' : x ≡ y = some-injective _ _ eq in
          inl (eq', subst (λ v. contains net (some v) ≡ true) eq' c)
      | inr later ↦ inr (b, later, q, c)
    ],
    λ e. elim e [
      | inl (same, c) ↦ (
        a,
        inl refl,
        p ∙ ap some (sym same),
        subst (λ v. contains net (some v) ≡ true) (sym same) c,
      )
      | inr (b, at, q, c) ↦ (b, inr at, q, c)
    ],
  )

  pub addresses_in-Listed :
      (addresses : List Text) (ips : List Ip)
      → addresses_in net addresses ≡ some ips
      → (x : Ip) → Elem x ips ↔ Listed net addresses x
  unfolding addresses_in
  addresses_in-Listed [] ips e x =
      let same : ips ≡ [] = sym (some-injective _ _ e) in
      (λ h. absurd (subst (Elem x) same h), λ (a, at, p, q). absurd at)
  addresses_in-Listed (a ∷ more) ips e x =
      let (y, rest, p, q, r) = addresses_in-inv a more ips e in
      let here = Listed-cons a more x y p in
      let later = addresses_in-Listed more rest q x in
      elim (Bool-cases (contains net (some y))) [
        | inl inside ↦
            rw (r, inside)
              (
                (λ h. elim h [
                  | inl same ↦ here.1 (inl (same, inside))
                  | inr t ↦ here.1 (inr (later.0 t))
                ]),
                λ l. elim (here.0 l) [ inl (same, _) ↦ inl same | inr t ↦ inr (later.1 t) ],
              )
        | inr outside ↦
            rw (r, outside)
              (
                (λ h. here.1 (inr (later.0 h))),
                λ l. elim (here.0 l) [ inl (_, c) ↦ cc | inr t ↦ later.1 t ],
              )
      ]

-- Every text is an address.
abbrev pub AllParse : List Text → Type 0
AllParse addresses = (a : Text) → Elem a addresses → (x : Ip) × (parse_ip a ≡ some x)

addresses_in-AllParse :
    (net : IpNet) (addresses : List Text) → AllParse addresses → addresses_in net addresses ≢ none
unfolding addresses_in
addresses_in-AllParse net [] h = λ e. cc
addresses_in-AllParse net (a ∷ more) h =
    let (y, p) = h a (inl refl) in
    elim (Option-cases (addresses_in net more)) [
      | inl bad ↦ absurd (addresses_in-AllParse net more (λ b at. h b (inr at)) bad)
      | inr (rest, q) ↦ elim (Bool-cases (contains net (some y))) [
        | inl inside ↦ rw (addresses_in, p, q, inside) (λ e. cc)
        | inr outside ↦ rw (addresses_in, p, q, outside) (λ e. cc)
      ]
    ]

module _ (addresses : List Text) (cidr : Text) (base : Ip) (net : IpNet)
    (parsed : parse_cidr cidr ≡ some (base, net)) where
  -- The map has, at the CIDR, the addresses that lie in its network, or it is empty since a text is no
  -- address.
  abbrev pub IsReported : Map (List Ip) → Type 0
  IsReported m =
      ((m ≡ []) × (¬ AllParse addresses))
      ⊎ ((x : Ip) → Elem x (ips_at m cidr) ↔ Listed net addresses x)

  abbrev Reported : Map (List Ip) → Type 0
  Reported m = (x : Ip) → Elem x (ips_at m cidr) ↔ Listed net addresses x

  put-Reported :
      (c : Text) (cidrs : List Text) (m : Map (List Ip)) (base' : Ip) (net' : IpNet) (ips : List Ip)
      → parse_cidr c ≡ some (base', net')
      → addresses_in net' addresses ≡ some ips
      → Elem cidr (c ∷ cidrs) ⊎ Reported m
      → Elem cidr cidrs ⊎ Reported (put m c ips)
  put-Reported c cidrs m base' net' ips p q at = elim (Bool-cases (text_eq c cidr)) [
    | inl same ↦
        let eq : some (base', net') ≡ some (base, net) =
          sym p ∙ ap parse_cidr ((text_eq_iff c cidr).0 same) ∙ parsed in
        let net_eq : net' ≡ net = ap (λ (r : Ip × IpNet). r.1) (some-injective _ _ eq) in
        inr (λ x.
          rw (ips_at-put m c cidr ips, same)
            (addresses_in-Listed net addresses ips (rw (← net_eq) q) x))
    | inr other ↦ elim at [
      | inl (inl p') ↦ let clash = (text_eq_iff c cidr).1 (sym p') in cc
      | inl (inr later) ↦ inl later
      | inr h ↦ inr (λ x. rw (ips_at-put m c cidr ips, other) (h x))
    ]
  ]

  used_by_cidr-IsReported :
      (cidrs : List Text) (m m' : Map (List Ip))
      → Elem cidr cidrs ⊎ ((x : Ip) → Elem x (ips_at m cidr) ↔ Listed net addresses x)
      → used_by_cidr addresses cidrs m ≡ ok m'
      → IsReported m'
  unfolding used_by_cidr
  used_by_cidr-IsReported [] m m' at e = elim at [
    | inl z ↦ absurd z
    | inr h ↦
        let same : m ≡ m' = ok-injective e in
        inr (
          subst (λ (n : Map (List Ip)). (x : Ip) → Elem x (ips_at n cidr) ↔ Listed net addresses x)
            same h)
  ]
  used_by_cidr-IsReported (c ∷ cidrs) m m' at e = elim (Option-cases (parse_cidr c)) [
    | inl bad ↦ let failed : err (bad_cidr c) ≡ ok m' = rw (used_by_cidr, bad) at e in cc
    | inr ((base', net'), p) ↦ elim (Option-cases (addresses_in net' addresses)) [
      | inl bad ↦
          let none' : ok [] ≡ ok m' = rw (used_by_cidr, p, bad) at e in
          inl (sym (ok-injective none'), λ h. addresses_in-AllParse net' addresses h bad)
      | inr (ips, q) ↦
          used_by_cidr-IsReported cidrs (put m c ips) m'
            (put-Reported c cidrs m base' net' ips p q at) (rw (used_by_cidr, p, q) at e)
    ]
  ]

  -- The map that the loop over the CIDRs builds has, at a CIDR of the list that can be parsed, exactly the
  -- addresses among the texts that lie in its network. The loop returns the empty map instead only if
  -- one of the texts is no address.
  pub used_by_cidr-Listed :
      (cidrs : List Text) (m : Map (List Ip))
      → Elem cidr cidrs
      → used_by_cidr addresses cidrs [] ≡ ok m
      → IsReported m
  used_by_cidr-Listed cidrs m at e = used_by_cidr-IsReported cidrs [] m (inl at) e
