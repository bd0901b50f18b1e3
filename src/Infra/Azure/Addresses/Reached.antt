-- ===== src/Infra/Azure/Addresses/Reached.antt =====
-- What the two loops of reconcileAzureAssignedIPs of controllers/egressipam/azure/azure.go make of the
-- configurations of an interface
use mathlib.Core.List.{append-nil}
use egressip_ipam_operator.Prelude.{
  ◌≡◌, refl, sym, ap, ◌∙◌, ◌↔◌, inl, inr, true, false, Option, List, [], ◌∷◌, ◌++◌, map, Text, Elem,
  Elem-skip, Elem-keep, not-is_among, Elem-append, Elem-cases, Option-cases, Bool-cases, is_among,
  is_among_iff,
}
use egressip_ipam_operator.Deps.{Deps, IsLawful}
use egressip_ipam_operator.Go.Results.{ok}
use egressip_ipam_operator.Network.{IpConfiguration}
use egressip_ipam_operator.Infra.Azure.Addresses.{
  secondary_addresses, without_ips, is_removed, with_ips, new_configuration, primary_only,
}

secondary-append :
    (cs cs' : List IpConfiguration)
    → secondary_addresses (cs ++ cs') ≡ secondary_addresses cs ++ secondary_addresses cs'
unfolding secondary_addresses
secondary-append [] cs' = refl
secondary-append (c ∷ cs) cs' = elim (Bool-cases c.primary) [
  | inl primary ↦ rw (primary, secondary-append cs cs') refl
  | inr secondary ↦ elim (Option-cases c.private_ip_address) [
    | inl none' ↦ rw (secondary, none', secondary-append cs cs') refl
    | inr (ip, p) ↦ rw (secondary, p, secondary-append cs cs') refl
  ]
]

primary-append :
    (cs cs' : List IpConfiguration) → primary_only (cs ++ cs') ≡ primary_only cs ++ primary_only cs'
unfolding primary_only
primary-append [] cs' = refl
primary-append (c ∷ cs) cs' = elim (Bool-cases c.primary) [
  | inl primary ↦ rw (primary, primary-append cs cs') refl
  | inr secondary ↦ rw (secondary, primary-append cs cs') refl
]

module _ (subnet : Option Text) (pools : Option (List Text)) where
  secondary-new :
      (ips : List Text) → secondary_addresses (map (new_configuration subnet pools) ips) ≡ ips
  unfolding secondary_addresses new_configuration
  secondary-new [] = refl
  secondary-new (ip ∷ ips) = ap (λ l. ip ∷ l) (secondary-new ips)

  primary-new : (ips : List Text) → primary_only (map (new_configuration subnet pools) ips) ≡ []
  unfolding primary_only new_configuration
  primary-new [] = refl
  primary-new (ip ∷ ips) = primary-new ips

Elem-secondary-without :
    (k : Text) (old : List Text) (cs : List IpConfiguration)
    → Elem k (secondary_addresses (without_ips old cs))
      ↔ (Elem k (secondary_addresses cs) × (¬ Elem k old))
unfolding secondary_addresses without_ips
Elem-secondary-without k old [] = ((λ z. absurd z), λ e. e.0)
Elem-secondary-without k old (c ∷ cs) =
    let later = Elem-secondary-without k old cs in
    elim (Option-cases c.private_ip_address) [
      | inl missing ↦ elim (Bool-cases c.primary) [
        | inl primary ↦ rw (missing, primary) later
        | inr secondary ↦ rw (missing, secondary) later
      ]
      | inr (ip, p) ↦ elim (Bool-cases (is_among ip old)) [
        | inl gone ↦ elim (Bool-cases c.primary) [
          | inl primary ↦ rw (p, gone, primary) later
          | inr secondary ↦
              rw (p, gone, secondary)
                (Elem-skip k ip old (secondary_addresses (without_ips old cs))
                  (secondary_addresses cs) ((is_among_iff ip old).0 gone) later)
        ]
        | inr kept ↦ elim (Bool-cases c.primary) [
          | inl primary ↦ rw (p, kept, primary) later
          | inr secondary ↦
              rw (p, kept, secondary)
                (Elem-keep k ip old (secondary_addresses (without_ips old cs))
                  (secondary_addresses cs) (not-is_among ip old kept) later)
        ]
      ]
    ]

-- Every primary configuration has an address that is not to be removed.
abbrev pub KeepsPrimary : List Text → List IpConfiguration → Type 0
KeepsPrimary old cs =
    (c : IpConfiguration)
    → Elem c cs
    → c.primary ≡ true
    → is_removed old c.private_ip_address ≡ false

primary-without :
    (old : List Text) (cs : List IpConfiguration)
    → KeepsPrimary old cs
    → primary_only (without_ips old cs) ≡ primary_only cs
unfolding primary_only without_ips
primary-without old [] h = refl
primary-without old (c ∷ cs) h = elim (Bool-cases c.primary) [
  | inl primary ↦
      rw (h c (inl refl) primary, primary, primary-without old cs (λ c' e. h c' (inr e))) refl
  | inr secondary ↦ elim (Bool-cases (is_removed old c.private_ip_address)) [
    | inl gone ↦ rw (gone, secondary) (primary-without old cs (λ c' e. h c' (inr e)))
    | inr kept ↦ rw (kept, secondary) (primary-without old cs (λ c' e. h c' (inr e)))
  ]
]

with_ips-ok :
    (pools : Option (List Text)) (ips : List Text) (c : IpConfiguration) (cs : List IpConfiguration)
    → with_ips pools ips (c ∷ cs) ≡ ok ((c ∷ cs) ++ map (new_configuration c.subnet pools) ips)
unfolding with_ips
with_ips-ok pools [] c cs = ap ok (sym (append-nil (c ∷ cs)))
with_ips-ok pools (ip ∷ ips) c cs = refl

-- The two loops, at the configurations `cs` of an interface of a node that is to carry `ips`: those that
-- the first one writes, and those that the second one writes where it reads them.
module _ (d : Deps) (ips : List Text) (cs : List IpConfiguration) where
  abbrev pub unneeded : List Text
  unneeded = d.difference (secondary_addresses cs) ips

  abbrev pub remaining : List IpConfiguration
  remaining = without_ips unneeded cs

  abbrev pub lacking : List Text
  lacking = d.difference ips (secondary_addresses remaining)

module _ (d : Deps) (lawful : IsLawful d) (pools : Option (List Text)) (ips : List Text)
    (cs : List IpConfiguration) where
  Elem-remaining :
      (k : Text)
      → Elem k (secondary_addresses (remaining d ips cs))
        ↔ (Elem k (secondary_addresses cs) × Elem k ips)
  Elem-remaining k =
      let h = Elem-secondary-without k (unneeded d ips cs) cs in
      let g = lawful.difference_elem (secondary_addresses cs) ips k in
      (
        λ e.
            let (a, b) = h.0 e in
            (
              a,
              elim (Elem-cases k ips) [
                | inl needed ↦ needed
                | inr other ↦ absurd (b (g.1 (a, other)))
              ],
            ),
        λ (a, b). h.1 (a, λ e. (g.0 e).1 b),
      )

  Elem-added :
      (subnet : Option Text) (k : Text)
      → Elem k (
          secondary_addresses
            ((remaining d ips cs) ++ map (new_configuration subnet pools) (lacking d ips cs)))
        ↔ Elem k ips
  Elem-added subnet k =
      let g = lawful.difference_elem ips (secondary_addresses (remaining d ips cs)) k in
      let split = Elem-append k (secondary_addresses (remaining d ips cs)) (lacking d ips cs) in
      rw
        (
          secondary-append (remaining d ips cs)
              (map (new_configuration subnet pools) (lacking d ips cs)),
          secondary-new subnet pools (lacking d ips cs),
        )
        (
          (λ e. elim (split.0 e) [ inl a ↦ ((Elem-remaining k).0 a).1 | inr b ↦ (g.0 b).0 ]),
          λ e. elim (Elem-cases k (secondary_addresses (remaining d ips cs))) [
            | inl a ↦ split.1 (inl a)
            | inr b ↦ split.1 (inr (g.1 (e, b)))
          ],
        )

  -- Where the interface has a primary configuration, and no primary one has an address that is to be
  -- removed, both loops succeed, and leave it with the same primary configurations and with exactly the
  -- addresses that the cycle gives the node.
  pub with_ips-without_ips :
      (c : IpConfiguration) (more : List IpConfiguration)
      → primary_only cs ≡ c ∷ more
      → KeepsPrimary (unneeded d ips cs) cs
      → (cs' : List IpConfiguration) × (with_ips pools (lacking d ips cs) (remaining d ips cs)
          ≡ ok cs')
        × ((k : Text) → Elem k (secondary_addresses cs') ↔ Elem k ips)
        × (primary_only cs' ≡ primary_only cs)
  unfolding primary_only
  with_ips-without_ips c more p keeps = go (remaining d ips cs) refl
    where
      go :
          (rs : List IpConfiguration)
          → (remaining d ips cs) ≡ rs
          → (cs' : List IpConfiguration) × (with_ips pools (lacking d ips cs) (remaining d ips cs)
              ≡ ok cs')
            × ((k : Text) → Elem k (secondary_addresses cs') ↔ Elem k ips)
            × (primary_only cs' ≡ primary_only cs)
      go [] e =
          let absent : [] ≡ c ∷ more =
            ap primary_only (sym e) ∙ primary-without (unneeded d ips cs) cs keeps ∙ p in
          cc
      go (r ∷ rs) e =
          let new = map (new_configuration r.subnet pools) (lacking d ips cs) in
          (
            (remaining d ips cs) ++ new,
            ap (with_ips pools (lacking d ips cs)) e
                ∙ with_ips-ok pools (lacking d ips cs) r rs
                ∙ ap (λ l. ok (l ++ new)) (sym e),
            Elem-added r.subnet,
            primary-append (remaining d ips cs) new
                ∙ ap (λ l. primary_only (remaining d ips cs) ++ l)
                    (primary-new r.subnet pools (lacking d ips cs))
                ∙ append-nil (primary_only (remaining d ips cs))
                ∙ primary-without (unneeded d ips cs) cs keeps,
          )

-- What removeAllAzureSecondaryIPs writes has no secondary address.
pub secondary-primary_only :
    (cs : List IpConfiguration) → secondary_addresses (primary_only cs) ≡ []
unfolding secondary_addresses primary_only
secondary-primary_only [] = refl
secondary-primary_only (c ∷ cs) = elim (Bool-cases c.primary) [
  | inl primary ↦ rw (primary, secondary-primary_only cs) refl
  | inr secondary ↦ rw (secondary, secondary-primary_only cs) refl
]
