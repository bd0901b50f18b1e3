-- ===== src/Watches/Noticed.antt =====
-- Which changes of a node or of a host subnet come through, and which EgressIPAMs they reach
use egressip_ipam_operator.Prelude.{
  ◌≡◌, ◌↔◌, refl, sym, ap, ◌∙◌, inl, inr, Option, none, some, List, [], ◌∷◌, Text, Elem,
  Option-cases,
}
use egressip_ipam_operator.Go.Maps.{Map, get}
use egressip_ipam_operator.Api.{CidrAssignment, EgressIpam, Node}
use egressip_ipam_operator.Watches.{matching}

-- The node has the label of one of the CIDRs of the EgressIPAM.
abbrev pub IsSelecting : EgressIpam → Node → Type 0
IsSelecting e n =
    (value : Text) × (get n.labels e.topology_label ≡ some value)
    × (assignment : CidrAssignment) × Elem assignment e.cidr_assignments
    × (value ≡ assignment.label_value)

abbrev pub IsSome : Option Text → Type 0
IsSome o = (s : Text) × (o ≡ some s)

pub Elem-matching :
    (matches : EgressIpam → Option Text) (items : List EgressIpam) (name : Text)
    → Elem name (matching matches items)
      ↔ ((e : EgressIpam) × Elem e items × IsSome (matches e) × (name ≡ e.name))
unfolding matching
Elem-matching matches [] name = ((λ z. absurd z), λ (e, at, s, p). absurd at)
Elem-matching matches (i ∷ items) name = elim (Option-cases (matches i)) [
  | inl missing ↦
      rw (matching, missing)
        (
          (λ h. let (e, at, s, p) = (Elem-matching matches items name).0 h in (e, inr at, s, p)),
          λ (e, at, s, p). elim at [
            | inl q ↦ let absent : none ≡ some s.0 = sym missing ∙ ap matches (sym q) ∙ s.1 in cc
            | inr later ↦ (Elem-matching matches items name).1 (e, later, s, p)
          ],
        )
  | inr (cidr, there) ↦
      rw (matching, there)
        (
          (λ h. elim h [
            | inl p ↦ (i, inl refl, (cidr, there), p)
            | inr later ↦
                let (e, at, s, p) = (Elem-matching matches items name).0 later in (e, inr at, s, p)
          ]),
          λ (e, at, s, p). elim at [
            | inl q ↦ inl (p ∙ ap (λ (x : EgressIpam). x.name) q)
            | inr later ↦ inr ((Elem-matching matches items name).1 (e, later, s, p))
          ],
        )
]

-- The values of the two maps, where both are there.
abbrev pub SameMaps : Option (Map Text) → Option (Map Text) → Type 0
SameMaps none none = Unit
SameMaps (some m) (some n) = (k : Text) → get m k ≡ get n k
SameMaps _ _ = ⊥
