-- ===== src/Reconcile/Validity/Accepts.antt =====
-- The loops of IsValid over the CIDRs and their reserved addresses
use egressip_ipam_operator.Prelude.{
  ◌≡◌, refl, ◌↔◌, ◌⊎◌, true, some, List, [], ◌∷◌, Text, All, inl, inr, Bool-cases, Option-cases,
}
use egressip_ipam_operator.Go.Results.{Error, ok, err, >>=-eq-ok}
use egressip_ipam_operator.Go.Net.{Ip, IpNet, parse_ip, parse_cidr, contains}
use egressip_ipam_operator.Api.{CidrAssignment, EgressIpam}
use egressip_ipam_operator.Reconcile.Validity.{check_reserved, check_assignments, is_valid}

-- The text is an address of the network.
pub record IsReserved (net : IpNet) (ipstr : Text) : Type 0 where
  pub ip : Ip
  pub parsed : parse_ip ipstr ≡ some ip
  pub inside : contains net (some ip) ≡ true

pub record IsAssignable (assignment : CidrAssignment) : Type 0 where
  pub addr : Ip
  pub net : IpNet
  pub parsed : parse_cidr assignment.cidr ≡ some (addr, net)
  pub reserved : All (IsReserved net) assignment.reserved_ips

check_reserved_sound :
    (net : IpNet) (ipstrs : List Text)
    → check_reserved net ipstrs ≡ ok tt
    → All (IsReserved net) ipstrs
unfolding check_reserved
check_reserved_sound net [] e = tt
check_reserved_sound net (ipstr ∷ ipstrs) e = elim (Option-cases (parse_ip ipstr)) [
  | inl absent ↦ let clash : err _ ≡ ok tt = rw (absent, check_reserved) at e in cc
  | inr (ip, there) ↦ elim (Bool-cases (contains net (some ip))) [
    | inl inside ↦ (
      record { ip = ip; parsed = there; inside = inside },
      check_reserved_sound net ipstrs (rw (there, check_reserved, inside) at e),
    )
    | inr outside ↦ let clash : err _ ≡ ok tt = rw (there, check_reserved, outside) at e in cc
  ]
]

check_reserved_complete :
    (net : IpNet) (ipstrs : List Text)
    → All (IsReserved net) ipstrs
    → check_reserved net ipstrs ≡ ok tt
unfolding check_reserved
check_reserved_complete net [] h = refl
check_reserved_complete net (ipstr ∷ ipstrs) h =
    rw (h.0.parsed, check_reserved, h.0.inside) (check_reserved_complete net ipstrs h.1)

check_assignments_sound :
    (assignments : List CidrAssignment)
    → check_assignments assignments ≡ ok tt
    → All IsAssignable assignments
unfolding check_assignments
check_assignments_sound [] e = tt
check_assignments_sound (a ∷ assignments) e = elim (Option-cases (parse_cidr a.cidr)) [
  | inl absent ↦ let clash : err _ ≡ ok tt = rw (absent, check_assignments) at e in cc
  | inr ((addr, net), there) ↦
      let (_, here, rest) =
        >>=-eq-ok (check_reserved net a.reserved_ips) (λ _. check_assignments assignments)
          (rw (there, check_assignments) at e) in
      (
        record {
          addr = addr;
          net = net;
          parsed = there;
          reserved = check_reserved_sound net a.reserved_ips here;
        },
        check_assignments_sound assignments rest,
      )
]

check_assignments_complete :
    (assignments : List CidrAssignment)
    → All IsAssignable assignments
    → check_assignments assignments ≡ ok tt
unfolding check_assignments
check_assignments_complete [] h = refl
check_assignments_complete (a ∷ assignments) h =
    rw (h.0.parsed, check_assignments, check_reserved_complete h.0.net a.reserved_ips h.0.reserved)
      (check_assignments_complete assignments h.1)

check_reserved-cases :
    (net : IpNet) (ipstrs : List Text)
    → (check_reserved net ipstrs ≡ ok tt) ⊎ ((e : Error) × (check_reserved net ipstrs ≡ err e))
unfolding check_reserved
check_reserved-cases net [] = inl refl
check_reserved-cases net (ipstr ∷ ipstrs) = elim (Option-cases (parse_ip ipstr)) [
  | inl absent ↦ rw (absent, check_reserved) (inr (_, refl))
  | inr (ip, there) ↦ elim (Bool-cases (contains net (some ip))) [
    | inl inside ↦ rw (there, check_reserved, inside) (check_reserved-cases net ipstrs)
    | inr outside ↦ rw (there, check_reserved, outside) (inr (_, refl))
  ]
]

check_assignments-cases :
    (assignments : List CidrAssignment)
    → (check_assignments assignments ≡ ok tt)
      ⊎ ((e : Error) × (check_assignments assignments ≡ err e))
unfolding check_assignments
check_assignments-cases [] = inl refl
check_assignments-cases (a ∷ assignments) = elim (Option-cases (parse_cidr a.cidr)) [
  | inl absent ↦ rw (absent, check_assignments) (inr (_, refl))
  | inr ((addr, net), there) ↦ elim (check_reserved-cases net a.reserved_ips) [
    | inl inside ↦ rw (there, check_assignments, inside) (check_assignments-cases assignments)
    | inr (e, outside) ↦ rw (there, check_assignments, outside) (inr (e, refl))
  ]
]

-- IsValid never panics.
pub is_valid-cases :
    (egress_ipam : EgressIpam)
    → (is_valid egress_ipam ≡ ok tt) ⊎ ((e : Error) × (is_valid egress_ipam ≡ err e))
unfolding is_valid
is_valid-cases egress_ipam = check_assignments-cases egress_ipam.cidr_assignments

-- An instance is valid exactly when each of its CIDRs can be parsed, and each reserved address can
-- be parsed and lies in its CIDR.
pub is_valid_iff :
    (egress_ipam : EgressIpam)
    → (is_valid egress_ipam ≡ ok tt) ↔ All IsAssignable egress_ipam.cidr_assignments
unfolding is_valid
is_valid_iff egress_ipam = (
  check_assignments_sound egress_ipam.cidr_assignments,
  check_assignments_complete egress_ipam.cidr_assignments,
)
