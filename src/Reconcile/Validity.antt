-- ===== src/Reconcile/Validity.antt =====
-- IsValid of controllers/egressipam/egressipam_controller.go
pub mod Accepts
use egressip_ipam_operator.Prelude.{Option, none, some, List, [], ◌∷◌, Text, if◌then◌else◌}
use egressip_ipam_operator.Go.Results.{Result, ok, err, bad_cidr, bad_ip, not_contained, ◌>>=◌}
use egressip_ipam_operator.Go.Net.{IpNet, parse_ip, parse_cidr, contains}
use egressip_ipam_operator.Api.{CidrAssignment, EgressIpam}

-- The inner loop, over the reserved addresses of one CIDR.
unfoldable pub check_reserved : IpNet → List Text → Result (Unit {0})
check_reserved net [] = ok tt
check_reserved net (ipstr ∷ ipstrs) = elim (parse_ip ipstr) [
  | none ↦ err (bad_ip ipstr)
  | some ip ↦
      if contains net (some ip) then check_reserved net ipstrs else err (not_contained ipstr)
]

unfoldable pub check_assignments : List CidrAssignment → Result (Unit {0})
unfolding check_reserved
check_assignments [] = ok tt
check_assignments (assignment ∷ assignments) = elim (parse_cidr assignment.cidr) [
  | none ↦ err (bad_cidr assignment.cidr)
  | some (_, net) ↦
      check_reserved net assignment.reserved_ips >>= λ _. check_assignments assignments
]

-- IsValid: `ok` for true, and the error for false. The cast of the object is left out.
unfoldable pub is_valid : EgressIpam → Result (Unit {0})
unfolding check_assignments
is_valid egress_ipam = check_assignments egress_ipam.cidr_assignments
