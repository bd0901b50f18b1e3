-- ===== src/Reconcile/Load/Kept.antt =====
-- The loop of loadReconcileContext over the CIDR assignments, in
-- controllers/egressipam/egressipam_controller.go
use mathlib.Core.List.{append-nil, append_assoc, map-append}
use mathlib.Core.Option.{some-injective}
use egressip_ipam_operator.Prelude.{
  ◌≡◌, refl, sym, ap, ◌∙◌, subst, inl, inr, some, List, [], ◌∷◌, ◌++◌, map, Text, text_eq,
  text_eq_iff, if◌then◌else◌, Elem, Elem-append, All, Bool-cases,
}
use egressip_ipam_operator.Go.Results.{ok, ok-injective, ◌>>=◌ as ◌>>=ᴿ◌, >>=-eq-ok as >>=ᴿ-eq-ok}
use egressip_ipam_operator.Go.Maps.{get, put, get-put}
use egressip_ipam_operator.Go.Net.{Ip, IpNet, parse_ip, parse_cidr}
use egressip_ipam_operator.Go.Net.Networks.{InNet, contains-InNet}
use egressip_ipam_operator.Api.{CidrAssignment}
use egressip_ipam_operator.Ipam.Namespaces.Merged.{ips_at, ips_at-put}
use egressip_ipam_operator.Reconcile.Load.{Cidrs, no_cidrs, parse_reserved, load_cidrs}
use egressip_ipam_operator.Reconcile.Validity.Accepts.{IsReserved, IsAssignable}

abbrev pub cidr_text : CidrAssignment → Text
cidr_text a = a.cidr

-- What the context's maps have of the assignments that the loop has seen.
pub record IsKept (done : List CidrAssignment) (c : Cidrs) : Type 0 where
  pub cidrs : c.cidrs ≡ map cidr_text done
  -- by one of the assignments of the CIDR
  pub parsed :
      (cidr : Text)
      → Elem cidr c.cidrs
      → (a : CidrAssignment) × Elem a done
        × (a.cidr ≡ cidr)
        × (map parse_ip a.reserved_ips ≡ map some (ips_at c.reserved_ips_by_cidr cidr))
  -- by one of the assignments of the label
  pub labels :
      (a : CidrAssignment)
      → Elem a done
      → (b : CidrAssignment) × Elem b done
        × (b.label_value ≡ a.label_value)
        × (get c.cidrs_by_label a.label_value ≡ some b.cidr)
  pub known :
      (cidr : Text)
      → Elem cidr c.cidrs
      → (base : Ip) × (net : IpNet) × (parse_cidr cidr ≡ some (base, net))
        × (get c.net_cidr_by_cidr cidr ≡ some net)
  pub reserved :
      (cidr : Text) (base : Ip) (net : IpNet)
      → parse_cidr cidr ≡ some (base, net)
      → All (InNet net) (ips_at c.reserved_ips_by_cidr cidr)

parse_reserved-InNet :
    (net : IpNet) (ipstrs : List Text) (ips : List Ip)
    → All (IsReserved net) ipstrs
    → parse_reserved ipstrs ≡ ok ips
    → All (InNet net) ips
unfolding parse_reserved
parse_reserved-InNet net [] ips h e = subst (All (InNet net)) (ok-injective e) tt
parse_reserved-InNet net (i ∷ ipstrs) ips h e =
    let more : (parse_reserved ipstrs >>=ᴿ λ rest. ok (h.0.ip ∷ rest)) ≡ ok ips =
      rw (parse_reserved, h.0.parsed) at e in
    let (rest, there, same) =
      >>=ᴿ-eq-ok (parse_reserved ipstrs) (λ rest. ok (h.0.ip ∷ rest)) more in
    subst (All (InNet net)) (ok-injective same)
      (contains-InNet net h.0.ip h.0.inside, parse_reserved-InNet net ipstrs rest h.1 there)

parse_reserved-eq :
    (net : IpNet) (ipstrs : List Text) (ips : List Ip)
    → All (IsReserved net) ipstrs
    → parse_reserved ipstrs ≡ ok ips
    → map parse_ip ipstrs ≡ map some ips
unfolding parse_reserved
parse_reserved-eq net [] ips h e = ap (map some) (ok-injective e)
parse_reserved-eq net (i ∷ ipstrs) ips h e =
    let more : (parse_reserved ipstrs >>=ᴿ λ rest. ok (h.0.ip ∷ rest)) ≡ ok ips =
      rw (parse_reserved, h.0.parsed) at e in
    let (rest, there, same) =
      >>=ᴿ-eq-ok (parse_reserved ipstrs) (λ rest. ok (h.0.ip ∷ rest)) more in
    let tail = parse_reserved-eq net ipstrs rest h.1 there in
    subst (λ (l : List Ip). map parse_ip (i ∷ ipstrs) ≡ map some l) (ok-injective same)
      (λ j. h.0.parsed j ∷ tail j)

-- The step of the loop.
abbrev with_assignment : Cidrs → CidrAssignment → IpNet → List Ip → Cidrs
with_assignment c assignment net ips = record {
  cidrs = c.cidrs ++ assignment.cidr ∷ [];
  cidrs_by_label = put c.cidrs_by_label assignment.label_value assignment.cidr;
  reserved_ips_by_cidr = put c.reserved_ips_by_cidr assignment.cidr ips;
  net_cidr_by_cidr = put c.net_cidr_by_cidr assignment.cidr net;
}

with_assignment-IsKept :
    (c : Cidrs) (assignment : CidrAssignment) (v : IsAssignable assignment) (ips : List Ip)
    (done : List CidrAssignment)
    → IsKept done c
    → parse_reserved assignment.reserved_ips ≡ ok ips
    → IsKept (done ++ assignment ∷ []) (with_assignment c assignment v.net ips)
with_assignment-IsKept c assignment v ips done kept there = record {
  cidrs =
      ap (λ (l : List Text). l ++ assignment.cidr ∷ []) kept.cidrs
      ∙ sym (map-append cidr_text done (assignment ∷ []));
  parsed = λ cidr at. elim (Bool-cases (text_eq assignment.cidr cidr)) [
    | inl same ↦ (
      assignment,
      (Elem-append assignment done (assignment ∷ [])).1 (inr (inl refl)),
      (text_eq_iff assignment.cidr cidr).0 same,
      rw (ips_at-put c.reserved_ips_by_cidr assignment.cidr cidr ips, same)
          (parse_reserved-eq v.net assignment.reserved_ips ips v.reserved there),
    )
    | inr apart ↦ elim ((Elem-append cidr c.cidrs (assignment.cidr ∷ [])).0 at) [
      | inl old ↦
          let (a, here, p, q) = kept.parsed cidr old in
          (
            a,
            (Elem-append a done (assignment ∷ [])).1 (inl here),
            p,
            rw (ips_at-put c.reserved_ips_by_cidr assignment.cidr cidr ips, apart) q,
          )
      | inr (inl p) ↦ let clash = (text_eq_iff assignment.cidr cidr).1 (sym p) in cc
      | inr (inr z) ↦ absurd z
    ]
  ];
  labels = λ a at. elim (Bool-cases (text_eq assignment.label_value a.label_value)) [
    | inl same ↦ (
      assignment,
      (Elem-append assignment done (assignment ∷ [])).1 (inr (inl refl)),
      (text_eq_iff assignment.label_value a.label_value).0 same,
      get-put c.cidrs_by_label assignment.label_value a.label_value assignment.cidr
          ∙ ap (λ b. if b then some assignment.cidr else get c.cidrs_by_label a.label_value) same,
    )
    | inr apart ↦ elim ((Elem-append a done (assignment ∷ [])).0 at) [
      | inl old ↦
          let (b, here, p, q) = kept.labels a old in
          (
            b,
            (Elem-append b done (assignment ∷ [])).1 (inl here),
            p,
            get-put c.cidrs_by_label assignment.label_value a.label_value assignment.cidr
                ∙ ap (λ b. if b then some assignment.cidr else get c.cidrs_by_label a.label_value)
                    apart
                ∙ q,
          )
      | inr (inl p) ↦
          let clash =
            (text_eq_iff assignment.label_value a.label_value).1
              (ap (λ (x : CidrAssignment). x.label_value) (sym p)) in
          cc
      | inr (inr z) ↦ absurd z
    ]
  ];
  known = λ cidr at. elim (Bool-cases (text_eq assignment.cidr cidr)) [
    | inl same ↦
        let p = (text_eq_iff assignment.cidr cidr).0 same in
        (
          v.addr,
          v.net,
          ap parse_cidr (sym p) ∙ v.parsed,
          get-put c.net_cidr_by_cidr assignment.cidr cidr v.net
              ∙ ap (λ b. if b then some v.net else get c.net_cidr_by_cidr cidr) same,
        )
    | inr apart ↦ elim ((Elem-append cidr c.cidrs (assignment.cidr ∷ [])).0 at) [
      | inl old ↦
          let (base, net, p, q) = kept.known cidr old in
          (
            base,
            net,
            p,
            get-put c.net_cidr_by_cidr assignment.cidr cidr v.net
                ∙ ap (λ b. if b then some v.net else get c.net_cidr_by_cidr cidr) apart
                ∙ q,
          )
      | inr (inl p) ↦ let clash = (text_eq_iff assignment.cidr cidr).1 (sym p) in cc
      | inr (inr z) ↦ absurd z
    ]
  ];
  reserved = λ cidr base net parsed. elim (Bool-cases (text_eq assignment.cidr cidr)) [
    | inl same ↦
        let eq : some (v.addr, v.net) ≡ some (base, net) =
          sym v.parsed ∙ ap parse_cidr ((text_eq_iff assignment.cidr cidr).0 same) ∙ parsed in
        rw (ips_at-put c.reserved_ips_by_cidr assignment.cidr cidr ips, same)
          (subst (λ (n : IpNet). All (InNet n) ips)
            (ap (λ (r : Ip × IpNet). r.1) (some-injective _ _ eq))
            (parse_reserved-InNet v.net assignment.reserved_ips ips v.reserved there))
    | inr apart ↦
        rw (ips_at-put c.reserved_ips_by_cidr assignment.cidr cidr ips, apart)
          (kept.reserved cidr base net parsed)
  ];
}

pub load_cidrs-IsKept :
    (assignments done : List CidrAssignment) (c c' : Cidrs)
    → All IsAssignable assignments
    → IsKept done c
    → load_cidrs assignments c ≡ ok c'
    → IsKept (done ++ assignments) c'
unfolding load_cidrs
load_cidrs-IsKept [] done c c' valid kept e =
    subst (λ (l : List CidrAssignment). IsKept l c') (sym (append-nil done))
      (subst (IsKept done) (ok-injective e) kept)
load_cidrs-IsKept (assignment ∷ assignments) done c c' valid kept e =
    let chain : (parse_reserved assignment.reserved_ips >>=ᴿ λ ips.
    load_cidrs assignments (with_assignment c assignment valid.0.net ips))
        ≡ ok c' =
      rw (load_cidrs, valid.0.parsed) at e in
    let (ips, there, rest) =
      >>=ᴿ-eq-ok (parse_reserved assignment.reserved_ips)
        (λ ips. load_cidrs assignments (with_assignment c assignment valid.0.net ips)) chain in
    subst (λ (l : List CidrAssignment). IsKept l c')
      (append_assoc done (assignment ∷ []) assignments)
      (load_cidrs-IsKept assignments (done ++ assignment ∷ [])
        (with_assignment c assignment valid.0.net ips) c' valid.1
        (with_assignment-IsKept c assignment valid.0 ips done kept there) rest)

pub no_cidrs-IsKept : IsKept [] no_cidrs
unfolding get
no_cidrs-IsKept = record {
  cidrs = refl;
  parsed = λ cidr at. absurd at;
  labels = λ a at. absurd at;
  known = λ cidr at. absurd at;
  reserved = λ cidr base net parsed. tt;
}
