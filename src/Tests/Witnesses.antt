-- ===== src/Tests/Witnesses.antt =====
-- The theorems at the small cluster.
use egressip_ipam_operator.Prelude.{◌≡◌, ◌↔◌, refl, arith, List, [], ◌∷◌, codes, Elem, inl, inr}
use egressip_ipam_operator.Go.Results.{ok, ok-injective, err, no_more_ips}
use egressip_ipam_operator.Go.Net.{Ip, IpNet}
use egressip_ipam_operator.Effects.{update_namespace}
use egressip_ipam_operator.Go.Net.Networks.{InNet}
use egressip_ipam_operator.Ipam.Pool.{IsPool, sort_ips, Ascending}
use egressip_ipam_operator.Ipam.Pool.Sorting.{sort_ips-Sorted}
use egressip_ipam_operator.Ipam.Next.{get_next_available_ip}
use egressip_ipam_operator.Ipam.Next.Least.{
  IsNext, get_next_available_ip-IsNext, get_next_available_ip-ok, get_next_available_ip-full,
}
use egressip_ipam_operator.Ipam.Namespaces.Distinct.{HasPool}
use egressip_ipam_operator.Ipam.Namespaces.Steps.{Round, get_next_available_ips-Round}
use egressip_ipam_operator.Ipam.Namespaces.Allocated.{Allocated, assign_ips-Allocated}
use egressip_ipam_operator.Tests.Cluster.{context, cidr, services, opted_in, with_address, running}
use egressip_ipam_operator.Tests.Reference.{reference, reference-IsLawful}
use egressip_ipam_operator.Effects.{Log}
use egressip_ipam_operator.Go.Results.{Result}
use egressip_ipam_operator.Go.Maps.{Map}
use egressip_ipam_operator.Infra.BareMetal.{bare_metal_infra, get_used_ips_by_cidr}
use egressip_ipam_operator.Namespaces.{empty_by_cidr}
use egressip_ipam_operator.Ipam.Namespaces.Merged.{ips_at}
use egressip_ipam_operator.Ipam.Namespaces.InUse.{Unused, assign_ips_to_namespaces-Unused}
use egressip_ipam_operator.Api.{Namespace}
use egressip_ipam_operator.Ipam.Namespaces.{assign_ips}
use egressip_ipam_operator.Ipam.Namespaces.Enough.{HasRoom, assign_ips-succeeds}
use egressip_ipam_operator.Prelude.{ap, sym, subst, All, inl}

abbrev net : IpNet
net = record { ip = 167772160; ones = 29 }

-- 10.0.0.0, 10.0.0.1 and 10.0.0.7
abbrev taken : List Ip
taken = 167772160 ∷ 167772161 ∷ 167772167 ∷ []

taken-IsPool : IsPool net taken
taken-IsPool = record {
  ascends = (omega arith, (omega arith, (omega arith, tt)));
  within = (omega arith, (omega arith, (omega arith, tt)));
  closed = inr (inr (inl refl));
}

taken-HasPool : HasPool ((cidr, taken) ∷ []) cidr net taken
unfolding running
taken-HasPool = record {
  addr = 167772160;
  parsed = refl;
  masked = omega arith;
  here = refl;
  pool = taken-IsPool;
}

abbrev two : List Ip
two = 167772162 ∷ 167772163 ∷ []

assign_ips-Allocated_example :
    Allocated
      (cidr ∷ [])
      cidr
      net
      taken
      (opted_in (codes "b") ∷ opted_in (codes "c") ∷ [])
      []
      (with_address (codes "b") (codes "10.0.0.2")
        ∷ with_address (codes "c") (codes "10.0.0.3")
        ∷ [])
      (update_namespace (with_address (codes "b") (codes "10.0.0.2"))
        ∷ update_namespace (with_address (codes "c") (codes "10.0.0.3"))
        ∷ [])
unfolding running
assign_ips-Allocated_example =
    assign_ips-Allocated reference reference-IsLawful (cidr ∷ []) services
      (opted_in (codes "b") ∷ opted_in (codes "c") ∷ []) ((cidr, taken) ∷ []) [] _ _ cidr net taken
      ((λ e. e), tt) taken-HasPool refl

get_next_available_ip-IsNext_example :
    (ip : Ip) × (ips' : List Ip) × (get_next_available_ip reference cidr taken ≡ ok (ip, ips'))
    × IsNext net taken ip ips'
unfolding running
get_next_available_ip-IsNext_example =
    get_next_available_ip-IsNext reference reference-IsLawful cidr 167772160 net taken refl
      (omega arith) taken-IsPool (omega arith)

get_next_available_ip-ok_example :
    IsNext net taken 167772162 (167772160 ∷ 167772161 ∷ 167772162 ∷ 167772167 ∷ [])
unfolding running
get_next_available_ip-ok_example =
    get_next_available_ip-ok reference reference-IsLawful cidr 167772160 net taken refl
      (omega arith) taken-IsPool 167772162 _ refl

get_next_available_ip-full_example :
    (get_next_available_ip reference cidr taken ≡ err (no_more_ips cidr))
    ↔ ((x : Ip) → InNet net x → Elem x taken)
unfolding running
get_next_available_ip-full_example =
    get_next_available_ip-full reference reference-IsLawful cidr 167772160 net taken refl
      (omega arith) taken-IsPool

get_next_available_ips-Round_example :
    Round reference
      (cidr ∷ [])
      ([], (cidr, taken) ∷ [])
      ((cidr, 167772162) ∷ [], (cidr, 167772160 ∷ 167772161 ∷ 167772162 ∷ 167772167 ∷ []) ∷ [])
unfolding running
get_next_available_ips-Round_example =
    get_next_available_ips-Round reference reference-IsLawful ((cidr, taken) ∷ []) _ ((λ e. e), tt)
      refl

sort_ips-Sorted_example :
    Ascending 0 (sort_ips reference (7 ∷ 3 ∷ 7 ∷ []))
    × ((ip : Ip) → Elem ip (sort_ips reference (7 ∷ 3 ∷ 7 ∷ [])) ↔ Elem ip (7 ∷ 3 ∷ 7 ∷ []))
sort_ips-Sorted_example =
    sort_ips-Sorted reference reference-IsLawful (7 ∷ 3 ∷ 7 ∷ [])
      (omega arith, (omega arith, (omega arith, tt)))

-- The answer of the bare metal infrastructure is empty at the CIDR.
no_infra :
    (infra_ips : Map (List Ip)) (mid : Log)
    → bare_metal_infra.get_used_ips_by_cidr context [] ≡ (ok infra_ips, mid)
    → All (InNet net) (ips_at infra_ips cidr)
unfolding running get_used_ips_by_cidr empty_by_cidr
no_infra infra_ips mid e =
    let answer : ok ((cidr, []) ∷ []) ≡ ok infra_ips =
      ap (λ (r : Result (Map (List Ip)) × Log). r.0) e in
    subst (λ (m : Map (List Ip)). All (InNet net) (ips_at m cidr)) (ok-injective answer) tt

assign_ips_to_namespaces-Unused_example :
    Unused reference bare_metal_infra context [] cidr net
      (with_address (codes "b") (codes "10.0.0.2")
        ∷ with_address (codes "c") (codes "10.0.0.4")
        ∷ [])
      (update_namespace (with_address (codes "b") (codes "10.0.0.2"))
        ∷ update_namespace (with_address (codes "c") (codes "10.0.0.4"))
        ∷ [])
unfolding running
assign_ips_to_namespaces-Unused_example =
    assign_ips_to_namespaces-Unused reference reference-IsLawful bare_metal_infra context [] cidr
      167772160 net (inl refl) refl (omega arith) refl ((omega arith, omega arith), tt) no_infra
      services _ _ refl

-- The pool lacks five addresses of eight.
taken-HasRoom : HasRoom 2 ((cidr, taken) ∷ [])
taken-HasRoom c (inl p) = (
  net,
  taken,
  subst (λ k. HasPool ((cidr, taken) ∷ []) k net taken) (sym p) taken-HasPool,
  omega arith,
)
taken-HasRoom c (inr z) = absurd z

assign_ips-succeeds_example :
    (result : List Namespace) × (log' : Log) × (assign_ips reference services
        (cidr ∷ [])
        (opted_in (codes "b") ∷ opted_in (codes "c") ∷ [])
        ((cidr, taken) ∷ [])
        []
      ≡ (ok result, log'))
assign_ips-succeeds_example =
    assign_ips-succeeds reference reference-IsLawful services (λ log w. refl) (cidr ∷ [])
      (opted_in (codes "b") ∷ opted_in (codes "c") ∷ []) ((cidr, taken) ∷ []) [] ((λ e. e), tt)
      taken-HasRoom
