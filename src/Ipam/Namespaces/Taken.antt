-- ===== src/Ipam/Namespaces/Taken.antt =====
-- The map that assignIPsToNamespaces starts from, and the pools that it ends with
use egressip_ipam_operator.Prelude.{
  ◌-◌, ◌^◌, ◌<◌, ◌≡◌, refl, sym, ap, ◌∙◌, some, List, [], ◌∷◌, Text, Elem, NoDup, All, All-Elem,
  All-of_Elem, inl, inr, arith, text_eq, true, false, if◌then◌else◌, Bool,
}
use egressip_ipam_operator.Deps.{Deps, IsLawful}
use egressip_ipam_operator.Go.Maps.{Map, keys, get, put}
use egressip_ipam_operator.Go.Maps.Keys.{keys-put-NoDup, Elem-keys-put_new, Elem-keys-put_old}
use egressip_ipam_operator.Go.Net.{Ip, IpNet, parse_cidr, size}
use egressip_ipam_operator.Go.Net.Networks.{InNet, parse_cidr-IsParsed, bit_or_ones, size-pos}
use egressip_ipam_operator.Namespaces.{empty_by_cidr}
use egressip_ipam_operator.Ipam.Pool.{IsPool, broadcast, sort_ips}
use egressip_ipam_operator.Ipam.Pool.Sorting.{Ascending-raise}
use egressip_ipam_operator.Ipam.Namespaces.{broadcast_ip, without_duplicates}
use egressip_ipam_operator.Ipam.Namespaces.Merged.{ips_at, ips_at-put, IsBound}
use egressip_ipam_operator.Ipam.Namespaces.Cleaned.{Cleaned-Ascending}
use Prim.Native.Nat.{bit_or}
use native.Mathlib.Nat.{div-mul-le_self, lt-div-mul-add}

-- The map that sortIPsByCIDR starts from.
pub record IsEmptyBy (cidrs : List Text) (m : Map (List Ip)) : Type 0 where
  pub nodup : NoDup (keys m)
  pub known : (c : Text) → Elem c cidrs → Elem c (keys m)
  pub empty : (c : Text) → ips_at m c ≡ []

if_same : (b : Bool) (ips : List Ip) → ips ≡ [] → (if b then [] else ips) ≡ []
if_same true ips e = refl
if_same false ips e = e

empty_by_cidr_from :
    (cidrs old : List Text) (m : Map (List Ip))
    → IsEmptyBy old m
    → IsEmptyBy cidrs (empty_by_cidr cidrs m)
      × ((c : Text) → Elem c (keys m) → Elem c (keys (empty_by_cidr cidrs m)))
unfolding empty_by_cidr
empty_by_cidr_from [] old m h =
    (record { nodup = h.nodup; known = λ c z. absurd z; empty = h.empty }, λ c e. e)
empty_by_cidr_from (k ∷ cidrs) old m h =
    let next : IsEmptyBy [] (put m k []) = record {
      nodup = keys-put-NoDup m k [] h.nodup;
      known = λ c z. absurd z;
      empty = λ c. ips_at-put m k c [] ∙ if_same (text_eq k c) (ips_at m c) (h.empty c);
    } in
    let (r, old_keys) = empty_by_cidr_from cidrs [] (put m k []) next in
    (
      record {
        nodup = r.nodup;
        known = λ c e. elim e [
          | inl p ↦ rw p (old_keys k (Elem-keys-put_new m k []))
          | inr q ↦ r.known c q
        ];
        empty = r.empty;
      },
      λ c e. old_keys c (Elem-keys-put_old m k c [] e),
    )

pub empty_by_cidr-IsEmptyBy : (cidrs : List Text) → IsEmptyBy cidrs (empty_by_cidr cidrs [])
unfolding get
empty_by_cidr-IsEmptyBy cidrs =
    (empty_by_cidr_from cidrs [] [] (record { nodup = tt; known = λ c z. z; empty = λ c. refl })).0

module _ (d : Deps) (lawful : IsLawful d) (cidr : Text) (base : Ip) (net : IpNet)
    (parsed : parse_cidr cidr ≡ some (base, net)) where
  base-InNet : InNet net base
  base-InNet =
      let p = parse_cidr-IsParsed cidr base net parsed in
      let q = size-pos net in
      let lo = div-mul-le_self base (size net) in
      let hi = lt-div-mul-add {a = base} {b = size net} q in let e = p.ip_in in omega arith

  -- `^mask | base` is the last address of the network.
  pub broadcast_ip-eq : broadcast_ip d base net ≡ broadcast net
  broadcast_ip-eq =
      let p = parse_cidr-IsParsed cidr base net parsed in
      let q = size-pos net in
      let e = p.ip_in in
      let fits = p.is_net.fits in
      let bits = bit_or_ones (32 - net.ones) (2 ^ (32 - net.ones) - 1) base (omega arith) in
      let value : bit_or (2 ^ (32 - net.ones) - 1) base ≡ broadcast net = omega arith in
      ap d.from_uint32 value ∙ lawful.from_uint32_eq (broadcast net) (omega arith)

  pub IsBound-InNet : (x : Ip) → IsBound d cidr x → InNet net x
  IsBound-InNet x b =
      let same : some (b.base, b.net) ≡ some (base, net) = sym b.parsed ∙ parsed in
      let base_eq : b.base ≡ base = cc in
      let net_eq : b.net ≡ net = cc in
      elim b.either [
        | inl p ↦ rw (p, base_eq) base-InNet
        | inr p ↦
            let q = size-pos net in
            rw (p, base_eq, net_eq, broadcast_ip-eq) (omega arith, omega arith)
      ]

  -- Addresses of the network, the last one among them, become a well-formed pool.
  pub cleaned-IsPool :
      (ips : List Ip)
      → All (InNet net) ips
      → Elem (broadcast net) ips
      → IsPool net (sort_ips d (without_duplicates d ips))
        × ((x : Ip) → Elem x ips → Elem x (sort_ips d (without_duplicates d ips)))
  cleaned-IsPool ips inside closed =
      let fits = (parse_cidr-IsParsed cidr base net parsed).is_net.fits in
      let fit =
        All-of_Elem (λ ip. ip < 2 ^ 32) ips
          (λ x e. let h = All-Elem (InNet net) ips inside e in omega (arith, h.1)) in
      let (ascends, elem) = Cleaned-Ascending d lawful ips fit in
      (
        record {
          ascends =
              Ascending-raise 0 net.ip (sort_ips d (without_duplicates d ips)) ascends
                (All-of_Elem _ _ (λ x e. (All-Elem (InNet net) ips inside ((elem x).0 e)).0));
          within = All-of_Elem _ _ (λ x e. (All-Elem (InNet net) ips inside ((elem x).0 e)).1);
          closed = (elem (broadcast net)).1 closed;
        },
        λ x e. (elem x).1 e,
      )
