-- ===== src/Ipam/Namespaces/ReadBack.antt =====
-- The annotation that assignIPsToNamespaces writes, as sortIPsByCIDR reads it
use egressip_ipam_operator.Prelude.{
  ◌≡◌, ◌≢◌, ◌<◌, ◌^◌, refl, sym, ap, ◌∙◌, subst, true, some, List, [], ◌∷◌, map, Text, All,
}
use egressip_ipam_operator.Go.Results.{Result, ok, ◌>>=◌}
use egressip_ipam_operator.Go.Strings.{join, split-join, Free}
use egressip_ipam_operator.Go.Maps.{Map, get, get-put_self}
use egressip_ipam_operator.Go.Net.{Ip, IpNet, print_ip, contains}
use egressip_ipam_operator.Go.Net.Printing.{parse_ip-print_ip, print_ip-Free}
use egressip_ipam_operator.Api.{Namespace, namespace_association_annotation}
use egressip_ipam_operator.Context.{ReconcileContext}
use egressip_ipam_operator.Namespaces.{assigned_ip, add_ip, sort_annotation, sort_namespaces}
use egressip_ipam_operator.Ipam.Namespaces.{ip_string, with_ips}

-- The address that a namespace got at a CIDR, and the CIDR's network, in which it lies.
pub record IsGiven (rc : ReconcileContext) (ips : Map Ip) (cidr : Text) : Type 0 where
  pub ip : Ip
  pub net : IpNet
  pub given : get ips cidr ≡ some ip
  pub fits : ip < 2 ^ 32
  pub known : get rc.net_cidr_by_cidr cidr ≡ some net
  pub inside : contains net (some ip) ≡ true

ip_string-eq-print_ip :
    (rc : ReconcileContext) (ips : Map Ip) (cidr : Text) (g : IsGiven rc ips cidr)
    → ip_string ips cidr ≡ print_ip g.ip
ip_string-eq-print_ip rc ips cidr g = rw (ip_string, g.given) refl

assigned_ip-ok :
    (rc : ReconcileContext) (ips : Map Ip) (cidr : Text) (g : IsGiven rc ips cidr)
    → assigned_ip rc cidr (ip_string ips cidr) ≡ ok g.ip
assigned_ip-ok rc ips cidr g =
    rw
      (
        ip_string-eq-print_ip rc ips cidr g,
        assigned_ip,
        parse_ip-print_ip g.ip g.fits,
        g.known,
        g.inside,
      )
      refl

-- The addresses, one by one, at their CIDRs.
abbrev pub add_each :
    (rc : ReconcileContext) (ips : Map Ip) (cidrs : List Text)
    → All (IsGiven rc ips) cidrs
    → Map (List Ip)
    → Map (List Ip)
add_each rc ips [] g m = m
add_each rc ips (cidr ∷ cidrs) g m = add_each rc ips cidrs g.1 (add_ip m cidr g.0.ip)

sort_annotation-add_each :
    (rc : ReconcileContext) (ips : Map Ip) (cidrs : List Text) (g : All (IsGiven rc ips) cidrs)
    (m : Map (List Ip))
    → sort_annotation rc cidrs (map (ip_string ips) cidrs) m ≡ ok (add_each rc ips cidrs g m)
unfolding sort_annotation
sort_annotation-add_each rc ips [] g m = refl
sort_annotation-add_each rc ips (cidr ∷ cidrs) g m =
    ap
      (λ (r : Result Ip).
        r >>= λ ip. sort_annotation rc cidrs (map (ip_string ips) cidrs) (add_ip m cidr ip))
      (assigned_ip-ok rc ips cidr g.0)
    ∙ sort_annotation-add_each rc ips cidrs g.1 (add_ip m cidr g.0.ip)

ip_strings-Free :
    (rc : ReconcileContext) (ips : Map Ip) (cidrs : List Text)
    → All (IsGiven rc ips) cidrs
    → All (Free b',') (map (ip_string ips) cidrs)
ip_strings-Free rc ips [] g = tt
ip_strings-Free rc ips (cidr ∷ cidrs) g = (
  subst (Free b',') (sym (ip_string-eq-print_ip rc ips cidr g.0)) (print_ip-Free g.0.ip),
  ip_strings-Free rc ips cidrs g.1,
)

map_some : (f : Text → Text) (cidrs : List Text) → cidrs ≢ [] → map f cidrs ≢ []
map_some f [] h = absurd (h refl)
map_some f (cidr ∷ cidrs) h = λ e. cc

-- The annotation that a namespace is written with is read back: where each CIDR of the context has a
-- network, and the namespace got an address of that network at each of them, sortIPsByCIDR succeeds at
-- the namespace and adds to each CIDR exactly the address that the namespace got there.
pub sort_namespaces-with_ips :
    (rc : ReconcileContext) (ips : Map Ip) (namespace : Namespace) (m : Map (List Ip))
    → rc.cidrs ≢ []
    → (g : All (IsGiven rc ips) rc.cidrs)
    → sort_namespaces rc (with_ips rc.cidrs ips namespace ∷ []) m
      ≡ ok (add_each rc ips rc.cidrs g m)
unfolding sort_namespaces with_ips
sort_namespaces-with_ips rc ips namespace m some_cidr g =
    let texts = map (ip_string ips) rc.cidrs in
    rw
      (
        sort_namespaces,
        get-put_self namespace.annotations namespace_association_annotation (join b',' texts),
        split-join b',' texts (map_some (ip_string ips) rc.cidrs some_cidr)
            (ip_strings-Free rc ips rc.cidrs g),
        sort_annotation-add_each rc ips rc.cidrs g m,
      )
      refl
