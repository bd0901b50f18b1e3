-- ===== src/Ipam/Namespaces.antt =====
-- assignIPsToNamespaces of controllers/egressipam/ipam.go
pub mod ReadBack
pub mod Enough
pub mod Distinct
pub mod Steps
pub mod Allocated
pub mod Merged
pub mod Sorted
pub mod Taken
pub mod Pools
pub mod InUse
pub mod OnNodes
pub mod Cleaned
use Prim.Native.Nat.{bit_or}
use egressip_ipam_operator.Prelude.{
  ℕ, ◌-◌, ◌^◌, Option, none, some, List, [], ◌∷◌, ◌++◌, map, Text, codes,
}
use egressip_ipam_operator.Deps.{Deps}
use egressip_ipam_operator.Go.Results.{Result, ok, err, bad_cidr, ◌>>=◌ as ◌>>=ᴿ◌}
use egressip_ipam_operator.Go.Maps.{Map, keys, get, put, get_or_zero}
use egressip_ipam_operator.Go.Strings.{join}
use egressip_ipam_operator.Go.Net.{Ip, IpNet, parse_ip, print_ip, parse_cidr}
use egressip_ipam_operator.Api.{Namespace, namespace_association_annotation}
use egressip_ipam_operator.Context.{ReconcileContext}
use egressip_ipam_operator.Effects.{
  Action, Services, pure, lift, write, update_namespace, ◌>>=◌, ◌>>◌,
}
use egressip_ipam_operator.Infra.{Infra}
use egressip_ipam_operator.Namespaces.{sort_ips_by_cidr}
use egressip_ipam_operator.Nodes.{get_nodes_ips_by_cidr}
use egressip_ipam_operator.Ipam.Pool.{sort_ips}
use egressip_ipam_operator.Ipam.Next.{Chosen, get_next_available_ip}

-- `^mask | base`, for the 32 bits of the mask of a network
abbrev pub broadcast_ip : Deps → Ip → IpNet → Ip
broadcast_ip d base net = d.from_uint32 (bit_or (2 ^ (32 - net.ones) - 1) base)

-- "in all cases we need to add the base network and the broadcast address"
unfoldable pub add_bounds : Deps → List Text → Map (List Ip) → Result (Map (List Ip))
add_bounds d [] m = ok m
add_bounds d (cidr ∷ cidrs) m = elim (parse_cidr cidr) [
  | none ↦ err (bad_cidr cidr)
  | some (base, net) ↦
      add_bounds d cidrs (put m cidr (get_or_zero [] m cidr ++ base ∷ broadcast_ip d base net ∷ []))
]

-- `for cidr := range m { m[cidr] = append(m[cidr], more[cidr]...) }`
unfoldable pub add_all : List Text → Map (List Ip) → Map (List Ip) → Map (List Ip)
add_all [] more m = m
add_all (cidr ∷ cidrs) more m =
    add_all cidrs more (put m cidr (get_or_zero [] m cidr ++ get_or_zero [] more cidr))

-- The addresses of texts. The texts that it is given come from `IP.String`, so each has one.
unfoldable pub parse_all : List Text → List Ip
parse_all [] = []
parse_all (s ∷ ss) = elim (parse_ip s) [ none ↦ parse_all ss | some ip ↦ ip ∷ parse_all ss ]

unfoldable pub without_duplicates : Deps → List Ip → List Ip
unfolding parse_all
without_duplicates d ips = parse_all (d.str_list (map print_ip ips))

-- removeDuplicates
unfoldable pub remove_duplicates : Deps → Map (List Ip) → Map (List Ip)
unfolding without_duplicates
remove_duplicates d [] = []
remove_duplicates d ((cidr, ips) ∷ m) = (cidr, without_duplicates d ips) ∷ remove_duplicates d m

unfoldable pub sort_all : Deps → Map (List Ip) → Map (List Ip)
sort_all d [] = []
sort_all d ((cidr, ips) ∷ m) = (cidr, sort_ips d ips) ∷ sort_all d m

-- The first part of assignIPsToNamespaces: what is taken in each CIDR.
unfoldable pub taken_ips : Deps → Infra → ReconcileContext → Action (Map (List Ip))
unfolding add_bounds add_all remove_duplicates sort_all
taken_ips d infra rc = do
  assigned ← lift (sort_ips_by_cidr rc)
  let range = d.range (keys assigned)
  bounded ← lift (add_bounds d range assigned)
  let reserved = add_all range rc.reserved_ips_by_cidr bounded
  nodes_ips ← lift (get_nodes_ips_by_cidr d rc)
  infra_ips ← infra.get_used_ips_by_cidr rc
  let used = add_all range infra_ips (add_all range nodes_ips reserved)
  pure (sort_all d (remove_duplicates d used))

abbrev pub NextIps : Type 0
NextIps = Map Ip × Map (List Ip)

-- getNextAvailableIPs, from the CIDRs that the loop has not met yet
unfoldable pub next_ips : Deps → List Text → NextIps → Result NextIps
next_ips d [] (assigned, ips_by_cidr) = ok (assigned, ips_by_cidr)
next_ips d (cidr ∷ cidrs) (assigned, ips_by_cidr) =
    get_next_available_ip d cidr (get_or_zero [] ips_by_cidr cidr) >>=ᴿ λ chosen.
    next_ips d cidrs (put assigned cidr chosen.0, put ips_by_cidr cidr chosen.1)

-- getNextAvailableIPs: the new addresses, and the map that the source updates in place
unfoldable pub get_next_available_ips : Deps → Map (List Ip) → Result NextIps
unfolding next_ips
get_next_available_ips d ips_by_cidr = next_ips d (d.range (keys ips_by_cidr)) ([], ips_by_cidr)

-- `newIPsByCIDRs[cidr].String()`; a nil address prints as `<nil>`.
abbrev pub ip_string : Map Ip → Text → Text
ip_string ips cidr = elim (get ips cidr) [ none ↦ codes "<nil>" | some ip ↦ print_ip ip ]

-- `namespace.ObjectMeta.Annotations[NamespaceAssociationAnnotation] = strings.Join(ipstrings, ",")`. The map of the
-- annotations is there: a namespace is only assigned addresses if it has the annotation that opts in.
unfoldable pub with_ips : List Text → Map Ip → Namespace → Namespace
with_ips cidrs ips namespace = record namespace {
  annotations =
      put namespace.annotations namespace_association_annotation
        (join b',' (map (ip_string ips) cidrs));
}

-- The second part: the loop over the namespaces without addresses.
unfoldable pub assign_ips :
    Deps → Services → List Text → List Namespace → Map (List Ip) → Action (List Namespace)
assign_ips d services cidrs [] taken = pure []
assign_ips d services cidrs (unassigned ∷ namespaces) taken = do
  next ← lift (get_next_available_ips d taken)
  let namespace = with_ips cidrs next.0 unassigned
  write services (update_namespace namespace)
  more ← assign_ips d services cidrs namespaces next.1
  pure (namespace ∷ more)

-- assignIPsToNamespaces
unfoldable pub assign_ips_to_namespaces :
    Deps → Services → Infra → ReconcileContext → Action (List Namespace)
unfolding taken_ips assign_ips write
assign_ips_to_namespaces d services infra rc = do
  taken ← taken_ips d infra rc
  assign_ips d services rc.cidrs rc.unassigned_namespaces taken
