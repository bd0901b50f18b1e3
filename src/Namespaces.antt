-- ===== src/Namespaces.antt =====
-- controllers/egressipam/namespace.go
pub mod Parted
pub mod Written
use egressip_ipam_operator.Prelude.{
  Bool, true, false, none, some, List, [], ◌∷◌, ◌++◌, map, Text, text_eq, if◌then◌else◌,
}
use egressip_ipam_operator.Deps.{Deps}
use egressip_ipam_operator.Go.Results.{Result, ok, err, panic, bad_ip, not_contained, ◌>>=◌}
use egressip_ipam_operator.Go.Maps.{Map, get, put, remove, get_or_zero}
use egressip_ipam_operator.Go.Strings.{split}
use egressip_ipam_operator.Go.Net.{Ip, parse_ip, contains}
use egressip_ipam_operator.Api.{
  EgressIpam, Namespace, namespace_annotation, namespace_association_annotation,
}
use egressip_ipam_operator.Context.{ReconcileContext}
use egressip_ipam_operator.Effects.{Action, Services, write, update_namespace, go_all}

-- The namespaces that refer to an EgressIPAM, and of those the ones without and with addresses.
pub record Referring : Type 0 where
  pub referring_namespaces : Map Namespace
  pub unassigned_namespaces : List Namespace
  pub assigned_namespaces : List Namespace

abbrev pub refers : Text → Namespace → Bool
refers name namespace = elim (get namespace.annotations namespace_annotation) [
  | none ↦ false
  | some value ↦ text_eq value name
]

abbrev pub has_ips : Namespace → Bool
has_ips namespace = elim (get namespace.annotations namespace_association_annotation) [
  | none ↦ false
  | some _ ↦ true
]

abbrev sort_referring : Namespace → Referring → Referring
sort_referring namespace r =
    let named = put r.referring_namespaces namespace.name namespace in
    if has_ips namespace
    then record r {
      referring_namespaces = named;
      assigned_namespaces = r.assigned_namespaces ++ namespace ∷ [];
    }
    else record r {
      referring_namespaces = named;
      unassigned_namespaces = r.unassigned_namespaces ++ namespace ∷ [];
    }

-- The loop of getReferringNamespaces over the items of the list.
unfoldable pub referring : Text → Referring → List Namespace → Referring
referring name r [] = r
referring name r (namespace ∷ items) =
    referring name (if refers name namespace then sort_referring namespace r else r) items

abbrev pub no_namespaces : Referring
no_namespaces = record {
  referring_namespaces = [];
  unassigned_namespaces = [];
  assigned_namespaces = [];
}

-- getReferringNamespaces
unfoldable pub get_referring_namespaces : Services → EgressIpam → Action Referring
unfolding referring
get_referring_namespaces services egress_ipam log = (
  services.list_namespaces log >>= λ items. ok (referring egress_ipam.name no_namespaces items),
  log,
)

-- The address that a namespace's annotation gives for a CIDR. `ipstrings[i]` panics where the
-- annotation has no `i`th address, and `Contains` does at a CIDR with no network.
abbrev pub assigned_ip : ReconcileContext → Text → Text → Result Ip
assigned_ip rc cidr ipstring = elim (parse_ip ipstring) [
  | none ↦ err (bad_ip ipstring)
  | some ip ↦ elim (get rc.net_cidr_by_cidr cidr) [
    | none ↦ panic
    | some net ↦ if contains net (some ip) then ok ip else err (not_contained ipstring)
  ]
]

abbrev pub add_ip : Map (List Ip) → Text → Ip → Map (List Ip)
add_ip ips_by_cidr cidr ip = put ips_by_cidr cidr (get_or_zero [] ips_by_cidr cidr ++ ip ∷ [])

-- The inner loop, over the CIDRs and, by their index, over the parts of the annotation.
unfoldable pub sort_annotation :
    ReconcileContext → List Text → List Text → Map (List Ip) → Result (Map (List Ip))
sort_annotation rc [] ipstrings ips_by_cidr = ok ips_by_cidr
sort_annotation rc (cidr ∷ cidrs) [] ips_by_cidr = panic
sort_annotation rc (cidr ∷ cidrs) (ipstring ∷ ipstrings) ips_by_cidr =
    assigned_ip rc cidr ipstring >>= λ ip.
    sort_annotation rc cidrs ipstrings (add_ip ips_by_cidr cidr ip)

unfoldable pub sort_namespaces :
    ReconcileContext → List Namespace → Map (List Ip) → Result (Map (List Ip))
unfolding sort_annotation
sort_namespaces rc [] ips_by_cidr = ok ips_by_cidr
sort_namespaces rc (namespace ∷ namespaces) ips_by_cidr =
    elim (get namespace.annotations namespace_association_annotation) [
      | none ↦ sort_namespaces rc namespaces ips_by_cidr
      | some value ↦
          sort_annotation rc rc.cidrs (split b',' value) ips_by_cidr
          >>= sort_namespaces rc namespaces
    ]

unfoldable pub empty_by_cidr {ℓ} : {V : Type ℓ} → List Text → Map (List V) → Map (List V)
empty_by_cidr [] m = m
empty_by_cidr (cidr ∷ cidrs) m = empty_by_cidr cidrs (put m cidr [])

-- sortIPsByCIDR
unfoldable pub sort_ips_by_cidr : ReconcileContext → Result (Map (List Ip))
unfolding sort_namespaces empty_by_cidr
sort_ips_by_cidr rc =
    sort_namespaces rc rc.initially_assigned_namespaces (empty_by_cidr rc.cidrs [])

abbrev pub without_ips : Namespace → Namespace
without_ips namespace = record namespace {
  annotations = remove namespace.annotations namespace_association_annotation;
}

-- removeNamespaceAssignedIPs
unfoldable pub remove_namespace_assigned_ips : Deps → Services → ReconcileContext → Action Unit
unfolding write go_all
remove_namespace_assigned_ips d services rc = go_all (
    d.schedule (Action Unit) (
      map (λ namespace. write services (update_namespace (without_ips namespace)))
        rc.initially_assigned_namespaces))
