-- ===== src/Infra/Azure/Used.antt =====
-- GetUsedIPsByCIDR of controllers/egressipam/azure/azure.go
pub mod Within
use egressip_ipam_operator.Prelude.{Option, none, some, List, [], ◌∷◌, ◌++◌, Text, codes}
use egressip_ipam_operator.Deps.{Deps}
use egressip_ipam_operator.Go.Results.{Result, ok, err, panic, bad_cidr, ◌>>=◌ as ◌>>=ᴿ◌}
use egressip_ipam_operator.Go.Maps.{Map, keys, get}
use egressip_ipam_operator.Go.Strings.{split}
use egressip_ipam_operator.Go.Net.{Ip}
use egressip_ipam_operator.Context.{ReconcileContext}
use egressip_ipam_operator.Network.{VirtualMachine}
use egressip_ipam_operator.Namespaces.{empty_by_cidr}
use egressip_ipam_operator.Effects.{Action, pure, lift, reads, ◌>>=◌}
use egressip_ipam_operator.Infra.Used.{used_by_cidr, add_always_taken}
use egressip_ipam_operator.Infra.Azure.{Azure}

abbrev first_name : List Text → Text
first_name [] = []
first_name (name ∷ _) = name

-- `strings.Split(fqmachineName, "/")`, of which the source takes the parts 0 and 1
abbrev pub namespace_and_name : List Text → Result (Text × Text)
namespace_and_name (namespace ∷ name ∷ _) = ok (namespace, name)
namespace_and_name _ = panic

abbrev machine_of : ReconcileContext → Text → Option Text
machine_of rc node_name = elim (get rc.all_nodes node_name) [
  | none ↦ none
  | some node ↦ get node.annotations (codes "machine.openshift.io/machine")
]

abbrev vnet_of : Azure → Option Text → Action Text
vnet_of azure none = pure []
vnet_of azure (some machine_name) = do
  names ← lift (namespace_and_name (split b'/' machine_name))
  raw ← reads (λ log. azure.get_machine log names.0 names.1)
  lift (azure.unmarshal_vnet raw)

-- getVirtualNetwork, of the machine that the loop meets first. Where its node has no annotation the
-- source makes an error, logs it, and returns the empty name with none.
unfoldable pub get_virtual_network :
    Deps → Azure → Map VirtualMachine → ReconcileContext → Action Text
get_virtual_network d azure instances rc =
    vnet_of azure (machine_of rc (first_name (d.range (keys instances))))

unfoldable pub present : List (Option Text) → List Text
present [] = []
present (none ∷ ips) = present ips
present (some ip ∷ ips) = ip ∷ present ips

-- The addresses of the subnets, without those that are nil.
unfoldable pub addresses_of : List (Option (List (Option Text))) → List Text
unfolding present
addresses_of [] = []
addresses_of (none ∷ subnets) = addresses_of subnets
addresses_of (some ips ∷ subnets) = present ips ++ addresses_of subnets

abbrev pub subnets_or_none :
    Option (List (Option (List (Option Text)))) → List (Option (List (Option Text)))
subnets_or_none none = []
subnets_or_none (some subnets) = subnets

-- getAzureUsedIPsByCIDR
unfoldable pub get_azure_used_ips_by_cidr :
    Deps → Azure → Map VirtualMachine → ReconcileContext → Action (Map (List Ip))
unfolding empty_by_cidr get_virtual_network addresses_of used_by_cidr
get_azure_used_ips_by_cidr d azure [] rc = pure (empty_by_cidr rc.cidrs [])
get_azure_used_ips_by_cidr d azure (instance' ∷ instances) rc = do
  vnet ← get_virtual_network d azure (instance' ∷ instances) rc
  subnets ← reads (λ log. azure.get_subnets log vnet)
  lift (used_by_cidr (addresses_of (subnets_or_none subnets)) rc.cidrs [])

abbrev pub or_bad_cidr : Option (Map (List Ip)) → Result (Map (List Ip))
or_bad_cidr none = err (bad_cidr [])
or_bad_cidr (some m) = ok m

-- AzureInfra.GetUsedIPsByCIDR
unfoldable pub get_azure_used_ips :
    Deps → Azure → Map VirtualMachine → ReconcileContext → Action (Map (List Ip))
unfolding get_azure_used_ips_by_cidr add_always_taken
get_azure_used_ips d azure instances rc = get_azure_used_ips_by_cidr d azure instances rc >>= λ m.
    lift (or_bad_cidr (add_always_taken d (d.range (keys m)) m))
