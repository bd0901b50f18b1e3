-- ===== src/Infra/Azure.antt =====
-- controllers/egressipam/azure/azure.go
pub mod Addresses
pub mod Used
pub mod Client
use egressip_ipam_operator.Prelude.{
  ℕ, zero, suc, Bool, true, false, Option, none, some, List, [], ◌∷◌, Text, text_eq, ◌==◌,
  if◌then◌else◌,
}
use egressip_ipam_operator.Deps.{Deps}
use egressip_ipam_operator.Go.Results.{Result, ok, err, panic}
use egressip_ipam_operator.Go.Maps.{Map, keys, put}
use egressip_ipam_operator.Go.Strings.{split}
use egressip_ipam_operator.Api.{Node}
use egressip_ipam_operator.Network.{Interface, VirtualMachine}
use egressip_ipam_operator.Effects.{Action, Log, pure, reads, ◌>>=◌}

-- What Azure and the machine API answer, and `json.Unmarshal` of a machine's raw provider value, of
-- which only the virtual network is read.
pub record Azure : Type 0 where
  pub list_virtual_machines : Log → Result (List VirtualMachine)
  -- at a resource group and a name
  pub get_interface : Log → Text → Text → Result Interface
  -- `WaitForCompletionRef` of the update that was accepted last
  pub wait_for_completion : Log → Result (Unit {0})
  -- the addresses of the IP configurations of each subnet of a virtual network
  pub get_subnets : Log → Text → Result (Option (List (Option (List (Option Text)))))
  pub get_machine : Log → Text → Text → Result Text
  pub unmarshal_vnet : Text → Result Text

abbrev nth_or_panic : ℕ → List Text → Result Text
nth_or_panic n [] = panic
nth_or_panic zero (s ∷ ss) = ok s
nth_or_panic (suc n) (s ∷ ss) = nth_or_panic n ss

-- getResourceGroupFromResourceID: `strings.Split(id, "/")[4]`
unfoldable pub get_resource_group_from_resource_id : Text → Result Text
get_resource_group_from_resource_id id = nth_or_panic 4 (split b'/' id)

-- The text from its last slash on, which is kept; `none` where there is no slash.
unfoldable pub from_last_slash : Text → Option Text
from_last_slash [] = none
from_last_slash (c ∷ s) = elim (from_last_slash s) [
  | some t ↦ some t
  | none ↦ if c == b'/' then some (c ∷ s) else none
]

-- getNameFromResourceID: `id[strings.LastIndex(id, "/"):]`, which panics at the index -1
unfoldable pub get_name_from_resource_id : Text → Result Text
unfolding from_last_slash
get_name_from_resource_id id = elim (from_last_slash id) [ none ↦ panic | some name ↦ ok name ]

unfoldable pub is_name_of : Text → List Text → Bool
is_name_of name [] = false
is_name_of name (node ∷ nodes) = if text_eq node name then true else is_name_of name nodes

unfoldable pub select_machines :
    List Text → List VirtualMachine → Map VirtualMachine → Map VirtualMachine
unfolding is_name_of
select_machines nodes [] m = m
select_machines nodes (vm ∷ vms) m =
    select_machines nodes vms (if is_name_of vm.name nodes then put m vm.name vm else m)

-- getAzureInstances
unfoldable pub get_azure_instances : Deps → Azure → Map Node → Action (Map VirtualMachine)
unfolding select_machines
get_azure_instances d azure nodes = do
  vms ← reads azure.list_virtual_machines
  pure (select_machines (d.range (keys nodes)) vms [])
