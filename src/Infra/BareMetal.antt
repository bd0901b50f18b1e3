-- ===== src/Infra/BareMetal.antt =====
-- controllers/egressipam/baremetal/baremetal.go
use egressip_ipam_operator.Prelude.{ℕ, ◌-◌, ◌^◌, List, []}
use egressip_ipam_operator.Go.Results.{Result, ok}
use egressip_ipam_operator.Go.Maps.{Map}
use egressip_ipam_operator.Go.Net.{Ip}
use egressip_ipam_operator.Api.{Node}
use egressip_ipam_operator.Context.{ReconcileContext}
use egressip_ipam_operator.Effects.{Action, Log, pure}
use egressip_ipam_operator.Namespaces.{empty_by_cidr}
use egressip_ipam_operator.Infra.{Infra, InstanceTypes}

-- GetUsedIPsByCIDR
unfoldable pub get_used_ips_by_cidr : ReconcileContext → Action (Map (List Ip))
unfolding empty_by_cidr
get_used_ips_by_cidr rc = pure (empty_by_cidr rc.cidrs [])

-- GetIPCapacity: math.MaxUint32
unfoldable pub get_ip_capacity : Log → Node → InstanceTypes → Result ℕ × InstanceTypes
get_ip_capacity log node cache = (ok (2 ^ 32 - 1), cache)

-- BareMetalInfra: ReconcileInstanceSecondaryIPs and RemoveAllAssignedIPs do nothing.
unfoldable pub bare_metal_infra : Infra
unfolding get_used_ips_by_cidr get_ip_capacity
bare_metal_infra = record {
  get_used_ips_by_cidr = get_used_ips_by_cidr;
  reconcile_instance_secondary_ips = λ rc. pure tt;
  remove_all_assigned_ips = λ rc. pure tt;
  get_ip_capacity = get_ip_capacity;
}
