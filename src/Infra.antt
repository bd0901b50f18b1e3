-- ===== src/Infra.antt =====
-- The interface `Infra` of controllers/egressipam/reconcilecontext/reconcile_context.go.
pub mod BareMetal
pub mod Used
pub mod Provided
pub mod Aws
pub mod Azure
use egressip_ipam_operator.Prelude.{ℕ, List}
use egressip_ipam_operator.Go.Results.{Result}
use egressip_ipam_operator.Go.Maps.{Map}
use egressip_ipam_operator.Go.Net.{Ip}
use egressip_ipam_operator.Api.{Node}
use egressip_ipam_operator.Context.{ReconcileContext}
use egressip_ipam_operator.Effects.{Action, Log}

-- The cache of the package aws, a variable of the whole process: the addresses that an interface of an
-- instance type may have.
abbrev pub InstanceTypes : Type 0
InstanceTypes = Map ℕ

pub record Infra : Type 0 where
  pub get_used_ips_by_cidr : ReconcileContext → Action (Map (List Ip))
  pub reconcile_instance_secondary_ips : ReconcileContext → Action (Unit {0})
  pub remove_all_assigned_ips : ReconcileContext → Action (Unit {0})
  -- with the cache that the call finds and the one that it leaves
  pub get_ip_capacity : Log → Node → InstanceTypes → Result ℕ × InstanceTypes
