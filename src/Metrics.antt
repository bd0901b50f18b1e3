-- ===== src/Metrics.antt =====
-- updateMetrics of controllers/egressipam/egressipam_controller.go, and the gauges ipAllocated and
-- ipCapacity that it sets
pub mod Measured
pub mod Read
use egressip_ipam_operator.Prelude.{ℕ, ◌+◌, Option, none, some, List, [], ◌∷◌, Text, length}
use egressip_ipam_operator.Deps.{Deps}
use egressip_ipam_operator.Go.Results.{Result, ok, err, panic, ◌>>=◌}
use egressip_ipam_operator.Go.Maps.{Map, keys, get, put, get_or_zero}
use egressip_ipam_operator.Api.{Node}
use egressip_ipam_operator.Context.{ReconcileContext}
use egressip_ipam_operator.Effects.{Log}
use egressip_ipam_operator.Infra.{Infra, InstanceTypes}
use egressip_ipam_operator.Infra.Aws.{zero_node}

-- A gauge vector with the labels of an instance and of a node. (Its numbers are whole.)
abbrev pub Gauge : Type 0
Gauge = Map (Map ℕ)

-- `gauge.WithLabelValues(instance, node).Set(value)`
unfoldable pub set : Gauge → Text → Text → ℕ → Gauge
set gauge name node value = put gauge name (put (get_or_zero [] gauge name) node value)

-- The first loop: "we add one to account for the primary ip".
unfoldable pub set_allocated : Text → Map (List Text) → List Text → Gauge → Gauge
unfolding set
set_allocated name ips_by_node [] gauge = gauge
set_allocated name ips_by_node (node ∷ nodes) gauge =
    set_allocated name ips_by_node nodes
      (set gauge name node (length (get_or_zero [] ips_by_node node) + 1))

-- An error of GetIPCapacity, which returns 0 with it, is logged.
abbrev pub or_zero : Result ℕ → Result ℕ
or_zero (ok capacity) = ok capacity
or_zero (err _) = ok 0
or_zero panic = panic

-- The second loop, with the cache of instance types.
unfoldable pub set_capacity :
    Infra
    → Log
    → Text
    → Map Node
    → List Text
    → Gauge
    → InstanceTypes
    → Result (Gauge × InstanceTypes)
unfolding set
set_capacity infra log name all_nodes [] gauge cache = ok (gauge, cache)
set_capacity infra log name all_nodes (node ∷ nodes) gauge cache =
    let (r, cache') = infra.get_ip_capacity log (get_or_zero zero_node all_nodes node) cache in
    or_zero r >>= λ capacity.
    set_capacity infra log name all_nodes nodes (set gauge name node capacity) cache'

pub record Gauges : Type 0 where
  pub ip_allocated : Gauge
  pub ip_capacity : Gauge

-- updateMetrics
unfoldable pub update_metrics :
    Deps
    → Infra
    → Log
    → ReconcileContext
    → Text
    → Gauges
    → InstanceTypes
    → Result (Gauges × InstanceTypes)
unfolding set_allocated set_capacity
update_metrics d infra log rc name gauges cache =
    set_capacity infra log name rc.all_nodes (d.range (keys rc.all_nodes)) gauges.ip_capacity cache
    >>= λ (capacity, cache'). ok (
      record {
        ip_allocated =
            set_allocated name rc.finally_assigned_ips_by_node
              (d.range (keys rc.finally_assigned_ips_by_node)) gauges.ip_allocated;
        ip_capacity = capacity;
      },
      cache',
    )
