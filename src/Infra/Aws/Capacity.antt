-- ===== src/Infra/Aws/Capacity.antt =====
-- GetIPCapacity of controllers/egressipam/aws/aws.go
pub mod Cached
use egressip_ipam_operator.Prelude.{ℕ, ◌^◌, ◌%◌, Option, none, some, List, [], ◌∷◌, Text, codes}
use egressip_ipam_operator.Go.Results.{
  Result, ok, err, panic, no_instance_type, unknown_instance_type, ◌>>=◌ as ◌>>=ᴿ◌,
}
use egressip_ipam_operator.Go.Maps.{get, put}
use egressip_ipam_operator.Api.{Node}
use egressip_ipam_operator.Effects.{Log}
use egressip_ipam_operator.Infra.{InstanceTypes}
use egressip_ipam_operator.Infra.Aws.{Ec2}

-- initializeIntanceTypeCache, over the pages one after the other
unfoldable pub instance_type_map : List (Text × ℕ) → InstanceTypes → InstanceTypes
instance_type_map [] m = m
instance_type_map ((name, addresses) ∷ types) m = instance_type_map types (put m name addresses)

-- getInstanceTypeCache: the types are listed if the cache is empty.
unfoldable pub get_instance_type_cache : Ec2 → Log → InstanceTypes → Result InstanceTypes
unfolding instance_type_map
get_instance_type_cache ec2 log [] =
    ec2.describe_instance_types log >>=ᴿ λ types. ok (instance_type_map types [])
get_instance_type_cache ec2 log (entry ∷ cache) = ok (entry ∷ cache)

-- getCapacity: the conversion to uint32 wraps.
unfoldable pub get_capacity : InstanceTypes → Text → Result ℕ
get_capacity cache instance_type = elim (get cache instance_type) [
  | none ↦ err unknown_instance_type
  | some addresses ↦ ok (addresses % 2 ^ 32)
]

abbrev pub capacity_of : InstanceTypes → Option Text → Result ℕ
capacity_of cache none = err no_instance_type
capacity_of cache (some instance_type) = get_capacity cache instance_type

abbrev pub cached : InstanceTypes → Node → Result InstanceTypes → Result ℕ × InstanceTypes
cached old node (ok cache) =
    (capacity_of cache (get node.labels (codes "beta.kubernetes.io/instance-type")), cache)
cached old node (err e) = (err e, old)
cached old node panic = (panic, old)

-- AWSInfra.GetIPCapacity, with the cache that it leaves
unfoldable pub get_aws_ip_capacity : Ec2 → Log → Node → InstanceTypes → Result ℕ × InstanceTypes
unfolding get_instance_type_cache get_capacity
get_aws_ip_capacity ec2 log node cache = cached cache node (get_instance_type_cache ec2 log cache)
