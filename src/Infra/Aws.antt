-- ===== src/Infra/Aws.antt =====
-- controllers/egressipam/aws/aws.go
pub mod Secondary
pub mod Used
pub mod Capacity
pub mod Client
use egressip_ipam_operator.Prelude.{
  ℕ, ◌^◌, ◌%◌, Bool, true, false, Option, none, some, List, [], ◌∷◌, ◌++◌, map, Text, codes,
  text_eq, if◌then◌else◌,
}
use egressip_ipam_operator.Deps.{Deps}
use egressip_ipam_operator.Go.Results.{
  Result, ok, err, panic, bad_cidr, no_instance, no_secret_key, no_instance_type,
  unknown_instance_type, ◌>>=◌ as ◌>>=ᴿ◌,
}
use egressip_ipam_operator.Go.Maps.{Map, keys, get, put, get_or_zero}
use egressip_ipam_operator.Go.Strings.{split}
use egressip_ipam_operator.Go.Net.{Ip, IpNet, parse_ip, parse_cidr, contains}
use egressip_ipam_operator.Api.{Node}
use egressip_ipam_operator.Context.{ReconcileContext}
use egressip_ipam_operator.Effects.{
  Action, Log, Services, pure, lift, reads, write, assign_private_ips, unassign_private_ips, go_all,
  ◌>>=◌, ◌>>◌,
}

-- The types of github.com/aws/aws-sdk-go/service/ec2, with the fields that the program reads.
pub record PrivateIp : Type 0 where
  pub primary : Bool
  pub private_ip_address : Text

pub record NetworkInterface : Type 0 where
  pub network_interface_id : Text
  pub private_ip_addresses : List PrivateIp

pub record Instance : Type 0 where
  pub instance_id : Text
  pub network_interfaces : List NetworkInterface

-- Filter, AWSResourceReference and AWSMachineProviderConfig
pub record Filter : Type 0 where
  pub name : Text
  pub values : List Text

pub record AwsResourceReference : Type 0 where
  pub id : Option Text
  pub filters : List Filter

pub record AwsMachineProviderConfig : Type 0 where
  pub subnet : AwsResourceReference

-- What the EC2 service and the machine API answer, and `json.Unmarshal` of a provider's raw value.
pub record Ec2 : Type 0 where
  pub describe_instances : Log → List Text → Result (List (List Instance))
  pub describe_subnets : Log → List Text → Result (List Text)
  pub describe_network_interfaces : Log → List Text → Result (List NetworkInterface)
  -- the types with their Ipv4AddressesPerInterface
  pub describe_instance_types : Log → Result (List (Text × ℕ))
  pub list_machine_sets : Log → Result (List Text)
  pub unmarshal : Text → Result AwsMachineProviderConfig

unfoldable pub last_of : List Text → Text
last_of [] = []
last_of (s ∷ []) = s
last_of (s ∷ t ∷ ss) = last_of (t ∷ ss)

-- getAWSIDFromProviderID. `Split` gives one part at least.
unfoldable pub get_aws_id_from_provider_id : Text → Text
unfolding last_of
get_aws_id_from_provider_id provider_id = last_of (split b'/' provider_id)

-- getAWSIDFromNode
abbrev pub get_aws_id_from_node : Node → Text
get_aws_id_from_node node = get_aws_id_from_provider_id node.provider_id

unfoldable pub instance_ids : Map Node → List Text → List Text
instance_ids nodes [] = []
instance_ids nodes (name ∷ names) = elim (get nodes name) [
  | none ↦ instance_ids nodes names
  | some node ↦ get_aws_id_from_node node ∷ instance_ids nodes names
]

unfoldable pub add_instances : List Instance → Map Instance → Map Instance
add_instances [] m = m
add_instances (instance' ∷ instances) m =
    add_instances instances (put m instance'.instance_id instance')

unfoldable pub add_reservations : List (List Instance) → Map Instance → Map Instance
unfolding add_instances
add_reservations [] m = m
add_reservations (reservation ∷ reservations) m =
    add_reservations reservations (add_instances reservation m)

-- getAWSInstances
unfoldable pub get_aws_instances : Deps → Ec2 → Map Node → Action (Map Instance)
unfolding instance_ids add_reservations
get_aws_instances d ec2 nodes = do
  reservations ←
      reads (λ log. ec2.describe_instances log (instance_ids nodes (d.range (keys nodes))))
  pure (add_reservations reservations [])

-- The zero value that a missing key of `rc.AllNodes` reads as.
abbrev pub zero_node : Node
zero_node = record { name = []; labels = []; annotations = []; provider_id = []; conditions = [] }

abbrev pub first_interface : Option Instance → Option NetworkInterface
first_interface none = none
first_interface (some instance') = elim instance'.network_interfaces [
  | [] ↦ none
  | interface ∷ _ ↦ some interface
]

-- `i.selectedInstances[getAWSIDFromNode(rc.AllNodes[node])].NetworkInterfaces[0]`, which panics for
-- `none`: at an instance that was not found, or that has no interface.
unfoldable pub interface_of : Map Instance → ReconcileContext → Text → Option NetworkInterface
interface_of instances rc name =
    first_interface (get instances (get_aws_id_from_node (get_or_zero zero_node rc.all_nodes name)))
