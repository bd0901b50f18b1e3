-- ===== src/Infra/Aws/Used.antt =====
-- GetUsedIPsByCIDR of controllers/egressipam/aws/aws.go

pub mod Within
use egressip_ipam_operator.Prelude.{
  Bool, true, false, Option, none, some, List, [], ◌∷◌, ◌++◌, Text, codes, text_eq, if◌then◌else◌,
}
use egressip_ipam_operator.Deps.{Deps}
use egressip_ipam_operator.Go.Results.{Result, ok, err, panic, bad_cidr, ◌>>=◌ as ◌>>=ᴿ◌}
use egressip_ipam_operator.Go.Maps.{Map, keys, put, get_or_zero}
use egressip_ipam_operator.Go.Net.{Ip, IpNet, parse_ip, parse_cidr, contains}
use egressip_ipam_operator.Context.{ReconcileContext}
use egressip_ipam_operator.Effects.{Action, Log, pure, lift, reads, ◌>>=◌}
use egressip_ipam_operator.Infra.Used.{used_by_cidr, add_always_taken}
use egressip_ipam_operator.Infra.Aws.{
  PrivateIp, NetworkInterface, Filter, AwsResourceReference, AwsMachineProviderConfig, Ec2,
}

-- What the loop over the machine sets collects.
pub record Subnets : Type 0 where
  pub subnet_ids : List Text
  pub subnet_tag_names : List Text

unfoldable pub tag_names : List Filter → List Text
tag_names [] = []
tag_names (filter ∷ filters) =
    let rest = tag_names filters in
    if text_eq filter.name (codes "tag:Name") then filter.values ++ rest else rest

abbrev pub add_subnet : AwsResourceReference → Subnets → Subnets
add_subnet subnet s = elim subnet.id [
  | some id ↦ record s { subnet_ids = s.subnet_ids ++ id ∷ [] }
  | none ↦ record s { subnet_tag_names = s.subnet_tag_names ++ tag_names subnet.filters }
]

unfoldable pub collect_subnets : Ec2 → List Text → Subnets → Result Subnets
unfolding tag_names
collect_subnets ec2 [] s = ok s
collect_subnets ec2 (raw ∷ raws) s =
    ec2.unmarshal raw >>=ᴿ λ config. collect_subnets ec2 raws (add_subnet config.subnet s)

-- `DescribeSubnets` by the collected tags, if there are any
abbrev pub tagged_subnets : Ec2 → List Text → Action (List Text)
tagged_subnets ec2 [] = pure []
tagged_subnets ec2 (tag ∷ tags) = reads (λ log. ec2.describe_subnets log (tag ∷ tags))

unfoldable pub texts_of : List PrivateIp → List Text → List Text
texts_of [] more = more
texts_of (ip ∷ ips) more = ip.private_ip_address ∷ texts_of ips more

unfoldable pub all_addresses : List NetworkInterface → List Text
unfolding texts_of
all_addresses [] = []
all_addresses (interface ∷ interfaces) =
    texts_of interface.private_ip_addresses (all_addresses interfaces)

-- getAWSUsedIPsByCIDR
unfoldable pub get_aws_used_ips_by_cidr : Ec2 → ReconcileContext → Action (Map (List Ip))
unfolding collect_subnets all_addresses used_by_cidr
get_aws_used_ips_by_cidr ec2 rc = do
  machine_sets ← reads ec2.list_machine_sets
  subnets ←
      lift (collect_subnets ec2 machine_sets (record { subnet_ids = []; subnet_tag_names = [] }))
  tagged ← tagged_subnets ec2 subnets.subnet_tag_names
  interfaces ← reads (λ log. ec2.describe_network_interfaces log (subnets.subnet_ids ++ tagged))
  lift (used_by_cidr (all_addresses interfaces) rc.cidrs [])

abbrev pub or_no_ips : Option (Map (List Ip)) → Map (List Ip)
or_no_ips none = []
or_no_ips (some m) = m

-- Errors are logged, and the empty map is returned with none.
abbrev pub without_error : Deps → Result (Map (List Ip)) → Result (Map (List Ip))
without_error d (ok m) = ok (or_no_ips (add_always_taken d (d.range (keys m)) m))
without_error d (err _) = ok []
without_error d panic = panic

-- AWSInfra.GetUsedIPsByCIDR
unfoldable pub get_aws_used_ips : Deps → Ec2 → ReconcileContext → Action (Map (List Ip))
unfolding get_aws_used_ips_by_cidr add_always_taken
get_aws_used_ips d ec2 rc log =
    let (r, log') = get_aws_used_ips_by_cidr ec2 rc log in (without_error d r, log')
