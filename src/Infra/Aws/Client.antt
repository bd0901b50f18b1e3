-- ===== src/Infra/Aws/Client.antt =====
-- NewAWSInfra of controllers/egressipam/aws/aws.go
use egressip_ipam_operator.Prelude.{none, some, Text, codes}
use egressip_ipam_operator.Deps.{Deps}
use egressip_ipam_operator.Go.Results.{Result, ok, err, no_secret_key}
use egressip_ipam_operator.Go.Maps.{Map, get}
use egressip_ipam_operator.Context.{ReconcileContext}
use egressip_ipam_operator.Effects.{Action, Services, pure, lift, ◌>>=◌}
use egressip_ipam_operator.Infra.{Infra}
use egressip_ipam_operator.Infra.Aws.{Ec2, Instance, get_aws_instances}
use egressip_ipam_operator.Infra.Aws.Secondary.{
  reconcile_aws_secondary_ips, remove_all_aws_assigned_ips,
}
use egressip_ipam_operator.Infra.Aws.Used.{get_aws_used_ips}
use egressip_ipam_operator.Infra.Aws.Capacity.{get_aws_ip_capacity}

-- getAWSCredentials
unfoldable pub get_aws_credentials : Map Text → Result (Text × Text)
get_aws_credentials secret = elim (get secret (codes "aws_access_key_id")) [
  | none ↦ err no_secret_key
  | some id ↦ elim (get secret (codes "aws_secret_access_key")) [
    | none ↦ err no_secret_key
    | some key ↦ ok (id, key)
  ]
]

-- The methods of AWSInfra.
unfoldable pub aws_infra : Deps → Services → Ec2 → Map Instance → Infra
aws_infra d services ec2 instances = record {
  get_used_ips_by_cidr = get_aws_used_ips d ec2;
  reconcile_instance_secondary_ips = reconcile_aws_secondary_ips d services instances;
  remove_all_assigned_ips = remove_all_aws_assigned_ips d services instances;
  get_ip_capacity = get_aws_ip_capacity ec2;
}

-- NewAWSInfra. `clients` makes a client of the cluster's region from an access key (getAWSClient).
unfoldable pub new_aws_infra :
    Deps → Services → (Text → Text → Ec2) → ReconcileContext → Action Infra
unfolding get_aws_credentials get_aws_instances aws_infra
new_aws_infra d services clients rc = do
  credentials ← lift (get_aws_credentials rc.cloud_credentials_secret)
  let ec2 = clients credentials.0 credentials.1
  instances ← get_aws_instances d ec2 rc.selected_nodes
  pure (aws_infra d services ec2 instances)
