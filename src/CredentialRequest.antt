-- ===== src/CredentialRequest.antt =====
-- createCredentialRequest and createOrUpdateResourceWithClient of
-- controllers/egressipam/egressipam_controller.go, and the provider specs of
-- controllers/egressipam/{aws/aws,azure/azure}.go
pub mod Requested
use egressip_ipam_operator.Prelude.{Option, none, some, List, [], ◌∷◌, Text, codes}
use egressip_ipam_operator.Api.{
  Platform, aws, azure, gcp, other, StatementEntry, ProviderSpec, aws_provider_spec,
  azure_provider_spec, CredentialsRequest,
}
use egressip_ipam_operator.Effects.{
  Action, Log, Services, pure, reads, write, create_credentials_request, update_credentials_request,
  ◌>>=◌, ◌>>◌,
}
use egressip_ipam_operator.Reconcile.Load.{Clouds, credentials_secret_name}

-- GetAWSCredentialsRequestProviderSpec
unfoldable pub get_aws_credentials_request_provider_spec : ProviderSpec
get_aws_credentials_request_provider_spec = aws_provider_spec (
    record {
      action =
          codes "ec2:DescribeInstances"
          ∷ codes "ec2:UnassignPrivateIpAddresses"
          ∷ codes "ec2:AssignPrivateIpAddresses"
          ∷ codes "ec2:DescribeSubnets"
          ∷ codes "ec2:DescribeNetworkInterfaces"
          ∷ codes "ec2:DescribeInstanceTypes"
          ∷ [];
      effect = codes "Allow";
      resource = codes "*";
    }
    ∷ [])

-- GetAzureCredentialsRequestProviderSpec
unfoldable pub get_azure_credentials_request_provider_spec : ProviderSpec
get_azure_credentials_request_provider_spec = azure_provider_spec (codes "Contributor" ∷ [])

-- `if namespace != ""`
abbrev pub in_namespace : Text → CredentialsRequest → CredentialsRequest
in_namespace [] obj = obj
in_namespace (c ∷ namespace) obj = record obj { namespace = c ∷ namespace }

abbrev pub create_or_update : Services → CredentialsRequest → Option Text → Action (Unit {0})
create_or_update services obj none = write services (create_credentials_request obj)
create_or_update services obj (some version) =
    write services (update_credentials_request (record obj { resource_version = version }))

-- createOrUpdateResourceWithClient, without an owner, which none of its calls has
unfoldable pub create_or_update_resource_with_client :
    Services → Text → CredentialsRequest → Action (Unit {0})
unfolding write
create_or_update_resource_with_client services namespace obj = do
  let placed = in_namespace namespace obj
  found ← reads (λ log. services.get_credentials_request log placed.name placed.namespace)
  create_or_update services placed found

-- The switch over the platform; `none` for its default.
unfoldable pub provider_spec_of : Platform → Option ProviderSpec
unfolding get_aws_credentials_request_provider_spec get_azure_credentials_request_provider_spec
provider_spec_of aws = some get_aws_credentials_request_provider_spec
provider_spec_of azure = some get_azure_credentials_request_provider_spec
provider_spec_of gcp = none
provider_spec_of other = none

abbrev pub request_for : ProviderSpec → Text → CredentialsRequest
request_for provider_spec namespace = record {
  name = codes "egress-ipam-operator";
  namespace = codes "openshift-cloud-credential-operator";
  resource_version = [];
  secret_name = credentials_secret_name;
  secret_namespace = namespace;
  provider_spec = provider_spec;
}

abbrev pub request : Services → Clouds → ProviderSpec → Action (Unit {0})
request services clouds provider_spec = do
  namespace ← reads services.get_operator_namespace
  reads clouds.direct_client
  create_or_update_resource_with_client services [] (request_for provider_spec namespace)

-- createCredentialRequest
unfoldable pub create_credential_request : Services → Clouds → Platform → Action (Unit {0})
unfolding provider_spec_of create_or_update_resource_with_client
create_credential_request services clouds platform = elim (provider_spec_of platform) [
  | none ↦ pure tt
  | some provider_spec ↦ request services clouds provider_spec
]
