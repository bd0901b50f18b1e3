-- ===== src/Infra/Azure/Client.antt =====
-- NewAzureInfra of controllers/egressipam/azure/azure.go
use egressip_ipam_operator.Prelude.{ℕ, none, some, Text, codes}
use egressip_ipam_operator.Deps.{Deps}
use egressip_ipam_operator.Go.Results.{Result, ok, err, no_secret_key, ◌>>=◌ as ◌>>=ᴿ◌}
use egressip_ipam_operator.Go.Maps.{Map, get}
use egressip_ipam_operator.Api.{Node}
use egressip_ipam_operator.Context.{ReconcileContext}
use egressip_ipam_operator.Network.{VirtualMachine}
use egressip_ipam_operator.Effects.{Action, Log, Services, pure, lift, ◌>>=◌}
use egressip_ipam_operator.Infra.{Infra, InstanceTypes}
use egressip_ipam_operator.Infra.Azure.{Azure, get_azure_instances}
use egressip_ipam_operator.Infra.Azure.Addresses.{
  reconcile_azure_assigned_ips, remove_all_azure_secondary_ips,
}
use egressip_ipam_operator.Infra.Azure.Used.{get_azure_used_ips}

pub record AzureCredentials : Type 0 where
  pub client_id : Text
  pub client_secret : Text
  pub tenant_id : Text
  pub subscription : Text

abbrev secret_key : Map Text → Text → Result Text
secret_key secret key = elim (get secret key) [ none ↦ err no_secret_key | some value ↦ ok value ]

-- getAzureCredentials
unfoldable pub get_azure_credentials : Map Text → Result AzureCredentials
get_azure_credentials secret = secret_key secret (codes "azure_client_id") >>=ᴿ λ client_id.
    secret_key secret (codes "azure_client_secret") >>=ᴿ λ client_secret.
    secret_key secret (codes "azure_tenant_id") >>=ᴿ λ tenant_id.
    secret_key secret (codes "azure_subscription_id") >>=ᴿ λ subscription. ok (record {
      client_id = client_id;
      client_secret = client_secret;
      tenant_id = tenant_id;
      subscription = subscription;
    })

-- AzureInfra.GetIPCapacity
unfoldable pub get_azure_ip_capacity : Log → Node → InstanceTypes → Result ℕ × InstanceTypes
get_azure_ip_capacity log node cache = (ok 256, cache)

-- The methods of AzureInfra.
unfoldable pub azure_infra : Deps → Services → Azure → Map VirtualMachine → Infra
unfolding get_azure_ip_capacity
azure_infra d services azure instances = record {
  get_used_ips_by_cidr = get_azure_used_ips d azure instances;
  reconcile_instance_secondary_ips = reconcile_azure_assigned_ips d services azure instances;
  remove_all_assigned_ips = remove_all_azure_secondary_ips d services azure instances;
  get_ip_capacity = get_azure_ip_capacity;
}

-- NewAzureInfra. `clients` makes the clients of Azure from the credentials (the rest of
-- getAzureClients, and getAuthorizer).
unfoldable pub new_azure_infra :
    Deps → Services → (AzureCredentials → Result Azure) → ReconcileContext → Action Infra
unfolding get_azure_credentials get_azure_instances azure_infra
new_azure_infra d services clients rc = do
  credentials ← lift (get_azure_credentials rc.cloud_credentials_secret)
  azure ← lift (clients credentials)
  instances ← get_azure_instances d azure rc.selected_nodes
  pure (azure_infra d services azure instances)
