-- ===== src/Reconcile/Load/Provided.antt =====
-- Which infrastructure loadReconcileContext of controllers/egressipam/egressipam_controller.go makes
use egressip_ipam_operator.Prelude.{◌≡◌, subst, sym, refl, Text}
use egressip_ipam_operator.Deps.{Deps}
use egressip_ipam_operator.Go.Results.{ok}
use egressip_ipam_operator.Go.Maps.{Map}
use egressip_ipam_operator.Api.{Node, Platform, aws, azure, gcp, other}
use egressip_ipam_operator.Context.{ReconcileContext}
use egressip_ipam_operator.Network.{VirtualMachine}
use egressip_ipam_operator.Effects.{Log, Services, pure, lift, reads, ◌>>=◌}
use egressip_ipam_operator.Effects.Chains.{Returns, pure-Returns, >>=-Returns, >>=-Returns_from}
use egressip_ipam_operator.Infra.{Infra}
use egressip_ipam_operator.Infra.BareMetal.{bare_metal_infra}
use egressip_ipam_operator.Infra.Provided.{IsProvided, bare_metal, on_aws, on_azure}
use egressip_ipam_operator.Infra.Aws.{Instance, get_aws_instances}
use egressip_ipam_operator.Infra.Aws.Client.{get_aws_credentials, aws_infra, new_aws_infra}
use egressip_ipam_operator.Infra.Azure.{Azure, get_azure_instances}
use egressip_ipam_operator.Infra.Azure.Client.{
  AzureCredentials, get_azure_credentials, azure_infra, new_azure_infra,
}
use egressip_ipam_operator.Reconcile.Load.{Clouds, new_infra}

module _ (d : Deps) (services : Services) (clouds : Clouds) where
  -- The infrastructure of a platform: on AWS and on Azure, the one of the client that the secret's
  -- credentials give, with the instances of the selected nodes, and elsewhere the one of bare metal.
  pub data IsBuilt (secret : Map Text) (nodes : Map Node) : Platform → Infra → Type 0 where
    for_aws :
        (id key : Text)
        → get_aws_credentials secret ≡ ok (id, key)
        → (log : Log) (instances : Map Instance)
        → (get_aws_instances d (clouds.ec2 id key) nodes log).0 ≡ ok instances
        → IsBuilt secret nodes aws (aws_infra d services (clouds.ec2 id key) instances)
    for_azure :
        (credentials : AzureCredentials) (client : Azure)
        → get_azure_credentials secret ≡ ok credentials
        → clouds.azure credentials ≡ ok client
        → (log : Log) (instances : Map VirtualMachine)
        → (get_azure_instances d client nodes log).0 ≡ ok instances
        → IsBuilt secret nodes azure (azure_infra d services client instances)
    for_gcp : IsBuilt secret nodes gcp bare_metal_infra
    for_other : IsBuilt secret nodes other bare_metal_infra

  pub IsBuilt-IsProvided :
      (secret : Map Text) (nodes : Map Node) (platform : Platform) (infra : Infra)
      → IsBuilt secret nodes platform infra
      → IsProvided d services infra
  IsBuilt-IsProvided secret nodes _ _ (for_aws id key _ _ instances _) =
      on_aws (clouds.ec2 id key) instances
  IsBuilt-IsProvided secret nodes _ _ (for_azure _ client _ _ _ instances _) =
      on_azure client instances
  IsBuilt-IsProvided secret nodes _ _ for_gcp = bare_metal
  IsBuilt-IsProvided secret nodes _ _ for_other = bare_metal

  module _ (rc : ReconcileContext) where
    abbrev Built : Platform → Infra → Type 0
    Built = IsBuilt rc.cloud_credentials_secret rc.selected_nodes

    new_aws_infra-IsBuilt : Returns (Built aws) (new_aws_infra d services clouds.ec2 rc)
    unfolding new_aws_infra
    new_aws_infra-IsBuilt =
        >>=-Returns_from (Built aws) (lift (get_aws_credentials rc.cloud_credentials_secret)) _
          λ (id, key) _ found.
            >>=-Returns_from (Built aws) (get_aws_instances d (clouds.ec2 id key) rc.selected_nodes)
              _
              λ instances log answer.
                pure-Returns (Built aws) _ (for_aws id key found log instances answer)

    new_azure_infra-IsBuilt : Returns (Built azure) (new_azure_infra d services clouds.azure rc)
    unfolding new_azure_infra
    new_azure_infra-IsBuilt =
        >>=-Returns_from (Built azure) (lift (get_azure_credentials rc.cloud_credentials_secret)) _
          λ credentials _ found.
            >>=-Returns_from (Built azure) (lift (clouds.azure credentials)) _ λ client _ made.
              >>=-Returns_from (Built azure) (get_azure_instances d client rc.selected_nodes) _
                λ instances log answer.
                  pure-Returns (Built azure) _
                    (for_azure credentials client found made log instances answer)

    pub new_infra-IsBuilt :
        (platform : Platform)
        → rc.infrastructure ≡ platform
        → Returns (Built platform) (new_infra d services clouds rc)
    unfolding new_infra
    new_infra-IsBuilt aws e =
        let eq : new_infra d services clouds rc
            ≡ (reads clouds.direct_client >>= λ _. new_aws_infra d services clouds.ec2 rc) =
          rw (new_infra, e) refl in
        subst (Returns (Built aws)) (sym eq)
          (>>=-Returns (Built aws) (reads clouds.direct_client) _ λ _. new_aws_infra-IsBuilt)
    new_infra-IsBuilt azure e =
        let eq : new_infra d services clouds rc
            ≡ (reads clouds.direct_client >>= λ _. new_azure_infra d services clouds.azure rc) =
          rw (new_infra, e) refl in
        subst (Returns (Built azure)) (sym eq)
          (>>=-Returns (Built azure) (reads clouds.direct_client) _ λ _. new_azure_infra-IsBuilt)
    new_infra-IsBuilt gcp e =
        let eq : new_infra d services clouds rc ≡ pure bare_metal_infra = rw (new_infra, e) refl in
        subst (Returns (Built gcp)) (sym eq) (pure-Returns (Built gcp) _ for_gcp)
    new_infra-IsBuilt other e =
        let eq : new_infra d services clouds rc ≡ pure bare_metal_infra = rw (new_infra, e) refl in
        subst (Returns (Built other)) (sym eq) (pure-Returns (Built other) _ for_other)
