-- ===== src/CredentialRequest/Requested.antt =====
-- createCredentialRequest of controllers/egressipam/egressipam_controller.go
use egressip_ipam_operator.Prelude.{
  ◌≡◌, refl, ap, subst, sym, ◌∙◌, Option, none, some, [], ◌∷◌, ◌++◌, Text,
}
use egressip_ipam_operator.Go.Results.{Result, ok}
use egressip_ipam_operator.Api.{Platform, aws, azure, gcp, other, ProviderSpec, CredentialsRequest}
use egressip_ipam_operator.Effects.{
  Log, Write, Services, reads, write, create_credentials_request, update_credentials_request, ◌>>◌,
}
use egressip_ipam_operator.Effects.Inversion.{>>=-eq-ok, write-eq-ok}
use egressip_ipam_operator.Reconcile.Load.{Clouds, get_credential_secret, credentials_secret_name}
use egressip_ipam_operator.CredentialRequest.{
  get_aws_credentials_request_provider_spec, get_azure_credentials_request_provider_spec,
  provider_spec_of, request_for, request, create_or_update, create_or_update_resource_with_client,
  create_credential_request,
}

-- The one write of a successful call: the request is created where it was not found, and updated at the
-- version that was found.
pub data IsRequested (services : Services) (r : CredentialsRequest) (log : Log) : Log → Type 0 where
  created :
      services.get_credentials_request log r.name r.namespace ≡ ok none
      → IsRequested services r log (log ++ create_credentials_request r ∷ [])
  updated :
      (version : Text)
      → services.get_credentials_request log r.name r.namespace ≡ ok (some version)
      → IsRequested services r log
          (log ++ update_credentials_request (record r { resource_version = version }) ∷ [])

module _ (services : Services) where
  write-log :
      (w : Write) (log : Log) (u : Unit {0}) (log' : Log)
      → write services w log ≡ (ok u, log')
      → log ++ w ∷ [] ≡ log'
  write-log w log u log' p =
      sym (write-eq-ok services w log u (ap (λ (x : Result (Unit {0}) × Log). x.0) p))
      ∙ ap (λ (x : Result (Unit {0}) × Log). x.1) p

  create_or_update-IsRequested :
      (r : CredentialsRequest) (log : Log) (u : Unit {0}) (log' : Log) (found : Option Text)
      → services.get_credentials_request log r.name r.namespace ≡ ok found
      → create_or_update services r found log ≡ (ok u, log')
      → IsRequested services r log log'
  create_or_update-IsRequested r log u log' none there e =
      subst (IsRequested services r log) (write-log _ log u log' e) (created there)
  create_or_update-IsRequested r log u log' (some version) there e =
      subst (IsRequested services r log) (write-log _ log u log' e) (updated version there)

  create_or_update_resource-IsRequested :
      (r : CredentialsRequest) (log : Log) (u : Unit {0}) (log' : Log)
      → create_or_update_resource_with_client services [] r log ≡ (ok u, log')
      → IsRequested services r log log'
  unfolding create_or_update_resource_with_client
  create_or_update_resource-IsRequested r log u log' e =
      let (found, there, rest) =
        >>=-eq-ok (reads (λ l. services.get_credentials_request l r.name r.namespace))
          (create_or_update services r) log u log' e in
      create_or_update-IsRequested r log u log' found there rest

  get_credential_secret-eq-get_secret :
      (log : Log) (namespace : Text)
      → services.get_operator_namespace log ≡ ok namespace
      → get_credential_secret services log
        ≡ (services.get_secret log credentials_secret_name namespace, log)
  unfolding get_credential_secret
  get_credential_secret-eq-get_secret log namespace e = rw e refl

  -- The request with a spec was made, in the operator's namespace, whose secret is the one that
  -- GetCredentialSecret reads while the namespace stays the same.
  pub record HasRequested (spec : ProviderSpec) (log log' : Log) : Type 0 where
    pub namespace : Text
    pub placed : services.get_operator_namespace log ≡ ok namespace
    pub requested : IsRequested services (request_for spec namespace) log log'
    pub read_back :
        (later : Log)
        → services.get_operator_namespace later ≡ ok namespace
        → get_credential_secret services later ≡ (
          services.get_secret later
              (request_for spec namespace).secret_name
              (request_for spec namespace).secret_namespace,
          later,
        )

  -- By the platform, what a successful call has done.
  pub data Outcome (log : Log) : Platform → Log → Type 0 where
    at_aws :
        (log' : Log)
        → HasRequested get_aws_credentials_request_provider_spec log log'
        → Outcome log aws log'
    at_azure :
        (log' : Log)
        → HasRequested get_azure_credentials_request_provider_spec log log'
        → Outcome log azure log'
    at_gcp : Outcome log gcp log
    elsewhere : Outcome log other log

  module _ (clouds : Clouds) (log : Log) (u : Unit {0}) (log' : Log) where
    request-HasRequested :
        (spec : ProviderSpec)
        → request services clouds spec log ≡ (ok u, log')
        → HasRequested spec log log'
    request-HasRequested spec e =
        let (namespace, there, rest) =
          >>=-eq-ok (reads services.get_operator_namespace)
            (λ namespace.
              reads clouds.direct_client
              >> create_or_update_resource_with_client services [] (request_for spec namespace))
            log u log' e in
        let (v, client, last) =
          >>=-eq-ok (reads clouds.direct_client)
            (λ _. create_or_update_resource_with_client services [] (request_for spec namespace))
            log u log' rest in
        record {
          namespace = namespace;
          placed = there;
          requested =
              create_or_update_resource-IsRequested (request_for spec namespace) log u log' last;
          read_back = λ later same. get_credential_secret-eq-get_secret later namespace same;
        }

    -- If createCredentialRequest succeeds, then on AWS and on Azure it has created the credentials request
    -- of the platform, or has updated the one that was there at its version, and has written nothing else;
    -- on other platforms, also on GCP, it has written nothing. The secret that the request asks for is the
    -- one that GetCredentialSecret reads while the operator's namespace is the same.
    pub create_credential_request-Outcome :
        (platform : Platform)
        → create_credential_request services clouds platform log ≡ (ok u, log')
        → Outcome log platform log'
    unfolding create_credential_request provider_spec_of
    create_credential_request-Outcome aws e =
        at_aws log' (request-HasRequested get_aws_credentials_request_provider_spec e)
    create_credential_request-Outcome azure e =
        at_azure log' (request-HasRequested get_azure_credentials_request_provider_spec e)
    create_credential_request-Outcome gcp e =
        subst (Outcome log gcp) (ap (λ (r : Result (Unit {0}) × Log). r.1) e) at_gcp
    create_credential_request-Outcome other e =
        subst (Outcome log other) (ap (λ (r : Result (Unit {0}) × Log). r.1) e) elsewhere
