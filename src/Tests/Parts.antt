-- ===== src/Tests/Parts.antt =====
-- The theorems on the set-up, the gauges, the event handlers and the annotations, at the small cluster.
use egressip_ipam_operator.Prelude.{◌≡◌, ◌↔◌, refl, some, [], ◌∷◌, codes, Elem, All, arith}
use egressip_ipam_operator.Go.Results.{ok}
use egressip_ipam_operator.Go.Maps.{Map}
use egressip_ipam_operator.Go.Net.{Ip, IpNet}
use egressip_ipam_operator.Api.{EgressIpam, aws, CredentialsRequest, ProviderSpec}
use egressip_ipam_operator.Effects.{create_credentials_request}
use egressip_ipam_operator.Infra.BareMetal.{get_ip_capacity}
use egressip_ipam_operator.CredentialRequest.{
  request_for, get_aws_credentials_request_provider_spec, provider_spec_of,
  create_credential_request,
}
use egressip_ipam_operator.CredentialRequest.Requested.{Outcome, create_credential_request-Outcome}
use egressip_ipam_operator.Metrics.{update_metrics}
use egressip_ipam_operator.Namespaces.{sort_namespaces}
use egressip_ipam_operator.Ipam.Namespaces.{with_ips}
use egressip_ipam_operator.Ipam.Namespaces.ReadBack.{IsGiven, add_each, sort_namespaces-with_ips}
use egressip_ipam_operator.Watches.{host_subnet, enqueue_for_host_subnet}
use egressip_ipam_operator.Watches.Hosting.{IsHosting, enqueue_for_host_subnet-IsHosting}
use egressip_ipam_operator.Reconcile.Validity.{is_valid}
use egressip_ipam_operator.Tests.Cluster.{subnet}
use egressip_ipam_operator.Prelude.{inl, inr, ap}
use egressip_ipam_operator.Watches.Predicates.{NodeView}
use egressip_ipam_operator.Tests.Clouds.{clouds}
use egressip_ipam_operator.Tests.Cluster.{cidr, ipam, context, services, opted_in, ready, running}

acting : Unit {0}
unfolding running provider_spec_of create_credential_request update_metrics get_ip_capacity
acting = tt

abbrev spec : ProviderSpec
spec = get_aws_credentials_request_provider_spec

abbrev requested : CredentialsRequest
requested = request_for spec (codes "operator")

create_credential_request-Outcome_example :
    Outcome services [] aws (create_credentials_request requested ∷ [])
unfolding acting
create_credential_request-Outcome_example =
    create_credential_request-Outcome services clouds [] tt _ aws refl

abbrev given : Map Ip
given = (cidr, 167772162) ∷ []

abbrev net : IpNet
net = record { ip = 167772160; ones = 29 }

given-IsGiven : All (IsGiven context given) context.cidrs
unfolding acting
given-IsGiven = (
  record {
    ip = 167772162;
    net = net;
    given = refl;
    fits = omega arith;
    known = refl;
    inside = refl;
  },
  tt,
)

sort_namespaces-with_ips_example :
    sort_namespaces context (with_ips context.cidrs given (opted_in (codes "b")) ∷ []) []
    ≡ ok (add_each context given context.cidrs given-IsGiven [])
sort_namespaces-with_ips_example =
    sort_namespaces-with_ips context given (opted_in (codes "b")) [] (λ e. cc) given-IsGiven

abbrev not_ready : NodeView
not_ready = record { annotations = some []; conditions = [] }

abbrev now_ready : NodeView
now_ready = record { annotations = some []; conditions = (ready (codes "n1")).conditions }

ipam-valid : (e : EgressIpam) → Elem e (ipam ∷ []) → is_valid e ≡ ok tt
unfolding acting is_valid
ipam-valid e (inl p) = ap is_valid p
ipam-valid e (inr z) = absurd z

enqueue_for_host_subnet-IsHosting_example :
    Elem (codes "ipam") (
      enqueue_for_host_subnet services [] (host_subnet (subnet (codes "n1") (codes "10.0.0.5") [])))
    ↔ ((e : EgressIpam) × Elem e (ipam ∷ [])
        × IsHosting e.cidr_assignments (subnet (codes "n1") (codes "10.0.0.5") [])
        × (codes "ipam" ≡ e.name))
enqueue_for_host_subnet-IsHosting_example =
    enqueue_for_host_subnet-IsHosting services [] (subnet (codes "n1") (codes "10.0.0.5") [])
      (ipam ∷ []) (codes "ipam") refl ipam-valid
