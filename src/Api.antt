-- ===== src/Api.antt =====
-- The Kubernetes and OpenShift objects, with the fields that the program reads or writes
-- (api/v1alpha1/egressipam_types.go, and the types of k8s.io/api and github.com/openshift/api).
use egressip_ipam_operator.Prelude.{Bool, List, Text, codes}
use egressip_ipam_operator.Go.Maps.{Map}
use egressip_ipam_operator.Go.Results.{Result}

pub record CidrAssignment : Type 0 where
  pub cidr : Text
  pub label_value : Text
  pub reserved_ips : List Text

-- `node_selector` is what `metav1.LabelSelectorAsSelector` makes of the selector: an error, or the
-- test `selector.Matches` on a node's labels.
pub record EgressIpam : Type 0 where
  pub name : Text
  pub annotations : Map Text
  pub finalizers : List Text
  pub being_deleted : Bool
  pub cidr_assignments : List CidrAssignment
  pub topology_label : Text
  pub node_selector : Result (Map Text → Bool)

pub record Namespace : Type 0 where
  pub name : Text
  pub annotations : Map Text

pub record NetNamespace : Type 0 where
  pub name : Text
  pub egress_ips : List Text

pub record HostSubnet : Type 0 where
  pub name : Text
  pub host_ip : Text
  pub egress_ips : List Text
  pub egress_cidrs : List Text

pub record NodeCondition : Type 0 where
  pub type : Text
  pub status : Text

pub record Node : Type 0 where
  pub name : Text
  pub labels : Map Text
  pub annotations : Map Text
  pub provider_id : Text
  pub conditions : List NodeCondition

pub data Platform : Type 0 where
  aws azure gcp other : Platform

-- NamespaceAnnotation
unfoldable pub namespace_annotation : Text
namespace_annotation = codes "egressip-ipam-operator.redhat-cop.io/egressipam"

-- NamespaceAssociationAnnotation
unfoldable pub namespace_association_annotation : Text
namespace_association_annotation = codes "egressip-ipam-operator.redhat-cop.io/egressips"

-- What GetAWSCredentialsRequestProviderSpec and GetAzureCredentialsRequestProviderSpec return: the
-- actions that a statement allows on a resource, and the roles that are bound.
pub record StatementEntry : Type 0 where
  pub action : List Text
  pub effect : Text
  pub resource : Text

pub data ProviderSpec : Type 0 where
  aws_provider_spec : List StatementEntry → ProviderSpec
  azure_provider_spec : List Text → ProviderSpec

-- cloudcredentialv1.CredentialsRequest
pub record CredentialsRequest : Type 0 where
  pub name : Text
  pub namespace : Text
  pub resource_version : Text
  pub secret_name : Text
  pub secret_namespace : Text
  pub provider_spec : ProviderSpec
