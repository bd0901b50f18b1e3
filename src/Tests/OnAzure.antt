-- ===== src/Tests/OnAzure.antt =====
-- The theorem on the removal of addresses at Azure, at two machines.
use egressip_ipam_operator.Prelude.{refl, true, inl, [], ◌∷◌, codes, Elem}
use egressip_ipam_operator.Go.Maps.{Map}
use egressip_ipam_operator.Network.{VirtualMachine}
use egressip_ipam_operator.Effects.{Write, Log}
use egressip_ipam_operator.Infra.Azure.{
  get_resource_group_from_resource_id, get_name_from_resource_id,
}
use egressip_ipam_operator.Infra.Azure.Addresses.{remove_all_azure_secondary_ips}
use egressip_ipam_operator.Infra.Azure.Addresses.Cleared.{
  IsPrimaryOnly, remove_all_azure_secondary_ips-Makes,
}
use egressip_ipam_operator.Tests.Clouds.{nic, azure_services}
use egressip_ipam_operator.Tests.Cluster.{context, services, running}
use egressip_ipam_operator.Tests.Reference.{reference, reference-IsLawful}

acting : Unit {0}
unfolding running remove_all_azure_secondary_ips get_resource_group_from_resource_id
    get_name_from_resource_id
acting = tt

abbrev machine : VirtualMachine
machine = record {
  name = codes "n1";
  network_interfaces = record { primary = true; id = nic.id } ∷ [];
}

abbrev machines : Map VirtualMachine
machines = (codes "n1", machine) ∷ (codes "n2", machine) ∷ []

abbrev written : Log
written = (remove_all_azure_secondary_ips reference services azure_services machines context []).1

remove_all_azure_secondary_ips-Makes_example :
    (w : Write) × IsPrimaryOnly azure_services machines (codes "n1") w × Elem w written
unfolding acting
remove_all_azure_secondary_ips-Makes_example =
    remove_all_azure_secondary_ips-Makes azure_services machines services reference
      reference-IsLawful context (codes "n1") [] tt _ (inl refl) refl
