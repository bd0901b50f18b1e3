-- ===== src/Tests/Clouds.antt =====
-- The clouds of the small cluster: two instances at AWS, and two machines at Azure.
use egressip_ipam_operator.Prelude.{Bool, true, false, none, some, [], ◌∷◌, Text, codes}
use egressip_ipam_operator.Go.Results.{ok}
use egressip_ipam_operator.Go.Maps.{Map}
use egressip_ipam_operator.Network.{IpConfiguration, Interface, dynamic}
use egressip_ipam_operator.Infra.Aws.{PrivateIp, NetworkInterface, Instance, Ec2}
use egressip_ipam_operator.Infra.Azure.{Azure}
use egressip_ipam_operator.Reconcile.Load.{Clouds}

abbrev pub private_ip : Bool → Text → PrivateIp
private_ip primary ip = record { primary = primary; private_ip_address = ip }

-- It carries one address that is needed and one that is not.
abbrev pub eni_1 : NetworkInterface
eni_1 = record {
  network_interface_id = codes "eni-1";
  private_ip_addresses =
      private_ip true (codes "10.0.0.5")
      ∷ private_ip false (codes "10.0.0.2")
      ∷ private_ip false (codes "10.0.0.6")
      ∷ [];
}

abbrev pub eni_2 : NetworkInterface
eni_2 = record {
  network_interface_id = codes "eni-2";
  private_ip_addresses = private_ip true (codes "10.0.1.5") ∷ [];
}

abbrev pub instances : Map Instance
instances =
    (codes "i-1", record { instance_id = codes "i-1"; network_interfaces = eni_1 ∷ [] })
    ∷ (codes "i-2", record { instance_id = codes "i-2"; network_interfaces = eni_2 ∷ [] })
    ∷ []

abbrev pub ec2 : Ec2
ec2 = record {
  describe_instances = λ log ids. ok [];
  describe_subnets = λ log tags. ok [];
  describe_network_interfaces = λ log subnets. ok (eni_1 ∷ eni_2 ∷ []);
  describe_instance_types = λ log. ok ((codes "m5.large", 10) ∷ []);
  list_machine_sets = λ log. ok (codes "subnet-1" ∷ []);
  unmarshal = λ raw. ok (record { subnet = record { id = some raw; filters = [] } });
}

abbrev pub configuration : Bool → Text → IpConfiguration
configuration primary ip = record {
  name = ip;
  primary = primary;
  private_ip_address = some ip;
  allocation_method = dynamic;
  subnet = some (codes "worker");
  load_balancer_pools = none;
}

abbrev pub nic : Interface
nic = record {
  id = codes "/subscriptions/s/resourceGroups/rg/nic-1";
  name = codes "nic-1";
  ip_configurations =
      configuration true (codes "10.0.0.5")
      ∷ configuration false (codes "10.0.0.2")
      ∷ configuration false (codes "10.0.0.6")
      ∷ [];
}

abbrev pub azure_services : Azure
azure_services = record {
  list_virtual_machines = λ log. ok [];
  get_interface = λ log group name. ok nic;
  wait_for_completion = λ log. ok tt;
  get_subnets = λ log vnet. ok none;
  get_machine = λ log namespace name. ok [];
  unmarshal_vnet = λ raw. ok raw;
}

abbrev pub clouds : Clouds
clouds = record {
  direct_client = λ log. ok tt;
  ec2 = λ id key. ec2;
  azure = λ credentials. ok azure_services;
}
