-- ===== src/Network.antt =====
-- The types of Azure's compute and network packages, with the fields that the program reads or writes.
-- A pointer is an Option where the program tests it for nil.
use egressip_ipam_operator.Prelude.{Bool, Option, List, Text}

pub data AllocationMethod : Type 0 where
  static dynamic : AllocationMethod

-- network.InterfaceIPConfiguration
pub record IpConfiguration : Type 0 where
  pub name : Text
  pub primary : Bool
  pub private_ip_address : Option Text
  pub allocation_method : AllocationMethod
  pub subnet : Option Text
  pub load_balancer_pools : Option (List Text)

-- network.Interface
pub record Interface : Type 0 where
  pub id : Text
  pub name : Text
  pub ip_configurations : List IpConfiguration

-- compute.NetworkInterfaceReference and compute.VirtualMachine
pub record InterfaceReference : Type 0 where
  pub id : Text
  pub primary : Bool

pub record VirtualMachine : Type 0 where
  pub name : Text
  pub network_interfaces : List InterfaceReference
