-- ===== src/Go/Reflect.antt =====
-- `reflect.DeepEqual` on the slices that the program hands to it. Values of different types are never
-- deeply equal, whatever they hold.
use egressip_ipam_operator.Prelude.{Bool, true, false, ◌&&◌, List, [], ◌∷◌, Text, text_eq}

-- A slice with its dynamic type: []string, []NetNamespaceEgressIP, []HostSubnetEgressIP and
-- []HostSubnetEgressCIDR.
pub data Dynamic : Type 0 where
  strings net_namespace_egress_ips host_subnet_egress_ips host_subnet_egress_cidrs :
      List Text → Dynamic

abbrev pub same_texts : List Text → List Text → Bool
same_texts [] [] = true
same_texts (s ∷ ss) (t ∷ ts) = text_eq s t && same_texts ss ts
same_texts _ _ = false

unfoldable pub deep_equal : Dynamic → Dynamic → Bool
deep_equal (strings s) (strings t) = same_texts s t
deep_equal (net_namespace_egress_ips s) (net_namespace_egress_ips t) = same_texts s t
deep_equal (host_subnet_egress_ips s) (host_subnet_egress_ips t) = same_texts s t
deep_equal (host_subnet_egress_cidrs s) (host_subnet_egress_cidrs t) = same_texts s t
deep_equal _ _ = false
