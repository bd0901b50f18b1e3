-- ===== src/Ipam/Namespaces/Allocated.antt =====
-- The loop of assignIPsToNamespaces, seen at one CIDR.
use egressip_ipam_operator.Prelude.{
  ◌≡◌, List, ◌++◌, map, Text, Elem, NoDup, All, All-of_Elem, length,
}
use egressip_ipam_operator.Deps.{Deps, IsLawful}
use egressip_ipam_operator.Go.Results.{ok}
use egressip_ipam_operator.Go.Maps.{Map, keys}
use egressip_ipam_operator.Go.Net.{Ip, IpNet}
use egressip_ipam_operator.Go.Net.Networks.{InNet}
use egressip_ipam_operator.Api.{Namespace}
use egressip_ipam_operator.Effects.{Services, Log, update_namespace}
use egressip_ipam_operator.Ipam.Namespaces.{assign_ips}
use egressip_ipam_operator.Ipam.Namespaces.Distinct.{HasPool, column, annotate, assign_ips-Assigned}

-- What a successful loop did, and which addresses it gave out at `cidr`.
pub record Allocated (cidrs : List Text) (cidr : Text) (net : IpNet) (ips : List Ip)
    (unassigned : List Namespace) (log : Log) (result : List Namespace) (log' : Log) : Type 0 where
  -- the new addresses of each namespace, by CIDR
  pub rounds : List (Map Ip)
  pub one_each : length rounds ≡ length unassigned
  pub annotated : result ≡ annotate cidrs rounds unassigned
  pub written : log' ≡ log ++ map update_namespace result
  pub complete : length (column cidr rounds) ≡ length unassigned
  pub in_net : All (InNet net) (column cidr rounds)
  pub free : All (λ ip. ¬ Elem ip ips) (column cidr rounds)
  pub distinct : NoDup (column cidr rounds)

module _ (d : Deps) (lawful : IsLawful d) where
  -- If the loop over the namespaces without addresses succeeds, it has chosen new addresses for each
  -- of them, has put them into its annotation in the order of the CIDRs, and has written each namespace
  -- once, in order, and nothing else. At a CIDR whose pool of taken addresses is well formed, each
  -- namespace got one address: they all lie in the CIDR's network, none was taken, and they are
  -- pairwise different.
  pub assign_ips-Allocated :
      (cidrs : List Text) (services : Services) (namespaces : List Namespace)
      (taken : Map (List Ip)) (log : Log) (result : List Namespace) (log' : Log) (cidr : Text)
      (net : IpNet) (ips : List Ip)
      → NoDup (keys taken)
      → HasPool taken cidr net ips
      → assign_ips d services cidrs namespaces taken log ≡ (ok result, log')
      → Allocated cidrs cidr net ips namespaces log result log'
  assign_ips-Allocated cidrs services namespaces taken log result log' cidr net ips nodup pool e =
      let a =
        assign_ips-Assigned d lawful cidrs services namespaces taken log result log' nodup e in
      record {
        rounds = a.rounds;
        one_each = a.one_each;
        annotated = a.annotated;
        written = a.written;
        complete = a.complete cidr net ips pool;
        in_net = All-of_Elem _ (column cidr a.rounds) (a.in_net cidr net ips pool);
        free = All-of_Elem _ (column cidr a.rounds) (a.free cidr net ips pool);
        distinct = a.distinct cidr net ips pool;
      }
