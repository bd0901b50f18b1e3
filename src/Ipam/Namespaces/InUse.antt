-- ===== src/Ipam/Namespaces/InUse.antt =====
-- assignIPsToNamespaces as a whole
use egressip_ipam_operator.Prelude.{
  ◌≡◌, ◌≤◌, subst, ap, some, List, ◌++◌, map, Text, Elem, NoDup, All, All-Elem, length,
}
use egressip_ipam_operator.Deps.{Deps, IsLawful}
use egressip_ipam_operator.Go.Results.{Result, ok, ok-injective}
use egressip_ipam_operator.Go.Maps.{Map, keys, get}
use egressip_ipam_operator.Go.Net.{Ip, IpNet, parse_cidr}
use egressip_ipam_operator.Go.Net.Networks.{InNet}
use egressip_ipam_operator.Api.{Namespace}
use egressip_ipam_operator.Context.{ReconcileContext}
use egressip_ipam_operator.Infra.{Infra}
use egressip_ipam_operator.Effects.{Action, Services, Log, update_namespace, lift, pure, ◌>>=◌}
use egressip_ipam_operator.Effects.Inversion.{>>=-eq-ok}
use egressip_ipam_operator.Namespaces.{sort_ips_by_cidr}
use egressip_ipam_operator.Nodes.{get_nodes_ips_by_cidr}
use egressip_ipam_operator.Ipam.Namespaces.{
  add_bounds, sort_all, remove_duplicates, taken_ips, assign_ips, assign_ips_to_namespaces,
}
use egressip_ipam_operator.Ipam.Namespaces.Merged.{ips_at}
use egressip_ipam_operator.Ipam.Namespaces.Distinct.{column, annotate}
use egressip_ipam_operator.Ipam.Namespaces.Allocated.{assign_ips-Allocated}
use egressip_ipam_operator.Ipam.Namespaces.Pools.{IsUsed, merged, TakenPool, taken-TakenPool}

-- What a successful call did, and which addresses it gave out at `cidr`. `infra_ips` is the answer of the
-- infrastructure, and `mid` the log behind it.
pub record Unused (d : Deps) (infra : Infra) (rc : ReconcileContext) (log : Log) (cidr : Text)
    (net : IpNet) (result : List Namespace) (log' : Log) : Type 0 where
  pub infra_ips : Map (List Ip)
  pub mid : Log
  pub answered : infra.get_used_ips_by_cidr rc log ≡ (ok infra_ips, mid)
  -- the new addresses of each namespace, by CIDR
  pub rounds : List (Map Ip)
  pub one_each : length rounds ≡ length rc.unassigned_namespaces
  pub annotated : result ≡ annotate rc.cidrs rounds rc.unassigned_namespaces
  pub written : log' ≡ mid ++ map update_namespace result
  pub complete : length (column cidr rounds) ≡ length rc.unassigned_namespaces
  pub in_net : All (InNet net) (column cidr rounds)
  pub distinct : NoDup (column cidr rounds)
  pub unused : (x : Ip) → IsUsed d rc infra_ips cidr x → ¬ Elem x (column cidr rounds)

module _ (d : Deps) (lawful : IsLawful d) (infra : Infra) (rc : ReconcileContext) (log : Log)
    (cidr : Text) (base : Ip) (net : IpNet) (at : Elem cidr rc.cidrs)
    (parsed : parse_cidr cidr ≡ some (base, net)) (masked : 1 ≤ net.ones)
    (here : get rc.net_cidr_by_cidr cidr ≡ some net)
    (reserved_in : All (InNet net) (ips_at rc.reserved_ips_by_cidr cidr))
    (infra_in : (infra_ips : Map (List Ip)) (mid : Log)
      → infra.get_used_ips_by_cidr rc log ≡ (ok infra_ips, mid)
      → All (InNet net) (ips_at infra_ips cidr)) where
  -- The pools, with the answer of the infrastructure that they hold.
  record Pools (taken : Map (List Ip)) (mid : Log) : Type 0 where
    infra_ips : Map (List Ip)
    answered : infra.get_used_ips_by_cidr rc log ≡ (ok infra_ips, mid)
    pool : TakenPool d rc infra_ips taken cidr net

  -- The steps of `taken_ips` behind each of its calls.
  abbrev from_infra :
      Map (List Ip) → Map (List Ip) → Map (List Ip) → Map (List Ip) → Action (Map (List Ip))
  from_infra assigned bounded nodes infra_ips = pure (
      sort_all d (
        remove_duplicates d
          (merged (d.range (keys assigned)) bounded rc.reserved_ips_by_cidr nodes infra_ips)))

  abbrev from_nodes : Map (List Ip) → Map (List Ip) → Map (List Ip) → Action (Map (List Ip))
  from_nodes assigned bounded nodes =
      infra.get_used_ips_by_cidr rc >>= from_infra assigned bounded nodes

  abbrev from_bounds : Map (List Ip) → Map (List Ip) → Action (Map (List Ip))
  from_bounds assigned bounded = lift (get_nodes_ips_by_cidr d rc) >>= from_nodes assigned bounded

  abbrev from_assigned : Map (List Ip) → Action (Map (List Ip))
  from_assigned assigned =
      lift (add_bounds d (d.range (keys assigned)) assigned) >>= from_bounds assigned

  taken_ips-Pools :
      (taken : Map (List Ip)) (mid : Log)
      → taken_ips d infra rc log ≡ (ok taken, mid)
      → Pools taken mid
  unfolding taken_ips
  taken_ips-Pools taken mid e =
      let (assigned, sorted, e₁) =
        >>=-eq-ok (lift (sort_ips_by_cidr rc)) from_assigned log taken mid e in
      let (bounded, bounds, e₂) =
        >>=-eq-ok (lift (add_bounds d (d.range (keys assigned)) assigned)) (from_bounds assigned)
          log taken mid e₁ in
      let (nodes, on_nodes, e₃) =
        >>=-eq-ok (lift (get_nodes_ips_by_cidr d rc)) (from_nodes assigned bounded) log taken mid
          e₂ in
      let (infra_ips, answered, e₄) =
        >>=-eq-ok (infra.get_used_ips_by_cidr rc) (from_infra assigned bounded nodes) log taken mid
          e₃ in
      let same_log : (infra.get_used_ips_by_cidr rc log).1 ≡ mid =
        ap (λ (r : Result (Map (List Ip)) × Log). r.1) e₄ in
      let answer : infra.get_used_ips_by_cidr rc log ≡ (ok infra_ips, mid) =
        λ i. (answered i, same_log i) in
      let same_taken : ok (
            sort_all d (
              remove_duplicates d
                (merged (d.range (keys assigned)) bounded rc.reserved_ips_by_cidr nodes infra_ips)))
          ≡ ok taken =
        ap (λ (r : Result (Map (List Ip)) × Log). r.0) e₄ in
      let p =
        taken-TakenPool d lawful rc cidr base net at parsed masked here reserved_in assigned bounded
          nodes infra_ips sorted bounds on_nodes (infra_in infra_ips mid answer) in
      record {
        infra_ips = infra_ips;
        answered = answer;
        pool =
            subst (λ (m : Map (List Ip)). TakenPool d rc infra_ips m cidr net)
              (ok-injective same_taken) p;
      }

  -- If the assignment of addresses to the namespaces without addresses succeeds, each of them has got one
  -- address of the CIDR and has been written once with its addresses, and nothing else has been written
  -- since the infrastructure was asked. These addresses of the CIDR are pairwise different and lie in its
  -- network, and none is one that a namespace has already by its annotation, that is reserved, that is
  -- the address of a node, that the infrastructure reports as used, or that is the address in the CIDR's
  -- text or the last one of its network. This is so for a CIDR of the context with a prefix length of at
  -- least 1, if the context has its network, and its reserved addresses and those that the
  -- infrastructure reports lie in it.
  pub assign_ips_to_namespaces-Unused :
      (services : Services) (result : List Namespace) (log' : Log)
      → assign_ips_to_namespaces d services infra rc log ≡ (ok result, log')
      → Unused d infra rc log cidr net result log'
  unfolding assign_ips_to_namespaces
  assign_ips_to_namespaces-Unused services result log' e =
      let (taken, first, rest) =
        >>=-eq-ok (taken_ips d infra rc) (assign_ips d services rc.cidrs rc.unassigned_namespaces)
          log result log' e in
      let mid = (taken_ips d infra rc log).1 in
      let p = taken_ips-Pools taken mid (λ i. (first i, mid)) in
      let a =
        assign_ips-Allocated d lawful rc.cidrs services rc.unassigned_namespaces taken mid result
          log' cidr net p.pool.ips p.pool.nodup p.pool.has_pool rest in
      record {
        infra_ips = p.infra_ips;
        mid = mid;
        answered = p.answered;
        rounds = a.rounds;
        one_each = a.one_each;
        annotated = a.annotated;
        written = a.written;
        complete = a.complete;
        in_net = a.in_net;
        distinct = a.distinct;
        unused = λ x used given.
            All-Elem (λ ip. ¬ Elem ip p.pool.ips) (column cidr a.rounds) a.free given
              (p.pool.holds x used);
      }
