-- ===== src/Reconcile/Cycle.antt =====
-- processReconcileContext of controllers/egressipam/egressipam_controller.go
pub mod Loaded
use egressip_ipam_operator.Prelude.{
  ◌≡◌, refl, ◌≤◌, ◌↔◌, ◌⊎◌, ◌||◌, ap, sym, ◌∙◌, subst, Bool, true, false, some, List, [], ◌∷◌, ◌++◌,
  Text, Elem, Bool-cases, inl, inr, ltb, length,
}
use egressip_ipam_operator.Deps.{Deps, IsLawful}
use egressip_ipam_operator.Go.Results.{Result, ok}
use egressip_ipam_operator.Go.Strings.{split}
use egressip_ipam_operator.Go.Maps.{Map, keys, get, get_or_zero}
use egressip_ipam_operator.Api.{HostSubnet, Namespace, namespace_association_annotation}
use egressip_ipam_operator.Context.{ReconcileContext}
use egressip_ipam_operator.Effects.{
  Action, Log, Write, Services, lift, update_net_namespace, update_host_subnet, ◌>>=◌,
}
use egressip_ipam_operator.Effects.Inversion.{>>=-eq-ok}
use egressip_ipam_operator.Effects.Goroutines.{Keeps}
use egressip_ipam_operator.Infra.{Infra}
use egressip_ipam_operator.Infra.Provided.{IsProvided, reconcile_instance_secondary_ips-Keeps}
use egressip_ipam_operator.Nodes.{get_assigned_ips_by_node}
use egressip_ipam_operator.NetNamespaces.{reconcile_net_namespaces}
use egressip_ipam_operator.NetNamespaces.Written.{
  with_egress_ips, reconcile_net_namespaces-Keeps, reconcile_net_namespaces-Writes,
}
use egressip_ipam_operator.HostSubnets.{reconcile_hs_assigned_ips, assign_cidrs_to_host_subnets}
use egressip_ipam_operator.HostSubnets.Written.{
  final_ips, with_ips, reconcile_hs_assigned_ips-Keeps, reconcile_hs_assigned_ips-Writes,
}
use egressip_ipam_operator.HostSubnets.Automatic.{
  with_cidr, host_subnet_of, assign_cidrs_to_host_subnets-Keeps,
  assign_cidrs_to_host_subnets-Writes,
}
use egressip_ipam_operator.Ipam.Namespaces.{assign_ips_to_namespaces}
use egressip_ipam_operator.Ipam.Nodes.{assign_ips_to_nodes}
use egressip_ipam_operator.Reconcile.{
  with_assigned, reconcile_host_subnets, process_reconcile_context,
}
use egressip_ipam_operator.Reconcile.Load.{is_cloud_infrastructure}
use egressip_ipam_operator.Reconcile.HostSubnets.{
  is_explicit, reconcile_host_subnets-Keeps, reconcile_host_subnets-Writes_ips,
  reconcile_host_subnets-Writes_cidr,
}

-- The context behind the assignment to the namespaces, and the one behind the assignment to the nodes.
abbrev pub initially : Deps → ReconcileContext → List Namespace → ReconcileContext
initially d rc newly = record (with_assigned rc newly) {
  initially_assigned_ips_by_node = get_assigned_ips_by_node d (with_assigned rc newly);
}

abbrev pub finally : Deps → ReconcileContext → List Namespace → Map (List Text) → ReconcileContext
finally d rc newly by_node = record (initially d rc newly) {
  finally_assigned_ips_by_node = by_node;
}

-- What a cycle has done, where it found the context `rc`.
pub record Cycled (d : Deps) (services : Services) (infra : Infra) (rc : ReconcileContext)
    (log log' : Log) : Type 0 where
  pub newly : List Namespace
  pub mid : Log
  pub assigned : assign_ips_to_namespaces d services infra rc log ≡ (ok newly, mid)
  -- the netnamespaces of all namespaces that have addresses now
  pub net_namespaces :
      (namespace : Namespace) (ipstring : Text)
      → Elem namespace (rc.initially_assigned_namespaces ++ newly)
      → get namespace.annotations namespace_association_annotation ≡ some ipstring
      → Elem
          (update_net_namespace
            (with_egress_ips (with_assigned rc newly) namespace (split b',' ipstring)))
          log'
  pub by_node : Map (List Text)
  pub distributed : assign_ips_to_nodes d (initially d rc newly) ≡ ok by_node
  -- the call of the infrastructure, whose writes are still there at the end
  pub start : Log
  pub done : Log
  pub v : Unit {0}
  pub reached :
      infra.reconcile_instance_secondary_ips (finally d rc newly by_node) start ≡ (ok v, done)
  pub kept : (w : Write) → Elem w done → Elem w log'
  -- on a cloud, or with several CIDRs
  pub host_subnets :
      (name : Text) (hostsubnet : HostSubnet)
      → is_explicit rc ≡ true
      → Elem (name, hostsubnet) rc.selected_host_subnets
      → ((k : Text) → Elem k (get_or_zero [] by_node name) ↔ Elem k hostsubnet.egress_ips)
        ⊎ Elem (update_host_subnet (with_ips hostsubnet (get_or_zero [] by_node name))) log'
  -- and else
  pub automatic :
      (cidr node : Text)
      → is_explicit rc ≡ false
      → Elem cidr (keys rc.selected_nodes_by_cidr)
      → Elem node (get_or_zero [] rc.selected_nodes_by_cidr cidr)
      → ((k : Text) → Elem k (host_subnet_of rc node).egress_cidrs ↔ Elem k (cidr ∷ []))
        ⊎ Elem (update_host_subnet (with_cidr (host_subnet_of rc node) cidr)) log'

module _ (d : Deps) (lawful : IsLawful d) (services : Services) where
  module _ (infra : Infra) (rc : ReconcileContext) (provided : IsProvided d services infra) where
    -- The steps of a cycle behind each of its calls.
    abbrev from_by_node : List Namespace → Map (List Text) → Action (Unit {0})
    from_by_node newly by_node =
        infra.reconcile_instance_secondary_ips (finally d rc newly by_node) >>= λ _.
        reconcile_host_subnets d services (finally d rc newly by_node)

    abbrev from_net_namespaces : List Namespace → Action (Unit {0})
    from_net_namespaces newly =
        lift (assign_ips_to_nodes d (initially d rc newly)) >>= from_by_node newly

    abbrev from_newly : List Namespace → Action (Unit {0})
    from_newly newly = reconcile_net_namespaces d services (with_assigned rc newly) >>= λ _.
        from_net_namespaces newly

    from_steps :
        (log : Log) (newly : List Namespace) (mid : Log) (by_node : Map (List Text))
        (v w u : Unit {0}) (log' : Log)
        → assign_ips_to_namespaces d services infra rc log ≡ (ok newly, mid)
        → (reconcile_net_namespaces d services (with_assigned rc newly) mid).0 ≡ ok v
        → assign_ips_to_nodes d (initially d rc newly) ≡ ok by_node
        → (infra.reconcile_instance_secondary_ips
            (finally d rc newly by_node)
            (reconcile_net_namespaces d services (with_assigned rc newly) mid).1).0
          ≡ ok w
        → reconcile_host_subnets d services
            (finally d rc newly by_node)
            (infra.reconcile_instance_secondary_ips
              (finally d rc newly by_node)
              (reconcile_net_namespaces d services (with_assigned rc newly) mid).1).1
          ≡ (ok u, log')
        → Cycled d services infra rc log log'
    from_steps log newly mid by_node v w u log' assigned net_done distributed cloud_done e =
        let final = finally d rc newly by_node in
        let net = reconcile_net_namespaces d services (with_assigned rc newly) in
        let before = (infra.reconcile_instance_secondary_ips final (net mid).1).1 in
        let subnets = reconcile_host_subnets d services final in
        let end : (subnets before).1 ≡ log' = ap (λ (r : Result (Unit {0}) × Log). r.1) e in
        let subnets_done : (subnets before).0 ≡ ok u =
          ap (λ (r : Result (Unit {0}) × Log). r.0) e in
        record {
          newly = newly;
          mid = mid;
          assigned = assigned;
          net_namespaces = λ namespace ipstring at there. rw (← end) (
              reconcile_host_subnets-Keeps d lawful services final _ _ (
                reconcile_instance_secondary_ips-Keeps d lawful services infra provided final _ _ (
                  reconcile_net_namespaces-Writes d lawful services (with_assigned rc newly)
                    namespace ipstring mid v at there net_done)));
          by_node = by_node;
          distributed = distributed;
          start = (net mid).1;
          done = before;
          v = w;
          reached = λ i. (cloud_done i, before);
          kept = λ x h. rw (← end) (reconcile_host_subnets-Keeps d lawful services final _ _ h);
          host_subnets = λ name hostsubnet explicit at. rw (← end) (
              reconcile_host_subnets-Writes_ips d lawful services final name hostsubnet before u
                explicit at subnets_done);
          automatic = λ cidr node automatic at here. rw (← end) (
              reconcile_host_subnets-Writes_cidr d lawful services final cidr node before u
                automatic at here subnets_done);
        }

    -- If processReconcileContext reports no error, then the namespaces without addresses have got some,
    -- the netnamespaces of all namespaces with addresses have been written with them, the addresses have
    -- been distributed over the nodes, and the host subnets have them, or, off the clouds and with a
    -- single CIDR, have the CIDR.
    pub process_reconcile_context-Cycled :
        (log : Log) (u : Unit {0}) (log' : Log)
        → process_reconcile_context d services infra rc log ≡ (ok u, log')
        → Cycled d services infra rc log log'
    unfolding process_reconcile_context
    process_reconcile_context-Cycled log u log' e =
        let (newly, assigned, e₁) =
          >>=-eq-ok (assign_ips_to_namespaces d services infra rc) from_newly log u log' e in
        let mid = (assign_ips_to_namespaces d services infra rc log).1 in
        let net = reconcile_net_namespaces d services (with_assigned rc newly) in
        let (v, net_done, e₂) = >>=-eq-ok net (λ _. from_net_namespaces newly) mid u log' e₁ in
        let (by_node, distributed, e₃) =
          >>=-eq-ok (lift (assign_ips_to_nodes d (initially d rc newly))) (from_by_node newly)
            (net mid).1 u log' e₂ in
        let final = finally d rc newly by_node in
        let (w, cloud_done, e₄) =
          >>=-eq-ok (infra.reconcile_instance_secondary_ips final)
            (λ _. reconcile_host_subnets d services final) (net mid).1 u log' e₃ in
        from_steps log newly mid by_node v w u log' (λ i. (assigned i, mid)) net_done distributed
          cloud_done e₄
