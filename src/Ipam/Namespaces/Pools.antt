-- ===== src/Ipam/Namespaces/Pools.antt =====
-- The map of the taken addresses in assignIPsToNamespaces
use egressip_ipam_operator.Prelude.{
  ◌≡◌, ◌≤◌, ◌↔◌, ◌⊎◌, sym, ap, ◌∙◌, none, some, List, [], Text, Elem, NoDup, All, All-Elem,
  All-of_Elem, inl, inr,
}
use egressip_ipam_operator.Deps.{Deps, IsLawful}
use egressip_ipam_operator.Go.Results.{ok}
use egressip_ipam_operator.Go.Maps.{Map, keys, get, get-of_Elem}
use egressip_ipam_operator.Go.Net.{Ip, IpNet, parse_cidr}
use egressip_ipam_operator.Go.Net.Networks.{InNet}
use egressip_ipam_operator.Context.{ReconcileContext}
use egressip_ipam_operator.Namespaces.{empty_by_cidr, sort_ips_by_cidr}
use egressip_ipam_operator.Nodes.{get_nodes_ips_by_cidr}
use egressip_ipam_operator.Ipam.Pool.{broadcast, sort_ips}
use egressip_ipam_operator.Ipam.Namespaces.{
  add_all, add_bounds, sort_all, remove_duplicates, without_duplicates,
}
use egressip_ipam_operator.Ipam.Namespaces.Merged.{
  ips_at, Elem-add_all, keys-add_all, IsBound, Bounded, add_bounds-Bounded,
}
use egressip_ipam_operator.Ipam.Namespaces.Cleaned.{keys-cleaned, get-cleaned}
use egressip_ipam_operator.Ipam.Namespaces.Sorted.{InCidr, Grows, IsAssigned, sort_namespaces-Grows}
use egressip_ipam_operator.Ipam.Namespaces.OnNodes.{IsOnNode, sort_node_ips-Grows}
use egressip_ipam_operator.Ipam.Namespaces.Taken.{
  empty_by_cidr-IsEmptyBy, IsBound-InNet, broadcast_ip-eq, cleaned-IsPool,
}
use egressip_ipam_operator.Ipam.Namespaces.Distinct.{HasPool}

-- What must not be given out at a CIDR, where the cloud reports `infra_ips` as used.
pub data IsUsed (d : Deps) (rc : ReconcileContext) (infra_ips : Map (List Ip)) (c : Text) (x : Ip)
    : Type 0 where
  assigned : IsAssigned rc rc.initially_assigned_namespaces c x → IsUsed d rc infra_ips c x
  bound : IsBound d c x → IsUsed d rc infra_ips c x
  reserved : Elem x (ips_at rc.reserved_ips_by_cidr c) → IsUsed d rc infra_ips c x
  on_node : IsOnNode rc (d.range (keys rc.all_nodes)) c x → IsUsed d rc infra_ips c x
  infra : Elem x (ips_at infra_ips c) → IsUsed d rc infra_ips c x

-- The four sources of the pools, and the map that the loops build from them.
module _ (ks : List Text) (bounded reserved_ips nodes_ips infra_ips : Map (List Ip)) where
  abbrev pub merged : Map (List Ip)
  merged = add_all ks infra_ips (add_all ks nodes_ips (add_all ks reserved_ips bounded))

  abbrev Sources : Text → Ip → Type 0
  Sources c x =
      Elem x (ips_at bounded c)
      ⊎ (Elem x (ips_at reserved_ips c)
          ⊎ (Elem x (ips_at nodes_ips c) ⊎ Elem x (ips_at infra_ips c)))

  Elem-merged : (c : Text) (x : Ip) → Elem c ks → Elem x (ips_at merged c) ↔ Sources c x
  Elem-merged c x at =
      let a = Elem-add_all reserved_ips ks bounded c x in
      let b = Elem-add_all nodes_ips ks (add_all ks reserved_ips bounded) c x in
      let e =
        Elem-add_all infra_ips ks (add_all ks nodes_ips (add_all ks reserved_ips bounded)) c x in
      (
        λ h. elim (e.0 h) [
          | inr (_, i) ↦ inr (inr (inr i))
          | inl l ↦ elim (b.0 l) [
            | inr (_, n) ↦ inr (inr (inl n))
            | inl m ↦ elim (a.0 m) [ inr (_, r) ↦ inr (inl r) | inl o ↦ inl o ]
          ]
        ],
        λ h. elim h [
          | inl o ↦ e.1 (inl (b.1 (inl (a.1 (inl o)))))
          | inr q ↦ elim q [
            | inl r ↦ e.1 (inl (b.1 (inl (a.1 (inr (at, r))))))
            | inr s ↦ elim s [ inl n ↦ e.1 (inl (b.1 (inr (at, n)))) | inr i ↦ e.1 (inr (at, i)) ]
          ]
        ],
      )

  keys-merged : ((c : Text) → Elem c ks → Elem c (keys bounded)) → keys merged ≡ keys bounded
  keys-merged known =
      let a = keys-add_all reserved_ips ks bounded known in
      let b =
        keys-add_all nodes_ips ks (add_all ks reserved_ips bounded) (λ c at. rw a (known c at)) in
      let e =
        keys-add_all infra_ips ks (add_all ks nodes_ips (add_all ks reserved_ips bounded))
          (λ c at. rw (b, a) (known c at)) in
      e ∙ b ∙ a

-- The pool of one CIDR in the map of the taken addresses.
pub record TakenPool (d : Deps) (rc : ReconcileContext) (infra_ips taken : Map (List Ip))
    (cidr : Text) (net : IpNet) : Type 0 where
  pub nodup : NoDup (keys taken)
  pub ips : List Ip
  pub has_pool : HasPool taken cidr net ips
  pub holds : (x : Ip) → IsUsed d rc infra_ips cidr x → Elem x ips

module _ (d : Deps) (lawful : IsLawful d) (rc : ReconcileContext) (cidr : Text) (base : Ip)
    (net : IpNet) (at : Elem cidr rc.cidrs) (parsed : parse_cidr cidr ≡ some (base, net))
    (masked : 1 ≤ net.ones) (here : get rc.net_cidr_by_cidr cidr ≡ some net)
    (reserved_in : All (InNet net) (ips_at rc.reserved_ips_by_cidr cidr)) where
  InCidr-InNet : (x : Ip) → InCidr rc cidr x → InNet net x
  InCidr-InNet x (net', found, inside) =
      let eq : some net' ≡ some net = sym found ∙ here in
      let same : net' ≡ net = cc in rw same at inside

  module _ (assigned_ips bounded nodes_ips infra_ips : Map (List Ip))
      (sorted : sort_ips_by_cidr rc ≡ ok assigned_ips)
      (bounds : add_bounds d (d.range (keys assigned_ips)) assigned_ips ≡ ok bounded)
      (on_nodes : get_nodes_ips_by_cidr d rc ≡ ok nodes_ips)
      (infra_in : All (InNet net) (ips_at infra_ips cidr)) where
    abbrev ks : List Text
    ks = d.range (keys assigned_ips)

    abbrev all_ips : Map (List Ip)
    all_ips = merged ks bounded rc.reserved_ips_by_cidr nodes_ips infra_ips

    sorted-Grows :
        Grows rc
          (IsAssigned rc rc.initially_assigned_namespaces)
          (empty_by_cidr rc.cidrs [])
          assigned_ips
    unfolding sort_ips_by_cidr
    sorted-Grows = sort_namespaces-Grows rc rc.initially_assigned_namespaces _ assigned_ips sorted

    nodes_grow : Grows rc (IsOnNode rc (d.range (keys rc.all_nodes))) [] nodes_ips
    unfolding get_nodes_ips_by_cidr
    nodes_grow = sort_node_ips-Grows rc (d.range (keys rc.all_nodes)) [] nodes_ips on_nodes

    bounds_hold : Bounded d ks assigned_ips bounded
    bounds_hold = add_bounds-Bounded d ks assigned_ips bounded bounds

    assigned-keys : keys assigned_ips ≡ keys (empty_by_cidr {V = Ip} rc.cidrs [])
    assigned-keys = sorted-Grows.same_keys (empty_by_cidr-IsEmptyBy rc.cidrs).known

    bounded-keys : keys bounded ≡ keys assigned_ips
    bounded-keys = bounds_hold.same_keys (λ c e. (lawful.range_elem (keys assigned_ips) c).0 e)

    all-keys : keys all_ips ≡ keys assigned_ips
    all-keys =
        keys-merged ks bounded rc.reserved_ips_by_cidr nodes_ips infra_ips
          (λ c e. rw bounded-keys ((lawful.range_elem (keys assigned_ips) c).0 e))
        ∙ bounded-keys

    cidr-key : Elem cidr (keys assigned_ips)
    cidr-key = rw assigned-keys ((empty_by_cidr-IsEmptyBy rc.cidrs).known cidr at)

    cidr-range : Elem cidr ks
    cidr-range = (lawful.range_elem (keys assigned_ips) cidr).1 cidr-key

    IsUsed-Elem : (x : Ip) → IsUsed d rc infra_ips cidr x → Elem x (ips_at all_ips cidr)
    IsUsed-Elem x used =
        (Elem-merged ks bounded rc.reserved_ips_by_cidr nodes_ips infra_ips cidr x cidr-range).1
          (elim used [
            | assigned a ↦ inl ((bounds_hold.elem cidr x).1 (inl (sorted-Grows.added cidr x a)))
            | bound b ↦ inl ((bounds_hold.elem cidr x).1 (inr (cidr-range, b)))
            | reserved r ↦ inr (inl r)
            | on_node n ↦ inr (inr (inl (nodes_grow.added cidr x n)))
            | infra i ↦ inr (inr (inr i))
          ])

    Elem-InNet : (x : Ip) → Elem x (ips_at all_ips cidr) → InNet net x
    unfolding get
    Elem-InNet x e =
        elim ((Elem-merged ks bounded rc.reserved_ips_by_cidr nodes_ips infra_ips cidr x
            cidr-range).0
          e) [
            | inl b ↦ elim ((bounds_hold.elem cidr x).0 b) [
              | inr (_, r) ↦ IsBound-InNet d lawful cidr base net parsed x r
              | inl a ↦ elim (sorted-Grows.from cidr x a) [
                | inl z ↦ absurd (rw ((empty_by_cidr-IsEmptyBy rc.cidrs).empty cidr) at z)
                | inr i ↦ InCidr-InNet x i
              ]
            ]
            | inr q ↦ elim q [
              | inl r ↦ All-Elem (InNet net) _ reserved_in r
              | inr s ↦ elim s [
                | inl n ↦ elim (nodes_grow.from cidr x n) [
                  | inl z ↦ absurd z
                  | inr i ↦ InCidr-InNet x i
                ]
                | inr i ↦ All-Elem (InNet net) _ infra_in i
              ]
            ]
          ]

    pub taken-TakenPool :
        TakenPool d rc infra_ips (sort_all d (remove_duplicates d all_ips)) cidr net
    taken-TakenPool =
        let (ips, found) = get-of_Elem all_ips cidr (rw all-keys cidr-key) in
        let same : ips_at all_ips cidr ≡ ips = ap (λ o. elim o [ none ↦ [] | some v ↦ v ]) found in
        let last : IsUsed d rc infra_ips cidr (broadcast net) = bound (record {
          base = base;
          net = net;
          parsed = parsed;
          either = inr (sym (broadcast_ip-eq d lawful cidr base net parsed));
        }) in
        let (pool, held) =
          cleaned-IsPool d lawful cidr base net parsed ips
            (All-of_Elem (InNet net) ips (λ x e. Elem-InNet x (rw same e)))
            (rw same at IsUsed-Elem (broadcast net) last) in
        record {
          nodup =
              rw (keys-cleaned d lawful all_ips, all-keys, assigned-keys)
                ((empty_by_cidr-IsEmptyBy rc.cidrs).nodup);
          ips = sort_ips d (without_duplicates d ips);
          has_pool = record {
            addr = base;
            parsed = parsed;
            masked = masked;
            here = get-cleaned d lawful all_ips cidr ips found;
            pool = pool;
          };
          holds = λ x used. held x (rw same at IsUsed-Elem x used);
        }
