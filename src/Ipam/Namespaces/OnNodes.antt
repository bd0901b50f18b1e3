-- ===== src/Ipam/Namespaces/OnNodes.antt =====
-- getNodesIPsByCIDR of controllers/egressipam/node.go
use egressip_ipam_operator.Prelude.{
  ◌≡◌, refl, sym, ap, ◌∙◌, true, false, Bool-cases, none, some, Option, List, [], ◌∷◌, ◌++◌, Text,
  Elem, inl, inr, Option-cases,
}
use egressip_ipam_operator.Go.Results.{ok, err, panic, >>=-eq-ok}
use egressip_ipam_operator.Go.Maps.{Map, get, put}
use egressip_ipam_operator.Go.Net.{Ip, IpNet, parse_ip, contains}
use egressip_ipam_operator.Go.Net.Networks.{contains-InNet}
use egressip_ipam_operator.Api.{HostSubnet}
use egressip_ipam_operator.Context.{ReconcileContext}
use egressip_ipam_operator.Nodes.{sort_node_ip, sort_node_ips}
use egressip_ipam_operator.Ipam.Namespaces.Merged.{ips_at}
use egressip_ipam_operator.Ipam.Namespaces.Sorted.{Grows, Grows-none, Grows-trans, Grows-put}

module _ (rc : ReconcileContext) where
  -- `x` is the address, and it lies in the CIDR.
  abbrev pub HostIn : Option Ip → List Text → Text → Ip → Type 0
  HostIn host_ip cidrs c x =
      Elem c cidrs
      × (host_ip ≡ some x)
      × ((net : IpNet) × (get rc.net_cidr_by_cidr c ≡ some net) × (contains net (some x) ≡ true))

  HostIn-tail :
      (host_ip : Option Ip) (k : Text) (cidrs : List Text) (net : IpNet) (m mid m' : Map (List Ip))
      → get rc.net_cidr_by_cidr k ≡ some net
      → Grows rc (λ c x. (c ≡ k) × (host_ip ≡ some x) × (contains net (some x) ≡ true)) m mid
      → Grows rc (HostIn host_ip cidrs) mid m'
      → Grows rc (HostIn host_ip (k ∷ cidrs)) m m'
  HostIn-tail host_ip k cidrs net m mid m' found p q =
      Grows-trans rc (λ c x. (c ≡ k) × (host_ip ≡ some x) × (contains net (some x) ≡ true))
        (HostIn host_ip cidrs) (HostIn host_ip (k ∷ cidrs)) m mid m'
        (λ c x (at, host, (net', found', inside)). elim at [
          | inl r ↦
              let eq : some net' ≡ some net = sym found' ∙ ap (get rc.net_cidr_by_cidr) r ∙ found in
              let same : net' ≡ net = cc in inl (r, host, rw same at inside)
          | inr later ↦ inr (later, host, (net', found', inside))
        ])
        p q

  sort_node_ip-Grows :
      (host_ip : Option Ip) (cidrs : List Text) (m m' : Map (List Ip))
      → ((c : Text) → Elem c cidrs → Elem c rc.cidrs)
      → sort_node_ip rc host_ip cidrs m ≡ ok m'
      → Grows rc (HostIn host_ip cidrs) m m'
  unfolding sort_node_ip
  sort_node_ip-Grows host_ip [] m m' sub e =
      let same : m ≡ m' = cc in
      rw (← same) (Grows-none rc (HostIn host_ip []) m (λ c x (z, _, _). z))
  sort_node_ip-Grows host_ip (k ∷ cidrs) m m' sub e =
      elim (Option-cases (get rc.net_cidr_by_cidr k)) [
        | inl absent ↦ let clash : panic ≡ ok m' = rw (absent, sort_node_ip) at e in cc
        | inr (net, found) ↦ elim (Option-cases host_ip) [
          | inl no_ip ↦
              HostIn-tail host_ip k cidrs net m m m' found
                (Grows-none rc _ m
                  (λ c x (_, host, _). let clash : none ≡ some x = sym no_ip ∙ host in cc))
                (sort_node_ip-Grows host_ip cidrs m m' (λ c at. sub c (inr at))
                  (rw (found, sort_node_ip, no_ip) at e))
          | inr (ip, is_ip) ↦ elim (Bool-cases (contains net (some ip))) [
            | inl inside ↦
                let mid = put m k (ips_at m k ++ ip ∷ []) in
                let g =
                  Grows-put rc m k ip (sub k (inl refl))
                    (net, found, contains-InNet net ip inside) in
                HostIn-tail host_ip k cidrs net m mid m' found
                  (record {
                    kept = g.kept;
                    added = λ c x (p, host, _).
                        let eq : some x ≡ some ip = sym host ∙ is_ip in g.added c x (p, cc eq);
                    from = g.from;
                    same_keys = g.same_keys;
                  })
                  (sort_node_ip-Grows host_ip cidrs mid m' (λ c at. sub c (inr at))
                    (rw (found, sort_node_ip, is_ip, inside) at e))
            | inr outside ↦
                HostIn-tail host_ip k cidrs net m m m' found
                  (Grows-none rc _ m (λ c x (_, host, inside).
                    let eq : some x ≡ some ip = sym host ∙ is_ip in
                    let same : x ≡ ip = cc in
                    let clash : true ≡ false = sym (rw same at inside) ∙ outside in cc))
                  (sort_node_ip-Grows host_ip cidrs m m' (λ c at. sub c (inr at))
                    (rw (found, sort_node_ip, is_ip, outside) at e))
          ]
        ]
      ]

  -- The host subnet of one of the nodes has the address `x`, which lies in the CIDR.
  pub record IsOnNode (names : List Text) (c : Text) (x : Ip) : Type 0 where
    pub name : Text
    pub at : Elem name names
    pub hostsubnet : HostSubnet
    pub here : get rc.all_host_subnets name ≡ some hostsubnet
    pub host : HostIn (parse_ip hostsubnet.host_ip) rc.cidrs c x

  pub sort_node_ips-Grows :
      (names : List Text) (m m' : Map (List Ip))
      → sort_node_ips rc names m ≡ ok m'
      → Grows rc (IsOnNode names) m m'
  unfolding sort_node_ips
  sort_node_ips-Grows [] m m' e =
      let same : m ≡ m' = cc in rw (← same) (Grows-none rc (IsOnNode []) m (λ c x a. a.at))
  sort_node_ips-Grows (name ∷ names) m m' e = elim (Option-cases (get rc.all_host_subnets name)) [
    | inl absent ↦ let clash : err _ ≡ ok m' = rw (absent, sort_node_ips) at e in cc
    | inr (hostsubnet, there) ↦
        let (mid, here, rest) =
          >>=-eq-ok (sort_node_ip rc (parse_ip hostsubnet.host_ip) rc.cidrs m)
            (sort_node_ips rc names) (rw (there, sort_node_ips) at e) in
        Grows-trans rc (HostIn (parse_ip hostsubnet.host_ip) rc.cidrs) (IsOnNode names)
          (IsOnNode (name ∷ names)) m mid m'
          (λ c x a. elim a.at [
            | inl p ↦
                let eq : some a.hostsubnet ≡ some hostsubnet =
                  sym a.here ∙ ap (get rc.all_host_subnets) p ∙ there in
                let same : a.hostsubnet ≡ hostsubnet = cc in inl (rw same at a.host)
            | inr later ↦ inr (record {
              name = a.name;
              at = later;
              hostsubnet = a.hostsubnet;
              here = a.here;
              host = a.host;
            })
          ])
          (sort_node_ip-Grows (parse_ip hostsubnet.host_ip) rc.cidrs m mid (λ c at. at) here)
          (sort_node_ips-Grows names mid m' rest)
  ]
