-- ===== src/Metrics/Measured.antt =====
-- updateMetrics of controllers/egressipam/egressipam_controller.go
use mathlib.Core.List.{append_assoc}
use egressip_ipam_operator.Prelude.{
  ℕ, ◌+◌, ◌≡◌, ◌≢◌, ◌⊎◌, refl, sym, ap, ◌∙◌, subst, inl, inr, some, List, [], ◌∷◌, ◌++◌, Text,
  text_eq, text_eq_iff, length, Elem, if◌then◌else◌, Bool-cases,
}
use egressip_ipam_operator.Deps.{Deps, IsLawful}
use egressip_ipam_operator.Go.Results.{Result, ok, ok-injective, >>=-eq-ok}
use egressip_ipam_operator.Go.Maps.{Map, keys, get_or_zero}
use egressip_ipam_operator.Api.{Node}
use egressip_ipam_operator.Context.{ReconcileContext}
use egressip_ipam_operator.Effects.{Log}
use egressip_ipam_operator.Infra.{Infra, InstanceTypes}
use egressip_ipam_operator.Infra.Aws.{zero_node}
use egressip_ipam_operator.Metrics.{
  Gauge, Gauges, set, set_allocated, set_capacity, or_zero, update_metrics,
}
use egressip_ipam_operator.Metrics.Read.{read, read-set, read-set_other}

-- What the write of a value at `n` leaves to be done for `node`.
read-step :
    (gauge : Gauge) (name n node : Text) (nodes : List Text) (value : Text → ℕ)
    → Elem node (n ∷ nodes) ⊎ (read gauge name node ≡ some (value node))
    → Elem node nodes ⊎ (read (set gauge name n (value n)) name node ≡ some (value node))
read-step gauge name n node nodes value at = elim (Bool-cases (text_eq n node)) [
  | inl same ↦ inr (
      read-set gauge name n node (value n)
      ∙ ap (λ b. if b then some (value n) else read gauge name node) same
      ∙ ap (λ (k : Text). some (value k)) ((text_eq_iff n node).0 same))
  | inr apart ↦ elim at [
    | inl (inl p) ↦ let clash = (text_eq_iff n node).1 (sym p) in cc
    | inl (inr later) ↦ inl later
    | inr e ↦ inr (
        read-set gauge name n node (value n)
        ∙ ap (λ b. if b then some (value n) else read gauge name node) apart
        ∙ e)
  ]
]

module _ (name : Text) (ips_by_node : Map (List Text)) where
  abbrev allocated : Text → ℕ
  allocated node = length (get_or_zero [] ips_by_node node) + 1

  allocated-read :
      (nodes : List Text) (gauge : Gauge) (node : Text)
      → Elem node nodes ⊎ (read gauge name node ≡ some (allocated node))
      → read (set_allocated name ips_by_node nodes gauge) name node ≡ some (allocated node)
  unfolding set_allocated
  allocated-read [] gauge node (inl z) = absurd z
  allocated-read [] gauge node (inr e) = e
  allocated-read (n ∷ nodes) gauge node at =
      allocated-read nodes (set gauge name n (allocated n)) node
        (read-step gauge name n node nodes allocated at)

  allocated-read_other :
      (nodes : List Text) (gauge : Gauge) (name' node : Text)
      → name ≢ name'
      → read (set_allocated name ips_by_node nodes gauge) name' node ≡ read gauge name' node
  unfolding set_allocated
  allocated-read_other [] gauge name' node apart = refl
  allocated-read_other (n ∷ nodes) gauge name' node apart =
      allocated-read_other nodes (set gauge name n (allocated n)) name' node apart
      ∙ read-set_other gauge name name' n node (allocated n) apart

module _ (infra : Infra) (log : Log) (name : Text) (all_nodes : Map Node) where
  -- The call of GetIPCapacity of a node.
  abbrev asked : Text → InstanceTypes → Result ℕ × InstanceTypes
  asked node cache = infra.get_ip_capacity log (get_or_zero zero_node all_nodes node) cache

  -- The cache behind the calls of these nodes, one after the other.
  abbrev pub cache_behind : List Text → InstanceTypes → InstanceTypes
  cache_behind [] cache = cache
  cache_behind (node ∷ nodes) cache = cache_behind nodes (asked node cache).1

  cache_behind-append :
      (nodes : List Text) (node : Text) (cache : InstanceTypes)
      → cache_behind (nodes ++ node ∷ []) cache ≡ (asked node (cache_behind nodes cache)).1
  cache_behind-append [] node cache = refl
  cache_behind-append (n ∷ nodes) node cache = cache_behind-append nodes node (asked n cache).1

  module _ (order : List Text) (first : InstanceTypes) where
    -- The gauge of a node has what the infrastructure reported of it at its turn, behind the calls of
    -- the nodes before it in the order, or 0 for an error.
    abbrev pub HasCapacity : Gauge → Text → Type 0
    HasCapacity gauge node =
        (before after : List Text) × (order ≡ before ++ node ∷ after)
        × (capacity : ℕ) × (or_zero (asked node (cache_behind before first)).0 ≡ ok capacity)
        × (read gauge name node ≡ some capacity)

    HasCapacity-step :
        (gauge : Gauge) (before : List Text) (capacity : ℕ) (n node : Text) (nodes : List Text)
        → order ≡ before ++ n ∷ nodes
        → or_zero (asked n (cache_behind before first)).0 ≡ ok capacity
        → Elem node (n ∷ nodes) ⊎ HasCapacity gauge node
        → Elem node nodes ⊎ HasCapacity (set gauge name n capacity) node
    HasCapacity-step gauge before capacity n node nodes o e at =
        elim (Bool-cases (text_eq n node)) [
          | inl same ↦
              let p = (text_eq_iff n node).0 same in
              inr (
                before,
                nodes,
                o ∙ ap (λ (k : Text). before ++ k ∷ nodes) p,
                capacity,
                subst (λ k. or_zero (asked k (cache_behind before first)).0 ≡ ok capacity) p e,
                read-set gauge name n node capacity
                    ∙ ap (λ b. if b then some capacity else read gauge name node) same,
              )
          | inr apart ↦ elim at [
            | inl (inl p) ↦ let clash = (text_eq_iff n node).1 (sym p) in cc
            | inl (inr later) ↦ inl later
            | inr (before', after', o', capacity', p, q) ↦ inr (
              before',
              after',
              o',
              capacity',
              p,
              read-set gauge name n node capacity
                  ∙ ap (λ b. if b then some capacity else read gauge name node) apart
                  ∙ q,
            )
          ]
        ]

    set_capacity-HasCapacity :
        (before nodes : List Text) (gauge : Gauge) (cache : InstanceTypes) (gauge' : Gauge)
        (cache' : InstanceTypes) (node : Text)
        → order ≡ before ++ nodes
        → cache ≡ cache_behind before first
        → Elem node nodes ⊎ HasCapacity gauge node
        → set_capacity infra log name all_nodes nodes gauge cache ≡ ok (gauge', cache')
        → HasCapacity gauge' node
    unfolding set_capacity
    set_capacity-HasCapacity before [] gauge cache gauge' cache' node o c at e = elim at [
      | inl z ↦ absurd z
      | inr h ↦
          subst (λ (g : Gauge). HasCapacity g node)
            (ap (λ (r : Gauge × InstanceTypes). r.0) (ok-injective e)) h
    ]
    set_capacity-HasCapacity before (n ∷ nodes) gauge cache gauge' cache' node o c at e =
        let call = asked n cache in
        let (capacity, there, rest) =
          >>=-eq-ok (or_zero call.0)
            (λ capacity.
              set_capacity infra log name all_nodes nodes (set gauge name n capacity) call.1)
            e in
        let reported = ap (λ (k : InstanceTypes). or_zero (asked n k).0) (sym c) ∙ there in
        set_capacity-HasCapacity (before ++ n ∷ []) nodes (set gauge name n capacity) call.1 gauge'
          cache' node (o ∙ sym (append_assoc before (n ∷ []) nodes))
          (ap (λ (k : InstanceTypes). (asked n k).1) c ∙ sym (cache_behind-append before n first))
          (HasCapacity-step gauge before capacity n node nodes o reported at) rest

-- What the gauges show behind updateMetrics.
pub record IsMeasured (d : Deps) (infra : Infra) (log : Log) (rc : ReconcileContext) (name : Text)
    (cache : InstanceTypes) (gauges gauges' : Gauges) : Type 0 where
  pub allocated :
      (node : Text)
      → Elem node (keys rc.finally_assigned_ips_by_node)
      → read gauges'.ip_allocated name node
        ≡ some (length (get_or_zero [] rc.finally_assigned_ips_by_node node) + 1)
  pub capacity :
      (node : Text)
      → Elem node (keys rc.all_nodes)
      → HasCapacity infra log name rc.all_nodes
          (d.range (keys rc.all_nodes))
          cache
          gauges'.ip_capacity
          node
  pub others :
      (name' node : Text)
      → name ≢ name'
      → read gauges'.ip_allocated name' node ≡ read gauges.ip_allocated name' node

module _ (d : Deps) (lawful : IsLawful d) (infra : Infra) (log : Log) (rc : ReconcileContext)
    (name : Text) where
  -- Behind updateMetrics the gauge of the allocated addresses of each node that the cycle gives addresses
  -- has their number plus one, the gauge of the capacity of each node has what GetIPCapacity
  -- reports of the node at its turn, or 0 for an error: with the cache that the calls of the nodes before it
  -- leave, in the order of the loop and from the cache at the start. And the allocations of other instances are as before.
  pub update_metrics-IsMeasured :
      (gauges : Gauges) (cache : InstanceTypes) (gauges' : Gauges) (cache' : InstanceTypes)
      → update_metrics d infra log rc name gauges cache ≡ ok (gauges', cache')
      → IsMeasured d infra log rc name cache gauges gauges'
  unfolding update_metrics
  update_metrics-IsMeasured gauges cache gauges' cache' e =
      let ips = rc.finally_assigned_ips_by_node in
      let ((capacity, last), there, rest) =
        >>=-eq-ok
          (set_capacity infra log name rc.all_nodes (d.range (keys rc.all_nodes)) gauges.ip_capacity
            cache)
          (λ (r : Gauge × InstanceTypes). ok (
            record {
              ip_allocated = set_allocated name ips (d.range (keys ips)) gauges.ip_allocated;
              ip_capacity = r.0;
            },
            r.1,
          ))
          e in
      subst (IsMeasured d infra log rc name cache gauges)
        (ap (λ (r : Gauges × InstanceTypes). r.0) (ok-injective rest))
        (record {
          allocated = λ node at.
              allocated-read name ips (d.range (keys ips)) gauges.ip_allocated node
                (inl ((lawful.range_elem (keys ips) node).1 at));
          capacity = λ node at.
              set_capacity-HasCapacity infra log name rc.all_nodes (d.range (keys rc.all_nodes))
                cache [] (d.range (keys rc.all_nodes)) gauges.ip_capacity cache capacity last node
                refl refl (inl ((lawful.range_elem (keys rc.all_nodes) node).1 at)) there;
          others = λ name' node apart.
              allocated-read_other name ips (d.range (keys ips)) gauges.ip_allocated name' node
                apart;
        })
