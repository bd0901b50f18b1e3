-- ===== src/Ipam/Nodes/Placed.antt =====
-- Step 8 of assignIPsToNodes, at one CIDR
use egressip_ipam_operator.Prelude.{
  ℕ, ◌+◌, ◌≡◌, ◌⊎◌, refl, none, some, List, [], ◌∷◌, ◌++◌, Text, text_eq, text_eq_iff, Elem,
  Elem-append, NoDup, inl, inr, arith, Bool-cases, if◌then◌else◌, Option, Option-cases, subst, ap,
  ◌∙◌, Bool, true, false,
}
use egressip_ipam_operator.Go.Results.{ok}
use egressip_ipam_operator.Go.Maps.{Map, get, get_or_zero, get-put}
use egressip_ipam_operator.Ipam.Buckets.{Buckets, bucket, set_bucket, add_to_bucket, get_min_key}
use egressip_ipam_operator.Ipam.Buckets.Least.{
  numbers, bucket-set_bucket, set_bucket-NoDup, IsMinKey, no_nodes, least, get_min_key-IsMinKey,
}
use egressip_ipam_operator.Ipam.Nodes.{Loads, append_to, place, place_all}

abbrev pub ips_of : Map (List Text) → Text → List Text
ips_of m node = get_or_zero [] m node

-- The addresses of the nodes in `after` are those in `before`, and these.
pub record Placed (before : Map (List Text)) (ips : List Text) (after : Map (List Text))
    : Type 0 where
  pub kept : (node ip : Text) → Elem ip (ips_of before node) → Elem ip (ips_of after node)
  pub placed : (ip : Text) → Elem ip ips → (node : Text) × Elem ip (ips_of after node)
  pub no_more :
      (node ip : Text) → Elem ip (ips_of after node) → Elem ip (ips_of before node) ⊎ Elem ip ips

abbrev or_empty : Option (List Text) → List Text
or_empty o = elim o [ none ↦ [] | some ips ↦ ips ]

or_empty-if :
    (b : Bool) (ips : List Text) (o : Option (List Text))
    → or_empty (if b then some ips else o) ≡ (if b then ips else or_empty o)
or_empty-if true ips o = refl
or_empty-if false ips o = refl

ips_of-append_to :
    (m : Map (List Text)) (k node s : Text)
    → ips_of (append_to m k s) node
      ≡ (if text_eq k node then ips_of m k ++ s ∷ [] else ips_of m node)
ips_of-append_to m k node s =
    ap or_empty (get-put m k node (ips_of m k ++ s ∷ []))
    ∙ or_empty-if (text_eq k node) (ips_of m k ++ s ∷ []) (get m node)

Placed-one : (m : Map (List Text)) (k s : Text) → Placed m (s ∷ []) (append_to m k s)
Placed-one m k s = record {
  kept = λ node ip e. elim (Bool-cases (text_eq k node)) [
    | inl same ↦
        let p : k ≡ node = (text_eq_iff k node).0 same in
        rw (ips_of-append_to m k node s, same)
          ((Elem-append ip (ips_of m k) (s ∷ [])).1 (inl (rw (← p) at e)))
    | inr other ↦ rw (ips_of-append_to m k node s, other) e
  ];
  placed = λ ip e. elim e [
    | inl p ↦ (
      k,
      rw (ips_of-append_to m k k s, (text_eq_iff k k).1 refl)
          ((Elem-append ip (ips_of m k) (s ∷ [])).1 (inr (inl p))),
    )
    | inr z ↦ absurd z
  ];
  no_more = λ node ip e. elim (Bool-cases (text_eq k node)) [
    | inl same ↦
        let p : k ≡ node = (text_eq_iff k node).0 same in
        rw (← p)
          ((Elem-append ip (ips_of m k) (s ∷ [])).0 (rw (ips_of-append_to m k node s, same) at e))
    | inr other ↦ inl (rw (ips_of-append_to m k node s, other) at e)
  ];
}

Placed-trans :
    (a b c : Map (List Text)) (ip : Text) (ips : List Text)
    → Placed a (ip ∷ []) b
    → Placed b ips c
    → Placed a (ip ∷ ips) c
Placed-trans a b c ip ips p q = record {
  kept = λ node x e. q.kept node x (p.kept node x e);
  placed = λ x e. elim e [
    | inl same ↦ let (node, here) = p.placed x (inl same) in (node, q.kept node x here)
    | inr later ↦ q.placed x later
  ];
  no_more = λ node x e. elim (q.no_more node x e) [
    | inr later ↦ inr (inr later)
    | inl old ↦ elim (p.no_more node x old) [
      | inl older ↦ inl older
      | inr new ↦ elim new [ inl same ↦ inr (inl same) | inr z ↦ absurd z ]
    ]
  ];
}

-- Each number has one bucket, and one of the buckets holds a node.
pub record HasNode (buckets : Buckets) : Type 0 where
  pub nodup : NoDup (numbers buckets)
  pub number : ℕ
  pub node : Text
  pub nodes : List Text
  pub here : bucket buckets number ≡ node ∷ nodes

append-cases : (xs : List Text) (x : Text) → (y : Text) × (ys : List Text) × (xs ++ x ∷ [] ≡ y ∷ ys)
append-cases [] x = (x, [], refl)
append-cases (y ∷ ys) x = (y, ys ++ x ∷ [], refl)

add_to_bucket-HasNode :
    (buckets : Buckets) (n : ℕ) (node : Text)
    → NoDup (numbers buckets)
    → HasNode (add_to_bucket buckets n node)
add_to_bucket-HasNode buckets n node h =
    let (y, ys, p) = append-cases (bucket buckets n) node in
    record {
      nodup = set_bucket-NoDup buckets n _ h;
      number = n;
      node = y;
      nodes = ys;
      here = ground (arith, bucket-set_bucket buckets n n (bucket buckets n ++ node ∷ []), p);
    }

place-Placed :
    (cidr ip : Text) (loads : Loads)
    → HasNode loads.buckets
    → (loads' : Loads) × (place cidr ip loads ≡ ok loads')
      × HasNode loads'.buckets
      × Placed loads.ips_by_node (ip ∷ []) loads'.ips_by_node
unfolding place
place-Placed cidr ip loads h = elim (Option-cases (get_min_key loads.buckets)) [
  | inl empty ↦
      absurd (
        nothing (subst (IsMinKey loads.buckets) empty (get_min_key-IsMinKey loads.buckets h.nodup)))
  | inr (n, found) ↦
      let (node, nodes, p) =
        holds n
          (subst (IsMinKey loads.buckets) found (get_min_key-IsMinKey loads.buckets h.nodup)) in
      (
        record loads {
          ips_by_node = append_to loads.ips_by_node node ip;
          buckets = add_to_bucket (set_bucket loads.buckets n nodes) (n + 1) node;
        },
        rw (found, place, p) refl,
        add_to_bucket-HasNode (set_bucket loads.buckets n nodes) (n + 1) node
            (set_bucket-NoDup loads.buckets n nodes h.nodup),
        Placed-one loads.ips_by_node node ip,
      )
]
  where
    nothing : IsMinKey loads.buckets none → ⊥
    nothing (no_nodes none') = let e = none' h.number in let b = h.here in cc

    holds :
        (n : ℕ)
        → IsMinKey loads.buckets (some n)
        → (node : Text) × (nodes : List Text) × (bucket loads.buckets n ≡ node ∷ nodes)
    holds n (least _ node nodes p _) = (node, nodes, p)

-- If a bucket of the CIDR holds a node, the loop over the addresses to be assigned fails for none of
-- them: each address is carried by a node at the end, every node still carries what it carried before, and
-- no node carries an address that it did not carry before and that was not to be assigned.
pub place_all-Placed :
    (cidr : Text) (ips : List Text) (loads : Loads)
    → HasNode loads.buckets
    → (loads' : Loads) × (place_all cidr ips loads ≡ ok loads')
      × Placed loads.ips_by_node ips loads'.ips_by_node
unfolding place_all
place_all-Placed cidr [] loads h = (
  loads,
  refl,
  record { kept = λ node ip e. e; placed = λ ip e. absurd e; no_more = λ node ip e. inl e },
)
place_all-Placed cidr (ip ∷ ips) loads h =
    let (mid, e, h', p) = place-Placed cidr ip loads h in
    let (end, e', p') = place_all-Placed cidr ips mid h' in
    (
      end,
      rw (e, e') refl,
      Placed-trans loads.ips_by_node mid.ips_by_node end.ips_by_node ip ips p p',
    )
