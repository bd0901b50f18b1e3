-- ===== src/Ipam/Namespaces/Sorted.antt =====
-- sortIPsByCIDR of controllers/egressipam/namespace.go
use egressip_ipam_operator.Prelude.{
  ◌≡◌, ◌⊎◌, refl, sym, ap, ◌∙◌, Bool-cases, none, some, List, [], ◌∷◌, ◌++◌, Text, Elem, inl, inr,
  Option-cases,
}
use egressip_ipam_operator.Go.Results.{ok, err, panic, >>=-eq-ok}
use egressip_ipam_operator.Go.Maps.{Map, keys, get, put, keys-put_old}
use egressip_ipam_operator.Go.Strings.{split}
use egressip_ipam_operator.Go.Net.{Ip, IpNet, parse_ip, contains}
use egressip_ipam_operator.Go.Net.Networks.{InNet, contains-InNet}
use egressip_ipam_operator.Api.{Namespace, namespace_association_annotation}
use egressip_ipam_operator.Context.{ReconcileContext}
use egressip_ipam_operator.Namespaces.{assigned_ip, sort_annotation, sort_namespaces, add_ip}
use egressip_ipam_operator.Ipam.Namespaces.Merged.{ips_at, Elem-append_at}

-- The context has a network for the CIDR, and `x` lies in it.
abbrev pub InCidr : ReconcileContext → Text → Ip → Type 0
InCidr rc c x = (net : IpNet) × (get rc.net_cidr_by_cidr c ≡ some net) × InNet net x

-- From `m` to `m'`, addresses are added that lie in their CIDRs, among them those that `P` names.
pub record Grows (rc : ReconcileContext) (P : Text → Ip → Type 0) (m m' : Map (List Ip))
    : Type 0 where
  pub kept : (c : Text) (x : Ip) → Elem x (ips_at m c) → Elem x (ips_at m' c)
  pub added : (c : Text) (x : Ip) → P c x → Elem x (ips_at m' c)
  pub from : (c : Text) (x : Ip) → Elem x (ips_at m' c) → Elem x (ips_at m c) ⊎ InCidr rc c x
  pub same_keys : ((c : Text) → Elem c rc.cidrs → Elem c (keys m)) → keys m' ≡ keys m

module _ (rc : ReconcileContext) where
  pub Grows-none :
      (P : Text → Ip → Type 0) (m : Map (List Ip))
      → ((c : Text) (x : Ip) → ¬ P c x)
      → Grows rc P m m
  Grows-none P m nothing = record {
    kept = λ c x e. e;
    added = λ c x p. absurd (nothing c x p);
    from = λ c x e. inl e;
    same_keys = λ known. refl;
  }

  pub Grows-trans :
      (P Q R : Text → Ip → Type 0) (a b c : Map (List Ip))
      → ((k : Text) (x : Ip) → R k x → P k x ⊎ Q k x)
      → Grows rc P a b
      → Grows rc Q b c
      → Grows rc R a c
  Grows-trans P Q R a b c split_at p q = record {
    kept = λ k x e. q.kept k x (p.kept k x e);
    added = λ k x r. elim (split_at k x r) [
      | inl e ↦ q.kept k x (p.added k x e)
      | inr e ↦ q.added k x e
    ];
    from = λ k x e. elim (q.from k x e) [ inl old ↦ p.from k x old | inr new ↦ inr new ];
    same_keys =
        λ known. let same = p.same_keys known in q.same_keys (λ k at. rw same (known k at)) ∙ same;
  }

  pub Grows-put :
      (m : Map (List Ip)) (k : Text) (ip : Ip)
      → Elem k rc.cidrs
      → InCidr rc k ip
      → Grows rc (λ c x. (c ≡ k) × (x ≡ ip)) m (put m k (ips_at m k ++ ip ∷ []))
  Grows-put m k ip at inside = record {
    kept = λ c x e. (Elem-append_at m k c (ip ∷ []) x).1 (inl e);
    added = λ c x (p, q). (Elem-append_at m k c (ip ∷ []) x).1 (inr (p, inl q));
    from = λ c x e. elim ((Elem-append_at m k c (ip ∷ []) x).0 e) [
      | inl old ↦ inl old
      | inr (p, r) ↦ elim r [ inl q ↦ inr (rw (p, q) inside) | inr z ↦ absurd z ]
    ];
    same_keys = λ known. keys-put_old m k (ips_at m k ++ ip ∷ []) (known k at);
  }

  -- `c` and `s` stand at the same place of the two lists.
  abbrev pub Zipped : List Text → List Text → Text → Text → Type 0
  Zipped [] ss c s = ⊥
  Zipped (k ∷ ks) [] c s = ⊥
  Zipped (k ∷ ks) (t ∷ ts) c s = ((c ≡ k) × (s ≡ t)) ⊎ Zipped ks ts c s

  abbrev ZippedIp : List Text → List Text → Text → Ip → Type 0
  ZippedIp cidrs ss c x = (s : Text) × Zipped cidrs ss c s × (parse_ip s ≡ some x)

  assigned_ip-ok :
      (k s : Text) (ip : Ip) → assigned_ip rc k s ≡ ok ip → (parse_ip s ≡ some ip) × InCidr rc k ip
  assigned_ip-ok k s ip e = elim (Option-cases (parse_ip s)) [
    | inl absent ↦ let clash : err _ ≡ ok ip = rw (absent, assigned_ip) at e in cc
    | inr (x, there) ↦ elim (Option-cases (get rc.net_cidr_by_cidr k)) [
      | inl absent ↦ let clash : panic ≡ ok ip = rw (there, assigned_ip, absent) at e in cc
      | inr (net, found) ↦ elim (Bool-cases (contains net (some x))) [
        | inl inside ↦
            let eq : ok x ≡ ok ip = rw (there, assigned_ip, found, inside) at e in
            let same : x ≡ ip = cc in
            (there ∙ ap some same, (net, found, contains-InNet net ip (rw (← same) inside)))
        | inr outside ↦
            let clash : err _ ≡ ok ip = rw (there, assigned_ip, found, outside) at e in cc
      ]
    ]
  ]

  sort_annotation-Grows :
      (cidrs ss : List Text) (m m' : Map (List Ip))
      → ((c : Text) → Elem c cidrs → Elem c rc.cidrs)
      → sort_annotation rc cidrs ss m ≡ ok m'
      → Grows rc (ZippedIp cidrs ss) m m'
  unfolding sort_annotation
  sort_annotation-Grows [] ss m m' sub e =
      let same : m ≡ m' = cc in rw (← same) (Grows-none (ZippedIp [] ss) m (λ c x (s, z, p). z))
  sort_annotation-Grows (k ∷ cidrs) [] m m' sub e = cc
  sort_annotation-Grows (k ∷ cidrs) (t ∷ ss) m m' sub e =
      let (ip, here, rest) =
        >>=-eq-ok (assigned_ip rc k t) (λ ip. sort_annotation rc cidrs ss (add_ip m k ip)) e in
      let (parsed, inside) = assigned_ip-ok k t ip here in
      Grows-trans (λ c x. (c ≡ k) × (x ≡ ip)) (ZippedIp cidrs ss) (ZippedIp (k ∷ cidrs) (t ∷ ss)) m
        (add_ip m k ip) m'
        (λ c x (s, z, p). elim z [
          | inl (q, r) ↦
              let eq : some x ≡ some ip = sym p ∙ ap parse_ip r ∙ parsed in inl (q, cc eq)
          | inr later ↦ inr (s, later, p)
        ])
        (Grows-put m k ip (sub k (inl refl)) inside)
        (sort_annotation-Grows cidrs ss (add_ip m k ip) m' (λ c at. sub c (inr at)) rest)

  -- The annotation of one of the namespaces gives `x` for the CIDR.
  pub record IsAssigned (namespaces : List Namespace) (c : Text) (x : Ip) : Type 0 where
    pub namespace : Namespace
    pub at : Elem namespace namespaces
    pub value : Text
    pub annotated : get namespace.annotations namespace_association_annotation ≡ some value
    pub text : Text
    pub zipped : Zipped rc.cidrs (split b',' value) c text
    pub parsed : parse_ip text ≡ some x

  pub sort_namespaces-Grows :
      (namespaces : List Namespace) (m m' : Map (List Ip))
      → sort_namespaces rc namespaces m ≡ ok m'
      → Grows rc (IsAssigned namespaces) m m'
  unfolding sort_namespaces
  sort_namespaces-Grows [] m m' e =
      let same : m ≡ m' = cc in rw (← same) (Grows-none (IsAssigned []) m (λ c x a. a.at))
  sort_namespaces-Grows (n ∷ namespaces) m m' e =
      elim (Option-cases (get n.annotations namespace_association_annotation)) [
        | inl absent ↦
            Grows-trans (λ c x. ⊥) (IsAssigned namespaces) (IsAssigned (n ∷ namespaces)) m m m'
              (λ c x a. elim a.at [
                | inl p ↦
                    let clash : none ≡ some a.value =
                      sym absent
                      ∙ sym (
                          ap (λ (o : Namespace). get o.annotations namespace_association_annotation)
                            p)
                      ∙ a.annotated in
                    cc
                | inr later ↦ inr (record {
                  namespace = a.namespace;
                  at = later;
                  value = a.value;
                  annotated = a.annotated;
                  text = a.text;
                  zipped = a.zipped;
                  parsed = a.parsed;
                })
              ])
              (Grows-none (λ c x. ⊥) m (λ c x z. z))
              (sort_namespaces-Grows namespaces m m' (rw (absent, sort_namespaces) at e))
        | inr (value, there) ↦
            let (mid, here, rest) =
              >>=-eq-ok (sort_annotation rc rc.cidrs (split b',' value) m)
                (sort_namespaces rc namespaces) (rw (there, sort_namespaces) at e) in
            Grows-trans (ZippedIp rc.cidrs (split b',' value)) (IsAssigned namespaces)
              (IsAssigned (n ∷ namespaces)) m mid m'
              (λ c x a. elim a.at [
                | inl p ↦
                    let eq : some a.value ≡ some value =
                      sym a.annotated
                      ∙ ap (λ (o : Namespace). get o.annotations namespace_association_annotation) p
                      ∙ there in
                    let same : a.value ≡ value = cc in inl (a.text, rw same at a.zipped, a.parsed)
                | inr later ↦ inr (record {
                  namespace = a.namespace;
                  at = later;
                  value = a.value;
                  annotated = a.annotated;
                  text = a.text;
                  zipped = a.zipped;
                  parsed = a.parsed;
                })
              ])
              (sort_annotation-Grows rc.cidrs (split b',' value) m mid (λ c at. at) here)
              (sort_namespaces-Grows namespaces mid m' rest)
      ]
