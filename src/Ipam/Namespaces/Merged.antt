-- ===== src/Ipam/Namespaces/Merged.antt =====
-- What the loops of assignIPsToNamespaces append to the taken addresses of each CIDR.
use egressip_ipam_operator.Prelude.{
  ◌≡◌, ◌↔◌, ◌⊎◌, refl, sym, ap, ◌∙◌, true, false, Bool, Bool-cases, Option, none, some, List, [],
  ◌∷◌, ◌++◌, Text, text_eq, text_eq_iff, if◌then◌else◌, Elem, Elem-append, inl, inr, Option-cases,
}
use egressip_ipam_operator.Deps.{Deps}
use egressip_ipam_operator.Go.Results.{ok, err}
use egressip_ipam_operator.Go.Maps.{Map, keys, get, put, get_or_zero, get-put, keys-put_old}
use egressip_ipam_operator.Go.Net.{Ip, IpNet, parse_cidr}
use egressip_ipam_operator.Ipam.Namespaces.{add_all, add_bounds, broadcast_ip}

abbrev pub ips_at : Map (List Ip) → Text → List Ip
ips_at m cidr = get_or_zero [] m cidr

abbrev or_empty : Option (List Ip) → List Ip
or_empty o = elim o [ none ↦ [] | some ips ↦ ips ]

or_empty-if :
    (b : Bool) (ips : List Ip) (o : Option (List Ip))
    → or_empty (if b then some ips else o) ≡ (if b then ips else or_empty o)
or_empty-if true ips o = refl
or_empty-if false ips o = refl

pub ips_at-put :
    (m : Map (List Ip)) (k c : Text) (ips : List Ip)
    → ips_at (put m k ips) c ≡ (if text_eq k c then ips else ips_at m c)
ips_at-put m k c ips = ap or_empty (get-put m k c ips) ∙ or_empty-if (text_eq k c) ips (get m c)

pub Elem-append_at :
    (m : Map (List Ip)) (k c : Text) (more : List Ip) (x : Ip)
    → Elem x (ips_at (put m k (ips_at m k ++ more)) c)
      ↔ (Elem x (ips_at m c) ⊎ ((c ≡ k) × Elem x more))
Elem-append_at m k c more x = elim (Bool-cases (text_eq k c)) [
  | inl same ↦
      let p : k ≡ c = (text_eq_iff k c).0 same in
      rw (ips_at-put m k c (ips_at m k ++ more), same, ← p)
        (
          λ e. elim ((Elem-append x (ips_at m k) more).0 e) [
            | inl l ↦ inl l
            | inr r ↦ inr (refl, r)
          ],
          λ e. (Elem-append x (ips_at m k) more).1 (elim e [ inl l ↦ inl l | inr (_, r) ↦ inr r ]),
        )
  | inr other ↦
      rw (ips_at-put m k c (ips_at m k ++ more), other)
        (
          inl,
          λ e. elim e [
            | inl l ↦ l
            | inr (p, _) ↦
                let clash : true ≡ false = sym ((text_eq_iff k c).1 (sym p)) ∙ other in cc
          ],
        )
]

module _ (more : Map (List Ip)) where
  pub Elem-add_all :
      (cidrs : List Text) (m : Map (List Ip)) (c : Text) (x : Ip)
      → Elem x (ips_at (add_all cidrs more m) c)
        ↔ (Elem x (ips_at m c) ⊎ (Elem c cidrs × Elem x (ips_at more c)))
  unfolding add_all
  Elem-add_all [] m c x = (inl, λ e. elim e [ inl l ↦ l | inr (z, _) ↦ absurd z ])
  Elem-add_all (k ∷ cidrs) m c x =
      let rest = Elem-add_all cidrs (put m k (ips_at m k ++ ips_at more k)) c x in
      let here = Elem-append_at m k c (ips_at more k) x in
      (
        λ e. elim (rest.0 e) [
          | inr (at, r) ↦ inr (inr at, r)
          | inl l ↦ elim (here.0 l) [ inl old ↦ inl old | inr (p, r) ↦ inr (inl p, rw p r) ]
        ],
        λ e. elim e [
          | inl l ↦ rest.1 (inl (here.1 (inl l)))
          | inr (at, r) ↦ elim at [
            | inl p ↦ rest.1 (inl (here.1 (inr (p, rw p at r))))
            | inr later ↦ rest.1 (inr (later, r))
          ]
        ],
      )

  pub keys-add_all :
      (cidrs : List Text) (m : Map (List Ip))
      → ((c : Text) → Elem c cidrs → Elem c (keys m))
      → keys (add_all cidrs more m) ≡ keys m
  unfolding add_all
  keys-add_all [] m known = refl
  keys-add_all (k ∷ cidrs) m known =
      let same = keys-put_old m k (ips_at m k ++ ips_at more k) (known k (inl refl)) in
      keys-add_all cidrs (put m k (ips_at m k ++ ips_at more k))
        (λ c at. rw same (known c (inr at)))
      ∙ same

-- `x` is the address that `c` is written with, or the last one of its network.
pub record IsBound (d : Deps) (c : Text) (x : Ip) : Type 0 where
  pub base : Ip
  pub net : IpNet
  pub parsed : parse_cidr c ≡ some (base, net)
  pub either : (x ≡ base) ⊎ (x ≡ broadcast_ip d base net)

module _ (d : Deps) where
  pub record Bounded (cidrs : List Text) (m m' : Map (List Ip)) : Type 0 where
    pub elem :
        (c : Text) (x : Ip)
        → Elem x (ips_at m' c) ↔ (Elem x (ips_at m c) ⊎ (Elem c cidrs × IsBound d c x))
    pub same_keys : ((c : Text) → Elem c cidrs → Elem c (keys m)) → keys m' ≡ keys m

  Bounded-cons :
      (k : Text) (cidrs : List Text) (m m' : Map (List Ip)) (base : Ip) (net : IpNet)
      → parse_cidr k ≡ some (base, net)
      → Bounded cidrs (put m k (ips_at m k ++ base ∷ broadcast_ip d base net ∷ [])) m'
      → Bounded (k ∷ cidrs) m m'
  Bounded-cons k cidrs m m' base net parsed b =
      let two = base ∷ broadcast_ip d base net ∷ [] in
      record {
        elem = λ c x.
            let here = Elem-append_at m k c two x in
            (
              λ e. elim ((b.elem c x).0 e) [
                | inr (at, r) ↦ inr (inr at, r)
                | inl l ↦ elim (here.0 l) [
                  | inl old ↦ inl old
                  | inr (p, r) ↦ inr (
                    inl p,
                    record {
                      base = base;
                      net = net;
                      parsed = rw p parsed;
                      either = elim r [
                        | inl q ↦ inl q
                        | inr s ↦ elim s [ inl q ↦ inr q | inr z ↦ absurd z ]
                      ];
                    },
                  )
                ]
              ],
              λ e. elim e [
                | inl l ↦ (b.elem c x).1 (inl (here.1 (inl l)))
                | inr (at, r) ↦ elim at [
                  | inr later ↦ (b.elem c x).1 (inr (later, r))
                  | inl p ↦
                      let same : some (r.base, r.net) ≡ some (base, net) =
                        sym r.parsed ∙ ap parse_cidr p ∙ parsed in
                      let base_eq : r.base ≡ base = cc in
                      let net_eq : r.net ≡ net = cc in
                      (b.elem c x).1 (
                        inl (
                          here.1 (
                            inr (
                              p,
                              elim r.either [
                                | inl q ↦ inl (q ∙ base_eq)
                                | inr q ↦
                                    inr (inl (q ∙ (λ i. broadcast_ip d (base_eq i) (net_eq i))))
                              ],
                            ))))
                ]
              ],
            );
        same_keys = λ known.
            let same = keys-put_old m k (ips_at m k ++ two) (known k (inl refl)) in
            b.same_keys (λ c at. rw same (known c (inr at))) ∙ same;
      }

  pub add_bounds-Bounded :
      (cidrs : List Text) (m m' : Map (List Ip)) → add_bounds d cidrs m ≡ ok m' → Bounded cidrs m m'
  unfolding add_bounds
  add_bounds-Bounded [] m m' e =
      let same : m ≡ m' = cc in
      rw (← same) (record {
        elem = λ c x. (inl, λ y. elim y [ inl l ↦ l | inr (z, _) ↦ absurd z ]);
        same_keys = λ known. refl;
      })
  add_bounds-Bounded (k ∷ cidrs) m m' e = elim (Option-cases (parse_cidr k)) [
    | inl absent ↦ let clash : err _ ≡ ok m' = rw (absent, add_bounds) at e in cc
    | inr ((base, net), there) ↦
        Bounded-cons k cidrs m m' base net there
          (add_bounds-Bounded cidrs _ m' (rw (there, add_bounds) at e))
  ]
