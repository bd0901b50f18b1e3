-- ===== src/Ipam/Namespaces/Cleaned.antt =====
-- removeDuplicates, and the sorting of the pools in assignIPsToNamespaces
use egressip_ipam_operator.Prelude.{
  ◌≡◌, ◌↔◌, ◌<◌, ◌^◌, refl, sym, ap, ◌∙◌, Bool-cases, none, some, List, [], ◌∷◌, map, Text, text_eq,
  Elem, Elem-map, Elem-map_inv, All, All-Elem, All-of_Elem, inl, inr, Option-cases,
}
use egressip_ipam_operator.Deps.{Deps, IsLawful}
use egressip_ipam_operator.Go.Maps.{Map, keys, get}
use egressip_ipam_operator.Go.Net.{Ip, parse_ip, print_ip}
use egressip_ipam_operator.Go.Net.Printing.{parse_ip-print_ip}
use egressip_ipam_operator.Ipam.Pool.{sort_ips, Ascending}
use egressip_ipam_operator.Ipam.Pool.Sorting.{sort_ips-Sorted}
use egressip_ipam_operator.Ipam.Namespaces.{
  parse_all, without_duplicates, remove_duplicates, sort_all,
}

Elem-parse_all :
    (ss : List Text) (x : Ip)
    → Elem x (parse_all ss) ↔ ((s : Text) × Elem s ss × (parse_ip s ≡ some x))
unfolding parse_all
Elem-parse_all [] x = (λ e. absurd e, λ (_, e, _). absurd e)
Elem-parse_all (s ∷ ss) x = elim (Option-cases (parse_ip s)) [
  | inl absent ↦
      let rest = Elem-parse_all ss x in
      rw (parse_all, absent)
        (
          λ e. let (t, at, p) = rest.0 e in (t, inr at, p),
          λ (t, at, p). elim at [
            | inl same ↦ let clash : none ≡ some x = sym absent ∙ ap parse_ip (sym same) ∙ p in cc
            | inr later ↦ rest.1 (t, later, p)
          ],
        )
  | inr (ip, there) ↦
      let rest = Elem-parse_all ss x in
      rw (parse_all, there)
        (
          λ e. elim e [
            | inl same ↦ (s, inl refl, there ∙ ap some (sym same))
            | inr later ↦ let (t, at, p) = rest.0 later in (t, inr at, p)
          ],
          λ (t, at, p). elim at [
            | inl same ↦ let eq : some x ≡ some ip = sym p ∙ ap parse_ip same ∙ there in inl (cc eq)
            | inr later ↦ inr (rest.1 (t, later, p))
          ],
        )
]

module _ (d : Deps) (lawful : IsLawful d) where
  pub Elem-without_duplicates :
      (ips : List Ip) (x : Ip)
      → All (λ ip. ip < 2 ^ 32) ips
      → Elem x (without_duplicates d ips) ↔ Elem x ips
  unfolding without_duplicates
  Elem-without_duplicates ips x fit = (
    λ e.
        let (s, at, p) = (Elem-parse_all (d.str_list (map print_ip ips)) x).0 e in
        let (ip, here, q) =
          Elem-map_inv print_ip s ips ((lawful.str_list_elem (map print_ip ips) s).0 at) in
        let back = parse_ip-print_ip ip (All-Elem (λ ip. ip < 2 ^ 32) ips fit here) in
        let eq : some x ≡ some ip = sym p ∙ ap parse_ip q ∙ back in
        let same : x ≡ ip = cc in rw same here,
    λ e. (Elem-parse_all (d.str_list (map print_ip ips)) x).1 (
      print_ip x,
      (lawful.str_list_elem (map print_ip ips) (print_ip x)).1 (Elem-map print_ip x ips e),
      parse_ip-print_ip x (All-Elem (λ ip. ip < 2 ^ 32) ips fit e),
    ),
  )

  pub keys-cleaned : (m : Map (List Ip)) → keys (sort_all d (remove_duplicates d m)) ≡ keys m
  unfolding sort_all remove_duplicates
  keys-cleaned [] = refl
  keys-cleaned ((c, ips) ∷ m) = ap (◌∷◌ c) (keys-cleaned m)

  pub get-cleaned :
      (m : Map (List Ip)) (c : Text) (ips : List Ip)
      → get m c ≡ some ips
      → get (sort_all d (remove_duplicates d m)) c ≡ some (sort_ips d (without_duplicates d ips))
  unfolding sort_all remove_duplicates get
  get-cleaned [] c ips e = cc
  get-cleaned ((k, old) ∷ m) c ips e = elim (Bool-cases (text_eq k c)) [
    | inl same ↦
        let eq : some old ≡ some ips = rw (get, same) at e in
        let p : old ≡ ips = cc in rw (get, same, p) refl
    | inr other ↦ rw (get, other) (get-cleaned m c ips (rw (get, other) at e))
  ]

  -- The pool of a CIDR behind both steps: its addresses ascend, and they are the ones from before.
  pub Cleaned-Ascending :
      (ips : List Ip)
      → All (λ ip. ip < 2 ^ 32) ips
      → Ascending 0 (sort_ips d (without_duplicates d ips))
        × ((x : Ip) → Elem x (sort_ips d (without_duplicates d ips)) ↔ Elem x ips)
  Cleaned-Ascending ips fit =
      let fit' =
        All-of_Elem (λ ip. ip < 2 ^ 32) (without_duplicates d ips)
          (λ x e. All-Elem (λ ip. ip < 2 ^ 32) ips fit ((Elem-without_duplicates ips x fit).0 e)) in
      let (ascends, elem) = sort_ips-Sorted d lawful (without_duplicates d ips) fit' in
      (
        ascends,
        λ x. (
          λ e. (Elem-without_duplicates ips x fit).0 ((elem x).0 e),
          λ e. (elem x).1 ((Elem-without_duplicates ips x fit).1 e),
        ),
      )
