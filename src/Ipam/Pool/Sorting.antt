-- ===== src/Ipam/Pool/Sorting.antt =====
-- sortIPs of controllers/egressipam/ipam.go
use egressip_ipam_operator.Prelude.{
  ℕ, suc, ◌^◌, ◌≤◌, ◌<◌, ◌≡◌, ◌≢◌, ◌↔◌, List, [], ◌∷◌, arith, map, ltb, Elem, NoDup, All, All-Elem,
  All-of_Elem, inl, inr, Bool-cases, refl,
}
use egressip_ipam_operator.Deps.{Deps, IsLawful}
use egressip_ipam_operator.Go.Net.{Ip}
use egressip_ipam_operator.Ipam.Pool.{insert, sort, sort_ips, Ascending}

Elem-insert : (n m : ℕ) (xs : List ℕ) → Elem m (insert n xs) ↔ Elem m (n ∷ xs)
unfolding insert
Elem-insert n m [] = (λ e. e, λ e. e)
Elem-insert n m (x ∷ xs) = elim (Bool-cases (ltb n x)) [
  | inl lt ↦ rw lt (λ e. e, λ e. e)
  | inr ge ↦
      let ih = Elem-insert n m xs in
      rw ge (
        λ e. elim e [
          | inl p ↦ inr (inl p)
          | inr q ↦ elim (ih.0 q) [ inl p ↦ inl p | inr r ↦ inr (inr r) ]
        ],
        λ e. elim e [
          | inl p ↦ inr (ih.1 (inl p))
          | inr q ↦ elim q [ inl p ↦ inl p | inr r ↦ inr (ih.1 (inr r)) ]
        ],
      )
]

pub Elem-sort : (m : ℕ) (xs : List ℕ) → Elem m (sort xs) ↔ Elem m xs
unfolding sort
Elem-sort m [] = (λ e. e, λ e. e)
Elem-sort m (x ∷ xs) = (
  λ e. elim ((Elem-insert x m (sort xs)).0 e) [
    | inl p ↦ inl p
    | inr q ↦ inr ((Elem-sort m xs).0 q)
  ],
  λ e.
      (Elem-insert x m (sort xs)).1 (elim e [ inl p ↦ inl p | inr q ↦ inr ((Elem-sort m xs).1 q) ]),
)

insert-Ascending :
    (lo n : ℕ) (xs : List ℕ) → lo ≤ n → ¬ Elem n xs → Ascending lo xs → Ascending lo (insert n xs)
unfolding insert
insert-Ascending lo n [] h new a = (h, tt)
insert-Ascending lo n (x ∷ xs) h new a = elim (Bool-cases (ltb n x)) [
  | inl lt ↦ rw lt (h, (ground arith, a.1))
  | inr ge ↦
      let ne : n ≢ x = λ p. new (inl p) in
      rw ge (a.0, insert-Ascending (suc x) n xs (ground arith) (λ e. new (inr e)) a.1)
]

pub sort-Ascending : (xs : List ℕ) → NoDup xs → Ascending 0 (sort xs)
unfolding sort
sort-Ascending [] h = tt
sort-Ascending (x ∷ xs) h =
    insert-Ascending 0 x (sort xs) (omega arith) (λ e. h.0 ((Elem-sort x xs).0 e))
      (sort-Ascending xs h.1)

map_self : (f : ℕ → ℕ) (xs : List ℕ) → All (λ x. f x ≡ x) xs → map f xs ≡ xs
map_self f [] h = refl
map_self f (x ∷ xs) h = ground (arith, map_self f xs h.1)

-- A lower bound of all the numbers is one that they ascend from.
pub Ascending-raise :
    (lo hi : ℕ) (xs : List ℕ) → Ascending lo xs → All (λ x. hi ≤ x) xs → Ascending hi xs
Ascending-raise lo hi [] a h = tt
Ascending-raise lo hi (x ∷ xs) a h = (h.0, a.1)

module _ (d : Deps) (lawful : IsLawful d) (ips : List Ip) (fit : All (λ ip. ip < 2 ^ 32) ips) where
  sort_ips-eq-sort : sort_ips d ips ≡ sort (d.u32_list ips)
  unfolding sort_ips
  sort_ips-eq-sort =
      rw
        (map_self d.to_uint32 ips (
          All-of_Elem _ ips
            λ ip e. lawful.to_uint32_eq ip (All-Elem (λ ip. ip < 2 ^ 32) ips fit e)))
        (map_self d.from_uint32 (sort (d.u32_list ips)) (
          All-of_Elem _ (sort (d.u32_list ips)) λ n e. lawful.from_uint32_eq n (
            All-Elem (λ ip. ip < 2 ^ 32) ips fit
              ((lawful.u32_list_elem ips n).0 ((Elem-sort n (d.u32_list ips)).0 e)))))

  pub sort_ips-Ascending : Ascending 0 (sort_ips d ips)
  sort_ips-Ascending =
      rw sort_ips-eq-sort (sort-Ascending (d.u32_list ips) (lawful.u32_list_nodup ips))

  pub Elem-sort_ips : (ip : Ip) → Elem ip (sort_ips d ips) ↔ Elem ip ips
  Elem-sort_ips ip = rw sort_ips-eq-sort (
    λ e. (lawful.u32_list_elem ips ip).0 ((Elem-sort ip (d.u32_list ips)).0 e),
    λ e. (Elem-sort ip (d.u32_list ips)).1 ((lawful.u32_list_elem ips ip).1 e),
  )

  -- sortIPs returns the given addresses, each of them once and in ascending order, where they are of
  -- 32 bits.
  pub sort_ips-Sorted :
      Ascending 0 (sort_ips d ips) × ((ip : Ip) → Elem ip (sort_ips d ips) ↔ Elem ip ips)
  sort_ips-Sorted = (sort_ips-Ascending, Elem-sort_ips)
