-- ===== src/Ipam/Buckets/Least.antt =====
-- getMinKey of controllers/egressipam/ipam.go
use egressip_ipam_operator.Prelude.{
  ℕ, ◌≤◌, ◌≡◌, ◌≢◌, ◌⊎◌, refl, Option, none, some, List, [], ◌∷◌, Text, Elem, NoDup, inl, inr,
  arith, ◌==◌, Bool-cases, if◌then◌else◌,
}
use egressip_ipam_operator.Ipam.Pool.{sort, Ascending, Ascending-le}
use egressip_ipam_operator.Ipam.Pool.Sorting.{Elem-sort, sort-Ascending}
use egressip_ipam_operator.Ipam.Buckets.{Buckets, bucket, set_bucket, used_keys, first, get_min_key}

abbrev pub numbers : Buckets → List ℕ
numbers [] = []
numbers ((n, nodes) ∷ buckets) = n ∷ numbers buckets

pub bucket-set_bucket :
    (buckets : Buckets) (n m : ℕ) (nodes : List Text)
    → bucket (set_bucket buckets n nodes) m ≡ (if n == m then nodes else bucket buckets m)
unfolding bucket set_bucket
bucket-set_bucket [] n m nodes = refl
bucket-set_bucket ((k, old) ∷ buckets) n m nodes =
    ground (arith, bucket-set_bucket buckets n m nodes)

Elem-numbers-set :
    (buckets : Buckets) (n m : ℕ) (nodes : List Text)
    → Elem m (numbers (set_bucket buckets n nodes))
    → (m ≡ n) ⊎ Elem m (numbers buckets)
unfolding set_bucket
Elem-numbers-set [] n m nodes (inl p) = inl p
Elem-numbers-set [] n m nodes (inr e) = absurd e
Elem-numbers-set ((k, old) ∷ buckets) n m nodes e = elim (Bool-cases (k == n)) [
  | inl same ↦ elim (rw (same, set_bucket) at e) [ inl p ↦ inl p | inr q ↦ inr (inr q) ]
  | inr other ↦ elim (rw (other, set_bucket) at e) [
    | inl p ↦ inr (inl p)
    | inr q ↦ elim (Elem-numbers-set buckets n m nodes q) [ inl p ↦ inl p | inr r ↦ inr (inr r) ]
  ]
]

pub set_bucket-NoDup :
    (buckets : Buckets) (n : ℕ) (nodes : List Text)
    → NoDup (numbers buckets)
    → NoDup (numbers (set_bucket buckets n nodes))
unfolding set_bucket
set_bucket-NoDup [] n nodes h = (λ e. e, tt)
set_bucket-NoDup ((k, old) ∷ buckets) n nodes h = elim (Bool-cases (k == n)) [
  | inl same ↦ let p : k ≡ n = ground (arith, same) in rw (same, set_bucket, ← p) h
  | inr other ↦
      rw (other, set_bucket)
        (
          λ e. elim (Elem-numbers-set buckets n k nodes e) [
            | inl p ↦ ground (arith, other, p)
            | inr q ↦ h.0 q
          ],
          set_bucket-NoDup buckets n nodes h.1,
        )
]

Elem-used_keys-numbers :
    (buckets : Buckets) (n : ℕ) → Elem n (used_keys buckets) → Elem n (numbers buckets)
unfolding used_keys
Elem-used_keys-numbers [] n e = e
Elem-used_keys-numbers ((k, []) ∷ buckets) n e = inr (Elem-used_keys-numbers buckets n e)
Elem-used_keys-numbers ((k, node ∷ nodes) ∷ buckets) n (inl p) = inl p
Elem-used_keys-numbers ((k, node ∷ nodes) ∷ buckets) n (inr e) =
    inr (Elem-used_keys-numbers buckets n e)

used_keys-NoDup : (buckets : Buckets) → NoDup (numbers buckets) → NoDup (used_keys buckets)
unfolding used_keys
used_keys-NoDup [] h = tt
used_keys-NoDup ((k, []) ∷ buckets) h = used_keys-NoDup buckets h.1
used_keys-NoDup ((k, node ∷ nodes) ∷ buckets) h =
    (λ e. h.0 (Elem-used_keys-numbers buckets k e), used_keys-NoDup buckets h.1)

-- A used key is one of a bucket that holds a node.
bucket-of_used :
    (buckets : Buckets) (n : ℕ)
    → NoDup (numbers buckets)
    → Elem n (used_keys buckets)
    → (node : Text) × (nodes : List Text) × (bucket buckets n ≡ node ∷ nodes)
unfolding bucket used_keys
bucket-of_used [] n h e = absurd e
bucket-of_used ((k, []) ∷ buckets) n h e =
    let (node, nodes, p) = bucket-of_used buckets n h.1 e in
    let other : k ≢ n = λ q. h.0 (Elem-used_keys-numbers buckets k (rw q e)) in
    (node, nodes, ground (arith, other, p))
bucket-of_used ((k, node ∷ nodes) ∷ buckets) n h (inl p) = (node, nodes, ground arith)
bucket-of_used ((k, node' ∷ nodes') ∷ buckets) n h (inr e) =
    let (node, nodes, p) = bucket-of_used buckets n h.1 e in
    let other : k ≢ n = λ q. h.0 (Elem-used_keys-numbers buckets k (rw q e)) in
    (node, nodes, ground (arith, other, p))

used-of_bucket :
    (buckets : Buckets) (n : ℕ) (node : Text) (nodes : List Text)
    → bucket buckets n ≡ node ∷ nodes
    → Elem n (used_keys buckets)
unfolding bucket used_keys
used-of_bucket [] n node nodes e = cc
used-of_bucket ((k, []) ∷ buckets) n node nodes e = elim (Bool-cases (k == n)) [
  | inl same ↦ ground (arith, same, e)
  | inr other ↦ used-of_bucket buckets n node nodes (ground (arith, other, e))
]
used-of_bucket ((k, old ∷ olds) ∷ buckets) n node nodes e = elim (Bool-cases (k == n)) [
  | inl same ↦ inl (ground (arith, same))
  | inr other ↦ inr (used-of_bucket buckets n node nodes (ground (arith, other, e)))
]

-- `n` is the least number of a bucket that holds a node.
pub data IsMinKey (buckets : Buckets) : Option ℕ → Type 0 where
  no_nodes : ((n : ℕ) → bucket buckets n ≡ []) → IsMinKey buckets none
  least :
      (n : ℕ) (node : Text) (nodes : List Text)
      → bucket buckets n ≡ node ∷ nodes
      → ((m : ℕ) → bucket buckets m ≢ [] → n ≤ m)
      → IsMinKey buckets (some n)

List-cases : (xs : List Text) → (xs ≡ []) ⊎ ((y : Text) × (ys : List Text) × (xs ≡ y ∷ ys))
List-cases [] = inl refl
List-cases (y ∷ ys) = inr (y, ys, refl)

first-IsMinKey :
    (buckets : Buckets) (ns : List ℕ)
    → NoDup (numbers buckets)
    → ((n : ℕ) → Elem n (used_keys buckets) → Elem n ns)
    → ((n : ℕ) → Elem n ns → Elem n (used_keys buckets))
    → Ascending 0 ns
    → IsMinKey buckets (first ns)
first-IsMinKey buckets [] h to from a = no_nodes λ n. elim (List-cases (bucket buckets n)) [
  | inl empty ↦ empty
  | inr (node, nodes, p) ↦ absurd (to n (used-of_bucket buckets n node nodes p))
]
first-IsMinKey buckets (n ∷ ns) h to from a =
    let (node, nodes, p) = bucket-of_used buckets n h (from n (inl refl)) in
    least n node nodes p λ m other. elim (List-cases (bucket buckets m)) [
      | inl empty ↦ absurd (other empty)
      | inr (node', nodes', q) ↦
          Ascending-le n (n ∷ ns) m (omega arith, a.1)
            (to m (used-of_bucket buckets m node' nodes' q))
    ]

-- getMinKey returns the least number whose bucket holds a node, and -1 exactly when no bucket does,
-- provided that each number has one bucket, as the keys of a Go map have.
pub get_min_key-IsMinKey :
    (buckets : Buckets) → NoDup (numbers buckets) → IsMinKey buckets (get_min_key buckets)
unfolding get_min_key
get_min_key-IsMinKey buckets h =
    first-IsMinKey buckets (sort (used_keys buckets)) h
      (λ n e. (Elem-sort n (used_keys buckets)).1 e) (λ n e. (Elem-sort n (used_keys buckets)).0 e)
      (sort-Ascending (used_keys buckets) (used_keys-NoDup buckets h))
