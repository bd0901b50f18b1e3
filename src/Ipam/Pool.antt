-- ===== src/Ipam/Pool.antt =====
-- The pool of a network: the addresses that are taken, in ascending order and each once.
pub mod Sorting
use egressip_ipam_operator.Prelude.{
  ℕ, suc, ◌+◌, ◌-◌, ◌≤◌, ◌<◌, ◌≡◌, List, [], ◌∷◌, arith, map, ltb, if◌then◌else◌, Elem, All, inl,
  inr, length,
}
use egressip_ipam_operator.Deps.{Deps}
use egressip_ipam_operator.Go.Net.{Ip, IpNet, size}

-- `sort.Slice(ipstrs, func(i, j int) bool { return ipstrs[i] < ipstrs[j] })`
unfoldable pub insert : ℕ → List ℕ → List ℕ
insert n [] = n ∷ []
insert n (x ∷ xs) = if ltb n x then n ∷ x ∷ xs else x ∷ insert n xs

unfoldable pub sort : List ℕ → List ℕ
unfolding insert
sort [] = []
sort (x ∷ xs) = insert x (sort xs)

-- sortIPs
unfoldable pub sort_ips : Deps → List Ip → List Ip
unfolding sort
sort_ips d ips = map d.from_uint32 (sort (d.u32_list (map d.to_uint32 ips)))

-- Every number is at least `lo` and less than the next one.
abbrev pub Ascending : ℕ → List ℕ → Type 0
Ascending lo [] = Unit
Ascending lo (x ∷ xs) = (lo ≤ x) × Ascending (suc x) xs

-- The last address of a network.
abbrev pub broadcast : IpNet → Ip
broadcast net = net.ip + size net - 1

-- What the allocation relies on: the addresses ascend within the network, and its last one is taken.
pub record IsPool (net : IpNet) (ips : List Ip) : Type 0 where
  pub ascends : Ascending net.ip ips
  pub within : All (λ ip. ip < net.ip + size net) ips
  pub closed : Elem (broadcast net) ips

pub Ascending-le : (lo : ℕ) (xs : List ℕ) (x : ℕ) → Ascending lo xs → Elem x xs → lo ≤ x
Ascending-le lo [] x h e = absurd e
Ascending-le lo (y ∷ ys) x h (inl p) = omega arith
Ascending-le lo (y ∷ ys) x h (inr e) = omega (arith, Ascending-le (suc y) ys x h.1 e)

-- Ascending numbers below a bound are no more than there is room for.
pub length-Ascending :
    (lo hi : ℕ) (xs : List ℕ)
    → Ascending lo xs
    → All (λ x. x < hi) xs
    → lo ≤ hi
    → lo + length xs ≤ hi
length-Ascending lo hi [] a b h = omega arith
length-Ascending lo hi (x ∷ xs) a b h = omega (arith, length-Ascending (suc x) hi xs a.1 b.1 b.0)
