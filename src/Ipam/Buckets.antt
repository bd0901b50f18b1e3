-- ===== src/Ipam/Buckets.antt =====
-- The nodes of a CIDR by the number of addresses that they carry (`map[int][]string`), and getMinKey.
pub mod Least
use egressip_ipam_operator.Prelude.{
  ℕ, Option, none, some, List, [], ◌∷◌, ◌++◌, Text, ◌==◌, if◌then◌else◌,
}
use egressip_ipam_operator.Ipam.Pool.{sort}

abbrev pub Buckets : Type 0
Buckets = List (ℕ × List Text)

-- `m[n]`, the empty slice where the key is missing
unfoldable pub bucket : Buckets → ℕ → List Text
bucket [] n = []
bucket ((m, nodes) ∷ buckets) n = if m == n then nodes else bucket buckets n

-- `m[n] = nodes`
unfoldable pub set_bucket : Buckets → ℕ → List Text → Buckets
set_bucket [] n nodes = (n, nodes) ∷ []
set_bucket ((m, old) ∷ buckets) n nodes =
    if m == n then (n, nodes) ∷ buckets else (m, old) ∷ set_bucket buckets n nodes

-- `m[n] = append(m[n], node)`
abbrev pub add_to_bucket : Buckets → ℕ → Text → Buckets
add_to_bucket buckets n node = set_bucket buckets n (bucket buckets n ++ node ∷ [])

-- The keys of the buckets that hold a node.
unfoldable pub used_keys : Buckets → List ℕ
used_keys [] = []
used_keys ((n, []) ∷ buckets) = used_keys buckets
used_keys ((n, node ∷ nodes) ∷ buckets) = n ∷ used_keys buckets

abbrev pub first : List ℕ → Option ℕ
first [] = none
first (n ∷ ns) = some n

-- getMinKey: `none` for -1
unfoldable pub get_min_key : Buckets → Option ℕ
unfolding used_keys sort
get_min_key buckets = first (sort (used_keys buckets))
