-- ===== src/Namespaces/Parted.antt =====
-- getReferringNamespaces of controllers/egressipam/namespace.go
use egressip_ipam_operator.Prelude.{
  Bool, ◌≡◌, ◌↔◌, ◌⊎◌, true, false, List, [], ◌∷◌, ◌++◌, Text, Elem,
}
use egressip_ipam_operator.Api.{Namespace}
use egressip_ipam_operator.Namespaces.{Referring, refers, has_ips}

-- The items that refer to `name` and whose having addresses is `assigned`.
abbrev pub Listed : Text → Bool → List Namespace → Namespace → Type 0
Listed name assigned items n = Elem n items × (refers name n ≡ true) × (has_ips n ≡ assigned)

abbrev Sorted : Text → List Namespace → Referring → Referring → Type 0
Sorted name items r r' =
    ((n : Namespace)
      → Elem n r'.unassigned_namespaces
        ↔ (Elem n r.unassigned_namespaces ⊎ Listed name false items n))
    × ((n : Namespace)
        → Elem n r'.assigned_namespaces ↔ (Elem n r.assigned_namespaces ⊎ Listed name true items n))

-- What one item adds to one of the two lists.
abbrev added : Bool → Namespace → List Namespace → List Namespace
added true namespace xs = xs ++ namespace ∷ []
added false namespace xs = xs
