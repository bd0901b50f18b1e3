-- ===== src/Deps.antt =====
-- What the program takes from outside its repository, as a parameter of the model: the order in which
-- Go ranges over a map and runs goroutines, github.com/jpillora/ipmath, github.com/scylladb/go-set, and the
-- finalizers of github.com/redhat-cop/operator-utils.
use egressip_ipam_operator.Prelude.{
  ℕ, ◌+◌, ◌^◌, ◌<◌, ◌≤◌, ◌≡◌, ◌↔◌, Bool, true, false, List, Text, Elem, NoDup,
}
use egressip_ipam_operator.Go.Net.{Ip, IpNet, size}

pub record Deps : Type 1 where
  -- `for k := range m`: the keys of a map in the order in which the loop meets them
  pub range : List Text → List Text
  -- the order in which the goroutines of a loop get to their one call of a service
  pub schedule : (A : Type 0) → List A → List A
  -- ipmath.ToUInt32, ipmath.FromUInt32, ipmath.DeltaIP, ipmath.NetworkSize
  pub to_uint32 : Ip → ℕ
  pub from_uint32 : ℕ → Ip
  pub delta_ip : Ip → ℕ → Ip
  pub network_size : IpNet → ℕ
  -- strset.New(s...).List(), strset.Difference(strset.New(s...), strset.New(t...)).List(), the same
  -- of strset.Intersection, and strset.New(s...).IsEqual(strset.New(t...))
  pub str_list : List Text → List Text
  pub difference : List Text → List Text → List Text
  pub intersection : List Text → List Text → List Text
  pub is_equal : List Text → List Text → Bool
  -- u32set.New(s...).List()
  pub u32_list : List ℕ → List ℕ
  -- util.HasFinalizer, util.AddFinalizer, util.RemoveFinalizer, on an object's finalizers
  pub has_finalizer : List Text → Text → Bool
  pub add_finalizer : List Text → Text → List Text
  pub remove_finalizer : List Text → Text → List Text

-- What they promise. `network_size` counts in 32 bits, so nothing is said of the prefix length 0.
pub record IsLawful (d : Deps) : Type 1 where
  pub range_elem : (ks : List Text) (k : Text) → Elem k (d.range ks) ↔ Elem k ks
  pub range_nodup : (ks : List Text) → NoDup ks → NoDup (d.range ks)
  pub schedule_elem : (A : Type 0) (xs : List A) (x : A) → Elem x (d.schedule A xs) ↔ Elem x xs
  pub to_uint32_eq : (ip : Ip) → ip < 2 ^ 32 → d.to_uint32 ip ≡ ip
  pub from_uint32_eq : (n : ℕ) → n < 2 ^ 32 → d.from_uint32 n ≡ n
  pub delta_ip_eq : (ip : Ip) (n : ℕ) → ip + n < 2 ^ 32 → d.delta_ip ip n ≡ ip + n
  pub network_size_eq : (net : IpNet) → 1 ≤ net.ones → net.ones ≤ 32 → d.network_size net ≡ size net
  pub str_list_elem : (s : List Text) (k : Text) → Elem k (d.str_list s) ↔ Elem k s
  pub str_list_nodup : (s : List Text) → NoDup (d.str_list s)
  pub difference_elem :
      (s t : List Text) (k : Text) → Elem k (d.difference s t) ↔ (Elem k s × (¬ Elem k t))
  pub difference_nodup : (s t : List Text) → NoDup (d.difference s t)
  pub intersection_elem :
      (s t : List Text) (k : Text) → Elem k (d.intersection s t) ↔ (Elem k s × Elem k t)
  pub intersection_nodup : (s t : List Text) → NoDup (d.intersection s t)
  pub is_equal_iff :
      (s t : List Text) → (d.is_equal s t ≡ true) ↔ ((k : Text) → Elem k s ↔ Elem k t)
  pub u32_list_elem : (s : List ℕ) (n : ℕ) → Elem n (d.u32_list s) ↔ Elem n s
  pub u32_list_nodup : (s : List ℕ) → NoDup (d.u32_list s)
  pub has-add_finalizer :
      (fs : List Text) (f : Text) → d.has_finalizer (d.add_finalizer fs f) f ≡ true
  pub has-remove_finalizer :
      (fs : List Text) (f : Text) → d.has_finalizer (d.remove_finalizer fs f) f ≡ false
