-- ===== src/Infra/Aws/Capacity/Cached.antt =====
-- GetIPCapacity of controllers/egressipam/aws/aws.go, and its cache
use native.Mathlib.Nat.{mod-lt}
use egressip_ipam_operator.Prelude.{
  ℕ, ◌^◌, ◌%◌, ◌<◌, ◌≡◌, refl, sym, ap, ◌∙◌, subst, inl, inr, Option, none, some, [], ◌∷◌, arith,
  Text, codes, Option-cases,
}
use egressip_ipam_operator.Go.Results.{Result, ok, err, panic, unknown_instance_type, ok-injective}
use egressip_ipam_operator.Go.Maps.{get}
use egressip_ipam_operator.Api.{Node}
use egressip_ipam_operator.Effects.{Log}
use egressip_ipam_operator.Infra.{InstanceTypes}
use egressip_ipam_operator.Infra.Aws.{Ec2}
use egressip_ipam_operator.Infra.Aws.Capacity.{
  get_instance_type_cache, get_capacity, capacity_of, cached, get_aws_ip_capacity,
}

-- A capacity that was found is a 32-bit value, of a cache that is not empty.
record IsFound (cache : InstanceTypes) (o : Option Text) (capacity : ℕ) : Type 0 where
  fits : capacity < 2 ^ 32
  entry : Text × ℕ
  entries : InstanceTypes
  same : cache ≡ entry ∷ entries

capacity_of-IsFound :
    (cache : InstanceTypes) (o : Option Text) (capacity : ℕ)
    → capacity_of cache o ≡ ok capacity
    → IsFound cache o capacity
unfolding get_capacity get
capacity_of-IsFound cache none capacity e = cc
capacity_of-IsFound [] (some t) capacity e = cc
capacity_of-IsFound (entry ∷ entries) (some t) capacity e =
    elim (Option-cases (get (entry ∷ entries) t)) [
      | inl missing ↦
          let failed : err unknown_instance_type ≡ ok capacity = rw (get_capacity, missing) at e in
          cc
      | inr (n, there) ↦
          let found : ok (n % 2 ^ 32) ≡ ok capacity = rw (get_capacity, there) at e in
          record {
            fits = subst (λ (c : ℕ). c < 2 ^ 32) (ok-injective found) (mod-lt n (omega arith));
            entry = entry;
            entries = entries;
            same = refl;
          }
    ]

instance_type : Node → Option Text
instance_type node = get node.labels (codes "beta.kubernetes.io/instance-type")

module _ (ec2 : Ec2) (log : Log) (node : Node) where
  from_cache :
      (entry : Text × ℕ) (entries : InstanceTypes)
      → get_aws_ip_capacity ec2 log node (entry ∷ entries)
        ≡ (capacity_of (entry ∷ entries) (instance_type node), entry ∷ entries)
  unfolding get_aws_ip_capacity get_instance_type_cache instance_type
  from_cache entry entries = refl

  cached-ok :
      (old : InstanceTypes) (r : Result InstanceTypes) (capacity : ℕ) (cache : InstanceTypes)
      → cached old node r ≡ (ok capacity, cache)
      → capacity_of cache (instance_type node) ≡ ok capacity
  unfolding instance_type
  cached-ok old (ok c) capacity cache e =
      ap (λ (p : Result ℕ × InstanceTypes). capacity_of p.1 (instance_type node)) (sym e)
      ∙ ap (λ (p : Result ℕ × InstanceTypes). p.0) e
  cached-ok old (err c) capacity cache e =
      let failed : err c ≡ ok capacity = ap (λ (p : Result ℕ × InstanceTypes). p.0) e in cc
  cached-ok old panic capacity cache e =
      let failed : panic ≡ ok capacity = ap (λ (p : Result ℕ × InstanceTypes). p.0) e in cc

-- If GetIPCapacity succeeds, its result is a 32-bit value, and with the cache that it leaves every later
-- call of the node gives the same result, leaves the cache as it is, and depends on no answer of AWS.
pub get_aws_ip_capacity-IsCached :
    (ec2 later : Ec2) (log log' : Log) (node : Node) (old : InstanceTypes) (capacity : ℕ)
    (cache : InstanceTypes)
    → get_aws_ip_capacity ec2 log node old ≡ (ok capacity, cache)
    → (capacity < 2 ^ 32) × (get_aws_ip_capacity later log' node cache ≡ (ok capacity, cache))
unfolding get_aws_ip_capacity
get_aws_ip_capacity-IsCached ec2 later log log' node old capacity cache e =
    let there = cached-ok ec2 log node old (get_instance_type_cache ec2 log old) capacity cache e in
    let found = capacity_of-IsFound cache (instance_type node) capacity there in
    (
      found.fits,
      ap (get_aws_ip_capacity later log' node) found.same
          ∙ from_cache later log' node found.entry found.entries
          ∙ ap (λ (c : InstanceTypes). (capacity_of c (instance_type node), c)) (sym found.same)
          ∙ ap (λ (r : Result ℕ). (r, cache)) there,
    )
